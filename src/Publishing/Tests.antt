-- ===== src/Publishing/Tests.antt =====
-- Publishing on concrete rows.
use pathway_backend.Prelude.{none, some, [], ◌∷◌, ◌≡◌, refl}
use pathway_backend.Prelude.Dict.{new_dict, put, put_all}
use pathway_backend.Exceptions.{ok, err}
use pathway_backend.Effects.{capture}
use pathway_backend.Database.Reference.{reference, reference_laws, best}
use pathway_backend.Snapshot.{CareerSnapshot, CareerSnapshotOutlook, OutlookFields}
use pathway_backend.Snapshot.Samples.{nurse_draft, second_step, nurse}
use pathway_backend.Snapshot.TempId.{is_temp_id}
use pathway_backend.Plan.Build.{build_plan, plan_operations, plan_blockers}
use pathway_backend.Plan.Career.{
  plan_career_fields, text_changes, text_change, texts_change, plan_pathway, pathway_change,
  pathway_text, career_blockers, missing_fields,
}
use pathway_backend.Plan.Skills.{
  plan_skills, skill_operations, skill_operation, skill_removal, skill_blockers, no_skills_blockers,
}
use pathway_backend.Plan.Resources.{
  plan_resources, plan_outlook, outlook_operation, outlook_removal, outlook_creation,
  outlook_changed,
}
use pathway_backend.Plan.Steps.{
  plan_steps, step_operation, step_texts, step_move, plan_step_links, links_unless, step_deletion,
  step_creation, step_blockers, no_steps_blockers, progress_blocker, affected_learners,
}
use pathway_backend.Revisions.{Tables, found, refuse_if, live_career, step_learner_counts}
use pathway_backend.Publishing.{
  and_then, each, expect, update_row, delete_row, create_row, internal_error,
}
use pathway_backend.Publishing.Steps.{
  apply_steps, apply_step_links, move_steps, move_step, create_steps, delete_step, on_steps,
  checked, orders_unique,
}
use pathway_backend.Publishing.Apply.{
  apply_plan, apply_skills, apply_outlook, create_outlook, delete_outlook,
}
use pathway_backend.Publishing.Publish.{
  publish_revision, publish_transaction, published_with, refuse_blocker, applied,
}
use pathway_backend.Publishing.Untouched.{publish, answer, answer-failure}
use pathway_backend.Publishing.Done.{WasPublished, publish_revision-done}
use pathway_backend.Publishing.Samples.{
  state, tables, eve, no_text, same_id, result, published_tables,
}

publish_revision-done_example :
    WasPublished reference same_id "r1" eve 50 tables result
      (capture "revision_published" "eve" ∷ [])
      published_tables
unfolding publish_revision publish_transaction published_with refuse_blocker applied found refuse_if
    build_plan plan_operations plan_blockers plan_career_fields text_changes text_change
    texts_change plan_pathway pathway_change pathway_text career_blockers missing_fields plan_skills
    skill_operations skill_operation skill_removal skill_blockers no_skills_blockers plan_resources
    plan_outlook plan_steps step_operation step_texts step_move plan_step_links links_unless
    step_deletion step_creation step_blockers no_steps_blockers progress_blocker affected_learners
    live_career step_learner_counts new_dict put put_all is_temp_id apply_plan apply_steps
    apply_step_links apply_skills apply_outlook move_steps create_steps on_steps delete_step
    delete_row and_then each expect best
publish_revision-done_example =
    publish_revision-done reference_laws same_id no_text "r1" eve 50 tables {result = result}
      {effects = capture "revision_published" "eve" ∷ []} {after = published_tables} refl

-- The approval is missing.
abbrev without_review : Tables
without_review = record tables { reviews = [] }

answer-failure_example :
    ((answer reference same_id same_id no_text (publish "r1" eve 50) without_review).1 ≡ [])
    × ((answer reference same_id same_id no_text (publish "r1" eve 50) without_review).2
        ≡ without_review)
unfolding answer publish_revision publish_transaction published_with refuse_blocker applied found
    refuse_if build_plan plan_operations plan_blockers plan_career_fields text_changes text_change
    texts_change plan_pathway pathway_change pathway_text career_blockers missing_fields plan_skills
    skill_operations skill_operation skill_removal skill_blockers no_skills_blockers plan_resources
    plan_outlook plan_steps step_operation step_texts step_move plan_step_links links_unless
    step_deletion step_creation step_blockers no_steps_blockers progress_blocker affected_learners
    live_career step_learner_counts new_dict put put_all is_temp_id best
answer-failure_example =
    answer-failure reference_laws same_id same_id no_text (publish "r1" eve 50) without_review refl

-- A draft that leaves out the first step and moves the second to its place.
abbrev renumbered : CareerSnapshot
renumbered = record nurse_draft { steps = record second_step { order = 1 } ∷ [] }

-- Its plan has no blocker, and cannot be applied: the step that moves takes the order of the one that
-- is deleted later.
renumbered_tests :
    (plan_blockers nurse renumbered [] ≡ [])
    × (apply_plan reference same_id (plan_operations nurse renumbered []) state
        ≡ err internal_error)
unfolding plan_operations plan_blockers plan_career_fields text_changes text_change texts_change
    plan_pathway pathway_change pathway_text career_blockers missing_fields plan_skills
    skill_operations skill_operation skill_removal skill_blockers no_skills_blockers plan_resources
    plan_outlook plan_steps step_operation step_texts step_move plan_step_links links_unless
    step_deletion step_creation step_blockers no_steps_blockers progress_blocker affected_learners
    new_dict put put_all is_temp_id apply_plan apply_steps apply_step_links apply_skills
    apply_outlook move_steps move_step checked orders_unique update_row create_steps on_steps
    delete_step delete_row and_then each expect
renumbered_tests = (refl, refl)

abbrev no_figures : OutlookFields
no_figures = record {
  type = some "SALARY";
  geography = some "US";
  period = none;
  source_id = none;
  median = some "100";
  percentile25 = none;
  percentile75 = none;
  currency = none;
  pay_period = none;
  gross_or_net = none;
  experience_level = none;
  base_year = none;
  base_value = none;
  projected_year = none;
  projected_value = none;
  growth_percent = none;
  demand_level = none;
}

abbrev new_outlook : CareerSnapshotOutlook
new_outlook = record { id = "new-1"; fields = no_figures }

abbrev with_outlook : CareerSnapshot
with_outlook = record nurse_draft { outlook = new_outlook ∷ [] }

-- A new outlook row keeps the temporary id of the draft, and the plan of a second draft that keeps the
-- row cannot be applied.
new_outlook_tests :
    (apply_outlook reference [] (plan_outlook nurse with_outlook) [] ≡ ok (new_outlook ∷ []))
    × (apply_outlook reference []
          (plan_outlook (record nurse { outlook = new_outlook ∷ [] }) with_outlook)
          (new_outlook ∷ [])
        ≡ err internal_error)
unfolding plan_outlook outlook_operation outlook_removal outlook_creation new_dict put put_all
    is_temp_id outlook_changed apply_outlook create_outlook create_row delete_outlook delete_row
    and_then each expect
new_outlook_tests = (refl, refl)
