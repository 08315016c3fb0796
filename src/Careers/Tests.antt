-- ===== src/Careers/Tests.antt =====
-- Careers on concrete rows.
use pathway_backend.Prelude.{
  String, Bool, none, some, [], ◌∷◌, ◌++◌, ◌≡◌, refl, inr, Memᴰ, sym, ◌∙◌, string_Eq, ◌==◌,
}
use pathway_backend.Prelude.Dict.{new_dict, put, put_all}
use pathway_backend.Effects.{capture}
use pathway_backend.Handlers.{throws, returns, tables_of, or_throw, throw_if}
use pathway_backend.Database.Reference.{reference, reference_laws, best}
use pathway_backend.Snapshot.TempId.{is_temp_id}
use pathway_backend.Plan.Build.{build_plan, plan_operations, plan_blockers}
use pathway_backend.Plan.Career.{
  plan_career_fields, text_changes, text_change, texts_change, plan_pathway, pathway_change,
  pathway_text, career_blockers, missing_fields,
}
use pathway_backend.Plan.Skills.{
  plan_skills, skill_operations, skill_operation, skill_removal, skill_blockers, no_skills_blockers,
}
use pathway_backend.Plan.Resources.{plan_resources, plan_outlook}
use pathway_backend.Plan.Steps.{
  plan_steps, step_operation, step_texts, step_move, plan_step_links, links_unless, step_deletion,
  step_creation, step_blockers, no_steps_blockers, progress_blocker, affected_learners,
}
use pathway_backend.Revisions.{ContentRevision, found, refuse_if, live_career, step_learner_counts}
use pathway_backend.Publishing.{and_then, each, expect, delete_row}
use pathway_backend.Publishing.Steps.{
  apply_steps, apply_step_links, move_steps, create_steps, delete_step, on_steps,
}
use pathway_backend.Publishing.Apply.{apply_plan, apply_skills, apply_outlook}
use pathway_backend.Publishing.Publish.{
  publish_revision, publish_transaction, published_with, refuse_blocker, applied,
}
use pathway_backend.Publishing.Samples.{
  revision, tables, eve, no_text, same_id, result, published_tables,
}
use pathway_backend.Careers.{
  CareerTables, CreateCareerDto, CreatedCareer, create_career, retire_career, delete_career,
  delete_refused, get_public_careers, new_career, first_revision, title_taken,
}
use pathway_backend.Careers.Steps.{here, next, publishing, creating, retiring}
use pathway_backend.Careers.Sound.{reach-IsSound}
use pathway_backend.Revisions.Soundness.{IsSound, HasApproval}
use pathway_backend.Careers.Removed.{publish_revision-delete_career}
use pathway_backend.Careers.Created.{WasCreated, create_career-done}

abbrev same_text : String → String → Bool
same_text a b = a == b

abbrev welder : CreateCareerDto
welder = record {
  title = "Welder";
  slug = "welder";
  description = "Joins metal";
  role_summary = none;
  field_id = "trades";
  target_levels = none;
}

abbrev at_first : CareerTables
at_first = record {
  tables = tables;
  fields = record { id = "trades"; slug = "skilled-trades" } ∷ [];
  user_pathways = [];
}

abbrev welder_row : CreatedCareer
welder_row = record {
  career = new_career welder "c2";
  revision = first_revision welder "c2" "r2" "ann";
}

abbrev with_welder : CareerTables
with_welder = record at_first {
  tables = record tables {
    careers = tables.careers ++ new_career welder "c2" ∷ [];
    revisions = tables.revisions ++ first_revision welder "c2" "r2" "ann" ∷ [];
  };
}

abbrev before_publishing : CareerTables
before_publishing = record { tables = tables; fields = []; user_pathways = [] }

abbrev after_publishing : CareerTables
after_publishing = record before_publishing { tables = published_tables }

abbrev after_retiring : CareerTables
after_retiring = tables_of (retire_career reference "c1" "eve" after_publishing)

publish_revision-delete_career_example :
    delete_career reference "c1" "eve" after_retiring ≡ throws delete_refused after_retiring
unfolding publish_revision publish_transaction published_with refuse_blocker applied found refuse_if
    build_plan plan_operations plan_blockers plan_career_fields text_changes text_change
    texts_change plan_pathway pathway_change pathway_text career_blockers missing_fields plan_skills
    skill_operations skill_operation skill_removal skill_blockers no_skills_blockers plan_resources
    plan_outlook plan_steps step_operation step_texts step_move plan_step_links links_unless
    step_deletion step_creation step_blockers no_steps_blockers progress_blocker affected_learners
    live_career step_learner_counts new_dict put put_all is_temp_id apply_plan apply_steps
    apply_step_links apply_skills apply_outlook move_steps create_steps on_steps delete_step
    delete_row and_then each expect best
publish_revision-delete_career_example =
    publish_revision-delete_career reference_laws same_id same_text same_id no_text "r1" eve 50
      before_publishing after_retiring {result = result}
      {effects = capture "revision_published" "eve" ∷ []} {after = published_tables} "eve" refl
      (next here (retiring "c1" "eve"))

only_row : (r : ContentRevision) → Memᴰ r at_first.tables.revisions → r ≡ revision
only_row r (Memᴰ.head e) = e
only_row r (Memᴰ.tail m) = elim m [ ]

at_first-IsSound_test : IsSound at_first.tables
unfolding HasApproval
at_first-IsSound_test = record {
  unique = λ r s m k e. only_row r m ∙ sym (only_row s k);
  each = (inr refl, tt);
}

-- A career is created and then the first one's revision is published.
abbrev both : CareerTables
both = record with_welder {
  tables = (publish_revision reference same_id no_text "r1" eve 50 with_welder.tables).2;
}

reach-IsSound_example : IsSound both.tables
unfolding create_career or_throw throw_if best
reach-IsSound_example =
    reach-IsSound reference_laws same_id same_text same_id no_text {t = at_first} {u = both}
      at_first-IsSound_test
      (next (next here (creating welder "ann" "c2" "r2" refl refl)) (publishing "r1" eve 50))

create_career-done_example :
    WasCreated reference same_text welder at_first welder_row [] with_welder
unfolding create_career or_throw throw_if best
create_career-done_example =
    create_career-done reference_laws same_text welder "ann" "c2" "r2" at_first
      {result = welder_row} {effects = []} {after = with_welder} refl

-- The new career is not public, a second one has its title, and it can be deleted, which leaves the
-- tables that were there.
welder_tests :
    (get_public_careers reference none (some "skilled-trades") with_welder ≡ [])
    × (create_career reference same_text welder "ann" "c3" "r3" with_welder
        ≡ throws title_taken with_welder)
    × (delete_career reference "c2" "ann" with_welder
        ≡ returns "Career deleted" (capture "career_deleted" "ann" ∷ []) at_first)
unfolding get_public_careers create_career delete_career or_throw throw_if best
welder_tests = (refl, refl, refl)
