-- ===== src/Revisions/Tests.antt =====
-- Revisions on concrete rows.
use pathway_backend.Prelude.{
  String, true, none, some, [], ◌∷◌, ◌≡◌, ◌≢◌, refl, inl, inr, arith, eq_iff,
}
use pathway_backend.Exceptions.{is_ok}
use pathway_backend.Effects.{capture}
use pathway_backend.Database.Reference.{reference, reference_laws}
use pathway_backend.Roles.{editor, reviewer}
use pathway_backend.Snapshot.Samples.{nurse_draft, texts, path, first_step, skill}
use pathway_backend.Snapshot.TempId.{is_temp_id}
use pathway_backend.Snapshot.Consistency.{
  find_snapshot_problems, duplicates, duplicates_from, seen_at, pathway_problems, each_step,
  one_step, missing_resources,
}
use pathway_backend.Snapshot.Consistency.Laws.{IsConsistent}
use pathway_backend.Prelude.Dict.{new_dict, put, put_all}
use pathway_backend.Plan.Build.{build_plan, plan_blockers}
use pathway_backend.Plan.Career.{career_blockers, missing_fields}
use pathway_backend.Plan.Skills.{skill_blockers, no_skills_blockers}
use pathway_backend.Plan.Steps.{
  step_blockers, no_steps_blockers, progress_blocker, affected_learners,
}
use pathway_backend.Revisions.{
  live_career, step_learner_counts, live, draft, in_review, approve, approved, Career,
  ContentRevision, Tables, Actor, found, refuse_if,
}
use pathway_backend.Revisions.Editing.{
  save_draft_revision, save_transaction, saved_when_consistent, rebase_revision, rebase_transaction,
}
use pathway_backend.Revisions.Reviewing.{
  review_revision, review_transaction, submit_revision, submit_transaction,
}
use pathway_backend.Revisions.Approval.{WasReviewed, review_revision-done}
use pathway_backend.Plan.Ready.{IsReady, build_plan-unblocked_iff}
use pathway_backend.Revisions.Allowed.{review_revision-allowed, submit_revision-allowed}
use pathway_backend.Revisions.Ready.{WasSubmitted, submit_revision-done}
use pathway_backend.Revisions.Fresh.{WasRebased, rebase_revision-done}
use pathway_backend.Revisions.Saved.{WasSaved, save_draft_revision-done}

abbrev career : Career
career = record {
  id = "c1";
  version = 3;
  status = live;
  content = texts;
  skills = skill ∷ [];
  outlook = [];
  pathway =
      some (record { pathway = record { id = "p1"; content = path }; steps = first_step ∷ [] });
  published_at = some 1;
  published_by_id = some "ann";
  reviewed_at = some 1;
  reviewed_by_id = some "bob";
}

abbrev stale_draft : ContentRevision
stale_draft = record {
  id = "r1";
  career_id = "c1";
  base_version = 2;
  snapshot = nurse_draft;
  status = draft;
  created_by_id = "ann";
}

abbrev with_revision : ContentRevision → Tables
with_revision r = record {
  careers = career ∷ [];
  revisions = r ∷ [];
  reviews = [];
  resources = [];
  user_steps = [];
}

abbrev ann : Actor
ann = record { id = "ann"; role = editor }

abbrev bob : Actor
bob = record { id = "bob"; role = reviewer }

abbrev same_text : String → String
same_text s = s

abbrev submitted : ContentRevision
submitted = record stale_draft { base_version = 3; status = in_review }

rebase_revision-done_example :
    WasRebased "r1" "ann"
      (with_revision stale_draft)
      (record {
        revision = record stale_draft { base_version = 3 };
        live_version = 3;
        rebased = true;
      })
      (capture "revision_rebased" "ann" ∷ [])
      (with_revision (record stale_draft { base_version = 3 }))
unfolding rebase_revision rebase_transaction found refuse_if
rebase_revision-done_example =
    rebase_revision-done reference_laws "r1" "ann" (with_revision stale_draft) refl

submit_revision-done_example :
    WasSubmitted reference "r1" ann
      (with_revision stale_draft)
      (with_revision (record stale_draft { status = in_review }))
unfolding submit_revision submit_transaction found refuse_if build_plan plan_blockers
    career_blockers missing_fields skill_blockers no_skills_blockers step_blockers no_steps_blockers
    progress_blocker live_career step_learner_counts affected_learners new_dict put put_all
    is_temp_id
submit_revision-done_example =
    submit_revision-done reference_laws "r1" ann (with_revision stale_draft) refl

save_draft_revision-done_example :
    IsConsistent nurse_draft
    × WasSaved "r1" nurse_draft (with_revision stale_draft) (with_revision stale_draft)
unfolding save_draft_revision save_transaction saved_when_consistent found refuse_if
    find_snapshot_problems duplicates duplicates_from seen_at pathway_problems each_step one_step
    missing_resources is_temp_id
save_draft_revision-done_example =
    save_draft_revision-done reference_laws "r1" nurse_draft (with_revision stale_draft) refl

review_revision-done_example :
    WasReviewed same_text "r1" bob approve none "v1" 50
      (with_revision submitted)
      (record (with_revision (record submitted { status = approved })) {
        reviews =
            record {
              id = "v1";
              revision_id = "r1";
              reviewer_id = "bob";
              decision = approve;
              note = none;
              created_at = 50;
            }
            ∷ [];
      })
unfolding review_revision review_transaction found refuse_if
review_revision-done_example =
    review_revision-done reference_laws same_text "r1" bob approve none "v1" 50
      (with_revision submitted) refl

another_person : ◌≢◌ {A = String} "ann" "bob"
another_person = ground (arith, eq_iff "ann" "bob")

review_revision-allowed_example :
    is_ok
      (review_revision reference same_text "r1" bob approve none "v1" 50
        (with_revision submitted)).0
    ≡ true
review_revision-allowed_example =
    review_revision-allowed reference_laws same_text "r1" bob approve none "v1" 50
      (with_revision submitted) submitted career refl refl
      (record { in_review_now = refl; another = inl another_person; fresh = inr refl })

draft-IsReady : IsReady (live_career reference (with_revision stale_draft) career) nurse_draft (
    step_learner_counts reference
      (with_revision stale_draft)
      (live_career reference (with_revision stale_draft) career).steps)
unfolding build_plan plan_blockers career_blockers missing_fields skill_blockers no_skills_blockers
    step_blockers no_steps_blockers progress_blocker live_career step_learner_counts
    affected_learners new_dict put put_all is_temp_id
draft-IsReady =
    (build_plan-unblocked_iff (live_career reference (with_revision stale_draft) career) nurse_draft
        2
        (step_learner_counts reference (with_revision stale_draft)
          (live_career reference (with_revision stale_draft) career).steps)).0
      refl

submit_revision-allowed_example :
    is_ok (submit_revision reference "r1" ann (with_revision stale_draft)).0 ≡ true
submit_revision-allowed_example =
    submit_revision-allowed reference_laws "r1" ann (with_revision stale_draft) stale_draft career
      refl refl refl (inl (ground arith)) draft-IsReady
