-- ===== src/Publishing/Publish.antt =====
-- Publishing a revision: the gates, the application of the plan, and the new version
-- (src/catalog/content-revisions/content-revisions.service.ts: publishRevision). The text of a
-- blocker's message is an argument, and so are the ids of new rows and the time.
use pathway_backend.Prelude.{
  map, ℕ, ◌+◌, String, Bool, true, false, not, ◌&&◌, Option, none, some, List, [], ◌∷◌, find,
  select, any, concat_map, string_Eq, ◌==◌,
}
use pathway_backend.Exceptions.{Exception, Result, ok, err, not_found, domain}
use pathway_backend.Effects.{Effect, capture}
use pathway_backend.Database.{PrismaClient}
use pathway_backend.Snapshot.{CareerSnapshotStep, CareerSnapshotOutlook}
use pathway_backend.Plan.Types.{
  PlanBlocker, BlockerCode, step_has_progress, missing_career_field, no_skills, no_pathway_steps,
}
use pathway_backend.Plan.Build.{build_plan}
use pathway_backend.Revisions.{
  Failure, Tables, Career, ContentRevision, Review, Actor, Outcome, live, published, is_approved,
  is_retired, is_admin, is_approval, revision_not_found, career_not_found, career_retired,
  invalid_revision_state, revision_stale, no_approving_review, progress_lost, plan_blocked,
  not_applied, record_missing, found, refuse_if, finish, failed, done, find_revision, find_career,
  live_career, step_learner_counts, Pathway, UserPathwayStep,
}
use pathway_backend.Publishing.{Applied}
use pathway_backend.Publishing.Apply.{apply_plan}

-- The response, without its two statuses, which are constants.
pub record Published : Type 0 where
  pub revision_id : String
  pub career_id : String
  pub new_version : ℕ
  pub published_at : ℕ

abbrev pub is_progress_blocker : PlanBlocker → Bool
is_progress_blocker b = elim b.code [
  | step_has_progress ↦ true
  | missing_career_field ↦ false
  | no_skills ↦ false
  | no_pathway_steps ↦ false
]

abbrev pub blocker_code : BlockerCode → String
blocker_code missing_career_field = "MISSING_CAREER_FIELD"
blocker_code no_skills = "NO_SKILLS"
blocker_code no_pathway_steps = "NO_PATHWAY_STEPS"
blocker_code step_has_progress = "STEP_HAS_PROGRESS"

unfoldable pub publish_exception : (PlanBlocker → String) → Failure → Exception
publish_exception message revision_not_found = not_found "Revision not found"
publish_exception message career_not_found = not_found "Career not found"
publish_exception message career_retired =
    domain 409 "CAREER_RETIRED" "Only an ADMIN can publish a revision on a retired career"
publish_exception message revision_stale =
    domain 409 "REVISION_STALE"
      "The live career changed since this revision was created; rebase first"
publish_exception message (progress_lost b) =
    domain 409 "STEP_HAS_PROGRESS" "A removed step has learner progress"
publish_exception message (plan_blocked b) = domain 400 (blocker_code b.code) (message b)
publish_exception message no_approving_review =
    domain 409 "NO_APPROVING_REVIEW" "Revision is marked APPROVED but has no approving review"
publish_exception message (not_applied e) = e
publish_exception message record_missing = not_found "Record not found"
publish_exception message _ =
    domain 409 "INVALID_REVISION_STATE" "Only an APPROVED revision can be published"

-- `if (blocker) return { failure: … }`
unfoldable pub refuse_blocker :
    {A : Type 0} → Tables → Option PlanBlocker → (PlanBlocker → Failure) → Outcome A → Outcome A
refuse_blocker t none failure next = next
refuse_blocker t (some b) failure next = failed (failure b) t

abbrev pub first_blocker : List PlanBlocker → Option PlanBlocker
first_blocker [] = none
first_blocker (b ∷ blockers) = some b

-- An exception of `applyPlan` leaves the transaction.
unfoldable pub applied : {A B : Type 0} → Tables → Result A → (A → Outcome B) → Outcome B
applied t (err e) next = failed (not_applied e) t
applied t (ok a) next = next a

abbrev pub pathway_steps : Option Pathway → List CareerSnapshotStep
pathway_steps none = []
pathway_steps (some p) = p.steps

-- The rows that the plan of a career may write.
abbrev pub applied_state : Tables → Career → Applied
applied_state t c = record {
  content = c.content;
  pathway = c.pathway;
  skills = c.skills;
  outlook = c.outlook;
  resources = t.resources;
  foreign_outlook =
      concat_map (λ (other : Career). map (λ (o : CareerSnapshotOutlook). o.id) other.outlook)
        (select (λ (other : Career). not (other.id == c.id)) t.careers);
  foreign_links =
      concat_map
        (λ (other : Career).
          concat_map (λ (s : CareerSnapshotStep). s.resource_ids) (pathway_steps other.pathway))
        (select (λ (other : Career). not (other.id == c.id)) t.careers);
}

abbrev has_step : Option Pathway → UserPathwayStep → Bool
has_step p u = any (λ (s : CareerSnapshotStep). s.id == u.pathway_step_id) (pathway_steps p)

-- With a step that is deleted goes the progress on it.
abbrev pub is_orphan : (old new : Option Pathway) → UserPathwayStep → Bool
is_orphan old new u = has_step old u && not (has_step new u)

-- What the plan wrote and the update of the career's row, on that row.
abbrev pub published_career : Applied → Actor → Review → (now : ℕ) → Career → Career
published_career s actor review now c = record c {
  content = s.content;
  pathway = s.pathway;
  skills = s.skills;
  outlook = s.outlook;
  version = c.version + 1;
  status = live;
  published_by_id = some actor.id;
  published_at = some now;
  reviewed_by_id = some review.reviewer_id;
  reviewed_at = some review.created_at;
}

module _ (db : PrismaClient) (new_id : String → String) where
  unfoldable pub published_with :
      Career
      → (revision_id : String) → Actor
      → Review
      → (now : ℕ) → Tables
      → Applied
      → Outcome Published
  published_with career revision_id actor review now t s =
      found t
        (db.update Career (λ c. c.id == career.id) (published_career s actor review now) t.careers)
        record_missing
        (λ e.
          found t
            (db.update ContentRevision (λ r. r.id == revision_id)
              (λ r. record r { status = published }) t.revisions)
            record_missing
            (λ f.
              done
                (record {
                  revision_id = revision_id;
                  career_id = career.id;
                  new_version = career.version + 1;
                  published_at = now;
                })
                (capture "revision_published" actor.id ∷ [])
                (record t {
                  careers = e.1;
                  resources = s.resources;
                  revisions = f.1;
                  user_steps =
                      (db.delete_many UserPathwayStep (is_orphan career.pathway s.pathway)
                        t.user_steps).0;
                })))

  unfoldable pub publish_transaction :
      (revision_id : String) → Actor → (now : ℕ) → Tables → Outcome Published
  publish_transaction revision_id actor now t =
      found t (find_revision db t revision_id) revision_not_found (λ peek.
        found t (find_career db t peek.career_id) career_not_found (λ career.
          found t (find_revision db t revision_id) revision_not_found (λ revision.
            refuse_if t (not (is_approved revision.status)) invalid_revision_state (
              refuse_if t (is_retired career.status && not (is_admin actor.role)) career_retired (
                found t (find_career db t peek.career_id) career_not_found (λ row.
                  let live_row = live_career db t row in
                  let plan =
                    build_plan live_row revision.snapshot revision.base_version
                      (step_learner_counts db t live_row.steps) in
                  refuse_if t plan.stale revision_stale (
                    refuse_blocker t (find is_progress_blocker plan.blockers) progress_lost (
                      refuse_blocker t (first_blocker plan.blockers) plan_blocked (
                        found t
                          (db.find_first Review
                            (λ r. r.revision_id == revision_id && is_approval r.decision)
                            (λ r. r.created_at) t.reviews)
                          no_approving_review
                          (λ review.
                            applied t (apply_plan db new_id plan.operations (applied_state t row))
                              (published_with career revision_id actor review now t)))))))))))

  unfoldable pub publish_revision :
      (PlanBlocker → String)
      → (revision_id : String) → Actor
      → (now : ℕ) → Tables
      → Result Published × List Effect × Tables
  publish_revision message revision_id actor now t =
      finish (publish_exception message) (publish_transaction revision_id actor now t)
