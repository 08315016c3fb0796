-- ===== src/Revisions/Reviewing.antt =====
-- Submitting and reviewing a revision (src/catalog/content-revisions/content-revisions.service.ts).
use pathway_backend.Prelude.{
  ℕ, String, Bool, true, false, not, ◌&&◌, Option, none, some, List, [], ◌∷◌, string_Eq, nat_Eq,
  ◌==◌, if◌then◌else◌,
}
use pathway_backend.Exceptions.{Exception, Result, not_found, domain}
use pathway_backend.Effects.{Effect, capture}
use pathway_backend.Database.{PrismaClient}
use pathway_backend.Plan.Types.{PlanBlocker}
use pathway_backend.Plan.Build.{build_plan, is_revision_stale}
use pathway_backend.Revisions.{
  RevisionStatus, in_review, ReviewDecision, decision_status, is_approval, Failure,
  revision_not_found, career_not_found, career_retired, invalid_revision_state,
  self_review_not_allowed, revision_stale, revision_not_ready, record_missing, Tables,
  ContentRevision, Review, Actor, Outcome, done, found, refuse_if, finish, find_revision,
  find_career, update_revision, is_draft, is_in_review, is_retired, is_admin,
  is_self_review_blocked, live_career, step_learner_counts,
}

submit_exception : Failure → Exception
submit_exception revision_not_found = not_found "Revision not found"
submit_exception career_not_found = not_found "Career not found"
submit_exception career_retired =
    domain 409 "CAREER_RETIRED" "A retired career cannot take a revision"
submit_exception revision_not_ready =
    domain 400 "REVISION_NOT_READY" "The revision is not ready for review"
submit_exception _ = domain 409 "INVALID_REVISION_STATE" "Only a draft revision can be submitted"

review_exception : Failure → Exception
review_exception revision_not_found = not_found "Revision not found"
review_exception career_not_found = not_found "Career not found"
review_exception self_review_not_allowed =
    domain 403 "SELF_REVIEW_NOT_ALLOWED" "You cannot review a revision you created"
review_exception revision_stale =
    domain 409 "REVISION_STALE"
      "The live career changed since this revision was created; the editor must rebase it first"
review_exception _ = domain 409 "INVALID_REVISION_STATE" "Only a revision in review can be reviewed"

-- `plan.blockers.length > 0`
abbrev pub has_blockers : List PlanBlocker → Bool
has_blockers [] = false
has_blockers (b ∷ blockers) = true

-- `dto.note?.trim() || null`
abbrev pub trimmed_note : (String → String) → Option String → Option String
trimmed_note trim none = none
trimmed_note trim (some note) = if trim note == "" then none else some (trim note)

pub record Reviewed : Type 0 where
  pub review : Review
  pub revision_status : RevisionStatus

module _ (db : PrismaClient) where
  unfoldable pub submit_transaction : String → Actor → Tables → Outcome ContentRevision
  submit_transaction revision_id actor t =
      found t (find_revision db t revision_id) revision_not_found (λ peek.
        found t (find_career db t peek.career_id) career_not_found (λ career.
          found t (find_revision db t revision_id) revision_not_found (λ revision.
            refuse_if t (not (is_draft revision.status)) invalid_revision_state (
              refuse_if t (is_retired career.status && not (is_admin actor.role)) career_retired (
                found t (find_career db t peek.career_id) career_not_found (λ row.
                  let live = live_career db t row in
                  let plan =
                    build_plan live revision.snapshot revision.base_version
                      (step_learner_counts db t live.steps) in
                  refuse_if t (has_blockers plan.blockers) revision_not_ready (
                    update_revision db t revision_id (λ r. record r { status = in_review })
                      (λ r after. done r (capture "revision_submitted" actor.id ∷ []) after))))))))

  unfoldable pub submit_revision :
      String → Actor → Tables → Result ContentRevision × List Effect × Tables
  unfolding submit_exception
  submit_revision revision_id actor t =
      finish submit_exception (submit_transaction revision_id actor t)

  -- The database supplies the id and the creation time of the review; `trim` is the text's method.
  unfoldable pub review_transaction :
      (String → String)
      → String
      → Actor
      → ReviewDecision
      → (note : Option String) → (review_id : String) → (now : ℕ) → Tables
      → Outcome Reviewed
  review_transaction trim revision_id reviewer decision note review_id now t =
      found t (find_revision db t revision_id) revision_not_found (λ peek.
        found t (find_career db t peek.career_id) career_not_found (λ career.
          found t (find_revision db t revision_id) revision_not_found (λ revision.
            refuse_if t (not (is_in_review revision.status)) invalid_revision_state (
              refuse_if t (is_self_review_blocked revision.created_by_id reviewer)
                self_review_not_allowed
                (refuse_if t
                  (is_approval decision && is_revision_stale revision.base_version career.version)
                  revision_stale
                  (let review : Review = record {
                    id = review_id;
                    revision_id = revision_id;
                    reviewer_id = reviewer.id;
                    decision = decision;
                    note = trimmed_note trim note;
                    created_at = now;
                  } in
                    found t
                      (db.update ContentRevision (λ r. r.id == revision_id)
                        (λ r. record r { status = decision_status decision }) t.revisions)
                      record_missing
                      (λ e.
                        done (record { review = review; revision_status = e.0.status })
                          (capture "revision_reviewed" reviewer.id ∷ [])
                          (record t {
                            revisions = e.1;
                            reviews = db.create Review review t.reviews;
                          }))))))))

  unfoldable pub review_revision :
      (trim : String → String)
      → String
      → Actor
      → ReviewDecision
      → (note : Option String) → (review_id : String) → (now : ℕ) → Tables
      → Result Reviewed × List Effect × Tables
  unfolding review_exception
  review_revision trim revision_id reviewer decision note review_id now t =
      finish review_exception
        (review_transaction trim revision_id reviewer decision note review_id now t)
