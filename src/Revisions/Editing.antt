-- ===== src/Revisions/Editing.antt =====
-- Saving, rebasing, recalling and deleting a draft
-- (src/catalog/content-revisions/content-revisions.service.ts). A row that is read under its lock is
-- the row that the table holds.
use pathway_backend.Prelude.{
  ℕ, String, Bool, true, false, not, List, [], ◌∷◌, ◌&&◌, is_none, string_Eq, nat_Eq, ◌==◌,
  if◌then◌else◌,
}
use pathway_backend.Exceptions.{Exception, Result, ok, err, not_found, domain}
use pathway_backend.Effects.{Effect, capture}
use pathway_backend.Database.{PrismaClient}
use pathway_backend.Snapshot.{CareerSnapshot}
use pathway_backend.Snapshot.Consistency.{Problem, find_snapshot_problems}
use pathway_backend.Plan.Build.{is_revision_stale}
use pathway_backend.Revisions.{
  draft, Failure, revision_not_found, career_not_found, career_retired, revision_in_review,
  invalid_revision_state, not_revision_creator, record_missing, Tables, ContentRevision, Review,
  Actor, Outcome, done, found, refuse_if, finish, find_revision, find_career, update_revision,
  is_draft, is_in_review, is_retired, is_creator_or_admin,
}

save_exception : Failure → Exception
save_exception revision_not_found = not_found "Revision not found"
save_exception career_not_found = not_found "Career not found"
save_exception career_retired =
    domain 409 "CAREER_RETIRED" "A retired career cannot take a new revision"
save_exception revision_in_review =
    domain 409 "REVISION_IN_REVIEW" "The revision is in review; recall it before saving"
save_exception _ = domain 409 "INVALID_REVISION_STATE" "Only a draft revision can be saved"

rebase_exception : Failure → Exception
rebase_exception revision_not_found = not_found "Revision not found"
rebase_exception career_not_found = not_found "Career not found"
rebase_exception career_retired =
    domain 409 "CAREER_RETIRED" "A retired career cannot take a revision"
rebase_exception not_revision_creator =
    domain 403 "NOT_REVISION_CREATOR" "Only the revision creator can rebase it"
rebase_exception _ = domain 409 "INVALID_REVISION_STATE" "Only a draft revision can be rebased"

recall_exception : Failure → Exception
recall_exception revision_not_found = not_found "Revision not found"
recall_exception not_revision_creator =
    domain 403 "NOT_REVISION_CREATOR" "Only the revision creator or an admin can recall it"
recall_exception _ = domain 409 "INVALID_REVISION_STATE" "Only a revision in review can be recalled"

pub record Rebased : Type 0 where
  pub revision : ContentRevision
  pub live_version : ℕ
  pub rebased : Bool

module _ (db : PrismaClient) where
  unfoldable pub save_transaction : String → CareerSnapshot → Tables → Outcome ContentRevision
  save_transaction revision_id snapshot t =
      found t (find_revision db t revision_id) revision_not_found (λ peek.
        found t (find_career db t peek.career_id) career_not_found (λ career.
          refuse_if t (is_retired career.status) career_retired (
            found t (find_revision db t revision_id) revision_not_found (λ revision.
              refuse_if t (is_in_review revision.status) revision_in_review (
                refuse_if t (not (is_draft revision.status)) invalid_revision_state (
                  update_revision db t revision_id (λ r. record r { snapshot = snapshot })
                    (λ r after. done r [] after)))))))

  -- A draft with problems is rejected before the transaction starts.
  unfoldable pub saved_when_consistent :
      List Problem
      → Tables
      → Outcome ContentRevision
      → Result ContentRevision × List Effect × Tables
  unfolding save_exception
  saved_when_consistent [] t outcome = finish save_exception outcome
  saved_when_consistent (p ∷ problems) t outcome =
      (err (domain 400 "INVALID_SNAPSHOT" "The snapshot is inconsistent"), [], t)

  unfoldable pub save_draft_revision :
      String → CareerSnapshot → Tables → Result ContentRevision × List Effect × Tables
  unfolding saved_when_consistent
  save_draft_revision revision_id snapshot t =
      saved_when_consistent (find_snapshot_problems snapshot) t
        (save_transaction revision_id snapshot t)

  unfoldable pub rebase_transaction : String → String → Tables → Outcome Rebased
  rebase_transaction revision_id actor_user_id t =
      found t (find_revision db t revision_id) revision_not_found (λ peek.
        found t (find_career db t peek.career_id) career_not_found (λ career.
          refuse_if t (is_retired career.status) career_retired (
            found t (find_revision db t revision_id) revision_not_found (λ revision.
              refuse_if t (not (revision.created_by_id == actor_user_id)) not_revision_creator (
                refuse_if t (not (is_draft revision.status)) invalid_revision_state (
                  if not (is_revision_stale revision.base_version career.version)
                  then found t (find_revision db t revision_id) record_missing (λ current.
                    done
                      (record {
                        revision = current;
                        live_version = career.version;
                        rebased = false;
                      })
                      [] t)
                  else found t
                      (db.update ContentRevision (λ r. r.id == revision_id)
                        (λ r. record r { base_version = career.version }) t.revisions)
                      record_missing
                      (λ e.
                        done
                          (record { revision = e.0; live_version = career.version; rebased = true })
                          (capture "revision_rebased" actor_user_id ∷ [])
                          (record t { revisions = e.1 }))))))))

  unfoldable pub rebase_revision :
      (revision_id actor_user_id : String) → Tables → Result Rebased × List Effect × Tables
  unfolding rebase_exception
  rebase_revision revision_id actor_user_id t =
      finish rebase_exception (rebase_transaction revision_id actor_user_id t)

  unfoldable pub recall_transaction : String → Actor → Tables → Outcome ContentRevision
  recall_transaction revision_id actor t =
      found t (find_revision db t revision_id) revision_not_found (λ peek.
        found t (find_revision db t revision_id) revision_not_found (λ revision.
          refuse_if t (not (is_creator_or_admin revision.created_by_id actor)) not_revision_creator
            (refuse_if t (not (is_in_review revision.status)) invalid_revision_state (
              update_revision db t revision_id (λ r. record r { status = draft })
                (λ r after. done r [] after)))))

  unfoldable pub recall_revision :
      String → Actor → Tables → Result ContentRevision × List Effect × Tables
  unfolding recall_exception
  recall_revision revision_id actor t =
      finish recall_exception (recall_transaction revision_id actor t)

  -- The reviews of a revision that is deleted go with it (`onDelete: Cascade`).
  unfoldable pub delete_draft_revision : String → Tables → Result (Unit {0}) × List Effect × Tables
  delete_draft_revision revision_id t =
      let (kept, count) =
        db.delete_many ContentRevision (λ r. (r.id == revision_id) && is_draft r.status)
          t.revisions in
      if count == 0
      then (
        if is_none (find_revision db t revision_id)
            then err (not_found "Revision not found")
            else err (domain 409 "INVALID_REVISION_STATE" "Only a draft revision can be deleted"),
        [],
        record t { revisions = kept },
      )
      else (
        ok tt,
        [],
        record t {
          revisions = kept;
          reviews = (db.delete_many Review (λ v. v.revision_id == revision_id) t.reviews).0;
        },
      )
