-- ===== src/Publishing/Untouched.antt =====
-- A publication that fails has written nothing before: each check stands before the first write; and
-- so it is for the calls of the service that change a revision
-- (src/catalog/content-revisions/content-revisions.service.ts: publishRevision).
use pathway_backend.Prelude.{ℕ, String, Bool, false, Option, none, some, List, [], ◌≡◌, refl}
use pathway_backend.Exceptions.{Result, ok, err, is_ok}
use pathway_backend.Effects.{Effect}
use pathway_backend.Database.{PrismaClient, PrismaLaws}
use pathway_backend.Plan.Types.{PlanBlocker}
use pathway_backend.Revisions.{Failure, Tables, Career, Review, Actor, Outcome}
use pathway_backend.Revisions.Failures.{Command, run, run-failure, finish-fails}
use pathway_backend.Revisions.Untouched.{Keeps, found-Keeps, refuse_if-Keeps}
use pathway_backend.Publishing.{Applied}
use pathway_backend.Publishing.Publish.{
  refuse_blocker, applied, published_with, publish_transaction, publish_revision, publish_exception,
}

module _ {A : Type 0} (t : Tables) where
  refuse_blocker-Keeps :
      (o : Option PlanBlocker) (f : PlanBlocker → Failure) (next : Outcome A)
      → Keeps t next
      → Keeps t (refuse_blocker t o f next)
  unfolding refuse_blocker
  refuse_blocker-Keeps none f next h = h
  refuse_blocker-Keeps (some b) f next h = refl

  applied-Keeps :
      {B : Type 0} (r : Result B) (next : B → Outcome A)
      → ((b : B) → Keeps t (next b))
      → Keeps t (applied t r next)
  unfolding applied
  applied-Keeps (ok b) next h = h b
  applied-Keeps (err e) next h = refl

module _ (db : PrismaClient) (new_id : String → String) (revision_id : String) (actor : Actor)
    (now : ℕ) (t : Tables) where
  published_with-Keeps :
      (c : Career) (review : Review) (s : Applied)
      → Keeps t (published_with db new_id c revision_id actor review now t s)
  unfolding published_with
  published_with-Keeps c review s = found-Keeps t _ _ _ (λ e. found-Keeps t _ _ _ (λ f. tt))

  publish_transaction-Keeps : Keeps t (publish_transaction db new_id revision_id actor now t)
  unfolding publish_transaction
  publish_transaction-Keeps = found-Keeps t _ _ _ (λ peek. found-Keeps t _ _ _ (λ career.
      found-Keeps t _ _ _ (λ revision. refuse_if-Keeps t _ _ _ (
        refuse_if-Keeps t _ _ _ (
          found-Keeps t _ _ _ (λ row. refuse_if-Keeps t _ _ _ (
            refuse_blocker-Keeps t _ _ _ (
              refuse_blocker-Keeps t _ _ _ (
                found-Keeps t _ _ _
                  (λ review. applied-Keeps t _ _ (published_with-Keeps career review)))))))))))

  -- A publication that fails has no effects and leaves the tables.
  pub publish_revision-failure :
      (message : PlanBlocker → String)
      → is_ok (publish_revision db new_id message revision_id actor now t).0 ≡ false
      → ((publish_revision db new_id message revision_id actor now t).1 ≡ [])
        × ((publish_revision db new_id message revision_id actor now t).2 ≡ t)
  unfolding publish_revision
  publish_revision-failure message e =
      finish-fails (publish_exception message) t _ publish_transaction-Keeps e

-- A call that saves, rebases, recalls, deletes, submits or reviews a revision, or publishes it.
pub data Call : Type 0 where
  revise : Command → Call
  publish : (revision_id : String) (actor : Actor) (now : ℕ) → Call

-- Whether a call succeeds, its effects, and the tables that it leaves.
unfoldable pub answer :
    PrismaClient
    → (trim new_id : String → String) → (PlanBlocker → String)
    → Call
    → Tables
    → Bool × List Effect × Tables
answer db trim new_id message (revise c) t = run db trim c t
answer db trim new_id message (publish revision_id actor now) t =
    let x = publish_revision db new_id message revision_id actor now t in (is_ok x.0, x.1, x.2)

-- A call that fails, whatever the reason, has no effects and leaves every table as it was, although the
-- service returns most failures from inside the transaction, which commits what was written before:
-- saving, rebasing, recalling, deleting, submitting, reviewing and publishing a revision.
pub answer-failure :
    {db : PrismaClient}
    → PrismaLaws db
    → (trim new_id : String → String) (message : PlanBlocker → String) (c : Call) (t : Tables)
    → (answer db trim new_id message c t).0 ≡ false
    → ((answer db trim new_id message c t).1 ≡ []) × ((answer db trim new_id message c t).2 ≡ t)
unfolding answer
answer-failure laws trim new_id message (revise c) t e = run-failure laws trim c t e
answer-failure {db} laws trim new_id message (publish revision_id actor now) t e =
    publish_revision-failure db new_id revision_id actor now t message e
