-- ===== src/Revisions/Ready.antt =====
-- What a submitted revision is known to be.
use pathway_backend.Prelude.{
  String, false, not, ◌&&◌, some, List, [], ◌∷◌, ◌≡◌, ◌≢◌, ◌⊎◌, refl, arith, sym, ◌∙◌, updated,
  find, ◌==◌, string_Eq,
}
use pathway_backend.Exceptions.{ok}
use pathway_backend.Effects.{Effect}
use pathway_backend.Database.{PrismaClient, PrismaLaws}
use pathway_backend.Roles.{Role, admin, role_Eq, role_eq_iff}
use pathway_backend.Plan.Types.{PlanBlocker}
use pathway_backend.Plan.Ready.{IsReady, build_plan-unblocked_iff}
use pathway_backend.Revisions.{
  RevisionStatus, draft, in_review, CareerStatus, retired, Tables, Career, ContentRevision, Actor,
  is_admin, is_draft, is_retired, find_revision, find_career, live_career, step_learner_counts,
}
use pathway_backend.Revisions.Reviewing.{has_blockers, submit_transaction, submit_revision}
use pathway_backend.Revisions.Failures.{
  Holds, found-Holds, refuse_if-Holds, finish-Holds, update-rows,
}

unfoldable pub WasSubmitted : PrismaClient → String → Actor → Tables → Tables → Type 0
WasSubmitted db revision_id actor t after =
    (revision : ContentRevision) × (career : Career) × (find
        (λ (r : ContentRevision). r.id == revision_id) t.revisions
      ≡ some revision)
    × (find (λ (c : Career). c.id == revision.career_id) t.careers ≡ some career)
    × (revision.status ≡ draft)
    × ((career.status ≢ retired) ⊎ (actor.role ≡ admin))
    × IsReady (live_career db t career) revision.snapshot
        (step_learner_counts db t (live_career db t career).steps)
    × (after ≡ record t {
      revisions =
          updated (λ (r : ContentRevision). r.id == revision_id)
            (λ r. record r { status = in_review }) t.revisions;
    })

unblocked : (blockers : List PlanBlocker) → has_blockers blockers ≡ false → blockers ≡ []
unblocked [] e = refl
unblocked (b ∷ blockers) e = cc

pub is_draft-eq : (s : RevisionStatus) → not (is_draft s) ≡ false → s ≡ draft
is_draft-eq s e = ground arith

open_or_admin :
    (s : CareerStatus) (r : Role)
    → (is_retired s && not (is_admin r)) ≡ false
    → (s ≢ retired) ⊎ (r ≡ admin)
open_or_admin s r e = ground (arith, role_eq_iff r admin)

submit_transaction-Holds :
    {db : PrismaClient}
    → PrismaLaws db
    → (revision_id : String) (actor : Actor) (t : Tables)
    → Holds
        (λ _ _ after. WasSubmitted db revision_id actor t after)
        (submit_transaction db revision_id actor t)
unfolding submit_transaction WasSubmitted
submit_transaction-Holds {db} laws revision_id actor t =
    let P : ContentRevision → List Effect → Tables → Type 0 =
      λ _ _ after. WasSubmitted db revision_id actor t after in
    found-Holds P _ (find_revision db t revision_id) _ _ (λ peek first.
      found-Holds P _ (find_career db t peek.career_id) _ _ (λ career locked.
        found-Holds P _ (find_revision db t revision_id) _ _ (λ revision again.
          refuse_if-Holds P _ _ _ _ (λ d. refuse_if-Holds P _ _ _ _ (λ o.
            found-Holds P _ (find_career db t peek.career_id) _ _ (λ row loaded.
              refuse_if-Holds P _ _ _ _ (λ b. found-Holds P _ _ _ _ (λ x wrote.
                let same : peek ≡ revision = cc (first, again) in
                let same_row : career ≡ row = cc (locked, loaded) in
                (
                  revision,
                  row,
                  sym (laws.find_unique_lem ContentRevision _ t.revisions) ∙ again,
                  rw (← same) (
                      sym (laws.find_unique_lem Career (λ c. c.id == peek.career_id) t.careers)
                      ∙ loaded),
                  is_draft-eq revision.status d,
                  rw (← same_row) (open_or_admin career.status actor.role o),
                  (build_plan-unblocked_iff _ _ revision.base_version _).0 (unblocked _ b),
                  rw (update-rows laws _ _ t.revisions wrote) refl,
                )))))))))

-- A revision is submitted only from a draft, on a career that is not retired (an admin may submit on a
-- retired one), and only when its plan has no blockers: the career's texts are complete, there are
-- skills and steps, and no step that learners completed is left out. Its status becomes in review, and
-- nothing else changes.
pub submit_revision-done :
    {db : PrismaClient}
    → PrismaLaws db
    → (revision_id : String) (actor : Actor) (t : Tables) {a : ContentRevision}
      {effects : List Effect} {after : Tables}
    → submit_revision db revision_id actor t ≡ (ok a, effects, after)
    → WasSubmitted db revision_id actor t after
unfolding submit_revision
submit_revision-done {db} laws revision_id actor t e =
    finish-Holds (λ _ _ left. WasSubmitted db revision_id actor t left) _
      (submit_transaction db revision_id actor t)
      (submit_transaction-Holds laws revision_id actor t) e
