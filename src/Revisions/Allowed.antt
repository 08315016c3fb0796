-- ===== src/Revisions/Allowed.antt =====
-- When a review and a submission go through.
use pathway_backend.Prelude.{
  ℕ, String, true, false, not, ◌&&◌, Option, some, List, [], ◌≡◌, ◌≢◌, ◌⊎◌, refl, ◌∙◌, arith, find,
  ◌==◌, string_Eq, nat_Eq, eq_iff,
}
use pathway_backend.Exceptions.{is_ok}
use pathway_backend.Database.{PrismaClient, PrismaLaws}
use pathway_backend.Database.Reference.{client_eq}
use pathway_backend.Roles.{admin, role_Eq, role_eq_iff}
use pathway_backend.Plan.Types.{PlanBlocker}
use pathway_backend.Plan.Build.{is_revision_stale}
use pathway_backend.Plan.Ready.{IsReady, build_plan-unblocked_iff}
use pathway_backend.Revisions.{
  draft, in_review, retired, is_retired, is_admin, is_draft, ReviewDecision, Tables, Career,
  ContentRevision, Actor, is_in_review, is_self_review_blocked, is_approval, found, refuse_if,
  live_career, step_learner_counts, find_career, find_revision,
}
use pathway_backend.Revisions.Reviewing.{
  has_blockers, review_revision, review_transaction, submit_revision, submit_transaction,
}
use pathway_backend.Revisions.Approval.{MayReview}

review_guards :
    (revision : ContentRevision) (career : Career) (reviewer : Actor) (decision : ReviewDecision)
    → MayReview revision career reviewer decision
    → (not (is_in_review revision.status) ≡ false)
      × (is_self_review_blocked revision.created_by_id reviewer ≡ false)
      × ((is_approval decision && is_revision_stale revision.base_version career.version) ≡ false)
review_guards revision career reviewer decision may = ground (
  arith,
  may.in_review_now,
  may.another,
  may.fresh,
  eq_iff revision.created_by_id reviewer.id,
  role_eq_iff reviewer.role admin,
)

-- A review goes through wherever the rules allow it: the revision is in review, the reviewer is an
-- admin or did not create it, and an approval is based on the live version.
pub review_revision-allowed :
    {db : PrismaClient}
    → PrismaLaws db
    → (trim : String → String) (revision_id : String) (reviewer : Actor) (decision : ReviewDecision)
      (text : Option String) (review_id : String) (now : ℕ) (t : Tables)
      (revision : ContentRevision) (career : Career)
    → find (λ (r : ContentRevision). r.id == revision_id) t.revisions ≡ some revision
    → find (λ (c : Career). c.id == revision.career_id) t.careers ≡ some career
    → MayReview revision career reviewer decision
    → is_ok (review_revision db trim revision_id reviewer decision text review_id now t).0 ≡ true
unfolding review_revision review_transaction found refuse_if
review_revision-allowed {db} laws trim revision_id reviewer decision text review_id now t revision
      career h1 h2 may =
    let (g1, g2, g3) = review_guards revision career reviewer decision may in
    rw (client_eq laws) (rw h1 (rw h2 (rw g1 (rw g2 (rw g3 refl)))))

submit_guards :
    (revision : ContentRevision) (career : Career) (actor : Actor)
    → revision.status ≡ draft
    → (career.status ≢ retired) ⊎ (actor.role ≡ admin)
    → (not (is_draft revision.status) ≡ false)
      × ((is_retired career.status && not (is_admin actor.role)) ≡ false)
submit_guards revision career actor d o = ground (arith, role_eq_iff actor.role admin, d, o)

no_blockers : (blockers : List PlanBlocker) → blockers ≡ [] → has_blockers blockers ≡ false
no_blockers blockers e = rw e refl

-- A submission goes through wherever the rules allow it: the revision is a draft, its career is not
-- retired or the actor is an admin, and the draft is ready.
pub submit_revision-allowed :
    {db : PrismaClient}
    → PrismaLaws db
    → (revision_id : String) (actor : Actor) (t : Tables) (revision : ContentRevision)
      (career : Career)
    → find (λ (r : ContentRevision). r.id == revision_id) t.revisions ≡ some revision
    → find (λ (c : Career). c.id == revision.career_id) t.careers ≡ some career
    → revision.status ≡ draft
    → (career.status ≢ retired) ⊎ (actor.role ≡ admin)
    → IsReady
        (live_career db t career)
        revision.snapshot
        (step_learner_counts db t (live_career db t career).steps)
    → is_ok (submit_revision db revision_id actor t).0 ≡ true
unfolding submit_revision submit_transaction found refuse_if
submit_revision-allowed {db} laws revision_id actor t revision career h1 h2 d o ready =
    let (g1, g2) = submit_guards revision career actor d o in
    let g3 = no_blockers _ ((build_plan-unblocked_iff _ _ revision.base_version _).1 ready) in
    let f1 : find_revision db t revision_id ≡ some revision =
      laws.find_unique_lem ContentRevision _ t.revisions ∙ h1 in
    let f2 : find_career db t revision.career_id ≡ some career =
      laws.find_unique_lem Career _ t.careers ∙ h2 in
    rw f1 (
      rw f2 (
        rw g1 (
          rw g2 (
            rw g3 (
              rw
                (laws.update_lem ContentRevision (λ r. r.id == revision_id)
                  (λ r. record r { status = in_review }) t.revisions)
                (rw h1 refl))))))
