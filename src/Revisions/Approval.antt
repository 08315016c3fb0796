-- ===== src/Revisions/Approval.antt =====
-- Reviews: who may decide on what, and that an approved revision has an approving review.
use pathway_backend.Prelude.{
  ap, ℕ, String, false, not, ◌&&◌, Option, some, List, [], ◌∷◌, ◌++◌, ◌≡◌, ◌≢◌, ◌⊎◌, refl, arith,
  sym, ◌∙◌, updated, find, nat_Eq, ◌==◌, string_Eq, eq_iff,
}
use pathway_backend.Exceptions.{ok}
use pathway_backend.Effects.{Effect}
use pathway_backend.Database.{PrismaClient, PrismaLaws}
use pathway_backend.Roles.{admin, role_Eq, role_eq_iff}
use pathway_backend.Plan.Build.{is_revision_stale}
use pathway_backend.Revisions.{
  RevisionStatus, approved, rejected, approve, in_review, ReviewDecision, reject, decision_status,
  is_approval, is_in_review, Tables, Career, ContentRevision, Review, Actor, is_self_review_blocked,
  find_revision, find_career,
}
use pathway_backend.Revisions.Reviewing.{
  Reviewed, review_transaction, review_revision, trimmed_note,
}
use pathway_backend.Revisions.Failures.{
  Holds, found-Holds, refuse_if-Holds, finish-Holds, update-rows,
}

-- The revision is in review; its reviewer did not write it, or is an admin; it is approved only
-- while it is based on the career's current version.
pub record MayReview (revision : ContentRevision) (career : Career) (reviewer : Actor)
    (decision : ReviewDecision) : Type 0 where
  pub in_review_now : revision.status ≡ in_review
  pub another : (revision.created_by_id ≢ reviewer.id) ⊎ (reviewer.role ≡ admin)
  pub fresh : (decision ≡ reject) ⊎ (revision.base_version ≡ career.version)

-- An approval approves the revision, a rejection rejects it.
abbrev pub decided : ReviewDecision → RevisionStatus
decided approve = approved
decided reject = rejected

decision_status-decided : (d : ReviewDecision) → decision_status d ≡ decided d
decision_status-decided approve = refl
decision_status-decided reject = refl

-- What a review leaves: the revision's new status and one review more.
unfoldable pub IsReviewOf :
    (String → String)
    → String
    → Actor
    → ReviewDecision
    → Option String
    → String
    → ℕ
    → Tables
    → Tables
    → Type 0
IsReviewOf trim revision_id reviewer decision note review_id now t after =
    (after.reviews
      ≡ t.reviews
        ++ record {
          id = review_id;
          revision_id = revision_id;
          reviewer_id = reviewer.id;
          decision = decision;
          note = trimmed_note trim note;
          created_at = now;
        }
          ∷ [])
    × (after.revisions
        ≡ updated (λ (r : ContentRevision). r.id == revision_id)
            (λ r. record r { status = decided decision }) t.revisions)
    × (after.careers ≡ t.careers)

may_review :
    (revision : ContentRevision) (career : Career) (reviewer : Actor) (decision : ReviewDecision)
    → not (is_in_review revision.status) ≡ false
    → is_self_review_blocked revision.created_by_id reviewer ≡ false
    → (is_approval decision && is_revision_stale revision.base_version career.version) ≡ false
    → MayReview revision career reviewer decision
may_review revision career reviewer decision i s f = record {
  in_review_now = ground arith;
  another =
      ground (arith, eq_iff revision.created_by_id reviewer.id, role_eq_iff reviewer.role admin);
  fresh = ground arith;
}

unfoldable pub WasReviewed :
    (String → String)
    → String
    → Actor
    → ReviewDecision
    → Option String
    → String
    → ℕ
    → Tables
    → Tables
    → Type 0
WasReviewed trim revision_id reviewer decision text review_id now t after =
    (revision : ContentRevision) × (career : Career) × (find
        (λ (r : ContentRevision). r.id == revision_id) t.revisions
      ≡ some revision)
    × (find (λ (c : Career). c.id == revision.career_id) t.careers ≡ some career)
    × MayReview revision career reviewer decision
    × IsReviewOf trim revision_id reviewer decision text review_id now t after

review_transaction-Holds :
    {db : PrismaClient}
    → PrismaLaws db
    → (trim : String → String) (revision_id : String) (reviewer : Actor) (decision : ReviewDecision)
      (text : Option String) (review_id : String) (now : ℕ) (t : Tables)
    → Holds
        (λ _ _ after. WasReviewed trim revision_id reviewer decision text review_id now t after)
        (review_transaction db trim revision_id reviewer decision text review_id now t)
unfolding review_transaction WasReviewed IsReviewOf
review_transaction-Holds {db} laws trim revision_id reviewer decision text review_id now t =
    let P : Reviewed → List Effect → Tables → Type 0 =
      λ _ _ after. WasReviewed trim revision_id reviewer decision text review_id now t after in
    found-Holds P _ (find_revision db t revision_id) _ _ (λ peek first.
      found-Holds P _ (find_career db t peek.career_id) _ _ (λ career locked.
        found-Holds P _ (find_revision db t revision_id) _ _ (λ revision again.
          refuse_if-Holds P _ _ _ _ (λ i. refuse_if-Holds P _ _ _ _ (λ s.
            refuse_if-Holds P _ _ _ _ (λ f. found-Holds P _ _ _ _ (λ x wrote.
              let same : peek ≡ revision = cc (first, again) in
              (
                revision,
                career,
                sym (laws.find_unique_lem ContentRevision _ t.revisions) ∙ again,
                rw (← same) (
                    sym (laws.find_unique_lem Career (λ c. c.id == peek.career_id) t.careers)
                    ∙ locked),
                may_review revision career reviewer decision i s f,
                (
                  laws.create_lem Review _ t.reviews,
                  update-rows laws _ _ t.revisions wrote
                      ∙ ap
                          (λ status.
                            updated (λ (r : ContentRevision). r.id == revision_id)
                              (λ r. record r { status = status }) t.revisions)
                          (decision_status-decided decision),
                  refl,
                ),
              ))))))))

-- A review succeeds only where the revision is in review, the reviewer is an admin or did not create
-- it, and, for an approval, the revision is based on the live version. It then adds exactly one
-- review, makes an approved revision of one that is approved and a rejected one of one that is
-- rejected, and leaves the careers alone.
pub review_revision-done :
    {db : PrismaClient}
    → PrismaLaws db
    → (trim : String → String) (revision_id : String) (reviewer : Actor) (decision : ReviewDecision)
      (text : Option String) (review_id : String) (now : ℕ) (t : Tables) {a : Reviewed}
      {effects : List Effect} {after : Tables}
    → review_revision db trim revision_id reviewer decision text review_id now t
      ≡ (ok a, effects, after)
    → WasReviewed trim revision_id reviewer decision text review_id now t after
unfolding review_revision
review_revision-done {db} laws trim revision_id reviewer decision text review_id now t {a} {effects}
      {after} e =
    let P = WasReviewed trim revision_id reviewer decision text review_id now t in
    finish-Holds (λ _ _ left. P left) _
      (review_transaction db trim revision_id reviewer decision text review_id now t)
      (review_transaction-Holds laws trim revision_id reviewer decision text review_id now t) e
