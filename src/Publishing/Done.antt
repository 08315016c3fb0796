-- ===== src/Publishing/Done.antt =====
-- What it takes to publish a revision, and what it leaves.
use pathway_backend.Prelude.{
  ℕ, ◌+◌, String, Bool, true, false, not, ◌&&◌, Option, some, List, [], ◌∷◌, ◌≡◌, ◌≢◌, refl, ap,
  arith, find, string_Eq, nat_Eq, ◌==◌, ◌∙◌, Memᴰ, any, updated, removed, find-Memᴰ, find-updated,
  eq_iff, if◌then◌else◌,
}
use pathway_backend.Prelude.Members.{find-updated_apart}
use pathway_backend.Roles.{admin}
use pathway_backend.Snapshot.{CareerSnapshotStep}
use pathway_backend.Plan.Ready.{IsReady, build_plan-unblocked_iff}
use pathway_backend.Publishing.{Applied}
use pathway_backend.Exceptions.{ok}
use pathway_backend.Effects.{Effect, capture}
use pathway_backend.Database.{PrismaClient, PrismaLaws}
use pathway_backend.Plan.Types.{PlanBlocker}
use pathway_backend.Revisions.{
  UserPathwayStep, Pathway, ReviewDecision, approve, CareerStatus, retired, live, published,
  approved, live_career, step_learner_counts, Tables, Career, ContentRevision, Review, Actor,
  is_retired, is_approval,
}
use pathway_backend.Publishing.Apply.{apply_plan}
use pathway_backend.Publishing.Written.{plan_of}
use pathway_backend.Publishing.Publish.{
  published_career, pathway_steps, Published, applied_state, publish_revision,
}
use pathway_backend.Publishing.Passed.{publish_revision-WasWritten}

-- Whether a step with the id is one of the pathway's.
abbrev pub on_pathway : Option Pathway → String → Bool
on_pathway p id = any (λ (s : CareerSnapshotStep). s.id == id) (pathway_steps p)

module _ (db : PrismaClient) (new_id : String → String) (revision_id : String) (actor : Actor)
    (now : ℕ) (t : Tables) where
  -- The row of the published career, beside the row before.
  abbrev pub IsNextVersion : Applied → Review → (before row : Career) → Type 0
  IsNextVersion s review before row =
      (row.id ≡ before.id)
      × (row.version ≡ before.version + 1)
      × (row.status ≡ live)
      × (row.published_by_id ≡ some actor.id)
      × (row.published_at ≡ some now)
      × (row.reviewed_by_id ≡ some review.reviewer_id)
      × (row.reviewed_at ≡ some review.created_at)
      × (row.content ≡ s.content)
      × (row.pathway ≡ s.pathway)
      × (row.skills ≡ s.skills)
      × (row.outlook ≡ s.outlook)

  abbrev pub WasPublished : Published → List Effect → Tables → Type 0
  WasPublished result effects after =
      (r : ContentRevision) × (c : Career) × (review : Review) × (s : Applied) × (row : Career)
      × (find (λ (x : ContentRevision). x.id == revision_id) t.revisions ≡ some r)
      × (find (λ (x : Career). x.id == r.career_id) t.careers ≡ some c)
      × (r.status ≡ approved)
      × (r.base_version ≡ c.version)
      × (c.status ≡ retired → actor.role ≡ admin)
      × IsReady (live_career db t c) r.snapshot
          (step_learner_counts db t (live_career db t c).steps)
      × Memᴰ review t.reviews
      × (review.revision_id ≡ revision_id)
      × (review.decision ≡ approve)
      × (apply_plan db new_id (plan_of db t c r).operations (applied_state t c) ≡ ok s)
      × (find (λ (x : Career). x.id == r.career_id) after.careers ≡ some row)
      × IsNextVersion s review c row
      × ((id : String)
          → id ≢ r.career_id
          → find (λ (x : Career). x.id == id) after.careers
            ≡ find (λ (x : Career). x.id == id) t.careers)
      × (after.resources ≡ s.resources)
      × (find (λ (x : ContentRevision). x.id == revision_id) after.revisions
          ≡ some (record r { status = published }))
      × ((id : String)
          → id ≢ revision_id
          → find (λ (x : ContentRevision). x.id == id) after.revisions
            ≡ find (λ (x : ContentRevision). x.id == id) t.revisions)
      × (after.reviews ≡ t.reviews)
      × (after.user_steps
          ≡ removed
              (λ (u : UserPathwayStep).
                on_pathway c.pathway u.pathway_step_id
                && not (on_pathway row.pathway u.pathway_step_id))
              t.user_steps)
      × (result ≡ record {
        revision_id = revision_id;
        career_id = c.id;
        new_version = c.version + 1;
        published_at = now;
      })
      × (effects ≡ capture "revision_published" actor.id ∷ [])

approving-eq : (d : ReviewDecision) → is_approval d ≡ true → d ≡ approve
approving-eq d h = ground arith

retired-eq : (s : CareerStatus) → s ≡ retired → is_retired s ≡ true
retired-eq s h = rw h refl

apart : (a b x : String) → a ≢ b → (x == b) ≡ true → (x == a) ≡ false
apart a b x n h = ground (arith, eq_iff x b, eq_iff x a)

-- When a revision is published, it was approved and based on the career's version, and the career was
-- not retired or the actor is an admin; the draft is complete, and each live step that it leaves out
-- has no learners by the count that the planner is given; the revision has a review that approves it.
-- The career is then live, at the next version, with the actor, the time, and the reviewer and the
-- time of that review, and holds what applying the plan wrote. The revision is marked as published.
-- Other careers, other revisions and all reviews are as they were, and a learner's row is deleted
-- only with its step: where the step was on the old pathway and is not on the new one.
pub publish_revision-done :
    {db : PrismaClient}
    → PrismaLaws db
    → (new_id : String → String) (message : PlanBlocker → String) (revision_id : String)
      (actor : Actor) (now : ℕ) (t : Tables) {result : Published} {effects : List Effect}
      {after : Tables}
    → publish_revision db new_id message revision_id actor now t ≡ (ok result, effects, after)
    → WasPublished db new_id revision_id actor now t result effects after
publish_revision-done {db} laws new_id message revision_id actor now t {result} {effects} {after}
      h =
    let (
      r, c, review, s, found_r, found_c, state, versions, may, free, m, same_review, passes,
      written, e, same_result, same_effects,
    ) =
      publish_revision-WasWritten laws new_id message revision_id actor now t h in
    let p : Career → Bool = λ x. x.id == r.career_id in
    let q : ContentRevision → Bool = λ x. x.id == revision_id in
    let f : Career → Career = published_career s actor review now in
    let g : ContentRevision → ContentRevision = λ x. record x { status = published } in
    let careers : after.careers ≡ updated (λ x. x.id == c.id) f t.careers = ap (λ z. z.careers) e in
    let revisions : after.revisions ≡ updated q g t.revisions = ap (λ z. z.revisions) e in
    let (_, own) = find-Memᴰ q t.revisions found_r in
    let (_, own_c) = find-Memᴰ p t.careers found_c in
    let same_id : c.id ≡ r.career_id = (eq_iff c.id r.career_id).0 own_c in
    (
      r,
      c,
      review,
      s,
      f c,
      found_r,
      found_c,
      state,
      versions,
      λ retired_. may (retired-eq c.status retired_),
      (build_plan-unblocked_iff (live_career db t c) r.snapshot r.base_version
            (step_learner_counts db t (live_career db t c).steps)).0
          free,
      m,
      same_review,
      approving-eq review.decision passes,
      written,
      ap (find p) careers
          ∙ find-updated p (λ x. x.id == c.id) f t.careers (λ x. refl) found_c
          ∙ ap (λ b. some (if b then f c else c)) ((eq_iff c.id c.id).1 refl),
      (refl, refl, refl, refl, refl, refl, refl, refl, refl, refl, refl),
      λ id n.
          ap (find (λ (x : Career). x.id == id)) careers
          ∙ find-updated_apart (λ (x : Career). x.id == id) (λ x. x.id == c.id) f t.careers
              (λ x. refl) (λ x k. apart id c.id x.id (λ i. n (i ∙ same_id)) k),
      ap (λ z. z.resources) e,
      ap (find q) revisions
          ∙ find-updated q q g t.revisions (λ x. refl) found_r
          ∙ ap (λ b. some (if b then g r else r)) own,
      λ id n.
          ap (find (λ (x : ContentRevision). x.id == id)) revisions
          ∙ find-updated_apart (λ (x : ContentRevision). x.id == id) q g t.revisions (λ x. refl)
              (λ x k. apart id revision_id x.id n k),
      ap (λ z. z.reviews) e,
      ap (λ z. z.user_steps) e,
      same_result,
      same_effects,
    )
