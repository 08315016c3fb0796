-- ===== src/Diff/Shown.antt =====
-- What the diff of a revision tells of its submission.
use pathway_backend.Prelude.{
  Bool-cases, inl, inr, ℕ, ◌≤◌, String, true, false, not, ◌&&◌, Option, some, List, [], ◌≡◌, ◌≢◌,
  ◌↔◌, ◌⊎◌, refl, sym, subst, arith, leb, find, string_Eq, ◌==◌, eq_iff, ◌∙◌,
}
use pathway_backend.Exceptions.{Result, ok, err, is_ok}
use pathway_backend.Effects.{Effect}
use pathway_backend.Handlers.{
  Reply, returns, is_returned, tables_of, or_throw, throw_if, Returned, Returned-returns,
  or_throw-Returned, throw_if-Returned,
}
use pathway_backend.Database.{PrismaClient, PrismaLaws}
use pathway_backend.Roles.{rank, reviewer, admin}
use pathway_backend.Plan.Build.{build_plan}
use pathway_backend.Plan.Ready.{build_plan-unblocked_iff}
use pathway_backend.Revisions.{
  Tables, Career, ContentRevision, Actor, draft, retired, find_revision, find_career, live_career,
  step_learner_counts,
}
use pathway_backend.Revisions.Reviewing.{submit_revision}
use pathway_backend.Revisions.Ready.{WasSubmitted, submit_revision-done}
use pathway_backend.Revisions.Allowed.{submit_revision-allowed}
use pathway_backend.Diff.Service.{Source, ReviewerDiff, format, build_diff}

-- A submission that succeeds leaves the facts of `submit_revision-done`.
submitted :
    {db : PrismaClient}
    → PrismaLaws db
    → (revision_id : String) (actor : Actor) (t : Tables)
    → is_ok (submit_revision db revision_id actor t).0 ≡ true
    → (after : Tables) × WasSubmitted db revision_id actor t after
submitted {db} laws revision_id actor t h = go (submit_revision db revision_id actor t) refl h
  where
    go :
        (x : Result ContentRevision × List Effect × Tables)
        → submit_revision db revision_id actor t ≡ x
        → is_ok x.0 ≡ true
        → (after : Tables) × WasSubmitted db revision_id actor t after
    go (ok a, effects, after) e k = (after, submit_revision-done laws revision_id actor t e)
    go (err x, effects, after) e k = cc

module _ (db : PrismaClient) (revision_id : String) (viewer submitter : Actor) (t : Tables) where
  abbrev pub ShowsReady : ReviewerDiff → List Effect → Tables → Type 0
  ShowsReady diff effects after =
      (r : ContentRevision) × (c : Career) × (find (λ (x : ContentRevision). x.id == revision_id)
          t.revisions
        ≡ some r)
      × (find (λ (x : Career). x.id == r.career_id) t.careers ≡ some c)
      × ((r.created_by_id ≡ viewer.id) ⊎ (rank reviewer ≤ rank viewer.role))
      × ((is_ok (submit_revision db revision_id submitter t).0 ≡ true) ↔ (
          (r.status ≡ draft)
          × ((c.status ≢ retired) ⊎ (submitter.role ≡ admin))
          × (diff.blockers ≡ [])))
      × (after ≡ t)

module _ {db : PrismaClient} (laws : PrismaLaws db) (revision_id : String)
    (viewer submitter : Actor) (t : Tables) where
  abbrev ReadyRow : ContentRevision → Career → Type 0
  ReadyRow r c =
      (r.status ≡ draft)
      × ((c.status ≢ retired) ⊎ (submitter.role ≡ admin))
      × ((build_plan (live_career db t c) r.snapshot r.base_version
            (step_learner_counts db t (live_career db t c).steps)).blockers
          ≡ [])

  -- The rows of a submission are the rows that are found.
  submitted-ReadyRow :
      (r : ContentRevision) (c : Career) (after : Tables)
      → find (λ (x : ContentRevision). x.id == revision_id) t.revisions ≡ some r
      → find (λ (x : Career). x.id == r.career_id) t.careers ≡ some c
      → WasSubmitted db revision_id submitter t after
      → ReadyRow r c
  unfolding WasSubmitted
  submitted-ReadyRow r c after found_r found_c (r2, c2, first, second, state, may, ready, _) =
      let same : r2 ≡ r = cc (first, found_r) in
      let moved : find (λ (x : Career). x.id == r.career_id) t.careers ≡ some c2 =
        subst
          (λ (r : ContentRevision). find (λ (x : Career). x.id == r.career_id) t.careers ≡ some c2)
          same second in
      let same_row : c2 ≡ c = cc (moved, found_c) in
      let free =
        (build_plan-unblocked_iff (live_career db t c2) r2.snapshot r2.base_version
            (step_learner_counts db t (live_career db t c2).steps)).1
          ready in
      subst (λ r. ReadyRow r c) same (subst (λ c. ReadyRow r2 c) same_row (state, may, free))

  may_submit_iff :
      (r : ContentRevision) (c : Career)
      → find (λ (x : ContentRevision). x.id == revision_id) t.revisions ≡ some r
      → find (λ (x : Career). x.id == r.career_id) t.careers ≡ some c
      → (is_ok (submit_revision db revision_id submitter t).0 ≡ true) ↔ ReadyRow r c
  may_submit_iff r c found_r found_c =
      let unblocked =
        build_plan-unblocked_iff (live_career db t c) r.snapshot r.base_version
          (step_learner_counts db t (live_career db t c).steps) in
      (
        λ h.
            let (after, done) = submitted laws revision_id submitter t h in
            submitted-ReadyRow r c after found_r found_c done,
        λ (state, may, free).
            submit_revision-allowed laws revision_id submitter t r c found_r found_c state may
              (unblocked.0 free),
      )

  may_view :
      (r : ContentRevision)
      → (not (r.created_by_id == viewer.id) && not (leb (rank reviewer) (rank viewer.role))) ≡ false
      → (r.created_by_id ≡ viewer.id) ⊎ (rank reviewer ≤ rank viewer.role)
  may_view r h = ground (arith, eq_iff r.created_by_id viewer.id)

  build_diff-ShowsReady :
      (show : ℕ → String) (now : ℕ) (created_at : ContentRevision → ℕ)
      (first_name last_name : ContentRevision → Option String) (sources : List Source)
      → Returned
          (ShowsReady db revision_id viewer submitter t)
          (build_diff db show now created_at first_name last_name sources revision_id viewer t)
  unfolding build_diff format
  build_diff-ShowsReady show now created_at first_name last_name sources =
      let P = ShowsReady db revision_id viewer submitter t in
      or_throw-Returned P (find_revision db t revision_id) _ t _ (λ r e.
        throw_if-Returned P _ _ t _ (λ may.
          or_throw-Returned P (find_career db t r.career_id) _ t _ (λ c f.
            let found_r = sym (laws.find_unique_lem ContentRevision _ t.revisions) ∙ e in
            let found_c = sym (laws.find_unique_lem Career _ t.careers) ∙ f in
            (r, c, found_r, found_c, may_view r may, may_submit_iff r c found_r found_c, refl))))

-- The diff is shown exactly to the creator of the revision and to reviewers and above; it leaves the
-- tables alone; and a diff that is shown lists no blocker exactly as a submission tells.
abbrev pub DecidesDiff :
    PrismaClient
    → String
    → (viewer submitter : Actor) → Tables
    → ContentRevision
    → Career
    → Reply Tables ReviewerDiff
    → Type 0
DecidesDiff db revision_id viewer submitter t r c reply =
    ((is_returned reply ≡ true)
      ↔ ((r.created_by_id ≡ viewer.id) ⊎ (rank reviewer ≤ rank viewer.role)))
    × (tables_of reply ≡ t)
    × ((diff : ReviewerDiff) (effects : List Effect) (after : Tables)
        → reply ≡ returns diff effects after
        → (is_ok (submit_revision db revision_id submitter t).0 ≡ true) ↔ (
            (r.status ≡ draft)
            × ((c.status ≢ retired) ⊎ (submitter.role ≡ admin))
            × (diff.blockers ≡ [])))

module _ {db : PrismaClient} (laws : PrismaLaws db) (revision_id : String)
    (viewer submitter : Actor) (t : Tables) (r : ContentRevision) (c : Career) (show : ℕ → String)
    (now : ℕ) (created_at : ContentRevision → ℕ)
    (first_name last_name : ContentRevision → Option String) (sources : List Source)
    (found_r : find (λ (x : ContentRevision). x.id == revision_id) t.revisions ≡ some r)
    (found_c : find (λ (x : Career). x.id == r.career_id) t.careers ≡ some c) where
  abbrev reply_of : Reply Tables ReviewerDiff
  reply_of = build_diff db show now created_at first_name last_name sources revision_id viewer t

  shown_iff :
      ((is_returned reply_of ≡ true)
        ↔ ((r.created_by_id ≡ viewer.id) ⊎ (rank reviewer ≤ rank viewer.role)))
      × (tables_of reply_of ≡ t)
  unfolding build_diff or_throw throw_if
  shown_iff =
      let here =
        laws.find_unique_lem ContentRevision (λ x. x.id == revision_id) t.revisions ∙ found_r in
      let row = laws.find_unique_lem Career (λ x. x.id == r.career_id) t.careers ∙ found_c in
      elim (Bool-cases
        (not (r.created_by_id == viewer.id) && not (leb (rank reviewer) (rank viewer.role)))) [
          | inl hidden ↦
              rw (here, hidden)
                (
                  (
                    λ h. cc,
                    λ may. absurd (ground (arith, eq_iff r.created_by_id viewer.id, may, hidden)),
                  ),
                  refl,
                )
          | inr visible ↦
              let may = may_view laws revision_id viewer submitter t r visible in
              rw (here, visible, row) ((λ h. may, λ m. refl), refl)
        ]

  told_iff :
      (diff : ReviewerDiff) (effects : List Effect) (after : Tables)
      → reply_of ≡ returns diff effects after
      → (is_ok (submit_revision db revision_id submitter t).0 ≡ true) ↔ (
          (r.status ≡ draft)
          × ((c.status ≢ retired) ⊎ (submitter.role ≡ admin))
          × (diff.blockers ≡ []))
  told_iff diff effects after h =
      let (r2, c2, first, second, _, iff, _) =
        Returned-returns (ShowsReady db revision_id viewer submitter t) reply_of
          (build_diff-ShowsReady laws revision_id viewer submitter t show now created_at first_name
            last_name sources)
          h in
      let P : ContentRevision → Career → Type 0 = λ r c.
        (is_ok (submit_revision db revision_id submitter t).0 ≡ true) ↔ (
          (r.status ≡ draft)
          × ((c.status ≢ retired) ⊎ (submitter.role ≡ admin))
          × (diff.blockers ≡ [])) in
      let same : r2 ≡ r = cc (first, found_r) in
      let moved : find (λ (x : Career). x.id == r.career_id) t.careers ≡ some c2 =
        subst
          (λ (r : ContentRevision). find (λ (x : Career). x.id == r.career_id) t.careers ≡ some c2)
          same second in
      let same_row : c2 ≡ c = cc (moved, found_c) in
      subst (λ r. P r c) same (subst (λ c. P r2 c) same_row iff)

-- The diff of a revision with a career is shown exactly to the revision's creator and to reviewers and
-- above; it changes nothing; and a diff that is shown lists no blocker exactly when a submission of that
-- revision succeeds, where the revision is a draft and its career is not retired or the submitter is an
-- admin.
pub build_diff-submit_revision :
    {db : PrismaClient}
    → PrismaLaws db
    → (revision_id : String) (viewer submitter : Actor) (t : Tables) (r : ContentRevision)
      (c : Career) (show : ℕ → String) (now : ℕ) (created_at : ContentRevision → ℕ)
      (first_name last_name : ContentRevision → Option String) (sources : List Source)
    → find (λ (x : ContentRevision). x.id == revision_id) t.revisions ≡ some r
    → find (λ (x : Career). x.id == r.career_id) t.careers ≡ some c
    → DecidesDiff db revision_id viewer submitter t r c
        (build_diff db show now created_at first_name last_name sources revision_id viewer t)
build_diff-submit_revision laws revision_id viewer submitter t r c show now created_at first_name
      last_name sources found_r found_c =
    let (shown, same) =
      shown_iff laws revision_id viewer submitter t r c show now created_at first_name last_name
        sources found_r found_c in
    (
      shown,
      same,
      told_iff laws revision_id viewer submitter t r c show now created_at first_name last_name
          sources found_r found_c,
    )
