-- ===== src/Publishing/Written.antt =====
-- What publishing a revision leaves, given what its checks found.
use pathway_backend.Prelude.{
  ℕ, ◌+◌, String, true, false, ◌&&◌, none, some, List, [], ◌∷◌, ◌≡◌, refl, ap, arith, find,
  string_Eq, nat_Eq, ◌==◌, eq_iff, Memᴰ, updated, removed,
}
use pathway_backend.Exceptions.{ok}
use pathway_backend.Effects.{Effect, capture}
use pathway_backend.Database.{PrismaClient, PrismaLaws}
use pathway_backend.Database.Reference.{update-found}
use pathway_backend.Roles.{admin, role_eq_iff}
use pathway_backend.Plan.Types.{PlanBlocker, CareerPlan}
use pathway_backend.Plan.Build.{build_plan}
use pathway_backend.Revisions.{
  Tables, Career, ContentRevision, Review, Actor, published, approved, is_approved, is_retired,
  is_admin, is_approval, UserPathwayStep, live_career, step_learner_counts,
}
use pathway_backend.Revisions.Failures.{Holds, found-Holds}
use pathway_backend.Publishing.{Applied}
use pathway_backend.Publishing.Apply.{apply_plan}
use pathway_backend.Publishing.Publish.{
  Published, first_blocker, applied_state, is_orphan, published_career, published_with,
}

-- The plan that is applied, as the transaction computes it.
abbrev pub plan_of : PrismaClient → Tables → Career → ContentRevision → CareerPlan
plan_of db t c r =
    let live_row = live_career db t c in
    build_plan live_row r.snapshot r.base_version (step_learner_counts db t live_row.steps)

no_first : (blockers : List PlanBlocker) → first_blocker blockers ≡ none → blockers ≡ []
no_first [] h = refl
no_first (b ∷ blockers) h = cc

module _ (db : PrismaClient) (new_id : String → String) (revision_id : String) (actor : Actor)
    (now : ℕ) (t : Tables) where
  -- What the guards found, and the tables as the transaction writes them.
  abbrev pub WasWritten : Published → List Effect → Tables → Type 0
  WasWritten result effects after =
      (r : ContentRevision) × (c : Career) × (review : Review) × (s : Applied) × (find
          (λ (x : ContentRevision). x.id == revision_id) t.revisions
        ≡ some r)
      × (find (λ (x : Career). x.id == r.career_id) t.careers ≡ some c)
      × (r.status ≡ approved)
      × (r.base_version ≡ c.version)
      × (is_retired c.status ≡ true → actor.role ≡ admin)
      × ((plan_of db t c r).blockers ≡ [])
      × Memᴰ review t.reviews
      × (review.revision_id ≡ revision_id)
      × (is_approval review.decision ≡ true)
      × (apply_plan db new_id (plan_of db t c r).operations (applied_state t c) ≡ ok s)
      × (after ≡ record t {
        careers =
            updated (λ (x : Career). x.id == c.id) (published_career s actor review now) t.careers;
        resources = s.resources;
        revisions =
            updated (λ (x : ContentRevision). x.id == revision_id)
              (λ x. record x { status = published }) t.revisions;
        user_steps = removed (is_orphan c.pathway s.pathway) t.user_steps;
      })
      × (result ≡ record {
        revision_id = revision_id;
        career_id = c.id;
        new_version = c.version + 1;
        published_at = now;
      })
      × (effects ≡ capture "revision_published" actor.id ∷ [])

  -- What the checks of the plan and its application leave.
  abbrev pub Planned : ContentRevision → Career → Review → Applied → Type 0
  Planned r c review s =
      ((plan_of db t c r).stale ≡ false)
      × (first_blocker (plan_of db t c r).blockers ≡ none)
      × (db.find_first Review (λ r. r.revision_id == revision_id && is_approval r.decision)
            (λ r. r.created_at) t.reviews
          ≡ some review)
      × (apply_plan db new_id (plan_of db t c r).operations (applied_state t c) ≡ ok s)

module _ {db : PrismaClient} (laws : PrismaLaws db) (new_id : String → String)
    (revision_id : String) (actor : Actor) (now : ℕ) (t : Tables) where
  fresh_versions :
      (r : ContentRevision) (c : Career)
      → (plan_of db t c r).stale ≡ false
      → r.base_version ≡ c.version
  unfolding build_plan live_career
  fresh_versions r c h = ground arith

  status_approved : (r : ContentRevision) → is_approved r.status ≡ true → r.status ≡ approved
  status_approved r h = ground arith

  -- The facts that the guards leave give what the two updates leave.
  written_rows :
      (r : ContentRevision) (c : Career) (review : Review) (s : Applied)
      → find (λ (x : ContentRevision). x.id == revision_id) t.revisions ≡ some r
      → find (λ (x : Career). x.id == r.career_id) t.careers ≡ some c
      → is_approved r.status ≡ true
      → (is_retired c.status ≡ true → is_admin actor.role ≡ true)
      → Planned db new_id revision_id actor now t r c review s
      → {e : Career × List Career} {f : ContentRevision × List ContentRevision}
      → db.update Career (λ x. x.id == c.id) (published_career s actor review now) t.careers
        ≡ some e
      → db.update ContentRevision
          (λ x. x.id == revision_id)
          (λ x. record x { status = published })
          t.revisions
        ≡ some f
      → WasWritten db new_id revision_id actor now t
          (record {
            revision_id = revision_id;
            career_id = c.id;
            new_version = c.version + 1;
            published_at = now;
          })
          (capture "revision_published" actor.id ∷ [])
          (record t {
            careers = e.1;
            resources = s.resources;
            revisions = f.1;
            user_steps =
                (db.delete_many UserPathwayStep (is_orphan c.pathway s.pathway) t.user_steps).0;
          })
  written_rows r c review s found_r found_c state may (fresh, free, k, written) {e} {f} changed
        marked =
      let (m, passes, _) =
        laws.find_first_some Review (λ r. r.revision_id == revision_id && is_approval r.decision)
          (λ r. r.created_at) t.reviews review k in
      let (_, _, _, careers) = update-found laws Career _ _ t.careers changed in
      let (_, _, _, revisions) = update-found laws ContentRevision _ _ t.revisions marked in
      let steps =
        ap (λ z. z.0)
          (laws.delete_many_lem UserPathwayStep (is_orphan c.pathway s.pathway) t.user_steps) in
      (
        r,
        c,
        review,
        s,
        found_r,
        found_c,
        status_approved r state,
        fresh_versions r c fresh,
        λ h. (role_eq_iff actor.role admin).0 (may h),
        no_first (plan_of db t c r).blockers free,
        m,
        ground (arith, eq_iff review.revision_id revision_id),
        ground arith,
        written,
        rw (careers, revisions, steps) refl,
        refl,
        refl,
      )

  pub published_with-Holds :
      (r : ContentRevision) (c : Career) (review : Review) (s : Applied)
      → find (λ (x : ContentRevision). x.id == revision_id) t.revisions ≡ some r
      → find (λ (x : Career). x.id == r.career_id) t.careers ≡ some c
      → is_approved r.status ≡ true
      → (is_retired c.status ≡ true → is_admin actor.role ≡ true)
      → Planned db new_id revision_id actor now t r c review s
      → Holds
          (WasWritten db new_id revision_id actor now t)
          (published_with db new_id c revision_id actor review now t s)
  unfolding published_with
  published_with-Holds r c review s found_r found_c state may planned =
      let P = WasWritten db new_id revision_id actor now t in
      found-Holds P _
        (db.update Career (λ x. x.id == c.id) (published_career s actor review now) t.careers) _ _
        (λ e changed.
          found-Holds P _
            (db.update ContentRevision (λ x. x.id == revision_id)
              (λ x. record x { status = published }) t.revisions)
            _ _
            (λ f marked.
              written_rows r c review s found_r found_c state may planned changed marked))
