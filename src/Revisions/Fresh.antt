-- ===== src/Revisions/Fresh.antt =====
-- What a rebase leaves.
use pathway_backend.Prelude.{
  String, true, false, not, some, List, [], ◌∷◌, ◌≡◌, ◌≢◌, ◌⊎◌, inl, inr, refl, arith, sym, ◌∙◌,
  Bool-cases, updated, find, ◌==◌, string_Eq, eq_iff,
}
use pathway_backend.Exceptions.{ok}
use pathway_backend.Effects.{Effect, capture}
use pathway_backend.Database.{PrismaClient, PrismaLaws}
use pathway_backend.Plan.Build.{is_revision_stale}
use pathway_backend.Revisions.{
  draft, retired, Tables, Career, ContentRevision, is_draft, is_retired, find_revision, find_career,
}
use pathway_backend.Revisions.Editing.{Rebased, rebase_transaction, rebase_revision}
use pathway_backend.Revisions.Failures.{
  Holds, found-Holds, refuse_if-Holds, finish-Holds, update-rows, update-row,
}

-- The row anchored at the career's version.
abbrev pub anchored : Career → ContentRevision → ContentRevision
anchored career r = record r { base_version = career.version }

unfoldable pub WasRebased : String → String → Tables → Rebased → List Effect → Tables → Type 0
WasRebased revision_id actor_user_id t a effects after =
    (revision : ContentRevision) × (career : Career) × (find
        (λ (r : ContentRevision). r.id == revision_id) t.revisions
      ≡ some revision)
    × (find (λ (c : Career). c.id == revision.career_id) t.careers ≡ some career)
    × (revision.created_by_id ≡ actor_user_id)
    × (revision.status ≡ draft)
    × (career.status ≢ retired)
    × (a.revision ≡ anchored career revision)
    × (a.live_version ≡ career.version)
    × (((a.rebased ≡ true)
          × (revision.base_version ≢ career.version)
          × (effects ≡ capture "revision_rebased" actor_user_id ∷ [])
          × (after ≡ record t {
            revisions =
                updated (λ (r : ContentRevision). r.id == revision_id) (anchored career)
                  t.revisions;
          }))
        ⊎ ((a.rebased ≡ false)
            × (revision.base_version ≡ career.version)
            × (effects ≡ [])
            × (after ≡ t)))

guards :
    (r : ContentRevision) (c : Career) (actor : String)
    → is_retired c.status ≡ false
    → not (r.created_by_id == actor) ≡ false
    → not (is_draft r.status) ≡ false
    → (r.created_by_id ≡ actor) × (r.status ≡ draft) × (c.status ≢ retired)
guards r c actor i n d = ground (arith, eq_iff r.created_by_id actor)

rebase_transaction-Holds :
    {db : PrismaClient}
    → PrismaLaws db
    → (revision_id actor_user_id : String) (t : Tables)
    → Holds
        (WasRebased revision_id actor_user_id t)
        (rebase_transaction db revision_id actor_user_id t)
unfolding rebase_transaction WasRebased
rebase_transaction-Holds {db} laws revision_id actor_user_id t =
    let P = WasRebased revision_id actor_user_id t in
    found-Holds P _ (find_revision db t revision_id) _ _ (λ peek first.
      found-Holds P _ (find_career db t peek.career_id) _ _ (λ career locked.
        refuse_if-Holds P _ _ _ _ (λ o.
          found-Holds P _ (find_revision db t revision_id) _ _ (λ revision again.
            refuse_if-Holds P _ _ _ _ (λ n. refuse_if-Holds P _ _ _ _ (λ d.
              let same : peek ≡ revision = cc (first, again) in
              let here = sym (laws.find_unique_lem ContentRevision _ t.revisions) ∙ again in
              let its_career : find (λ (c : Career). c.id == revision.career_id) t.careers
                  ≡ some career =
                rw (← same) (
                  sym (laws.find_unique_lem Career (λ c. c.id == peek.career_id) t.careers)
                  ∙ locked) in
              let (own, status, unretired) = guards revision career actor_user_id o n d in
              elim (Bool-cases (is_revision_stale revision.base_version career.version)) [
                | inl s ↦ rw s (
                    found-Holds P _
                      (db.update ContentRevision (λ r. r.id == revision_id) (anchored career)
                        t.revisions)
                      _ _
                      (λ x wrote. (
                        revision,
                        career,
                        here,
                        its_career,
                        own,
                        status,
                        unretired,
                        update-row laws _ _ t.revisions wrote again,
                        refl,
                        inl (
                          refl,
                          ground arith,
                          refl,
                          rw (update-rows laws _ _ t.revisions wrote) refl,
                        ),
                      )))
                | inr f ↦
                    let equal : revision.base_version ≡ career.version = ground arith in
                    rw f (
                      found-Holds P _ (find_revision db t revision_id) _ _ (λ current third. (
                        revision,
                        career,
                        here,
                        its_career,
                        own,
                        status,
                        unretired,
                        rw (← equal) (cc (third, again)),
                        refl,
                        inr (refl, equal, refl, refl),
                      )))
              ]))))))

-- A rebase succeeds only for the revision's creator, on a draft whose career is not retired. The
-- revision that it returns is based on the career's current version and otherwise unchanged. Where it
-- was stale, that row is written and an event is captured; where it was fresh, nothing is written.
pub rebase_revision-done :
    {db : PrismaClient}
    → PrismaLaws db
    → (revision_id actor_user_id : String) (t : Tables) {a : Rebased} {effects : List Effect}
      {after : Tables}
    → rebase_revision db revision_id actor_user_id t ≡ (ok a, effects, after)
    → WasRebased revision_id actor_user_id t a effects after
unfolding rebase_revision
rebase_revision-done {db} laws revision_id actor_user_id t e =
    finish-Holds (WasRebased revision_id actor_user_id t) _
      (rebase_transaction db revision_id actor_user_id t)
      (rebase_transaction-Holds laws revision_id actor_user_id t) e
