-- ===== src/Revisions/Saved.antt =====
-- What saving and recalling a revision leave.
use pathway_backend.Prelude.{
  String, false, not, some, List, [], ◌∷◌, ◌≡◌, ◌≢◌, ◌⊎◌, refl, arith, sym, ◌∙◌, updated, find,
  ◌==◌, string_Eq, eq_iff,
}
use pathway_backend.Exceptions.{ok}
use pathway_backend.Effects.{Effect}
use pathway_backend.Database.{PrismaClient, PrismaLaws}
use pathway_backend.Roles.{admin, role_Eq, role_eq_iff}
use pathway_backend.Snapshot.{CareerSnapshot}
use pathway_backend.Snapshot.Consistency.{Problem, find_snapshot_problems}
use pathway_backend.Snapshot.Consistency.Laws.{IsConsistent, find_snapshot_problems_iff}
use pathway_backend.Revisions.{
  draft, in_review, CareerStatus, retired, Tables, Career, ContentRevision, Actor, Outcome,
  is_in_review, is_retired, is_creator_or_admin, find_revision, find_career,
}
use pathway_backend.Revisions.Editing.{
  saved_when_consistent, save_transaction, save_draft_revision, recall_transaction, recall_revision,
}
use pathway_backend.Revisions.Failures.{
  Holds, found-Holds, refuse_if-Holds, finish-Holds, update-rows,
}
use pathway_backend.Revisions.Ready.{is_draft-eq}

unfoldable pub WasSaved : String → CareerSnapshot → Tables → Tables → Type 0
WasSaved revision_id snapshot t after =
    (revision : ContentRevision) × (career : Career) × (find
        (λ (r : ContentRevision). r.id == revision_id) t.revisions
      ≡ some revision)
    × (find (λ (c : Career). c.id == revision.career_id) t.careers ≡ some career)
    × (revision.status ≡ draft)
    × (career.status ≢ retired)
    × (after ≡ record t {
      revisions =
          updated (λ (r : ContentRevision). r.id == revision_id)
            (λ r. record r { snapshot = snapshot }) t.revisions;
    })

not_retired : (s : CareerStatus) → is_retired s ≡ false → s ≢ retired
not_retired s e = ground arith

save_transaction-Holds :
    {db : PrismaClient}
    → PrismaLaws db
    → (revision_id : String) (snapshot : CareerSnapshot) (t : Tables)
    → Holds
        (λ _ _ after. WasSaved revision_id snapshot t after)
        (save_transaction db revision_id snapshot t)
unfolding save_transaction WasSaved
save_transaction-Holds {db} laws revision_id snapshot t =
    let P : ContentRevision → List Effect → Tables → Type 0 =
      λ _ _ after. WasSaved revision_id snapshot t after in
    found-Holds P _ (find_revision db t revision_id) _ _ (λ peek first.
      found-Holds P _ (find_career db t peek.career_id) _ _ (λ career locked.
        refuse_if-Holds P _ _ _ _ (λ o.
          found-Holds P _ (find_revision db t revision_id) _ _ (λ revision again.
            refuse_if-Holds P _ _ _ _ (λ n. refuse_if-Holds P _ _ _ _ (λ d.
              found-Holds P _ _ _ _ (λ x wrote.
                let same : peek ≡ revision = cc (first, again) in
                (
                  revision,
                  career,
                  sym (laws.find_unique_lem ContentRevision _ t.revisions) ∙ again,
                  rw (← same) (
                      sym (laws.find_unique_lem Career (λ c. c.id == peek.career_id) t.careers)
                      ∙ locked),
                  is_draft-eq revision.status d,
                  not_retired career.status o,
                  rw (update-rows laws _ _ t.revisions wrote) refl,
                ))))))))

consistent-done :
    (db : PrismaClient) (P : Tables → Type 0) (problems : List Problem) (t : Tables)
    (o : Outcome ContentRevision)
    → Holds (λ _ _ after. P after) o
    → {a : ContentRevision} {effects : List Effect} {after : Tables}
    → saved_when_consistent db problems t o ≡ (ok a, effects, after)
    → (problems ≡ []) × P after
unfolding saved_when_consistent
consistent-done db P [] t o h e = (refl, finish-Holds (λ _ _ after. P after) _ o h e)
consistent-done db P (p ∷ problems) t o h e = cc

-- A draft is saved only when it is consistent, is a draft still and its career is not retired; its
-- row then holds the new content, and nothing else changes.
pub save_draft_revision-done :
    {db : PrismaClient}
    → PrismaLaws db
    → (revision_id : String) (snapshot : CareerSnapshot) (t : Tables) {a : ContentRevision}
      {effects : List Effect} {after : Tables}
    → save_draft_revision db revision_id snapshot t ≡ (ok a, effects, after)
    → IsConsistent snapshot × WasSaved revision_id snapshot t after
unfolding save_draft_revision
save_draft_revision-done {db} laws revision_id snapshot t e =
    let (none_found, saved) =
      consistent-done db (WasSaved revision_id snapshot t) (find_snapshot_problems snapshot) t
        (save_transaction db revision_id snapshot t)
        (save_transaction-Holds laws revision_id snapshot t) e in
    ((find_snapshot_problems_iff snapshot).0 none_found, saved)

unfoldable pub WasRecalled : String → Actor → Tables → Tables → Type 0
WasRecalled revision_id actor t after =
    (revision : ContentRevision) × (find (λ (r : ContentRevision). r.id == revision_id) t.revisions
      ≡ some revision)
    × (revision.status ≡ in_review)
    × ((revision.created_by_id ≡ actor.id) ⊎ (actor.role ≡ admin))
    × (after ≡ record t {
      revisions =
          updated (λ (r : ContentRevision). r.id == revision_id) (λ r. record r { status = draft })
            t.revisions;
    })

recall_guards :
    (r : ContentRevision) (actor : Actor)
    → not (is_creator_or_admin r.created_by_id actor) ≡ false
    → not (is_in_review r.status) ≡ false
    → (r.status ≡ in_review) × ((r.created_by_id ≡ actor.id) ⊎ (actor.role ≡ admin))
recall_guards r actor c i =
    ground (arith, eq_iff r.created_by_id actor.id, role_eq_iff actor.role admin)

recall_transaction-Holds :
    {db : PrismaClient}
    → PrismaLaws db
    → (revision_id : String) (actor : Actor) (t : Tables)
    → Holds
        (λ _ _ after. WasRecalled revision_id actor t after)
        (recall_transaction db revision_id actor t)
unfolding recall_transaction WasRecalled
recall_transaction-Holds {db} laws revision_id actor t =
    let P : ContentRevision → List Effect → Tables → Type 0 =
      λ _ _ after. WasRecalled revision_id actor t after in
    found-Holds P _ (find_revision db t revision_id) _ _ (λ peek first.
      found-Holds P _ (find_revision db t revision_id) _ _ (λ revision again.
        refuse_if-Holds P _ _ _ _ (λ c. refuse_if-Holds P _ _ _ _ (λ i.
          found-Holds P _ _ _ _ (λ x wrote.
            let (status, own) = recall_guards revision actor c i in
            (
              revision,
              sym (laws.find_unique_lem ContentRevision _ t.revisions) ∙ again,
              status,
              own,
              rw (update-rows laws _ _ t.revisions wrote) refl,
            ))))))

-- A revision is recalled only from review, by its creator or an admin; it becomes a draft again, and
-- nothing else changes.
pub recall_revision-done :
    {db : PrismaClient}
    → PrismaLaws db
    → (revision_id : String) (actor : Actor) (t : Tables) {a : ContentRevision}
      {effects : List Effect} {after : Tables}
    → recall_revision db revision_id actor t ≡ (ok a, effects, after)
    → WasRecalled revision_id actor t after
unfolding recall_revision
recall_revision-done {db} laws revision_id actor t e =
    finish-Holds (λ _ _ left. WasRecalled revision_id actor t left) _
      (recall_transaction db revision_id actor t)
      (recall_transaction-Holds laws revision_id actor t) e
