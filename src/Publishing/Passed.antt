-- ===== src/Publishing/Passed.antt =====
-- What the guards of publishing have found when a revision is published.
use pathway_backend.Prelude.{
  ℕ, String, not, ◌&&◌, Option, none, some, List, ◌≡◌, refl, sym, ap, subst, arith, find, string_Eq,
  nat_Eq, ◌==◌, ◌∙◌,
}
use pathway_backend.Exceptions.{Result, ok, err}
use pathway_backend.Effects.{Effect}
use pathway_backend.Database.{PrismaClient, PrismaLaws}
use pathway_backend.Plan.Types.{PlanBlocker}
use pathway_backend.Revisions.{
  Failure, Tables, Career, ContentRevision, Review, Actor, Outcome, is_approved, is_retired,
  is_admin, is_approval, find_revision, find_career,
}
use pathway_backend.Revisions.Failures.{Holds, found-Holds, refuse_if-Holds, finish-Holds}
use pathway_backend.Publishing.Apply.{apply_plan}
use pathway_backend.Publishing.Written.{plan_of, WasWritten, Planned, published_with-Holds}
use pathway_backend.Publishing.Publish.{
  Published, is_progress_blocker, first_blocker, publish_exception, refuse_blocker, applied,
  applied_state, publish_transaction, publish_revision,
}

module _ {A : Type 0} (P : A → List Effect → Tables → Type 0) where
  refuse_blocker-Holds :
      (t : Tables) (o : Option PlanBlocker) (f : PlanBlocker → Failure) (next : Outcome A)
      → (o ≡ none → Holds P next)
      → Holds P (refuse_blocker t o f next)
  unfolding refuse_blocker
  refuse_blocker-Holds t none f next h = h refl
  refuse_blocker-Holds t (some b) f next h = tt

  applied-Holds :
      {B : Type 0} (t : Tables) (r : Result B) (next : B → Outcome A)
      → ((b : B) → r ≡ ok b → Holds P (next b))
      → Holds P (applied t r next)
  unfolding applied
  applied-Holds t (ok b) next h = h b refl
  applied-Holds t (err e) next h = tt

module _ {db : PrismaClient} (laws : PrismaLaws db) (new_id : String → String)
    (revision_id : String) (actor : Actor) (now : ℕ) (t : Tables) where
  publish_transaction-Holds :
      Holds
        (WasWritten db new_id revision_id actor now t)
        (publish_transaction db new_id revision_id actor now t)
  unfolding publish_transaction
  publish_transaction-Holds =
      let P = WasWritten db new_id revision_id actor now t in
      found-Holds P _ (find_revision db t revision_id) _ _ (λ peek e.
        found-Holds P _ (find_career db t peek.career_id) _ _ (λ career f.
          found-Holds P _ (find_revision db t revision_id) _ _ (λ revision g.
            refuse_if-Holds P _ (not (is_approved revision.status)) _ _ (λ state.
              refuse_if-Holds P _ (is_retired career.status && not (is_admin actor.role)) _ _
                (λ may. found-Holds P _ (find_career db t peek.career_id) _ _ (λ row h.
                  let plan = plan_of db t row revision in
                  refuse_if-Holds P _ plan.stale _ _ (λ fresh.
                    refuse_blocker-Holds P _ (find is_progress_blocker plan.blockers) _ _ (λ _.
                      refuse_blocker-Holds P _ (first_blocker plan.blockers) _ _ (λ free.
                        found-Holds P _
                          (db.find_first Review
                            (λ r. r.revision_id == revision_id && is_approval r.decision)
                            (λ r. r.created_at) t.reviews)
                          _ _
                          (λ review k.
                            applied-Holds P _
                              (apply_plan db new_id plan.operations (applied_state t row)) _
                              (λ s written.
                                let same : peek ≡ revision = cc (e, g) in
                                let same_row : row ≡ career = cc (f, h) in
                                published_with-Holds laws new_id revision_id actor now t revision
                                  career review s
                                  (sym (
                                      laws.find_unique_lem ContentRevision
                                        (λ x. x.id == revision_id) t.revisions)
                                    ∙ g)
                                  (ap
                                      (λ (x : ContentRevision).
                                        find (λ (c : Career). c.id == x.career_id) t.careers)
                                      (sym same)
                                    ∙ sym (
                                        laws.find_unique_lem Career (λ x. x.id == peek.career_id)
                                          t.careers)
                                    ∙ f)
                                  (ground arith) (ground arith)
                                  (subst
                                    (λ c.
                                      Planned db new_id revision_id actor now t revision c review s)
                                    same_row (fresh, free, k, written)))))))))))))

-- A revision that is published passed the guards, and the tables are the ones written.
pub publish_revision-WasWritten :
    {db : PrismaClient}
    → PrismaLaws db
    → (new_id : String → String) (message : PlanBlocker → String) (revision_id : String)
      (actor : Actor) (now : ℕ) (t : Tables) {result : Published} {effects : List Effect}
      {after : Tables}
    → publish_revision db new_id message revision_id actor now t ≡ (ok result, effects, after)
    → WasWritten db new_id revision_id actor now t result effects after
unfolding publish_revision
publish_revision-WasWritten {db} laws new_id message revision_id actor now t h =
    finish-Holds (WasWritten db new_id revision_id actor now t) (publish_exception message)
      (publish_transaction db new_id revision_id actor now t)
      (publish_transaction-Holds laws new_id revision_id actor now t) h
