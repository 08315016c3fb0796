-- ===== src/Revisions/Untouched.antt =====
-- A transaction that saves, rebases, recalls, submits or reviews a revision has written nothing where
-- it fails: each check stands before the first write.
use pathway_backend.Prelude.{
  ℕ, String, Bool, true, false, not, Option, none, some, ◌≡◌, refl, inl, inr, Bool-cases,
}
use pathway_backend.Database.{PrismaClient}
use pathway_backend.Snapshot.{CareerSnapshot}
use pathway_backend.Revisions.{
  Failure, Tables, Actor, ReviewDecision, Outcome, failed, done, found, refuse_if,
  is_revision_stale,
}
use pathway_backend.Revisions.Editing.{save_transaction, rebase_transaction, recall_transaction}
use pathway_backend.Revisions.Reviewing.{submit_transaction, review_transaction}

-- A failure leaves these tables.
abbrev pub Keeps : {A : Type 0} → Tables → Outcome A → Type 0
Keeps t (failed failure after) = after ≡ t
Keeps t (done a effects after) = Unit

module _ {A : Type 0} (t : Tables) where
  pub found-Keeps :
      {B : Type 0} (o : Option B) (f : Failure) (next : B → Outcome A)
      → ((b : B) → Keeps t (next b))
      → Keeps t (found t o f next)
  unfolding found
  found-Keeps none f next h = refl
  found-Keeps (some b) f next h = h b

  pub refuse_if-Keeps :
      (b : Bool) (f : Failure) (next : Outcome A) → Keeps t next → Keeps t (refuse_if t b f next)
  unfolding refuse_if
  refuse_if-Keeps true f next h = refl
  refuse_if-Keeps false f next h = h

module _ (db : PrismaClient) where
  pub save_transaction-Keeps :
      (id : String) (snapshot : CareerSnapshot) (t : Tables)
      → Keeps t (save_transaction db id snapshot t)
  unfolding save_transaction
  save_transaction-Keeps id snapshot t = found-Keeps t _ _ _ (λ peek. found-Keeps t _ _ _ (λ career.
      refuse_if-Keeps t _ _ _ (
        found-Keeps t _ _ _ (λ revision.
          refuse_if-Keeps t _ _ _ (refuse_if-Keeps t _ _ _ (found-Keeps t _ _ _ (λ e. tt)))))))

  pub rebase_transaction-Keeps :
      (id actor_user_id : String) (t : Tables) → Keeps t (rebase_transaction db id actor_user_id t)
  unfolding rebase_transaction
  rebase_transaction-Keeps id actor_user_id t = found-Keeps t _ _ _ (λ peek.
      found-Keeps t _ _ _ (λ career. refuse_if-Keeps t _ _ _ (
        found-Keeps t _ _ _ (λ revision. refuse_if-Keeps t _ _ _ (
          refuse_if-Keeps t _ _ _
            (elim (Bool-cases (not (is_revision_stale revision.base_version career.version))) [
              | inl e ↦ rw e (found-Keeps t _ _ _ (λ current. tt))
              | inr e ↦ rw e (found-Keeps t _ _ _ (λ changed. tt))
            ]))))))

  pub recall_transaction-Keeps :
      (id : String) (actor : Actor) (t : Tables) → Keeps t (recall_transaction db id actor t)
  unfolding recall_transaction
  recall_transaction-Keeps id actor t = found-Keeps t _ _ _ (λ peek.
      found-Keeps t _ _ _ (λ revision.
        refuse_if-Keeps t _ _ _ (refuse_if-Keeps t _ _ _ (found-Keeps t _ _ _ (λ e. tt)))))

  pub submit_transaction-Keeps :
      (id : String) (actor : Actor) (t : Tables) → Keeps t (submit_transaction db id actor t)
  unfolding submit_transaction
  submit_transaction-Keeps id actor t = found-Keeps t _ _ _ (λ peek. found-Keeps t _ _ _ (λ career.
      found-Keeps t _ _ _ (λ revision. refuse_if-Keeps t _ _ _ (
        refuse_if-Keeps t _ _ _
          (found-Keeps t _ _ _ (λ row. refuse_if-Keeps t _ _ _ (found-Keeps t _ _ _ (λ e. tt))))))))

  pub review_transaction-Keeps :
      (trim : String → String) (id : String) (reviewer : Actor) (decision : ReviewDecision)
      (text : Option String) (review_id : String) (now : ℕ) (t : Tables)
      → Keeps t (review_transaction db trim id reviewer decision text review_id now t)
  unfolding review_transaction
  review_transaction-Keeps trim id reviewer decision text review_id now t =
      found-Keeps t _ _ _ (λ peek. found-Keeps t _ _ _ (λ career. found-Keeps t _ _ _ (λ revision.
        refuse_if-Keeps t _ _ _
          (refuse_if-Keeps t _ _ _ (refuse_if-Keeps t _ _ _ (found-Keeps t _ _ _ (λ e. tt)))))))
