-- ===== src/Revisions/Failures.antt =====
-- The calls that save, rebase, recall, delete, submit or review a revision, and that one which fails
-- changes nothing (publishing is in Publishing).
use pathway_backend.Prelude.{
  ℕ, String, Bool, true, false, ◌&&◌, Option, none, some, List, [], ◌∷◌, ◌≡◌, refl, arith,
  Option-cases, Bool-cases, inl, inr, removed, updated, count_where, nat_eq, ◌==◌, string_Eq, find,
}
use pathway_backend.Exceptions.{Exception, Result, ok, is_ok}
use pathway_backend.Effects.{Effect}
use pathway_backend.Database.{PrismaClient, PrismaLaws}
use pathway_backend.Database.Reference.{client_eq}
use pathway_backend.Snapshot.{CareerSnapshot}
use pathway_backend.Snapshot.Consistency.{Problem, find_snapshot_problems}
use pathway_backend.Revisions.{
  Failure, Tables, ContentRevision, Actor, ReviewDecision, Outcome, failed, done, finish, found,
  refuse_if, is_draft,
}
use pathway_backend.Revisions.Editing.{
  saved_when_consistent, save_transaction, save_draft_revision, rebase_revision, recall_revision,
  delete_draft_revision,
}
use pathway_backend.Revisions.Reviewing.{submit_revision, review_revision}
use pathway_backend.Revisions.Untouched.{
  Keeps, save_transaction-Keeps, rebase_transaction-Keeps, recall_transaction-Keeps,
  submit_transaction-Keeps, review_transaction-Keeps,
}

-- A call of the service, with what the environment supplies.
pub data Command : Type 0 where
  save : (revision_id : String) (snapshot : CareerSnapshot) → Command
  rebase : (revision_id actor_user_id : String) → Command
  recall : (revision_id : String) (actor : Actor) → Command
  delete_draft : (revision_id : String) → Command
  submit : (revision_id : String) (actor : Actor) → Command
  review :
      (revision_id : String) (reviewer : Actor) (decision : ReviewDecision) (note : Option String)
      (review_id : String) (now : ℕ)
      → Command

abbrev summary : {A : Type 0} → Result A × List Effect × Tables → Bool × List Effect × Tables
summary (r, effects, t) = (is_ok r, effects, t)

module _ (db : PrismaClient) (trim : String → String) where
  -- Whether a command succeeds, its effects, and the tables that it leaves.
  unfoldable pub run : Command → Tables → Bool × List Effect × Tables
  run (save id snapshot) t = summary (save_draft_revision db id snapshot t)
  run (rebase id actor_user_id) t = summary (rebase_revision db id actor_user_id t)
  run (recall id actor) t = summary (recall_revision db id actor t)
  run (delete_draft id) t = summary (delete_draft_revision db id t)
  run (submit id actor) t = summary (submit_revision db id actor t)
  run (review id reviewer decision text review_id now) t =
      summary (review_revision db trim id reviewer decision text review_id now t)

-- What holds of the value, the effects and the tables of an outcome that is not a failure.
abbrev pub Holds : {A : Type 0} → (A → List Effect → Tables → Type 0) → Outcome A → Type 0
Holds P (failed f t) = Unit
Holds P (done a effects t) = P a effects t

module _ {A : Type 0} (P : A → List Effect → Tables → Type 0) where
  pub found-Holds :
      {B : Type 0} (t : Tables) (o : Option B) (f : Failure) (next : B → Outcome A)
      → ((b : B) → o ≡ some b → Holds P (next b))
      → Holds P (found t o f next)
  unfolding found
  found-Holds t none f next h = tt
  found-Holds t (some b) f next h = h b refl

  pub refuse_if-Holds :
      (t : Tables) (b : Bool) (f : Failure) (next : Outcome A)
      → (b ≡ false → Holds P next)
      → Holds P (refuse_if t b f next)
  unfolding refuse_if
  refuse_if-Holds t true f next h = tt
  refuse_if-Holds t false f next h = h refl

  pub finish-Holds :
      (exception : Failure → Exception) (o : Outcome A) {a : A} {effects : List Effect}
      {after : Tables}
      → Holds P o
      → finish exception o ≡ (ok a, effects, after)
      → P a effects after
  finish-Holds exception (failed f u) h e = cc
  finish-Holds exception (done b x y) {a} {effects} {after} h e =
      let same_value : b ≡ a = ground arith in
      let same_effects : x ≡ effects = ground arith in
      let same_tables : y ≡ after = ground arith in
      rw (← same_value, ← same_effects, ← same_tables) h

-- The rows that an update by id leaves.
pub update-rows :
    {db : PrismaClient}
    → PrismaLaws db
    → (p : ContentRevision → Bool) (f : ContentRevision → ContentRevision)
      (rows : List ContentRevision) {e : ContentRevision × List ContentRevision}
    → db.update ContentRevision p f rows ≡ some e
    → e.1 ≡ updated p f rows
update-rows laws p f rows {e} h = elim (Option-cases (find p rows)) [
  | inl n ↦ cc (laws.update_lem ContentRevision p f rows, n, h)
  | inr (r, k) ↦ cc (laws.update_lem ContentRevision p f rows, k, h)
]

pub update-row :
    {db : PrismaClient}
    → PrismaLaws db
    → (p : ContentRevision → Bool) (f : ContentRevision → ContentRevision)
      (rows : List ContentRevision) {e : ContentRevision × List ContentRevision}
      {r : ContentRevision}
    → db.update ContentRevision p f rows ≡ some e
    → db.find_unique ContentRevision p rows ≡ some r
    → e.0 ≡ f r
update-row laws p f rows {e} {r} h found_row = cc (
  laws.update_lem ContentRevision p f rows,
  laws.find_unique_lem ContentRevision p rows,
  found_row,
  h,
)

pub finish-fails :
    {A : Type 0} (exception : Failure → Exception) (t : Tables) (o : Outcome A)
    → Keeps t o
    → is_ok (finish exception o).0 ≡ false
    → ((finish exception o).1 ≡ []) × ((finish exception o).2 ≡ t)
finish-fails exception t (failed f u) k e = (refl, k)
finish-fails exception t (done a effects after) k e = cc

saved_when_consistent-fails :
    (db : PrismaClient) (problems : List Problem) (t : Tables) (o : Outcome ContentRevision)
    → Keeps t o
    → is_ok (saved_when_consistent db problems t o).0 ≡ false
    → ((saved_when_consistent db problems t o).1 ≡ [])
      × ((saved_when_consistent db problems t o).2 ≡ t)
unfolding saved_when_consistent
saved_when_consistent-fails db [] t o k e = finish-fails _ t o k e
saved_when_consistent-fails db (p ∷ problems) t o k e = (refl, refl)

removed-none :
    {A : Type 0} (p : A → Bool) (xs : List A)
    → nat_eq (count_where p xs) 0 ≡ true
    → removed p xs ≡ xs
removed-none p [] e = refl
removed-none p (x ∷ xs) e = ground (arith, removed-none p xs)

-- Such a call that fails, whatever the reason, has no effects and leaves every table as it was.
pub run-failure :
    {db : PrismaClient}
    → PrismaLaws db
    → (trim : String → String) (c : Command) (t : Tables) → (run db trim c t).0 ≡ false
    → ((run db trim c t).1 ≡ []) × ((run db trim c t).2 ≡ t)
unfolding run save_draft_revision rebase_revision recall_revision delete_draft_revision
    submit_revision review_revision
run-failure {db} laws trim (save id snapshot) t e =
    saved_when_consistent-fails db (find_snapshot_problems snapshot) t
      (save_transaction db id snapshot t) (save_transaction-Keeps db id snapshot t) e
run-failure {db} laws trim (rebase id actor) t e =
    finish-fails _ t _ (rebase_transaction-Keeps db id actor t) e
run-failure {db} laws trim (recall id actor) t e =
    finish-fails _ t _ (recall_transaction-Keeps db id actor t) e
run-failure {db} laws trim (delete_draft id) t e =
    let here : ContentRevision → Bool =
      λ (r : ContentRevision). (r.id == id) && is_draft r.status in
    elim (Bool-cases (nat_eq (count_where here t.revisions) 0)) [
      | inl z ↦ rw (client_eq laws) (rw (z, removed-none here t.revisions z) (refl, refl))
      | inr z ↦
          let absurdity : true ≡ false =
            rw (laws.delete_many_lem ContentRevision here t.revisions, z) at e in
          absurd (ground arith)
    ]
run-failure {db} laws trim (submit id actor) t e =
    finish-fails _ t _ (submit_transaction-Keeps db id actor t) e
run-failure {db} laws trim (review id reviewer decision text review_id now) t e =
    finish-fails _ t _ (review_transaction-Keeps db trim id reviewer decision text review_id now t)
      e
