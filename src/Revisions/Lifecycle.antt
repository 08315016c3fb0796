-- ===== src/Revisions/Lifecycle.antt =====
-- What saving, rebasing, recalling, deleting, submitting and reviewing a revision keep.
use pathway_backend.Prelude.{
  String, true, List, ◌≡◌, inl, inr, refl, Bool-cases, string_Eq, nat_Eq, arith, ap,
}
use pathway_backend.Exceptions.{Result, ok, err, is_ok}
use pathway_backend.Effects.{Effect}
use pathway_backend.Database.{PrismaClient, PrismaLaws}
use pathway_backend.Revisions.{Tables}
use pathway_backend.Revisions.Editing.{
  save_draft_revision, rebase_revision, recall_revision, delete_draft_revision,
}
use pathway_backend.Revisions.Reviewing.{submit_revision, review_revision}
use pathway_backend.Revisions.Failures.{
  Command, save, rebase, recall, delete_draft, submit, review, run, run-failure,
}
use pathway_backend.Revisions.Approval.{WasReviewed, IsReviewOf, review_revision-done}
use pathway_backend.Revisions.Ready.{WasSubmitted, submit_revision-done}
use pathway_backend.Revisions.Fresh.{WasRebased, rebase_revision-done}
use pathway_backend.Revisions.Saved.{
  WasSaved, WasRecalled, save_draft_revision-done, recall_revision-done,
}
use pathway_backend.Revisions.Soundness.{
  IsSound, saved-IsSound, rebased-IsSound, recalled-IsSound, deleted-IsSound, submitted-IsSound,
  reviewed-IsSound,
}

pub succeeded :
    {A : Type 0} (x : Result A × List Effect × Tables)
    → is_ok x.0 ≡ true
    → (a : A) × (x ≡ (ok a, x.1, x.2))
succeeded (ok a, effects, t) e = (a, refl)
succeeded (err f, effects, t) e = cc

module _ {db : PrismaClient} (laws : PrismaLaws db) (trim : String → String) where
  successful-IsSound :
      (c : Command) (t : Tables)
      → (run db trim c t).0 ≡ true
      → IsSound t
      → IsSound (run db trim c t).2
  unfolding run
  successful-IsSound (save id snapshot) t e sound =
      let x = save_draft_revision db id snapshot t in
      saved-IsSound id snapshot t x.2
        (save_draft_revision-done laws id snapshot t (succeeded x e).1).1 sound
  successful-IsSound (rebase id actor_user_id) t e sound =
      let x = rebase_revision db id actor_user_id t in
      let (a, done_) = succeeded x e in
      rebased-IsSound id actor_user_id t a x.1 x.2
        (rebase_revision-done laws id actor_user_id t done_) sound
  successful-IsSound (recall id actor) t e sound =
      let x = recall_revision db id actor t in
      recalled-IsSound id actor t x.2 (recall_revision-done laws id actor t (succeeded x e).1) sound
  successful-IsSound (delete_draft id) t e sound = deleted-IsSound laws id t sound
  successful-IsSound (submit id actor) t e sound =
      let x = submit_revision db id actor t in
      submitted-IsSound db id actor t x.2 (submit_revision-done laws id actor t (succeeded x e).1)
        sound
  successful-IsSound (review id reviewer decision text review_id now) t e sound =
      let x = review_revision db trim id reviewer decision text review_id now t in
      reviewed-IsSound trim id reviewer decision text review_id now t x.2
        (review_revision-done laws trim id reviewer decision text review_id now t (succeeded x e).1)
        sound

module _ {db : PrismaClient} (laws : PrismaLaws db) (trim : String → String) where
  successful-careers :
      (c : Command) (t : Tables)
      → (run db trim c t).0 ≡ true
      → (run db trim c t).2.careers ≡ t.careers
  unfolding run delete_draft_revision WasSaved WasRebased WasRecalled WasSubmitted WasReviewed
      IsReviewOf
  successful-careers (save id snapshot) t e =
      let x = save_draft_revision db id snapshot t in
      let (_, (_, _, _, _, _, _, same)) =
        save_draft_revision-done laws id snapshot t (succeeded x e).1 in
      ap (λ z. z.careers) same
  successful-careers (rebase id actor_user_id) t e =
      let x = rebase_revision db id actor_user_id t in
      let (_, _, _, _, _, _, _, _, _, written) =
        rebase_revision-done laws id actor_user_id t (succeeded x e).1 in
      elim written [
        | inl (_, _, _, same) ↦ ap (λ z. z.careers) same
        | inr (_, _, _, same) ↦ ap (λ z. z.careers) same
      ]
  successful-careers (recall id actor) t e =
      let x = recall_revision db id actor t in
      let (_, _, _, _, same) = recall_revision-done laws id actor t (succeeded x e).1 in
      ap (λ z. z.careers) same
  successful-careers (delete_draft id) t e = ground arith
  successful-careers (submit id actor) t e =
      let x = submit_revision db id actor t in
      let (_, _, _, _, _, _, _, same) = submit_revision-done laws id actor t (succeeded x e).1 in
      ap (λ z. z.careers) same
  successful-careers (review id reviewer decision text review_id now) t e =
      let x = review_revision db trim id reviewer decision text review_id now t in
      let (_, _, _, _, _, (_, _, same)) =
        review_revision-done laws trim id reviewer decision text review_id now t
          (succeeded x e).1 in
      same

-- Saving, rebasing, recalling, deleting, submitting and reviewing keep the ids of the revisions unique,
-- and each approved revision with a review that approves it, however the call ends.
pub run-IsSound :
    {db : PrismaClient}
    → PrismaLaws db
    → (trim : String → String) (c : Command) (t : Tables) → IsSound t
    → IsSound (run db trim c t).2
run-IsSound {db} laws trim c t sound = elim (Bool-cases (run db trim c t).0) [
  | inl e ↦ successful-IsSound laws trim c t e sound
  | inr e ↦ rw ((run-failure laws trim c t e).1) sound
]

-- None of these calls writes a career.
pub run-careers :
    {db : PrismaClient}
    → PrismaLaws db
    → (trim : String → String) (c : Command) (t : Tables) → (run db trim c t).2.careers ≡ t.careers
run-careers {db} laws trim c t = elim (Bool-cases (run db trim c t).0) [
  | inl e ↦ successful-careers laws trim c t e
  | inr e ↦ ap (λ (z : Tables). z.careers) (run-failure laws trim c t e).1
]
