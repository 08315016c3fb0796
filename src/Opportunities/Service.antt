-- ===== src/Opportunities/Service.antt =====
-- Saving and unsaving an opportunity (src/opportunities/opportunities.service.ts). The clock is
-- read for the check (`now`) and by the database for the new row (`saved_at`).
use pathway_backend.Prelude.{
  ℕ, String, Bool, true, false, ◌&&◌, Option, none, some, List, [], ◌∷◌, ◌++◌, any, find, removed,
  string_Eq, ◌==◌, eq_iff, ◌≡◌, refl, arith, if◌then◌else◌, Bool-cases, Option-cases, inl, inr,
}
use pathway_backend.Exceptions.{Result, ok, err, not_found}
use pathway_backend.Database.{PrismaClient, PrismaLaws}
use pathway_backend.Database.Reference.{client_eq}
use pathway_backend.Opportunities.{Opportunity, is_visible}

pub record Saved : Type 0 where
  pub user_id : String
  pub opportunity_id : String
  pub saved_at : ℕ

abbrev pub has_key : String → String → Saved → Bool
has_key user opportunity s = s.user_id == user && s.opportunity_id == opportunity

-- The conditions under which a save is refused.
abbrev saveable : Option Opportunity → ℕ → Bool
saveable none now = false
saveable (some o) now = is_visible o.rule_input now

module _ (db : PrismaClient) where
  -- `findUniqueOrThrow` for the row's time; without the row it throws P2025, shown as a 404.
  saved_time : Option Saved → Result ℕ
  saved_time none = err (not_found "Record not found")
  saved_time (some s) = ok s.saved_at

  pub save_opportunity :
      (opportunities : List Opportunity) (now saved_at : ℕ) (user_id opportunity_id : String)
      → List Saved
      → Result ℕ × List Saved
  unfolding saved_time
  save_opportunity opportunities now saved_at user_id opportunity_id saves =
      let row : Saved = record {
        user_id = user_id;
        opportunity_id = opportunity_id;
        saved_at = saved_at;
      } in
      let (after, count) = db.create_many Saved (has_key user_id opportunity_id) row saves in
      if saveable (db.find_unique Opportunity (λ o. o.id == opportunity_id) opportunities) now
      then (saved_time (db.find_unique Saved (has_key user_id opportunity_id) after), after)
      else (err (not_found "Opportunity not found"), saves)

  pub unsave_opportunity : (user_id opportunity_id : String) → List Saved → List Saved
  unsave_opportunity user_id opportunity_id saves =
      (db.delete_many Saved (has_key user_id opportunity_id) saves).0

-- Whether the user has saved the opportunity.
abbrev pub is_saved : String → String → List Saved → Bool
is_saved user_id opportunity_id saves = any (has_key user_id opportunity_id) saves

find-append_new :
    (p : Saved → Bool) (saves : List Saved) (s : Saved)
    → any p saves ≡ false
    → p s ≡ true
    → find p (saves ++ s ∷ []) ≡ some s
find-append_new p [] s h t = ground arith
find-append_new p (x ∷ saves) s h t = ground (arith, find-append_new p saves s)

any-find :
    (p : Saved → Bool) (saves : List Saved)
    → any p saves ≡ true
    → (s : Saved) × (find p saves ≡ some s)
any-find p [] h = absurd (ground arith)
any-find p (x ∷ saves) h = elim (Bool-cases (p x)) [
  | inl q ↦ (x, rw q)
  | inr q ↦ let (s, e) = any-find p saves (ground arith) in (s, rw q e)
]

any-append :
    (p : Saved → Bool) (saves : List Saved) (s : Saved)
    → p s ≡ true
    → any p (saves ++ s ∷ []) ≡ true
any-append p [] s t = ground arith
any-append p (x ∷ saves) s t = ground (arith, any-append p saves s)

any-removed : (p : Saved → Bool) (saves : List Saved) → any p (removed p saves) ≡ false
any-removed p [] = refl
any-removed p (x ∷ saves) = ground (arith, any-removed p saves)

has_key_self :
    (u o : String) (t : ℕ)
    → has_key u o (record { user_id = u; opportunity_id = o; saved_at = t }) ≡ true
has_key_self u o t = ground (arith, eq_iff u u, eq_iff o o)

module _ (db : PrismaClient) (laws : PrismaLaws db) where
  -- Saving a visible opportunity succeeds and leaves it saved, with the time of the first save: a
  -- second save of it changes nothing.
  pub save_opportunity_lem :
      (opportunities : List Opportunity) (now saved_at : ℕ) (user_id id : String)
      (saves : List Saved) (o : Opportunity)
      → find (λ o. o.id == id) opportunities ≡ some o
      → is_visible o.rule_input now ≡ true
      → let (result, after) = save_opportunity db opportunities now saved_at user_id id saves in
        (s : Saved) × (result ≡ ok s.saved_at)
        × (find (has_key user_id id) after ≡ some s)
        × (is_saved user_id id after ≡ true)
        × (is_saved user_id id saves ≡ true → after ≡ saves)
        × (is_saved user_id id saves ≡ false → s.saved_at ≡ saved_at)
  unfolding save_opportunity
  save_opportunity_lem opportunities now saved_at user_id id saves o found visible =
      let key = has_key user_id id in
      let row : Saved = record { user_id = user_id; opportunity_id = id; saved_at = saved_at } in
      rw (client_eq laws) (elim (Bool-cases (any key saves)) [
        | inl old ↦
            let (s, e) = any-find key saves old in
            (
              s,
              rw found (rw visible (rw old (rw (e, saved_time)))),
              rw found (rw visible (rw old e)),
              rw found (rw visible (rw old old)),
              λ _. rw found (rw visible (rw old refl)),
              λ new. cc,
            )
        | inr new ↦
            let e = find-append_new key saves row new (has_key_self user_id id saved_at) in
            (
              row,
              rw found (rw visible (rw new (rw (e, saved_time)))),
              rw found (rw visible (rw new e)),
              rw found (
                  rw visible
                    (rw new (any-append key saves row (has_key_self user_id id saved_at)))),
              λ old. cc,
              λ _. refl,
            )
      ])

  -- A save of an opportunity that does not exist or is not visible is refused and saves nothing.
  pub save_opportunity_hidden :
      (opportunities : List Opportunity) (now saved_at : ℕ) (user_id id : String)
      (saves : List Saved)
      → ((o : Opportunity)
          → find (λ o. o.id == id) opportunities ≡ some o
          → is_visible o.rule_input now ≡ false)
      → save_opportunity db opportunities now saved_at user_id id saves
        ≡ (err (not_found "Opportunity not found"), saves)
  unfolding save_opportunity
  save_opportunity_hidden opportunities now saved_at user_id id saves hidden =
      rw (client_eq laws) (elim (Option-cases (find (λ o. o.id == id) opportunities)) [
        | inl n ↦ rw n
        | inr (o, e) ↦ rw e (rw (hidden o e))
      ])

  -- After an unsave the opportunity is not saved.
  pub unsave_opportunity_lem :
      (user_id id : String) (saves : List Saved)
      → is_saved user_id id (unsave_opportunity db user_id id saves) ≡ false
  unfolding unsave_opportunity
  unsave_opportunity_lem user_id id saves =
      rw (client_eq laws) (any-removed (has_key user_id id) saves)
