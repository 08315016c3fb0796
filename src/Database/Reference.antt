-- ===== src/Database/Reference.antt =====
-- A client over lists: the laws of `PrismaLaws` can be met.
use mathlib.Core.Option
use pathway_backend.Prelude.{
  ℕ, ◌≤◌, ◌⊎◌, Bool, true, false, ◌≡◌, refl, Option, none, some, List, [], ◌∷◌, ◌++◌, Memᴰ, All,
  find, select, any, count_where, updated, removed, leb, if◌then◌else◌, arith, Option-cases, inl,
  inr, All-map, All-select, length, zero, suc, sym, ap, ◌∙◌, find-Memᴰ,
}
use pathway_backend.Prelude.Slices.{take, drop, length-take}
use pathway_backend.Database.{PrismaClient, PrismaLaws}

module _ (Row : Type 0) (p : Row → Bool) (key : Row → ℕ) where
  -- The better of a row and the best of those behind it.
  better : Row → Option Row → Option Row
  better x none = if p x then some x else none
  better x (some b) =
      let other = if leb (key b) (key x) then some x else some b in if p x then other else some b

  better_cases :
      (x b r : Row)
      → better x (some b) ≡ some r
      → ((p x ≡ true) × (key b ≤ key x) × (x ≡ r)) ⊎ ((b ≡ r) × (p x ≡ true → key x ≤ key b))
  unfolding better
  better_cases x b r e = ground arith

  unfoldable pub best : List Row → Option Row
  unfolding better
  best [] = none
  best (x ∷ xs) = better x (best xs)

  best-none : (t : List Row) → best t ≡ none → All (λ r. p r ≡ false) t
  unfolding best
  best-none [] e = tt
  best-none (x ∷ xs) e = elim (Option-cases (best xs)) [
    | inl n ↦ (ground (arith, n), best-none xs n)
    | inr (b, s) ↦ absurd (ground (arith, s))
  ]

  best-some :
      (t : List Row) (r : Row)
      → best t ≡ some r
      → Memᴰ r t × (p r ≡ true) × All (λ s. p s ≡ true → key s ≤ key r) t
  unfolding best
  best-some [] r e = cc
  best-some (x ∷ xs) r e = elim (Option-cases (best xs)) [
    | inl n ↦
        let here : x ≡ r = ground (arith, n) in
        let passes : p x ≡ true = ground (arith, n) in
        (
          Memᴰ.head (sym here),
          rw (← here) passes,
          (λ _. rw here (omega arith), All-map _ xs (λ s no_match yes_match. cc) (best-none xs n)),
        )
    | inr (b, s) ↦
        let (here, passes, most) = best-some xs b s in
        elim (better_cases x b r (rw (s, best) at e)) [
          | inl (q, le, same) ↦ (
            Memᴰ.head (sym same),
            rw (← same) q,
            (
              λ _. rw same (omega arith),
              All-map _ xs (λ z k pz. rw (← same) (omega (arith, k pz))) most,
            ),
          )
          | inr (same, above) ↦ (
            rw (← same) (Memᴰ.tail here),
            rw (← same) passes,
            (rw (← same) above, All-map _ xs (λ z k pz. rw (← same) (k pz)) most),
          )
        ]
  ]

module _ (Row : Type 0) (P : Row → Type 0) where
  All-take : (n : ℕ) (t : List Row) → All P t → All P (take n t)
  All-take zero t h = tt
  All-take (suc n) [] h = tt
  All-take (suc n) (x ∷ t) (p, h) = (p, All-take n t h)

  All-drop : (n : ℕ) (t : List Row) → All P t → All P (drop n t)
  All-drop zero t h = h
  All-drop (suc n) [] h = tt
  All-drop (suc n) (x ∷ t) (p, h) = All-drop n t h

page_lem :
    (Row : Type 0) (p : Row → Bool) (skip n : ℕ) (t : List Row)
    → (length (take n (drop skip (select p t))) ≤ n)
      × All (λ r. Memᴰ r t × (p r ≡ true)) (take n (drop skip (select p t)))
page_lem Row p skip n t = (
  omega (arith, length-take n (drop skip (select p t))),
  All-take Row _ n _ (All-drop Row _ skip _ (All-select p t)),
)

-- A row is found by the first that matches, and rows are created at the end. Which row
-- `findFirst` returns among equals, and which a page holds, is open: the functions are arguments.
abbrev pub with_first :
    ((Row : Type 0) → (Row → Bool) → (Row → ℕ) → List Row → Option Row)
    → ((Row : Type 0) → (Row → Bool) → ℕ → ℕ → List Row → List Row)
    → PrismaClient
with_first first page = record {
  find_unique = λ Row p t. find p t;
  find_first = first;
  find_page = page;
  count = λ Row p t. count_where p t;
  find_many = λ Row p t. select p t;
  update_many = λ Row p f t. (updated p f t, count_where p t);
  delete_many = λ Row p t. (removed p t, count_where p t);
  create = λ Row r t. t ++ r ∷ [];
  create_many = λ Row p r t. if any p t then (t, 0) else (t ++ r ∷ [], 1);
  update = λ Row p f t. Option.map (λ r. (f r, updated p f t)) (find p t);
  upsert = λ Row p r f t. if any p t then updated p f t else t ++ r ∷ [];
}

abbrev pub reference : PrismaClient
reference = with_first best (λ Row p skip n t. take n (drop skip (select p t)))

pub reference_laws : PrismaLaws reference
reference_laws = record {
  find_unique_lem = λ Row p t. refl;
  find_first_none = best-none;
  find_first_some = best-some;
  find_many_lem = λ Row p t. refl;
  find_page_lem = λ Row p skip n t. page_lem Row p skip n t;
  count_lem = λ Row p t. refl;
  update_many_lem = λ Row p f t. refl;
  delete_many_lem = λ Row p t. refl;
  create_lem = λ Row r t. refl;
  create_many_lem = λ Row p r t. refl;
  update_lem = λ Row p f t. refl;
  upsert_lem = λ Row p r f t. refl;
}

-- The laws determine a client but for `findFirst`, so a proof may compute with lists.
pub client_eq : {db : PrismaClient} → PrismaLaws db → db ≡ with_first db.find_first db.find_page
client_eq {db} laws = λ i. record {
  find_unique = λ Row p t. laws.find_unique_lem Row p t i;
  find_first = db.find_first;
  find_page = db.find_page;
  count = λ Row p t. laws.count_lem Row p t i;
  find_many = λ Row p t. laws.find_many_lem Row p t i;
  update_many = λ Row p f t. laws.update_many_lem Row p f t i;
  delete_many = λ Row p t. laws.delete_many_lem Row p t i;
  create = λ Row r t. laws.create_lem Row r t i;
  create_many = λ Row p r t. laws.create_many_lem Row p r t i;
  update = λ Row p f t. laws.update_lem Row p f t i;
  upsert = λ Row p r f t. laws.upsert_lem Row p r f t i;
}

-- The row that an update by a key finds, and the rows that it leaves.
pub update-found :
    {db : PrismaClient}
    → PrismaLaws db
    → (Row : Type 0) (p : Row → Bool) (f : Row → Row) (t : List Row) {e : Row × List Row}
    → db.update Row p f t ≡ some e
    → (r : Row) × (find p t ≡ some r) × (e.0 ≡ f r) × (e.1 ≡ updated p f t)
update-found {db} laws Row p f t {e} h = elim (Option-cases (find p t)) [
  | inl n ↦
      let missing : db.update Row p f t ≡ none = laws.update_lem Row p f t ∙ rw n refl in
      absurd (cc (missing, h))
  | inr (r, k) ↦
      let changed : db.update Row p f t ≡ some (f r, updated p f t) =
        laws.update_lem Row p f t ∙ rw k refl in
      let same : e ≡ (f r, updated p f t) = cc (changed, h) in
      (r, k, ap (λ z. z.0) same, ap (λ z. z.1) same)
]

pub find_unique-Memᴰ :
    {db : PrismaClient}
    → PrismaLaws db
    → (Row : Type 0) (p : Row → Bool) (t : List Row) {r : Row} → db.find_unique Row p t ≡ some r
    → Memᴰ r t × (p r ≡ true)
find_unique-Memᴰ laws Row p t h = find-Memᴰ p t (sym (laws.find_unique_lem Row p t) ∙ h)
