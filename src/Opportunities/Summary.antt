-- ===== src/Opportunities/Summary.antt =====
-- `toSummary` of src/opportunities/opportunity-list.ts, over UTF-16 code units. Which code units
-- are white space, as `trim` reads them, is a parameter.
use mathlib.Core.List.{append-nil}
use pathway_backend.Prelude.{
  ℕ, ◌+◌, ◌≤◌, ◌<◌, Bool, true, false, ◌&&◌, Option, none, some, List, [], ◌∷◌, ◌++◌, length, leb,
  ltb, nat_Eq, ◌==◌, ◌≡◌, refl, arith, if◌then◌else◌, Bool-cases, inl, inr, length-append, ◌⊎◌, ap,
}
use pathway_backend.Prelude.Slices.{
  take, length-take, IsPrefixOf, IsPrefixOf-trans, take-IsPrefixOf,
}

abbrev pub summary_max_length : ℕ
summary_max_length = 160

-- The code units of ' ' and '…'.
abbrev space : ℕ
space = 32

abbrev pub ellipsis : ℕ
ellipsis = 0x2026

last_index_of : ℕ → List ℕ → Option ℕ
last_index_of c [] = none
last_index_of c (x ∷ xs) = elim (last_index_of c xs) [
  | some n ↦ some (n + 1)
  | none ↦ if x == c then some 0 else none
]

-- `lastSpace > 0 ? cut.slice(0, lastSpace) : cut`
cut_at : Option ℕ → List ℕ → List ℕ
cut_at none cut = cut
cut_at (some n) cut = if ltb 0 n then take n cut else cut

abbrev is_nil : List ℕ → Bool
is_nil [] = true
is_nil (_ ∷ _) = false

module _ (is_white : ℕ → Bool) where
  trim_start : List ℕ → List ℕ
  trim_start [] = []
  trim_start (x ∷ xs) = let rest = trim_start xs in if is_white x then rest else x ∷ xs

  unfoldable pub trim_end : List ℕ → List ℕ
  trim_end [] = []
  trim_end (x ∷ xs) = let rest = trim_end xs in if is_nil rest && is_white x then [] else x ∷ rest

  unfoldable pub trim : List ℕ → List ℕ
  unfolding trim_start
  trim text = trim_end (trim_start text)

  -- The text before the ellipsis.
  pub shortened : List ℕ → List ℕ
  shortened text =
      let cut = take summary_max_length text in trim_end (cut_at (last_index_of space cut) cut)

  unfoldable pub to_summary : List ℕ → List ℕ
  to_summary description =
      let text = trim description in
      if leb (length text) summary_max_length then text else shortened text ++ ellipsis ∷ []

  trim_end-IsPrefixOf : (xs : List ℕ) → IsPrefixOf (trim_end xs) xs
  unfolding trim_end
  trim_end-IsPrefixOf [] = ([], refl)
  trim_end-IsPrefixOf (x ∷ xs) =
      let (rest, e) = trim_end-IsPrefixOf xs in
      elim (Bool-cases (is_nil (trim_end xs) && is_white x)) [
        | inl b ↦ (x ∷ xs, rw b)
        | inr b ↦ (rest, rw b (ap (λ t. x ∷ t) e))
      ]

  cut_at-IsPrefixOf : (n : Option ℕ) (cut : List ℕ) → IsPrefixOf (cut_at n cut) cut
  unfolding cut_at
  cut_at-IsPrefixOf none cut = ([], append-nil cut)
  cut_at-IsPrefixOf (some n) cut = elim (Bool-cases (ltb 0 n)) [
    | inl b ↦ rw b (take-IsPrefixOf n cut)
    | inr b ↦ rw b ([], append-nil cut)
  ]

  IsPrefixOf-le : (xs ys : List ℕ) → IsPrefixOf xs ys → length xs ≤ length ys
  IsPrefixOf-le xs ys (rest, e) = omega (arith, length-append xs rest, ap length e)

  shortened-IsPrefixOf :
      (text : List ℕ) → IsPrefixOf (shortened text) (take summary_max_length text)
  unfolding shortened
  shortened-IsPrefixOf text =
      let cut = take summary_max_length text in
      IsPrefixOf-trans _ _ _ (trim_end-IsPrefixOf (cut_at (last_index_of space cut) cut))
        (cut_at-IsPrefixOf (last_index_of space cut) cut)

  -- A description of at most 160 code units, trimmed, is its own summary; the summary of a longer
  -- one is a beginning of it of at most 160 code units, and the ellipsis.
  pub to_summary_lem :
      (description : List ℕ)
      → ((length (trim description) ≤ 160) × (to_summary description ≡ trim description))
        ⊎ ((body : List ℕ) × (to_summary description ≡ body ++ ellipsis ∷ [])
            × IsPrefixOf body (trim description)
            × (length body ≤ 160)
            × (160 < length (trim description)))
  unfolding to_summary
  to_summary_lem description =
      let text = trim description in
      elim (Bool-cases (leb (length text) 160)) [
        | inl b ↦ inl (ground arith, rw b)
        | inr b ↦
            let inside = shortened-IsPrefixOf text in
            inr (
              shortened text,
              rw b,
              IsPrefixOf-trans _ _ _ inside (take-IsPrefixOf 160 text),
              omega (arith, IsPrefixOf-le _ _ inside, length-take 160 text),
              ground arith,
            )
      ]
