-- ===== src/Prelude/Sort.antt =====
-- `[...xs].sort((a, b) => key(a) - key(b))`: the stable sort by a numeric key.
use Prim.Native.Nat.{ℕ, ◌≤◌}
use mathlib.Core.Path.{◌≡◌, refl}
use mathlib.Core.Logic.{inl, inr}
use mathlib.Core.Bool.{Bool, true, false}
use mathlib.Core.Option.{none, some}
use mathlib.Core.List.{List, [], ◌∷◌}
use native.Mathlib.Omega.{arith}
use pathway_backend.Prelude.Tests.{leb, if◌then◌else◌, Bool-cases}
use pathway_backend.Prelude.Lists.{length, All, All-map, find, count_where}

module _ {ℓ} {A : Type ℓ} (key : A → ℕ) where
  insert_by : A → List A → List A
  insert_by x [] = x ∷ []
  insert_by x (y ∷ ys) =
      let rest = insert_by x ys in if leb (key x) (key y) then x ∷ y ∷ ys else y ∷ rest

  unfoldable pub sort_by : List A → List A
  unfolding insert_by
  sort_by [] = []
  sort_by (x ∷ xs) = insert_by x (sort_by xs)

  abbrev pub IsSorted : List A → Type 0
  IsSorted [] = Unit
  IsSorted (x ∷ xs) = All (λ y. key x ≤ key y) xs × IsSorted xs

  insert_by-All : (P : A → Type 0) (x : A) (ys : List A) → P x → All P ys → All P (insert_by x ys)
  unfolding insert_by
  insert_by-All P x [] p h = (p, tt)
  insert_by-All P x (y ∷ ys) p (q, h) = elim (Bool-cases (leb (key x) (key y))) [
    | inl e ↦ rw e (p, (q, h))
    | inr e ↦ rw e (q, insert_by-All P x ys p h)
  ]

  insert_by-IsSorted : (x : A) (ys : List A) → IsSorted ys → IsSorted (insert_by x ys)
  unfolding insert_by
  insert_by-IsSorted x [] h = (tt, tt)
  insert_by-IsSorted x (y ∷ ys) (low, h) = elim (Bool-cases (leb (key x) (key y))) [
    | inl e ↦
        let le : key x ≤ key y = ground arith in
        rw e ((le, All-map _ ys (λ z k. omega arith) low), (low, h))
    | inr e ↦
        rw e (insert_by-All (λ z. key y ≤ key z) x ys (ground arith) low, insert_by-IsSorted x ys h)
  ]

  pub sort_by-IsSorted : (xs : List A) → IsSorted (sort_by xs)
  unfolding sort_by
  sort_by-IsSorted [] = tt
  sort_by-IsSorted (x ∷ xs) = insert_by-IsSorted x (sort_by xs) (sort_by-IsSorted xs)

  pub sort_by-All : (P : A → Type 0) (xs : List A) → All P xs → All P (sort_by xs)
  unfolding sort_by
  sort_by-All P [] h = tt
  sort_by-All P (x ∷ xs) (p, h) = insert_by-All P x (sort_by xs) p (sort_by-All P xs h)

  insert_by-All_inv :
      (P : A → Type 0) (x : A) (ys : List A) → All P (insert_by x ys) → P x × All P ys
  unfolding insert_by
  insert_by-All_inv P x [] h = h
  insert_by-All_inv P x (y ∷ ys) h = elim (Bool-cases (leb (key x) (key y))) [
    | inl e ↦ rw (e, insert_by) at h
    | inr e ↦
        let (q, later) = (rw (e, insert_by) at h) in
        let (p, rest) = insert_by-All_inv P x ys later in (p, (q, rest))
  ]

  -- What holds of all the sorted elements holds of all.
  pub All-sort_by : (P : A → Type 0) (xs : List A) → All P (sort_by xs) → All P xs
  unfolding sort_by
  All-sort_by P [] h = tt
  All-sort_by P (x ∷ xs) h =
      let (p, rest) = insert_by-All_inv P x (sort_by xs) h in (p, All-sort_by P xs rest)

  insert_by-count_where :
      (p : A → Bool) (x : A) (ys : List A) → count_where p (insert_by x ys) ≡ count_where p (x ∷ ys)
  unfolding insert_by
  insert_by-count_where p x [] = refl
  insert_by-count_where p x (y ∷ ys) = ground (arith, insert_by-count_where p x ys)

  pub count_where-sort_by :
      (p : A → Bool) (xs : List A) → count_where p (sort_by xs) ≡ count_where p xs
  unfolding sort_by
  count_where-sort_by p [] = refl
  count_where-sort_by p (x ∷ xs) =
      ground (arith, insert_by-count_where p x (sort_by xs), count_where-sort_by p xs)

  -- The first element of a sorted list that passes has the least key of those that pass.
  pub find-least :
      (p : A → Bool) (xs : List A) {a : A}
      → IsSorted xs
      → find p xs ≡ some a
      → All (λ y. p y ≡ true → key a ≤ key y) xs
  find-least p [] s e = tt
  find-least p (x ∷ xs) {a} (low, s) e = elim (Bool-cases (p x)) [
    | inl q ↦
        let same : x ≡ a = ground arith in
        (λ _. rw same (omega arith), All-map _ xs (λ y le _. rw (← same) le) low)
    | inr q ↦ (λ t. cc, find-least p xs s (ground arith))
  ]

  pub find-none : (p : A → Bool) (xs : List A) → find p xs ≡ none → All (λ y. p y ≡ false) xs
  find-none p [] e = tt
  find-none p (x ∷ xs) e = elim (Bool-cases (p x)) [
    | inl q ↦ absurd (ground arith)
    | inr q ↦ (q, find-none p xs (ground arith))
  ]

  insert_by-length : (x : A) (ys : List A) → length (insert_by x ys) ≡ length (x ∷ ys)
  unfolding insert_by
  insert_by-length x [] = refl
  insert_by-length x (y ∷ ys) = ground (arith, insert_by-length x ys)

  pub length-sort_by : (xs : List A) → length (sort_by xs) ≡ length xs
  unfolding sort_by
  length-sort_by [] = refl
  length-sort_by (x ∷ xs) = ground (arith, insert_by-length x (sort_by xs), length-sort_by xs)
