-- ===== src/Prelude/Slices.antt =====
-- Prefixes of lists, over the native numbers.
use Prim.Native.Nat.{ℕ, zero, suc, min}
use mathlib.Core.Path.{◌≡◌, refl, ap}
use mathlib.Core.List.{List, [], ◌∷◌, ◌++◌, append_assoc}
use native.Mathlib.Omega.{arith}
use pathway_backend.Prelude.Lists.{length}

module _ {ℓ} {A : Type ℓ} where
  abbrev pub take : ℕ → List A → List A
  take zero xs = []
  take (suc n) [] = []
  take (suc n) (x ∷ xs) = x ∷ take n xs

  abbrev pub drop : ℕ → List A → List A
  drop zero xs = xs
  drop (suc n) [] = []
  drop (suc n) (x ∷ xs) = drop n xs

  pub length-take : (n : ℕ) (xs : List A) → length (take n xs) ≡ min n (length xs)
  length-take zero xs = omega arith
  length-take (suc n) [] = omega arith
  length-take (suc n) (x ∷ xs) = omega (arith, length-take n xs)

  -- `xs` begins with `ys`.
  abbrev pub IsPrefixOf : List A → List A → Type ℓ
  IsPrefixOf ys xs = (rest : List A) × (ys ++ rest ≡ xs)

  pub IsPrefixOf-trans :
      (xs ys zs : List A) → IsPrefixOf xs ys → IsPrefixOf ys zs → IsPrefixOf xs zs
  IsPrefixOf-trans xs ys zs (r, p) (q, e) = (r ++ q, rw (← append_assoc xs r q) (rw p e))

  pub take-IsPrefixOf : (n : ℕ) (xs : List A) → IsPrefixOf (take n xs) xs
  take-IsPrefixOf zero xs = (xs, refl)
  take-IsPrefixOf (suc n) [] = ([], refl)
  take-IsPrefixOf (suc n) (x ∷ xs) = let (r, e) = take-IsPrefixOf n xs in (r, ap (λ t. x ∷ t) e)
