-- ===== src/Prelude/Lists.antt =====
-- Lists by Boolean tests, over the native numbers, and the predicate `All`.
use Prim.Native.Nat.{ℕ, suc, ◌+◌, ◌≤◌}
use mathlib.Core.Path.{◌≡◌, refl, ap, subst}
use mathlib.Core.Logic.{inl, inr}
use mathlib.Core.Bool.{Bool, true, false, not, ◌||◌, ◌&&◌}
use mathlib.Core.Option.{Option, none, some}
use mathlib.Core.List.{List, [], ◌∷◌, ◌++◌, Memᴰ}
use native.Mathlib.Omega.{arith}
use pathway_backend.Prelude.Tests.{if◌then◌else◌, Bool-cases}

module _ {ℓ} {A : Type ℓ} where
  abbrev pub length : List A → ℕ
  length [] = 0
  length (x ∷ xs) = suc (length xs)

  abbrev pub any : (A → Bool) → List A → Bool
  any p [] = false
  any p (x ∷ xs) = p x || any p xs

  -- The first element that passes.
  abbrev pub find : (A → Bool) → List A → Option A
  find p [] = none
  find p (x ∷ xs) = let rest = find p xs in if p x then some x else rest

  -- The elements that pass, in order.
  abbrev pub select : (A → Bool) → List A → List A
  select p [] = []
  select p (x ∷ xs) = let rest = select p xs in if p x then x ∷ rest else rest

  abbrev pub count_where : (A → Bool) → List A → ℕ
  count_where p [] = 0
  count_where p (x ∷ xs) = let rest = count_where p xs in if p x then suc rest else rest

  -- The list with each element that passes replaced.
  abbrev pub updated : (A → Bool) → (A → A) → List A → List A
  updated p f [] = []
  updated p f (x ∷ xs) = (if p x then f x else x) ∷ updated p f xs

  -- The list without the elements that pass.
  abbrev pub removed : (A → Bool) → List A → List A
  removed p [] = []
  removed p (x ∷ xs) = let rest = removed p xs in if p x then rest else x ∷ rest

abbrev pub All {ℓ κ} : {A : Type ℓ} → (A → Type κ) → List A → Type κ
All P [] = Unit
All P (x ∷ xs) = P x × All P xs

module _ {ℓ κ} {A : Type ℓ} (P : A → Type κ) where
  pub All-append : (xs ys : List A) → All P xs → All P ys → All P (xs ++ ys)
  All-append [] ys h k = k
  All-append (x ∷ xs) ys (p, h) k = (p, All-append xs ys h k)

  pub All-map {μ} : {Q : A → Type μ} (xs : List A) → ((x : A) → P x → Q x) → All P xs → All Q xs
  All-map [] f h = tt
  All-map (x ∷ xs) f (p, h) = (f x p, All-map xs f h)

  -- An update keeps what it keeps of each row that it touches.
  pub All-updated :
      (p : A → Bool) (f : A → A) (xs : List A)
      → ((x : A) → P x → p x ≡ true → P (f x))
      → All P xs
      → All P (updated p f xs)
  All-updated p f [] k h = tt
  All-updated p f (x ∷ xs) k (hx, h) = elim (Bool-cases (p x)) [
    | inl e ↦ rw e (k x hx e, All-updated p f xs k h)
    | inr e ↦ rw e (hx, All-updated p f xs k h)
  ]

  pub All-removed : (p : A → Bool) (xs : List A) → All P xs → All P (removed p xs)
  All-removed p [] h = tt
  All-removed p (x ∷ xs) (hx, h) = elim (Bool-cases (p x)) [
    | inl e ↦ rw e (All-removed p xs h)
    | inr e ↦ rw e (hx, All-removed p xs h)
  ]

  pub All-Memᴰ : {a : A} (xs : List A) → All P xs → Memᴰ a xs → P a
  All-Memᴰ [] h m = elim m [ ]
  All-Memᴰ (x ∷ xs) (p, h) (Memᴰ.head e) = rw e p
  All-Memᴰ (x ∷ xs) (p, h) (Memᴰ.tail m) = All-Memᴰ xs h m

module _ {ℓ} {A : Type ℓ} where
  pub All-true : (xs : List A) (P : A → Type 0) → ((x : A) → P x) → All P xs
  All-true [] P f = tt
  All-true (x ∷ xs) P f = (f x, All-true xs P f)

  -- What `find` returns is in the list and passes.
  pub find-Memᴰ :
      (p : A → Bool) (xs : List A) {a : A} → find p xs ≡ some a → Memᴰ a xs × (p a ≡ true)
  find-Memᴰ p [] e = cc
  find-Memᴰ p (x ∷ xs) {a} e = elim (Bool-cases (p x)) [
    | inl q ↦ let same : a ≡ x = ground arith in (Memᴰ.head same, rw same q)
    | inr q ↦ let (m, h) = find-Memᴰ p xs (ground arith) in (Memᴰ.tail m, h)
  ]

  pub length-append : (xs ys : List A) → length (xs ++ ys) ≡ length xs + length ys
  length-append [] ys = omega arith
  length-append (x ∷ xs) ys = omega (arith, length-append xs ys)

  pub length-updated :
      (p : A → Bool) (f : A → A) (xs : List A) → length (updated p f xs) ≡ length xs
  length-updated p f [] = refl
  length-updated p f (x ∷ xs) = ap suc (length-updated p f xs)

  pub count_where-le-length : (p : A → Bool) (xs : List A) → count_where p xs ≤ length xs
  count_where-le-length p [] = omega arith
  count_where-le-length p (x ∷ xs) = ground (arith, count_where-le-length p xs)

module _ {ℓ} {A : Type ℓ} where
  pub All-self : (xs : List A) → All (λ x. Memᴰ x xs) xs
  All-self [] = tt
  All-self (x ∷ xs) = (Memᴰ.head refl, All-map _ xs (λ y m. Memᴰ.tail m) (All-self xs))

  pub All-Memᴰ_iff : (P : A → Type 0) (xs : List A) → ((x : A) → Memᴰ x xs → P x) → All P xs
  All-Memᴰ_iff P xs f = All-map _ xs f (All-self xs)

  pub select_cong :
      (p q : A → Bool) (xs : List A) → All (λ x. p x ≡ q x) xs → select p xs ≡ select q xs
  select_cong p q [] h = refl
  select_cong p q (x ∷ xs) (e, h) = rw (e, select_cong p q xs h)

  pub select-eq-nil : (p : A → Bool) (xs : List A) → All (λ x. p x ≡ false) xs → select p xs ≡ []
  select-eq-nil p [] h = refl
  select-eq-nil p (x ∷ xs) (e, h) = rw (e, select-eq-nil p xs h)

  pub find-select :
      (p q : A → Bool) (xs : List A) → find q (select p xs) ≡ find (λ x. p x && q x) xs
  find-select p q [] = refl
  find-select p q (x ∷ xs) = elim (Bool-cases (p x)) [
    | inl e ↦ rw (e, find-select p q xs)
    | inr e ↦ rw (e, find-select p q xs)
  ]

  pub length-select : (p : A → Bool) (xs : List A) → length (select p xs) ≡ count_where p xs
  length-select p [] = refl
  length-select p (x ∷ xs) = ground (arith, length-select p xs)

  pub count_where-not :
      (p : A → Bool) (xs : List A) → count_where p xs + count_where (λ x. not (p x)) xs ≡ length xs
  count_where-not p [] = omega arith
  count_where-not p (x ∷ xs) = ground (arith, count_where-not p xs)

  pub any_of_Memᴰ : (p : A → Bool) (xs : List A) {a : A} → Memᴰ a xs → p a ≡ true → any p xs ≡ true
  any_of_Memᴰ p [] m h = elim m [ ]
  any_of_Memᴰ p (x ∷ xs) {a} (Memᴰ.head e) h = ground (arith, ap p e)
  any_of_Memᴰ p (x ∷ xs) {a} (Memᴰ.tail m) h = ground (arith, any_of_Memᴰ p xs m h)

  pub All-select : (p : A → Bool) (xs : List A) → All (λ x. Memᴰ x xs × (p x ≡ true)) (select p xs)
  All-select p [] = tt
  All-select p (x ∷ xs) =
      let later =
        All-map _ (select p xs) (λ y k. let (m, e) = k in (Memᴰ.tail {x = x} m, e))
          (All-select p xs) in
      elim (Bool-cases (p x)) [ inl e ↦ rw e ((Memᴰ.head refl, e), later) | inr e ↦ rw e later ]

  -- Where an update does not change what is looked for, the row found is the one found before.
  pub find-updated :
      (p q : A → Bool) (f : A → A) (xs : List A) {a : A}
      → ((x : A) → p (f x) ≡ p x)
      → find p xs ≡ some a
      → find p (updated q f xs) ≡ some (if q a then f a else a)
  find-updated p q f [] k e = cc
  find-updated p q f (x ∷ xs) {a} k e = ground (arith, k x, find-updated p q f xs {a = a} k)

  pub find-updated-none :
      (p q : A → Bool) (f : A → A) (xs : List A)
      → ((x : A) → p (f x) ≡ p x)
      → find p xs ≡ none
      → find p (updated q f xs) ≡ none
  find-updated-none p q f [] k e = refl
  find-updated-none p q f (x ∷ xs) k e = ground (arith, k x, find-updated-none p q f xs k)

  pub find-and :
      (p q : A → Bool) (xs : List A) {a : A}
      → find p xs ≡ some a
      → q a ≡ true
      → find (λ x. p x && q x) xs ≡ some a
  find-and p q [] e h = cc
  find-and p q (x ∷ xs) {a} e h = elim (Bool-cases (p x)) [
    | inl t ↦ let same : x ≡ a = ground arith in rw t (rw same (rw h))
    | inr t ↦ rw t (find-and p q xs (ground arith) h)
  ]

  pub find-eq-none : (p : A → Bool) (xs : List A) → All (λ x. p x ≡ false) xs → find p xs ≡ none
  find-eq-none p [] h = refl
  find-eq-none p (x ∷ xs) (e, h) = rw (e, find-eq-none p xs h)

  pub count_where-pos :
      (p : A → Bool) (xs : List A) {a : A} → Memᴰ a xs → p a ≡ true → 1 ≤ count_where p xs
  count_where-pos p [] m h = elim m [ ]
  count_where-pos p (x ∷ xs) (Memᴰ.head e) h = ground (arith, ap p e)
  count_where-pos p (x ∷ xs) (Memᴰ.tail m) h = ground (arith, count_where-pos p xs m h)

  pub count_where-removed : (p : A → Bool) (xs : List A) → count_where p (removed p xs) ≡ 0
  count_where-removed p [] = refl
  count_where-removed p (x ∷ xs) = ground (arith, count_where-removed p xs)

  pub count_where-concat :
      (p : A → Bool) (xs : List A) (x : A)
      → p x ≡ true
      → count_where p (xs ++ x ∷ []) ≡ suc (count_where p xs)
  count_where-concat p [] x h = ground arith
  count_where-concat p (y ∷ xs) x h = ground (arith, count_where-concat p xs x h)

  pub Memᴰ-append_left : {a : A} (xs ys : List A) → Memᴰ a xs → Memᴰ a (xs ++ ys)
  Memᴰ-append_left [] ys m = elim m [ ]
  Memᴰ-append_left (x ∷ xs) ys (Memᴰ.head e) = Memᴰ.head e
  Memᴰ-append_left (x ∷ xs) ys (Memᴰ.tail m) = Memᴰ.tail (Memᴰ-append_left xs ys m)

  pub Memᴰ-append_last : (xs : List A) (x : A) → Memᴰ x (xs ++ x ∷ [])
  Memᴰ-append_last [] x = Memᴰ.head refl
  Memᴰ-append_last (y ∷ xs) x = Memᴰ.tail (Memᴰ-append_last xs x)

  pub Memᴰ-removed :
      (p : A → Bool) (xs : List A) {a : A} → Memᴰ a xs → p a ≡ false → Memᴰ a (removed p xs)
  Memᴰ-removed p [] m h = elim m [ ]
  Memᴰ-removed p (x ∷ xs) {a} (Memᴰ.head e) h =
      let kept : p x ≡ false = subst (λ z. p z ≡ false) e h in rw kept (Memᴰ.head e)
  Memᴰ-removed p (x ∷ xs) (Memᴰ.tail m) h = elim (Bool-cases (p x)) [
    | inl e ↦ rw e (Memᴰ-removed p xs m h)
    | inr e ↦ rw e (Memᴰ.tail (Memᴰ-removed p xs m h))
  ]

abbrev pub concat_map {ℓ κ} : {A : Type ℓ} {B : Type κ} → (A → List B) → List A → List B
concat_map f [] = []
concat_map f (x ∷ xs) = f x ++ concat_map f xs
