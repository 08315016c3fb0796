-- ===== src/Prelude/Members.antt =====
-- Members of lists that were updated, filtered, counted or extended.
use mathlib.Core.Path.{subst, ◌≡◌, refl, ap, sym, ◌∙◌}
use mathlib.Core.Logic.{◌⊎◌, inl, inr}
use mathlib.Core.Bool.{Bool, true, false, ◌||◌}
use mathlib.Core.List.{List, [], ◌∷◌, ◌++◌, Memᴰ}
use native.Mathlib.Omega.{arith}
use pathway_backend.Prelude.Tests.{if◌then◌else◌, Bool-cases, nat_eq}
use mathlib.Core.Option.{none, some}
use Prim.Native.Nat.{◌+◌, ◌≤◌}
use pathway_backend.Prelude.Lists.{
  All, All-map, select, concat_map, Memᴰ-append_left, updated, removed, count_where, any, find,
  count_where-pos, find-Memᴰ,
}

pub Memᴰ-updated :
    {A : Type 0} (p : A → Bool) (f : A → A) (xs : List A) {y : A}
    → Memᴰ y (updated p f xs)
    → (x : A) × Memᴰ x xs × (y ≡ (if p x then f x else x))
Memᴰ-updated p f [] m = elim m [ ]
Memᴰ-updated p f (x ∷ xs) (Memᴰ.head e) = (x, Memᴰ.head refl, e)
Memᴰ-updated p f (x ∷ xs) (Memᴰ.tail m) =
    let (z, k, e) = Memᴰ-updated p f xs m in (z, Memᴰ.tail k, e)

pub All-of-removed :
    {A : Type 0} (p : A → Bool) (xs : List A) → All (λ y. Memᴰ y xs × (p y ≡ false)) (removed p xs)
All-of-removed p [] = tt
All-of-removed p (x ∷ xs) =
    let later =
      All-map _ (removed p xs) (λ y k. let (m, e) = k in (Memᴰ.tail {x = x} m, e))
        (All-of-removed p xs) in
    elim (Bool-cases (p x)) [ inl e ↦ rw e later | inr e ↦ rw e ((Memᴰ.head refl, e), later) ]

pub count-found :
    {A : Type 0} (p : A → Bool) (xs : List A)
    → nat_eq (count_where p xs) 0 ≡ false
    → (x : A) × Memᴰ x xs × (p x ≡ true)
count-found p [] e = cc
count-found p (x ∷ xs) e = elim (Bool-cases (p x)) [
  | inl h ↦ (x, Memᴰ.head refl, h)
  | inr h ↦ let (y, m, k) = count-found p xs (rw h at e) in (y, Memᴰ.tail m, k)
]

pub any-concat :
    {A : Type 0} (p : A → Bool) (xs : List A) (x : A) → any p (xs ++ x ∷ []) ≡ (any p xs || p x)
any-concat p [] x = ground arith
any-concat p (y ∷ xs) x = ground (arith, any-concat p xs x)

-- An update that a test does not notice keeps the count and the test of any row.
pub count_where-updated :
    {A : Type 0} (p q : A → Bool) (f : A → A) (xs : List A)
    → ((x : A) → p (f x) ≡ p x)
    → count_where p (updated q f xs) ≡ count_where p xs
count_where-updated p q f [] k = refl
count_where-updated p q f (x ∷ xs) k = ground (arith, k x, count_where-updated p q f xs k)

pub any-updated :
    {A : Type 0} (p q : A → Bool) (f : A → A) (xs : List A)
    → ((x : A) → p (f x) ≡ p x)
    → any p (updated q f xs) ≡ any p xs
any-updated p q f [] k = refl
any-updated p q f (x ∷ xs) k = ground (arith, k x, any-updated p q f xs k)

pub find-any :
    {A : Type 0} (p : A → Bool) (xs : List A) → any p xs ≡ true → (x : A) × (find p xs ≡ some x)
find-any p [] h = absurd (ground arith)
find-any p (x ∷ xs) h = elim (Bool-cases (p x)) [
  | inl q ↦ (x, rw q)
  | inr q ↦ let (s, e) = find-any p xs (ground arith) in (s, rw q e)
]

pub count_where-append :
    {A : Type 0} (p : A → Bool) (xs ys : List A)
    → count_where p (xs ++ ys) ≡ count_where p xs + count_where p ys
count_where-append p [] ys = omega arith
count_where-append p (x ∷ xs) ys = ground (arith, count_where-append p xs ys)

pub count_where_none :
    {A : Type 0} (p : A → Bool) (xs : List A) → any p xs ≡ false → count_where p xs ≡ 0
count_where_none p [] h = refl
count_where_none p (x ∷ xs) h = ground (arith, count_where_none p xs)

-- An update of other rows leaves what is found.
pub find-updated_apart :
    {A : Type 0} (p q : A → Bool) (f : A → A) (xs : List A)
    → ((x : A) → p (f x) ≡ p x)
    → ((x : A) → q x ≡ true → p x ≡ false)
    → find p (updated q f xs) ≡ find p xs
find-updated_apart p q f [] k h = refl
find-updated_apart p q f (x ∷ xs) k h = elim (Bool-cases (q x)) [
  | inl e ↦ rw (e, k x, h x e) (find-updated_apart p q f xs k h)
  | inr e ↦ rw (e, find-updated_apart p q f xs k h) refl
]

-- Rows that an update moved out of a test's reach.
pub count_where-moved :
    {A : Type 0} (p q : A → Bool) (f : A → A) (xs : List A)
    → ((x : A) → p x ≡ true → q x ≡ true)
    → ((x : A) → p (f x) ≡ false)
    → count_where p (updated q f xs) ≡ 0
count_where-moved p q f [] h k = refl
count_where-moved p q f (x ∷ xs) h k = elim (Bool-cases (q x)) [
  | inl e ↦ rw (e, k x) (count_where-moved p q f xs h k)
  | inr e ↦ rw e (ground (arith, h x, count_where-moved p q f xs h k))
]

pub count_where_le :
    {A : Type 0} (p q : A → Bool) (xs : List A)
    → ((x : A) → p x ≡ true → q x ≡ true)
    → count_where p xs ≤ count_where q xs
count_where_le p q [] h = omega arith
count_where_le p q (x ∷ xs) h = ground (arith, h x, count_where_le p q xs h)

-- Two members that pass a test which one element passes at most.
pub Memᴰ-unique :
    {A : Type 0} (p : A → Bool) (xs : List A) {a b : A}
    → count_where p xs ≤ 1
    → Memᴰ a xs
    → Memᴰ b xs
    → p a ≡ true
    → p b ≡ true
    → a ≡ b
Memᴰ-unique p [] le m n h k = elim m [ ]
Memᴰ-unique p (x ∷ xs) le (Memᴰ.head e) (Memᴰ.head f) h k = e ∙ sym f
Memᴰ-unique p (x ∷ xs) le (Memᴰ.head e) (Memᴰ.tail n) h k =
    absurd (omega (arith, rw (ap p (sym e) ∙ h) at le, count_where-pos p xs n k))
Memᴰ-unique p (x ∷ xs) le (Memᴰ.tail m) (Memᴰ.head f) h k =
    absurd (omega (arith, rw (ap p (sym f) ∙ k) at le, count_where-pos p xs m h))
Memᴰ-unique p (x ∷ xs) le (Memᴰ.tail m) (Memᴰ.tail n) h k = Memᴰ-unique p xs (ground arith) m n h k

-- The element at the end is found where none before it is.
pub find-concat :
    {A : Type 0} (p : A → Bool) (xs : List A) (x : A)
    → find p xs ≡ none
    → p x ≡ true
    → find p (xs ++ x ∷ []) ≡ some x
find-concat p [] x h k = rw k refl
find-concat p (y ∷ xs) x h k = ground (arith, find-concat p xs x)

pub find-not_any : {A : Type 0} (p : A → Bool) (xs : List A) → any p xs ≡ false → find p xs ≡ none
find-not_any p [] h = refl
find-not_any p (x ∷ xs) h = ground (arith, find-not_any p xs)

pub Memᴰ-select :
    {A : Type 0} (p : A → Bool) (xs : List A) {x : A}
    → Memᴰ x xs
    → p x ≡ true
    → Memᴰ x (select p xs)
Memᴰ-select p [] m h = elim m [ ]
Memᴰ-select p (y ∷ xs) {x} (Memᴰ.head e) h = rw (subst (λ z. p z ≡ true) e h) (Memᴰ.head e)
Memᴰ-select p (y ∷ xs) (Memᴰ.tail m) h = elim (Bool-cases (p y)) [
  | inl e ↦ rw e (Memᴰ.tail (Memᴰ-select p xs m h))
  | inr e ↦ rw e (Memᴰ-select p xs m h)
]

pub Memᴰ-append_right :
    {A : Type 0} (xs : List A) {ys : List A} {y : A} → Memᴰ y ys → Memᴰ y (xs ++ ys)
Memᴰ-append_right [] m = m
Memᴰ-append_right (x ∷ xs) m = Memᴰ.tail (Memᴰ-append_right xs m)

pub Memᴰ-concat_map :
    {A B : Type 0} (f : A → List B) (xs : List A) {x : A} {y : B}
    → Memᴰ x xs
    → Memᴰ y (f x)
    → Memᴰ y (concat_map f xs)
Memᴰ-concat_map f [] m k = elim m [ ]
Memᴰ-concat_map f (z ∷ xs) {x} {y} (Memᴰ.head e) k =
    Memᴰ-append_left (f z) (concat_map f xs) (subst (λ w. Memᴰ y (f w)) e k)
Memᴰ-concat_map f (z ∷ xs) (Memᴰ.tail m) k = Memᴰ-append_right (f z) (Memᴰ-concat_map f xs m k)

-- Removing rows that a test does not accept leaves the test.
pub any-removed_apart :
    {A : Type 0} (p q : A → Bool) (xs : List A)
    → All (λ x. p x ≡ true → q x ≡ false) xs
    → any p (removed q xs) ≡ any p xs
any-removed_apart p q [] h = refl
any-removed_apart p q (x ∷ xs) (hx, h) = elim (Bool-cases (q x)) [
  | inl e ↦ elim (Bool-cases (p x)) [
    | inl k ↦ absurd (cc (hx k, e))
    | inr k ↦ rw (e, k) (any-removed_apart p q xs h)
  ]
  | inr e ↦ rw (e, any-removed_apart p q xs h) refl
]

pub count_where_zero :
    {A : Type 0} (p : A → Bool) (xs : List A) → All (λ x. p x ≡ false) xs → count_where p xs ≡ 0
count_where_zero p [] h = refl
count_where_zero p (x ∷ xs) (e, h) = rw e (count_where_zero p xs h)

pub any-false :
    {A : Type 0} (p : A → Bool) (xs : List A) → any p xs ≡ false → All (λ x. p x ≡ false) xs
any-false p [] h = tt
any-false p (x ∷ xs) h = elim (Bool-cases (p x)) [
  | inl e ↦ absurd (ground (arith, e))
  | inr e ↦ (e, any-false p xs (ground (arith, e)))
]

pub Memᴰ-last_cases :
    {A : Type 0} (xs : List A) (x : A) {y : A} → Memᴰ y (xs ++ x ∷ []) → Memᴰ y xs ⊎ (y ≡ x)
Memᴰ-last_cases [] x (Memᴰ.head e) = inr e
Memᴰ-last_cases [] x (Memᴰ.tail m) = elim m [ ]
Memᴰ-last_cases (z ∷ xs) x (Memᴰ.head e) = inl (Memᴰ.head e)
Memᴰ-last_cases (z ∷ xs) x (Memᴰ.tail m) = elim (Memᴰ-last_cases xs x m) [
  | inl k ↦ inl (Memᴰ.tail k)
  | inr e ↦ inr e
]

pub any-Memᴰ :
    {A : Type 0} (p : A → Bool) (xs : List A) → any p xs ≡ true → (x : A) × Memᴰ x xs × (p x ≡ true)
any-Memᴰ p xs h = let (x, e) = find-any p xs h in let (m, q) = find-Memᴰ p xs e in (x, m, q)
