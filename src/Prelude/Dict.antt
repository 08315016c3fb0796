-- ===== src/Prelude/Dict.antt =====
-- JavaScript's `Map` with text keys, as its entries in the order of first insertion.
use Prim.Native.String.{String}
use mathlib.Core.Path.{◌≡◌, refl, subst}
use mathlib.Core.Logic.{◌↔◌, inl, inr}
use mathlib.Core.Bool.{◌||◌}
use mathlib.Core.Option.{Option, none, some}
use mathlib.Core.List.{List, [], ◌∷◌}
use native.Mathlib.Omega.{arith}
use text.Mathlib.TextEquality.{eq_iff}
use pathway_backend.Prelude.Tests.{if◌then◌else◌, ◌==◌, string_Eq, is_some, Bool-cases}
use pathway_backend.Prelude.Lists.{All, All-map, any}

abbrev pub Dict {ℓ} : Type ℓ → Type ℓ
Dict V = List (String × V)

module _ {ℓ} {V : Type ℓ} where
  -- `map.get(key)`
  abbrev pub get : Dict V → String → Option V
  get [] key = none
  get ((k, v) ∷ m) key = let rest = get m key in if k == key then some v else rest

  -- `map.set(key, value)`
  unfoldable pub put : Dict V → String → V → Dict V
  put [] key value = (key, value) ∷ []
  put ((k, v) ∷ m) key value =
      let rest = put m key value in if k == key then (k, value) ∷ m else (k, v) ∷ rest

  unfoldable pub put_all : Dict V → List (String × V) → Dict V
  put_all m [] = m
  put_all m ((k, v) ∷ entries) = put_all (put m k v) entries

  -- `new Map(entries)`
  unfoldable pub new_dict : List (String × V) → Dict V
  unfolding put put_all
  new_dict entries = put_all [] entries

  pub get-put :
      (m : Dict V) (k j : String) (v : V) → get (put m k v) j ≡ (if k == j then some v else get m j)
  unfolding put
  get-put [] k j v = refl
  get-put ((i, w) ∷ m) k j v = ground (arith, eq_iff i k, eq_iff i j, eq_iff k j, get-put m k j v)

  -- The value that the last entry with the key holds.
  abbrev pub last_value : List (String × V) → String → Option V → Option V
  last_value [] key old = old
  last_value ((k, v) ∷ entries) key old = last_value entries key (if k == key then some v else old)

  pub get-put_all :
      (m : Dict V) (entries : List (String × V)) (key : String)
      → get (put_all m entries) key ≡ last_value entries key (get m key)
  unfolding put_all
  get-put_all m [] key = refl
  get-put_all m ((k, v) ∷ entries) key = rw (get-put_all (put m k v) entries key, get-put m k key v)

  pub get-new_dict :
      (entries : List (String × V)) (key : String)
      → get (new_dict entries) key ≡ last_value entries key none
  unfolding new_dict
  get-new_dict entries key = get-put_all [] entries key

  -- The keys of a dictionary made from entries are the entries' keys.
  pub is_some-last_value :
      (entries : List (String × V)) (key : String) (old : Option V)
      → is_some (last_value entries key old)
        ≡ (is_some old || any (λ (e : String × V). e.0 == key) entries)
  is_some-last_value [] key old = ground arith
  is_some-last_value ((k, v) ∷ entries) key old = elim (Bool-cases (k == key)) [
    | inl e ↦ rw (e, is_some-last_value entries key (some v)) (ground arith)
    | inr e ↦ rw (e, is_some-last_value entries key old)
  ]

  pub is_some-get-new_dict :
      (entries : List (String × V)) (key : String)
      → is_some (get (new_dict entries) key) ≡ any (λ (e : String × V). e.0 == key) entries
  is_some-get-new_dict entries key =
      rw (get-new_dict entries key, is_some-last_value entries key none)

  pub All-put :
      (P : String → Type 0) (m : Dict V) (k : String) (v : V)
      → All (λ (e : String × V). P e.0) (put m k v) ↔ (All (λ (e : String × V). P e.0) m × P k)
  unfolding put
  All-put P [] k v = (λ (p, _). (tt, p), λ (_, p). (p, tt))
  All-put P ((i, w) ∷ m) k v = elim (Bool-cases (i == k)) [
    | inl e ↦
        let same : i ≡ k = (eq_iff i k).0 e in
        rw e (λ (p, h). ((p, h), subst P same p), λ (h, _). h)
    | inr e ↦
        let (f, g) = All-put P m k v in
        rw e (λ (p, h). let (a, b) = f h in ((p, a), b), λ (h, q). (h.0, g (h.1, q)))
  ]

  All-put_all :
      (P : String → Type 0) (m : Dict V) (entries : List (String × V))
      → All (λ (e : String × V). P e.0) (put_all m entries)
        ↔ (All (λ (e : String × V). P e.0) m × All (λ (e : String × V). P e.0) entries)
  unfolding put_all
  All-put_all P m [] = (λ h. (h, tt), λ (h, _). h)
  All-put_all P m ((k, v) ∷ entries) =
      let (f, g) = All-put_all P (put m k v) entries in
      let (a, b) = All-put P m k v in
      (λ h. let (x, y) = f h in let (z, w) = a x in (z, (w, y)), λ (x, y). g (b (x, y.0), y.1))

  -- What holds of the keys of a dictionary is what holds of the keys of its entries.
  pub All-new_dict :
      (P : String → Type 0) (entries : List (String × V))
      → All (λ (e : String × V). P e.0) (new_dict entries) ↔ All (λ (e : String × V). P e.0) entries
  unfolding new_dict
  All-new_dict P entries = let (f, g) = All-put_all P [] entries in (λ h. (f h).1, λ h. g (tt, h))

  abbrev pub UniqueKeys : Dict V → Type ℓ
  UniqueKeys [] = Unit
  UniqueKeys ((k, v) ∷ m) = (get m k ≡ none) × UniqueKeys m

  pub UniqueKeys-put : (m : Dict V) (k : String) (v : V) → UniqueKeys m → UniqueKeys (put m k v)
  unfolding put
  UniqueKeys-put [] k v h = (refl, tt)
  UniqueKeys-put ((i, w) ∷ m) k v (p, h) = elim (Bool-cases (i == k)) [
    | inl e ↦ rw e (p, h)
    | inr e ↦
        rw e (rw (get-put m k i v) (ground (arith, eq_iff i k, eq_iff k i)), UniqueKeys-put m k v h)
  ]

  UniqueKeys-put_all :
      (m : Dict V) (entries : List (String × V)) → UniqueKeys m → UniqueKeys (put_all m entries)
  unfolding put_all
  UniqueKeys-put_all m [] h = h
  UniqueKeys-put_all m ((k, v) ∷ entries) h =
      UniqueKeys-put_all (put m k v) entries (UniqueKeys-put m k v h)

  UniqueKeys-All : (m : Dict V) → UniqueKeys m → All (λ (e : String × V). get m e.0 ≡ some e.1) m
  UniqueKeys-All [] h = tt
  UniqueKeys-All ((k, v) ∷ m) (p, h) = (
    ground (arith, eq_iff k k),
    All-map _ m (λ e q. ground (arith, eq_iff k e.0)) (UniqueKeys-All m h),
  )

  -- Looking up the key of an entry of a dictionary gives its value.
  pub new_dict-All :
      (entries : List (String × V))
      → All (λ (e : String × V). get (new_dict entries) e.0 ≡ some e.1) (new_dict entries)
  unfolding new_dict
  new_dict-All entries = UniqueKeys-All (put_all [] entries) (UniqueKeys-put_all [] entries tt)
