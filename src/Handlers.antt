-- ===== src/Handlers.antt =====
-- What a handler returns or throws, with its effects and the tables that it leaves, and the guards
-- `if (!row) throw …` and `if (test) throw …`, which every service has.
use pathway_backend.Prelude.{Bool, true, false, Option, none, some, List, [], ◌≡◌, refl, subst}
use pathway_backend.Exceptions.{Exception}
use pathway_backend.Effects.{Effect}

pub data Reply (Tables A : Type 0) : Type 0 where
  throws : Exception → Tables → Reply Tables A
  returns : A → List Effect → Tables → Reply Tables A

abbrev pub tables_of : {Tables A : Type 0} → Reply Tables A → Tables
tables_of (throws e t) = t
tables_of (returns a effects t) = t

abbrev pub effects_of : {Tables A : Type 0} → Reply Tables A → List Effect
effects_of (throws e t) = []
effects_of (returns a effects t) = effects

abbrev pub is_returned : {Tables A : Type 0} → Reply Tables A → Bool
is_returned (throws e t) = false
is_returned (returns a effects t) = true

-- What holds of the value, the effects and the tables of a reply that is not an exception.
abbrev pub Returned :
    {Tables A : Type 0} → (A → List Effect → Tables → Type 0) → Reply Tables A → Type 0
Returned P (throws e t) = Unit
Returned P (returns a effects t) = P a effects t

module _ {Tables A : Type 0} where
  unfoldable pub or_throw :
      {B : Type 0} → Option B → Exception → Tables → (B → Reply Tables A) → Reply Tables A
  or_throw none exception t next = throws exception t
  or_throw (some b) exception t next = next b

  unfoldable pub throw_if : Bool → Exception → Tables → Reply Tables A → Reply Tables A
  throw_if true exception t next = throws exception t
  throw_if false exception t next = next

  module _ (P : A → List Effect → Tables → Type 0) where
    pub or_throw-Returned :
        {B : Type 0} (o : Option B) (exception : Exception) (t : Tables) (next : B → Reply Tables A)
        → ((b : B) → o ≡ some b → Returned P (next b))
        → Returned P (or_throw o exception t next)
    unfolding or_throw
    or_throw-Returned none exception t next h = tt
    or_throw-Returned (some b) exception t next h = h b refl

    pub throw_if-Returned :
        (b : Bool) (exception : Exception) (t : Tables) (next : Reply Tables A)
        → (b ≡ false → Returned P next)
        → Returned P (throw_if b exception t next)
    unfolding throw_if
    throw_if-Returned true exception t next h = tt
    throw_if-Returned false exception t next h = h refl

    pub Returned-returns :
        (r : Reply Tables A) {a : A} {effects : List Effect} {t : Tables}
        → Returned P r
        → r ≡ returns a effects t
        → P a effects t
    Returned-returns r h e = subst (Returned P) e h

  -- What holds of the tables that a reply leaves, whether or not it is an exception.
  module _ (P : Tables → Type 0) where
    pub or_throw-tables :
        {B : Type 0} (o : Option B) (exception : Exception) (t : Tables) (next : B → Reply Tables A)
        → P t
        → ((b : B) → o ≡ some b → P (tables_of (next b)))
        → P (tables_of (or_throw o exception t next))
    unfolding or_throw
    or_throw-tables none exception t next h k = h
    or_throw-tables (some b) exception t next h k = k b refl

    pub throw_if-tables :
        (b : Bool) (exception : Exception) (t : Tables) (next : Reply Tables A)
        → P t
        → (b ≡ false → P (tables_of next))
        → P (tables_of (throw_if b exception t next))
    unfolding throw_if
    throw_if-tables true exception t next h k = h
    throw_if-tables false exception t next h k = k refl

-- The same guard in two runs relates their replies as what follows it does.
pub or_throw-related :
    {Tables A B : Type 0} (Q : Reply Tables A → Reply Tables A → Type 0) (o : Option B)
    (exception : Exception) (t u : Tables) (next after : B → Reply Tables A)
    → Q (throws exception t) (throws exception u)
    → ((b : B) → o ≡ some b → Q (next b) (after b))
    → Q (or_throw o exception t next) (or_throw o exception u after)
unfolding or_throw
or_throw-related Q none exception t u next after h k = h
or_throw-related Q (some b) exception t u next after h k = k b refl

-- A reply that is not an exception passed every guard.
pub or_throw-is_returned :
    {Tables A B : Type 0} (o : Option B) (exception : Exception) (t : Tables)
    (next : B → Reply Tables A)
    → is_returned (or_throw o exception t next) ≡ true
    → (b : B) × (o ≡ some b) × (is_returned (next b) ≡ true)
unfolding or_throw
or_throw-is_returned none exception t next h = cc
or_throw-is_returned (some b) exception t next h = (b, refl, h)

pub throw_if-is_returned :
    {Tables A : Type 0} (b : Bool) (exception : Exception) (t : Tables) (next : Reply Tables A)
    → is_returned (throw_if b exception t next) ≡ true
    → (b ≡ false) × (is_returned next ≡ true)
unfolding throw_if
throw_if-is_returned true exception t next h = cc
throw_if-is_returned false exception t next h = (refl, h)

pub Returned-map :
    {Tables A : Type 0} {P Q : A → List Effect → Tables → Type 0} (r : Reply Tables A)
    → ((a : A) (effects : List Effect) (t : Tables) → P a effects t → Q a effects t)
    → Returned P r
    → Returned Q r
Returned-map (throws e t) f h = tt
Returned-map (returns a effects t) f h = f a effects t h
