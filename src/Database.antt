-- ===== src/Database.antt =====
-- The interface to Prisma Client, which is not part of the repository. A table is the list of
-- its rows in the order of insertion; `where` clauses are tests and `data` clauses are functions
-- on rows. A transaction runs as one step: the row locks that the services take first make
-- concurrent transactions on the same rows wait for one another.
pub mod Reference
use mathlib.Core.Option
use pathway_backend.Prelude.{
  ℕ, ◌≤◌, Bool, true, false, ◌≡◌, Option, none, some, List, [], ◌∷◌, ◌++◌, Memᴰ, All, length, find,
  select, count_where, updated, removed, any, if◌then◌else◌,
}

-- The calls that the services make, for a row type `Row`.
pub record PrismaClient : Type 1 where
  pub find_unique : (Row : Type 0) → (Row → Bool) → List Row → Option Row
  -- `findFirst({ where, orderBy: { key: 'desc' } })`
  pub find_first : (Row : Type 0) → (Row → Bool) → (Row → ℕ) → List Row → Option Row
  pub find_many : (Row : Type 0) → (Row → Bool) → List Row → List Row
  -- `findMany({ where, orderBy, skip, take })`; which rows a page holds is not determined
  pub find_page : (Row : Type 0) → (Row → Bool) → (skip take : ℕ) → List Row → List Row
  pub count : (Row : Type 0) → (Row → Bool) → List Row → ℕ
  pub update_many : (Row : Type 0) → (Row → Bool) → (Row → Row) → List Row → List Row × ℕ
  pub delete_many : (Row : Type 0) → (Row → Bool) → List Row → List Row × ℕ
  pub create : (Row : Type 0) → Row → List Row → List Row
  -- `createMany({ data: [row], skipDuplicates: true })`; the test says which rows have its key
  pub create_many : (Row : Type 0) → (Row → Bool) → Row → List Row → List Row × ℕ
  -- `update` by a unique key: `none` is the error P2025, for no such row
  pub update : (Row : Type 0) → (Row → Bool) → (Row → Row) → List Row → Option (Row × List Row)
  pub upsert : (Row : Type 0) → (Row → Bool) → Row → (Row → Row) → List Row → List Row

-- What Prisma's documentation says of these calls.
pub record PrismaLaws (db : PrismaClient) : Type 1 where
  pub find_unique_lem :
      (Row : Type 0) (p : Row → Bool) (t : List Row) → db.find_unique Row p t ≡ find p t
  pub find_first_none :
      (Row : Type 0) (p : Row → Bool) (key : Row → ℕ) (t : List Row)
      → db.find_first Row p key t ≡ none
      → All (λ r. p r ≡ false) t
  pub find_first_some :
      (Row : Type 0) (p : Row → Bool) (key : Row → ℕ) (t : List Row) (r : Row)
      → db.find_first Row p key t ≡ some r
      → Memᴰ r t × (p r ≡ true) × All (λ s. p s ≡ true → key s ≤ key r) t
  pub find_many_lem :
      (Row : Type 0) (p : Row → Bool) (t : List Row) → db.find_many Row p t ≡ select p t
  pub find_page_lem :
      (Row : Type 0) (p : Row → Bool) (skip take : ℕ) (t : List Row)
      → (length (db.find_page Row p skip take t) ≤ take)
        × All (λ r. Memᴰ r t × (p r ≡ true)) (db.find_page Row p skip take t)
  pub count_lem :
      (Row : Type 0) (p : Row → Bool) (t : List Row) → db.count Row p t ≡ count_where p t
  -- Every row that matches is changed, and the count of such rows is returned.
  pub update_many_lem :
      (Row : Type 0) (p : Row → Bool) (f : Row → Row) (t : List Row)
      → db.update_many Row p f t ≡ (updated p f t, count_where p t)
  pub delete_many_lem :
      (Row : Type 0) (p : Row → Bool) (t : List Row)
      → db.delete_many Row p t ≡ (removed p t, count_where p t)
  pub create_lem : (Row : Type 0) (r : Row) (t : List Row) → db.create Row r t ≡ t ++ r ∷ []
  pub create_many_lem :
      (Row : Type 0) (same_key : Row → Bool) (r : Row) (t : List Row)
      → db.create_many Row same_key r t ≡ (if any same_key t then (t, 0) else (t ++ r ∷ [], 1))
  pub update_lem :
      (Row : Type 0) (p : Row → Bool) (f : Row → Row) (t : List Row)
      → db.update Row p f t ≡ Option.map (λ r. (f r, updated p f t)) (find p t)
  pub upsert_lem :
      (Row : Type 0) (p : Row → Bool) (r : Row) (f : Row → Row) (t : List Row)
      → db.upsert Row p r f t ≡ (if any p t then updated p f t else t ++ r ∷ [])
