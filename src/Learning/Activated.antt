-- ===== src/Learning/Activated.antt =====
-- The rows of a learner's saved pathways after one is made active.
use pathway_backend.Prelude.{
  ◌≤◌, String, true, false, Option, none, some, List, [], ◌∷◌, ◌++◌, ◌≡◌, refl, inl, inr, arith,
  Bool-cases, All, All-updated, All-append, updated, count_where, find, any, string_Eq, ◌==◌,
  eq_iff, if◌then◌else◌, find-Memᴰ, All-Memᴰ, ap,
}
use pathway_backend.Prelude.Members.{
  find-any, any-concat, count_where-append, count_where-updated, count_where_none,
}
use pathway_backend.Learning.{UserPathway, has_key}
use pathway_backend.Learning.Pathways.{other_active, inactive, active, is_active_of}

-- The abstract view of the rows: which career is active for a learner.
abbrev pub career_of : Option UserPathway → Option String
career_of none = none
career_of (some u) = some u.career_id

abbrev pub active_career_of : List UserPathway → String → Option String
active_career_of rows user_id = career_of (find (is_active_of user_id) rows)

-- Each learner has one row for a career, and one active row, at most.
abbrev pub OneActive : List UserPathway → Type 0
OneActive rows =
    ((user_id career_id : String) → count_where (has_key user_id career_id) rows ≤ 1)
    × ((user_id : String) → count_where (is_active_of user_id) rows ≤ 1)

module _ (user_id career_id : String) where
  abbrev pub OnlyThis : UserPathway → Type 0
  OnlyThis u = is_active_of user_id u ≡ true → u.career_id ≡ career_id

  pub others-OnlyThis :
      (rows : List UserPathway)
      → All OnlyThis (updated (other_active user_id career_id) inactive rows)
  others-OnlyThis [] = tt
  others-OnlyThis (u ∷ rows) =
      (λ h. ground (arith, eq_iff u.career_id career_id), others-OnlyThis rows)

  activated-OnlyThis :
      (rows : List UserPathway)
      → All OnlyThis rows
      → All OnlyThis (updated (has_key user_id career_id) active rows)
  activated-OnlyThis rows h =
      All-updated OnlyThis (has_key user_id career_id) active rows
        (λ u k key _. ground (arith, eq_iff u.career_id career_id)) h

  any-activated :
      (rows : List UserPathway)
      → any (has_key user_id career_id) rows ≡ true
      → any (is_active_of user_id) (updated (has_key user_id career_id) active rows) ≡ true
  any-activated [] h = h
  any-activated (u ∷ rows) h = ground (arith, any-activated rows)

  count-activated :
      (rows : List UserPathway)
      → All OnlyThis rows
      → count_where (is_active_of user_id) (updated (has_key user_id career_id) active rows)
        ≡ count_where (has_key user_id career_id) rows
  count-activated [] h = refl
  count-activated (u ∷ rows) (k, h) =
      ground (arith, k, eq_iff u.career_id career_id, count-activated rows h)

  count-inactive :
      (rows : List UserPathway)
      → All OnlyThis rows
      → any (has_key user_id career_id) rows ≡ false
      → count_where (is_active_of user_id) rows ≡ 0
  count-inactive [] h e = refl
  count-inactive (u ∷ rows) (k, h) e =
      ground (arith, k, eq_iff u.career_id career_id, count-inactive rows h)

  -- What other learners have is not touched.
  module _ (other : String) (differs : other == user_id ≡ false) where
    not_other : (u : UserPathway) → is_active_of other u ≡ true → u.user_id == user_id ≡ false
    not_other u h =
        ground (arith, eq_iff u.user_id other, eq_iff u.user_id user_id, eq_iff other user_id)

    pub find-others :
        (rows : List UserPathway)
        → active_career_of (updated (other_active user_id career_id) inactive rows) other
          ≡ active_career_of rows other
    find-others [] = refl
    find-others (u ∷ rows) = ground (
      arith,
      find-others rows,
      eq_iff u.user_id other,
      eq_iff u.user_id user_id,
      eq_iff other user_id,
    )

    find-activated :
        (rows : List UserPathway)
        → active_career_of (updated (has_key user_id career_id) active rows) other
          ≡ active_career_of rows other
    find-activated [] = refl
    find-activated (u ∷ rows) = ground (
      arith,
      find-activated rows,
      eq_iff u.user_id other,
      eq_iff u.user_id user_id,
      eq_iff other user_id,
    )

    find-concat :
        (rows : List UserPathway) (u : UserPathway)
        → u.user_id ≡ user_id
        → active_career_of (rows ++ u ∷ []) other ≡ active_career_of rows other
    find-concat [] u e = ground (arith, eq_iff u.user_id other, eq_iff other user_id)
    find-concat (x ∷ rows) u e = ground (arith, find-concat rows u e)

module _ (row_id user_id career_id : String) where
  abbrev pub fresh_row : UserPathway
  fresh_row = record {
    id = row_id;
    user_id = user_id;
    career_id = career_id;
    is_active = true;
    start_step_id = none;
  }

  -- The rows that the transaction leaves.
  abbrev pub deactivated : List UserPathway → List UserPathway
  deactivated rows = updated (other_active user_id career_id) inactive rows

  abbrev pub upserted : List UserPathway → List UserPathway
  upserted rows =
      if any (has_key user_id career_id) rows
      then updated (has_key user_id career_id) active rows
      else rows ++ fresh_row ∷ []

  fresh_row-active : is_active_of user_id fresh_row ≡ true
  fresh_row-active = ground (arith, eq_iff user_id user_id)

  pub upserted-OnlyThis :
      (rows : List UserPathway)
      → All (OnlyThis user_id career_id) rows
      → All (OnlyThis user_id career_id) (upserted rows)
  upserted-OnlyThis rows h = elim (Bool-cases (any (has_key user_id career_id) rows)) [
    | inl e ↦ rw e (activated-OnlyThis user_id career_id rows h)
    | inr e ↦ rw e (All-append (OnlyThis user_id career_id) rows (fresh_row ∷ []) h (λ _. refl, tt))
  ]

  pub upserted-active :
      (rows : List UserPathway) → any (is_active_of user_id) (upserted rows) ≡ true
  upserted-active rows = elim (Bool-cases (any (has_key user_id career_id) rows)) [
    | inl e ↦ rw e (any-activated user_id career_id rows e)
    | inr e ↦
        rw (e, any-concat (is_active_of user_id) rows fresh_row, fresh_row-active) (ground arith)
  ]

  pub upserted-find :
      (rows : List UserPathway)
      → All (OnlyThis user_id career_id) rows
      → active_career_of (upserted rows) user_id ≡ some career_id
  upserted-find rows h =
      let (u, e) = find-any (is_active_of user_id) (upserted rows) (upserted-active rows) in
      let (m, k) = find-Memᴰ (is_active_of user_id) (upserted rows) e in
      rw e (
        ap some
          (All-Memᴰ (OnlyThis user_id career_id) (upserted rows) (upserted-OnlyThis rows h) m k))

  pub upserted-find_other :
      (other : String)
      → other == user_id ≡ false
      → (rows : List UserPathway)
      → active_career_of (upserted rows) other ≡ active_career_of rows other
  upserted-find_other other d rows = elim (Bool-cases (any (has_key user_id career_id) rows)) [
    | inl e ↦ rw e (find-activated user_id career_id other d rows)
    | inr e ↦ rw e (find-concat user_id career_id other d rows fresh_row refl)
  ]

  fresh_row-new :
      (user career : String) (rows : List UserPathway)
      → any (has_key user_id career_id) rows ≡ false
      → has_key user career fresh_row ≡ true
      → count_where (has_key user career) rows ≡ 0
  fresh_row-new user career rows h k =
      let same_user : user ≡ user_id = ground (arith, eq_iff user_id user) in
      let same_career : career ≡ career_id = ground (arith, eq_iff career_id career) in
      rw (same_user, same_career) (count_where_none (has_key user_id career_id) rows h)

  pub upserted-keys :
      (user career : String) (rows : List UserPathway)
      → count_where (has_key user career) rows ≤ 1
      → count_where (has_key user career) (upserted rows) ≤ 1
  upserted-keys user career rows h = elim (Bool-cases (any (has_key user_id career_id) rows)) [
    | inl e ↦
        rw
          (
            e,
            count_where-updated (has_key user career) (has_key user_id career_id) active rows
                (λ u. refl),
          )
          h
    | inr e ↦
        rw (e, count_where-append (has_key user career) rows (fresh_row ∷ []))
          (elim (Bool-cases (has_key user career fresh_row)) [
            | inl k ↦ rw (k, fresh_row-new user career rows e k) (omega arith)
            | inr k ↦ rw k (omega (arith, h))
          ])
  ]

  pub upserted-active_count :
      (rows : List UserPathway)
      → All (OnlyThis user_id career_id) rows
      → count_where (has_key user_id career_id) rows ≤ 1
      → count_where (is_active_of user_id) (upserted rows) ≤ 1
  upserted-active_count rows h le = elim (Bool-cases (any (has_key user_id career_id) rows)) [
    | inl e ↦ rw (e, count-activated user_id career_id rows h) le
    | inr e ↦
        rw
          (
            e,
            count_where-append (is_active_of user_id) rows (fresh_row ∷ []),
            count-inactive user_id career_id rows h e,
            fresh_row-active,
          )
          (omega arith)
  ]
