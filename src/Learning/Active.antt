-- ===== src/Learning/Active.antt =====
-- The active career of a learner: `setActivePathway` sets it and leaves the others' alone.
use pathway_backend.Prelude.{
  ◌≤◌, String, true, false, some, List, [], ◌∷◌, ◌≡◌, refl, inl, inr, arith, Bool-cases, All,
  updated, count_where, any, string_Eq, ◌==◌, eq_iff, if◌then◌else◌,
}
use pathway_backend.Prelude.Members.{count_where-append, count_where-updated}
use pathway_backend.Database.{PrismaClient, PrismaLaws}
use pathway_backend.Database.Reference.{client_eq}
use pathway_backend.Learning.{UserPathway, has_key}
use pathway_backend.Learning.Pathways.{other_active, inactive, active, is_active_of, activate}
use pathway_backend.Learning.Activated.{
  find-others, OneActive, OnlyThis, active_career_of, deactivated, fresh_row, others-OnlyThis,
  upserted, upserted-OnlyThis, upserted-active, upserted-active_count, upserted-find,
  upserted-find_other, upserted-keys,
}

module _ (row_id user_id career_id other : String) (differs : other == user_id ≡ false) where
  deactivated-other_count :
      (rows : List UserPathway)
      → count_where (is_active_of other) (updated (other_active user_id career_id) inactive rows)
        ≡ count_where (is_active_of other) rows
  deactivated-other_count [] = refl
  deactivated-other_count (u ∷ rows) = ground (
    arith,
    deactivated-other_count rows,
    eq_iff u.user_id other,
    eq_iff u.user_id user_id,
    eq_iff other user_id,
  )

  activated-other_count :
      (rows : List UserPathway)
      → count_where (is_active_of other) (updated (has_key user_id career_id) active rows)
        ≡ count_where (is_active_of other) rows
  activated-other_count [] = refl
  activated-other_count (u ∷ rows) = ground (
    arith,
    activated-other_count rows,
    eq_iff u.user_id other,
    eq_iff u.user_id user_id,
    eq_iff other user_id,
  )

  fresh_row-inactive : is_active_of other (fresh_row row_id user_id career_id) ≡ false
  fresh_row-inactive = ground (arith, eq_iff user_id other, eq_iff other user_id)

  upserted-other_count :
      (rows : List UserPathway)
      → count_where (is_active_of other) (upserted row_id user_id career_id rows)
        ≡ count_where (is_active_of other) rows
  upserted-other_count rows = elim (Bool-cases (any (has_key user_id career_id) rows)) [
    | inl e ↦ rw e (activated-other_count rows)
    | inr e ↦
        rw
          (
            e,
            count_where-append (is_active_of other) rows (fresh_row row_id user_id career_id ∷ []),
            fresh_row-inactive,
          )
          (omega arith)
  ]

module _ {db : PrismaClient} (laws : PrismaLaws db) (row_id user_id career_id : String) where
  activate-upserted :
      (rows : List UserPathway)
      → activate db row_id user_id career_id rows
        ≡ upserted row_id user_id career_id (deactivated row_id user_id career_id rows)
  unfolding activate
  activate-upserted rows = rw (client_eq laws) refl

  -- Activating a career makes it the learner's active career, and leaves every other learner's active
  -- career as it was.
  pub activate-active_career :
      (rows : List UserPathway) (other : String)
      → active_career_of (activate db row_id user_id career_id rows) other
        ≡ (if other == user_id then some career_id else active_career_of rows other)
  activate-active_career rows other =
      rw (activate-upserted rows) (elim (Bool-cases (other == user_id)) [
        | inl e ↦
            let same : other ≡ user_id = (eq_iff other user_id).0 e in
            rw e (
              rw same (
                upserted-find row_id user_id career_id (deactivated row_id user_id career_id rows)
                  (others-OnlyThis user_id career_id rows)))
        | inr e ↦
            rw
              (
                e,
                upserted-find_other row_id user_id career_id other e
                    (deactivated row_id user_id career_id rows),
              )
              (find-others user_id career_id other e rows)
      ])

  -- Afterwards an active row of the learner is for that career, and there is one.
  pub activate-OnlyThis :
      (rows : List UserPathway)
      → All (OnlyThis user_id career_id) (activate db row_id user_id career_id rows)
  activate-OnlyThis rows = rw (activate-upserted rows) (
      upserted-OnlyThis row_id user_id career_id (deactivated row_id user_id career_id rows)
        (others-OnlyThis user_id career_id rows))

  pub activate-active :
      (rows : List UserPathway)
      → any (is_active_of user_id) (activate db row_id user_id career_id rows) ≡ true
  activate-active rows =
      rw (activate-upserted rows)
        (upserted-active row_id user_id career_id (deactivated row_id user_id career_id rows))

  pub activate-OneActive :
      (rows : List UserPathway)
      → OneActive rows
      → OneActive (activate db row_id user_id career_id rows)
  activate-OneActive rows (keys, one) = rw (activate-upserted rows) (
      let others = deactivated row_id user_id career_id rows in
      let others_keys : (user career : String) → count_where (has_key user career) others ≤ 1 =
        λ user career.
          rw
            (count_where-updated (has_key user career) (other_active user_id career_id) inactive
              rows (λ u. refl))
            (keys user career) in
      (
        λ user career.
            upserted-keys row_id user_id career_id user career others (others_keys user career),
        λ other. elim (Bool-cases (other == user_id)) [
          | inl e ↦
              let same : other ≡ user_id = (eq_iff other user_id).0 e in
              rw same (
                upserted-active_count row_id user_id career_id others
                  (others-OnlyThis user_id career_id rows) (others_keys user_id career_id))
          | inr e ↦
              rw
                (
                  upserted-other_count row_id user_id career_id other e others,
                  deactivated-other_count row_id user_id career_id other e rows,
                )
                (one other)
        ],
      ))
