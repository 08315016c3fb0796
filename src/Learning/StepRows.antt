-- ===== src/Learning/StepRows.antt =====
-- The rows of a learner's steps after the status of one is written.
use pathway_backend.Prelude.{
  ℕ, ◌≤◌, String, Bool, true, false, not, ◌&&◌, Option, none, some, List, [], ◌∷◌, ◌++◌, ◌≡◌, refl,
  inl, inr, arith, Bool-cases, updated, count_where, find, any, string_Eq, ◌==◌, eq_iff, ltb,
  if◌then◌else◌, ap,
}
use pathway_backend.Progress.{StepStatus, not_started, status_Eq, status_eq_iff}
use pathway_backend.Learning.{UserPathwayStep}
use pathway_backend.Learning.Steps.{is_step_of, differs, with_status}

-- The abstract view of the rows: a step without a row is not started.
abbrev pub status_in : Option UserPathwayStep → StepStatus
status_in none = not_started
status_in (some u) = u.status

abbrev pub status_of : List UserPathwayStep → String → String → StepStatus
status_of rows user_id step_id = status_in (find (is_step_of user_id step_id) rows)

-- Each learner has one row for a step, at most.
abbrev pub OneRow : List UserPathwayStep → Type 0
OneRow rows = (user_id step_id : String) → count_where (is_step_of user_id step_id) rows ≤ 1

module _ (user_id step_id : String) (status : StepStatus) (now : ℕ) where
  abbrev pub key : UserPathwayStep → Bool
  key = is_step_of user_id step_id

  abbrev pub rewritten : List UserPathwayStep → List UserPathwayStep
  rewritten rows = updated (differs user_id step_id status) (with_status status now) rows

  -- After the update, the rows with the key hold the status.
  pub rewritten-status :
      (rows : List UserPathwayStep)
      → status_of (rewritten rows) user_id step_id ≡ (if any key rows then status else not_started)
  rewritten-status [] = refl
  rewritten-status (u ∷ rows) = ground (arith, rewritten-status rows, status_eq_iff u.status status)

  not_key :
      (u : UserPathwayStep) (user step : String)
      → (user == user_id && step == step_id) ≡ false
      → is_step_of user step u ≡ true
      → key u ≡ false
  not_key u user step h e =
      let same_user : u.user_id ≡ user = ground (arith, eq_iff u.user_id user) in
      let same_step : u.pathway_step_id ≡ step = ground (arith, eq_iff u.pathway_step_id step) in
      rw (same_user, same_step) h

  pub rewritten-other :
      (rows : List UserPathwayStep) (user step : String)
      → (user == user_id && step == step_id) ≡ false
      → status_of (rewritten rows) user step ≡ status_of rows user step
  rewritten-other [] user step h = refl
  rewritten-other (u ∷ rows) user step h = elim (Bool-cases (is_step_of user step u)) [
    | inl e ↦ rw (not_key u user step h e, e) refl
    | inr e ↦ elim (Bool-cases (differs user_id step_id status u)) [
      | inl d ↦ rw (d, e) (rewritten-other rows user step h)
      | inr d ↦ rw (d, e) (rewritten-other rows user step h)
    ]
  ]

  pub no_key :
      (rows : List UserPathwayStep)
      → any key rows ≡ false
      → (count_where (differs user_id step_id status) rows ≡ 0)
        × (status_of rows user_id step_id ≡ not_started)
  no_key [] h = (refl, refl)
  no_key (u ∷ rows) h = (ground (arith, no_key rows), ground (arith, no_key rows))

  count_differs_le :
      (rows : List UserPathwayStep)
      → count_where (differs user_id step_id status) rows ≤ count_where key rows
  count_differs_le [] = omega arith
  count_differs_le (u ∷ rows) = ground (arith, count_differs_le rows)

  pub has_row :
      (rows : List UserPathwayStep)
      → any key rows ≡ true
      → count_where key rows ≤ 1
      → ltb 0 (count_where (differs user_id step_id status) rows)
        ≡ not (status_of rows user_id step_id == status)
  has_row [] h le = cc
  has_row (u ∷ rows) h le = elim (Bool-cases (key u)) [
    | inl e ↦
        let last : count_where key rows ≤ 0 = omega (arith, rw e at le) in
        let none_left : count_where (differs user_id step_id status) rows ≡ 0 =
          omega (arith, count_differs_le rows) in
        rw (e, none_left)
          (elim (Bool-cases (u.status == status)) [ inl k ↦ rw k refl | inr k ↦ rw k refl ])
    | inr e ↦ rw e (has_row rows (rw e at h) (rw e at le))
  ]

  pub find-concat :
      (rows : List UserPathwayStep) (u : UserPathwayStep) (user step : String)
      → status_of (rows ++ u ∷ []) user step ≡ (
          if any (is_step_of user step) rows
          then status_of rows user step
          else (if is_step_of user step u then u.status else not_started))
  find-concat [] u user step = ground arith
  find-concat (x ∷ rows) u user step = ground (arith, find-concat rows u user step)

  pub status-found :
      (rows : List UserPathwayStep) (user step : String)
      → any (is_step_of user step) rows ≡ false
      → status_of rows user step ≡ not_started
  status-found [] user step h = refl
  status-found (u ∷ rows) user step h = ground (arith, status-found rows user step)

  pub updated-nothing :
      (rows : List UserPathwayStep)
      → count_where (differs user_id step_id status) rows ≡ 0
      → rewritten rows ≡ rows
  updated-nothing [] h = refl
  updated-nothing (u ∷ rows) h = elim (Bool-cases (differs user_id step_id status u)) [
    | inl e ↦ absurd (ground arith)
    | inr e ↦ rw e (ap (λ r. u ∷ r) (updated-nothing rows (ground arith)))
  ]
