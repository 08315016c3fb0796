-- ===== src/Learning/Status.antt =====
-- The statuses of a learner's steps: the writes of `writeStepStatus` against a function from learners
-- and steps to statuses.
use pathway_backend.Prelude.{
  ℕ, String, Bool, true, false, not, ◌&&◌, List, [], ◌∷◌, ◌++◌, ◌≡◌, refl, inl, inr, arith,
  Bool-cases, count_where, any, string_Eq, ◌==◌, eq_iff, ltb, if◌then◌else◌, ap, sym, ◌∙◌,
}
use pathway_backend.Prelude.Members.{
  any-updated, count_where-append, count_where-updated, count_where_none,
}
use pathway_backend.Database.{PrismaClient, PrismaLaws}
use pathway_backend.Database.Reference.{client_eq}
use pathway_backend.Progress.{StepStatus, not_started, status_Eq, status_eq_iff}
use pathway_backend.Learning.{UserPathwayStep}
use pathway_backend.Learning.Steps.{is_step_of, differs, with_status, step_row, write_step_status}
use pathway_backend.Learning.StepRows.{
  OneRow, find-concat, has_row, no_key, rewritten, rewritten-other, rewritten-status, status-found,
  status_of, updated-nothing,
}

module _ {db : PrismaClient} (laws : PrismaLaws db) (user_id step_id : String) (status : StepStatus)
    (now : ℕ) where
  abbrev written : List UserPathwayStep → Bool × List UserPathwayStep
  written rows = write_step_status db user_id step_id status now rows

  -- The cases of a write: no row has the key, or some has.
  written-new :
      (rows : List UserPathwayStep)
      → any (is_step_of user_id step_id) rows ≡ false
      → written rows ≡ (
          if status == not_started
          then (false, rows)
          else (true, rows ++ step_row user_id step_id status now ∷ []))
  unfolding write_step_status
  written-new rows h =
      let (zero, _) = no_key user_id step_id status now rows h in
      rw (client_eq laws)
        (rw (zero, updated-nothing user_id step_id status now rows zero, h) (ground arith))

  written-old :
      (rows : List UserPathwayStep)
      → any (is_step_of user_id step_id) rows ≡ true
      → written rows ≡ (
        ltb 0 (count_where (differs user_id step_id status) rows),
        rewritten user_id step_id status now rows,
      )
  unfolding write_step_status
  written-old rows h =
      let kept : any (is_step_of user_id step_id) (rewritten user_id step_id status now rows)
          ≡ true =
        any-updated (is_step_of user_id step_id) (differs user_id step_id status)
          (with_status status now) rows (λ u. refl)
        ∙ h in
      rw (client_eq laws) (
        rw kept (elim (Bool-cases (ltb 0 (count_where (differs user_id step_id status) rows))) [
          | inl e ↦ rw e refl
          | inr e ↦ rw e (ground arith)
        ]))

  abbrev same_step : String → String → Bool
  same_step user step = user == user_id && step == step_id

  new_row-OneRow :
      (rows : List UserPathwayStep)
      → any (is_step_of user_id step_id) rows ≡ false
      → OneRow rows
      → OneRow (rows ++ step_row user_id step_id status now ∷ [])
  new_row-OneRow rows h one user step =
      let row = step_row user_id step_id status now in
      rw (count_where-append (is_step_of user step) rows (row ∷ []))
        (elim (Bool-cases (is_step_of user step row)) [
          | inl k ↦
              let same_user : user ≡ user_id = ground (arith, eq_iff user_id user) in
              let same : step ≡ step_id = ground (arith, eq_iff step_id step) in
              rw k (
                rw (same_user, same, count_where_none (is_step_of user_id step_id) rows h)
                  (omega arith))
          | inr k ↦ rw k (omega (arith, one user step))
        ])

  new_row-status :
      (rows : List UserPathwayStep)
      → any (is_step_of user_id step_id) rows ≡ false
      → (user step : String)
      → status_of (rows ++ step_row user_id step_id status now ∷ []) user step
        ≡ (if same_step user step then status else status_of rows user step)
  new_row-status rows h user step =
      let row = step_row user_id step_id status now in
      rw (find-concat user_id step_id status now rows row user step)
        (elim (Bool-cases (same_step user step)) [
          | inl k ↦
              let same_user : user ≡ user_id = ground (arith, eq_iff user user_id) in
              let same : step ≡ step_id = ground (arith, eq_iff step step_id) in
              rw (k, same_user, same, h)
                (ground (arith, eq_iff user_id user_id, eq_iff step_id step_id))
          | inr k ↦ elim (Bool-cases (any (is_step_of user step) rows)) [
            | inl e ↦ rw (k, e) refl
            | inr e ↦
                rw (k, e, status-found user_id step_id status now rows user step e)
                  (ground (
                    arith,
                    eq_iff user user_id,
                    eq_iff user_id user,
                    eq_iff step step_id,
                    eq_iff step_id step,
                  ))
          ]
        ])

  unchanged-status :
      (rows : List UserPathwayStep)
      → any (is_step_of user_id step_id) rows ≡ false
      → status ≡ not_started
      → (user step : String)
      → status_of rows user step
        ≡ (if same_step user step then status else status_of rows user step)
  unchanged-status rows h e user step = elim (Bool-cases (same_step user step)) [
    | inl k ↦
        let same_user : user ≡ user_id = ground (arith, eq_iff user user_id) in
        let same : step ≡ step_id = ground (arith, eq_iff step step_id) in
        rw (k, same_user, same, e) (status-found user_id step_id status now rows user_id step_id h)
    | inr k ↦ rw k refl
  ]

  rewritten-status_of :
      (rows : List UserPathwayStep)
      → any (is_step_of user_id step_id) rows ≡ true
      → (user step : String)
      → status_of (rewritten user_id step_id status now rows) user step
        ≡ (if same_step user step then status else status_of rows user step)
  rewritten-status_of rows h user step = elim (Bool-cases (same_step user step)) [
    | inl k ↦
        let same_user : user ≡ user_id = ground (arith, eq_iff user user_id) in
        let same : step ≡ step_id = ground (arith, eq_iff step step_id) in
        rw (k, same_user, same) (rewritten-status user_id step_id status now rows ∙ rw h refl)
    | inr k ↦ rw k (rewritten-other user_id step_id status now rows user step k)
  ]

-- A write of a step's status is an assignment to the function from learners and steps to statuses:
-- afterwards that learner's step has the status and every other is as it was; the write says that it
-- changed something exactly when the status was another; and it keeps at most one row for a learner
-- and a step. The rows before have at most one for a learner and a step.
pub write_step_status-status_of :
    {db : PrismaClient}
    → PrismaLaws db
    → (user_id step_id : String) (status : StepStatus) (now : ℕ) (rows : List UserPathwayStep)
    → OneRow rows
    → let (changed, after) = write_step_status db user_id step_id status now rows in
      ((user step : String)
        → status_of after user step
          ≡ (if user == user_id && step == step_id then status else status_of rows user step))
      × (changed ≡ not (status_of rows user_id step_id == status))
      × OneRow after
write_step_status-status_of laws user_id step_id status now rows one =
    elim (Bool-cases (any (is_step_of user_id step_id) rows)) [
      | inl e ↦ rw (written-old laws user_id step_id status now rows e) (
        rewritten-status_of laws user_id step_id status now rows e,
        has_row user_id step_id status now rows e (one user_id step_id),
        λ user step.
            rw
              (count_where-updated (is_step_of user step) (differs user_id step_id status)
                (with_status status now) rows (λ u. refl))
              (one user step),
      )
      | inr e ↦
          let (_, missing) = no_key user_id step_id status now rows e in
          rw (written-new laws user_id step_id status now rows e)
            (elim (Bool-cases (status == not_started)) [
              | inl k ↦
                  let same : status ≡ not_started = (status_eq_iff status not_started).0 k in
                  rw k (
                    unchanged-status laws user_id step_id status now rows e same,
                    rw (missing, same) refl,
                    one,
                  )
              | inr k ↦ rw k (
                new_row-status laws user_id step_id status now rows e,
                rw missing (
                    ground
                      (arith, status_eq_iff status not_started, status_eq_iff not_started status)),
                new_row-OneRow laws user_id step_id status now rows e one,
              )
            ])
    ]

-- A write that changes nothing leaves the rows as they are.
pub write_step_status_unchanged :
    {db : PrismaClient}
    → PrismaLaws db
    → (user_id step_id : String) (status : StepStatus) (now : ℕ) (rows : List UserPathwayStep)
    → (write_step_status db user_id step_id status now rows).0 ≡ false
    → (write_step_status db user_id step_id status now rows).1 ≡ rows
write_step_status_unchanged laws user_id step_id status now rows h =
    elim (Bool-cases (any (is_step_of user_id step_id) rows)) [
      | inl e ↦
          let old = written-old laws user_id step_id status now rows e in
          let quiet : ltb 0 (count_where (differs user_id step_id status) rows) ≡ false =
            sym (ap (λ z. z.0) old) ∙ h in
          rw old (updated-nothing user_id step_id status now rows (ground arith))
      | inr e ↦
          let new = written-new laws user_id step_id status now rows e in
          elim (Bool-cases (status == not_started)) [
            | inl k ↦ rw (new, k) refl
            | inr k ↦ absurd (cc (rw (new, k) at h))
          ]
    ]
