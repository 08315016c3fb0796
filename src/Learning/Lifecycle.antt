-- ===== src/Learning/Lifecycle.antt =====
-- Any sequence of a learner's calls keeps the tables well formed.
use pathway_backend.Prelude.{ℕ, String, Bool, Option, List, [], ◌∷◌, refl, string_Eq, ◌==◌, updated}
use pathway_backend.Prelude.Members.{count_where-updated}
use pathway_backend.Handlers.{tables_of, or_throw-tables, throw_if-tables}
use pathway_backend.Database.{PrismaClient, PrismaLaws}
use pathway_backend.Database.Reference.{update-found}
use pathway_backend.Progress.{StepStatus, Floats}
use pathway_backend.Learning.{UserPathway, Tables, has_key, pathway_of_career}
use pathway_backend.Learning.Pathways.{
  is_active_of, is_foreign_step, set_starting_point, set_active_pathway,
}
use pathway_backend.Learning.Steps.{pathway_with_id, set_step_status, status_written}
use pathway_backend.Learning.Activated.{OneActive}
use pathway_backend.Learning.Active.{activate-OneActive}
use pathway_backend.Learning.StepRows.{OneRow}
use pathway_backend.Learning.Status.{write_step_status-status_of}

-- A call, with the ids and the times that the environment supplies.
pub data Command : Type 0 where
  activate_career : (row_id user_id career_id : String) → Command
  start_at : (user_id career_id : String) (step_id : Option String) → Command
  track : (user_id step_id : String) (status : StepStatus) (now : ℕ) → Command

module _ (db : PrismaClient) (fl : Floats) where
  unfoldable pub run : Command → Tables → Tables
  run (activate_career row_id user_id career_id) t =
      tables_of (set_active_pathway db fl row_id user_id career_id t)
  run (start_at user_id career_id step_id) t =
      tables_of (set_starting_point db fl user_id career_id step_id t)
  run (track user_id step_id status now) t =
      tables_of (set_step_status db fl user_id step_id status now t)

  unfoldable pub run_all : List Command → Tables → Tables
  run_all [] t = t
  run_all (command ∷ commands) t = run_all commands (run command t)

-- At most one row for a learner and a career, one active row for a learner, and one row for a learner
-- and a step.
abbrev pub IsWellFormed : Tables → Type 0
IsWellFormed t = OneActive t.user_pathways × OneRow t.user_steps

-- A change of the starting point keeps the counts.
start-OneActive :
    (p : UserPathway → Bool) (step_id : Option String) (rows : List UserPathway)
    → OneActive rows
    → OneActive (updated p (λ u. record u { start_step_id = step_id }) rows)
start-OneActive p step_id rows (keys, one) =
    let f : UserPathway → UserPathway = λ u. record u { start_step_id = step_id } in
    (
      λ user career.
          rw (count_where-updated (has_key user career) p f rows (λ u. refl)) (keys user career),
      λ user. rw (count_where-updated (is_active_of user) p f rows (λ u. refl)) (one user),
    )

module _ {db : PrismaClient} (laws : PrismaLaws db) (fl : Floats) where
  run-IsWellFormed :
      (command : Command) (t : Tables) → IsWellFormed t → IsWellFormed (run db fl command t)
  unfolding run set_active_pathway set_starting_point set_step_status status_written
  run-IsWellFormed (activate_career row_id user_id career_id) t (one, rows) =
      or_throw-tables IsWellFormed _ _ t _ (one, rows)
        (λ career e.
          or_throw-tables IsWellFormed (pathway_of_career db t career_id) _ t _ (one, rows)
            (λ pathway f.
              (activate-OneActive laws row_id user_id career_id t.user_pathways one, rows)))
  run-IsWellFormed (start_at user_id career_id step_id) t (one, rows) =
      or_throw-tables IsWellFormed _ _ t _ (one, rows)
        (λ saved e.
          or_throw-tables IsWellFormed (pathway_of_career db t saved.career_id) _ t _ (one, rows)
            (λ pathway f.
              throw_if-tables IsWellFormed (is_foreign_step db fl t pathway.id step_id) _ t _
                (one, rows)
                (λ own.
                  or_throw-tables IsWellFormed
                    (db.update UserPathway (λ u. u.id == saved.id)
                      (λ u. record u { start_step_id = step_id }) t.user_pathways)
                    _ t _ (one, rows)
                    (λ row g.
                      let (_, _, _, same) = update-found laws UserPathway _ _ t.user_pathways g in
                      (
                        rw same
                            (start-OneActive (λ u. u.id == saved.id) step_id t.user_pathways one),
                        rows,
                      )))))
  run-IsWellFormed (track user_id step_id status now) t (one, rows) =
      or_throw-tables IsWellFormed _ _ t _ (one, rows)
        (λ step e.
          or_throw-tables IsWellFormed (pathway_with_id db t step.pathway_id) _ t _ (one, rows)
            (λ pathway f.
              or_throw-tables IsWellFormed
                (db.find_unique UserPathway (has_key user_id pathway.career_id) t.user_pathways) _ t
                _ (one, rows)
                (λ saved g.
                  let (_, _, kept) =
                    write_step_status-status_of laws user_id step_id status now t.user_steps rows in
                  (one, kept))))

-- Any sequence of calls, failing ones included, that starts from well-formed tables ends in
-- well-formed ones: no learner ever has two active careers, two rows for a career or two rows for a
-- step.
pub run_all-IsWellFormed :
    {db : PrismaClient}
    → PrismaLaws db
    → (fl : Floats) (commands : List Command) (t : Tables) → IsWellFormed t
    → IsWellFormed (run_all db fl commands t)
unfolding run_all
run_all-IsWellFormed laws fl [] t h = h
run_all-IsWellFormed {db} laws fl (command ∷ commands) t h =
    run_all-IsWellFormed laws fl commands (run db fl command t)
      (run-IsWellFormed laws fl command t h)
