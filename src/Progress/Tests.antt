-- ===== src/Progress/Tests.antt =====
-- Progress on a pathway of three steps.
use pathway_backend.Prelude.{
  ℕ, ◌+◌, ◌*◌, ◌/◌, ◌≤◌, none, some, List, [], ◌∷◌, ◌≡◌, refl, arith, sort_by,
}
use pathway_backend.Prelude.Dict.{new_dict}
use pathway_backend.Progress.{
  completed, in_progress, StepForProgress, UserStepProgress, Floats, FloatLaws, compute_progress,
  find_step_order, next_step, incomplete_steps, compute_step_statuses, percentage_of, by_step_id,
}
use pathway_backend.Progress.Laws.{IsNext, compute_progress-IsNext}
use pathway_backend.Progress.Percentage.{compute_progress-percentage}

-- Numbers with three decimal places.
abbrev thousandths : Floats
thousandths = record {
  Number = ℕ;
  of = λ n. n * 1000;
  div = λ x y. x * 1000 / y;
  mul = λ x y. x * y / 1000;
  round = λ x. (x + 500) / 1000;
}

thousandths_laws : FloatLaws thousandths
thousandths_laws = record {
  Le = λ x y. x ≤ y;
  div_mono = λ a b c h. grind arith;
  mul_mono = λ x y c h. grind arith;
  round_mono = λ x y h. omega arith;
  div_self = λ a h. grind arith;
  zero_div = λ a h. grind arith;
  one_mul = λ a h. omega arith;
  zero_mul = λ a. omega arith;
  round_of = λ a h. omega arith;
}

abbrev steps : List StepForProgress
steps =
    record { id = "b"; order = 2 }
    ∷ record { id = "a"; order = 1 }
    ∷ record { id = "c"; order = 3 }
    ∷ []

abbrev rows : List UserStepProgress
rows =
    record { pathway_step_id = "a"; status = completed }
    ∷ record { pathway_step_id = "b"; status = in_progress }
    ∷ []

compute_progress_tests :
    (compute_progress thousandths steps rows none
      ≡ record { completed = 1; total = 3; percentage = 33; next_step_id = some "b" })
    × ((compute_progress thousandths steps rows (some 3)).next_step_id ≡ some "c")
    × (find_step_order steps (some "c") ≡ some 3)
unfolding compute_progress next_step incomplete_steps compute_step_statuses percentage_of by_step_id
    sort_by find_step_order new_dict
compute_progress_tests = (refl, refl, refl)

compute_progress-IsNext_example :
    (s : StepForProgress) × (s.id ≡ "c") × IsNext steps rows (some 3) s
compute_progress-IsNext_example =
    compute_progress-IsNext thousandths steps rows (some 3) "c" compute_progress_tests.1

compute_progress-percentage_example :
    let p = compute_progress thousandths steps rows none in
    (p.percentage ≤ 100)
    × (p.completed ≡ p.total → 1 ≤ p.total → p.percentage ≡ 100)
    × (p.completed ≡ 0 → p.percentage ≡ 0)
compute_progress-percentage_example =
    compute_progress-percentage thousandths thousandths_laws steps rows none
