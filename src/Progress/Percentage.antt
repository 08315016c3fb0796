-- ===== src/Progress/Percentage.antt =====
-- The range of the percentage that `computeProgress` reports.
use pathway_backend.Prelude.{
  ℕ, zero, suc, ◌≤◌, Option, List, length, sort_by, ◌≡◌, refl, ◌∙◌, ap, arith,
}
use pathway_backend.Progress.{
  StepForProgress, UserStepProgress, Floats, FloatLaws, percentage_of, compute_progress,
}

module _ (fl : Floats) (laws : FloatLaws fl) where
  open laws use {
    Le, div_mono, mul_mono, round_mono, div_self, zero_div, one_mul, zero_mul, round_of,
  }

  percentage_of-suc :
      (a n : ℕ)
      → percentage_of fl a (suc n)
        ≡ fl.round (fl.mul (fl.div (fl.of a) (fl.of (suc n))) (fl.of 100))
  unfolding percentage_of
  percentage_of-suc a n = ground arith

  percentage_of_full : (n : ℕ) → 1 ≤ n → percentage_of fl n n ≡ 100
  percentage_of_full zero h = elim h [ ]
  percentage_of_full (suc n) h =
      percentage_of-suc (suc n) n
      ∙ ap (λ x. fl.round (fl.mul x (fl.of 100))) (div_self (suc n) (omega arith))
      ∙ ap fl.round (one_mul 100 (omega arith))
      ∙ round_of 100 (omega arith)

  percentage_of_none : (n : ℕ) → percentage_of fl 0 n ≡ 0
  unfolding percentage_of
  percentage_of_none zero = refl
  percentage_of_none (suc n) =
      percentage_of-suc 0 n
      ∙ ap (λ x. fl.round (fl.mul x (fl.of 100))) (zero_div (suc n) (omega arith))
      ∙ ap fl.round (zero_mul 100)
      ∙ round_of 0 (omega arith)

  percentage_of_mono : (a b n : ℕ) → a ≤ b → percentage_of fl a n ≤ percentage_of fl b n
  unfolding percentage_of
  percentage_of_mono a b zero h = omega arith
  percentage_of_mono a b (suc n) h =
      rw (percentage_of-suc a n)
        (rw (percentage_of-suc b n) (round_mono _ _ (mul_mono _ _ 100 (div_mono a b (suc n) h))))

  percentage_of_bound : (a n : ℕ) → a ≤ n → percentage_of fl a n ≤ 100
  unfolding percentage_of
  percentage_of_bound a zero h = omega arith
  percentage_of_bound a (suc n) h =
      omega (arith, percentage_of_mono a (suc n) (suc n) h, percentage_of_full (suc n))

  -- The percentage is at most 100, is 100 when all of at least one step are completed, and is 0
  -- when none is.
  pub compute_progress-percentage :
      (steps : List StepForProgress) (user_steps : List UserStepProgress) (start : Option ℕ)
      → let p = compute_progress fl steps user_steps start in
        (p.percentage ≤ 100)
        × (p.completed ≡ p.total → 1 ≤ p.total → p.percentage ≡ 100)
        × (p.completed ≡ 0 → p.percentage ≡ 0)
  unfolding compute_progress
  compute_progress-percentage steps user_steps start =
      let total = length (sort_by (λ s. s.order) steps) in
      (
        percentage_of_bound _ total (omega arith),
        λ all some_step. rw all (percentage_of_full total some_step),
        λ nothing. rw nothing (percentage_of_none total),
      )
