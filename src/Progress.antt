-- ===== src/Progress.antt =====
-- A learner's progress along a pathway (src/catalog/pathways/progress.ts).
-- `Math.round((completed / total) * 100)` is computed with floating-point numbers: the type and
-- its operations are the parameter `fl`, and `FloatLaws` is what IEEE 754 arithmetic promises.
pub mod Laws
pub mod Percentage
mod Tests
use pathway_backend.Prelude.{
  ℕ, ◌-◌, ◌≤◌, String, Bool, true, false, not, Option, none, some, List, [], ◌∷◌, map, length, find,
  select, leb, sort_by, nat_eq, nat_Eq, Eq, string_Eq, ◌==◌, ◌≡◌, ◌↔◌, arith, if◌then◌else◌,
}
use pathway_backend.Prelude.Dict.{Dict, get, new_dict}

pub data StepStatus : Type 0 where
  not_started in_progress completed : StepStatus

abbrev status_code : StepStatus → ℕ
status_code not_started = 0
status_code in_progress = 1
status_code completed = 2

pub status_eq_iff : (a b : StepStatus) → (nat_eq (status_code a) (status_code b) ≡ true) ↔ (a ≡ b)
status_eq_iff a b = ground arith

instance abbrev pub status_Eq : Eq StepStatus
status_Eq = record {
  is_same = λ a b. nat_eq (status_code a) (status_code b);
  is_same_iff = status_eq_iff;
}

pub record StepForProgress : Type 0 where
  pub id : String
  pub order : ℕ

pub record UserStepProgress : Type 0 where
  pub pathway_step_id : String
  pub status : StepStatus

pub record ProgressSummary : Type 0 where
  pub completed : ℕ
  pub total : ℕ
  pub percentage : ℕ
  pub next_step_id : Option String

pub record Floats : Type 1 where
  pub Number : Type 0
  pub of : ℕ → Number
  pub div : Number → Number → Number
  pub mul : Number → Number → Number
  -- `Math.round`, on numbers that are not negative
  pub round : Number → ℕ

-- IEEE 754 operations are correctly rounded: monotone, and exact where the result is a small
-- integer.
pub record FloatLaws (fl : Floats) : Type 1 where
  pub Le : fl.Number → fl.Number → Type 0
  pub div_mono : (a b c : ℕ) → a ≤ b → Le (fl.div (fl.of a) (fl.of c)) (fl.div (fl.of b) (fl.of c))
  pub mul_mono : (x y : fl.Number) (c : ℕ) → Le x y → Le (fl.mul x (fl.of c)) (fl.mul y (fl.of c))
  pub round_mono : (x y : fl.Number) → Le x y → fl.round x ≤ fl.round y
  pub div_self : (a : ℕ) → 1 ≤ a → fl.div (fl.of a) (fl.of a) ≡ fl.of 1
  pub zero_div : (a : ℕ) → 1 ≤ a → fl.div (fl.of 0) (fl.of a) ≡ fl.of 0
  pub one_mul : (a : ℕ) → a ≤ 100 → fl.mul (fl.of 1) (fl.of a) ≡ fl.of a
  pub zero_mul : (a : ℕ) → fl.mul (fl.of 0) (fl.of a) ≡ fl.of 0
  pub round_of : (a : ℕ) → a ≤ 100 → fl.round (fl.of a) ≡ a

-- `map.get(key) ?? fallback`
abbrev or_else {ℓ} : {A : Type ℓ} → Option A → A → A
or_else none d = d
or_else (some a) d = a

pub by_step_id : List UserStepProgress → Dict StepStatus
by_step_id user_steps = new_dict (map (λ s. (s.pathway_step_id, s.status)) user_steps)

pub compute_step_statuses : List StepForProgress → List UserStepProgress → Dict StepStatus
compute_step_statuses steps user_steps =
    new_dict
      (map (λ step. (step.id, or_else (get (by_step_id user_steps) step.id) not_started)) steps)

-- `statuses.get(id) === COMPLETED`
abbrev is_completed : Option StepStatus → Bool
is_completed none = false
is_completed (some s) = s == completed

-- The earliest incomplete step at or after the start, else the earliest incomplete one.
abbrev head_step : List StepForProgress → Option StepForProgress
head_step [] = none
head_step (s ∷ ss) = some s

abbrev next_from : List StepForProgress → Option ℕ → Option StepForProgress
next_from incomplete none = none
next_from incomplete (some start) = find (λ s. leb start s.order) incomplete

abbrev first_of_two {ℓ} : {A : Type ℓ} → Option A → Option A → Option A
first_of_two none b = b
first_of_two (some a) b = some a

abbrev step_id : Option StepForProgress → Option String
step_id none = none
step_id (some s) = some s.id

incomplete_steps : List StepForProgress → List UserStepProgress → List StepForProgress
incomplete_steps steps user_steps =
    select (λ s. not (is_completed (get (compute_step_statuses steps user_steps) s.id)))
      (sort_by (λ s. s.order) steps)

next_step : List StepForProgress → List UserStepProgress → Option ℕ → Option StepForProgress
next_step steps user_steps start_order =
    let incomplete = incomplete_steps steps user_steps in
    first_of_two (next_from incomplete start_order) (head_step incomplete)

percentage_of : (fl : Floats) → ℕ → ℕ → ℕ
percentage_of fl done total =
    if total == 0 then 0 else fl.round (fl.mul (fl.div (fl.of done) (fl.of total)) (fl.of 100))

pub compute_progress :
    (fl : Floats) → List StepForProgress → List UserStepProgress → Option ℕ → ProgressSummary
compute_progress fl steps user_steps start_order =
    let total : ℕ = length (sort_by (λ s. s.order) steps) in
    let done : ℕ = total - length (incomplete_steps steps user_steps) in
    record {
      completed = done;
      total = total;
      percentage = percentage_of fl done total;
      next_step_id = step_id (next_step steps user_steps start_order);
    }

-- `stepId === null` matches no step, since every step has an id.
pub find_step_order : List StepForProgress → Option String → Option ℕ
find_step_order steps none = none
find_step_order steps (some id) = elim (find (λ s. s.id == id) steps) [
  | none ↦ none
  | some s ↦ some s.order
]
