-- ===== src/Progress/Laws.antt =====
-- What `computeProgress` counts, which step it offers next, and the range of the percentage.
use pathway_backend.Prelude.{
  ℕ, ◌≤◌, ◌<◌, String, Bool, true, false, not, ◌&&◌, Option, none, some, List, [], ◌∷◌, map, length,
  find, select, count_where, any, leb, sort_by, sort_by-IsSorted, sort_by-All, length-sort_by,
  All-sort_by, count_where-sort_by, find-least, find-none, All, All-map, All-self, All-Memᴰ,
  All-Memᴰ_iff, Memᴰ, find-Memᴰ, select_cong, find-select, length-select, select-eq-nil,
  count_where-not, any_of_Memᴰ, string_Eq, ◌==◌, eq_iff, ◌≡◌, refl, sym, ap, ◌∙◌, ◌⊎◌, inl, inr,
  ◌↔◌, arith, Option-cases, if◌then◌else◌,
}
use pathway_backend.Prelude.Dict.{get, new_dict, last_value, get-new_dict}
use pathway_backend.Progress.{
  not_started, StepForProgress, UserStepProgress, Floats, by_step_id, or_else, is_completed,
  compute_step_statuses, incomplete_steps, next_step, next_from, head_step, first_of_two,
  compute_progress,
}

-- A step is done when the user's row for it says COMPLETED.
abbrev pub is_done : List UserStepProgress → StepForProgress → Bool
is_done user_steps step = is_completed (get (by_step_id user_steps) step.id)

module _ {V : Type 0} (f : String → V) where
  last_value-keyed :
      (steps : List StepForProgress) (k : String) (old : Option V)
      → last_value (map (λ s. (s.id, f s.id)) steps) k old
        ≡ (if any (λ s. s.id == k) steps then some (f k) else old)
  last_value-keyed [] k old = refl
  last_value-keyed (s ∷ steps) k old = ground (
    arith,
    eq_iff s.id k,
    last_value-keyed steps k (if s.id == k then some (f s.id) else old),
    λ (e : s.id ≡ k). ap f e,
  )

  get-keyed :
      (steps : List StepForProgress) (s : StepForProgress)
      → Memᴰ s steps
      → get (new_dict (map (λ s. (s.id, f s.id)) steps)) s.id ≡ some (f s.id)
  get-keyed steps s m = rw (get-new_dict _ s.id) (
      rw (last_value-keyed steps s.id none)
        (rw (any_of_Memᴰ (λ t. t.id == s.id) steps m ((eq_iff s.id s.id).1 refl))))

module _ (steps : List StepForProgress) (user_steps : List UserStepProgress) where
  is_completed_lem :
      (s : StepForProgress)
      → Memᴰ s steps
      → is_completed (get (compute_step_statuses steps user_steps) s.id) ≡ is_done user_steps s
  unfolding compute_step_statuses
  is_completed_lem s m =
      rw (get-keyed (λ k. or_else (get (by_step_id user_steps) k) not_started) steps s m)
        (elim (Option-cases (get (by_step_id user_steps) s.id)) [
          | inl e ↦ rw e
          | inr (v, e) ↦ rw e
        ])

  -- The incomplete steps are the steps that are not done, by order.
  incomplete_steps_lem :
      incomplete_steps steps user_steps
      ≡ select (λ s. not (is_done user_steps s)) (sort_by (λ s. s.order) steps)
  unfolding incomplete_steps
  incomplete_steps_lem = select_cong _ _ _ (
      sort_by-All (λ s. s.order) _ steps
        (All-Memᴰ_iff _ steps (λ s m. ap not (is_completed_lem s m))))

-- The total counts the steps, and the completed count is of those whose row says COMPLETED.
pub compute_progress-counts :
    (fl : Floats) (steps : List StepForProgress) (user_steps : List UserStepProgress)
    (start : Option ℕ)
    → ((compute_progress fl steps user_steps start).total ≡ length steps)
      × ((compute_progress fl steps user_steps start).completed
          ≡ count_where (is_done user_steps) steps)
unfolding compute_progress
compute_progress-counts fl steps user_steps start =
    let by_order = λ (s : StepForProgress). s.order in
    let open_count : length (incomplete_steps steps user_steps)
        ≡ count_where (λ s. not (is_done user_steps s)) (sort_by by_order steps) =
      ap length (incomplete_steps_lem steps user_steps)
      ∙ length-select (λ s. not (is_done user_steps s)) (sort_by by_order steps) in
    (
      length-sort_by by_order steps,
      omega (
        arith,
        open_count,
        count_where-sort_by by_order (is_done user_steps) steps,
        count_where-not (is_done user_steps) (sort_by by_order steps),
      ),
    )

-- `s` is the earliest of the steps that are not done and stand at `from` or later.
abbrev pub IsEarliest : List StepForProgress → List UserStepProgress → ℕ → StepForProgress → Type 0
IsEarliest steps user_steps from s =
    Memᴰ s steps
    × (is_done user_steps s ≡ false)
    × (from ≤ s.order)
    × All (λ t. is_done user_steps t ≡ false → from ≤ t.order → s.order ≤ t.order) steps

-- The step to offer next, with or without a starting point.
abbrev pub IsNext :
    List StepForProgress → List UserStepProgress → Option ℕ → StepForProgress → Type 0
IsNext steps user_steps none s = IsEarliest steps user_steps 0 s
IsNext steps user_steps (some start) s =
    IsEarliest steps user_steps start s
    ⊎ (IsEarliest steps user_steps 0 s
        × All (λ t. is_done user_steps t ≡ false → t.order < start) steps)

module _ (steps : List StepForProgress) (user_steps : List UserStepProgress) where
  abbrev by_order : List StepForProgress
  by_order = sort_by (λ s. s.order) steps

  abbrev is_open : StepForProgress → Bool
  is_open s = not (is_done user_steps s)

  find-IsEarliest :
      (from : ℕ) (s : StepForProgress)
      → find (λ t. leb from t.order) (select is_open by_order) ≡ some s
      → IsEarliest steps user_steps from s
  find-IsEarliest from s e =
      let found : find (λ t. is_open t && leb from t.order) by_order ≡ some s =
        sym (find-select is_open (λ t. leb from t.order) by_order) ∙ e in
      let (m, passes) = find-Memᴰ _ by_order found in
      let least =
        All-sort_by (λ t. t.order) _ steps
          (find-least (λ t. t.order) _ by_order (sort_by-IsSorted (λ t. t.order) steps) found) in
      (
        All-Memᴰ (λ t. Memᴰ t steps) by_order (sort_by-All (λ t. t.order) _ steps (All-self steps))
            m,
        ground arith,
        ground arith,
        All-map _ steps (λ t k not_done le. k (ground arith)) least,
      )

  head_step_lem : (xs : List StepForProgress) → head_step xs ≡ find (λ t. leb 0 t.order) xs
  head_step_lem [] = refl
  head_step_lem (x ∷ xs) = ground arith

  find-none-open :
      (from : ℕ)
      → find (λ t. leb from t.order) (select is_open by_order) ≡ none
      → All (λ t. is_done user_steps t ≡ false → t.order < from) steps
  find-none-open from e =
      let absent : find (λ t. is_open t && leb from t.order) by_order ≡ none =
        sym (find-select is_open (λ t. leb from t.order) by_order) ∙ e in
      All-map _ steps (λ t k not_done. ground arith)
        (All-sort_by (λ t. t.order) _ steps (find-none (λ t. t.order) _ by_order absent))

  next_step_lem :
      (start : Option ℕ)
      → next_step steps user_steps start
        ≡ first_of_two
            (next_from (select is_open by_order) start)
            (head_step (select is_open by_order))
  unfolding next_step
  next_step_lem start =
      ap (λ xs. first_of_two (next_from xs start) (head_step xs))
        (incomplete_steps_lem steps user_steps)

  head_step-IsEarliest :
      (s : StepForProgress)
      → head_step (select is_open by_order) ≡ some s
      → IsEarliest steps user_steps 0 s
  head_step-IsEarliest s e = find-IsEarliest 0 s (sym (head_step_lem _) ∙ e)

  next_step-IsNext :
      (start : Option ℕ) (s : StepForProgress)
      → next_step steps user_steps start ≡ some s
      → IsNext steps user_steps start s
  next_step-IsNext none s e = head_step-IsEarliest s (sym (next_step_lem none) ∙ e)
  next_step-IsNext (some start) s e =
      elim (Option-cases (find (λ t. leb start t.order) (select is_open by_order))) [
        | inl n ↦ inr (
          head_step-IsEarliest s (ground (arith, next_step_lem (some start), n)),
          find-none-open start n,
        )
        | inr (t, f) ↦ inl (find-IsEarliest start s (ground (arith, next_step_lem (some start), f)))
      ]

  next_step-none-done :
      (start : Option ℕ)
      → next_step steps user_steps start ≡ none
      → All (λ t. is_done user_steps t ≡ true) steps
  next_step-none-done start e =
      let absent : head_step (select is_open by_order) ≡ none =
        ground (arith, next_step_lem start) in
      All-map _ steps (λ t k. ground arith) (find-none-open 0 (sym (head_step_lem _) ∙ absent))

  next_step-none_iff :
      (start : Option ℕ)
      → (next_step steps user_steps start ≡ none) ↔ All (λ t. is_done user_steps t ≡ true) steps
  next_step-none_iff start = (
    next_step-none-done start,
    λ h.
        let empty : select is_open by_order ≡ [] =
          select-eq-nil is_open by_order
            (sort_by-All (λ t. t.order) _ steps (All-map _ steps (λ t d. rw d) h)) in
        ground (arith, next_step_lem start, empty, ap (λ xs. next_from xs start) empty),
  )

-- The next step offered is the earliest incomplete step at or after the starting point; where
-- no incomplete step stands there, or no starting point is given, it is the earliest of all.
pub compute_progress-IsNext :
    (fl : Floats) (steps : List StepForProgress) (user_steps : List UserStepProgress)
    (start : Option ℕ) (id : String)
    → (compute_progress fl steps user_steps start).next_step_id ≡ some id
    → (s : StepForProgress) × (s.id ≡ id) × IsNext steps user_steps start s
unfolding compute_progress
compute_progress-IsNext fl steps user_steps start id e =
    elim (Option-cases (next_step steps user_steps start)) [
      | inl n ↦ cc
      | inr (s, f) ↦ (s, ground arith, next_step-IsNext steps user_steps start s f)
    ]

-- No next step is offered exactly when every step is completed.
pub compute_progress-next_none_iff :
    (fl : Floats) (steps : List StepForProgress) (user_steps : List UserStepProgress)
    (start : Option ℕ)
    → ((compute_progress fl steps user_steps start).next_step_id ≡ none)
      ↔ All (λ t. is_done user_steps t ≡ true) steps
unfolding compute_progress
compute_progress-next_none_iff fl steps user_steps start =
    let (to, from) = next_step-none_iff steps user_steps start in
    (
      λ e.
          to (elim (Option-cases (next_step steps user_steps start)) [
            | inl n ↦ n
            | inr (s, f) ↦ cc
          ]),
      λ h. rw (from h),
    )
