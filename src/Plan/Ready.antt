-- ===== src/Plan/Ready.antt =====
-- When a plan has no blockers, and which removals it may hold.
use pathway_backend.Prelude.{
  ℕ, String, Bool, true, not, ◌&&◌, Option, none, some, List, [], ◌∷◌, ◌++◌, map, any, All, All-map,
  ◌≡◌, ◌≢◌, refl, ◌↔◌, ◌⊎◌, inl, inr, arith, eq_iff, concat_map, Bool-cases, is_some, string_Eq,
  ◌==◌,
}
use pathway_backend.Prelude.Dict.{Dict, get, All-new_dict, is_some-get-new_dict}
use pathway_backend.Snapshot.{
  CareerSnapshot, CareerSnapshotStep, CareerSnapshotCareer, CareerSnapshotSkill, LiveCareerForPlan,
}
use pathway_backend.Snapshot.TempId.{is_temp_id}
use pathway_backend.Plan.Career.{career_blockers, missing_fields, required_fields}
use pathway_backend.Plan.Skills.{skill_blockers, no_skills_blockers}
use pathway_backend.Plan.Steps.{
  no_steps_blockers, step_blockers, progress_blocker, affected_learners, step_dict, kept_steps,
}
use pathway_backend.Plan.Build.{build_plan, plan_blockers}

-- The draft keeps the live step with the id.
pub keeps_step : CareerSnapshot → String → Bool
keeps_step snapshot id =
    any (λ (s : CareerSnapshotStep). not (is_temp_id s.id) && (s.id == id)) snapshot.steps

-- The draft keeps the live step, or the step has no learners.
pub WithoutLoss : CareerSnapshot → Dict ℕ → String → Type 0
WithoutLoss snapshot learners id =
    (keeps_step snapshot id ≡ true) ⊎ (affected_learners learners id ≡ 0)

abbrev pub IsThere : Option String → Type 0
IsThere none = ⊥
IsThere (some s) = s ≢ ""

-- The required texts of a career are there and not empty.
pub IsComplete : CareerSnapshotCareer → Type 0
IsComplete c =
    (c.title ≢ "")
    × (c.slug ≢ "")
    × (c.description ≢ "")
    × IsThere c.role_summary
    × IsThere c.field_id

-- The career's texts are there, the draft has skills and steps, and a live step that it leaves out
-- has no learners.
pub IsReady : LiveCareerForPlan → CareerSnapshot → Dict ℕ → Type 0
IsReady live snapshot learners =
    IsComplete snapshot.career
    × (snapshot.skills ≢ [])
    × (snapshot.steps ≢ [])
    × All (λ (l : CareerSnapshotStep). WithoutLoss snapshot learners l.id) live.steps

append-nil_iff : {A : Type 0} (xs ys : List A) → (xs ++ ys ≡ []) ↔ ((xs ≡ []) × (ys ≡ []))
append-nil_iff [] ys = ground arith
append-nil_iff (x ∷ xs) ys = ground arith

concat_map-nil_iff :
    {A : Type 0} {B : Type 0} (f : A → List B) (xs : List A)
    → (concat_map f xs ≡ []) ↔ All (λ x. f x ≡ []) xs
concat_map-nil_iff f [] = (λ _. tt, λ _. refl)
concat_map-nil_iff f (x ∷ xs) =
    let (split, join) = append-nil_iff (f x) (concat_map f xs) in
    let (each, back) = concat_map-nil_iff f xs in
    (λ h. let (a, b) = split h in (a, each b), λ (a, b). join (a, back b))

any_kept :
    (list : List CareerSnapshotStep) (id : String)
    → any
        (λ (e : String × CareerSnapshotStep). e.0 == id)
        (map (λ (s : CareerSnapshotStep). (s.id, s)) (kept_steps list))
      ≡ any (λ (s : CareerSnapshotStep). not (is_temp_id s.id) && (s.id == id)) list
any_kept [] id = refl
any_kept (s ∷ list) id = elim (Bool-cases (is_temp_id s.id)) [
  | inl e ↦ rw (e, any_kept list id)
  | inr e ↦ rw (e, any_kept list id)
]

pub is_some-get-kept_steps :
    (snapshot : CareerSnapshot) (id : String)
    → is_some (get (step_dict (kept_steps snapshot.steps)) id) ≡ keeps_step snapshot id
unfolding keeps_step
is_some-get-kept_steps snapshot id =
    rw
      (is_some-get-new_dict
        (map (λ (s : CareerSnapshotStep). (s.id, s)) (kept_steps snapshot.steps)) id)
      (any_kept snapshot.steps id)

progress_blocker-nil_iff :
    (learners : Dict ℕ) (kept : Option CareerSnapshotStep) (id : String) (l : CareerSnapshotStep)
    → (progress_blocker learners kept id l ≡ [])
      ↔ ((is_some kept ≡ true) ⊎ (affected_learners learners id ≡ 0))
unfolding progress_blocker
progress_blocker-nil_iff learners none id l = ground arith
progress_blocker-nil_iff learners (some s) id l = ground arith

entry-nil_iff :
    (snapshot : CareerSnapshot) (learners : Dict ℕ) (id : String) (l : CareerSnapshotStep)
    → (progress_blocker learners (get (step_dict (kept_steps snapshot.steps)) id) id l ≡ [])
      ↔ WithoutLoss snapshot learners id
unfolding WithoutLoss
entry-nil_iff snapshot learners id l =
    rw (← is_some-get-kept_steps snapshot id)
      (progress_blocker-nil_iff learners (get (step_dict (kept_steps snapshot.steps)) id) id l)

All-pairs :
    (P : String → Type 0) (list : List CareerSnapshotStep)
    → All
        (λ (e : String × CareerSnapshotStep). P e.0)
        (map (λ (s : CareerSnapshotStep). (s.id, s)) list)
      ↔ All (λ (s : CareerSnapshotStep). P s.id) list
All-pairs P [] = (λ h. h, λ h. h)
All-pairs P (s ∷ list) = let (f, g) = All-pairs P list in (λ (p, h). (p, f h), λ (p, h). (p, g h))

progress-nil_iff :
    (live : LiveCareerForPlan) (snapshot : CareerSnapshot) (learners : Dict ℕ)
    → (concat_map
          (λ (e : String × CareerSnapshotStep).
            progress_blocker learners (get (step_dict (kept_steps snapshot.steps)) e.0) e.0 e.1)
          (step_dict live.steps)
        ≡ [])
      ↔ All (λ (l : CareerSnapshotStep). WithoutLoss snapshot learners l.id) live.steps
progress-nil_iff live snapshot learners =
    let P = WithoutLoss snapshot learners in
    let entries = map (λ (s : CareerSnapshotStep). (s.id, s)) live.steps in
    let (split, join) =
      concat_map-nil_iff
        (λ (e : String × CareerSnapshotStep).
          progress_blocker learners (get (step_dict (kept_steps snapshot.steps)) e.0) e.0 e.1)
        (step_dict live.steps) in
    let (keys, entries_of) = All-new_dict P entries in
    let (steps_of, pairs) = All-pairs P live.steps in
    (
      λ h. steps_of (
          keys (
            All-map _ (step_dict live.steps) (λ e q. (entry-nil_iff snapshot learners e.0 e.1).0 q)
              (split h))),
      λ h. join (
          All-map _ (step_dict live.steps) (λ e q. (entry-nil_iff snapshot learners e.0 e.1).1 q)
            (entries_of (pairs h))),
    )

missing_fields-nil_iff :
    (id : String) (fields : List (String × Option String))
    → (missing_fields id fields ≡ []) ↔ All (λ (e : String × Option String). IsThere e.1) fields
unfolding missing_fields
missing_fields-nil_iff id [] = (λ _. tt, λ _. refl)
missing_fields-nil_iff id ((field, none) ∷ rest) = ground arith
missing_fields-nil_iff id ((field, some s) ∷ rest) =
    let (f, g) = missing_fields-nil_iff id rest in
    elim (Bool-cases (s == "")) [
      | inl e ↦ rw e (λ h. ground arith, λ (p, _). elim (p ((eq_iff s "").0 e)) [ ])
      | inr e ↦ rw e (λ h. (ground (arith, eq_iff s ""), f h), λ (_, q). g q)
    ]

no_skills_blockers-nil_iff :
    (list : List CareerSnapshotSkill) → (no_skills_blockers list ≡ []) ↔ (list ≢ [])
unfolding no_skills_blockers
no_skills_blockers-nil_iff [] = ground arith
no_skills_blockers-nil_iff (s ∷ list) = ground arith

no_steps_blockers-nil_iff :
    (list : List CareerSnapshotStep) → (no_steps_blockers list ≡ []) ↔ (list ≢ [])
unfolding no_steps_blockers
no_steps_blockers-nil_iff [] = ground arith
no_steps_blockers-nil_iff (s ∷ list) = ground arith

-- A plan has no blockers exactly when every required text of the career is there and not empty, the
-- draft has a skill and a step, and each live step that the draft leaves out has no learners.
pub build_plan-unblocked_iff :
    (live : LiveCareerForPlan) (snapshot : CareerSnapshot) (base_version : ℕ) (learners : Dict ℕ)
    → ((build_plan live snapshot base_version learners).blockers ≡ [])
      ↔ IsReady live snapshot learners
unfolding build_plan plan_blockers IsReady career_blockers skill_blockers step_blockers IsComplete
build_plan-unblocked_iff live snapshot base_version learners =
    let (complete, texts) = missing_fields-nil_iff live.id (required_fields snapshot.career) in
    let (skills_there, skills_ok) = no_skills_blockers-nil_iff snapshot.skills in
    let (steps_there, steps_ok) = no_steps_blockers-nil_iff snapshot.steps in
    let (safe, progress) = progress-nil_iff live snapshot learners in
    let (split, join) =
      append-nil_iff (career_blockers live snapshot ++ skill_blockers snapshot)
        (step_blockers live snapshot learners) in
    let (split_first, join_first) =
      append-nil_iff (career_blockers live snapshot) (skill_blockers snapshot) in
    let (split_steps, join_steps) = append-nil_iff (no_steps_blockers snapshot.steps) (
      concat_map
        (λ (e : String × CareerSnapshotStep).
          progress_blocker learners (get (step_dict (kept_steps snapshot.steps)) e.0) e.0 e.1)
        (step_dict live.steps)) in
    (
      λ h.
          let (first, last) = split h in
          let (c, k) = split_first first in
          let (n, p) = split_steps last in
          let (t, (sl, (d, (r, (f, _))))) = complete c in
          ((t, sl, d, r, f), skills_there k, steps_there n, safe p),
      λ (c, k, n, p).
          let (t, sl, d, r, f) = c in
          join (
            join_first (texts (t, (sl, (d, (r, (f, tt))))), skills_ok k),
            join_steps (steps_ok n, progress p),
          ),
    )
