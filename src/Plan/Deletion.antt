-- ===== src/Plan/Deletion.antt =====
-- Which steps a plan deletes.
use pathway_backend.Prelude.{
  ℕ, String, Bool, true, false, Option, none, some, List, [], ◌∷◌, All, All-append, All-map,
  All-self, map, Memᴰ, All-Memᴰ, ◌≡◌, ◌≢◌, ◌⊎◌, inl, inr, refl, sym, arith, concat_map, is_some,
  if◌then◌else◌, ◌==◌, string_Eq, nat_Eq, ltb, Bool-cases,
}
use pathway_backend.Prelude.Dict.{Dict, get, All-new_dict}
use pathway_backend.Prelude.Equality.{option_Eq}
use pathway_backend.Snapshot.{CareerSnapshot, CareerSnapshotStep, LiveCareerForPlan}
use pathway_backend.Snapshot.TempId.{is_temp_id}
use pathway_backend.Plan.Types.{
  OperationKind, PlanSection, PlanOperation, delete, link, unlink, steps, step_skills,
  step_resources,
}
use pathway_backend.Plan.Steps.{
  plan_steps, step_operation, step_text, step_texts, step_move, plan_step_links, link_operation,
  links_unless, id_set, step_deletion, step_creation, step_dict, kept_steps, affected_learners,
}
use pathway_backend.Plan.Ready.{keeps_step, is_some-get-kept_steps}

abbrev pub IsLiveStep : LiveCareerForPlan → String → Type 0
IsLiveStep live id = (l : CareerSnapshotStep) × Memᴰ l live.steps × (l.id ≡ id)

-- The operation does not delete, or it deletes a live step that the draft leaves out and for which no
-- learner is counted.
pub IsSafe : LiveCareerForPlan → CareerSnapshot → Dict ℕ → PlanOperation → Type 0
IsSafe live snapshot learners op =
    (op.kind ≢ delete)
    ⊎ ((id : String) × (op.section ≡ steps)
        × (op.entity_id ≡ some id)
        × IsLiveStep live id
        × (keeps_step snapshot id ≡ false)
        × (affected_learners learners id ≡ 0))

All-concat_map :
    {A : Type 0} {B : Type 0} (P : B → Type 0) (f : A → List B) (xs : List A)
    → ((x : A) → All P (f x))
    → All P (concat_map f xs)
All-concat_map P f [] h = tt
All-concat_map P f (x ∷ xs) h = All-append P (f x) (concat_map f xs) (h x) (All-concat_map P f xs h)

All-else : {B : Type 0} (P : B → Type 0) (b : Bool) (x : B) → P x → All P (if b then [] else x ∷ [])
All-else P true x h = tt
All-else P false x h = (h, tt)

concat_map-All :
    {A : Type 0} {B : Type 0} (P : B → Type 0) (f : A → List B) (xs : List A)
    → All (λ x. All P (f x)) xs
    → All P (concat_map f xs)
concat_map-All P f [] h = tt
concat_map-All P f (x ∷ xs) (k, h) =
    All-append P (f x) (concat_map f xs) k (concat_map-All P f xs h)

All-of-map :
    {A B : Type 0} (P : B → Type 0) (f : A → B) (xs : List A)
    → All (λ x. P (f x)) xs
    → All P (map f xs)
All-of-map P f [] h = tt
All-of-map P f (x ∷ xs) (k, h) = (k, All-of-map P f xs h)

-- The keys of the live steps are the ids of live steps.
live_keys :
    (live : LiveCareerForPlan)
    → All (λ (e : String × CareerSnapshotStep). IsLiveStep live e.0) (step_dict live.steps)
live_keys live =
    let entry : CareerSnapshotStep → String × CareerSnapshotStep = λ s. (s.id, s) in
    (All-new_dict (IsLiveStep live) (map entry live.steps)).1 (
      All-of-map (λ e. IsLiveStep live e.0) entry live.steps
        (All-map _ live.steps (λ s m. (s, m, refl)) (All-self live.steps)))

module _ (live : LiveCareerForPlan) (snapshot : CareerSnapshot) (learners : Dict ℕ) where
  abbrev Safe : PlanOperation → Type 0
  Safe = IsSafe live snapshot learners

  step_text-Safe :
      (id field : String) (before after : Option String)
      → All Safe (step_text id field before after)
  unfolding IsSafe
  step_text-Safe id field before after = elim (Bool-cases (before == after)) [
    | inl e ↦ rw e tt
    | inr e ↦ rw e (inl (ground arith), tt)
  ]

  step_texts-Safe : (id : String) (l s : CareerSnapshotStep) → All Safe (step_texts id l s)
  unfolding step_texts
  step_texts-Safe id l s =
      let a = step_text-Safe id "title" (some l.texts.title) (some s.texts.title) in
      let b = step_text-Safe id "description" l.texts.description s.texts.description in
      let c =
        step_text-Safe id "learningObjective" (some l.texts.learning_objective)
          (some s.texts.learning_objective) in
      let d = step_text-Safe id "prerequisites" l.texts.prerequisites s.texts.prerequisites in
      let e =
        step_text-Safe id "expectedActivity" (some l.texts.expected_activity)
          (some s.texts.expected_activity) in
      All-append Safe _ _ (All-append Safe _ _ (All-append Safe _ _ (All-append Safe _ _ a b) c) d)
        e

  step_move-Safe : (id : String) (l s : CareerSnapshotStep) → All Safe (step_move id l s)
  unfolding step_move IsSafe
  step_move-Safe id l s = elim (Bool-cases (l.order == s.order)) [
    | inl e ↦ rw e tt
    | inr e ↦ rw e (inl (ground arith), tt)
  ]

  links-Safe :
      (k : OperationKind) (section : PlanSection) (id : String) (other ids : Dict String)
      → k ≢ delete
      → All Safe (links_unless k section id other ids)
  unfolding links_unless IsSafe
  links-Safe k section id other ids h =
      All-concat_map Safe
        (λ (e : String × String).
          if is_some (get other e.0) then [] else link_operation k section id e.0 ∷ [])
        ids
        (λ (e : String × String).
          All-else Safe (is_some (get other e.0)) (link_operation k section id e.0) (inl h))

  step_links-Safe :
      (id : String) (skills resources : List String) (s : CareerSnapshotStep)
      → All Safe (plan_step_links id skills resources s)
  unfolding plan_step_links
  step_links-Safe id skills resources s =
      let a = links-Safe link step_skills id (id_set skills) (id_set s.skill_ids) (ground arith) in
      let b =
        links-Safe unlink step_skills id (id_set s.skill_ids) (id_set skills) (ground arith) in
      let c =
        links-Safe link step_resources id (id_set resources) (id_set s.resource_ids)
          (ground arith) in
      let d =
        links-Safe unlink step_resources id (id_set s.resource_ids) (id_set resources)
          (ground arith) in
      All-append Safe _ _ (All-append Safe _ _ (All-append Safe _ _ a b) c) d

  step_operation-Safe :
      (id : String) (o : Option CareerSnapshotStep) (s : CareerSnapshotStep)
      → All Safe (step_operation id o s)
  unfolding step_operation IsSafe
  step_operation-Safe id none s = (inl (ground arith), tt)
  step_operation-Safe id (some l) s =
      let a = step_texts-Safe id l s in
      let b = step_move-Safe id l s in
      let c = step_links-Safe id l.skill_ids l.resource_ids s in
      All-append Safe _ _ (All-append Safe _ _ a b) c

  step_creation-Safe : (s : CareerSnapshotStep) → All Safe (step_creation s)
  unfolding step_creation IsSafe
  step_creation-Safe s = elim (Bool-cases (is_temp_id s.id)) [
    | inl e ↦ rw e (inl (ground arith), step_links-Safe s.id [] [] s)
    | inr e ↦ rw e tt
  ]

  step_deletion-Safe :
      (o : Option CareerSnapshotStep) (id : String) (l : CareerSnapshotStep)
      → is_some o ≡ keeps_step snapshot id
      → IsLiveStep live id
      → All Safe (step_deletion learners o id l)
  unfolding step_deletion IsSafe
  step_deletion-Safe (some s) id l k there = tt
  step_deletion-Safe none id l k there = elim (Bool-cases (ltb 0 (affected_learners learners id))) [
    | inl e ↦ rw e tt
    | inr e ↦ rw e (inr (id, refl, refl, there, sym k, ground arith), tt)
  ]

  plan_steps-Safe : All Safe (plan_steps live snapshot learners)
  unfolding plan_steps
  plan_steps-Safe =
      let live_by_id = step_dict live.steps in
      let snap_by_id = step_dict (kept_steps snapshot.steps) in
      let a =
        All-concat_map Safe
          (λ (e : String × CareerSnapshotStep). step_operation e.0 (get live_by_id e.0) e.1)
          snap_by_id
          (λ (e : String × CareerSnapshotStep). step_operation-Safe e.0 (get live_by_id e.0) e.1) in
      let b =
        concat_map-All Safe
          (λ (e : String × CareerSnapshotStep). step_deletion learners (get snap_by_id e.0) e.0 e.1)
          live_by_id
          (All-map _ live_by_id
            (λ (e : String × CareerSnapshotStep) there.
              step_deletion-Safe (get snap_by_id e.0) e.0 e.1 (is_some-get-kept_steps snapshot e.0)
                there)
            (live_keys live)) in
      let c = All-concat_map Safe step_creation snapshot.steps step_creation-Safe in
      All-append Safe _ _ (All-append Safe _ _ a b) c

-- When the step planner deletes, the operation is of the section of steps and names a live step that the
-- draft leaves out and for which the counts that the planner is given have no learner.
pub plan_steps-deletes :
    (live : LiveCareerForPlan) (snapshot : CareerSnapshot) (learners : Dict ℕ) (op : PlanOperation)
    → Memᴰ op (plan_steps live snapshot learners)
    → op.kind ≡ delete
    → (id : String) × (op.section ≡ steps)
      × (op.entity_id ≡ some id)
      × ((l : CareerSnapshotStep) × Memᴰ l live.steps × (l.id ≡ id))
      × (keeps_step snapshot id ≡ false)
      × (affected_learners learners id ≡ 0)
unfolding IsSafe
plan_steps-deletes live snapshot learners op m e =
    elim (All-Memᴰ _ (plan_steps live snapshot learners) (plan_steps-Safe live snapshot learners)
      m) [ inl h ↦ elim (h e) [ ] | inr s ↦ s ]
