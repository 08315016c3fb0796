-- ===== src/Plan/Steps.antt =====
-- The steps of a plan and their links (src/catalog/content-revisions/career-snapshot.plan.ts). A step
-- that is left out of the draft is deleted, or blocks the plan when learners have progress on it. A
-- `Set` of ids is the dictionary of its pairs (`Set.entries`).
use pathway_backend.Prelude.{
  ℕ, String, not, Option, none, some, List, [], ◌∷◌, ◌++◌, map, select, ◌==◌, ltb, is_some,
  string_Eq, nat_Eq, if◌then◌else◌, concat_map,
}
use pathway_backend.Prelude.Dict.{Dict, get, new_dict}
use pathway_backend.Prelude.Equality.{option_Eq}
use pathway_backend.Snapshot.{CareerSnapshot, CareerSnapshotStep, LiveCareerForPlan}
use pathway_backend.Snapshot.TempId.{is_temp_id}
use pathway_backend.Plan.Types.{
  OperationKind, PlanSection, PlanOperation, PlanBlocker, create, update, move, delete, link,
  unlink, steps, step_skills, step_resources, absent, text, number, a_step, no_pathway_steps,
  step_has_progress,
}
use pathway_backend.Plan.Resources.{entity_operation}

abbrev pub step_text : String → String → Option String → Option String → List PlanOperation
step_text id field before after =
    if before == after
    then []
    else record {
      kind = update;
      section = steps;
      entity_id = some id;
      parent_id = none;
      field = some field;
      before = text before;
      after = text after;
    }
      ∷ []

unfoldable pub step_texts : String → CareerSnapshotStep → CareerSnapshotStep → List PlanOperation
step_texts id l snap =
    step_text id "title" (some l.texts.title) (some snap.texts.title)
    ++ step_text id "description" l.texts.description snap.texts.description
    ++ step_text id "learningObjective" (some l.texts.learning_objective)
        (some snap.texts.learning_objective)
    ++ step_text id "prerequisites" l.texts.prerequisites snap.texts.prerequisites
    ++ step_text id "expectedActivity" (some l.texts.expected_activity)
        (some snap.texts.expected_activity)

unfoldable pub step_move : String → CareerSnapshotStep → CareerSnapshotStep → List PlanOperation
step_move id l snap =
    if l.order == snap.order
    then []
    else entity_operation move steps id (number l.order) (number snap.order) ∷ []

-- `new Set(ids)`
abbrev pub id_set : List String → Dict String
id_set ids = new_dict (map (λ (id : String). (id, id)) ids)

abbrev pub link_operation : OperationKind → PlanSection → String → String → PlanOperation
link_operation kind section parent_id entity_id = record {
  kind = kind;
  section = section;
  entity_id = some entity_id;
  parent_id = some parent_id;
  field = none;
  before = absent;
  after = absent;
}

-- One operation for each id that the set `other` does not have.
unfoldable pub links_unless :
    OperationKind → PlanSection → String → Dict String → Dict String → List PlanOperation
links_unless kind section step_id other ids =
    concat_map
      (λ (e : String × String).
        if is_some (get other e.0) then [] else link_operation kind section step_id e.0 ∷ [])
      ids

unfoldable pub plan_step_links :
    String → List String → List String → CareerSnapshotStep → List PlanOperation
plan_step_links step_id live_skills live_resources snap_step =
    let live_skill_ids = id_set live_skills in
    let snap_skill_ids = id_set snap_step.skill_ids in
    let live_resource_ids = id_set live_resources in
    let snap_resource_ids = id_set snap_step.resource_ids in
    links_unless link step_skills step_id live_skill_ids snap_skill_ids
    ++ links_unless unlink step_skills step_id snap_skill_ids live_skill_ids
    ++ links_unless link step_resources step_id live_resource_ids snap_resource_ids
    ++ links_unless unlink step_resources step_id snap_resource_ids live_resource_ids

-- `new Map(steps.map((s) => [s.id, s]))`
abbrev pub step_dict : List CareerSnapshotStep → Dict CareerSnapshotStep
step_dict list = new_dict (map (λ (s : CareerSnapshotStep). (s.id, s)) list)

abbrev pub kept_steps : List CareerSnapshotStep → List CareerSnapshotStep
kept_steps = select (λ (s : CareerSnapshotStep). not (is_temp_id s.id))

unfoldable pub step_operation :
    String → Option CareerSnapshotStep → CareerSnapshotStep → List PlanOperation
step_operation id none snap = entity_operation create steps id absent (a_step snap) ∷ []
step_operation id (some l) snap =
    step_texts id l snap
    ++ step_move id l snap
    ++ plan_step_links id l.skill_ids l.resource_ids snap

-- `learners[id] ?? 0`
unfoldable pub affected_learners : Dict ℕ → String → ℕ
affected_learners learners id = elim (get learners id) [ none ↦ 0 | some n ↦ n ]

unfoldable pub step_deletion :
    Dict ℕ → Option CareerSnapshotStep → String → CareerSnapshotStep → List PlanOperation
step_deletion learners (some _) id l = []
step_deletion learners none id l =
    if ltb 0 (affected_learners learners id)
    then []
    else entity_operation delete steps id (a_step l) absent ∷ []

unfoldable pub progress_blocker :
    Dict ℕ → Option CareerSnapshotStep → String → CareerSnapshotStep → List PlanBlocker
progress_blocker learners (some _) id l = []
progress_blocker learners none id l =
    if ltb 0 (affected_learners learners id)
    then record {
      code = step_has_progress;
      field = none;
      section = steps;
      entity_id = some id;
      entity_title = some l.texts.title;
      learners_affected = some (affected_learners learners id);
    }
      ∷ []
    else []

unfoldable pub step_creation : CareerSnapshotStep → List PlanOperation
step_creation snap =
    if is_temp_id snap.id
    then entity_operation create steps snap.id absent (a_step snap)
      ∷ plan_step_links snap.id [] [] snap
    else []

-- The operations that `planSteps` pushes.
unfoldable pub plan_steps : LiveCareerForPlan → CareerSnapshot → Dict ℕ → List PlanOperation
plan_steps live snapshot learners =
    let live_by_id = step_dict live.steps in
    let snap_by_id = step_dict (kept_steps snapshot.steps) in
    concat_map (λ (e : String × CareerSnapshotStep). step_operation e.0 (get live_by_id e.0) e.1)
      snap_by_id
    ++ concat_map
        (λ (e : String × CareerSnapshotStep). step_deletion learners (get snap_by_id e.0) e.0 e.1)
        live_by_id
    ++ concat_map step_creation snapshot.steps

unfoldable pub no_steps_blockers : List CareerSnapshotStep → List PlanBlocker
no_steps_blockers [] =
    record {
      code = no_pathway_steps;
      field = none;
      section = steps;
      entity_id = none;
      entity_title = none;
      learners_affected = none;
    }
    ∷ []
no_steps_blockers (s ∷ list) = []

-- The blockers that `planSteps` pushes.
unfoldable pub step_blockers : LiveCareerForPlan → CareerSnapshot → Dict ℕ → List PlanBlocker
step_blockers live snapshot learners =
    let live_by_id = step_dict live.steps in
    let snap_by_id = step_dict (kept_steps snapshot.steps) in
    no_steps_blockers snapshot.steps
    ++ concat_map
        (λ (e : String × CareerSnapshotStep).
          progress_blocker learners (get snap_by_id e.0) e.0 e.1)
        live_by_id
