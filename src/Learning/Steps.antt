-- ===== src/Learning/Steps.antt =====
-- The status of a step (src/catalog/pathway-steps/pathway-steps.service.ts: setStepStatus,
-- writeStepStatus, getPathwayStepById). The event's properties are not modelled.
use pathway_backend.Prelude.{
  ℕ, String, Bool, true, false, not, ◌&&◌, ◌||◌, Option, none, some, List, [], ◌∷◌, map, any, ltb,
  string_Eq, ◌==◌, if◌then◌else◌,
}
use pathway_backend.Exceptions.{not_found, conflict}
use pathway_backend.Effects.{capture}
use pathway_backend.Handlers.{Reply, returns, or_throw}
use pathway_backend.Database.{PrismaClient}
use pathway_backend.Revisions.{is_retired}
use pathway_backend.Progress.{StepStatus, completed, not_started, Floats, status_Eq}
use pathway_backend.Learning.{
  Career, Pathway, PathwayStep, UserPathway, UserPathwayStep, Skill, ResourceDetail, StepResource,
  Tables, ActivePathwayProgress, is_published, has_key, career_passes, get_pathway_progress,
}

pub record StepStatusResponse : Type 0 where
  pub step_id : String
  pub status : StepStatus
  pub progress : ActivePathwayProgress

pub record PathwayStepDetail : Type 0 where
  pub id : String
  pub pathway_id : String
  pub career_id : String
  pub title : String
  pub description : Option String
  pub learning_objective : String
  pub prerequisites : Option String
  pub expected_activity : String
  pub order : ℕ
  pub skills : List Skill
  pub resources : List ResourceDetail

-- `status === COMPLETED ? new Date() : null`
abbrev pub completion_time : StepStatus → ℕ → Option ℕ
completion_time completed now = some now
completion_time _ now = none

-- `userId_pathwayStepId`
abbrev pub is_step_of : String → String → UserPathwayStep → Bool
is_step_of user_id step_id u = u.user_id == user_id && u.pathway_step_id == step_id

-- `{ userId, pathwayStepId, status: { not: status } }`
abbrev pub differs : String → String → StepStatus → UserPathwayStep → Bool
differs user_id step_id status u = is_step_of user_id step_id u && not (u.status == status)

abbrev pub with_status : StepStatus → ℕ → UserPathwayStep → UserPathwayStep
with_status status now u = record u { status = status; completed_at = completion_time status now }

abbrev pub step_row : String → String → StepStatus → ℕ → UserPathwayStep
step_row user_id step_id status now = record {
  user_id = user_id;
  pathway_step_id = step_id;
  status = status;
  completed_at = completion_time status now;
}

-- A published career's steps are everyone's, a retired one's those of the learners who saved it.
abbrev pub may_track : Tables → String → Career → Bool
may_track t user_id c =
    is_published c.status || (is_retired c.status && any (has_key user_id c.id) t.user_pathways)

-- A filter on the career of a step's pathway.
abbrev pub step_passes : Tables → (Career → Bool) → PathwayStep → Bool
step_passes t test s =
    any (λ (p : Pathway). p.id == s.pathway_id && career_passes t test p.career_id) t.pathways

module _ (db : PrismaClient) where
  -- Conditional writes, so that only a real change returns true.
  unfoldable pub write_step_status :
      (user_id step_id : String)
      → StepStatus
      → (now : ℕ) → List UserPathwayStep
      → Bool × List UserPathwayStep
  write_step_status user_id step_id status now rows =
      let (changed_rows, changed) =
        db.update_many UserPathwayStep (differs user_id step_id status) (with_status status now)
          rows in
      let (created_rows, created) =
        db.create_many UserPathwayStep (is_step_of user_id step_id)
          (step_row user_id step_id status now) changed_rows in
      if ltb 0 changed
      then (true, changed_rows)
      else (if status == not_started then (false, changed_rows) else (ltb 0 created, created_rows))

  -- The step's pathway, a required relation.
  abbrev pub pathway_with_id : Tables → String → Option Pathway
  pathway_with_id t id = db.find_unique Pathway (λ p. p.id == id) t.pathways

  module _ (fl : Floats) where
    -- The writing and the answer, once the learner's saved career is found.
    unfoldable pub status_written :
        (user_id step_id : String)
        → (pathway_id : String) → StepStatus
        → (now : ℕ) → Tables
        → UserPathway
        → Reply Tables StepStatusResponse
    status_written user_id step_id pathway_id status now t saved =
        let (changed, rows) = write_step_status user_id step_id status now t.user_steps in
        let after : Tables = record t { user_steps = rows } in
        returns
          (record {
            step_id = step_id;
            status = status;
            progress = get_pathway_progress fl db after user_id pathway_id saved.start_step_id;
          })
          (if changed then capture "step_completion_changed" user_id ∷ [] else []) after

    unfoldable pub set_step_status :
        (user_id step_id : String)
        → StepStatus
        → (now : ℕ) → Tables
        → Reply Tables StepStatusResponse
    set_step_status user_id step_id status now t =
        or_throw
          (db.find_first PathwayStep (λ s. s.id == step_id && step_passes t (may_track t user_id) s)
            (λ _. 0) t.steps)
          (not_found "Step not found") t
          (λ step.
            or_throw (pathway_with_id t step.pathway_id) (not_found "Step not found") t (λ pathway.
              or_throw
                (db.find_unique UserPathway (has_key user_id pathway.career_id) t.user_pathways)
                (conflict "Save this career before tracking its steps") t
                (λ saved. status_written user_id step_id step.pathway_id status now t saved)))

  unfoldable pub get_pathway_step_by_id :
      (step_id : String) → Tables → Reply Tables PathwayStepDetail
  get_pathway_step_by_id step_id t =
      or_throw
        (db.find_first PathwayStep
          (λ s. s.id == step_id && step_passes t (λ c. is_published c.status) s) (λ _. 0) t.steps)
        (not_found "Pathway step not found") t
        (λ step.
          or_throw (pathway_with_id t step.pathway_id) (not_found "Pathway step not found") t
            (λ pathway.
              returns
                (record {
                  id = step.id;
                  pathway_id = step.pathway_id;
                  career_id = pathway.career_id;
                  title = step.title;
                  description = step.description;
                  learning_objective = step.learning_objective;
                  prerequisites = step.prerequisites;
                  expected_activity = step.expected_activity;
                  order = step.order;
                  skills = step.skills;
                  resources =
                      map (λ (r : StepResource). r.detail)
                        (db.find_many StepResource (λ r. r.is_active) step.resources);
                })
                [] t))
