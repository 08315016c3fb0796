-- ===== src/Learning.antt =====
-- A learner's saved careers and the steps of their pathways
-- (src/catalog/pathways/pathways.service.ts, src/catalog/pathway-steps/pathway-steps.service.ts,
-- prisma/schema.prisma): the tables, and the reads that both services make. A row of a career holds
-- what the services select of it. Time stamps other than a step's completion are not modelled.
pub mod Pathways
pub mod Steps
pub mod Activated
pub mod Active
pub mod StepRows
pub mod Status
pub mod Tracking
pub mod Start
pub mod Lifecycle
pub mod Saved
mod Tests
use pathway_backend.Prelude.{
  ℕ, String, Bool, true, false, not, ◌&&◌, ◌||◌, Option, none, some, List, map, any, string_Eq,
  ◌==◌, sort_by,
}
use pathway_backend.Database.{PrismaClient}
use pathway_backend.Revisions.{CareerStatus, live, retired, is_retired}
use pathway_backend.Progress.{
  StepStatus, StepForProgress, UserStepProgress, ProgressSummary, Floats, compute_progress,
  find_step_order,
}

pub record Skill : Type 0 where
  pub id : String
  pub name : String

pub record Career : Type 0 where
  pub id : String
  pub slug : String
  pub title : String
  pub role_summary : Option String
  pub status : CareerStatus

pub record Pathway : Type 0 where
  pub id : String
  pub career_id : String
  pub title : String
  pub description : Option String

-- What a learner sees of a resource; a cost is its text, `Decimal.toString()`.
pub record ResourceDetail : Type 0 where
  pub id : String
  pub title : String
  pub description : Option String
  pub url : String
  pub kind : String
  pub provider : Option String
  pub cost_status : String
  pub certification_cost : Option String
  pub curation_rationale : Option String
  pub last_checked_date : Option ℕ
  pub skills : List Skill

-- `is_active` is `status: ResourceStatus.ACTIVE`.
pub record StepResource : Type 0 where
  pub detail : ResourceDetail
  pub is_active : Bool

pub record PathwayStep : Type 0 where
  pub id : String
  pub pathway_id : String
  pub title : String
  pub description : Option String
  pub learning_objective : String
  pub prerequisites : Option String
  pub expected_activity : String
  pub order : ℕ
  pub skills : List Skill
  pub resources : List StepResource

pub record UserPathway : Type 0 where
  pub id : String
  pub user_id : String
  pub career_id : String
  pub is_active : Bool
  pub start_step_id : Option String

pub record UserPathwayStep : Type 0 where
  pub user_id : String
  pub pathway_step_id : String
  pub status : StepStatus
  pub completed_at : Option ℕ

pub record Tables : Type 0 where
  pub careers : List Career
  pub pathways : List Pathway
  pub steps : List PathwayStep
  pub user_pathways : List UserPathway
  pub user_steps : List UserPathwayStep

pub record ActivePathwayProgress : Type 0 where
  pub summary : ProgressSummary
  pub start_step_id : Option String

-- `status: CareerStatus.PUBLISHED`
abbrev pub is_published : CareerStatus → Bool
is_published live = true
is_published _ = false

-- `status: { in: [PUBLISHED, RETIRED] }`
abbrev pub is_published_or_retired : CareerStatus → Bool
is_published_or_retired status = is_published status || is_retired status

abbrev pub of_user : String → UserPathway → Bool
of_user user_id u = u.user_id == user_id

-- `userId_careerId: { userId, careerId }`
abbrev pub has_key : String → String → UserPathway → Bool
has_key user_id career_id u = u.user_id == user_id && u.career_id == career_id

-- A filter on the career of a row: a career with this id passes the test.
abbrev pub career_passes : Tables → (Career → Bool) → String → Bool
career_passes t test career_id = any (λ (c : Career). c.id == career_id && test c) t.careers

abbrev pub for_progress : PathwayStep → StepForProgress
for_progress s = record { id = s.id; order = s.order }

abbrev pub step_progress : UserPathwayStep → UserStepProgress
step_progress u = record { pathway_step_id = u.pathway_step_id; status = u.status }

-- `{ userId, pathwayStep: { pathwayId } }`
abbrev pub on_pathway : Tables → String → String → UserPathwayStep → Bool
on_pathway t user_id pathway_id u =
    u.user_id == user_id
    && any (λ (s : PathwayStep). s.id == u.pathway_step_id && s.pathway_id == pathway_id) t.steps

module _ (db : PrismaClient) where
  -- `orderBy: { order: 'asc' }`
  abbrev pub ordered_steps : Tables → String → List PathwayStep
  ordered_steps t pathway_id =
      sort_by (λ s. s.order) (db.find_many PathwayStep (λ s. s.pathway_id == pathway_id) t.steps)

  abbrev pub user_steps_on : Tables → String → String → List UserStepProgress
  user_steps_on t user_id pathway_id =
      map step_progress
        (db.find_many UserPathwayStep (on_pathway t user_id pathway_id) t.user_steps)

  abbrev pub pathway_of_career : Tables → String → Option Pathway
  pathway_of_career t career_id = db.find_unique Pathway (λ p. p.career_id == career_id) t.pathways

module _ (fl : Floats) where
  -- `computeProgress(steps, userSteps, findStepOrder(steps, startStepId))`
  abbrev pub progress_from :
      List StepForProgress → List UserStepProgress → Option String → ActivePathwayProgress
  progress_from steps user_steps start_step_id = record {
    summary = compute_progress fl steps user_steps (find_step_order steps start_step_id);
    start_step_id = start_step_id;
  }

module _ (fl : Floats) (db : PrismaClient) where
  unfoldable pub get_pathway_progress :
      Tables → (user_id pathway_id : String) → Option String → ActivePathwayProgress
  get_pathway_progress t user_id pathway_id start_step_id =
      progress_from fl
        (map for_progress (db.find_many PathwayStep (λ s. s.pathway_id == pathway_id) t.steps))
        (user_steps_on db t user_id pathway_id) start_step_id
