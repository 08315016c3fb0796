-- ===== src/Plan/Types.antt =====
-- Plans: operations, blockers and counts
-- (src/catalog/content-revisions/career-snapshot.types.ts). The untyped `before` and `after` of an
-- operation are a value of `Payload`.
use pathway_backend.Prelude.{ℕ, String, Bool, Option, List}
use pathway_backend.Snapshot.{
  CareerSnapshotOutlook, CareerSnapshotSkill, CareerSnapshotPathway, CareerSnapshotStep,
  CareerSnapshotResource, OutlookFields, LivePathway,
}

pub data OperationKind : Type 0 where
  create update move delete link unlink : OperationKind

pub data PlanSection : Type 0 where
  career pathway steps step_skills step_resources skills outlook resources : PlanSection

-- The place of a section, to compare two.
abbrev pub section_code : PlanSection → ℕ
section_code career = 0
section_code pathway = 1
section_code steps = 2
section_code step_skills = 3
section_code step_resources = 4
section_code skills = 5
section_code outlook = 6
section_code resources = 7

pub data Payload : Type 0 where
  absent : Payload
  text : Option String → Payload
  texts : List String → Payload
  number : ℕ → Payload
  a_pathway : CareerSnapshotPathway → Payload
  live_pathway : LivePathway → Payload
  a_skill : CareerSnapshotSkill → Payload
  a_step : CareerSnapshotStep → Payload
  a_resource : CareerSnapshotResource → Payload
  an_outlook : CareerSnapshotOutlook → Payload
  outlook_fields : OutlookFields → Payload

pub record PlanOperation : Type 0 where
  pub kind : OperationKind
  pub section : PlanSection
  pub entity_id : Option String
  pub parent_id : Option String
  pub field : Option String
  pub before : Payload
  pub after : Payload

pub data BlockerCode : Type 0 where
  missing_career_field no_skills no_pathway_steps step_has_progress : BlockerCode

-- The message is a text made from the other fields, and the name of a missing field.
pub record PlanBlocker : Type 0 where
  pub code : BlockerCode
  pub field : Option String
  pub section : PlanSection
  pub entity_id : Option String
  pub entity_title : Option String
  pub learners_affected : Option ℕ

pub record PlanCounts : Type 0 where
  pub added : ℕ
  pub changed : ℕ
  pub moved : ℕ
  pub removed : ℕ
  pub blockers : ℕ

pub record CareerPlan : Type 0 where
  pub base_version : ℕ
  pub live_version : ℕ
  pub stale : Bool
  pub operations : List PlanOperation
  pub blockers : List PlanBlocker
  pub counts : PlanCounts
