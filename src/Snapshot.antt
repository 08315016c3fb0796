-- ===== src/Snapshot.antt =====
-- The shape of a career draft and of a live career
-- (src/catalog/content-revisions/career-snapshot.types.ts). Enumeration members are the texts of
-- their names, dates are texts, and a live `Decimal` is the text that its `toString` gives.
pub mod TempId
pub mod Consistency
pub mod Samples
mod Tests
use pathway_backend.Prelude.{ℕ, String, Option, List}

pub record CareerSnapshotCareer : Type 0 where
  pub title : String
  pub slug : String
  pub description : String
  pub role_summary : Option String
  pub field_id : Option String
  pub target_levels : List String
  pub example_activities : List String
  pub typical_education_note : Option String
  pub certifications_note : Option String

-- The fields of an outlook row that the planner compares.
pub record OutlookFields : Type 0 where
  pub type : Option String
  pub geography : Option String
  pub period : Option String
  pub source_id : Option String
  pub median : Option String
  pub percentile25 : Option String
  pub percentile75 : Option String
  pub currency : Option String
  pub pay_period : Option String
  pub gross_or_net : Option String
  pub experience_level : Option String
  pub base_year : Option ℕ
  pub base_value : Option ℕ
  pub projected_year : Option ℕ
  pub projected_value : Option ℕ
  pub growth_percent : Option String
  pub demand_level : Option String

pub record CareerSnapshotOutlook : Type 0 where
  pub id : String
  pub fields : OutlookFields

pub record CareerSnapshotSkill : Type 0 where
  pub skill_id : String
  pub importance : String

pub record CareerSnapshotPathway : Type 0 where
  pub title : String
  pub description : Option String

-- The texts of a step that may be edited.
pub record StepTexts : Type 0 where
  pub title : String
  pub description : Option String
  pub learning_objective : String
  pub prerequisites : Option String
  pub expected_activity : String

pub record CareerSnapshotStep : Type 0 where
  pub id : String
  pub order : ℕ
  pub texts : StepTexts
  pub skill_ids : List String
  pub resource_ids : List String

-- The fields of a resource that the planner compares.
pub record ResourceFields : Type 0 where
  pub title : String
  pub description : Option String
  pub url : String
  pub type : String
  pub provider : String
  pub cost_status : String
  pub certification_cost : Option String
  pub curation_rationale : String

pub record CareerSnapshotResource : Type 0 where
  pub id : String
  pub fields : ResourceFields
  pub last_checked_date : String

pub record CareerSnapshot : Type 0 where
  pub career : CareerSnapshotCareer
  pub pathway : Option CareerSnapshotPathway
  pub steps : List CareerSnapshotStep
  pub skills : List CareerSnapshotSkill
  pub outlook : List CareerSnapshotOutlook
  pub resources : List CareerSnapshotResource

pub record LivePathway : Type 0 where
  pub id : String
  pub content : CareerSnapshotPathway

-- A live step, outlook row and resource have the fields of a draft's; the ids of a step's skills
-- and resources stand for the rows that link them.
pub record LiveCareerForPlan : Type 0 where
  pub id : String
  pub version : ℕ
  pub career : CareerSnapshotCareer
  pub skills : List CareerSnapshotSkill
  pub outlook : List CareerSnapshotOutlook
  pub pathway : Option LivePathway
  pub steps : List CareerSnapshotStep
  pub resources : List CareerSnapshotResource
