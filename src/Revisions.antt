-- ===== src/Revisions.antt =====
-- Content revisions (src/catalog/content-revisions/content-revisions.service.ts, revision.rules.ts,
-- src/catalog/careers/career-status.rules.ts, prisma/schema.prisma): the tables that the service
-- reads and writes, the rules, and the loading of what the planner needs. The time stamps of a
-- revision are not modelled.
pub mod Editing
pub mod Reviewing
pub mod Untouched
pub mod Failures
pub mod Ready
pub mod Fresh
pub mod Approval
pub mod Saved
pub mod Soundness
pub mod Allowed
pub mod Lifecycle
mod Tests
use pathway_backend.Prelude.{
  ℕ, String, Bool, true, false, not, ◌&&◌, ◌||◌, Option, none, some, List, [], ◌∷◌, map, any,
  concat_map, string_Eq, ◌==◌, if◌then◌else◌, leb_ℤ,
}
use pathway_backend.Prelude.Dict.{Dict}
use pathway_backend.Exceptions.{Exception, Result, ok, err}
use pathway_backend.Effects.{Effect}
use pathway_backend.Database.{PrismaClient}
use pathway_backend.Roles.{Role, admin, role_Eq}
use pathway_backend.Snapshot.{
  CareerSnapshot, CareerSnapshotCareer, CareerSnapshotOutlook, CareerSnapshotSkill,
  CareerSnapshotStep, CareerSnapshotPathway, CareerSnapshotResource, LiveCareerForPlan, LivePathway,
}
use pathway_backend.Plan.Types.{PlanBlocker}
use pathway_backend.Plan.Build.{is_revision_stale}

pub data RevisionStatus : Type 0 where
  draft in_review approved rejected published : RevisionStatus

pub data CareerStatus : Type 0 where
  unpublished live retired : CareerStatus

pub data ReviewDecision : Type 0 where
  approve reject : ReviewDecision

-- `DECISION_STATUS`
abbrev pub decision_status : ReviewDecision → RevisionStatus
decision_status approve = approved
decision_status reject = rejected

abbrev pub is_draft : RevisionStatus → Bool
is_draft draft = true
is_draft _ = false

abbrev pub is_approved : RevisionStatus → Bool
is_approved approved = true
is_approved _ = false

abbrev pub is_in_review : RevisionStatus → Bool
is_in_review in_review = true
is_in_review _ = false

abbrev pub is_approval : ReviewDecision → Bool
is_approval approve = true
is_approval reject = false

abbrev pub is_retired : CareerStatus → Bool
is_retired retired = true
is_retired _ = false

-- Only a live (PUBLISHED) career can be retired.
abbrev pub can_retire : CareerStatus → Bool
can_retire live = true
can_retire _ = false

pub record Pathway : Type 0 where
  pub pathway : LivePathway
  pub steps : List CareerSnapshotStep

-- A row of `Career` with what hangs on it.
pub record Career : Type 0 where
  pub id : String
  pub version : ℕ
  pub status : CareerStatus
  pub content : CareerSnapshotCareer
  pub skills : List CareerSnapshotSkill
  pub outlook : List CareerSnapshotOutlook
  pub pathway : Option Pathway
  pub published_at : Option ℕ
  pub published_by_id : Option String
  pub reviewed_at : Option ℕ
  pub reviewed_by_id : Option String

pub record ContentRevision : Type 0 where
  pub id : String
  pub career_id : String
  pub base_version : ℕ
  pub snapshot : CareerSnapshot
  pub status : RevisionStatus
  pub created_by_id : String

pub record Review : Type 0 where
  pub id : String
  pub revision_id : String
  pub reviewer_id : String
  pub decision : ReviewDecision
  pub note : Option String
  pub created_at : ℕ

pub record UserPathwayStep : Type 0 where
  pub pathway_step_id : String
  pub completed : Bool

pub record Tables : Type 0 where
  pub careers : List Career
  pub revisions : List ContentRevision
  pub reviews : List Review
  pub resources : List CareerSnapshotResource
  pub user_steps : List UserPathwayStep

pub record Actor : Type 0 where
  pub id : String
  pub role : Role

abbrev pub is_admin : Role → Bool
is_admin role = role == admin

-- Separation of duties: nobody reviews their own revision, except an admin.
abbrev pub is_self_review_blocked : String → Actor → Bool
is_self_review_blocked creator_id reviewer =
    creator_id == reviewer.id && not (is_admin reviewer.role)

abbrev pub is_creator_or_admin : String → Actor → Bool
is_creator_or_admin creator_id actor = creator_id == actor.id || is_admin actor.role

pub data Failure : Type 0 where
  revision_not_found career_not_found career_retired revision_in_review : Failure
  invalid_revision_state not_revision_creator self_review_not_allowed : Failure
  revision_stale revision_not_ready : Failure
  -- Prisma's error P2025: there is no row to update
  record_missing : Failure
  no_approving_review : Failure
  -- a blocker of the plan when it is published: lost progress, or another
  progress_lost plan_blocked : PlanBlocker → Failure
  -- an exception while the plan was applied
  not_applied : Exception → Failure

-- How the callback of `$transaction` ends: with a failure that it returns or an exception that it
-- throws, or with a value. A returned failure commits, so that it keeps what was written before it; an
-- exception leaves the tables that the transaction began with.
pub data Outcome (A : Type 0) : Type 0 where
  failed : Failure → Tables → Outcome A
  done : A → List Effect → Tables → Outcome A

module _ {A : Type 0} where
  -- `if (!value) return { failure }`, with the tables as they are there
  unfoldable pub found : {B : Type 0} → Tables → Option B → Failure → (B → Outcome A) → Outcome A
  found t none failure next = failed failure t
  found t (some b) failure next = next b

  -- `if (test) return { failure }`
  unfoldable pub refuse_if : Tables → Bool → Failure → Outcome A → Outcome A
  refuse_if t true failure next = failed failure t
  refuse_if t false failure next = next

  -- `if ('failure' in result) throw …`, after the transaction.
  abbrev pub finish : (Failure → Exception) → Outcome A → Result A × List Effect × Tables
  finish exception (failed failure after) = (err (exception failure), [], after)
  finish exception (done a effects after) = (ok a, effects, after)

module _ (db : PrismaClient) where
  abbrev pub find_revision : Tables → String → Option ContentRevision
  find_revision t id = db.find_unique ContentRevision (λ r. r.id == id) t.revisions

  abbrev pub find_career : Tables → String → Option Career
  find_career t id = db.find_unique Career (λ c. c.id == id) t.careers

  -- `tx.contentRevision.update({ where: { id }, data })`
  abbrev pub update_revision :
      Tables
      → String
      → (ContentRevision → ContentRevision)
      → (ContentRevision → Tables → Outcome ContentRevision)
      → Outcome ContentRevision
  update_revision t id change next =
      found t (db.update ContentRevision (λ r. r.id == id) change t.revisions) record_missing
        (λ e. next e.0 (record t { revisions = e.1 }))

  abbrev pub steps_of : Option Pathway → List CareerSnapshotStep
  steps_of none = []
  steps_of (some p) = p.steps

  abbrev pub live_pathway_of : Option Pathway → Option LivePathway
  live_pathway_of none = none
  live_pathway_of (some p) = some p.pathway

  abbrev resources_with : List String → List CareerSnapshotResource → List CareerSnapshotResource
  resources_with [] rows = []
  resources_with (id ∷ ids) rows =
      db.find_many CareerSnapshotResource (λ r. any (λ i. i == r.id) (id ∷ ids)) rows

  -- `loadLiveCareerForPlan`, on the career that it finds
  unfoldable pub live_career : Tables → Career → LiveCareerForPlan
  live_career t career =
      let steps = steps_of career.pathway in
      record {
        id = career.id;
        version = career.version;
        career = career.content;
        skills = career.skills;
        outlook = career.outlook;
        pathway = live_pathway_of career.pathway;
        steps = steps;
        resources =
            resources_with (concat_map (λ (s : CareerSnapshotStep). s.resource_ids) steps)
              t.resources;
      }

  -- `loadStepLearnerCountsTx`: how many learners completed each step. The rows of a `groupBy` on an
  -- id are counted one id at a time.
  unfoldable pub step_learner_counts : Tables → List CareerSnapshotStep → Dict ℕ
  step_learner_counts t steps =
      map
        (λ (s : CareerSnapshotStep). (
          s.id,
          db.count UserPathwayStep
              (λ (u : UserPathwayStep). (u.pathway_step_id == s.id) && u.completed) t.user_steps,
        ))
        steps
