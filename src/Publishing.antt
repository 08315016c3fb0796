-- ===== src/Publishing.antt =====
-- Publishing a revision (src/catalog/content-revisions/content-revisions.service.ts: publishRevision,
-- applyPlan). Here is the state that a plan is applied to, the writes with their errors, and the
-- application section by section. Prisma's errors other than P2025 (a unique or foreign key that is
-- violated) are shown as a 500. Foreign keys to skills, fields and sources are not modelled.
pub mod Steps
pub mod Apply
pub mod Publish
pub mod Untouched
pub mod Written
pub mod Passed
pub mod Done
pub mod Samples
mod Tests
use pathway_backend.Prelude.{
  ℕ, String, Bool, true, false, not, ◌&&◌, Option, none, some, List, [], ◌∷◌, ◌++◌, map, any,
  select, string_Eq, nat_Eq, ◌==◌, if◌then◌else◌,
}
use pathway_backend.Prelude.Dict.{Dict, get, new_dict}
use pathway_backend.Exceptions.{Exception, Result, ok, err, not_found, domain}
use pathway_backend.Database.{PrismaClient}
use pathway_backend.Snapshot.{
  CareerSnapshotCareer, CareerSnapshotOutlook, CareerSnapshotPathway, CareerSnapshotResource,
  CareerSnapshotSkill, CareerSnapshotStep, OutlookFields, LivePathway,
}
use pathway_backend.Plan.Types.{
  OperationKind, PlanSection, PlanOperation, Payload, create, update, move, delete, link, unlink,
  career, pathway, steps, step_skills, step_resources, skills, outlook, resources, absent, text,
  texts, number, section_code, a_pathway, live_pathway, a_skill, a_step, a_resource, an_outlook,
  outlook_fields,
}
use pathway_backend.Revisions.{Pathway}

-- What a plan writes: the rows of one career, all resources, and the resources that steps of other
-- careers link.
pub record Applied : Type 0 where
  pub content : CareerSnapshotCareer
  pub pathway : Option Pathway
  pub skills : List CareerSnapshotSkill
  pub outlook : List CareerSnapshotOutlook
  pub resources : List CareerSnapshotResource
  pub foreign_links : List String
  -- the ids of the outlook rows of other careers, which share the primary key
  pub foreign_outlook : List String

abbrev pub internal_error : Exception
internal_error = domain 500 "INTERNAL_SERVER_ERROR" "Internal server error"

abbrev pub record_not_found : Exception
record_not_found = not_found "Record not found"

abbrev kind_code : OperationKind → ℕ
kind_code create = 0
kind_code update = 1
kind_code move = 2
kind_code delete = 3
kind_code link = 4
kind_code unlink = 5

-- `by(section, kind)`
abbrev pub is_operation : PlanSection → OperationKind → PlanOperation → Bool
is_operation section kind op =
    section_code op.section == section_code section && kind_code op.kind == kind_code kind

abbrev pub operations_by : PlanSection → OperationKind → List PlanOperation → List PlanOperation
operations_by section kind = select (is_operation section kind)

unfoldable pub and_then : {A B : Type 0} → Result A → (A → Result B) → Result B
and_then (ok a) next = next a
and_then (err e) next = err e

-- A loop over operations with `await` in its body: the first error ends it.
unfoldable pub each :
    {S : Type 0} → (PlanOperation → S → Result S) → List PlanOperation → S → Result S
unfolding and_then
each f [] s = ok s
each f (op ∷ operations) s = and_then (f op s) (λ next. each f operations next)

-- `value!` and the casts of an operation's payload: the planner sets them.
unfoldable pub expect : {A B : Type 0} → Option A → (A → Result B) → Result B
expect none next = err internal_error
expect (some a) next = next a

-- A row that a write refers to, with the error for a missing one.
unfoldable pub with_row : {A B : Type 0} → Exception → Option A → (A → Result B) → Result B
with_row missing none next = err missing
with_row missing (some a) next = next a

abbrev pub resource_of : Payload → Option CareerSnapshotResource
resource_of (a_resource r) = some r
resource_of _ = none

abbrev pub step_of : Payload → Option CareerSnapshotStep
step_of (a_step s) = some s
step_of _ = none

abbrev pub skill_of : Payload → Option CareerSnapshotSkill
skill_of (a_skill s) = some s
skill_of _ = none

abbrev pub outlook_of : Payload → Option CareerSnapshotOutlook
outlook_of (an_outlook o) = some o
outlook_of _ = none

abbrev pub fields_of : Payload → Option OutlookFields
fields_of (outlook_fields f) = some f
fields_of _ = none

abbrev pub pathway_of : Payload → Option CareerSnapshotPathway
pathway_of (a_pathway p) = some p
pathway_of _ = none

abbrev pub text_of : Payload → Option (Option String)
text_of (text t) = some t
text_of _ = none

abbrev pub number_of : Payload → Option ℕ
number_of (number n) = some n
number_of _ = none

-- The ids that the database gives to rows created under an id of the draft.
abbrev pub created_ids : (String → String) → List PlanOperation → Dict String
created_ids new_id [] = []
created_ids new_id (op ∷ operations) =
    let rest = created_ids new_id operations in
    elim op.entity_id [ none ↦ rest | some id ↦ (id, new_id id) ∷ rest ]

-- `id && ids.get(id) ? ids.get(id) : id`
abbrev pub resolved : Dict String → String → String
resolved ids id = elim (get ids id) [ none ↦ id | some new ↦ new ]

module _ (db : PrismaClient) {Row : Type 0} where
  -- `update` and `delete` by a key, with P2025 for a missing row.
  unfoldable pub update_row : (Row → Bool) → (Row → Row) → List Row → Result (List Row)
  update_row p f rows = elim (db.update Row p f rows) [
    | none ↦ err record_not_found
    | some e ↦ ok e.1
  ]

  unfoldable pub delete_row : (Row → Bool) → List Row → Result (List Row)
  delete_row p rows =
      let (left, count) = db.delete_many Row p rows in
      if count == 0 then err record_not_found else ok left

  -- `create`, with P2002 for a row that has its key.
  unfoldable pub create_row : (Row → Bool) → Row → List Row → Result (List Row)
  create_row same_key row rows =
      let after = db.create Row row rows in
      if any same_key rows then err internal_error else ok after
