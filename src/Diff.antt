-- ===== src/Diff.antt =====
-- The display of a plan for a reviewer
-- (src/catalog/content-revisions/reviewer-diff.formatter.ts). The names of sources are rows of a
-- table; a number in decimal is an argument.
pub mod Sections
pub mod Grouped
pub mod Service
pub mod Shown
mod Tests
use pathway_backend.Prelude.{
  ℕ, ◌+◌, ◌/◌, ◌-◌, String, Bool, true, false, not, ◌&&◌, ◌||◌, Option, none, some, List, [], ◌∷◌,
  ◌++◌, map, select, string_Eq, nat_Eq, ◌==◌, if◌then◌else◌,
}
use pathway_backend.Prelude.Dict.{Dict, get}
use pathway_backend.Plan.Types.{
  OperationKind, PlanSection, PlanOperation, Payload, section_code, create, update, move, delete,
  link, unlink, absent, text, texts, number, a_pathway, live_pathway, a_skill, a_step, a_resource,
  an_outlook, outlook_fields,
}

pub record FieldChange : Type 0 where
  pub field : Option String
  pub label : Option String
  pub before : Payload
  pub after : Payload
  pub before_label : Option String
  pub after_label : Option String

pub record StepChange : Type 0 where
  pub id : Option String
  pub title : String

pub record MovedStep : Type 0 where
  pub id : Option String
  pub title : String
  pub from_order : Payload
  pub to_order : Payload

pub record SectionChanges : Type 0 where
  pub section : PlanSection
  pub changed : List FieldChange
  pub added : List StepChange
  pub removed : List StepChange
  pub moved : List MovedStep

abbrev pub field_labels : Dict String
field_labels =
    ("title", "Title")
    ∷ ("slug", "Slug")
    ∷ ("description", "Description")
    ∷ ("roleSummary", "Role Summary")
    ∷ ("fieldId", "Category")
    ∷ ("typicalEducationNote", "Typical Education")
    ∷ ("certificationsNote", "Certifications")
    ∷ ("targetLevels", "Target Levels")
    ∷ ("exampleActivities", "Example Activities")
    ∷ ("learningObjective", "Learning Objective")
    ∷ ("prerequisites", "Prerequisites")
    ∷ ("expectedActivity", "Expected Activity")
    ∷ ("order", "Position")
    ∷ ("type", "Outlook Type")
    ∷ ("geography", "Geography")
    ∷ ("period", "Period")
    ∷ ("sourceId", "Source")
    ∷ ("median", "Typical Starting Salary")
    ∷ ("percentile25", "25th Percentile")
    ∷ ("percentile75", "75th Percentile")
    ∷ ("currency", "Currency")
    ∷ ("payPeriod", "Pay Period")
    ∷ ("grossOrNet", "Gross or Net")
    ∷ ("experienceLevel", "Experience Level")
    ∷ ("baseYear", "Base Year")
    ∷ ("baseValue", "Base Value")
    ∷ ("projectedYear", "Projected Year")
    ∷ ("projectedValue", "Projected Value")
    ∷ ("growthPercent", "Growth Percentage")
    ∷ ("demandLevel", "Demand Level")
    ∷ ("url", "URL")
    ∷ ("provider", "Provider")
    ∷ ("costStatus", "Cost Status")
    ∷ ("certificationCost", "Certification Cost")
    ∷ ("curationRationale", "Curation Rationale")
    ∷ ("lastCheckedDate", "Last Checked")
    ∷ []

abbrev pub or_else : Option String → String → String
or_else none y = y
or_else (some x) y = x

-- `FIELD_LABELS[field] ?? field`; an operation without a field has no label.
abbrev pub label_for : Option String → Option String
label_for none = none
label_for (some field) = some (or_else (get field_labels field) field)

abbrev pub title_of : Payload → Option String
title_of absent = none
title_of (text t) = none
title_of (texts ts) = none
title_of (number n) = none
title_of (a_pathway p) = some p.title
title_of (live_pathway p) = some p.content.title
title_of (a_skill s) = none
title_of (a_step s) = some s.texts.title
title_of (a_resource r) = some r.fields.title
title_of (an_outlook o) = none
title_of (outlook_fields f) = none

abbrev pub title_for : PlanOperation → Payload → String
title_for op value = or_else (title_of value) (or_else op.entity_id "Unknown")

abbrev pub change_of : PlanOperation → FieldChange
change_of op = record {
  field = op.field;
  label = label_for op.field;
  before = op.before;
  after = op.after;
  before_label = none;
  after_label = none;
}

abbrev pub added_of : PlanOperation → StepChange
added_of op = record { id = op.entity_id; title = title_for op op.after }

abbrev pub removed_of : PlanOperation → StepChange
removed_of op = record { id = op.entity_id; title = title_for op op.before }

abbrev pub moved_of : PlanOperation → MovedStep
moved_of op = record {
  id = op.entity_id;
  title = title_for op op.after;
  from_order = op.before;
  to_order = op.after;
}

abbrev pub empty_section : PlanSection → SectionChanges
empty_section section = record {
  section = section;
  changed = [];
  added = [];
  removed = [];
  moved = [];
}

-- The `switch` on the operation's kind.
abbrev pub add_operation : OperationKind → PlanOperation → SectionChanges → SectionChanges
add_operation update op b = record b { changed = b.changed ++ change_of op ∷ [] }
add_operation create op b = record b { added = b.added ++ added_of op ∷ [] }
add_operation link op b = record b { added = b.added ++ added_of op ∷ [] }
add_operation delete op b = record b { removed = b.removed ++ removed_of op ∷ [] }
add_operation unlink op b = record b { removed = b.removed ++ removed_of op ∷ [] }
add_operation move op b = record b { moved = b.moved ++ moved_of op ∷ [] }

abbrev pub is_in : PlanSection → PlanOperation → Bool
is_in section op = section_code op.section == section_code section

abbrev pub is_of : PlanSection → SectionChanges → Bool
is_of section b = section_code b.section == section_code section

-- The bucket of the operation's section, made when it is not there, with the operation.
unfoldable pub put_operation : PlanOperation → List SectionChanges → List SectionChanges
put_operation op [] = add_operation op.kind op (empty_section op.section) ∷ []
put_operation op (b ∷ sections) =
    let rest = put_operation op sections in
    if is_of op.section b then add_operation op.kind op b ∷ sections else b ∷ rest

unfoldable pub put_operations : List PlanOperation → List SectionChanges → List SectionChanges
put_operations [] sections = sections
put_operations (op ∷ operations) sections = put_operations operations (put_operation op sections)

abbrev pub has_any : {A : Type 0} → List A → Bool
has_any [] = false
has_any (_ ∷ _) = true

abbrev pub is_not_empty : SectionChanges → Bool
is_not_empty b = has_any b.changed || has_any b.added || has_any b.removed || has_any b.moved

unfoldable pub group_operations : List PlanOperation → List SectionChanges
group_operations operations = select is_not_empty (put_operations operations [])
