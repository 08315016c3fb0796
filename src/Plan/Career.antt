-- ===== src/Plan/Career.antt =====
-- The career fields and the pathway of a plan
-- (src/catalog/content-revisions/career-snapshot.plan.ts). A function that pushes to the lists of
-- operations and blockers returns what it pushes.
use pathway_backend.Prelude.{
  String, Bool, true, Option, none, some, List, [], ◌∷◌, ◌++◌, string_Eq, nat_Eq, ◌==◌,
  if◌then◌else◌,
}
use pathway_backend.Prelude.Equality.{option_Eq, list_Eq}
use pathway_backend.Snapshot.{
  CareerSnapshot, CareerSnapshotCareer, CareerSnapshotPathway, LiveCareerForPlan, LivePathway,
}
use pathway_backend.Plan.Types.{
  PlanOperation, PlanBlocker, create, update, delete, career, pathway, absent, text, texts,
  a_pathway, live_pathway, missing_career_field,
}

-- An entry of `REQUIRED_CAREER_FIELDS` or `CAREER_STRING_FIELDS`: the name and its value.
abbrev pub required_fields : CareerSnapshotCareer → List (String × Option String)
required_fields c =
    ("title", some c.title)
    ∷ ("slug", some c.slug)
    ∷ ("description", some c.description)
    ∷ ("roleSummary", c.role_summary)
    ∷ ("fieldId", c.field_id)
    ∷ []

abbrev pub string_fields : CareerSnapshotCareer → List (String × Option String)
string_fields c =
    ("title", some c.title)
    ∷ ("slug", some c.slug)
    ∷ ("description", some c.description)
    ∷ ("roleSummary", c.role_summary)
    ∷ ("fieldId", c.field_id)
    ∷ ("typicalEducationNote", c.typical_education_note)
    ∷ ("certificationsNote", c.certifications_note)
    ∷ []

-- `value === null || value === ''`
abbrev pub is_missing : Option String → Bool
is_missing none = true
is_missing (some s) = s == ""

abbrev career_blocker : String → String → PlanBlocker
career_blocker live_id field = record {
  code = missing_career_field;
  field = some field;
  section = career;
  entity_id = some live_id;
  entity_title = none;
  learners_affected = none;
}

unfoldable pub missing_fields : String → List (String × Option String) → List PlanBlocker
missing_fields live_id [] = []
missing_fields live_id ((field, value) ∷ fields) =
    let rest = missing_fields live_id fields in
    if is_missing value then career_blocker live_id field ∷ rest else rest

unfoldable pub career_blockers : LiveCareerForPlan → CareerSnapshot → List PlanBlocker
career_blockers live snapshot = missing_fields live.id (required_fields snapshot.career)

-- One field of the career: an update where the two values differ.
unfoldable pub text_change : String → String → Option String → Option String → List PlanOperation
text_change live_id field before after =
    if before == after
    then []
    else record {
      kind = update;
      section = career;
      entity_id = some live_id;
      parent_id = none;
      field = some field;
      before = text before;
      after = text after;
    }
      ∷ []

unfoldable pub texts_change : String → String → List String → List String → List PlanOperation
texts_change live_id field before after =
    if before == after
    then []
    else record {
      kind = update;
      section = career;
      entity_id = some live_id;
      parent_id = none;
      field = some field;
      before = texts before;
      after = texts after;
    }
      ∷ []

-- The loop over `CAREER_STRING_FIELDS`, on the two values of each field.
unfoldable pub text_changes :
    String → List (String × Option String) → List (String × Option String) → List PlanOperation
unfolding text_change
text_changes live_id [] after = []
text_changes live_id (b ∷ before) [] = []
text_changes live_id ((field, b) ∷ before) ((_, a) ∷ after) =
    text_change live_id field b a ++ text_changes live_id before after

unfoldable pub plan_career_fields : LiveCareerForPlan → CareerSnapshot → List PlanOperation
unfolding text_changes texts_change
plan_career_fields live snapshot =
    let l = live.career in
    let s = snapshot.career in
    text_changes live.id (string_fields l) (string_fields s)
    ++ (texts_change live.id "targetLevels" l.target_levels s.target_levels
        ++ texts_change live.id "exampleActivities" l.example_activities s.example_activities)

unfoldable pub pathway_text :
    LivePathway → String → Option String → Option String → List PlanOperation
pathway_text l field before after =
    if before == after
    then []
    else record {
      kind = update;
      section = pathway;
      entity_id = some l.id;
      parent_id = none;
      field = some field;
      before = text before;
      after = text after;
    }
      ∷ []

unfoldable pub pathway_change :
    Option LivePathway → Option CareerSnapshotPathway → List PlanOperation
unfolding pathway_text
pathway_change none none = []
pathway_change none (some s) =
    record {
      kind = create;
      section = pathway;
      entity_id = none;
      parent_id = none;
      field = none;
      before = absent;
      after = a_pathway s;
    }
    ∷ []
pathway_change (some l) none =
    record {
      kind = delete;
      section = pathway;
      entity_id = some l.id;
      parent_id = none;
      field = none;
      before = live_pathway l;
      after = absent;
    }
    ∷ []
pathway_change (some l) (some s) =
    pathway_text l "title" (some l.content.title) (some s.title)
    ++ pathway_text l "description" l.content.description s.description

unfoldable pub plan_pathway : LiveCareerForPlan → CareerSnapshot → List PlanOperation
unfolding pathway_change
plan_pathway live snapshot = pathway_change live.pathway snapshot.pathway
