-- ===== src/Snapshot/Samples.antt =====
-- A career and a draft of it to test with.
use pathway_backend.Prelude.{none, some, [], ◌∷◌}
use pathway_backend.Snapshot.{
  CareerSnapshot, CareerSnapshotCareer, CareerSnapshotPathway, CareerSnapshotSkill,
  CareerSnapshotStep, LiveCareerForPlan,
}

abbrev pub texts : CareerSnapshotCareer
texts = record {
  title = "Nurse";
  slug = "nurse";
  description = "Cares for patients";
  role_summary = some "Care";
  field_id = some "health";
  target_levels = "SCHOOL" ∷ [];
  example_activities = [];
  typical_education_note = none;
  certifications_note = none;
}

abbrev pub path : CareerSnapshotPathway
path = record { title = "Becoming a nurse"; description = none }

abbrev pub first_step : CareerSnapshotStep
first_step = record {
  id = "s1";
  order = 1;
  texts = record {
    title = "Biology";
    description = none;
    learning_objective = "Cells";
    prerequisites = none;
    expected_activity = "Read";
  };
  skill_ids = "k1" ∷ [];
  resource_ids = [];
}

abbrev pub second_step : CareerSnapshotStep
second_step = record first_step { id = "s2"; order = 2 }

abbrev pub skill : CareerSnapshotSkill
skill = record { skill_id = "k1"; importance = "HIGH" }

-- The draft leaves out the second step.
abbrev pub nurse_draft : CareerSnapshot
nurse_draft = record {
  career = texts;
  pathway = some path;
  steps = first_step ∷ [];
  skills = skill ∷ [];
  outlook = [];
  resources = [];
}

abbrev pub nurse : LiveCareerForPlan
nurse = record {
  id = "c1";
  version = 3;
  career = texts;
  skills = skill ∷ [];
  outlook = [];
  pathway = some (record { id = "p1"; content = path });
  steps = first_step ∷ second_step ∷ [];
  resources = [];
}
