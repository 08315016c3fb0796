-- ===== src/Diff/Tests.antt =====
-- The display of a plan on concrete operations.
use pathway_backend.Prelude.{
  ℕ, String, true, false, Option, ◌≤◌, none, some, [], ◌∷◌, ◌≡◌, refl, any, find, count_where,
}
use pathway_backend.Handlers.{or_throw, throw_if, is_returned}
use pathway_backend.Database.Reference.{reference, reference_laws}
use pathway_backend.Roles.{editor}
use pathway_backend.Revisions.{ContentRevision, Tables, draft}
use pathway_backend.Publishing.Samples.{tables, revision, eve, career as career_row}
use pathway_backend.Diff.Service.{build_diff}
use pathway_backend.Diff.Shown.{DecidesDiff, build_diff-submit_revision}
use pathway_backend.Plan.Types.{PlanOperation, update, move, career, steps, skills, text, number}
use pathway_backend.Diff.{
  SectionChanges, is_in, is_of, put_operation, put_operations, group_operations,
}
use pathway_backend.Diff.Grouped.{Shows, group_operations-section}

abbrev new_title : PlanOperation
new_title = record {
  kind = update;
  section = career;
  entity_id = none;
  parent_id = none;
  field = some "title";
  before = text (some "Nurse");
  after = text (some "Registered nurse");
}

abbrev later_step : PlanOperation
later_step = record {
  kind = move;
  section = steps;
  entity_id = some "s1";
  parent_id = none;
  field = none;
  before = number 1;
  after = number 2;
}

group_operations-section_example :
    (any (is_in steps) (new_title ∷ later_step ∷ []) ≡ false
      → find (is_of steps) (group_operations (new_title ∷ later_step ∷ [])) ≡ none)
    × (any (is_in steps) (new_title ∷ later_step ∷ []) ≡ true
        → (b : SectionChanges) × (find
              (is_of steps)
              (group_operations (new_title ∷ later_step ∷ []))
            ≡ some b)
          × Shows steps (new_title ∷ later_step ∷ []) b)
    × (count_where (is_of steps) (group_operations (new_title ∷ later_step ∷ [])) ≤ 1)
group_operations-section_example = group_operations-section steps (new_title ∷ later_step ∷ [])

abbrev steps_section : SectionChanges
steps_section = record {
  section = steps;
  changed = [];
  added = [];
  removed = [];
  moved = record { id = some "s1"; title = "s1"; from_order = number 1; to_order = number 2 } ∷ [];
}

-- A step that moves is shown with its id in the place of its title.
moved_tests :
    (find (is_of steps) (group_operations (new_title ∷ later_step ∷ [])) ≡ some steps_section)
    × (find (is_of skills) (group_operations (new_title ∷ later_step ∷ [])) ≡ none)
unfolding group_operations put_operations put_operation
moved_tests = (refl, refl)

abbrev draft_tables : Tables
draft_tables = record tables { revisions = record revision { status = draft } ∷ [] }

abbrev decimal : ℕ → String
decimal n = "some"

abbrev no_name : ContentRevision → Option String
no_name r = none

build_diff-submit_revision_example :
    DecidesDiff reference "r1" eve eve draft_tables
      (record revision { status = draft })
      career_row
      (build_diff reference decimal 100 (λ r. 90) no_name no_name [] "r1" eve draft_tables)
build_diff-submit_revision_example =
    build_diff-submit_revision reference_laws "r1" eve eve draft_tables
      (record revision { status = draft }) career_row decimal 100 (λ r. 90) no_name no_name [] refl
      refl

-- A stranger below a reviewer does not see the diff.
denied_tests :
    is_returned (
      build_diff reference decimal 100
        (λ r. 90)
        no_name
        no_name
        []
        "r1"
        (record { id = "zoe"; role = editor })
        draft_tables)
    ≡ false
unfolding build_diff or_throw throw_if
denied_tests = refl
