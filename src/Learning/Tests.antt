-- ===== src/Learning/Tests.antt =====
-- A learner with two saved careers.
use pathway_backend.Prelude.{
  ℕ, ◌+◌, ◌*◌, ◌/◌, String, true, false, not, ◌&&◌, none, some, List, [], ◌∷◌, ◌≡◌, refl, arith,
  All, string_Eq, ◌==◌, Memᴰ, if◌then◌else◌, updated, find,
}
use pathway_backend.Effects.{Effect, capture}
use pathway_backend.Handlers.{returns, or_throw, throw_if}
use pathway_backend.Database.Reference.{reference, reference_laws, best}
use pathway_backend.Revisions.{live, retired}
use pathway_backend.Progress.{completed, Floats, status_Eq}
use pathway_backend.Learning.{
  Career, Pathway, PathwayStep, UserPathway, Tables, is_published, get_pathway_progress,
  is_published_or_retired,
}
use pathway_backend.Learning.Pathways.{
  StartingPointResponse, ActivePathwayResponse, ActiveCareer, SavedPathway, set_starting_point,
  set_active_pathway, get_saved_pathways, activate, is_foreign_step, get_active_pathway,
}
use pathway_backend.Learning.Steps.{
  StepStatusResponse, set_step_status, status_written, write_step_status,
}
use pathway_backend.Learning.Activated.{active_career_of}
use pathway_backend.Learning.StepRows.{status_of, OneRow}
use pathway_backend.Learning.Status.{write_step_status-status_of}
use pathway_backend.Learning.Tracking.{HasSaved, set_step_status-done}
use pathway_backend.Learning.Start.{IsStepOf, set_starting_point-done, set_active_pathway-done}
use pathway_backend.Learning.Lifecycle.{
  IsWellFormed, run_all, activate_career, start_at, track, run_all-IsWellFormed,
}
use pathway_backend.Learning.Saved.{get_saved_pathways-progress}

abbrev floats : Floats
floats = record {
  Number = ℕ;
  of = λ n. n * 1000;
  div = λ x y. x * 1000 / y;
  mul = λ x y. x * y / 1000;
  round = λ x. (x + 500) / 1000;
}

abbrev designer : Career
designer = record {
  id = "c1";
  slug = "designer";
  title = "Designer";
  role_summary = none;
  status = live;
}

abbrev analyst : Career
analyst = record {
  id = "c2";
  slug = "analyst";
  title = "Analyst";
  role_summary = some "Data";
  status = retired;
}

abbrev design : Pathway
design = record { id = "p1"; career_id = "c1"; title = "Design"; description = none }

abbrev sketch : PathwayStep
sketch = record {
  id = "s1";
  pathway_id = "p1";
  title = "Sketch";
  description = none;
  learning_objective = "Draw";
  prerequisites = none;
  expected_activity = "Practice";
  order = 1;
  skills = [];
  resources = [];
}

abbrev saved : UserPathway
saved = record {
  id = "r2";
  user_id = "u1";
  career_id = "c2";
  is_active = true;
  start_step_id = none;
}

abbrev kept : UserPathway
kept = record {
  id = "r1";
  user_id = "u1";
  career_id = "c1";
  is_active = false;
  start_step_id = none;
}

abbrev tables : Tables
tables = record {
  careers = designer ∷ analyst ∷ [];
  pathways = design ∷ [];
  steps = sketch ∷ [];
  user_pathways = saved ∷ kept ∷ [];
  user_steps = [];
}

abbrev tracked_tables : Tables
tracked_tables = record tables {
  user_steps =
      record { user_id = "u1"; pathway_step_id = "s1"; status = completed; completed_at = some 7 }
      ∷ [];
}

abbrev step_answer : StepStatusResponse
step_answer = record {
  step_id = "s1";
  status = completed;
  progress = get_pathway_progress floats reference tracked_tables "u1" "p1" none;
}

no_rows-OneRow : OneRow []
no_rows-OneRow user step = omega arith

set_step_status-done_example :
    HasSaved "u1" "s1" tables
    × ((user step : String)
        → status_of tracked_tables.user_steps user step ≡ (
            if user == "u1" && step == "s1"
            then completed
            else status_of tables.user_steps user step))
    × (capture "step_completion_changed" "u1" ∷ [] ≡ (
        if status_of tables.user_steps "u1" "s1" == completed
        then []
        else capture "step_completion_changed" "u1" ∷ []))
    × (set_step_status reference floats "u1" "s1" completed 9 tracked_tables
        ≡ returns step_answer [] tracked_tables)
unfolding set_step_status status_written write_step_status or_throw best
set_step_status-done_example =
    set_step_status-done reference_laws floats "u1" "s1" completed 7 9 tables
      {response = step_answer} {effects = capture "step_completion_changed" "u1" ∷ []}
      {after = tracked_tables} no_rows-OneRow refl

write_step_status-status_of_example :
    let (changed, after) = write_step_status reference "u1" "s1" completed 7 [] in
    ((user step : String)
      → status_of after user step
        ≡ (if user == "u1" && step == "s1" then completed else status_of [] user step))
    × (changed ≡ not (status_of [] "u1" "s1" == completed))
    × OneRow after
write_step_status-status_of_example =
    write_step_status-status_of reference_laws "u1" "s1" completed 7 [] no_rows-OneRow

abbrev moved_tables : Tables
moved_tables = record tables {
  user_pathways = saved ∷ record kept { start_step_id = some "s1" } ∷ [];
}

abbrev start_answer : StartingPointResponse
start_answer = record {
  career_id = "c1";
  start_step_id = some "s1";
  progress = get_pathway_progress floats reference moved_tables "u1" "p1" (some "s1");
}

set_starting_point-done_example :
    (u : UserPathway) × (p : Pathway) × Memᴰ u tables.user_pathways
    × (u.user_id ≡ "u1")
    × (u.career_id ≡ "c1")
    × Memᴰ p tables.pathways
    × (p.career_id ≡ "c1")
    × IsStepOf tables p.id (some "s1")
    × (moved_tables ≡ record tables {
      user_pathways =
          updated
            (λ v. v.id == u.id)
            (λ v. record v { start_step_id = some "s1" })
            tables.user_pathways;
    })
    × (start_answer ≡ record {
      career_id = "c1";
      start_step_id = some "s1";
      progress = get_pathway_progress floats reference tables "u1" p.id (some "s1");
    })
    × (◌≡◌ {A = List Effect} [] [])
unfolding set_starting_point or_throw throw_if is_foreign_step best
set_starting_point-done_example =
    set_starting_point-done reference_laws floats "u1" "c1" (some "s1") tables
      {response = start_answer} {effects = []} {after = moved_tables} refl

abbrev switched_tables : Tables
switched_tables = record tables {
  user_pathways = record saved { is_active = false } ∷ record kept { is_active = true } ∷ [];
}

abbrev active_reply : ActivePathwayResponse
active_reply = get_active_pathway reference floats "u1" switched_tables

set_active_pathway-done_example :
    (c : Career) × (p : Pathway) × (k : ActiveCareer) × Memᴰ c tables.careers
    × (c.id ≡ "c1")
    × (is_published c.status ≡ true)
    × Memᴰ p tables.pathways
    × (p.career_id ≡ "c1")
    × (active_reply.career ≡ some k)
    × (k.id ≡ "c1")
    × (active_reply.pathway ≡ some (p.id, p.title))
    × (capture "pathway_saved" "u1" ∷ [] ≡ capture "pathway_saved" "u1" ∷ [])
    × (switched_tables ≡ record tables { user_pathways = switched_tables.user_pathways })
    × ((other : String)
        → active_career_of switched_tables.user_pathways other
          ≡ (if other == "u1" then some "c1" else active_career_of tables.user_pathways other))
unfolding set_active_pathway activate or_throw best
set_active_pathway-done_example =
    set_active_pathway-done reference_laws floats "r9" "u1" "c1" tables {response = active_reply}
      {effects = capture "pathway_saved" "u1" ∷ []} {after = switched_tables} refl

abbrev no_rows : Tables
no_rows = record tables { user_pathways = [] }

no_rows-IsWellFormed : IsWellFormed no_rows
no_rows-IsWellFormed = ((λ user career. omega arith, λ user. omega arith), λ user step. omega arith)

run_all-IsWellFormed_example : IsWellFormed (
    run_all reference floats
      (activate_career "r1" "u1" "c1"
        ∷ track "u1" "s1" completed 7
        ∷ start_at "u1" "c1" (some "s1")
        ∷ activate_career "r2" "u1" "c2"
        ∷ [])
      no_rows)
run_all-IsWellFormed_example =
    run_all-IsWellFormed reference_laws floats
      (activate_career "r1" "u1" "c1"
        ∷ track "u1" "s1" completed 7
        ∷ start_at "u1" "c1" (some "s1")
        ∷ activate_career "r2" "u1" "c2"
        ∷ [])
      no_rows no_rows-IsWellFormed

get_saved_pathways-progress_example :
    ((u : UserPathway)
      → Memᴰ u tables.user_pathways
        × (u.user_id ≡ "u1")
        × ((c : Career) × (find (λ (x : Career). x.id == u.career_id) tables.careers ≡ some c)
            × (is_published_or_retired c.status ≡ true))
        × ((p : Pathway) × (find (λ (x : Pathway). x.career_id == u.career_id) tables.pathways
              ≡ some p))
      → (s : SavedPathway) × Memᴰ s (get_saved_pathways reference floats "u1" tables)
        × (s.career_id ≡ u.career_id)
        × (s.is_active ≡ u.is_active))
    × All
        (λ (s : SavedPathway).
          (u : UserPathway) × (p : Pathway) × Memᴰ u tables.user_pathways
          × (u.user_id ≡ "u1")
          × Memᴰ p tables.pathways
          × (p.career_id ≡ u.career_id)
          × (s.career_id ≡ u.career_id)
          × (s.is_active ≡ u.is_active)
          × (let g =
                (get_pathway_progress floats reference tables "u1" p.id u.start_step_id).summary in
              (s.completed ≡ g.completed) × (s.total ≡ g.total) × (s.percentage ≡ g.percentage)))
        (get_saved_pathways reference floats "u1" tables)
get_saved_pathways-progress_example = get_saved_pathways-progress reference_laws floats "u1" tables
