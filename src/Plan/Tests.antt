-- ===== src/Plan/Tests.antt =====
-- Plans of concrete drafts.
use pathway_backend.Prelude.{[], ◌∷◌, ◌≡◌, ◌↔◌, refl, String, some, false, Memᴰ}
use pathway_backend.Prelude.Dict.{new_dict, put, put_all}
use pathway_backend.Snapshot.Samples.{nurse_draft, nurse, second_step}
use pathway_backend.Snapshot.{CareerSnapshotStep}
use pathway_backend.Snapshot.TempId.{is_temp_id}
use pathway_backend.Plan.Build.{build_plan}
use pathway_backend.Plan.Types.{PlanOperation, delete, steps, a_step, absent}
use pathway_backend.Plan.Resources.{entity_operation}
use pathway_backend.Plan.Steps.{
  plan_steps, step_operation, step_texts, step_move, plan_step_links, links_unless, step_deletion,
  step_creation, affected_learners,
}
use pathway_backend.Plan.Deletion.{plan_steps-deletes}
use pathway_backend.Plan.Ready.{IsReady, keeps_step, build_plan-unblocked_iff}
use pathway_backend.Plan.Unchanged.{draft_of, build_plan-unchanged}

build_plan-unblocked_iff_example :
    ((build_plan nurse nurse_draft 3 (("s2", 2) ∷ [])).blockers ≡ [])
    ↔ IsReady nurse nurse_draft (("s2", 2) ∷ [])
build_plan-unblocked_iff_example = build_plan-unblocked_iff nurse nurse_draft 3 (("s2", 2) ∷ [])

build_plan-unchanged_example : (build_plan nurse (draft_of nurse) 3 []).operations ≡ []
unfolding is_temp_id
build_plan-unchanged_example = build_plan-unchanged nurse 3 [] ((refl, (refl, tt)), tt, tt)

abbrev dropped : PlanOperation
dropped = entity_operation delete steps "s2" (a_step second_step) absent

plan_steps-deletes_example :
    (id : String) × (dropped.section ≡ steps)
    × (dropped.entity_id ≡ some id)
    × ((l : CareerSnapshotStep) × Memᴰ l nurse.steps × (l.id ≡ id))
    × (keeps_step nurse_draft id ≡ false)
    × (affected_learners (("s1", 2) ∷ []) id ≡ 0)
unfolding plan_steps step_operation step_texts step_move plan_step_links links_unless step_deletion
    step_creation affected_learners new_dict put put_all is_temp_id
plan_steps-deletes_example =
    plan_steps-deletes nurse nurse_draft (("s1", 2) ∷ []) dropped (Memᴰ.head refl) refl
