-- ===== src/Plan/Build.antt =====
-- `buildPlan` and `computeCounts` (src/catalog/content-revisions/career-snapshot.plan.ts), and
-- `isRevisionStale` (src/catalog/content-revisions/revision.rules.ts).
use pathway_backend.Prelude.{ℕ, suc, Bool, not, List, [], ◌∷◌, ◌++◌, length, ◌==◌, nat_Eq}
use pathway_backend.Prelude.Dict.{Dict}
use pathway_backend.Snapshot.{CareerSnapshot, LiveCareerForPlan}
use pathway_backend.Plan.Types.{
  OperationKind, PlanOperation, PlanBlocker, PlanCounts, CareerPlan, create, update, move, delete,
  link, unlink,
}
use pathway_backend.Plan.Career.{plan_career_fields, career_blockers, plan_pathway}
use pathway_backend.Plan.Skills.{plan_skills, skill_blockers}
use pathway_backend.Plan.Resources.{plan_resources, plan_outlook}
use pathway_backend.Plan.Steps.{plan_steps, step_blockers}

abbrev pub is_revision_stale : ℕ → ℕ → Bool
is_revision_stale base_version live_version = not (base_version == live_version)

-- One round of the loop of `computeCounts`.
abbrev pub count_kind : OperationKind → PlanCounts → PlanCounts
count_kind create c = record c { added = suc c.added }
count_kind link c = record c { added = suc c.added }
count_kind update c = record c { changed = suc c.changed }
count_kind move c = record c { moved = suc c.moved }
count_kind delete c = record c { removed = suc c.removed }
count_kind unlink c = record c { removed = suc c.removed }

abbrev pub count_operations : List PlanOperation → PlanCounts → PlanCounts
count_operations [] c = c
count_operations (op ∷ operations) c = count_operations operations (count_kind op.kind c)

unfoldable pub compute_counts : List PlanOperation → List PlanBlocker → PlanCounts
compute_counts operations blockers =
    count_operations operations
      (record { added = 0; changed = 0; moved = 0; removed = 0; blockers = length blockers })

unfoldable pub plan_operations : LiveCareerForPlan → CareerSnapshot → Dict ℕ → List PlanOperation
plan_operations live snapshot learners =
    plan_career_fields live snapshot
    ++ plan_pathway live snapshot
    ++ plan_skills live snapshot
    ++ plan_resources live snapshot
    ++ plan_outlook live snapshot
    ++ plan_steps live snapshot learners

unfoldable pub plan_blockers : LiveCareerForPlan → CareerSnapshot → Dict ℕ → List PlanBlocker
plan_blockers live snapshot learners =
    career_blockers live snapshot ++ skill_blockers snapshot ++ step_blockers live snapshot learners

unfoldable pub build_plan : LiveCareerForPlan → CareerSnapshot → ℕ → Dict ℕ → CareerPlan
build_plan live snapshot base_version learners =
    let operations = plan_operations live snapshot learners in
    let blockers = plan_blockers live snapshot learners in
    record {
      base_version = base_version;
      live_version = live.version;
      stale = is_revision_stale base_version live.version;
      operations = operations;
      blockers = blockers;
      counts = compute_counts operations blockers;
    }
