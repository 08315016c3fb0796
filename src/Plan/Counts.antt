-- ===== src/Plan/Counts.antt =====
-- The counts of a plan.
use pathway_backend.Prelude.{ℕ, ◌+◌, List, [], ◌∷◌, length, ◌≡◌, refl, arith}
use pathway_backend.Prelude.Dict.{Dict}
use pathway_backend.Snapshot.{CareerSnapshot, LiveCareerForPlan}
use pathway_backend.Plan.Types.{
  OperationKind, PlanOperation, PlanCounts, create, update, move, delete, link, unlink,
}
use pathway_backend.Plan.Build.{
  build_plan, compute_counts, plan_operations, plan_blockers, count_operations, count_kind,
}

count_kind-total :
    (k : OperationKind) (c : PlanCounts)
    → ((count_kind k c).added
          + (count_kind k c).changed
          + (count_kind k c).moved
          + (count_kind k c).removed
        ≡ 1 + (c.added + c.changed + c.moved + c.removed))
      × ((count_kind k c).blockers ≡ c.blockers)
count_kind-total create c = (omega arith, refl)
count_kind-total update c = (omega arith, refl)
count_kind-total move c = (omega arith, refl)
count_kind-total delete c = (omega arith, refl)
count_kind-total link c = (omega arith, refl)
count_kind-total unlink c = (omega arith, refl)

count_operations-total :
    (operations : List PlanOperation) (c : PlanCounts)
    → ((count_operations operations c).added
          + (count_operations operations c).changed
          + (count_operations operations c).moved
          + (count_operations operations c).removed
        ≡ length operations + (c.added + c.changed + c.moved + c.removed))
      × ((count_operations operations c).blockers ≡ c.blockers)
count_operations-total [] c = (omega arith, refl)
count_operations-total (op ∷ operations) c =
    let (a, b) = count_operations-total operations (count_kind op.kind c) in
    let (d, e) = count_kind-total op.kind c in (omega (arith, a, d), cc)

-- Every operation of a plan is counted once, as added, changed, moved or removed, and the count of
-- blockers is their number.
pub build_plan-counts :
    (live : LiveCareerForPlan) (snapshot : CareerSnapshot) (base_version : ℕ) (learners : Dict ℕ)
    → let plan = build_plan live snapshot base_version learners in
      (plan.counts.added + plan.counts.changed + plan.counts.moved + plan.counts.removed
        ≡ length plan.operations)
      × (plan.counts.blockers ≡ length plan.blockers)
unfolding build_plan compute_counts
build_plan-counts live snapshot base_version learners =
    let operations = plan_operations live snapshot learners in
    let zero_counts : PlanCounts = record {
      added = 0;
      changed = 0;
      moved = 0;
      removed = 0;
      blockers = length (plan_blockers live snapshot learners);
    } in
    let (a, b) = count_operations-total operations zero_counts in (omega (arith, a), b)
