-- ===== src/Snapshot/Tests.antt =====
-- The consistency check on concrete drafts.
use pathway_backend.Prelude.{[], ◌≡◌, ◌↔◌}
use pathway_backend.Snapshot.Samples.{nurse_draft}
use pathway_backend.Snapshot.Consistency.{find_snapshot_problems}
use pathway_backend.Snapshot.Consistency.Laws.{IsConsistent, find_snapshot_problems_iff}

find_snapshot_problems_iff_example :
    (find_snapshot_problems nurse_draft ≡ []) ↔ IsConsistent nurse_draft
find_snapshot_problems_iff_example = find_snapshot_problems_iff nurse_draft
