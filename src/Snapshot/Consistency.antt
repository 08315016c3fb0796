-- ===== src/Snapshot/Consistency.antt =====
-- Structural checks within one draft
-- (src/catalog/content-revisions/career-snapshot.consistency.ts). A problem is kept as data in
-- place of its text: the list it is in, the label, the index, and the index of the first item.
pub mod Laws
use pathway_backend.Prelude.{
  ℕ, zero, suc, ◌+◌, String, Bool, true, false, not, ◌&&◌, Option, none, some, List, [], ◌∷◌, ◌++◌,
  map, any, is_none, Eq, string_Eq, nat_Eq, ◌==◌, if◌then◌else◌,
}
use pathway_backend.Snapshot.{
  CareerSnapshot, CareerSnapshotStep, CareerSnapshotSkill, CareerSnapshotOutlook,
  CareerSnapshotResource,
}
use pathway_backend.Snapshot.TempId.{is_temp_id}

pub data Problem : Type 0 where
  -- `steps.3: duplicate id of steps.1`
  duplicate : (section label : String) (index first : ℕ) → Problem
  -- `steps.2.skillIds.1: duplicate skill of steps.2.skillIds.0`
  step_duplicate : (step : ℕ) (section label : String) (index first : ℕ) → Problem
  -- `pathway: steps need a pathway`
  no_pathway : Problem
  -- `steps.2.resourceIds.1: new-4 is not in resources`
  missing_resource : (step index : ℕ) (id : String) → Problem

module _ {K : Type 0} ⦃e : Eq K⦄ where
  -- `seen.get(value)`
  unfoldable pub seen_at : List (K × ℕ) → K → Option ℕ
  seen_at [] k = none
  seen_at ((j, i) ∷ seen) k = let rest = seen_at seen k in if j == k then some i else rest

  -- The loop of `duplicates`, from an index on: the index of each repeated key, and of its first.
  unfoldable pub duplicates_from : ℕ → List (K × ℕ) → List K → List (ℕ × ℕ)
  duplicates_from index seen [] = []
  duplicates_from index seen (k ∷ ks) = elim (seen_at seen k) [
    | none ↦ duplicates_from (suc index) ((k, index) ∷ seen) ks
    | some first ↦ (index, first) ∷ duplicates_from (suc index) seen ks
  ]

  unfoldable pub duplicates : List K → List (ℕ × ℕ)
  duplicates keys = duplicates_from 0 [] keys

abbrev section_problems : String → String → List (ℕ × ℕ) → List Problem
section_problems section label found = map (λ d. duplicate section label d.0 d.1) found

abbrev step_problems : ℕ → String → String → List (ℕ × ℕ) → List Problem
step_problems step section label found = map (λ d. step_duplicate step section label d.0 d.1) found

-- The loop over `step.resourceIds`.
unfoldable pub missing_resources :
    (ℕ → String → Problem) → List String → ℕ → List String → List Problem
missing_resources problem drafts index [] = []
missing_resources problem drafts index (id ∷ ids) =
    let rest = missing_resources problem drafts (suc index) ids in
    if is_temp_id id && not (any (λ d. d == id) drafts) then problem index id ∷ rest else rest

unfoldable pub one_step : List String → ℕ → CareerSnapshotStep → List Problem
one_step drafts step s =
    step_problems step "skillIds" "skill" (duplicates s.skill_ids)
    ++ (step_problems step "resourceIds" "resource" (duplicates s.resource_ids)
        ++ missing_resources (missing_resource step) drafts 0 s.resource_ids)

unfoldable pub each_step : List String → ℕ → List CareerSnapshotStep → List Problem
each_step drafts index [] = []
each_step drafts index (s ∷ steps) = one_step drafts index s ++ each_step drafts (suc index) steps

abbrev has_steps : List CareerSnapshotStep → Bool
has_steps [] = false
has_steps (_ ∷ _) = true

unfoldable pub pathway_problems : CareerSnapshot → List Problem
pathway_problems s = if has_steps s.steps && is_none s.pathway then no_pathway ∷ [] else []

abbrev pub resource_ids_of : CareerSnapshot → List String
resource_ids_of s = map (λ (r : CareerSnapshotResource). r.id) s.resources

unfoldable pub find_snapshot_problems : CareerSnapshot → List Problem
find_snapshot_problems s =
    section_problems "steps" "id" (duplicates (map (λ (t : CareerSnapshotStep). t.id) s.steps))
    ++ (section_problems "steps" "order"
          (duplicates (map (λ (t : CareerSnapshotStep). t.order) s.steps))
        ++ (section_problems "skills" "skillId"
              (duplicates (map (λ (k : CareerSnapshotSkill). k.skill_id) s.skills))
            ++ (section_problems "outlook" "id"
                  (duplicates (map (λ (o : CareerSnapshotOutlook). o.id) s.outlook))
                ++ (section_problems "resources" "id" (duplicates (resource_ids_of s))
                    ++ (pathway_problems s ++ each_step (resource_ids_of s) 0 s.steps)))))
