-- ===== src/Snapshot/Consistency/Laws.antt =====
-- A draft has no problems exactly when it is consistent.
use pathway_backend.Prelude.{
  ℕ, suc, String, true, not, ◌&&◌, none, List, [], ◌∷◌, ◌++◌, map, any, Eq, string_Eq, nat_Eq, ◌==◌,
  ◌≡◌, ◌≢◌, refl, ◌↔◌, ◌⊎◌, inl, inr, All, All-true, arith, Bool-cases, Option-cases,
}
use pathway_backend.Snapshot.{
  CareerSnapshot, CareerSnapshotStep, CareerSnapshotSkill, CareerSnapshotOutlook,
}
use pathway_backend.Snapshot.TempId.{is_temp_id}
use pathway_backend.Snapshot.Consistency.{
  Problem, seen_at, duplicates_from, duplicates, missing_resources, one_step, each_step,
  pathway_problems, resource_ids_of, find_snapshot_problems,
}

abbrev pub IsDistinct {ℓ} : {K : Type ℓ} → List K → Type ℓ
IsDistinct [] = Unit
IsDistinct (k ∷ ks) = All (λ j. k ≢ j) ks × IsDistinct ks

module _ {K : Type 0} ⦃e : Eq K⦄ where
  -- A key that was not seen.
  abbrev IsFresh : List (K × ℕ) → K → Type 0
  IsFresh seen k = seen_at seen k ≡ none

  IsFresh-cons :
      (seen : List (K × ℕ)) (j k : K) (i : ℕ)
      → IsFresh ((j, i) ∷ seen) k ↔ ((j ≢ k) × IsFresh seen k)
  unfolding seen_at
  IsFresh-cons seen j k i = ground (arith, e.is_same_iff j k)

  IsFresh-cons_All :
      (seen : List (K × ℕ)) (j : K) (i : ℕ) (ks : List K)
      → All (IsFresh ((j, i) ∷ seen)) ks ↔ (All (λ k. j ≢ k) ks × All (IsFresh seen) ks)
  IsFresh-cons_All seen j i [] = (λ h. (tt, tt), λ h. tt)
  IsFresh-cons_All seen j i (k ∷ ks) =
      let (to, from) = IsFresh-cons seen j k i in
      let (tos, froms) = IsFresh-cons_All seen j i ks in
      (
        λ (h, hs). ((((to h).0), (tos hs).0), ((to h).1, (tos hs).1)),
        λ ((a, as_), (b, bs)). (from (a, b), froms (as_, bs)),
      )

  duplicates_from_iff :
      (i : ℕ) (seen : List (K × ℕ)) (ks : List K)
      → (duplicates_from i seen ks ≡ []) ↔ (All (IsFresh seen) ks × IsDistinct ks)
  unfolding duplicates_from
  duplicates_from_iff i seen [] = (λ _. (tt, tt), λ _. refl)
  duplicates_from_iff i seen (k ∷ ks) = elim (Option-cases (seen_at seen k)) [
    | inl n ↦
        let (to, from) = duplicates_from_iff (suc i) ((k, i) ∷ seen) ks in
        let (split, join) = IsFresh-cons_All seen k i ks in
        (
          λ h.
              let (fresh, distinct) = to (rw (n, duplicates_from) at h) in
              let (apart, rest) = split fresh in ((n, rest), (apart, distinct)),
          λ (fresh, (apart, distinct)).
              rw (n, duplicates_from) (from (join (apart, fresh.1), distinct)),
        )
    | inr (first, s) ↦
        (λ h. absurd (ground (arith, s)), λ (fresh, _). absurd (ground (arith, s, fresh.0)))
  ]

  duplicates_iff : (ks : List K) → (duplicates ks ≡ []) ↔ IsDistinct ks
  unfolding duplicates seen_at
  duplicates_iff ks =
      let (to, from) = duplicates_from_iff 0 [] ks in
      (λ h. (to h).1, λ d. from (All-true ks _ (λ k. refl), d))

append-eq-nil {ℓ} : {A : Type ℓ} (xs ys : List A) → (xs ++ ys ≡ []) ↔ ((xs ≡ []) × (ys ≡ []))
append-eq-nil [] ys = (λ h. (refl, h), λ h. h.1)
append-eq-nil (x ∷ xs) ys = (λ h. absurd (cc), λ h. absurd (cc h.0))

map-eq-nil {ℓ κ} : {A : Type ℓ} {B : Type κ} (f : A → B) (xs : List A) → (map f xs ≡ []) ↔ (xs ≡ [])
map-eq-nil f [] = (λ h. refl, λ h. refl)
map-eq-nil f (x ∷ xs) = (λ h. absurd (cc), λ h. absurd (cc))

-- A draft's own ids that a step names are among its resources.
abbrev pub IsKnown : List String → String → Type 0
IsKnown drafts id = is_temp_id id ≡ true → any (λ d. d == id) drafts ≡ true

missing_resources_iff :
    (problem : ℕ → String → Problem) (drafts : List String) (i : ℕ) (ids : List String)
    → (missing_resources problem drafts i ids ≡ []) ↔ All (IsKnown drafts) ids
unfolding missing_resources
missing_resources_iff problem drafts i [] = (λ h. tt, λ h. refl)
missing_resources_iff problem drafts i (id ∷ ids) =
    let (to, from) = missing_resources_iff problem drafts (suc i) ids in
    elim (Bool-cases (is_temp_id id && not (any (λ d. d == id) drafts))) [
      | inl missing ↦
          (λ h. absurd (ground (arith, missing)), λ (k, ks). absurd (ground (arith, missing, k)))
      | inr known ↦ (
        λ h. (λ t. ground arith, to (rw (known, missing_resources) at h)),
        λ (k, ks). rw (known, missing_resources) (from ks),
      )
    ]

abbrev pub StepIsConsistent : List String → CareerSnapshotStep → Type 0
StepIsConsistent drafts s =
    IsDistinct s.skill_ids × IsDistinct s.resource_ids × All (IsKnown drafts) s.resource_ids

one_step_iff :
    (drafts : List String) (i : ℕ) (s : CareerSnapshotStep)
    → (one_step drafts i s ≡ []) ↔ StepIsConsistent drafts s
unfolding one_step
one_step_iff drafts i s =
    let (to, from) = append-eq-nil (map _ (duplicates s.skill_ids)) _ in
    let (to', from') = append-eq-nil (map _ (duplicates s.resource_ids)) _ in
    let (skills, skills') = map-eq-nil _ (duplicates s.skill_ids) in
    let (resources, resources') = map-eq-nil _ (duplicates s.resource_ids) in
    let (known, known') = missing_resources_iff _ drafts 0 s.resource_ids in
    (
      λ h.
          let (a, rest) = to h in
          let (b, c) = to' rest in
          (
            (duplicates_iff s.skill_ids).0 (skills a),
            (duplicates_iff s.resource_ids).0 (resources b),
            known c,
          ),
      λ (a, b, c). from (
        skills' ((duplicates_iff s.skill_ids).1 a),
        from' (resources' ((duplicates_iff s.resource_ids).1 b), known' c),
      ),
    )

each_step_iff :
    (drafts : List String) (i : ℕ) (steps : List CareerSnapshotStep)
    → (each_step drafts i steps ≡ []) ↔ All (StepIsConsistent drafts) steps
unfolding each_step
each_step_iff drafts i [] = (λ h. tt, λ h. refl)
each_step_iff drafts i (s ∷ steps) =
    let (to, from) = append-eq-nil (one_step drafts i s) (each_step drafts (suc i) steps) in
    let (one, one') = one_step_iff drafts i s in
    let (more, more') = each_step_iff drafts (suc i) steps in
    (λ h. (one (to h).0, more (to h).1), λ (a, b). from (one' a, more' b))

pub record IsConsistent (s : CareerSnapshot) : Type 0 where
  pub step_ids : IsDistinct (map (λ (t : CareerSnapshotStep). t.id) s.steps)
  pub step_orders : IsDistinct (map (λ (t : CareerSnapshotStep). t.order) s.steps)
  pub skill_ids : IsDistinct (map (λ (k : CareerSnapshotSkill). k.skill_id) s.skills)
  pub outlook_ids : IsDistinct (map (λ (o : CareerSnapshotOutlook). o.id) s.outlook)
  pub resource_ids : IsDistinct (resource_ids_of s)
  pub has_pathway : (s.steps ≡ []) ⊎ (s.pathway ≢ none)
  pub each : All (StepIsConsistent (resource_ids_of s)) s.steps

pathway_problems_iff :
    (s : CareerSnapshot) → (pathway_problems s ≡ []) ↔ ((s.steps ≡ []) ⊎ (s.pathway ≢ none))
unfolding pathway_problems
pathway_problems_iff s = ground arith

module _ {K : Type 0} ⦃e : Eq K⦄ (f : ℕ × ℕ → Problem) where
  section_iff :
      (keys : List K) (rest : List Problem)
      → (map f (duplicates keys) ++ rest ≡ []) ↔ (IsDistinct keys × (rest ≡ []))
  section_iff keys rest =
      let (to, from) = append-eq-nil (map f (duplicates keys)) rest in
      let (none_, none') = map-eq-nil f (duplicates keys) in
      (
        λ h. ((duplicates_iff keys).0 (none_ (to h).0), (to h).1),
        λ (d, r). from (none' ((duplicates_iff keys).1 d), r),
      )

-- The check finds no problem exactly when all ids and orders are distinct, there is a pathway
-- where there are steps, and each step names distinct skills and resources, its own among the
-- draft's resources.
pub find_snapshot_problems_iff :
    (s : CareerSnapshot) → (find_snapshot_problems s ≡ []) ↔ IsConsistent s
unfolding find_snapshot_problems
find_snapshot_problems_iff s = (
  λ h.
      let (a, h) = (section_iff _ (map (λ (t : CareerSnapshotStep). t.id) s.steps) _).0 h in
      let (b, h) = (section_iff _ (map (λ (t : CareerSnapshotStep). t.order) s.steps) _).0 h in
      let (c, h) = (section_iff _ (map (λ (k : CareerSnapshotSkill). k.skill_id) s.skills) _).0 h in
      let (d, h) = (section_iff _ (map (λ (o : CareerSnapshotOutlook). o.id) s.outlook) _).0 h in
      let (f, h) = (section_iff _ (resource_ids_of s) _).0 h in
      let (g, h) = (append-eq-nil (pathway_problems s) _).0 h in
      record {
        step_ids = a;
        step_orders = b;
        skill_ids = c;
        outlook_ids = d;
        resource_ids = f;
        has_pathway = (pathway_problems_iff s).0 g;
        each = (each_step_iff (resource_ids_of s) 0 s.steps).0 h;
      },
  λ c. (section_iff _ (map (λ (t : CareerSnapshotStep). t.id) s.steps) _).1 (
    c.step_ids,
    (section_iff _ (map (λ (t : CareerSnapshotStep). t.order) s.steps) _).1 (
      c.step_orders,
      (section_iff _ (map (λ (k : CareerSnapshotSkill). k.skill_id) s.skills) _).1 (
        c.skill_ids,
        (section_iff _ (map (λ (o : CareerSnapshotOutlook). o.id) s.outlook) _).1 (
          c.outlook_ids,
          (section_iff _ (resource_ids_of s) _).1 (
            c.resource_ids,
            (append-eq-nil (pathway_problems s) _).1 (
              (pathway_problems_iff s).1 c.has_pathway,
              (each_step_iff (resource_ids_of s) 0 s.steps).1 c.each,
            ),
          ),
        ),
      ),
    ),
  ),
)
