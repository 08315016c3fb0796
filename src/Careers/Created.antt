-- ===== src/Careers/Created.antt =====
-- What a new career is.
use pathway_backend.Prelude.{
  String, Bool, false, some, List, [], ◌∷◌, ◌++◌, ◌≡◌, ◌≢◌, refl, sym, ap, inl, inr, Option-cases,
  is_some, string_Eq, ◌==◌, eq_iff, ◌∙◌, Memᴰ, find-Memᴰ, All,
}
use pathway_backend.Effects.{Effect}
use pathway_backend.Handlers.{
  returns, Returned, Returned-returns, or_throw-Returned, throw_if-Returned,
}
use pathway_backend.Database.{PrismaClient, PrismaLaws}
use pathway_backend.Snapshot.Consistency.{
  find_snapshot_problems, duplicates, duplicates_from, pathway_problems, each_step,
}
use pathway_backend.Plan.Build.{build_plan, plan_blockers}
use pathway_backend.Plan.Career.{career_blockers}
use pathway_backend.Plan.Skills.{no_skills_blocker, skill_blockers, no_skills_blockers}
use pathway_backend.Plan.Types.{PlanBlocker}
use pathway_backend.Revisions.{
  Career, ContentRevision, Tables, unpublished, live_career, step_learner_counts,
}
use pathway_backend.Careers.{
  CareerTables, Field, CreateCareerDto, CreatedCareer, create_career, initial_snapshot,
  draft_content, new_career, first_revision,
}

not_nil : {A : Type 0} (xs : List A) (y : A) (ys : List A) → xs ++ (y ∷ []) ++ ys ≢ []
not_nil [] y ys h = cc
not_nil (x ∷ xs) y ys h = cc

module _ (db : PrismaClient) (same_text : String → String → Bool) (dto : CreateCareerDto)
    (t : CareerTables) where
  -- The plan that takes the new career to its first revision.
  abbrev pub first_plan_blockers : Career → ContentRevision → Tables → List PlanBlocker
  first_plan_blockers c r after =
      let live = live_career db after c in
      (build_plan live r.snapshot r.base_version (step_learner_counts db after live.steps)).blockers

  abbrev pub WasCreated : CreatedCareer → List Effect → CareerTables → Type 0
  WasCreated result effects after =
      (result.career.content.title ≡ dto.title)
      × (result.career.content.slug ≡ dto.slug)
      × (result.career.content.description ≡ dto.description)
      × (result.career.status ≡ unpublished)
      × (result.revision.snapshot.career ≡ result.career.content)
      × All (λ (c : Career). same_text c.content.title dto.title ≡ false) t.tables.careers
      × All (λ (c : Career). same_text c.content.slug dto.slug ≡ false) t.tables.careers
      × ((f : Field) × Memᴰ f t.fields × (result.career.content.field_id ≡ some f.id))
      × (after.tables.careers ≡ t.tables.careers ++ result.career ∷ [])
      × (after.tables.revisions ≡ t.tables.revisions ++ result.revision ∷ [])
      × (result.revision.career_id ≡ result.career.id)
      × (result.revision.base_version ≡ result.career.version)
      × (find_snapshot_problems result.revision.snapshot ≡ [])
      × (first_plan_blockers result.career result.revision after.tables ≢ [])

module _ {db : PrismaClient} (laws : PrismaLaws db) (same_text : String → String → Bool)
    (dto : CreateCareerDto) (actor_user_id career_id revision_id : String) (t : CareerTables) where
  free_text :
      (p : Career → Bool)
      → is_some (db.find_first Career p (λ _. 0) t.tables.careers) ≡ false
      → All (λ (c : Career). p c ≡ false) t.tables.careers
  free_text p h = elim (Option-cases (db.find_first Career p (λ _. 0) t.tables.careers)) [
    | inl e ↦ laws.find_first_none Career p (λ _. 0) t.tables.careers e
    | inr (c, e) ↦ absurd (cc (rw e at h))
  ]

  no_problems :
      find_snapshot_problems (first_revision dto career_id revision_id actor_user_id).snapshot ≡ []
  unfolding find_snapshot_problems duplicates duplicates_from pathway_problems each_step
  no_problems = refl

  has_blocker :
      (after : Tables)
      → first_plan_blockers db same_text dto t
          (new_career dto career_id)
          (first_revision dto career_id revision_id actor_user_id)
          after
        ≢ []
  unfolding build_plan plan_blockers skill_blockers no_skills_blockers
  has_blocker after h =
      not_nil
        (career_blockers (live_career db after (new_career dto career_id))
          (initial_snapshot (draft_content dto)))
        no_skills_blocker _ h

  create_career-WasCreated :
      Returned
        (WasCreated db same_text dto t)
        (create_career db same_text dto actor_user_id career_id revision_id t)
  unfolding create_career
  create_career-WasCreated =
      or_throw-Returned (WasCreated db same_text dto t)
        (db.find_unique Field (λ f. f.id == dto.field_id) t.fields) _ t _
        (λ field e. throw_if-Returned (WasCreated db same_text dto t) _ _ t _ (λ title.
          throw_if-Returned (WasCreated db same_text dto t) _ _ t _ (λ slug.
            let (m, own) =
              find-Memᴰ (λ (f : Field). f.id == dto.field_id) t.fields
                (sym (laws.find_unique_lem Field (λ f. f.id == dto.field_id) t.fields) ∙ e) in
            (
              refl,
              refl,
              refl,
              refl,
              refl,
              free_text (λ c. same_text c.content.title dto.title) title,
              free_text (λ c. same_text c.content.slug dto.slug) slug,
              (field, m, ap some (sym ((eq_iff field.id dto.field_id).0 own))),
              laws.create_lem Career _ t.tables.careers,
              laws.create_lem ContentRevision _ t.tables.revisions,
              refl,
              refl,
              no_problems,
              has_blocker _,
            ))))

-- A career that is created has the requested title, slug and description and a field that exists; no
-- career had that title or that slug; it is not published and is added, with one revision, which is based on its version and whose snapshot has the same texts and
-- is consistent; the plan
-- of that revision has a blocker, so that an empty career is not submitted or published.
pub create_career-done :
    {db : PrismaClient}
    → PrismaLaws db
    → (same_text : String → String → Bool) (dto : CreateCareerDto)
      (actor_user_id career_id revision_id : String) (t : CareerTables) {result : CreatedCareer}
      {effects : List Effect} {after : CareerTables}
    → create_career db same_text dto actor_user_id career_id revision_id t
      ≡ returns result effects after
    → WasCreated db same_text dto t result effects after
create_career-done {db} laws same_text dto actor_user_id career_id revision_id t h =
    Returned-returns (WasCreated db same_text dto t)
      (create_career db same_text dto actor_user_id career_id revision_id t)
      (create_career-WasCreated laws same_text dto actor_user_id career_id revision_id t) h
