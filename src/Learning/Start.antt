-- ===== src/Learning/Start.antt =====
-- What `setStartingPoint` and `setActivePathway` do when they succeed.
use pathway_backend.Prelude.{
  String, Bool, true, false, ◌&&◌, Option, none, some, List, [], ◌∷◌, ◌≡◌, refl, ap, inl, inr,
  arith, Option-cases, updated, string_Eq, ◌==◌, eq_iff, if◌then◌else◌, Memᴰ, find-Memᴰ, ◌∙◌,
  find-eq-none, All-Memᴰ, any_of_Memᴰ,
}
use pathway_backend.Prelude.Members.{find-any}
use pathway_backend.Effects.{Effect, capture}
use pathway_backend.Handlers.{
  returns, Returned, or_throw-Returned, throw_if-Returned, Returned-returns,
}
use pathway_backend.Database.{PrismaClient, PrismaLaws}
use pathway_backend.Database.Reference.{update-found, find_unique-Memᴰ}
use pathway_backend.Progress.{Floats}
use pathway_backend.Learning.{
  Career, PathwayStep, Pathway, UserPathway, Tables, is_published, pathway_of_career,
  get_pathway_progress,
}
use pathway_backend.Learning.Pathways.{
  StartingPointResponse, ActivePathwayResponse, ActiveCareer, is_foreign_step, set_starting_point,
  set_active_pathway, activate, is_active_of, get_active_pathway, active_of_row, active_response,
  active_career, career_with_id,
}
use pathway_backend.Learning.Activated.{active_career_of, OnlyThis}
use pathway_backend.Learning.Active.{activate-active_career, activate-OnlyThis, activate-active}

-- The starting step, if one is given, is a step of the pathway.
abbrev pub IsStepOf : Tables → String → Option String → Type 0
IsStepOf t pathway_id none = Unit
IsStepOf t pathway_id (some step_id) =
    (s : PathwayStep) × Memᴰ s t.steps × (s.id ≡ step_id) × (s.pathway_id ≡ pathway_id)

own_step :
    {db : PrismaClient}
    → PrismaLaws db
    → (fl : Floats) (t : Tables) (pathway_id : String) (step_id : Option String)
    → is_foreign_step db fl t pathway_id step_id ≡ false
    → IsStepOf t pathway_id step_id
unfolding is_foreign_step
own_step laws fl t pathway_id none h = tt
own_step {db} laws fl t pathway_id (some step_id) h =
    let p : PathwayStep → Bool = λ s. s.id == step_id && s.pathway_id == pathway_id in
    elim (Option-cases (db.find_first PathwayStep p (λ _. 0) t.steps)) [
      | inl n ↦ absurd (cc (rw n at h))
      | inr (s, e) ↦
          let (m, k, _) = laws.find_first_some PathwayStep p (λ _. 0) t.steps s e in
          (
            s,
            m,
            ground (arith, eq_iff s.id step_id),
            ground (arith, eq_iff s.pathway_id pathway_id),
          )
    ]

module _ {db : PrismaClient} (laws : PrismaLaws db) (fl : Floats) (user_id career_id : String)
    (step_id : Option String) (t : Tables) where
  abbrev Started : StartingPointResponse → List Effect → Tables → Type 0
  Started response effects after =
      (u : UserPathway) × (p : Pathway) × Memᴰ u t.user_pathways
      × (u.user_id ≡ user_id)
      × (u.career_id ≡ career_id)
      × Memᴰ p t.pathways
      × (p.career_id ≡ career_id)
      × IsStepOf t p.id step_id
      × (after ≡ record t {
        user_pathways =
            updated (λ v. v.id == u.id) (λ v. record v { start_step_id = step_id }) t.user_pathways;
      })
      × (response ≡ record {
        career_id = career_id;
        start_step_id = step_id;
        progress = get_pathway_progress fl db t user_id p.id step_id;
      })
      × (effects ≡ [])

  set_starting_point-Started :
      Returned Started (set_starting_point db fl user_id career_id step_id t)
  unfolding set_starting_point get_pathway_progress
  set_starting_point-Started = or_throw-Returned Started _ _ t _ (λ saved e.
      or_throw-Returned Started (pathway_of_career db t saved.career_id) _ t _ (λ pathway f.
        throw_if-Returned Started (is_foreign_step db fl t pathway.id step_id) _ t _ (λ own.
          or_throw-Returned Started
            (db.update UserPathway (λ u. u.id == saved.id)
              (λ u. record u { start_step_id = step_id }) t.user_pathways)
            _ t _
            (λ row g.
              let (m, key, _) = laws.find_first_some UserPathway _ _ _ saved e in
              let (n, same) = find_unique-Memᴰ laws Pathway _ t.pathways f in
              let (_, _, _, rows) = update-found laws UserPathway _ _ t.user_pathways g in
              let same_user : saved.user_id ≡ user_id =
                ground (arith, eq_iff saved.user_id user_id) in
              let same_career : saved.career_id ≡ career_id =
                ground (arith, eq_iff saved.career_id career_id) in
              (
                saved,
                pathway,
                m,
                same_user,
                same_career,
                n,
                (eq_iff pathway.career_id saved.career_id).0 same ∙ same_career,
                own_step laws fl t pathway.id step_id own,
                ap (λ r. record t { user_pathways = r }) rows,
                refl,
                refl,
              )))))

-- When a starting point is set with success, the learner had saved the career, the career has a
-- pathway, and the step, if one is given, is a step of that pathway; only the starting point of that
-- row changes; and the answer is the progress along that pathway from that step.
pub set_starting_point-done :
    {db : PrismaClient}
    → PrismaLaws db
    → (fl : Floats) (user_id career_id : String) (step_id : Option String) (t : Tables)
      {response : StartingPointResponse} {effects : List Effect} {after : Tables}
    → set_starting_point db fl user_id career_id step_id t ≡ returns response effects after
    → (u : UserPathway) × (p : Pathway) × Memᴰ u t.user_pathways
      × (u.user_id ≡ user_id)
      × (u.career_id ≡ career_id)
      × Memᴰ p t.pathways
      × (p.career_id ≡ career_id)
      × IsStepOf t p.id step_id
      × (after ≡ record t {
        user_pathways =
            updated (λ v. v.id == u.id) (λ v. record v { start_step_id = step_id }) t.user_pathways;
      })
      × (response ≡ record {
        career_id = career_id;
        start_step_id = step_id;
        progress = get_pathway_progress fl db t user_id p.id step_id;
      })
      × (effects ≡ [])
set_starting_point-done {db} laws fl user_id career_id step_id t h =
    Returned-returns (Started laws fl user_id career_id step_id t)
      (set_starting_point db fl user_id career_id step_id t)
      (set_starting_point-Started laws fl user_id career_id step_id t) h

-- The learner's active row, as `getActivePathway` finds it, is for the career just activated.
find_active-activate :
    {db : PrismaClient}
    → PrismaLaws db
    → (row_id user_id career_id : String) (rows : List UserPathway)
    → (u : UserPathway) × (db.find_first UserPathway
          (is_active_of user_id)
          (λ _. 0)
          (activate db row_id user_id career_id rows)
        ≡ some u)
      × (u.career_id ≡ career_id)
find_active-activate {db} laws row_id user_id career_id rows =
    let after = activate db row_id user_id career_id rows in
    elim (Option-cases (db.find_first UserPathway (is_active_of user_id) (λ _. 0) after)) [
      | inl n ↦
          let (u, e) =
            find-any (is_active_of user_id) after
              (activate-active laws row_id user_id career_id rows) in
          let missing =
            find-eq-none (is_active_of user_id) after
              (laws.find_first_none UserPathway (is_active_of user_id) (λ _. 0) after n) in
          absurd (cc (missing, e))
      | inr (u, k) ↦
          let (m, is_on, _) =
            laws.find_first_some UserPathway (is_active_of user_id) (λ _. 0) after u k in
          (
            u,
            k,
            All-Memᴰ (OnlyThis user_id career_id) after
                (activate-OnlyThis laws row_id user_id career_id rows) m is_on,
          )
    ]

-- A career that some row with this id passes for is found by its id.
career-found :
    {db : PrismaClient}
    → PrismaLaws db
    → (id : String) (t : Tables) {c : Career} → Memᴰ c t.careers
    → c.id ≡ id
    → (d : Career) × (career_with_id db t id ≡ some d) × (d.id ≡ id)
career-found {db} laws id t {c} m e =
    let (d, f) =
      find-any (λ c. c.id == id) t.careers
        (any_of_Memᴰ (λ c. c.id == id) t.careers m ((eq_iff c.id id).1 e)) in
    let (_, k) = find-Memᴰ (λ c. c.id == id) t.careers f in
    (d, laws.find_unique_lem Career (λ c. c.id == id) t.careers ∙ f, (eq_iff d.id id).0 k)

module _ {db : PrismaClient} (laws : PrismaLaws db) (fl : Floats)
    (row_id user_id career_id : String) (t : Tables) where
  abbrev activated : Tables
  activated = record t { user_pathways = activate db row_id user_id career_id t.user_pathways }

  -- The answer of `getActivePathway` after the activation.
  active_answer :
      {c : Career} {p : Pathway}
      → Memᴰ c t.careers
      → c.id ≡ career_id
      → pathway_of_career db t career_id ≡ some p
      → (k : ActiveCareer) × ((get_active_pathway db fl user_id activated).career ≡ some k)
        × (k.id ≡ career_id)
        × ((get_active_pathway db fl user_id activated).pathway ≡ some (p.id, p.title))
  unfolding get_active_pathway active_of_row active_response
  active_answer m e f =
      let (u, found, same) = find_active-activate laws row_id user_id career_id t.user_pathways in
      let (d, g, k) = career-found laws career_id t m e in
      rw (found, same, g, f) (active_career d, refl, k, refl)

  abbrev ActiveIs : ActivePathwayResponse → List Effect → Tables → Type 0
  ActiveIs response effects after =
      (c : Career) × (p : Pathway) × (k : ActiveCareer) × Memᴰ c t.careers
      × (c.id ≡ career_id)
      × (is_published c.status ≡ true)
      × Memᴰ p t.pathways
      × (p.career_id ≡ career_id)
      × (response.career ≡ some k)
      × (k.id ≡ career_id)
      × (response.pathway ≡ some (p.id, p.title))
      × (effects ≡ capture "pathway_saved" user_id ∷ [])
      × (after ≡ record t { user_pathways = after.user_pathways })
      × ((other : String)
          → active_career_of after.user_pathways other
            ≡ (if other == user_id then some career_id else active_career_of t.user_pathways other))

  set_active_pathway-ActiveIs :
      Returned ActiveIs (set_active_pathway db fl row_id user_id career_id t)
  unfolding set_active_pathway
  set_active_pathway-ActiveIs = or_throw-Returned ActiveIs _ _ t _ (λ career e.
      or_throw-Returned ActiveIs (pathway_of_career db t career_id) _ t _ (λ pathway f.
        let (m, key, _) = laws.find_first_some Career _ _ _ career e in
        let (n, same) = find_unique-Memᴰ laws Pathway _ t.pathways f in
        let same_id : career.id ≡ career_id = ground (arith, eq_iff career.id career_id) in
        let (k, answered, named, shown) = active_answer m same_id f in
        (
          career,
          pathway,
          k,
          m,
          same_id,
          ground arith,
          n,
          (eq_iff pathway.career_id career_id).0 same,
          answered,
          named,
          shown,
          refl,
          refl,
          activate-active_career laws row_id user_id career_id t.user_pathways,
        )))

-- When a career is made the active one with success, it is a published career with a pathway; the
-- answer shows that career and that pathway; it is now the learner's active career and every other
-- learner's is as it was; only the rows of saved careers change; and one event is sent.
pub set_active_pathway-done :
    {db : PrismaClient}
    → PrismaLaws db
    → (fl : Floats) (row_id user_id career_id : String) (t : Tables)
      {response : ActivePathwayResponse} {effects : List Effect} {after : Tables}
    → set_active_pathway db fl row_id user_id career_id t ≡ returns response effects after
    → (c : Career) × (p : Pathway) × (k : ActiveCareer) × Memᴰ c t.careers
      × (c.id ≡ career_id)
      × (is_published c.status ≡ true)
      × Memᴰ p t.pathways
      × (p.career_id ≡ career_id)
      × (response.career ≡ some k)
      × (k.id ≡ career_id)
      × (response.pathway ≡ some (p.id, p.title))
      × (effects ≡ capture "pathway_saved" user_id ∷ [])
      × (after ≡ record t { user_pathways = after.user_pathways })
      × ((other : String)
          → active_career_of after.user_pathways other
            ≡ (if other == user_id then some career_id else active_career_of t.user_pathways other))
set_active_pathway-done {db} laws fl row_id user_id career_id t h =
    Returned-returns (ActiveIs laws fl row_id user_id career_id t)
      (set_active_pathway db fl row_id user_id career_id t)
      (set_active_pathway-ActiveIs laws fl row_id user_id career_id t) h
