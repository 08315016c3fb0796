-- ===== src/Learning/Saved.antt =====
-- The list of saved careers against the progress along one pathway.
use pathway_backend.Prelude.{
  String, Bool, ◌&&◌, Option, none, some, List, [], ◌∷◌, ◌≡◌, refl, ap, inl, inr, arith, Bool-cases,
  All, All-append, All-select, All-map, select, any, map, concat_map, string_Eq, ◌==◌, eq_iff, Memᴰ,
  find, find-Memᴰ, any_of_Memᴰ, subst, sym, true, ◌∙◌,
}
use pathway_backend.Prelude.Members.{Memᴰ-select, Memᴰ-concat_map}
use pathway_backend.Database.{PrismaClient, PrismaLaws}
use pathway_backend.Database.Reference.{client_eq, find_unique-Memᴰ}
use pathway_backend.Progress.{Floats, ProgressSummary}
use pathway_backend.Learning.{
  Career, Pathway, PathwayStep, UserPathway, UserPathwayStep, Tables, on_pathway,
  get_pathway_progress, pathway_of_career, step_progress, for_progress, progress_from,
  is_published_or_retired,
}
use pathway_backend.Learning.Pathways.{
  SavedPathway, saved_pathway, get_saved_pathways, career_with_id, may_be_saved,
}

concat_map-All :
    {A B : Type 0} (P : B → Type 0) (f : A → List B) (xs : List A)
    → All (λ x. All P (f x)) xs
    → All P (concat_map f xs)
concat_map-All P f [] h = tt
concat_map-All P f (x ∷ xs) (k, h) =
    All-append P (f x) (concat_map f xs) k (concat_map-All P f xs h)

any-select :
    {A : Type 0} (p q : A → Bool) (xs : List A) → any q (select p xs) ≡ any (λ x. q x && p x) xs
any-select p q [] = refl
any-select p q (x ∷ xs) = ground (arith, any-select p q xs)

-- The steps of a learner on a pathway, by the ids of its steps or by the relation.
select-on_pathway :
    (t : Tables) (user_id pathway_id : String) (rows : List UserPathwayStep)
    → select
        (λ (v : UserPathwayStep).
          any
            (λ (s : PathwayStep). s.id == v.pathway_step_id)
            (select (λ (s : PathwayStep). s.pathway_id == pathway_id) t.steps))
        (select (λ v. v.user_id == user_id) rows)
      ≡ select (on_pathway t user_id pathway_id) rows
select-on_pathway t user_id pathway_id [] = refl
select-on_pathway t user_id pathway_id (v ∷ rows) =
    let same =
      any-select (λ (s : PathwayStep). s.pathway_id == pathway_id)
        (λ (s : PathwayStep). s.id == v.pathway_step_id) t.steps in
    elim (Bool-cases (v.user_id == user_id)) [
      | inl e ↦ rw (e, same, select-on_pathway t user_id pathway_id rows) refl
      | inr e ↦ rw e (select-on_pathway t user_id pathway_id rows)
    ]

module _ {db : PrismaClient} (laws : PrismaLaws db) (fl : Floats) (user_id : String)
    (t : Tables) where
  abbrev AsProgress : SavedPathway → Type 0
  AsProgress s =
      (u : UserPathway) × (p : Pathway) × Memᴰ u t.user_pathways
      × (u.user_id ≡ user_id)
      × Memᴰ p t.pathways
      × (p.career_id ≡ u.career_id)
      × (s.career_id ≡ u.career_id)
      × (s.is_active ≡ u.is_active)
      × (let g = (get_pathway_progress fl db t user_id p.id u.start_step_id).summary in
          (s.completed ≡ g.completed) × (s.total ≡ g.total) × (s.percentage ≡ g.percentage))

  abbrev along : String → Option String → List UserPathwayStep → ProgressSummary
  along pathway_id start_step_id rows =
      (progress_from fl
        (map for_progress (db.find_many PathwayStep (λ s. s.pathway_id == pathway_id) t.steps))
        (map step_progress rows) start_step_id).summary

  relevant_rows :
      (pathway_id : String)
      → select
          (λ (v : UserPathwayStep).
            any
              (λ (s : PathwayStep). s.id == v.pathway_step_id)
              (db.find_many PathwayStep (λ s. s.pathway_id == pathway_id) t.steps))
          (db.find_many UserPathwayStep (λ v. v.user_id == user_id) t.user_steps)
        ≡ db.find_many UserPathwayStep (on_pathway t user_id pathway_id) t.user_steps
  relevant_rows pathway_id =
      rw (client_eq laws) (select-on_pathway t user_id pathway_id t.user_steps)

  saved_pathway-AsProgress :
      (u : UserPathway)
      → Memᴰ u t.user_pathways
      → u.user_id ≡ user_id
      → (c : Option Career) (p : Option Pathway) → career_with_id db t u.career_id ≡ c
      → pathway_of_career db t u.career_id ≡ p
      → All AsProgress (
          saved_pathway db fl t
            (db.find_many UserPathwayStep (λ v. v.user_id == user_id) t.user_steps)
            u
            c
            p)
  unfolding saved_pathway get_pathway_progress
  saved_pathway-AsProgress u m e none p f g = tt
  saved_pathway-AsProgress u m e (some c) none f g = tt
  saved_pathway-AsProgress u m e (some c) (some p) f g =
      let (there, same) = find_unique-Memᴰ laws Pathway _ t.pathways g in
      let (_, own) = find_unique-Memᴰ laws Career _ t.careers f in
      let rows = relevant_rows p.id in
      (
        (
          u,
          p,
          m,
          e,
          there,
          (eq_iff p.career_id u.career_id).0 same,
          (eq_iff c.id u.career_id).0 own,
          refl,
          (
            ap (λ r. (along p.id u.start_step_id r).completed) rows,
            ap (λ r. (along p.id u.start_step_id r).total) rows,
            ap (λ r. (along p.id u.start_step_id r).percentage) rows,
          ),
        ),
        tt,
      )

  get_saved_pathways-AsProgress : All AsProgress (get_saved_pathways db fl user_id t)
  unfolding get_saved_pathways
  get_saved_pathways-AsProgress =
      let p : UserPathway → Bool = λ u. u.user_id == user_id && may_be_saved db t u in
      rw (laws.find_many_lem UserPathway p t.user_pathways) (
        concat_map-All AsProgress _ (select p t.user_pathways) (
          All-map _ (select p t.user_pathways)
            (λ u k.
              let (m, h) = k in
              saved_pathway-AsProgress u m (ground (arith, eq_iff u.user_id user_id)) _ _ refl refl)
            (All-select p t.user_pathways)))

  -- The row is saved by the learner, on a career that is published or retired and has a pathway.
  abbrev IsListed : UserPathway → Type 0
  IsListed u =
      Memᴰ u t.user_pathways
      × (u.user_id ≡ user_id)
      × ((c : Career) × (find (λ (x : Career). x.id == u.career_id) t.careers ≡ some c)
          × (is_published_or_retired c.status ≡ true))
      × ((p : Pathway) × (find (λ (x : Pathway). x.career_id == u.career_id) t.pathways ≡ some p))

  abbrev Lists : UserPathway → Type 0
  Lists u =
      (s : SavedPathway) × Memᴰ s (get_saved_pathways db fl user_id t)
      × (s.career_id ≡ u.career_id)
      × (s.is_active ≡ u.is_active)

  entry_of :
      (u : UserPathway) (c : Career) (p : Pathway)
      → (s : SavedPathway) × Memᴰ s (
          saved_pathway db fl t
            (db.find_many UserPathwayStep (λ v. v.user_id == user_id) t.user_steps)
            u
            (some c)
            (some p))
        × (s.career_id ≡ c.id)
        × (s.is_active ≡ u.is_active)
  unfolding saved_pathway
  entry_of u c p = (_, Memᴰ.head refl, refl, refl)

  IsListed-Lists : (u : UserPathway) → IsListed u → Lists u
  unfolding get_saved_pathways
  IsListed-Lists u (m, own, (c, found_c, shown), (p, found_p)) =
      let test : UserPathway → Bool = λ u. u.user_id == user_id && may_be_saved db t u in
      let (there, key) = find-Memᴰ (λ (x : Career). x.id == u.career_id) t.careers found_c in
      let passes : test u ≡ true = ground (
        arith,
        (eq_iff u.user_id user_id).1 own,
        any_of_Memᴰ (λ (x : Career). x.id == u.career_id && is_published_or_retired x.status)
            t.careers there (ground (arith, key, shown)),
      ) in
      let rows : db.find_many UserPathway test t.user_pathways ≡ select test t.user_pathways =
        laws.find_many_lem UserPathway test t.user_pathways in
      let listed : Memᴰ u (db.find_many UserPathway test t.user_pathways) =
        subst (Memᴰ u) (sym rows) (Memᴰ-select test t.user_pathways m passes) in
      let (s, n, same, active) = entry_of u c p in
      let here_c : career_with_id db t u.career_id ≡ some c =
        laws.find_unique_lem Career (λ x. x.id == u.career_id) t.careers ∙ found_c in
      let here_p : pathway_of_career db t u.career_id ≡ some p =
        laws.find_unique_lem Pathway (λ x. x.career_id == u.career_id) t.pathways ∙ found_p in
      (
        s,
        Memᴰ-concat_map _ (db.find_many UserPathway test t.user_pathways) listed
            (rw (here_c, here_p) n),
        same ∙ (eq_iff c.id u.career_id).0 key,
        active,
      )

-- The list of saved careers has an entry for each row that the learner saved on a career that is
-- published or retired and has a pathway; and each entry is one of the learner's saved rows, whose
-- career has a pathway, with the figures of the progress along that pathway from that row's start.
pub get_saved_pathways-progress :
    {db : PrismaClient}
    → PrismaLaws db
    → (fl : Floats) (user_id : String) (t : Tables)
    → ((u : UserPathway)
        → Memᴰ u t.user_pathways
          × (u.user_id ≡ user_id)
          × ((c : Career) × (find (λ (x : Career). x.id == u.career_id) t.careers ≡ some c)
              × (is_published_or_retired c.status ≡ true))
          × ((p : Pathway) × (find (λ (x : Pathway). x.career_id == u.career_id) t.pathways
                ≡ some p))
        → (s : SavedPathway) × Memᴰ s (get_saved_pathways db fl user_id t)
          × (s.career_id ≡ u.career_id)
          × (s.is_active ≡ u.is_active))
      × All
          (λ (s : SavedPathway).
            (u : UserPathway) × (p : Pathway) × Memᴰ u t.user_pathways
            × (u.user_id ≡ user_id)
            × Memᴰ p t.pathways
            × (p.career_id ≡ u.career_id)
            × (s.career_id ≡ u.career_id)
            × (s.is_active ≡ u.is_active)
            × (let g = (get_pathway_progress fl db t user_id p.id u.start_step_id).summary in
                (s.completed ≡ g.completed) × (s.total ≡ g.total) × (s.percentage ≡ g.percentage)))
          (get_saved_pathways db fl user_id t)
get_saved_pathways-progress laws fl user_id t =
    (IsListed-Lists laws fl user_id t, get_saved_pathways-AsProgress laws fl user_id t)
