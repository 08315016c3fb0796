-- ===== src/Careers/Sound.antt =====
-- Every command over careers, revisions and reviews keeps the tables sound.
use pathway_backend.Prelude.{
  ℕ, String, Bool, false, ◌&&◌, List, [], ◌∷◌, ◌++◌, ◌≡◌, inl, inr, refl, sym, ◌∙◌, ap, arith,
  Bool-cases, Memᴰ, All-append, All-Memᴰ, All-Memᴰ_iff, any, removed, updated, count_where, nat_eq,
  nat_Eq, ◌==◌, string_Eq, eq_iff,
}
use pathway_backend.Prelude.Members.{
  Memᴰ-last_cases, any-removed_apart, any-false, any-Memᴰ, All-of-removed,
}
use pathway_backend.Exceptions.{is_ok}
use pathway_backend.Handlers.{tables_of, or_throw-tables, throw_if-tables}
use pathway_backend.Database.{PrismaClient, PrismaLaws}
use pathway_backend.Plan.Types.{PlanBlocker}
use pathway_backend.Revisions.{Tables, Career, ContentRevision, Review, Actor, published}
use pathway_backend.Revisions.Soundness.{
  IsSound, UniqueIds, HasApproval, approves, updated-IsSound, UniqueIds-removed,
}
use pathway_backend.Revisions.Lifecycle.{run-IsSound, succeeded}
use pathway_backend.Publishing.Publish.{publish_revision}
use pathway_backend.Publishing.Untouched.{publish_revision-failure}
use pathway_backend.Publishing.Passed.{publish_revision-WasWritten}
use pathway_backend.Careers.{
  CareerTables, CreateCareerDto, create_career, retire_career, delete_career, reject_delete,
  is_deletable, is_review_of, first_revision,
}
use pathway_backend.Careers.Steps.{
  Step, revised, publishing, creating, retiring, learning, deleting, Reach, here, next,
}

-- Soundness is a matter of two tables.
same-IsSound :
    (t u : Tables) → u.revisions ≡ t.revisions → u.reviews ≡ t.reviews → IsSound t → IsSound u
same-IsSound t u e f sound = record { unique = rw e (sound.unique); each = rw (e, f) (sound.each) }

published-IsSound :
    {db : PrismaClient}
    → PrismaLaws db
    → (new_id : String → String) (message : PlanBlocker → String) (revision_id : String)
      (actor : Actor) (now : ℕ) (t : Tables)
    → IsSound t
    → IsSound (publish_revision db new_id message revision_id actor now t).2
unfolding HasApproval
published-IsSound {db} laws new_id message revision_id actor now t sound =
    let x = publish_revision db new_id message revision_id actor now t in
    elim (Bool-cases (is_ok x.0)) [
      | inl ok_ ↦
          let (_, _, _, _, _, _, _, _, _, _, _, _, _, _, e, _, _) =
            publish_revision-WasWritten laws new_id message revision_id actor now t
              (succeeded x ok_).1 in
          let marked : Tables = record t {
            revisions =
                updated (λ (r : ContentRevision). r.id == revision_id)
                  (λ r. record r { status = published }) t.revisions;
          } in
          same-IsSound marked x.2 (ap (λ z. z.revisions) e) (ap (λ z. z.reviews) e)
            (updated-IsSound t marked _ _ (λ r. refl) (λ r h q. inl (ground arith)) refl sound)
      | inr fails ↦
          rw ((publish_revision-failure db new_id revision_id actor now t message fails).1) sound
    ]

-- A draft with an id that no revision has is added.
added-UniqueIds :
    (rows : List ContentRevision) (n : ContentRevision)
    → any (λ (r : ContentRevision). r.id == n.id) rows ≡ false
    → UniqueIds rows
    → UniqueIds (rows ++ n ∷ [])
added-UniqueIds rows n free unique r s m k e =
    let others = any-false (λ (r : ContentRevision). r.id == n.id) rows free in
    elim (Memᴰ-last_cases rows n m) [
      | inl mr ↦ elim (Memᴰ-last_cases rows n k) [
        | inl ms ↦ unique r s mr ms e
        | inr es ↦
            absurd (ground (arith, All-Memᴰ _ rows others mr, eq_iff r.id n.id, ap (λ z. z.id) es))
      ]
      | inr er ↦ elim (Memᴰ-last_cases rows n k) [
        | inl ms ↦
            absurd (ground (arith, All-Memᴰ _ rows others ms, eq_iff s.id n.id, ap (λ z. z.id) er))
        | inr es ↦ er ∙ sym es
      ]
    ]

module _ {db : PrismaClient} (laws : PrismaLaws db) where
  created-IsSound :
      (same_text : String → String → Bool) (dto : CreateCareerDto)
      (actor_user_id career_id revision_id : String) (t : CareerTables)
      → any (λ (r : ContentRevision). r.id == revision_id) t.tables.revisions ≡ false
      → IsSound t.tables
      → IsSound
          (tables_of (create_career db same_text dto actor_user_id career_id revision_id t)).tables
  unfolding create_career HasApproval
  created-IsSound same_text dto actor_user_id career_id revision_id t free sound =
      let Q : CareerTables → Type 0 = λ z. IsSound z.tables in
      or_throw-tables Q _ _ t _ sound (λ field _. throw_if-tables Q _ _ t _ sound (λ _.
        throw_if-tables Q _ _ t _ sound (λ _.
          let r = first_revision dto career_id revision_id actor_user_id in
          rw (laws.create_lem ContentRevision r t.tables.revisions) (record {
            unique = added-UniqueIds t.tables.revisions r free sound.unique;
            each = All-append _ t.tables.revisions (r ∷ []) sound.each (inl (ground arith), tt);
          }))))

  retired-IsSound :
      (id actor_user_id : String) (t : CareerTables)
      → IsSound t.tables
      → IsSound (tables_of (retire_career db id actor_user_id t)).tables
  unfolding retire_career
  retired-IsSound id actor_user_id t sound =
      let Q : CareerTables → Type 0 = λ z. IsSound z.tables in
      or_throw-tables Q _ _ t _ sound (λ row _. throw_if-tables Q _ _ t _ sound (λ _.
        or_throw-tables Q _ _ t _ sound
          (λ e _. record { unique = sound.unique; each = sound.each })))

  -- The reviews that go with a career's revisions approve none of the others.
  kept_approval :
      (id : String) (t : Tables) (r : ContentRevision)
      → UniqueIds t.revisions
      → Memᴰ r t.revisions
      → (r.career_id == id) ≡ false
      → HasApproval t.reviews r
      → HasApproval (removed (is_review_of t.revisions id) t.reviews) r
  unfolding HasApproval
  kept_approval id t r unique m other (inl h) = inl h
  kept_approval id t r unique m other (inr h) = inr (
      any-removed_apart (approves r.id) (is_review_of t.revisions id) t.reviews (
        All-Memᴰ_iff _ t.reviews (λ v _ own. elim (Bool-cases (is_review_of t.revisions id v)) [
          | inr e ↦ e
          | inl e ↦
              let (s, k, q) =
                any-Memᴰ (λ (s : ContentRevision). s.career_id == id && s.id == v.revision_id)
                  t.revisions e in
              let same : r ≡ s =
                unique r s m k
                  (ground (arith, eq_iff v.revision_id r.id, eq_iff s.id v.revision_id)) in
              absurd (cc (ap (λ (z : ContentRevision). z.career_id == id) same, other, q))
        ]))
      ∙ h)

  removed-IsSound :
      (id actor_user_id : String) (t : CareerTables)
      → IsSound t.tables
      → IsSound (tables_of (delete_career db id actor_user_id t)).tables
  unfolding delete_career reject_delete
  removed-IsSound id actor_user_id t sound =
      let Q : CareerTables → Type 0 = λ z. IsSound z.tables in
      let p : ContentRevision → Bool = λ r. r.career_id == id in
      let rows = t.tables.revisions in
      let deletable = laws.delete_many_lem Career (is_deletable t id) t.tables.careers in
      elim (Bool-cases (nat_eq (count_where (is_deletable t id) t.tables.careers) 0)) [
        | inl z ↦ rw (deletable, z) (or_throw-tables Q _ _ t _ sound (λ c _. sound))
        | inr z ↦
            rw
              (
                deletable,
                z,
                laws.delete_many_lem ContentRevision p rows,
                laws.delete_many_lem Review (is_review_of rows id) t.tables.reviews,
              )
              (record {
                unique = UniqueIds-removed p rows sound.unique;
                each = All-Memᴰ_iff _ (removed p rows) (λ r m.
                    let (k, other) = All-Memᴰ _ (removed p rows) (All-of-removed p rows) m in
                    kept_approval id t.tables r sound.unique k other
                      (All-Memᴰ _ rows sound.each k));
              })
      ]

module _ {db : PrismaClient} (laws : PrismaLaws db) (trim : String → String)
    (same_text : String → String → Bool) (new_id : String → String)
    (message : PlanBlocker → String) where
  next-IsSound :
      {t u : CareerTables}
      → IsSound t.tables
      → Step db trim same_text new_id message t u
      → IsSound u.tables
  next-IsSound {t} sound (revised c) = run-IsSound laws trim c t.tables sound
  next-IsSound {t} sound (publishing id actor now) =
      published-IsSound laws new_id message id actor now t.tables sound
  next-IsSound {t} sound (creating dto by career_id revision_id _ free) =
      created-IsSound laws same_text dto by career_id revision_id t free sound
  next-IsSound {t} sound (retiring id by) = retired-IsSound laws id by t sound
  next-IsSound {t} sound (learning user_pathways user_steps) =
      same-IsSound t.tables (record t.tables { user_steps = user_steps }) refl refl sound
  next-IsSound {t} sound (deleting id by) = removed-IsSound laws id by t sound

-- However the commands of the revisions service follow each other, publishing, and the creation,
-- retirement and deletion of careers, failing calls and any writes of learners included: the ids of
-- the revisions stay unique, and each approved revision keeps a review that approves it. The creation
-- of a career takes ids that are not in use.
pub reach-IsSound :
    {db : PrismaClient}
    → PrismaLaws db
    → (trim : String → String) (same_text : String → String → Bool) (new_id : String → String)
      (message : PlanBlocker → String) {t u : CareerTables}
    → IsSound t.tables
    → Reach db trim same_text new_id message t u
    → IsSound u.tables
reach-IsSound laws trim same_text new_id message sound here = sound
reach-IsSound laws trim same_text new_id message sound (next r s) =
    next-IsSound laws trim same_text new_id message
      (reach-IsSound laws trim same_text new_id message sound r) s
