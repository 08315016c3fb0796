-- ===== src/Careers/Removed.antt =====
-- The retirement and the deletion of careers: published work is not deleted, whatever follows.
use pathway_backend.Prelude.{
  ℕ, String, Bool, true, false, some, List, ◌∷◌, [], ◌≡◌, refl, sym, subst, ap, inl, inr, arith,
  Bool-cases, any, All, All-map, All-append, All-updated, All-removed, All-Memᴰ_iff, updated,
  count_where, string_Eq, nat_Eq, nat_eq, ◌==◌, eq_iff, ◌∙◌, find-Memᴰ, is_none, any_of_Memᴰ,
}
use pathway_backend.Prelude.Members.{
  any-updated, any-concat, any-removed_apart, find-any, count_where_zero, Memᴰ-updated,
}
use pathway_backend.Exceptions.{ok, is_ok}
use pathway_backend.Effects.{Effect}
use pathway_backend.Handlers.{throws, tables_of, or_throw, or_throw-tables, throw_if-tables}
use pathway_backend.Database.{PrismaClient, PrismaLaws}
use pathway_backend.Database.Reference.{update-found}
use pathway_backend.Plan.Types.{PlanBlocker}
use pathway_backend.Revisions.{Career, Tables, Actor, retired}
use pathway_backend.Revisions.Lifecycle.{run-careers, succeeded}
use pathway_backend.Publishing.Publish.{Published, publish_revision, published_career}
use pathway_backend.Publishing.Passed.{publish_revision-WasWritten}
use pathway_backend.Publishing.Untouched.{publish_revision-failure}
use pathway_backend.Careers.{
  CareerTables, CreateCareerDto, is_deletable, delete_refused, reject_delete, create_career,
  retire_career, delete_career, new_career,
}
use pathway_backend.Careers.Steps.{
  Step, revised, publishing, creating, retiring, learning, deleting, Reach, here, next,
}

-- A row that has the id was published at some time.
abbrev PublishedRow : String → Career → Type 0
PublishedRow id c = (c.id == id) ≡ true → is_none c.published_at ≡ false

-- There is a row with the id, and each such row was published.
abbrev IsPublished : String → List Career → Type 0
IsPublished id rows = All (PublishedRow id) rows × (any (λ (c : Career). c.id == id) rows ≡ true)

updated-IsPublished :
    (id : String) (p : Career → Bool) (f : Career → Career) (rows : List Career)
    → ((c : Career) → (f c).id ≡ c.id)
    → ((c : Career) → is_none c.published_at ≡ false → is_none (f c).published_at ≡ false)
    → IsPublished id rows
    → IsPublished id (updated p f rows)
updated-IsPublished id p f rows ids keeps (each, there) = (
  All-updated (PublishedRow id) p f rows
      (λ c h _ own. keeps c (h (ap (λ x. x == id) (sym (ids c)) ∙ own))) each,
  any-updated (λ (c : Career). c.id == id) p f rows (λ c. ap (λ x. x == id) (ids c)) ∙ there,
)

-- A row that was published is not deletable.
kept_row :
    (t : CareerTables) (id other : String) (c : Career)
    → PublishedRow id c
    → (c.id == id) ≡ true
    → is_deletable t other c ≡ false
kept_row t id other c h own = ground (arith, h own)

module _ {db : PrismaClient} (laws : PrismaLaws db) where
  publishing-IsPublished :
      (new_id : String → String) (message : PlanBlocker → String) (id revision_id : String)
      (actor : Actor) (now : ℕ) (t : Tables)
      → IsPublished id t.careers
      → IsPublished id (publish_revision db new_id message revision_id actor now t).2.careers
  publishing-IsPublished new_id message id revision_id actor now t h =
      let x = publish_revision db new_id message revision_id actor now t in
      elim (Bool-cases (is_ok x.0)) [
        | inl ok_ ↦
            let (_, c, review, s, _, _, _, _, _, _, _, _, _, _, e, _, _) =
              publish_revision-WasWritten laws new_id message revision_id actor now t
                (succeeded x ok_).1 in
            subst (IsPublished id) (sym (ap (λ (z : Tables). z.careers) e)) (
              updated-IsPublished id (λ x. x.id == c.id) (published_career s actor review now)
                t.careers (λ x. refl) (λ x _. refl) h)
        | inr fails ↦
            subst (λ (z : Tables). IsPublished id z.careers)
              (sym (publish_revision-failure db new_id revision_id actor now t message fails).1) h
      ]

  created-IsPublished :
      (id : String) (same_text : String → String → Bool) (dto : CreateCareerDto)
      (actor_user_id career_id revision_id : String) (t : CareerTables)
      → any (λ (c : Career). c.id == career_id) t.tables.careers ≡ false
      → IsPublished id t.tables.careers
      → IsPublished id
          (tables_of
            (create_career db same_text dto actor_user_id career_id revision_id t)).tables.careers
  unfolding create_career
  created-IsPublished id same_text dto actor_user_id career_id revision_id t free h =
      let Q : CareerTables → Type 0 = λ z. IsPublished id z.tables.careers in
      or_throw-tables Q _ _ t _ h (λ field _. throw_if-tables Q _ _ t _ h (λ _.
        throw_if-tables Q _ _ t _ h (λ _.
          let n = new_career dto career_id in
          rw (laws.create_lem Career n t.tables.careers) (
            All-append (PublishedRow id) t.tables.careers (n ∷ []) h.0 (
              λ own. absurd (
                  cc (
                    ap (λ z. any (λ (c : Career). c.id == z) t.tables.careers)
                        ((eq_iff career_id id).0 own),
                    free,
                    h.1,
                  )),
              tt,
            ),
            any-concat (λ (c : Career). c.id == id) t.tables.careers n ∙ rw (h.1) refl,
          ))))

  retired-IsPublished :
      (id other actor_user_id : String) (t : CareerTables)
      → IsPublished id t.tables.careers
      → IsPublished id (tables_of (retire_career db other actor_user_id t)).tables.careers
  unfolding retire_career
  retired-IsPublished id other actor_user_id t h =
      let Q : CareerTables → Type 0 = λ z. IsPublished id z.tables.careers in
      or_throw-tables Q _ _ t _ h (λ row _. throw_if-tables Q _ _ t _ h (λ _.
        or_throw-tables Q _ _ t _ h (λ e changed.
          let (_, _, _, rows) = update-found laws Career _ _ t.tables.careers changed in
          subst (IsPublished id) (sym rows) (
            updated-IsPublished id (λ c. c.id == other) (λ c. record c { status = retired })
              t.tables.careers (λ x. refl) (λ x k. k) h))))

  removed-IsPublished :
      (id other actor_user_id : String) (t : CareerTables)
      → IsPublished id t.tables.careers
      → IsPublished id (tables_of (delete_career db other actor_user_id t)).tables.careers
  unfolding delete_career reject_delete
  removed-IsPublished id other actor_user_id t (each, there) =
      let Q : CareerTables → Type 0 = λ z. IsPublished id z.tables.careers in
      let p = is_deletable t other in
      let deletable = laws.delete_many_lem Career p t.tables.careers in
      elim (Bool-cases (nat_eq (count_where p t.tables.careers) 0)) [
        | inl z ↦ rw (deletable, z) (or_throw-tables Q _ _ t _ (each, there) (λ c _. (each, there)))
        | inr z ↦
            rw (deletable, z)
              (
                All-removed (PublishedRow id) p t.tables.careers each,
                any-removed_apart (λ (c : Career). c.id == id) p t.tables.careers
                      (All-map _ t.tables.careers (λ c k own. kept_row t id other c k own) each)
                    ∙ there,
              )
      ]

  -- Where each row of a career was published, the deletion is refused and changes nothing.
  refused_rows :
      (id actor_user_id : String) (t : CareerTables)
      → IsPublished id t.tables.careers
      → delete_career db id actor_user_id t ≡ throws delete_refused t
  unfolding delete_career reject_delete or_throw
  refused_rows id actor_user_id t (each, there) =
      let (c, found_c) = find-any (λ (c : Career). c.id == id) t.tables.careers there in
      let here_ : db.find_unique Career (λ c. c.id == id) t.tables.careers ≡ some c =
        laws.find_unique_lem Career (λ c. c.id == id) t.tables.careers ∙ found_c in
      let none_deleted : count_where (is_deletable t id) t.tables.careers ≡ 0 =
        count_where_zero (is_deletable t id) t.tables.careers (
          All-map _ t.tables.careers
            (λ c k. elim (Bool-cases (c.id == id)) [
              | inl own ↦ kept_row t id id c k own
              | inr not_own ↦ ground arith
            ])
            each) in
      rw (laws.delete_many_lem Career (is_deletable t id) t.tables.careers, none_deleted, here_)
        refl

module _ {db : PrismaClient} (laws : PrismaLaws db) (trim : String → String)
    (same_text : String → String → Bool) (new_id : String → String) (message : PlanBlocker → String)
    (id : String) where
  next-IsPublished :
      {t u : CareerTables}
      → IsPublished id t.tables.careers
      → Step db trim same_text new_id message t u
      → IsPublished id u.tables.careers
  next-IsPublished {t} h (revised c) =
      subst (IsPublished id) (sym (run-careers laws trim c t.tables)) h
  next-IsPublished {t} h (publishing revision_id actor now) =
      publishing-IsPublished laws new_id message id revision_id actor now t.tables h
  next-IsPublished {t} h (creating dto by career_id revision_id free _) =
      created-IsPublished laws id same_text dto by career_id revision_id t free h
  next-IsPublished {t} h (retiring other by) = retired-IsPublished laws id other by t h
  next-IsPublished {t} h (learning user_pathways user_steps) = h
  next-IsPublished {t} h (deleting other by) = removed-IsPublished laws id other by t h

  reach-IsPublished :
      {t u : CareerTables}
      → IsPublished id t.tables.careers
      → Reach db trim same_text new_id message t u
      → IsPublished id u.tables.careers
  reach-IsPublished h here = h
  reach-IsPublished h (next r s) = next-IsPublished (reach-IsPublished h r) s

module _ {db : PrismaClient} (laws : PrismaLaws db) (new_id : String → String)
    (message : PlanBlocker → String) (revision_id : String) (actor : Actor) (now : ℕ) (t : Tables)
    {result : Published} {effects : List Effect} {after : Tables} where
  publish_revision-IsPublished :
      publish_revision db new_id message revision_id actor now t ≡ (ok result, effects, after)
      → IsPublished result.career_id after.careers
  publish_revision-IsPublished h =
      let (r, c, review, s, _, found_c, _, _, _, _, _, _, _, _, e, same_result, _) =
        publish_revision-WasWritten laws new_id message revision_id actor now t h in
      let p : Career → Bool = λ x. x.id == c.id in
      let f : Career → Career = published_career s actor review now in
      let (m, _) = find-Memᴰ (λ (x : Career). x.id == r.career_id) t.careers found_c in
      let rows : after.careers ≡ updated p f t.careers = ap (λ z. z.careers) e in
      let same : result.career_id ≡ c.id = ap (λ z. z.career_id) same_result in
      let marked : IsPublished c.id (updated p f t.careers) = (
        All-Memᴰ_iff (PublishedRow c.id) (updated p f t.careers) (λ y k.
            let (x, _, i) = Memᴰ-updated p f t.careers k in
            subst (PublishedRow c.id) (sym i) (elim (Bool-cases (p x)) [
              | inl q ↦ rw q (λ _. refl)
              | inr q ↦ rw q (λ own. absurd (cc (own, q)))
            ])),
        any-updated p p f t.careers (λ x. refl)
            ∙ any_of_Memᴰ p t.careers m ((eq_iff c.id c.id).1 refl),
      ) in
      subst (λ (own : String). IsPublished own after.careers) (sym same)
        (subst (IsPublished c.id) (sym rows) marked)

-- After a revision is published, its career can never be deleted: whatever commands over careers and
-- revisions follow, failing ones and any writes of learners included, a deletion of the career is
-- refused and changes nothing. The creation of a career takes ids that are not in use.
pub publish_revision-delete_career :
    {db : PrismaClient}
    → PrismaLaws db
    → (trim : String → String) (same_text : String → String → Bool) (new_id : String → String)
      (message : PlanBlocker → String) (revision_id : String) (actor : Actor) (now : ℕ)
      (t later : CareerTables) {result : Published} {effects : List Effect} {after : Tables}
      (actor_user_id : String)
    → publish_revision db new_id message revision_id actor now t.tables
      ≡ (ok result, effects, after)
    → Reach db trim same_text new_id message (record t { tables = after }) later
    → delete_career db result.career_id actor_user_id later ≡ throws delete_refused later
publish_revision-delete_career laws trim same_text new_id message revision_id actor now t later
      {result} actor_user_id h reach =
    refused_rows laws result.career_id actor_user_id later (
      reach-IsPublished laws trim same_text new_id message result.career_id
        (publish_revision-IsPublished laws new_id message revision_id actor now t.tables h) reach)
