-- ===== src/Revisions/Soundness.antt =====
-- Sound tables, and what each command's result keeps of them.
use pathway_backend.Prelude.{
  ℕ, String, Bool, true, false, ◌&&◌, Option, List, [], ◌∷◌, ◌++◌, ◌≡◌, ◌≢◌, ◌⊎◌, inl, inr, refl,
  sym, ◌∙◌, ap, arith, Bool-cases, Memᴰ, All, All-map, All-updated, All-removed, any, updated,
  removed, count_where, nat_eq, ◌==◌, string_Eq, nat_Eq, eq_iff, if◌then◌else◌, All-Memᴰ,
  All-Memᴰ_iff,
}
use pathway_backend.Prelude.Members.{Memᴰ-updated, All-of-removed, count-found, any-concat}
use pathway_backend.Effects.{Effect}
use pathway_backend.Database.{PrismaClient, PrismaLaws}
use pathway_backend.Snapshot.{CareerSnapshot}
use pathway_backend.Revisions.{
  approved, ReviewDecision, approve, reject, is_draft, is_approval, Tables, ContentRevision, Review,
  Actor,
}
use pathway_backend.Revisions.Editing.{Rebased, delete_draft_revision}
use pathway_backend.Revisions.Reviewing.{trimmed_note}
use pathway_backend.Revisions.Approval.{decided, WasReviewed, IsReviewOf}
use pathway_backend.Revisions.Ready.{WasSubmitted}
use pathway_backend.Revisions.Fresh.{WasRebased}
use pathway_backend.Revisions.Saved.{WasSaved, WasRecalled}

-- A review that approves the revision with the id.
abbrev pub approves : String → Review → Bool
approves id v = v.revision_id == id && is_approval v.decision

unfoldable pub HasApproval : List Review → ContentRevision → Type 0
HasApproval reviews r = (r.status ≢ approved) ⊎ (any (approves r.id) reviews ≡ true)

-- The primary key of the revisions.
abbrev pub UniqueIds : List ContentRevision → Type 0
UniqueIds rows = (r s : ContentRevision) → Memᴰ r rows → Memᴰ s rows → r.id ≡ s.id → r ≡ s

pub record IsSound (t : Tables) : Type 0 where
  pub unique : UniqueIds t.revisions
  pub each : All (HasApproval t.reviews) t.revisions

id-choice :
    (b : Bool) (f : ContentRevision → ContentRevision) (r : ContentRevision)
    → (f r).id ≡ r.id
    → (if b then f r else r).id ≡ r.id
id-choice true f r e = e
id-choice false f r e = refl

UniqueIds-updated :
    (p : ContentRevision → Bool) (f : ContentRevision → ContentRevision)
    (rows : List ContentRevision)
    → ((r : ContentRevision) → (f r).id ≡ r.id)
    → UniqueIds rows
    → UniqueIds (updated p f rows)
UniqueIds-updated p f rows keeps unique r s m k e =
    let (x, mx, ex) = Memᴰ-updated p f rows m in
    let (y, my, ey) = Memᴰ-updated p f rows k in
    let rx : r.id ≡ x.id = ap (λ z. z.id) ex ∙ id-choice (p x) f x (keeps x) in
    let sy : s.id ≡ y.id = ap (λ z. z.id) ey ∙ id-choice (p y) f y (keeps y) in
    let same : x ≡ y = unique x y mx my (sym rx ∙ (e ∙ sy)) in
    ex ∙ (ap (λ z. if p z then f z else z) same ∙ sym ey)

-- A row whose status is written, or kept, keeps its approval.
pub updated-IsSound :
    (t after : Tables) (p : ContentRevision → Bool) (f : ContentRevision → ContentRevision)
    → ((r : ContentRevision) → (f r).id ≡ r.id)
    → ((r : ContentRevision) → HasApproval t.reviews r → p r ≡ true → HasApproval t.reviews (f r))
    → after ≡ record t { revisions = updated p f t.revisions }
    → IsSound t
    → IsSound after
updated-IsSound t after p f ids kept e sound = rw e (record {
  unique = UniqueIds-updated p f t.revisions ids sound.unique;
  each = All-updated _ p f t.revisions kept sound.each;
})

pub submitted-IsSound :
    (db : PrismaClient) (id : String) (actor : Actor) (t after : Tables)
    → WasSubmitted db id actor t after
    → IsSound t
    → IsSound after
unfolding WasSubmitted HasApproval
submitted-IsSound db id actor t after (_, _, _, _, _, _, _, e) sound =
    updated-IsSound t after _ _ (λ r. refl) (λ r h q. inl (ground arith)) e sound

pub recalled-IsSound :
    (id : String) (actor : Actor) (t after : Tables)
    → WasRecalled id actor t after
    → IsSound t
    → IsSound after
unfolding WasRecalled HasApproval
recalled-IsSound id actor t after (_, _, _, _, e) sound =
    updated-IsSound t after _ _ (λ r. refl) (λ r h q. inl (ground arith)) e sound

pub saved-IsSound :
    (id : String) (snapshot : CareerSnapshot) (t after : Tables)
    → WasSaved id snapshot t after
    → IsSound t
    → IsSound after
unfolding WasSaved HasApproval
saved-IsSound id snapshot t after (_, _, _, _, _, _, e) sound =
    updated-IsSound t after _ _ (λ r. refl) (λ r h q. h) e sound

pub rebased-IsSound :
    (id actor_user_id : String) (t : Tables) (a : Rebased) (effects : List Effect) (after : Tables)
    → WasRebased id actor_user_id t a effects after
    → IsSound t
    → IsSound after
unfolding WasRebased HasApproval
rebased-IsSound id actor_user_id t a effects after (_, _, _, _, _, _, _, _, _, inl (_, _, _, e))
      sound =
    updated-IsSound t after _ _ (λ r. refl) (λ r h q. h) e sound
rebased-IsSound id actor_user_id t a effects after (_, _, _, _, _, _, _, _, _, inr (_, _, _, e))
      sound =
    rw e sound

more_reviews :
    (reviews : List Review) (v : Review) (r : ContentRevision)
    → HasApproval reviews r
    → HasApproval (reviews ++ v ∷ []) r
unfolding HasApproval
more_reviews reviews v r (inl h) = inl h
more_reviews reviews v r (inr h) = inr (rw (any-concat (approves r.id) reviews v, h) refl)

decision-cases : (d : ReviewDecision) → (d ≡ approve) ⊎ (d ≡ reject)
decision-cases approve = inl refl
decision-cases reject = inr refl

decided-HasApproval :
    (reviews : List Review) (v : Review) (r : ContentRevision)
    → (r.id == v.revision_id) ≡ true
    → HasApproval (reviews ++ v ∷ []) (record r { status = decided v.decision })
unfolding HasApproval
decided-HasApproval reviews v r e = elim (decision-cases v.decision) [
  | inl h ↦ inr (
      rw (any-concat (approves r.id) reviews v)
        (ground (arith, eq_iff r.id v.revision_id, eq_iff v.revision_id r.id, h, ap is_approval h)))
  | inr h ↦ inl (rw h (ground arith))
]

pub reviewed-IsSound :
    (trim : String → String) (id : String) (reviewer : Actor) (decision : ReviewDecision)
    (text : Option String) (review_id : String) (now : ℕ) (t after : Tables)
    → WasReviewed trim id reviewer decision text review_id now t after
    → IsSound t
    → IsSound after
unfolding WasReviewed IsReviewOf
reviewed-IsSound trim id reviewer decision text review_id now t after
      (_, _, _, _, _, (reviews, rows, _)) sound =
    let v : Review = record {
      id = review_id;
      revision_id = id;
      reviewer_id = reviewer.id;
      decision = decision;
      note = trimmed_note trim text;
      created_at = now;
    } in
    record {
      unique = rw rows (UniqueIds-updated _ _ t.revisions (λ r. refl) sound.unique);
      each =
          rw (rows, reviews)
            (All-updated _ _ _ t.revisions (λ r h q. decided-HasApproval t.reviews v r q)
              (All-map _ t.revisions (more_reviews t.reviews v) sound.each));
    }

pub UniqueIds-removed :
    (p : ContentRevision → Bool) (rows : List ContentRevision)
    → UniqueIds rows
    → UniqueIds (removed p rows)
UniqueIds-removed p rows unique r s m k e =
    let (mr, _) = All-Memᴰ _ (removed p rows) (All-of-removed p rows) m in
    let (ms, _) = All-Memᴰ _ (removed p rows) (All-of-removed p rows) k in unique r s mr ms e

any-removed_other :
    (id other : String) (reviews : List Review)
    → (other == id) ≡ false
    → any (approves other) (removed (λ (v : Review). v.revision_id == id) reviews)
      ≡ any (approves other) reviews
any-removed_other id other [] e = refl
any-removed_other id other (v ∷ reviews) e = ground (
  arith,
  eq_iff v.revision_id id,
  eq_iff v.revision_id other,
  eq_iff other id,
  any-removed_other id other reviews e,
)

kept-HasApproval :
    (id : String) (reviews : List Review) (r : ContentRevision)
    → (r.id == id) ≡ false
    → HasApproval reviews r
    → HasApproval (removed (λ (v : Review). v.revision_id == id) reviews) r
unfolding HasApproval
kept-HasApproval id reviews r e (inl h) = inl h
kept-HasApproval id reviews r e (inr h) = inr (rw (any-removed_other id r.id reviews e) h)

abbrev drafts_of : String → ContentRevision → Bool
drafts_of id r = r.id == id && is_draft r.status

-- Beside a draft that has the id, no revision that stays has it.
other_id :
    (id : String) (rows : List ContentRevision)
    → UniqueIds rows
    → nat_eq (count_where (drafts_of id) rows) 0 ≡ false
    → All (λ (r : ContentRevision). (r.id == id) ≡ false) (removed (drafts_of id) rows)
other_id id rows unique c =
    let (s, ms, ps) = count-found (drafts_of id) rows c in
    All-map _ (removed (drafts_of id) rows)
      (λ r (mr, pr). elim (Bool-cases (r.id == id)) [
        | inl e ↦
            let same : r ≡ s = unique r s mr ms (ground (arith, eq_iff r.id id, eq_iff s.id id)) in
            absurd (cc (ap (drafts_of id) same, pr, ps))
        | inr e ↦ e
      ])
      (All-of-removed (drafts_of id) rows)

pub deleted-IsSound :
    {db : PrismaClient}
    → PrismaLaws db
    → (id : String) (t : Tables) → IsSound t
    → IsSound (delete_draft_revision db id t).2
unfolding delete_draft_revision
deleted-IsSound {db} laws id t sound =
    elim (Bool-cases (nat_eq (count_where (drafts_of id) t.revisions) 0)) [
      | inl z ↦
          rw (laws.delete_many_lem ContentRevision (drafts_of id) t.revisions, z)
            (record {
              unique = UniqueIds-removed (drafts_of id) t.revisions sound.unique;
              each = All-removed _ (drafts_of id) t.revisions sound.each;
            })
      | inr z ↦
          let kept = removed (drafts_of id) t.revisions in
          let others = other_id id t.revisions sound.unique z in
          let approvals = All-removed _ (drafts_of id) t.revisions sound.each in
          rw
            (
              laws.delete_many_lem ContentRevision (drafts_of id) t.revisions,
              z,
              laws.delete_many_lem Review (λ (v : Review). v.revision_id == id) t.reviews,
            )
            (record {
              unique = UniqueIds-removed (drafts_of id) t.revisions sound.unique;
              each = All-Memᴰ_iff _ kept (λ r m.
                  kept-HasApproval id t.reviews r (All-Memᴰ _ kept others m)
                    (All-Memᴰ _ kept approvals m));
            })
    ]
