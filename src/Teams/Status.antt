-- ===== src/Teams/Status.antt =====
-- The status label of an invite and the database condition for a status agree
-- (`statusOf` and `statusWhere` of src/teams/teams.service.ts), and revocation.
use pathway_backend.Prelude.{
  ℕ, String, true, ◌&&◌, some, List, [], ◌∷◌, is_some, find, string_Eq, ◌==◌, eq_iff, ◌≡◌, refl,
  ◌↔◌, arith, All, All-map, find-Memᴰ, find-and, find-eq-none, find-updated, if◌then◌else◌, ◌∙◌,
}
use pathway_backend.Exceptions.{ok, err, conflict, not_found}
use pathway_backend.Effects.{capture}
use pathway_backend.Database.{PrismaClient, PrismaLaws}
use pathway_backend.Database.Reference.{client_eq}
use pathway_backend.Teams.{
  InviteStatus, pending, accepted, expired, revoked, StaffInvite, status_of, status_where,
  revoke_invite, reject_revoke, revoke_at,
}

-- A row meets the database condition for a status exactly when that is the status it is shown with;
-- so every invite is listed under one status and no other.
pub status_where_iff :
    (s : InviteStatus) (now : ℕ) (i : StaffInvite)
    → (status_where s now i ≡ true) ↔ (status_of i now ≡ s)
unfolding status_where status_of
status_where_iff pending now i = ground arith
status_where_iff accepted now i = ground arith
status_where_iff expired now i = ground arith
status_where_iff revoked now i = ground arith

was_pending_revoked :
    (i : StaffInvite) (now later : ℕ)
    → status_of i now ≡ pending
    → status_of (revoke_at now i) later ≡ revoked
unfolding status_of
was_pending_revoked i now later h = ground arith

module _ (db : PrismaClient) (laws : PrismaLaws db) where
  -- Revoking a pending invite succeeds, and it is REVOKED from then on, at every time.
  pub revoke_invite_pending :
      (id admin_id : String) (now : ℕ) (invites : List StaffInvite) (i : StaffInvite)
      → find (λ i. i.id == id) invites ≡ some i
      → status_of i now ≡ pending
      → let (result, effects, after) = revoke_invite db id admin_id now invites in
        (result ≡ ok tt)
        × (effects ≡ capture "staff_invite_revoked" admin_id ∷ [])
        × ((i' : StaffInvite) × (find (λ i. i.id == id) after ≡ some i')
            × ((later : ℕ) → status_of i' later ≡ revoked))
  unfolding revoke_invite
  revoke_invite_pending id admin_id now invites i found is_pending =
      let matched =
        find-and _ (status_where pending now) invites found
          ((status_where_iff pending now i).1 is_pending) in
      let kept =
        find-updated (λ i. i.id == id) (λ i. i.id == id && status_where pending now i)
          (revoke_at now) invites (λ i. refl) found in
      let (_, is_id) = find-Memᴰ (λ i. i.id == id) invites found in
      rw (client_eq laws) (
        rw matched (
          refl,
          refl,
          (
            revoke_at now i,
            kept ∙ rw is_id (rw ((status_where_iff pending now i).1 is_pending) refl),
            λ later. was_pending_revoked i now later is_pending,
          ),
        ))

  -- Revoking an invite that is not pending changes nothing: it is a conflict, or, where no invite
  -- has the id, it is not found.
  pub revoke_invite_rejected :
      (id admin_id : String) (now : ℕ) (invites : List StaffInvite)
      → All (λ i. i.id ≡ id → (status_of i now ≡ pending → ⊥)) invites
      → let found = find (λ i. i.id == id) invites in
        revoke_invite db id admin_id now invites ≡ (
          (if is_some found
              then err (conflict "Only a pending invite can be revoked")
              else err (not_found "Invite not found")),
          [],
          invites,
        )
  unfolding revoke_invite reject_revoke
  revoke_invite_rejected id admin_id now invites not_pending =
      let unmatched =
        find-eq-none (λ i. i.id == id && status_where pending now i) invites
          (All-map _ invites
            (λ i h. ground (arith, eq_iff i.id id, (status_where_iff pending now i).0))
            not_pending) in
      rw (client_eq laws) (rw unmatched)
