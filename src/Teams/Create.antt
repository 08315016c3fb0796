-- ===== src/Teams/Create.antt =====
-- Creating an invite, and what holds of every invite at all times
-- (src/teams/teams.service.ts).
use pathway_backend.Prelude.{
  ℕ, String, Bool, false, ◌&&◌, none, List, [], count_where, removed, string_Eq, nat_Eq, ◌==◌,
  eq_iff, ◌≡◌, refl, ◌⊎◌, inl, inr, arith, All, All-updated, All-removed, All-append, All-Memᴰ_iff,
  Memᴰ, Memᴰ-removed, Memᴰ-append_left, count_where-removed, count_where-concat, Memᴰ-append_last,
  Option-cases, find,
}
use pathway_backend.Database.{PrismaClient, PrismaLaws}
use pathway_backend.Database.Reference.{client_eq}
use pathway_backend.Teams.Claim.{claim_invite_cases}
use pathway_backend.Teams.{
  pending, StaffInvite, CreateStaffInvite, Claimant, status_where, new_invite, create_invite,
  claim_invite, accept_at, revoke_invite, revoke_at,
}

-- A pending invite for the email.
abbrev pub pending_for : String → ℕ → StaffInvite → Bool
pending_for email now i = i.email == email && status_where pending now i

abbrev pub NotBoth : StaffInvite → Type 0
NotBoth i = (i.accepted_at ≡ none) ⊎ (i.revoked_at ≡ none)

module _ (hash_token : String → String) (to_lower_case : String → String) where
  module _ (db : PrismaClient) (laws : PrismaLaws db) where
    -- After an invite is created, it is the only pending one for its email, in lower case; every
    -- invite that was not pending for that email is still there.
    pub create_invite-one_pending :
        (dto : CreateStaffInvite) (by : String) (now : ℕ) (token id : String) (created_at : ℕ)
        (email_sent : Bool) (invites : List StaffInvite)
        → let email = to_lower_case dto.email in
          let (_, _, after) =
            create_invite db hash_token to_lower_case dto by now token id created_at email_sent
              invites in
          (count_where (pending_for email now) after ≡ 1)
          × Memᴰ (new_invite hash_token to_lower_case dto by now token id created_at) after
          × All (λ i. pending_for email now i ≡ false → Memᴰ i after) invites
    unfolding create_invite status_where
    create_invite-one_pending dto by now token id created_at email_sent invites =
        let email = to_lower_case dto.email in
        let invite = new_invite hash_token to_lower_case dto by now token id created_at in
        let p = pending_for email now in
        rw (client_eq laws) (
          ground (
            arith,
            count_where-concat p (removed p invites) invite (ground (arith, eq_iff email email)),
            count_where-removed p invites,
          ),
          Memᴰ-append_last (removed p invites) invite,
          All-Memᴰ_iff _ invites
              (λ i m other. Memᴰ-append_left _ _ (Memᴰ-removed p invites m other)),
        )

    -- What an admin or an invited person can do to the invites, at any time.
    pub data Step (invites : List StaffInvite) : List StaffInvite → Type 0 where
      created :
          (dto : CreateStaffInvite) (by : String) (now : ℕ) (token id : String) (created_at : ℕ)
          (email_sent : Bool)
          → Step invites
              (create_invite db hash_token to_lower_case dto by now token id created_at email_sent
                invites).2
      claimed_by :
          (token : String) (c : Claimant) (now : ℕ)
          → Step invites (claim_invite db hash_token to_lower_case token c now invites).1
      revoked_by :
          (id admin_id : String) (now : ℕ)
          → Step invites (revoke_invite db id admin_id now invites).2

    pub data Reach : List StaffInvite → Type 0 where
      empty : Reach []
      next : {t u : List StaffInvite} → Reach t → Step t u → Reach u

    create-NotBoth :
        (dto : CreateStaffInvite) (by : String) (now : ℕ) (token id : String) (created_at : ℕ)
        (email_sent : Bool) (t : List StaffInvite)
        → All NotBoth t
        → All NotBoth
            (create_invite db hash_token to_lower_case dto by now token id created_at email_sent
              t).2
    unfolding create_invite
    create-NotBoth dto by now token id created_at email_sent t h =
        rw (client_eq laws) (All-append NotBoth _ _ (All-removed NotBoth _ t h) (inl refl, tt))

    claim-NotBoth :
        (token : String) (c : Claimant) (now : ℕ) (t : List StaffInvite)
        → All NotBoth t
        → All NotBoth (claim_invite db hash_token to_lower_case token c now t).1
    claim-NotBoth token c now t h =
        elim (claim_invite_cases hash_token to_lower_case db laws token c now t) [
          | inl (i, found, may, e) ↦
              rw e (All-updated NotBoth _ (accept_at now) t (λ x k m. inr (ground arith)) h)
          | inr (reason, e) ↦ rw e h
        ]

    revoke-NotBoth :
        (id admin_id : String) (now : ℕ) (t : List StaffInvite)
        → All NotBoth t
        → All NotBoth (revoke_invite db id admin_id now t).2
    unfolding revoke_invite status_where
    revoke-NotBoth id admin_id now t h =
        rw (client_eq laws)
          (elim (Option-cases (find (λ i. i.id == id && status_where pending now i) t)) [
            | inl n ↦ rw n h
            | inr (i, e) ↦
                rw e (All-updated NotBoth _ (revoke_at now) t (λ x k m. inl (ground arith)) h)
          ])

    -- No invite is ever both accepted and revoked, whatever is done to the invites.
    pub Reach-NotBoth : {t : List StaffInvite} → Reach t → All NotBoth t
    Reach-NotBoth empty = tt
    Reach-NotBoth (next {t} r (created dto by now token id created_at email_sent)) =
        create-NotBoth dto by now token id created_at email_sent t (Reach-NotBoth r)
    Reach-NotBoth (next {t} r (claimed_by token c now)) =
        claim-NotBoth token c now t (Reach-NotBoth r)
    Reach-NotBoth (next {t} r (revoked_by id admin_id now)) =
        revoke-NotBoth id admin_id now t (Reach-NotBoth r)
