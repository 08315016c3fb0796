-- ===== src/Teams/Claim.antt =====
-- Claiming an invite: who may, and that it happens once (`claimInvite` of
-- src/teams/teams.service.ts).
use pathway_backend.Prelude.{
  ℕ, ◌≤◌, String, Bool, true, none, some, List, find, updated, string_Eq, nat_Eq, ◌==◌, eq_iff, ◌≡◌,
  ◌≢◌, refl, ◌↔◌, ◌⊎◌, inl, inr, arith, Option-cases, find-Memᴰ, find-updated, count_where-pos,
  subst, ap, ◌∙◌, if◌then◌else◌,
}
use pathway_backend.Prelude.Members.{find-updated_apart}
use pathway_backend.Database.{PrismaClient, PrismaLaws}
use pathway_backend.Database.Reference.{client_eq}
use pathway_backend.Roles.{Role}
use pathway_backend.Teams.{
  InviteClaimFailure, claimed, refused, invite_not_found, StaffInvite, Claimant, claim_refusal,
  open_with_id, accept_at, claim_invite,
}

module _ (hash_token : String → String) (to_lower_case : String → String) where
  -- What lets a claimant take an invite.
  pub record MayClaim (i : StaffInvite) (token : String) (c : Claimant) (now : ℕ) : Type 0 where
    pub by_token : i.token_hash ≡ hash_token token
    pub not_revoked : i.revoked_at ≡ none
    pub not_accepted : i.accepted_at ≡ none
    pub in_time : now ≤ i.expires_at
    pub same_email : i.email ≡ to_lower_case c.email
    pub email_verified : c.email_verified_at ≢ none

  abbrev pub by_hash : String → StaffInvite → Bool
  by_hash token i = i.token_hash == hash_token token

  claim_refusal_iff :
      (i : StaffInvite) (token : String) (c : Claimant) (now : ℕ)
      → i.token_hash ≡ hash_token token
      → (claim_refusal to_lower_case (some i) c now ≡ none) ↔ MayClaim i token c now
  unfolding claim_refusal
  claim_refusal_iff i token c now e = (
    λ r. record {
      by_token = e;
      not_revoked = ground arith;
      not_accepted = ground arith;
      in_time = ground arith;
      same_email = ground (arith, eq_iff i.email (to_lower_case c.email));
      email_verified = ground arith;
    },
    λ m. ground (arith, eq_iff i.email (to_lower_case c.email)),
  )

  module _ (db : PrismaClient) (laws : PrismaLaws db) where
    claim_granted :
        (token : String) (c : Claimant) (now : ℕ) (invites : List StaffInvite) (i : StaffInvite)
        → find (by_hash token) invites ≡ some i
        → MayClaim i token c now
        → claim_invite db hash_token to_lower_case token c now invites
          ≡ (claimed i.id i.role, updated (open_with_id i.id) (accept_at now) invites)
    unfolding claim_invite
    claim_granted token c now invites i found may =
        let allowed = (claim_refusal_iff i token c now may.by_token).1 may in
        let (listed, _) = find-Memᴰ (by_hash token) invites found in
        let counted =
          count_where-pos (open_with_id i.id) invites listed (ground (arith, eq_iff i.id i.id)) in
        rw (client_eq laws) (rw found (rw allowed (ground arith)))

    claim_denied :
        (token : String) (c : Claimant) (now : ℕ) (invites : List StaffInvite)
        → ((i : StaffInvite) → find (by_hash token) invites ≡ some i → ¬ MayClaim i token c now)
        → (reason : InviteClaimFailure) × (claim_invite db hash_token to_lower_case token c now
              invites
            ≡ (refused reason, invites))
    unfolding claim_invite
    claim_denied token c now invites may_not =
        rw (client_eq laws) (elim (Option-cases (find (by_hash token) invites)) [
          | inl n ↦ (invite_not_found, rw n (unfold claim_refusal in refl))
          | inr (i, found) ↦ elim (Option-cases (claim_refusal to_lower_case (some i) c now)) [
            | inl allowed ↦
                let (_, hash) = find-Memᴰ (by_hash token) invites found in
                let same = (eq_iff i.token_hash (hash_token token)).0 hash in
                absurd (may_not i found ((claim_refusal_iff i token c now same).0 allowed))
            | inr (reason, r) ↦ (reason, rw found (rw r))
          ]
        ])

    claim_decided :
        (token : String) (c : Claimant) (now : ℕ) (i : StaffInvite)
        → i.token_hash ≡ hash_token token
        → MayClaim i token c now ⊎ ¬ MayClaim i token c now
    claim_decided token c now i e =
        let iff = claim_refusal_iff i token c now e in
        elim (Option-cases (claim_refusal to_lower_case (some i) c now)) [
          | inl allowed ↦ inl (iff.0 allowed)
          | inr (reason, r) ↦ inr (λ may. let allowed = iff.1 may in cc)
        ]

    found_hash :
        (token : String) (invites : List StaffInvite) (i : StaffInvite)
        → find (by_hash token) invites ≡ some i
        → i.token_hash ≡ hash_token token
    found_hash token invites i found =
        (eq_iff i.token_hash (hash_token token)).0 (find-Memᴰ (by_hash token) invites found).1

    -- A claim accepts the invite found by the token, or refuses and changes nothing.
    pub claim_invite_cases :
        (token : String) (c : Claimant) (now : ℕ) (invites : List StaffInvite)
        → ((i : StaffInvite) × (find (by_hash token) invites ≡ some i)
            × MayClaim i token c now
            × (claim_invite db hash_token to_lower_case token c now invites
                ≡ (claimed i.id i.role, updated (open_with_id i.id) (accept_at now) invites)))
          ⊎ ((reason : InviteClaimFailure) × (claim_invite db hash_token to_lower_case token c now
                  invites
                ≡ (refused reason, invites)))
    claim_invite_cases token c now invites = elim (Option-cases (find (by_hash token) invites)) [
      | inl n ↦ inr (claim_denied token c now invites (λ i found may. cc))
      | inr (i, found) ↦ elim (claim_decided token c now i (found_hash token invites i found)) [
        | inl may ↦ inl (i, found, may, claim_granted token c now invites i found may)
        | inr may_not ↦ inr (
            claim_denied token c now invites (λ j found' may.
              let same : j ≡ i = ground arith in
              may_not (subst (λ k. MayClaim k token c now) same may)))
      ]
    ]

    claimed-MayClaim :
        (token : String) (c : Claimant) (now : ℕ) (invites : List StaffInvite) (id : String)
        (role : Role)
        → (claim_invite db hash_token to_lower_case token c now invites).0 ≡ claimed id role
        → (i : StaffInvite) × (find (by_hash token) invites ≡ some i) × MayClaim i token c now
    claimed-MayClaim token c now invites id role e = elim (claim_invite_cases token c now invites) [
      | inl (i, found, may, _) ↦ (i, found, may)
      | inr (reason, r) ↦ absurd (ground (arith, r))
    ]

    -- The invite with the token's hash is claimed exactly when it is neither revoked nor accepted,
    -- has not expired, was sent to the claimant's email in lower case, and that email is verified.
    pub claim_invite_iff :
        (token : String) (c : Claimant) (now : ℕ) (invites : List StaffInvite) (i : StaffInvite)
        → find (by_hash token) invites ≡ some i
        → ((claim_invite db hash_token to_lower_case token c now invites).0 ≡ claimed i.id i.role)
          ↔ MayClaim i token c now
    claim_invite_iff token c now invites i found = (
      λ e.
          let (j, found', may) = claimed-MayClaim token c now invites i.id i.role e in
          let same : j ≡ i = ground arith in subst (λ k. MayClaim k token c now) same may,
      λ may. rw (claim_granted token c now invites i found may),
    )

    refused_after :
        (token : String) (c : Claimant) (now : ℕ) (invites : List StaffInvite) (id : String)
        (role : Role)
        → (claim_invite db hash_token to_lower_case token c now invites).0 ≡ claimed id role
        → (c' : Claimant) (later : ℕ)
        → let after = (claim_invite db hash_token to_lower_case token c now invites).1 in
          (reason : InviteClaimFailure) × (claim_invite db hash_token to_lower_case token c' later
              after
            ≡ (refused reason, after))
    refused_after token c now invites id role success c' later =
        let (i, found, may) = claimed-MayClaim token c now invites id role success in
        let after_eq = claim_granted token c now invites i found may in
        let accepted =
          find-updated (by_hash token) (open_with_id i.id) (accept_at now) invites (λ x. refl)
            found in
        rw after_eq (
          claim_denied token c' later _ (λ j found' may'.
            let touched : open_with_id i.id i ≡ true =
              ground (arith, eq_iff i.id i.id, may.not_accepted, may.not_revoked) in
            let same : j ≡ accept_at now i = ground arith in
            let still : (accept_at now i).accepted_at ≡ none =
              subst (λ k. k.accepted_at ≡ none) same may'.not_accepted in
            cc))

    -- The invite that is found by the token after it was accepted.
    pub accepted_row :
        (token : String) (c : Claimant) (now : ℕ) (invites : List StaffInvite) (i : StaffInvite)
        → find (by_hash token) invites ≡ some i
        → MayClaim i token c now
        → find (by_hash token) (updated (open_with_id i.id) (accept_at now) invites)
          ≡ some (record i { accepted_at = some now })
    accepted_row token c now invites i found may =
        let touched : open_with_id i.id i ≡ true =
          ground (arith, eq_iff i.id i.id, may.not_accepted, may.not_revoked) in
        find-updated (by_hash token) (open_with_id i.id) (accept_at now) invites (λ x. refl) found
        ∙ ap (λ b. some (if b then accept_at now i else i)) touched

    accepts_once :
        (token : String) (c : Claimant) (now : ℕ) (invites : List StaffInvite) (i : StaffInvite)
        → find (by_hash token) invites ≡ some i
        → MayClaim i token c now
        → find (by_hash token) (claim_invite db hash_token to_lower_case token c now invites).1
          ≡ some (record i { accepted_at = some now })
    accepts_once token c now invites i found may =
        ap (find (by_hash token)) (ap (λ x. x.1) (claim_granted token c now invites i found may))
        ∙ accepted_row token c now invites i found may

    leaves_others :
        (token : String) (c : Claimant) (now : ℕ) (invites : List StaffInvite) (i : StaffInvite)
        → find (by_hash token) invites ≡ some i
        → MayClaim i token c now
        → (other : String) → other ≢ i.id
        → find
            (λ (x : StaffInvite). x.id == other)
            (claim_invite db hash_token to_lower_case token c now invites).1
          ≡ find (λ (x : StaffInvite). x.id == other) invites
    leaves_others token c now invites i found may other apart =
        ap (find (λ (x : StaffInvite). x.id == other))
          (ap (λ x. x.1) (claim_granted token c now invites i found may))
        ∙ find-updated_apart (λ (x : StaffInvite). x.id == other) (open_with_id i.id)
            (accept_at now) invites (λ x. refl)
            (λ x k. ground (arith, eq_iff x.id i.id, eq_iff x.id other, apart))

    -- A claim of an invite either is refused and changes no invite, or it accepts the invite that the
    -- token finds, with its id and role, changes nothing else of it, leaves every other invite as it
    -- was, and then no later claim with that token succeeds or changes an invite, whoever makes it and
    -- whenever.
    pub claim_invite_once :
        (token : String) (c : Claimant) (now : ℕ) (invites : List StaffInvite)
        → let (first, after) = claim_invite db hash_token to_lower_case token c now invites in
          ((reason : InviteClaimFailure) × (first ≡ refused reason) × (after ≡ invites))
          ⊎ ((i : StaffInvite) × (first ≡ claimed i.id i.role)
              × (find (by_hash token) invites ≡ some i)
              × (find (by_hash token) after ≡ some (record i { accepted_at = some now }))
              × ((other : String)
                  → other ≢ i.id
                  → find (λ (x : StaffInvite). x.id == other) after
                    ≡ find (λ (x : StaffInvite). x.id == other) invites)
              × ((c' : Claimant) (later : ℕ)
                  → (reason : InviteClaimFailure) × (claim_invite db hash_token to_lower_case token
                        c' later after
                      ≡ (refused reason, after))))
    claim_invite_once token c now invites = elim (claim_invite_cases token c now invites) [
      | inr (reason, denied) ↦ inl (reason, ap (λ x. x.0) denied, ap (λ x. x.1) denied)
      | inl (i, found, may, granted) ↦
          let success = ap (λ x. x.0) granted in
          inr (
            i,
            success,
            found,
            accepts_once token c now invites i found may,
            leaves_others token c now invites i found may,
            λ c' later. refused_after token c now invites i.id i.role success c' later,
          )
    ]
