-- ===== src/Teams.antt =====
-- Staff invites (src/teams/teams.service.ts). The hash of a token and the lower-case form of a
-- text are arguments, and so are the values that the environment supplies: the time, the random
-- token, the id and creation time of a new row, and whether the email went out.
pub mod Status
pub mod Claim
pub mod Create
mod Tests
use pathway_backend.Prelude.{
  ℕ, ◌+◌, ◌*◌, String, Bool, true, false, not, ◌&&◌, Option, none, some, List, [], ◌∷◌, is_some,
  is_none, ltb, leb, map, string_Eq, nat_Eq, ◌==◌, if◌then◌else◌,
}
use pathway_backend.Exceptions.{Result, ok, err, not_found, conflict}
use pathway_backend.Effects.{Effect, capture, mail}
use pathway_backend.Database.{PrismaClient}
use pathway_backend.Roles.{Role}

pub data InviteStatus : Type 0 where
  pending accepted expired revoked : InviteStatus

pub data InviteClaimFailure : Type 0 where
  invite_not_found invite_expired invite_already_accepted : InviteClaimFailure
  invite_email_mismatch email_not_verified : InviteClaimFailure

pub data InviteClaim : Type 0 where
  claimed : (invite_id : String) → Role → InviteClaim
  refused : InviteClaimFailure → InviteClaim

pub record StaffInvite : Type 0 where
  pub id : String
  pub email : String
  pub role : Role
  pub token_hash : String
  pub invited_by_id : String
  pub expires_at : ℕ
  pub accepted_at : Option ℕ
  pub revoked_at : Option ℕ
  pub created_at : ℕ

abbrev pub invite_ttl_ms : ℕ
invite_ttl_ms = 24 * 60 * 60 * 1000

pub status_of : StaffInvite → ℕ → InviteStatus
status_of i now =
    if is_some i.accepted_at
    then accepted
    else (if is_some i.revoked_at
        then revoked
        else (if ltb i.expires_at now then expired else pending))

-- The conditions on rows, as the database evaluates them.
unfoldable pub status_where : InviteStatus → ℕ → StaffInvite → Bool
status_where accepted now i = is_some i.accepted_at
status_where revoked now i = is_none i.accepted_at && is_some i.revoked_at
status_where expired now i = is_none i.accepted_at && is_none i.revoked_at && ltb i.expires_at now
status_where pending now i = is_none i.accepted_at && is_none i.revoked_at && leb now i.expires_at

pub record CreateStaffInvite : Type 0 where
  pub email : String
  pub role : Role

pub record CreatedInvite : Type 0 where
  pub id : String
  pub email : String
  pub role : Role
  pub expires_at : ℕ
  pub email_sent : Bool
  pub message : Option String

pub record Claimant : Type 0 where
  pub email : String
  pub email_verified_at : Option ℕ

abbrev replaced_by : String → ℕ → StaffInvite → Bool
replaced_by email now i =
    i.email == email && (is_none i.accepted_at && is_none i.revoked_at && leb now i.expires_at)

abbrev pub open_with_id : String → StaffInvite → Bool
open_with_id id i = i.id == id && is_none i.accepted_at && is_none i.revoked_at

abbrev pub accept_at : ℕ → StaffInvite → StaffInvite
accept_at now i = record i { accepted_at = some now }

abbrev revoke_at : ℕ → StaffInvite → StaffInvite
revoke_at now i = record i { revoked_at = some now }

module _ (hash_token : String → String) (to_lower_case : String → String) where
  -- The row that `createInvite` inserts.
  abbrev pub new_invite : CreateStaffInvite → String → ℕ → String → String → ℕ → StaffInvite
  new_invite dto invited_by_id now raw_token id created_at = record {
    id = id;
    email = to_lower_case dto.email;
    role = dto.role;
    token_hash = hash_token raw_token;
    invited_by_id = invited_by_id;
    expires_at = now + invite_ttl_ms;
    accepted_at = none;
    revoked_at = none;
    created_at = created_at;
  }

abbrev created_response : StaffInvite → Bool → CreatedInvite
created_response i email_sent = record {
  id = i.id;
  email = i.email;
  role = i.role;
  expires_at = i.expires_at;
  email_sent = email_sent;
  message =
      if email_sent
      then none
      else some "Invite created, but the email could not be sent. Re-invite to retry.";
}

abbrev sent_effects : StaffInvite → String → String → Bool → List Effect
sent_effects i raw_token invited_by_id email_sent =
    if email_sent
    then (mail i.email "staff-invite" raw_token ∷ capture "staff_invite_sent" invited_by_id ∷ [])
    else []

module _ (to_lower_case : String → String) where
  -- The early returns of `claimInvite`, in their order.
  unfoldable pub claim_refusal : Option StaffInvite → Claimant → ℕ → Option InviteClaimFailure
  claim_refusal none claimant now = some invite_not_found
  claim_refusal (some i) claimant now =
      if is_some i.revoked_at
      then some invite_not_found
      else (if ltb i.expires_at now
          then some invite_expired
          else (if is_some i.accepted_at
              then some invite_already_accepted
              else (if not (i.email == to_lower_case claimant.email)
                  then some invite_email_mismatch
                  else (if is_none claimant.email_verified_at
                      then some email_not_verified
                      else none))))

module _ (db : PrismaClient) (hash_token : String → String) (to_lower_case : String → String) where
  -- `email_sent` says whether `sendInviteEmail` succeeded.
  pub create_invite :
      CreateStaffInvite
      → (invited_by_id : String) → (now : ℕ) → (raw_token id : String) → (created_at : ℕ)
      → (email_sent : Bool) → List StaffInvite
      → CreatedInvite × List Effect × List StaffInvite
  create_invite dto invited_by_id now raw_token id created_at email_sent invites =
      let invite =
        new_invite hash_token to_lower_case dto invited_by_id now raw_token id created_at in
      let (kept, _) = db.delete_many StaffInvite (replaced_by invite.email now) invites in
      (
        created_response invite email_sent,
        sent_effects invite raw_token invited_by_id email_sent,
        db.create StaffInvite invite kept,
      )

  accept_invite : StaffInvite → ℕ → List StaffInvite → InviteClaim × List StaffInvite
  accept_invite invite now invites =
      let (after, count) =
        db.update_many StaffInvite (open_with_id invite.id) (accept_at now) invites in
      if count == 0
      then (refused invite_already_accepted, after)
      else (claimed invite.id invite.role, after)

  claim_found :
      Option StaffInvite
      → Option InviteClaimFailure
      → ℕ
      → List StaffInvite
      → InviteClaim × List StaffInvite
  unfolding accept_invite
  claim_found found (some reason) now invites = (refused reason, invites)
  claim_found none none now invites = (refused invite_not_found, invites)
  claim_found (some invite) none now invites = accept_invite invite now invites

  unfoldable pub claim_invite :
      (token : String) → Claimant → (now : ℕ) → List StaffInvite → InviteClaim × List StaffInvite
  unfolding claim_found
  claim_invite token claimant now invites =
      let found = db.find_unique StaffInvite (λ i. i.token_hash == hash_token token) invites in
      claim_found found (claim_refusal to_lower_case found claimant now) now invites

module _ (db : PrismaClient) where
  -- The rejection reads the invite again, by its id.
  reject_revoke : String → List StaffInvite → Result (Unit {0})
  reject_revoke id invites =
      if is_some (db.find_unique StaffInvite (λ i. i.id == id) invites)
      then err (conflict "Only a pending invite can be revoked")
      else err (not_found "Invite not found")

  revoke_outcome :
      Option (StaffInvite × List StaffInvite)
      → String
      → String
      → List StaffInvite
      → Result (Unit {0}) × List Effect × List StaffInvite
  unfolding reject_revoke
  revoke_outcome none id admin_id invites = (reject_revoke id invites, [], invites)
  revoke_outcome (some (_, after)) id admin_id invites =
      (ok tt, capture "staff_invite_revoked" admin_id ∷ [], after)

  pub revoke_invite :
      (id admin_id : String)
      → (now : ℕ) → List StaffInvite
      → Result (Unit {0}) × List Effect × List StaffInvite
  unfolding revoke_outcome
  revoke_invite id admin_id now invites =
      revoke_outcome
        (db.update StaffInvite (λ i. i.id == id && status_where pending now i) (revoke_at now)
          invites)
        id admin_id invites
