-- ===== src/Credentials/Join.antt =====
-- Staff invites accepted and sign-in with Google (src/auth/auth.service.ts: acceptStaffInvite,
-- googleLogin). The profile that a verified id token holds is an argument, and so are the functions
-- on texts. The unique constraints that `googleLogin` catches guard against concurrent calls; a
-- transaction that runs as one step does not violate them.
use pathway_backend.Prelude.{
  ℕ, String, Option, none, some, List, [], ◌∷◌, is_none, string_Eq, ◌==◌, if◌then◌else◌,
}
use pathway_backend.Exceptions.{Exception, unauthorized, bad_request, not_found, domain}
use pathway_backend.Effects.{Effect, capture}
use pathway_backend.Handlers.{Reply, throws, returns, or_throw, throw_if}
use pathway_backend.Database.{PrismaClient}
use pathway_backend.Roles
use pathway_backend.Roles.{Role}
use pathway_backend.Teams.{
  Claimant, InviteClaim, InviteClaimFailure, claimed, refused, invite_not_found, invite_expired,
  invite_already_accepted, invite_email_mismatch, email_not_verified, claim_invite,
}
use pathway_backend.Verification.{
  User, EmailVerificationOtp, RefreshToken, PasswordResetToken, AuthIdentity, Accounts, Auth,
  AuthResult, issue_tokens, unconsumed,
}
use pathway_backend.Sessions.{revoked}
use pathway_backend.Credentials.Reset.{open_of, unused_of}

-- `INVITE_FAILURES`
abbrev pub invite_failure : InviteClaimFailure → Exception
invite_failure invite_not_found = domain 404 "INVITE_NOT_FOUND" "Invite not found"
invite_failure invite_expired = domain 410 "INVITE_EXPIRED" "Invite has expired"
invite_failure invite_already_accepted =
    domain 409 "INVITE_ALREADY_ACCEPTED" "Invite has already been accepted"
invite_failure invite_email_mismatch =
    domain 403 "INVITE_EMAIL_MISMATCH" "This invite was sent to a different email"
invite_failure email_not_verified =
    domain 403 "EMAIL_NOT_VERIFIED" "Verify your email before accepting an invite"

abbrev pub claimant_of : User → Claimant
claimant_of u = record { email = u.email; email_verified_at = u.email_verified_at }

abbrev pub with_role : Role → User → User
with_role role u = record u { role = role }

module _ (db : PrismaClient) (auth : Auth) where
  -- The transaction after the claim; `before` is what a failed update leaves.
  unfoldable pub joined :
      InviteClaim
      → User
      → (jti token_id : String) → (now : ℕ) → (before : Accounts) → Accounts
      → Reply Accounts AuthResult
  joined (refused reason) user jti token_id now before t = throws (invite_failure reason) t
  joined (claimed invite_id role) user jti token_id now before t =
      or_throw (db.update User (λ u. u.id == user.id) (with_role role) t.users)
        (not_found "Record not found") before
        (λ e.
          let (rows, _) =
            db.update_many RefreshToken (open_of user.id) (revoked now) t.refresh_tokens in
          let (tokens, after) =
            issue_tokens db auth e.0 jti token_id now
              (record t { users = e.1; refresh_tokens = rows }) in
          returns (record { user = e.0; tokens = tokens })
            (capture "staff_invite_accepted" user.id ∷ []) after)

  unfoldable pub accept_staff_invite :
      (user_id token : String)
      → (jti token_id : String) → (now : ℕ) → Accounts
      → Reply Accounts AuthResult
  accept_staff_invite user_id token jti token_id now t =
      or_throw (db.find_unique User (λ u. u.id == user_id) t.users) (unauthorized "Unauthorized") t
        (λ user.
          let (claim, invites) =
            claim_invite db auth.hash_token auth.to_lower_case token (claimant_of user) now
              t.staff_invites in
          joined claim user jti token_id now t (record t { staff_invites = invites }))

pub record GoogleProfile : Type 0 where
  pub email : String
  pub full_name : Option String
  pub google_id : String

-- `trim()`, `split(/\s+/)` of a trimmed text that is not empty, and `join(' ')`.
pub record Texts : Type 0 where
  pub trim : String → String
  pub first_word : String → String
  pub other_words : String → List String
  pub join_words : List String → String

-- `fullName?.trim() ?? ''`
abbrev pub trimmed_name : Texts → Option String → String
trimmed_name texts none = ""
trimmed_name texts (some name) = texts.trim name

abbrev pub last_name_of : Texts → List String → Option String
last_name_of texts [] = none
last_name_of texts (word ∷ words) = some (texts.join_words (word ∷ words))

abbrev pub google_user : (email id first_name : String) → Option String → ℕ → User
google_user email id first_name last_name now = record {
  id = id;
  email = email;
  role = Roles.user;
  email_verified_at = some now;
  password_hash = none;
  profile = some (record { first_name = some first_name; last_name = last_name });
}

abbrev pub taken_over : ℕ → User → User
taken_over now u = record u { password_hash = none; email_verified_at = some now }

-- The new ids and the signing nonce of one call.
pub record Fresh : Type 0 where
  pub user_id : String
  pub identity_id : String
  pub jti : String
  pub token_id : String

module _ (db : PrismaClient) (auth : Auth) (texts : Texts) where
  unfoldable pub signed_in :
      User → Fresh → (now : ℕ) → List Effect → Accounts → Reply Accounts AuthResult
  signed_in user fresh now effects t =
      let (tokens, after) = issue_tokens db auth user fresh.jti fresh.token_id now t in
      returns (record { user = user; tokens = tokens }) effects after

  abbrev pub linked : Fresh → String → (google_id : String) → Accounts → Accounts
  linked fresh user_id google_id t = record t {
    identities =
        db.create AuthIdentity
          (record { id = fresh.identity_id; provider_user_id = google_id; user_id = user_id })
          t.identities;
  }

  -- A verified Google identity takes over an unverified local account.
  unfoldable pub take_over :
      User → Fresh → (google_id : String) → (now : ℕ) → Accounts → Reply Accounts AuthResult
  take_over user fresh google_id now t =
      or_throw (db.update User (λ u. u.id == user.id) (taken_over now) t.users)
        (not_found "Record not found") t
        (λ e.
          let (tokens, _) =
            db.update_many RefreshToken (open_of user.id) (revoked now) t.refresh_tokens in
          let (resets, _) =
            db.delete_many PasswordResetToken (unused_of user.id) t.password_reset_tokens in
          let (otps, _) = db.delete_many EmailVerificationOtp (unconsumed user.id) t.otps in
          or_throw (db.find_unique User (λ u. u.id == user.id) e.1) (not_found "Record not found") t
            (λ again. signed_in again fresh now (capture "user_logged_in" again.id ∷ []) (
              linked fresh again.id google_id (record t {
                users = e.1;
                refresh_tokens = tokens;
                password_reset_tokens = resets;
                otps = otps;
              }))))

  unfoldable pub google_account :
      Option User
      → (email first_name : String) → Option String
      → (google_id : String) → Fresh
      → (now : ℕ) → Accounts
      → Reply Accounts AuthResult
  google_account none email first_name last_name google_id fresh now t =
      let user = google_user email fresh.user_id first_name last_name now in
      signed_in user fresh now
        (capture "user_signed_up" user.id ∷ capture "user_logged_in" user.id ∷ [])
        (linked fresh user.id google_id (record t { users = db.create User user t.users }))
  google_account (some user) email first_name last_name google_id fresh now t =
      let takeover = take_over user fresh google_id now t in
      let signed =
        signed_in user fresh now (capture "user_logged_in" user.id ∷ [])
          (linked fresh user.id google_id t) in
      if is_none user.email_verified_at then takeover else signed

  -- An identity's user is a required relation.
  unfoldable pub google_identity :
      Option AuthIdentity
      → (email first_name : String) → Option String
      → (google_id : String) → Fresh
      → (now : ℕ) → Accounts
      → Reply Accounts AuthResult
  google_identity none email first_name last_name google_id fresh now t =
      google_account (db.find_unique User (λ u. u.email == email) t.users) email first_name
        last_name google_id fresh now t
  google_identity (some identity) email first_name last_name google_id fresh now t =
      or_throw (db.find_unique User (λ u. u.id == identity.user_id) t.users)
        (not_found "Record not found") t
        (λ user. signed_in user fresh now (capture "user_logged_in" user.id ∷ []) t)

  unfoldable pub google_login :
      GoogleProfile → Fresh → (now : ℕ) → Accounts → Reply Accounts AuthResult
  google_login profile fresh now t =
      let name = trimmed_name texts profile.full_name in
      throw_if (name == "") (bad_request "Google account has no name") t (
        google_identity
          (db.find_unique AuthIdentity (λ i. i.provider_user_id == profile.google_id) t.identities)
          (auth.to_lower_case (texts.trim profile.email)) (texts.first_word name)
          (last_name_of texts (texts.other_words name)) profile.google_id fresh now t)
