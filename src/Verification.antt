-- ===== src/Verification.antt =====
-- Email verification by a code (src/auth/auth.service.ts: verifyEmail, resendVerificationEmail,
-- issueTokens; src/users/users.service.ts: findByEmail). Hashing, the lower-case form of a text and
-- the signing of tokens are arguments; so are the time, the new ids and the random code. The time
-- stamps of new rows other than codes are not modelled. An answer holds the user's row, which
-- `toUserResponse` shows.
pub mod Code
pub mod Cap
mod Tests
use pathway_backend.Prelude.{
  ℕ, ◌+◌, ◌*◌, String, Bool, true, false, not, ◌&&◌, Option, none, some, List, [], ◌∷◌, is_some,
  is_none, ltb, string_Eq, nat_Eq, ◌==◌, if◌then◌else◌,
}
use pathway_backend.Exceptions.{Result, ok, err, bad_request, not_found}
use pathway_backend.Effects.{Effect, capture, mail}
use pathway_backend.Database.{PrismaClient}
use pathway_backend.Roles.{Role}
use pathway_backend.Teams.{StaffInvite}

abbrev pub otp_ttl_minutes : ℕ
otp_ttl_minutes = 15

abbrev pub otp_max_attempts : ℕ
otp_max_attempts = 5

pub record UserProfile : Type 0 where
  pub first_name : Option String
  pub last_name : Option String

pub record User : Type 0 where
  pub id : String
  pub email : String
  pub role : Role
  pub email_verified_at : Option ℕ
  pub password_hash : Option String
  pub profile : Option UserProfile

pub record EmailVerificationOtp : Type 0 where
  pub id : String
  pub user_id : String
  pub code_hash : String
  pub expires_at : ℕ
  pub attempts : ℕ
  pub consumed_at : Option ℕ
  pub created_at : ℕ

pub record RefreshToken : Type 0 where
  pub id : String
  pub user_id : String
  pub token_hash : String
  pub expires_at : ℕ
  pub revoked_at : Option ℕ

pub record PasswordResetToken : Type 0 where
  pub id : String
  pub user_id : String
  pub token_hash : String
  pub expires_at : ℕ
  pub used_at : Option ℕ

-- A row of `AuthIdentity`, whose only provider is Google.
pub record AuthIdentity : Type 0 where
  pub id : String
  pub provider_user_id : String
  pub user_id : String

-- The tables of accounts. `PasswordResetOtp` has the columns of `EmailVerificationOtp`.
pub record Accounts : Type 0 where
  pub users : List User
  pub otps : List EmailVerificationOtp
  pub refresh_tokens : List RefreshToken
  pub password_reset_tokens : List PasswordResetToken
  pub password_reset_otps : List EmailVerificationOtp
  pub identities : List AuthIdentity
  pub staff_invites : List StaffInvite

pub record Tokens : Type 0 where
  pub access_token : String
  pub refresh_token : String

pub record AuthResult : Type 0 where
  pub user : User
  pub tokens : Tokens

-- What the libraries and the environment supply.
pub record Auth : Type 0 where
  pub hash_token : String → String
  pub to_lower_case : String → String
  pub sign_access : User → String
  pub sign_refresh : (user_id jti : String) → String
  pub refresh_ttl : ℕ

-- `{ userId, consumedAt: null, expiresAt: { gt: now } }`
abbrev pub is_live : String → ℕ → EmailVerificationOtp → Bool
is_live user_id now o = o.user_id == user_id && is_none o.consumed_at && ltb now o.expires_at

abbrev pub may_try : String → EmailVerificationOtp → Bool
may_try id o = o.id == id && ltb o.attempts otp_max_attempts

abbrev pub tried : EmailVerificationOtp → EmailVerificationOtp
tried o = record o { attempts = o.attempts + 1 }

abbrev pub unconsumed : String → EmailVerificationOtp → Bool
unconsumed user_id o = o.user_id == user_id && is_none o.consumed_at

abbrev pub consumed : ℕ → EmailVerificationOtp → EmailVerificationOtp
consumed now o = record o { consumed_at = some now }

abbrev pub verified_user : ℕ → User → User
verified_user now u = record u { email_verified_at = some now }

abbrev pub verification_failed : Result AuthResult
verification_failed = err (bad_request "Invalid or expired verification code")

module _ (db : PrismaClient) (auth : Auth) where
  abbrev pub find_by_email : List User → String → Option User
  find_by_email users email = db.find_unique User (λ u. u.email == auth.to_lower_case email) users

  unfoldable pub issue_tokens :
      User → (jti token_id : String) → (now : ℕ) → Accounts → Tokens × Accounts
  issue_tokens user jti token_id now t =
      let refresh_token = auth.sign_refresh user.id jti in
      (
        record { access_token = auth.sign_access user; refresh_token = refresh_token },
        record t {
          refresh_tokens =
              db.create RefreshToken
                (record {
                  id = token_id;
                  user_id = user.id;
                  token_hash = auth.hash_token refresh_token;
                  expires_at = now + auth.refresh_ttl;
                  revoked_at = none;
                })
                t.refresh_tokens;
        },
      )

  -- Without the user's row, `update` throws P2025, shown as a 404, and the transaction leaves what was
  -- there before it.
  unfoldable pub accepted_with :
      Option (User × List User)
      → User
      → (jti token_id : String) → (now : ℕ) → (before : Accounts) → Accounts
      → Result AuthResult × List Effect × Accounts
  accepted_with none user jti token_id now before t =
      (err (not_found "Record not found"), [], before)
  accepted_with (some e) user jti token_id now before t =
      let (tokens, after) =
        issue_tokens (verified_user now user) jti token_id now (record t { users = e.1 }) in
      (
        ok (record { user = verified_user now user; tokens = tokens }),
        capture "email_verified" user.id ∷ [],
        after,
      )

  -- The correct code: this and any other live codes are consumed and the user is verified.
  unfoldable pub accept_code :
      User
      → (jti token_id : String) → (now : ℕ) → (before : Accounts) → Accounts
      → Result AuthResult × List Effect × Accounts
  unfolding accepted_with
  accept_code user jti token_id now before t =
      let (otps, _) =
        db.update_many EmailVerificationOtp (unconsumed user.id) (consumed now) t.otps in
      accepted_with (db.update User (λ u. u.id == user.id) (verified_user now) t.users) user jti
        token_id now before (record t { otps = otps })

  -- A failure is returned from the transaction, so the counted attempt stays.
  unfoldable pub try_code :
      Option EmailVerificationOtp
      → User
      → (otp : String) → (jti token_id : String) → (now : ℕ) → Accounts
      → Result AuthResult × List Effect × Accounts
  try_code none user otp jti token_id now t = (verification_failed, [], t)
  try_code (some row) user otp jti token_id now t =
      let (counted, count) = db.update_many EmailVerificationOtp (may_try row.id) tried t.otps in
      let accepted = accept_code user jti token_id now t (record t { otps = counted }) in
      if count == 0
      then (verification_failed, [], record t { otps = counted })
      else (if not (row.code_hash == auth.hash_token otp)
          then (verification_failed, [], record t { otps = counted })
          else accepted)

  unfoldable pub verify_user :
      Option User
      → (otp : String) → (jti token_id : String) → (now : ℕ) → Accounts
      → Result AuthResult × List Effect × Accounts
  unfolding try_code
  verify_user none otp jti token_id now t = (verification_failed, [], t)
  verify_user (some user) otp jti token_id now t =
      let tried_code =
        try_code
          (db.find_first EmailVerificationOtp (is_live user.id now) (λ o. o.created_at) t.otps) user
          otp jti token_id now t in
      if is_some user.email_verified_at then (verification_failed, [], t) else tried_code

  unfoldable pub verify_email :
      (email otp : String)
      → (jti token_id : String) → (now : ℕ) → Accounts
      → Result AuthResult × List Effect × Accounts
  verify_email email otp jti token_id now t =
      verify_user (find_by_email t.users email) otp jti token_id now t

  -- The email goes out after the transaction, whether or not it arrives.
  unfoldable pub resend_to :
      Option User → (otp otp_id : String) → (now : ℕ) → Accounts → List Effect × Accounts
  resend_to none otp otp_id now t = ([], t)
  resend_to (some user) otp otp_id now t =
      let (otps, _) =
        db.update_many EmailVerificationOtp (unconsumed user.id) (consumed now) t.otps in
      let row : EmailVerificationOtp = record {
        id = otp_id;
        user_id = user.id;
        code_hash = auth.hash_token otp;
        expires_at = now + otp_ttl_minutes * 60 * 1000;
        attempts = 0;
        consumed_at = none;
        created_at = now;
      } in
      if is_some user.email_verified_at then ([], t) else (
        mail user.email "email-verification-otp" otp ∷ [],
        record t { otps = db.create EmailVerificationOtp row otps },
      )

  unfoldable pub resend_verification_email :
      (email otp otp_id : String) → (now : ℕ) → Accounts → List Effect × Accounts
  resend_verification_email email otp otp_id now t =
      resend_to (find_by_email t.users email) otp otp_id now t
