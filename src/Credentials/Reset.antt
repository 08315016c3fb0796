-- ===== src/Credentials/Reset.antt =====
-- The reset of a password by a link or by a code (src/auth/auth.service.ts: requestPasswordReset,
-- requestPasswordResetOtp, confirmPasswordReset, confirmPasswordResetOtp).
use pathway_backend.Prelude.{
  ℕ, ◌+◌, ◌*◌, String, Bool, not, ◌&&◌, Option, none, some, List, [], ◌∷◌, is_none, ltb, string_Eq,
  nat_Eq, ◌==◌,
}
use pathway_backend.Exceptions.{Exception, bad_request, not_found}
use pathway_backend.Effects.{Effect, capture, mail}
use pathway_backend.Handlers.{Reply, returns, or_throw, throw_if}
use pathway_backend.Database.{PrismaClient}
use pathway_backend.Verification.{
  User, EmailVerificationOtp, RefreshToken, PasswordResetToken, Accounts, Auth, find_by_email,
  is_live, may_try, tried, unconsumed, consumed, verified_user,
}
use pathway_backend.Sessions.{revoked}
use pathway_backend.Credentials.{Passwords, NewCode, replace_code}

abbrev pub password_reset_token_ttl_minutes : ℕ
password_reset_token_ttl_minutes = 60

-- `{ userId, usedAt: null }`
abbrev pub unused_of : String → PasswordResetToken → Bool
unused_of user_id r = r.user_id == user_id && is_none r.used_at

-- `{ tokenHash, usedAt: null, expiresAt: { gt: now } }`
abbrev pub is_redeemable : String → ℕ → PasswordResetToken → Bool
is_redeemable token_hash now r =
    r.token_hash == token_hash && is_none r.used_at && ltb now r.expires_at

-- `{ id, usedAt: null }`
abbrev pub unused_with_id : String → PasswordResetToken → Bool
unused_with_id id r = r.id == id && is_none r.used_at

abbrev pub used : ℕ → PasswordResetToken → PasswordResetToken
used now r = record r { used_at = some now }

-- `{ userId, revokedAt: null }`
abbrev pub open_of : String → RefreshToken → Bool
open_of user_id r = r.user_id == user_id && is_none r.revoked_at

-- `{ id, emailVerifiedAt: null }`
abbrev pub unverified_with_id : String → User → Bool
unverified_with_id user_id u = u.id == user_id && is_none u.email_verified_at

abbrev pub with_password : String → User → User
with_password hash u = record u { password_hash = some hash }

abbrev pub password_reset_failed : Exception
password_reset_failed = bad_request "Invalid or expired reset token"

module _ (db : PrismaClient) (auth : Auth) where
  unfoldable pub reset_link_to :
      Option User → (token token_id : String) → (now : ℕ) → Accounts → List Effect × Accounts
  reset_link_to none token token_id now t = ([], t)
  reset_link_to (some user) token token_id now t =
      let (others, _) =
        db.delete_many PasswordResetToken (unused_of user.id) t.password_reset_tokens in
      let row : PasswordResetToken = record {
        id = token_id;
        user_id = user.id;
        token_hash = auth.hash_token token;
        expires_at = now + password_reset_token_ttl_minutes * 60 * 1000;
        used_at = none;
      } in
      (
        mail user.email "password-reset" token ∷ [],
        record t { password_reset_tokens = db.create PasswordResetToken row others },
      )

  unfoldable pub request_password_reset :
      (email token token_id : String) → (now : ℕ) → Accounts → List Effect × Accounts
  request_password_reset email token token_id now t =
      reset_link_to (find_by_email db auth t.users email) token token_id now t

  unfoldable pub reset_code_to :
      Option User → NewCode → (now : ℕ) → Accounts → List Effect × Accounts
  reset_code_to none code now t = ([], t)
  reset_code_to (some user) code now t = (
    mail user.email "password-reset-otp" code.otp ∷ [],
    record t { password_reset_otps = replace_code db auth user code now t.password_reset_otps },
  )

  unfoldable pub request_password_reset_otp :
      (email : String) → NewCode → (now : ℕ) → Accounts → List Effect × Accounts
  request_password_reset_otp email code now t =
      reset_code_to (find_by_email db auth t.users email) code now t

-- What both resets do to the user: the new hash, the end of the sessions, and the verification of
-- the email. A missing user is Prisma's P2025, which leaves what was there before the transaction.
module _ (db : PrismaClient) where
  unfoldable pub change_password :
      (user_id hash : String)
      → (now : ℕ) → (before : Accounts) → Accounts
      → List Effect
      → Reply Accounts (Unit {0})
  change_password user_id hash now before t effects =
      or_throw (db.update User (λ u. u.id == user_id) (with_password hash) t.users)
        (not_found "Record not found") before
        (λ e.
          let (tokens, _) =
            db.update_many RefreshToken (open_of user_id) (revoked now) t.refresh_tokens in
          let (users, _) =
            db.update_many User (unverified_with_id user_id) (verified_user now) e.1 in
          returns tt effects (record t { users = users; refresh_tokens = tokens }))

module _ (db : PrismaClient) (auth : Auth) (passwords : Passwords) where
  unfoldable pub redeem :
      PasswordResetToken
      → (new_password salt : String) → (now : ℕ) → Accounts
      → Reply Accounts (Unit {0})
  redeem row new_password salt now t =
      let (rows, count) =
        db.update_many PasswordResetToken (unused_with_id row.id) (used now)
          t.password_reset_tokens in
      throw_if (count == 0) password_reset_failed t (
        change_password db row.user_id (passwords.hash salt new_password) now t
          (record t { password_reset_tokens = rows })
          (capture "password_reset_completed" row.user_id ∷ []))

  unfoldable pub confirm_password_reset :
      (token new_password salt : String) → (now : ℕ) → Accounts → Reply Accounts (Unit {0})
  confirm_password_reset token new_password salt now t =
      or_throw
        (db.find_first PasswordResetToken (is_redeemable (auth.hash_token token) now) (λ _. 0)
          t.password_reset_tokens)
        password_reset_failed t (λ row. redeem row new_password salt now t)

  -- A failure is returned from the transaction, so the counted attempt stays.
  unfoldable pub try_reset_code :
      User
      → EmailVerificationOtp
      → (otp new_password salt : String) → (now : ℕ) → Accounts
      → Reply Accounts (Unit {0})
  try_reset_code user row otp new_password salt now t =
      let (counted, count) =
        db.update_many EmailVerificationOtp (may_try row.id) tried t.password_reset_otps in
      let (rows, _) =
        db.update_many EmailVerificationOtp (unconsumed user.id) (consumed now) counted in
      let after : Accounts = record t { password_reset_otps = counted } in
      throw_if (count == 0) password_reset_failed after (
        throw_if (not (row.code_hash == auth.hash_token otp)) password_reset_failed after (
          change_password db user.id (passwords.hash salt new_password) now t
            (record t { password_reset_otps = rows })
            (capture "password_reset_completed" user.id ∷ [])))

  unfoldable pub confirm_password_reset_otp :
      (email otp new_password salt : String) → (now : ℕ) → Accounts → Reply Accounts (Unit {0})
  confirm_password_reset_otp email otp new_password salt now t =
      or_throw (find_by_email db auth t.users email) password_reset_failed t (λ user.
        or_throw
          (db.find_first EmailVerificationOtp (is_live user.id now) (λ o. o.created_at)
            t.password_reset_otps)
          password_reset_failed t (λ row. try_reset_code user row otp new_password salt now t))
