-- ===== src/Sessions.antt =====
-- Sessions (src/auth/auth.service.ts: refresh, logout, decodeRefreshToken; src/users/users.service.ts:
-- findById). The verification of a token's signature is an argument: it gives the user id that the
-- token holds, or nothing.
pub mod Rotation
mod Tests
use pathway_backend.Prelude.{
  ℕ, String, Bool, not, ◌&&◌, Option, none, some, List, is_none, ltb, string_Eq, nat_Eq, ◌==◌,
  if◌then◌else◌,
}
use pathway_backend.Exceptions.{Result, ok, err, unauthorized}
use pathway_backend.Database.{PrismaClient}
use pathway_backend.Verification.{User, RefreshToken, Accounts, Tokens, Auth, issue_tokens}

-- `{ userId, tokenHash, revokedAt: null }`
abbrev pub is_open : String → String → RefreshToken → Bool
is_open user_id token_hash r =
    r.user_id == user_id && r.token_hash == token_hash && is_none r.revoked_at

-- and `expiresAt: { gt: now }`
abbrev pub is_active : String → String → ℕ → RefreshToken → Bool
is_active user_id token_hash now r = is_open user_id token_hash r && ltb now r.expires_at

abbrev pub revoked : ℕ → RefreshToken → RefreshToken
revoked now r = record r { revoked_at = some now }

abbrev pub refresh_failed : Result Tokens
refresh_failed = err (unauthorized "Invalid refresh token")

module _ (db : PrismaClient) (auth : Auth) where
  -- The transaction: the token is revoked, and a new pair is issued if it was active.
  unfoldable pub rotate :
      Option User
      → (user_id token_hash jti token_id : String) → (now : ℕ) → Accounts
      → Result Tokens × Accounts
  rotate none user_id token_hash jti token_id now t = (refresh_failed, t)
  rotate (some user) user_id token_hash jti token_id now t =
      let (rows, count) =
        db.update_many RefreshToken (is_active user_id token_hash now) (revoked now)
          t.refresh_tokens in
      let (tokens, after) =
        issue_tokens db auth user jti token_id now (record t { refresh_tokens = rows }) in
      if count == 0 then (refresh_failed, t) else (ok tokens, after)

  unfoldable pub refresh_for :
      Option String
      → (token jti token_id : String) → (now : ℕ) → Accounts
      → Result Tokens × Accounts
  refresh_for none token jti token_id now t = (refresh_failed, t)
  refresh_for (some user_id) token jti token_id now t =
      rotate (db.find_unique User (λ u. u.id == user_id) t.users) user_id (auth.hash_token token)
        jti token_id now t

  unfoldable pub logout_for : Option String → (token : String) → (now : ℕ) → Accounts → Accounts
  logout_for none token now t = t
  logout_for (some user_id) token now t =
      let (rows, _) =
        db.update_many RefreshToken (is_open user_id (auth.hash_token token)) (revoked now)
          t.refresh_tokens in
      record t { refresh_tokens = rows }

module _ (db : PrismaClient) (auth : Auth) (decode : String → Option String) where
  unfoldable pub refresh :
      (token jti token_id : String) → (now : ℕ) → Accounts → Result Tokens × Accounts
  refresh token jti token_id now t = refresh_for db auth (decode token) token jti token_id now t

  unfoldable pub logout : (token : String) → (now : ℕ) → Accounts → Accounts
  logout token now t = logout_for db auth (decode token) token now t
