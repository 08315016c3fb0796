-- ===== src/Credentials.antt =====
-- Accounts and passwords (src/auth/auth.service.ts: register, authenticate, login, adminLogin,
-- findCurrentUser; src/users/users.service.ts: create, updatePasswordHash, updateRole). Bcrypt is an
-- argument; so are the salt, the codes, the ids and the time. Messages to a user go out whether or
-- not they arrive.
pub mod Reset
pub mod Capped
pub mod Join
pub mod Login
pub mod NewPassword
pub mod Recovered
pub mod Codes
pub mod Invited
pub mod Linked
mod Tests
use pathway_backend.Prelude.{
  ℕ, ◌+◌, ◌*◌, String, Bool, true, false, not, ◌&&◌, ◌≡◌, Option, none, some, List, [], ◌∷◌, any,
  is_some, is_none, string_Eq, nat_Eq, ◌==◌, if◌then◌else◌,
}
use pathway_backend.Exceptions.{unauthorized, forbidden, conflict}
use pathway_backend.Effects.{Effect, capture, mail}
use pathway_backend.Handlers.{Reply, returns, or_throw, throw_if}
use pathway_backend.Database.{PrismaClient}
use pathway_backend.Roles.{Role, role_Eq}
use pathway_backend.Roles
use pathway_backend.Verification.{
  User, UserProfile, EmailVerificationOtp, RefreshToken, Accounts, Tokens, Auth, AuthResult,
  find_by_email, unconsumed, consumed, issue_tokens, otp_ttl_minutes,
}

-- `bcrypt.hash(password, 12)` with its random salt, `bcrypt.compare(password, hash)`, and the hash
-- that stands in for a missing one.
pub record Passwords : Type 0 where
  pub hash : (salt password : String) → String
  pub compare : (password hash : String) → Bool
  pub dummy_hash : String

-- What bcrypt promises of its own hashes.
pub record PasswordLaws (passwords : Passwords) : Type 0 where
  pub compare_hash :
      (salt password : String) → passwords.compare password (passwords.hash salt password) ≡ true
  pub hash_not_empty : (salt password : String) → passwords.hash salt password == "" ≡ false

pub record RegisterResponse : Type 0 where
  pub message : String
  pub email : String

pub record RegisterDto : Type 0 where
  pub email : String
  pub password : String
  pub first_name : String
  pub last_name : Option String

-- A live code that the environment supplies, with the id of its row.
pub record NewCode : Type 0 where
  pub otp : String
  pub id : String

-- `user?.passwordHash || this.DUMMY_HASH`
abbrev pub hash_or_dummy : Passwords → Option String → String
hash_or_dummy passwords none = passwords.dummy_hash
hash_or_dummy passwords (some hash) = if hash == "" then passwords.dummy_hash else hash

abbrev pub new_code : Auth → User → NewCode → ℕ → EmailVerificationOtp
new_code auth user code now = record {
  id = code.id;
  user_id = user.id;
  code_hash = auth.hash_token code.otp;
  expires_at = now + otp_ttl_minutes * 60 * 1000;
  attempts = 0;
  consumed_at = none;
  created_at = now;
}

module _ (db : PrismaClient) where
  -- The user's live codes are consumed and a new one is stored.
  unfoldable pub replace_code :
      Auth → User → NewCode → (now : ℕ) → List EmailVerificationOtp → List EmailVerificationOtp
  replace_code auth user code now rows =
      let (others, _) =
        db.update_many EmailVerificationOtp (unconsumed user.id) (consumed now) rows in
      db.create EmailVerificationOtp (new_code auth user code now) others

  module _ (auth : Auth) (passwords : Passwords) where
    abbrev pub registered_user : RegisterDto → (salt user_id : String) → User
    registered_user dto salt user_id = record {
      id = user_id;
      email = dto.email;
      role = Roles.user;
      email_verified_at = none;
      password_hash = some (passwords.hash salt dto.password);
      profile = some (record { first_name = some dto.first_name; last_name = dto.last_name });
    }

    -- The unique email rejects a second row, whatever its letters' case was before.
    unfoldable pub register :
        RegisterDto
        → (salt user_id : String) → NewCode
        → (now : ℕ) → Accounts
        → Reply Accounts RegisterResponse
    register dto salt user_id code now t =
        let user = registered_user dto salt user_id in
        throw_if (is_some (find_by_email db auth t.users dto.email))
          (conflict "email already registered") t
          (throw_if (any (λ (u : User). u.email == dto.email) t.users)
            (conflict "email already registered") t
            (returns (record { message = "Verification code sent"; email = dto.email })
              (mail dto.email "email-verification-otp" code.otp
                ∷ capture "user_signed_up" user_id
                ∷ [])
              (record t {
                users = db.create User user t.users;
                otps = replace_code auth user code now t.otps;
              })))

    -- `authenticate`, and what is done with the user.
    unfoldable pub authenticated :
        {A : Type 0}
        → (email password : String) → Accounts
        → (User → Reply Accounts A)
        → Reply Accounts A
    authenticated email password t next =
        or_throw (find_by_email db auth t.users email) (unauthorized "Invalid credentials") t
          (λ user.
            throw_if (not (passwords.compare password (hash_or_dummy passwords user.password_hash)))
              (unauthorized "Invalid credentials") t
              (throw_if (is_none user.email_verified_at) (unauthorized "Email not verified") t
                (next user)))

    unfoldable pub logged_in :
        User → (jti token_id : String) → (now : ℕ) → Accounts → Reply Accounts AuthResult
    logged_in user jti token_id now t =
        let (tokens, after) = issue_tokens db auth user jti token_id now t in
        returns (record { user = user; tokens = tokens }) (capture "user_logged_in" user.id ∷ [])
          after

    unfoldable pub login :
        (email password : String)
        → (jti token_id : String) → (now : ℕ) → Accounts
        → Reply Accounts AuthResult
    login email password jti token_id now t =
        authenticated email password t (λ user. logged_in user jti token_id now t)

    unfoldable pub admin_login :
        (email password : String)
        → (jti token_id : String) → (now : ℕ) → Accounts
        → Reply Accounts AuthResult
    admin_login email password jti token_id now t = authenticated email password t (λ user.
        throw_if (user.role == Roles.user) (forbidden "Admin access required") t
          (logged_in user jti token_id now t))

  unfoldable pub find_current_user : (user_id : String) → Accounts → Reply Accounts User
  find_current_user user_id t =
      or_throw (db.find_unique User (λ u. u.id == user_id) t.users)
        (unauthorized "User no longer exists") t (λ user. returns user [] t)
