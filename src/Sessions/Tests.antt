-- ===== src/Sessions/Tests.antt =====
-- Sessions on concrete rows.
use pathway_backend.Prelude.{String, Option, none, some, [], ◌∷◌, ◌≡◌, ◌≢◌, refl, arith, eq_iff}
use pathway_backend.Database.Reference.{reference, reference_laws}
use pathway_backend.Roles.{editor}
use pathway_backend.Verification.{User, RefreshToken, Accounts, Auth, issue_tokens}
use pathway_backend.Sessions.{refresh_failed, rotate, refresh_for, refresh, logout}
use pathway_backend.Sessions.Rotation.{refresh-once, logout-refresh}

abbrev plain : Auth
plain = record {
  hash_token = λ s. s;
  to_lower_case = λ s. s;
  sign_access = λ u. u.email;
  sign_refresh = λ id jti. jti;
  refresh_ttl = 1000;
}

abbrev ann : User
ann = record {
  id = "u1";
  email = "a@x";
  role = editor;
  email_verified_at = some 3;
  password_hash = none;
  profile = none;
}

abbrev token : RefreshToken
token = record { id = "t0"; user_id = "u1"; token_hash = "j0"; expires_at = 900; revoked_at = none }

abbrev accounts : Accounts
accounts = record {
  users = ann ∷ [];
  otps = [];
  refresh_tokens = token ∷ [];
  password_reset_tokens = [];
  password_reset_otps = [];
  identities = [];
  staff_invites = [];
}

abbrev decode : String → Option String
decode _ = some "u1"

different : ◌≢◌ {A = String} "j1" "j0"
different = ground (arith, eq_iff "j1" "j0")

refresh-once_example :
    refresh reference plain decode "j0" "j2" "t2" 70
      (refresh reference plain decode "j0" "j1" "t1" 50 accounts).1
    ≡ (refresh_failed, (refresh reference plain decode "j0" "j1" "t1" 50 accounts).1)
unfolding refresh refresh_for rotate issue_tokens
refresh-once_example =
    refresh-once reference_laws plain decode "j0" "j1" "t1" "j2" "t2" 50 70 accounts
      (λ id. different) (omega arith) refl

logout-refresh_example :
    refresh reference plain decode "j0" "j1" "t1" 70
      (logout reference plain decode "j0" 50 accounts)
    ≡ (refresh_failed, logout reference plain decode "j0" 50 accounts)
logout-refresh_example = logout-refresh reference_laws plain decode "j0" "j1" "t1" 50 70 accounts
