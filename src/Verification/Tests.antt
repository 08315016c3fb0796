-- ===== src/Verification/Tests.antt =====
-- Email verification on concrete rows.
use pathway_backend.Prelude.{none, some, [], ◌∷◌, ◌≡◌, refl, find, string_Eq, ◌==◌}
use pathway_backend.Database.Reference.{reference, reference_laws, best}
use pathway_backend.Roles.{editor}
use pathway_backend.Verification.{
  User, EmailVerificationOtp, Accounts, Auth, accepted_with, issue_tokens, accept_code, try_code,
  verify_user, verify_email,
}
use pathway_backend.Verification.Code.{IsUsable, NoneLeft, verify_email-success}

abbrev plain : Auth
plain = record {
  hash_token = λ s. s;
  to_lower_case = λ s. s;
  sign_access = λ u. u.email;
  sign_refresh = λ id jti. jti;
  refresh_ttl = 1000;
}

abbrev ann : User
ann = record {
  id = "u1";
  email = "a@x";
  role = editor;
  email_verified_at = none;
  password_hash = none;
  profile = none;
}

abbrev code : EmailVerificationOtp
code = record {
  id = "o1";
  user_id = "u1";
  code_hash = "000042";
  expires_at = 900;
  attempts = 4;
  consumed_at = none;
  created_at = 1;
}

abbrev accounts : Accounts
accounts = record {
  users = ann ∷ [];
  otps = code ∷ [];
  refresh_tokens = [];
  password_reset_tokens = [];
  password_reset_otps = [];
  identities = [];
  staff_invites = [];
}

verify_email-success_example :
    (user : User) × (row : EmailVerificationOtp) × (find
        (λ (u : User). u.email == "a@x")
        accounts.users
      ≡ some user)
    × (user.email_verified_at ≡ none)
    × IsUsable plain user "000042" 50 accounts row
    × NoneLeft user (verify_email reference plain "a@x" "000042" "j" "t1" 50 accounts).2
unfolding verify_email verify_user try_code accept_code accepted_with issue_tokens best
verify_email-success_example =
    verify_email-success reference_laws plain "a@x" "000042" "j" "t1" 50 accounts refl
