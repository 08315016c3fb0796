-- ===== src/Credentials/Tests.antt =====
-- Accounts on concrete rows.
use pathway_backend.Prelude.{
  ℕ, String, true, false, if◌then◌else◌, Option, none, some, List, [], ◌∷◌, ◌≡◌, ◌≢◌, ◌↔◌, refl,
  arith, eq_iff, string_Eq, ◌==◌, find, Bool-cases, inl, inr,
}
use pathway_backend.Effects.{Effect, capture}
use pathway_backend.Handlers.{returns, throws, or_throw, throw_if, tables_of, is_returned}
use pathway_backend.Database.Reference.{reference, reference_laws, best}
use pathway_backend.Roles
use pathway_backend.Roles.{Role, editor, reviewer}
use pathway_backend.Teams.{StaffInvite, claim_invite, claim_refusal}
use pathway_backend.Teams.Claim.{MayClaim, by_hash}
use pathway_backend.Verification.{
  User, EmailVerificationOtp, PasswordResetToken, RefreshToken, Accounts, Auth, AuthResult,
  issue_tokens,
}
use pathway_backend.Sessions.{refresh, refresh_failed}
use pathway_backend.Credentials.{Passwords, PasswordLaws, RegisterDto, register, login, admin_login}
use pathway_backend.Credentials.Reset.{
  password_reset_failed, confirm_password_reset, redeem, change_password,
  confirm_password_reset_otp, try_reset_code,
}
use pathway_backend.Verification.Cap.{IsCapped}
use pathway_backend.Credentials.Capped.{reset_by_code, serve, serve-IsCapped}
use pathway_backend.Credentials.Join.{
  GoogleProfile, Texts, Fresh, google_login, google_identity, google_account, signed_in,
  accept_staff_invite, joined, claimant_of, with_role,
}
use pathway_backend.Credentials.Login.{HasCredentials, login_iff}
use pathway_backend.Credentials.NewPassword.{HasNewPassword}
use pathway_backend.Credentials.Recovered.{Recovery, by_link, recover, IsProof, recover-done}
use pathway_backend.Credentials.Codes.{UniqueHashes, recover-once}
use pathway_backend.Credentials.Invited.{IsPromoted, accept_staff_invite-done}
use pathway_backend.Credentials.Linked.{google_login-again}

abbrev plain : Auth
plain = record {
  hash_token = λ s. s;
  to_lower_case = λ s. s;
  sign_access = λ u. u.email;
  sign_refresh = λ id jti. jti;
  refresh_ttl = 1000;
}

-- A stored hash is the password itself, but for the empty one and the name of the stand-in.
abbrev stored : String → String
stored password =
    if password == "" then "salted" else (if password == "dummy" then "salted" else password)

abbrev toy : Passwords
toy = record {
  hash = λ salt password. stored password;
  compare = λ password hash. stored password == hash;
  dummy_hash = "dummy";
}

stored-other :
    (password text : String)
    → "salted" == text ≡ false
    → (password == "" ≡ false → password == "dummy" ≡ false → password == text ≡ false)
    → stored password == text ≡ false
stored-other password text h k = elim (Bool-cases (password == "")) [
  | inl e ↦ rw e h
  | inr e ↦ elim (Bool-cases (password == "dummy")) [
    | inl f ↦ rw (e, f) h
    | inr f ↦ rw (e, f) (k e f)
  ]
]

toy_laws : PasswordLaws toy
toy_laws = record {
  compare_hash = λ salt password. (eq_iff (stored password) (stored password)).1 refl;
  hash_not_empty = λ salt password. stored-other password "" refl (λ e f. e);
}

abbrev ann : User
ann = record {
  id = "u1";
  email = "a@x";
  role = editor;
  email_verified_at = some 3;
  password_hash = some "old";
  profile = none;
}

abbrev link : PasswordResetToken
link = record { id = "p1"; user_id = "u1"; token_hash = "link"; expires_at = 90; used_at = none }

abbrev session : RefreshToken
session = record {
  id = "t0";
  user_id = "u1";
  token_hash = "j0";
  expires_at = 900;
  revoked_at = none;
}

abbrev invite : StaffInvite
invite = record {
  id = "i1";
  email = "a@x";
  role = reviewer;
  token_hash = "tok";
  invited_by_id = "boss";
  expires_at = 900;
  accepted_at = none;
  revoked_at = none;
  created_at = 1;
}

abbrev accounts : Accounts
accounts = record {
  users = ann ∷ [];
  otps = [];
  refresh_tokens = session ∷ [];
  password_reset_tokens = link ∷ [];
  password_reset_otps = [];
  identities = [];
  staff_invites = invite ∷ [];
}

login_iff_example :
    ((is_returned (login reference plain toy "a@x" "old" "j1" "t1" 50 accounts) ≡ true)
      ↔ ((u : User) × HasCredentials plain toy accounts "a@x" "old" u))
    × ((is_returned (admin_login reference plain toy "a@x" "old" "j1" "t1" 50 accounts) ≡ true)
        ↔ ((u : User) × HasCredentials plain toy accounts "a@x" "old" u × (u.role ≢ Roles.user)))
login_iff_example = login_iff reference_laws plain toy "a@x" "old" "j1" "t1" 50 accounts

abbrev new_learner : RegisterDto
new_learner = record { email = "b@x"; password = "secret"; first_name = "Bo"; last_name = none }

abbrev registered : Accounts
registered = tables_of (
    register reference plain toy new_learner "salt" "u2" (record { otp = "123456"; id = "o1" }) 10
      accounts)

abbrev by_mail : Recovery
by_mail = by_link "link" "fresh" "salt"

abbrev recovered : Accounts
recovered = tables_of (recover reference plain toy by_mail 50 accounts)

abbrev completed : List Effect
completed = capture "password_reset_completed" "u1" ∷ []

recover-done_example :
    (user_id : String) × IsProof plain by_mail 50 accounts user_id
    × HasNewPassword user_id "fresh" accounts recovered
    × (completed ≡ capture "password_reset_completed" user_id ∷ [])
    × ((decode : String → Option String) (token jti token_id : String) (later : ℕ)
        → decode token ≡ some user_id
        → refresh reference plain decode token jti token_id later recovered
          ≡ (refresh_failed, recovered))
unfolding recover confirm_password_reset redeem change_password or_throw throw_if best
recover-done_example =
    recover-done reference_laws plain toy by_mail 50 accounts {effects = completed}
      {after = recovered} refl

one_link-UniqueHashes : UniqueHashes accounts
one_link-UniqueHashes hash = ground arith

recover-once_example :
    recover reference plain toy (by_link "link" "other" "pepper") 60 recovered
    ≡ throws password_reset_failed recovered
unfolding recover confirm_password_reset redeem change_password or_throw throw_if best
recover-once_example =
    recover-once reference_laws plain toy by_mail (by_link "link" "other" "pepper") 50 60 accounts
      {effects = completed} {after = recovered} one_link-UniqueHashes refl refl

abbrev joined_accounts : Accounts
joined_accounts = tables_of (accept_staff_invite reference plain "u1" "tok" "j1" "t1" 50 accounts)

abbrev join_result : AuthResult
join_result = record {
  user = with_role reviewer ann;
  tokens = record { access_token = "a@x"; refresh_token = "j1" };
}

accept_staff_invite-done_example :
    (u : User) × (i : StaffInvite) × (find (λ (x : User). x.id == "u1") accounts.users ≡ some u)
    × (find (by_hash (λ s. s) (λ s. s) "tok") accounts.staff_invites ≡ some i)
    × MayClaim (λ s. s) (λ s. s) i "tok" (claimant_of u) 50
    × (join_result.user ≡ with_role i.role u)
    × (capture "staff_invite_accepted" "u1" ∷ [] ≡ capture "staff_invite_accepted" "u1" ∷ [])
    × IsPromoted plain "u1" "tok" i u join_result 50 accounts joined_accounts
unfolding accept_staff_invite joined issue_tokens claim_invite claim_refusal or_throw
accept_staff_invite-done_example =
    accept_staff_invite-done reference_laws plain "u1" "tok" "j1" "t1" 50 accounts
      {result = join_result} {effects = capture "staff_invite_accepted" "u1" ∷ []}
      {after = joined_accounts} refl

abbrev texts : Texts
texts = record {
  trim = λ s. s;
  first_word = λ s. s;
  other_words = λ s. [];
  join_words = λ words. "";
}

abbrev google : GoogleProfile
google = record { email = "a@x"; full_name = some "Ann"; google_id = "g1" }

abbrev moved_google : GoogleProfile
moved_google = record { email = "other@x"; full_name = some "Ann"; google_id = "g1" }

abbrev first_ids : Fresh
first_ids = record { user_id = "u9"; identity_id = "d1"; jti = "j1"; token_id = "t1" }

abbrev second_ids : Fresh
second_ids = record { user_id = "u8"; identity_id = "d2"; jti = "j2"; token_id = "t2" }

abbrev google_result : AuthResult
google_result = record {
  user = ann;
  tokens = record { access_token = "a@x"; refresh_token = "j1" };
}

abbrev google_accounts : Accounts
google_accounts = tables_of (google_login reference plain texts google first_ids 50 accounts)

google_login-again_example :
    (r : AuthResult) × (last : Accounts) × (google_login reference plain texts moved_google
        second_ids 60 google_accounts
      ≡ returns r (capture "user_logged_in" "u1" ∷ []) last)
    × (r.user.id ≡ "u1")
    × (last.users ≡ google_accounts.users)
    × (last.identities ≡ google_accounts.identities)
unfolding google_login google_identity google_account signed_in issue_tokens throw_if
google_login-again_example =
    google_login-again reference_laws plain texts google moved_google first_ids second_ids 50 60
      accounts {result = google_result} {effects = capture "user_logged_in" "u1" ∷ []}
      {after = google_accounts} refl refl refl

abbrev reset_row : EmailVerificationOtp
reset_row = record {
  id = "o9";
  user_id = "u1";
  code_hash = "111111";
  expires_at = 900;
  attempts = 4;
  consumed_at = none;
  created_at = 5;
}

abbrev with_reset_code : Accounts
with_reset_code = record accounts { password_reset_otps = reset_row ∷ [] }

-- A wrong code counts as the fifth attempt, after which the right one is refused.
wrong_then_right_tests :
    let wrong = reset_by_code "a@x" "000000" "fresh" "salt" 50 in
    (serve reference plain toy wrong with_reset_code
      ≡ record accounts { password_reset_otps = record reset_row { attempts = 5 } ∷ [] })
    × (confirm_password_reset_otp reference plain toy "a@x" "111111" "fresh" "salt" 51
          (serve reference plain toy wrong with_reset_code)
        ≡ throws password_reset_failed (serve reference plain toy wrong with_reset_code))
unfolding serve confirm_password_reset_otp try_reset_code or_throw throw_if best
wrong_then_right_tests = (refl, refl)

serve-IsCapped_example :
    IsCapped
      (serve reference plain toy (reset_by_code "a@x" "000000" "fresh" "salt" 50) with_reset_code)
serve-IsCapped_example =
    serve-IsCapped reference_laws plain toy (reset_by_code "a@x" "000000" "fresh" "salt" 50)
      with_reset_code (tt, (omega arith, tt))
