-- ===== src/Verification/Code.antt =====
-- Which codes verify an email.
use pathway_backend.Prelude.{
  ℕ, ◌<◌, String, Bool, true, false, not, Option, none, some, List, [], ◌∷◌, ◌≡◌, refl, inl, inr,
  sym, ◌∙◌, arith, Bool-cases, All, Memᴰ, updated, count_where, find, nat_eq, is_some, string_Eq,
  nat_Eq, ◌==◌, eq_iff, if◌then◌else◌,
}
use pathway_backend.Prelude.Members.{count-found}
use pathway_backend.Exceptions.{Result, is_ok}
use pathway_backend.Effects.{Effect}
use pathway_backend.Database.{PrismaClient, PrismaLaws}
use pathway_backend.Verification.{
  User, EmailVerificationOtp, Accounts, AuthResult, Auth, is_live, may_try, tried, unconsumed,
  consumed, verification_failed, otp_max_attempts, accepted_with, issue_tokens, accept_code,
  try_code, verify_user, verify_email, find_by_email,
}

-- A code of the user that may still be used: it has the hash of the text that was sent, is not
-- consumed, has not expired, and has attempts left.
pub record IsUsable (auth : Auth) (user : User) (otp : String) (now : ℕ) (t : Accounts)
    (row : EmailVerificationOtp) : Type 0 where
  pub is_stored : Memᴰ row t.otps
  pub owned : row.user_id ≡ user.id
  pub unused : row.consumed_at ≡ none
  pub unexpired : now < row.expires_at
  pub matches : row.code_hash ≡ auth.hash_token otp
  pub attempts_left :
      (o : EmailVerificationOtp) × Memᴰ o t.otps × (o.id ≡ row.id) × (o.attempts < otp_max_attempts)

-- No code of the user is left to be used.
abbrev pub NoneLeft : User → Accounts → Type 0
NoneLeft user t = All (λ (o : EmailVerificationOtp). unconsumed user.id o ≡ false) t.otps

pub updated-NoneLeft :
    (id : String) (now : ℕ) (rows : List EmailVerificationOtp)
    → All
        (λ (o : EmailVerificationOtp). unconsumed id o ≡ false)
        (updated (unconsumed id) (consumed now) rows)
updated-NoneLeft id now [] = tt
updated-NoneLeft id now (o ∷ rows) = elim (Bool-cases (unconsumed id o)) [
  | inl e ↦ rw e (ground arith, updated-NoneLeft id now rows)
  | inr e ↦ rw e (e, updated-NoneLeft id now rows)
]

not_ok : false ≡ true → ⊥
not_ok e = cc

is_none-eq : {A : Type 0} (o : Option A) → is_some o ≡ false → o ≡ none
is_none-eq none e = refl
is_none-eq (some a) e = cc

-- The only branch of an attempt that succeeds.
accepted_branch :
    (spent matching : Bool) (left : Accounts)
    (accepted : Result AuthResult × List Effect × Accounts)
    → let outcome =
        if spent
        then (verification_failed, [], left)
        else (if not matching then (verification_failed, [], left) else accepted) in
      is_ok outcome.0 ≡ true → (spent ≡ false) × (matching ≡ true) × (outcome ≡ accepted)
accepted_branch true matching left accepted e = cc
accepted_branch false true left accepted e = (refl, refl, refl)
accepted_branch false false left accepted e = cc

usable :
    {db : PrismaClient}
    → PrismaLaws db
    → (auth : Auth) (user : User) (otp : String) (now : ℕ) (t : Accounts)
      (row : EmailVerificationOtp)
    → db.find_first EmailVerificationOtp (is_live user.id now) (λ o. o.created_at) t.otps ≡ some row
    → row.code_hash ≡ auth.hash_token otp
    → nat_eq (count_where (may_try row.id) t.otps) 0 ≡ false
    → IsUsable auth user otp now t row
usable laws auth user otp now t row e h c =
    let (stored, live, _) =
      laws.find_first_some EmailVerificationOtp (is_live user.id now) (λ o. o.created_at) t.otps row
        e in
    let (o, there, left) = count-found (may_try row.id) t.otps c in
    record {
      is_stored = stored;
      owned = ground (arith, eq_iff row.user_id user.id);
      unused = ground arith;
      unexpired = ground arith;
      matches = h;
      attempts_left = (o, there, ground (arith, eq_iff o.id row.id), ground arith);
    }

module _ {db : PrismaClient} (laws : PrismaLaws db) (auth : Auth) where
  accepted_with-NoneLeft :
      (o : Option (User × List User)) (user : User) (jti token_id : String) (now : ℕ)
      (before t : Accounts)
      → is_ok (accepted_with db auth o user jti token_id now before t).0 ≡ true
      → NoneLeft user t
      → NoneLeft user (accepted_with db auth o user jti token_id now before t).2
  unfolding accepted_with issue_tokens
  accepted_with-NoneLeft none user jti token_id now before t e h = cc
  accepted_with-NoneLeft (some x) user jti token_id now before t e h = h

  accept_code-NoneLeft :
      (user : User) (jti token_id : String) (now : ℕ) (before t : Accounts)
      → is_ok (accept_code db auth user jti token_id now before t).0 ≡ true
      → NoneLeft user (accept_code db auth user jti token_id now before t).2
  unfolding accept_code
  accept_code-NoneLeft user jti token_id now before t e =
      accepted_with-NoneLeft _ user jti token_id now before _ e (
        rw (laws.update_many_lem EmailVerificationOtp (unconsumed user.id) (consumed now) t.otps)
          (updated-NoneLeft user.id now t.otps))

  try_code-success :
      (o : Option EmailVerificationOtp) (user : User) (otp jti token_id : String) (now : ℕ)
      (t : Accounts)
      → is_ok (try_code db auth o user otp jti token_id now t).0 ≡ true
      → ((row : EmailVerificationOtp) × (o ≡ some row)
          × (row.code_hash ≡ auth.hash_token otp)
          × (nat_eq (count_where (may_try row.id) t.otps) 0 ≡ false))
        × NoneLeft user (try_code db auth o user otp jti token_id now t).2
  unfolding try_code
  try_code-success none user otp jti token_id now t e = cc
  try_code-success (some row) user otp jti token_id now t e =
      let attempt = db.update_many EmailVerificationOtp (may_try row.id) tried t.otps in
      let left : Accounts = record t { otps = attempt.0 } in
      let accepted = accept_code db auth user jti token_id now t left in
      let (some_left, same_hash, taken) =
        accepted_branch (attempt.1 == 0) (row.code_hash == auth.hash_token otp) left accepted e in
      (
        (
          row,
          refl,
          (eq_iff row.code_hash (auth.hash_token otp)).0 same_hash,
          rw (laws.update_many_lem EmailVerificationOtp (may_try row.id) tried t.otps) at some_left,
        ),
        rw taken (accept_code-NoneLeft user jti token_id now t left (rw taken at e)),
      )

  verify_user-success :
      (o : Option User) (otp jti token_id : String) (now : ℕ) (t : Accounts)
      → is_ok (verify_user db auth o otp jti token_id now t).0 ≡ true
      → (user : User) × (row : EmailVerificationOtp) × (o ≡ some user)
        × (user.email_verified_at ≡ none)
        × IsUsable auth user otp now t row
        × NoneLeft user (verify_user db auth o otp jti token_id now t).2
  unfolding verify_user
  verify_user-success none otp jti token_id now t e = cc
  verify_user-success (some user) otp jti token_id now t e =
      elim (Bool-cases (is_some user.email_verified_at)) [
        | inl v ↦ absurd (not_ok (rw v at e))
        | inr v ↦
            let search_ =
              db.find_first EmailVerificationOtp (is_live user.id now) (λ o. o.created_at) t.otps in
            let ((row, found_row, same_hash, some_left), left) =
              try_code-success search_ user otp jti token_id now t (rw v at e) in
            (
              user,
              row,
              refl,
              is_none-eq user.email_verified_at v,
              usable laws auth user otp now t row found_row same_hash some_left,
              rw v left,
            )
      ]

-- A verification succeeds only for a user who is not verified yet and a code of that user that is
-- stored with the hash of the text that was sent, is not consumed and has not expired, while a row
-- with its id has attempts left; afterwards no code of the user can be used.
pub verify_email-success :
    {db : PrismaClient}
    → PrismaLaws db
    → (auth : Auth) (email otp jti token_id : String) (now : ℕ) (t : Accounts)
    → is_ok (verify_email db auth email otp jti token_id now t).0 ≡ true
    → (user : User) × (row : EmailVerificationOtp) × (find
          (λ (u : User). u.email == auth.to_lower_case email)
          t.users
        ≡ some user)
      × (user.email_verified_at ≡ none)
      × IsUsable auth user otp now t row
      × NoneLeft user (verify_email db auth email otp jti token_id now t).2
unfolding verify_email
verify_email-success {db} laws auth email otp jti token_id now t e =
    let (user, row, is_found, rest, more, left) =
      verify_user-success laws auth (find_by_email db auth t.users email) otp jti token_id now t
        e in
    (user, row, sym (laws.find_unique_lem User _ t.users) ∙ is_found, rest, more, left)
