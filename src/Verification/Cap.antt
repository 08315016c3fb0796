-- ===== src/Verification/Cap.antt =====
-- The limit of attempts on a code, under the requests that verify an email.
use pathway_backend.Prelude.{
  ℕ, ◌+◌, ◌*◌, ◌≤◌, String, Option, none, some, List, [], ◌∷◌, inl, inr, arith, Bool-cases, All,
  All-append, All-updated, updated, count_where, nat_eq, is_some, string_Eq, nat_Eq, ◌==◌, eq_iff,
}
use pathway_backend.Database.{PrismaClient, PrismaLaws}
use pathway_backend.Verification.{
  User, EmailVerificationOtp, Accounts, Auth, may_try, tried, unconsumed, consumed,
  otp_max_attempts, accepted_with, issue_tokens, otp_ttl_minutes, accept_code, try_code,
  verify_user, verify_email, resend_to, resend_verification_email, find_by_email,
}

-- A request, with what the environment supplies.
pub data Request : Type 0 where
  verify : (email otp jti token_id : String) (now : ℕ) → Request
  resend : (email otp otp_id : String) (now : ℕ) → Request

unfoldable pub answer : PrismaClient → Auth → Request → Accounts → Accounts
answer db auth (verify email otp jti token_id now) t =
    (verify_email db auth email otp jti token_id now t).2
answer db auth (resend email otp otp_id now) t =
    (resend_verification_email db auth email otp otp_id now t).1

-- No code has more attempts than the limit.
abbrev pub AreCapped : List EmailVerificationOtp → Type 0
AreCapped rows = All (λ (o : EmailVerificationOtp). o.attempts ≤ otp_max_attempts) rows

-- No code for the verification of an email or for the reset of a password is past the limit.
abbrev pub IsCapped : Accounts → Type 0
IsCapped t = AreCapped t.otps × AreCapped t.password_reset_otps

module _ {db : PrismaClient} (laws : PrismaLaws db) (auth : Auth) where
  accepted_with-IsCapped :
      (o : Option (User × List User)) (user : User) (jti token_id : String) (now : ℕ)
      (before t : Accounts)
      → IsCapped before
      → IsCapped t
      → IsCapped (accepted_with db auth o user jti token_id now before t).2
  unfolding accepted_with issue_tokens
  accepted_with-IsCapped none user jti token_id now before t hb h = hb
  accepted_with-IsCapped (some e) user jti token_id now before t hb h = h

  accept_code-IsCapped :
      (user : User) (jti token_id : String) (now : ℕ) (before t : Accounts)
      → IsCapped before
      → IsCapped t
      → IsCapped (accept_code db auth user jti token_id now before t).2
  unfolding accept_code
  accept_code-IsCapped user jti token_id now before t hb h =
      let capped = All-updated _ (unconsumed user.id) (consumed now) t.otps (λ o c q. c) h.0 in
      rw (laws.update_many_lem EmailVerificationOtp (unconsumed user.id) (consumed now) t.otps) (
        accepted_with-IsCapped _ user jti token_id now before
          (record t { otps = updated (unconsumed user.id) (consumed now) t.otps }) hb (capped, h.1))

  try_code-IsCapped :
      (o : Option EmailVerificationOtp) (user : User) (otp jti token_id : String) (now : ℕ)
      (t : Accounts)
      → IsCapped t
      → IsCapped (try_code db auth o user otp jti token_id now t).2
  unfolding try_code
  try_code-IsCapped none user otp jti token_id now t h = h
  try_code-IsCapped (some row) user otp jti token_id now t h =
      let counted = updated (may_try row.id) tried t.otps in
      let capped : IsCapped (record t { otps = counted }) = (
        All-updated _ (may_try row.id) tried t.otps (λ o c q. ground (arith, eq_iff o.id row.id))
            h.0,
        h.1,
      ) in
      rw (laws.update_many_lem EmailVerificationOtp (may_try row.id) tried t.otps)
        (elim (Bool-cases (nat_eq (count_where (may_try row.id) t.otps) 0)) [
          | inl e ↦ rw e capped
          | inr e ↦ elim (Bool-cases (row.code_hash == auth.hash_token otp)) [
            | inl q ↦
                rw (e, q)
                  (accept_code-IsCapped user jti token_id now t (record t { otps = counted }) h
                    capped)
            | inr q ↦ rw (e, q) capped
          ]
        ])

  verify_user-IsCapped :
      (o : Option User) (otp jti token_id : String) (now : ℕ) (t : Accounts)
      → IsCapped t
      → IsCapped (verify_user db auth o otp jti token_id now t).2
  unfolding verify_user
  verify_user-IsCapped none otp jti token_id now t h = h
  verify_user-IsCapped (some user) otp jti token_id now t h =
      elim (Bool-cases (is_some user.email_verified_at)) [
        | inl e ↦ rw e h
        | inr e ↦ rw e (try_code-IsCapped _ user otp jti token_id now t h)
      ]

  resend_to-IsCapped :
      (o : Option User) (otp otp_id : String) (now : ℕ) (t : Accounts)
      → IsCapped t
      → IsCapped (resend_to db auth o otp otp_id now t).1
  unfolding resend_to
  resend_to-IsCapped none otp otp_id now t h = h
  resend_to-IsCapped (some user) otp otp_id now t h =
      elim (Bool-cases (is_some user.email_verified_at)) [
        | inl e ↦ rw e h
        | inr e ↦
            let rows = updated (unconsumed user.id) (consumed now) t.otps in
            let row : EmailVerificationOtp = record {
              id = otp_id;
              user_id = user.id;
              code_hash = auth.hash_token otp;
              expires_at = now + otp_ttl_minutes * 60 * 1000;
              attempts = 0;
              consumed_at = none;
              created_at = now;
            } in
            let capped =
              All-updated _ (unconsumed user.id) (consumed now) t.otps (λ o c q. c) h.0 in
            rw e (
              rw
                (
                  laws.update_many_lem EmailVerificationOtp (unconsumed user.id) (consumed now)
                      t.otps,
                  laws.create_lem EmailVerificationOtp row rows,
                )
                (All-append _ rows (row ∷ []) capped (omega arith, tt), h.1))
      ]

-- Neither verifyEmail nor resendVerificationEmail takes a code past five attempts.
pub answer-IsCapped :
    {db : PrismaClient}
    → PrismaLaws db
    → (auth : Auth) (r : Request) (t : Accounts) → IsCapped t
    → IsCapped (answer db auth r t)
unfolding answer verify_email resend_verification_email
answer-IsCapped {db} laws auth (verify email otp jti token_id now) t h =
    verify_user-IsCapped laws auth (find_by_email db auth t.users email) otp jti token_id now t h
answer-IsCapped {db} laws auth (resend email otp otp_id now) t h =
    resend_to-IsCapped laws auth (find_by_email db auth t.users email) otp otp_id now t h
