-- ===== src/Credentials/Capped.antt =====
-- The limit of attempts on every code, under each request that stores a code or tries one
-- (src/auth/auth.service.ts: register, verifyEmail, resendVerificationEmail, requestPasswordResetOtp,
-- confirmPasswordResetOtp).
use pathway_backend.Prelude.{
  ℕ, String, Option, none, some, List, [], ◌∷◌, ◌++◌, ◌≡◌, ap, sym, subst, ◌∙◌, arith, All-append,
  All-updated, updated, nat_Eq, string_Eq, eq_iff,
}
use pathway_backend.Handlers.{tables_of, or_throw-tables, throw_if-tables}
use pathway_backend.Database.{PrismaClient, PrismaLaws}
use pathway_backend.Verification.{
  User, EmailVerificationOtp, Accounts, Auth, find_by_email, may_try, tried, unconsumed, consumed,
}
use pathway_backend.Verification.Cap.{AreCapped, IsCapped, Request, answer, answer-IsCapped}
use pathway_backend.Credentials.{Passwords, NewCode, RegisterDto, register, replace_code, new_code}
use pathway_backend.Credentials.Reset.{
  reset_code_to, request_password_reset_otp, change_password, try_reset_code,
  confirm_password_reset_otp,
}

-- A request over codes, with what the environment supplies.
pub data CodeRequest : Type 0 where
  verification : Request → CodeRequest
  registration :
      (dto : RegisterDto) (salt user_id : String) (code : NewCode) (now : ℕ) → CodeRequest
  reset_code : (email : String) (code : NewCode) (now : ℕ) → CodeRequest
  reset_by_code : (email otp new_password salt : String) (now : ℕ) → CodeRequest

-- The tables that a request leaves.
unfoldable pub serve : PrismaClient → Auth → Passwords → CodeRequest → Accounts → Accounts
serve db auth passwords (verification r) t = answer db auth r t
serve db auth passwords (registration dto salt user_id code now) t =
    tables_of (register db auth passwords dto salt user_id code now t)
serve db auth passwords (reset_code email code now) t =
    (request_password_reset_otp db auth email code now t).1
serve db auth passwords (reset_by_code email otp new_password salt now) t =
    tables_of (confirm_password_reset_otp db auth passwords email otp new_password salt now t)

module _ {db : PrismaClient} (laws : PrismaLaws db) (auth : Auth) where
  replace_code-AreCapped :
      (user : User) (code : NewCode) (now : ℕ) (rows : List EmailVerificationOtp)
      → AreCapped rows
      → AreCapped (replace_code db auth user code now rows)
  unfolding replace_code
  replace_code-AreCapped user code now rows h =
      let others = updated (unconsumed user.id) (consumed now) rows in
      let row = new_code auth user code now in
      let written : replace_code db auth user code now rows ≡ others ++ row ∷ [] =
        ap (λ (z : List EmailVerificationOtp × ℕ). db.create EmailVerificationOtp row z.0)
          (laws.update_many_lem EmailVerificationOtp (unconsumed user.id) (consumed now) rows)
        ∙ laws.create_lem EmailVerificationOtp row others in
      subst AreCapped (sym written) (
        All-append _ others (row ∷ [])
          (All-updated _ (unconsumed user.id) (consumed now) rows (λ o c q. c) h) (omega arith, tt))

  reset_code_to-IsCapped :
      (o : Option User) (code : NewCode) (now : ℕ) (t : Accounts)
      → IsCapped t
      → IsCapped (reset_code_to db auth o code now t).1
  unfolding reset_code_to
  reset_code_to-IsCapped none code now t h = h
  reset_code_to-IsCapped (some user) code now t h =
      (h.0, replace_code-AreCapped user code now t.password_reset_otps h.1)

  module _ (passwords : Passwords) where
    register-IsCapped :
        (dto : RegisterDto) (salt user_id : String) (code : NewCode) (now : ℕ) (t : Accounts)
        → IsCapped t
        → IsCapped (tables_of (register db auth passwords dto salt user_id code now t))
    unfolding register
    register-IsCapped dto salt user_id code now t h = throw_if-tables IsCapped _ _ t _ h (λ _.
        throw_if-tables IsCapped _ _ t _ h
          (λ _. (replace_code-AreCapped _ code now t.otps h.0, h.1)))

    -- The two writes of a code that is tried.
    tried_rows :
        (user : User) (row : EmailVerificationOtp) (now : ℕ) (rows : List EmailVerificationOtp)
        → AreCapped rows
        → AreCapped (updated (may_try row.id) tried rows)
          × AreCapped
              (updated (unconsumed user.id) (consumed now) (updated (may_try row.id) tried rows))
    tried_rows user row now rows h =
        let counted =
          All-updated _ (may_try row.id) tried rows (λ o c q. ground (arith, eq_iff o.id row.id))
            h in
        (counted, All-updated _ (unconsumed user.id) (consumed now) _ (λ o c q. c) counted)

    try_reset_code-IsCapped :
        (user : User) (row : EmailVerificationOtp) (otp new_password salt : String) (now : ℕ)
        (t : Accounts)
        → IsCapped t
        → IsCapped
            (tables_of (try_reset_code db auth passwords user row otp new_password salt now t))
    unfolding try_reset_code change_password
    try_reset_code-IsCapped user row otp new_password salt now t h =
        let (counted, all_consumed) = tried_rows user row now t.password_reset_otps h.1 in
        rw
          (
            laws.update_many_lem EmailVerificationOtp (may_try row.id) tried t.password_reset_otps,
            laws.update_many_lem EmailVerificationOtp (unconsumed user.id) (consumed now)
                (updated (may_try row.id) tried t.password_reset_otps),
          )
          (throw_if-tables IsCapped _ _ _ _ (h.0, counted)
            (λ _.
              throw_if-tables IsCapped _ _ _ _ (h.0, counted)
                (λ _. or_throw-tables IsCapped _ _ t _ h (λ e _. (h.0, all_consumed)))))

-- Whatever the request, a registration, a verification of an email, a new code for it, a request for a
-- reset code or a reset by a code, and however it ends: no code for the verification of an email or
-- for the reset of a password counts more than five attempts afterwards, where none did before.
pub serve-IsCapped :
    {db : PrismaClient}
    → PrismaLaws db
    → (auth : Auth) (passwords : Passwords) (r : CodeRequest) (t : Accounts) → IsCapped t
    → IsCapped (serve db auth passwords r t)
unfolding serve request_password_reset_otp confirm_password_reset_otp
serve-IsCapped laws auth passwords (verification r) t h = answer-IsCapped laws auth r t h
serve-IsCapped laws auth passwords (registration dto salt user_id code now) t h =
    register-IsCapped laws auth passwords dto salt user_id code now t h
serve-IsCapped {db} laws auth passwords (reset_code email code now) t h =
    reset_code_to-IsCapped laws auth (find_by_email db auth t.users email) code now t h
serve-IsCapped laws auth passwords (reset_by_code email otp new_password salt now) t h =
    or_throw-tables IsCapped _ _ t _ h (λ user _.
      or_throw-tables IsCapped _ _ t _ h (λ row _.
        try_reset_code-IsCapped laws auth passwords user row otp new_password salt now t h))
