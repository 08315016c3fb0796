-- ===== src/Credentials/Recovered.antt =====
-- What a reset of a password leaves: by a link or by a code, the same change.
use pathway_backend.Prelude.{
  ℕ, ◌<◌, String, true, false, not, Option, none, some, List, [], ◌∷◌, ◌≡◌, refl, sym, ap, arith,
  find, count_where, string_Eq, nat_Eq, nat_eq, ◌==◌, eq_iff, is_none, ◌∙◌, Memᴰ,
}
use pathway_backend.Prelude.Members.{count_where_le, count-found}
use pathway_backend.Effects.{Effect, capture}
use pathway_backend.Handlers.{
  Reply, returns, Returned, Returned-map, Returned-returns, or_throw-Returned, throw_if-Returned,
}
use pathway_backend.Database.{PrismaClient, PrismaLaws}
use pathway_backend.Verification.{
  User, EmailVerificationOtp, PasswordResetToken, Accounts, Auth, find_by_email, may_try, tried,
  otp_max_attempts,
}
use pathway_backend.Sessions.{is_active, refresh, refresh_for, refresh_failed}
use pathway_backend.Sessions.Rotation.{rotate-inactive}
use pathway_backend.Credentials.{Passwords}
use pathway_backend.Credentials.Reset.{
  unused_with_id, used, open_of, change_password, redeem, confirm_password_reset, try_reset_code,
  confirm_password_reset_otp,
}
use pathway_backend.Credentials.NewPassword.{HasNewPassword, change_password-HasNewPassword}

-- With no open session, no token of the user refreshes, at any time.
no_session :
    {db : PrismaClient}
    → PrismaLaws db
    → (auth : Auth) (decode : String → Option String) (user_id token jti token_id : String)
      (later : ℕ) (t : Accounts)
    → decode token ≡ some user_id
    → count_where (open_of user_id) t.refresh_tokens ≡ 0
    → refresh db auth decode token jti token_id later t ≡ (refresh_failed, t)
unfolding refresh refresh_for
no_session {db} laws auth decode user_id token jti token_id later t owner closed =
    let none_left : count_where (is_active user_id (auth.hash_token token) later) t.refresh_tokens
        ≡ 0 =
      omega (
        arith,
        closed,
        count_where_le (is_active user_id (auth.hash_token token) later) (open_of user_id)
            t.refresh_tokens (λ r k. ground arith),
      ) in
    rw owner
      (rotate-inactive laws auth _ user_id (auth.hash_token token) jti token_id later t none_left)

-- A reset by a link, or by a code sent to an email.
pub data Recovery : Type 0 where
  by_link : (token new_password salt : String) → Recovery
  by_code : (email otp new_password salt : String) → Recovery

module _ (db : PrismaClient) (auth : Auth) (passwords : Passwords) where
  unfoldable pub recover : Recovery → (now : ℕ) → Accounts → Reply Accounts (Unit {0})
  recover (by_link token new_password salt) now t =
      confirm_password_reset db auth passwords token new_password salt now t
  recover (by_code email otp new_password salt) now t =
      confirm_password_reset_otp db auth passwords email otp new_password salt now t

abbrev pub new_hash : Passwords → Recovery → String
new_hash passwords (by_link token new_password salt) = passwords.hash salt new_password
new_hash passwords (by_code email otp new_password salt) = passwords.hash salt new_password

-- What proves the user's claim: a link that is not used and has not expired, or the last code sent to
-- the user's email, which is not consumed, has not expired and has attempts left.
abbrev pub IsProof : Auth → Recovery → ℕ → Accounts → String → Type 0
IsProof auth (by_link token new_password salt) now t user_id =
    (r : PasswordResetToken) × Memᴰ r t.password_reset_tokens
    × (r.user_id ≡ user_id)
    × (r.token_hash ≡ auth.hash_token token)
    × (r.used_at ≡ none)
    × (now < r.expires_at)
IsProof auth (by_code email otp new_password salt) now t user_id =
    (u : User) × (o : EmailVerificationOtp) × (p : EmailVerificationOtp) × (find
        (λ (u : User). u.email == auth.to_lower_case email) t.users
      ≡ some u)
    × (u.id ≡ user_id)
    × Memᴰ o t.password_reset_otps
    × (o.user_id ≡ user_id)
    × (o.code_hash ≡ auth.hash_token otp)
    × (o.consumed_at ≡ none)
    × (now < o.expires_at)
    × Memᴰ p t.password_reset_otps
    × (p.id ≡ o.id)
    × (p.attempts < otp_max_attempts)

module _ {db : PrismaClient} (laws : PrismaLaws db) (auth : Auth) (passwords : Passwords) (now : ℕ)
    (t : Accounts) where
  abbrev Recovered : Recovery → Unit {0} → List Effect → Accounts → Type 0
  Recovered r _ effects after =
      (user_id : String) × IsProof auth r now t user_id
      × HasNewPassword user_id (new_hash passwords r) t after
      × (effects ≡ capture "password_reset_completed" user_id ∷ [])

  is_none-none : {A : Type 0} (o : Option A) → is_none o ≡ true → o ≡ none
  is_none-none none h = refl
  is_none-none (some a) h = cc

  recover-Recovered : (r : Recovery) → Returned (Recovered r) (recover db auth passwords r now t)
  unfolding recover confirm_password_reset confirm_password_reset_otp redeem try_reset_code
  recover-Recovered (by_link token new_password salt) =
      let recovered = Recovered (by_link token new_password salt) in
      or_throw-Returned recovered _ _ t _ (λ row e.
        let (m, k, _) = laws.find_first_some PasswordResetToken _ _ _ row e in
        throw_if-Returned recovered
          ((db.update_many PasswordResetToken (unused_with_id row.id) (used now)
              t.password_reset_tokens).1
            == 0)
          _ t _
          (λ _.
            Returned-map
              (change_password db row.user_id (passwords.hash salt new_password) now t _ _)
              (λ a effects after h.
                let (changed, sent, _) = h in
                (
                  row.user_id,
                  (
                    row,
                    m,
                    refl,
                    ground (arith, eq_iff row.token_hash (auth.hash_token token)),
                    is_none-none row.used_at (ground arith),
                    ground arith,
                  ),
                  changed,
                  sent,
                ))
              (change_password-HasNewPassword laws row.user_id (passwords.hash salt new_password)
                now t _ _ refl)))
  recover-Recovered (by_code email otp new_password salt) =
      let recovered = Recovered (by_code email otp new_password salt) in
      or_throw-Returned recovered (find_by_email db auth t.users email) _ t _ (λ user f.
        or_throw-Returned recovered _ _ t _ (λ row e.
          let (m, k, _) = laws.find_first_some EmailVerificationOtp _ _ _ row e in
          let counted =
            db.update_many EmailVerificationOtp (may_try row.id) tried t.password_reset_otps in
          throw_if-Returned recovered (counted.1 == 0) _ _ _ (λ some_left.
            throw_if-Returned recovered (not (row.code_hash == auth.hash_token otp)) _ _ _ (λ same.
              let left : nat_eq (count_where (may_try row.id) t.password_reset_otps) 0 ≡ false =
                sym (
                  ap (λ c. nat_eq c.1 0)
                    (laws.update_many_lem EmailVerificationOtp (may_try row.id) tried
                      t.password_reset_otps))
                ∙ some_left in
              let (p, n, may) = count-found (may_try row.id) t.password_reset_otps left in
              Returned-map (change_password db user.id (passwords.hash salt new_password) now t _ _)
                (λ a effects after h.
                  let (changed, sent, _) = h in
                  (
                    user.id,
                    (
                      user,
                      row,
                      p,
                      sym (
                            laws.find_unique_lem User (λ u. u.email == auth.to_lower_case email)
                              t.users)
                          ∙ f,
                      refl,
                      m,
                      ground (arith, eq_iff row.user_id user.id),
                      ground (arith, eq_iff row.code_hash (auth.hash_token otp)),
                      is_none-none row.consumed_at (ground arith),
                      ground arith,
                      n,
                      ground (arith, eq_iff p.id row.id),
                      ground arith,
                    ),
                    changed,
                    sent,
                  ))
                (change_password-HasNewPassword laws user.id (passwords.hash salt new_password) now
                  t _ _ refl)))))

-- When a password is reset, by a link or by a code, the request proved the claim of one user; that
-- user has the new password and a verified email, and the same email and role; every other user is
-- as before; one event is sent; and no refresh token of that user, whichever text it is, gives new
-- tokens at any later time.
pub recover-done :
    {db : PrismaClient}
    → PrismaLaws db
    → (auth : Auth) (passwords : Passwords) (r : Recovery) (now : ℕ) (t : Accounts)
      {effects : List Effect} {after : Accounts}
    → recover db auth passwords r now t ≡ returns tt effects after
    → (user_id : String) × IsProof auth r now t user_id
      × HasNewPassword user_id (new_hash passwords r) t after
      × (effects ≡ capture "password_reset_completed" user_id ∷ [])
      × ((decode : String → Option String) (token jti token_id : String) (later : ℕ)
          → decode token ≡ some user_id
          → refresh db auth decode token jti token_id later after ≡ (refresh_failed, after))
recover-done {db} laws auth passwords r now t {effects} {after} h =
    let (user_id, proof, changed, sent) =
      Returned-returns (Recovered laws auth passwords now t r) (recover db auth passwords r now t)
        (recover-Recovered laws auth passwords now t r) h in
    (
      user_id,
      proof,
      changed,
      sent,
      λ decode token jti token_id later owner.
          no_session laws auth decode user_id token jti token_id later after owner changed.2,
    )
