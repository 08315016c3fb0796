-- ===== src/Credentials/Codes.antt =====
-- A link or a code resets a password once.

use pathway_backend.Prelude.{
  ℕ, ◌≤◌, String, Bool, true, false, not, none, some, List, ◌≡◌, refl, sym, ap, subst, inl, inr,
  arith, Bool-cases, Option-cases, find, updated, count_where, string_Eq, nat_Eq, ◌==◌, eq_iff,
  is_none, ◌∙◌, Memᴰ, All, All-Memᴰ,
}
use pathway_backend.Prelude.Members.{Memᴰ-updated, Memᴰ-unique}
use pathway_backend.Effects.{Effect}
use pathway_backend.Handlers.{
  throws, returns, Returned, Returned-map, Returned-returns, or_throw-Returned, throw_if-Returned,
  or_throw,
}
use pathway_backend.Database.{PrismaClient, PrismaLaws}
use pathway_backend.Verification.{
  User, EmailVerificationOtp, PasswordResetToken, Accounts, Auth, find_by_email, is_live, may_try,
  tried, unconsumed, consumed,
}
use pathway_backend.Verification.Code.{updated-NoneLeft}
use pathway_backend.Credentials.{Passwords}
use pathway_backend.Credentials.Reset.{
  is_redeemable, unused_with_id, used, password_reset_failed, change_password, redeem,
  confirm_password_reset, try_reset_code, confirm_password_reset_otp,
}
use pathway_backend.Credentials.NewPassword.{change_password-HasNewPassword, changed-email}
use pathway_backend.Credentials.Recovered.{Recovery, by_link, by_code, recover}

-- No two links have the same hash, as the unique column promises.
abbrev pub UniqueHashes : Accounts → Type 0
UniqueHashes t =
    (hash : String)
    → count_where (λ (r : PasswordResetToken). r.token_hash == hash) t.password_reset_tokens ≤ 1

none_redeemable :
    {db : PrismaClient}
    → PrismaLaws db
    → (hash : String) (now later : ℕ) (rows : List PasswordResetToken) (row : PasswordResetToken)
    → count_where (λ (r : PasswordResetToken). r.token_hash == hash) rows ≤ 1
    → Memᴰ row rows
    → is_redeemable hash now row ≡ true
    → db.find_first PasswordResetToken
        (is_redeemable hash later)
        (λ _. 0)
        (updated (unused_with_id row.id) (used now) rows)
      ≡ none
none_redeemable {db} laws hash now later rows row one m k =
    let after = updated (unused_with_id row.id) (used now) rows in
    elim (Option-cases
      (db.find_first PasswordResetToken (is_redeemable hash later) (λ _. 0) after)) [
        | inl n ↦ n
        | inr (r, e) ↦
            let (n, l, _) =
              laws.find_first_some PasswordResetToken (is_redeemable hash later) (λ _. 0) after r
                e in
            let (x, o, changed) = Memᴰ-updated (unused_with_id row.id) (used now) rows n in
            let unused : is_none r.used_at ≡ true = ground arith in
            let same_hash : r.token_hash == hash ≡ true = ground arith in
            elim (Bool-cases (unused_with_id row.id x)) [
              | inl h ↦
                  let same : r ≡ used now x = rw h at changed in
                  absurd (cc (subst (λ z. is_none z.used_at ≡ true) same unused))
              | inr h ↦
                  let same : r ≡ x = rw h at changed in
                  let here : x ≡ row =
                    Memᴰ-unique (λ r. r.token_hash == hash) rows one o m
                      (subst (λ z. z.token_hash == hash ≡ true) same same_hash) (ground arith) in
                  let spent : unused_with_id row.id row ≡ false =
                    subst (λ z. unused_with_id row.id z ≡ false) here h in
                  absurd (ground (arith, eq_iff row.id row.id))
            ]
      ]

none_live :
    {db : PrismaClient}
    → PrismaLaws db
    → (user_id : String) (later : ℕ) (rows : List EmailVerificationOtp)
    → All (λ (o : EmailVerificationOtp). unconsumed user_id o ≡ false) rows
    → db.find_first EmailVerificationOtp (is_live user_id later) (λ o. o.created_at) rows ≡ none
none_live {db} laws user_id later rows h =
    let first =
      db.find_first EmailVerificationOtp (is_live user_id later) (λ o. o.created_at) rows in
    elim (Option-cases first) [
      | inl n ↦ n
      | inr (o, e) ↦
          let (m, k, _) =
            laws.find_first_some EmailVerificationOtp (is_live user_id later) (λ o. o.created_at)
              rows o e in
          let spent =
            All-Memᴰ (λ (o : EmailVerificationOtp). unconsumed user_id o ≡ false) rows h m in
          absurd (ground arith)
    ]

-- A second attempt by the same link, or with any code for the same email, whatever password it asks
-- for.
abbrev pub IsAgain : Recovery → Recovery → Type 0
IsAgain (by_link token _ _) (by_link other _ _) = other ≡ token
IsAgain (by_code email _ _ _) (by_code other _ _ _) = other ≡ email
IsAgain (by_link _ _ _) (by_code _ _ _ _) = ⊥
IsAgain (by_code _ _ _ _) (by_link _ _ _) = ⊥

module _ {db : PrismaClient} (laws : PrismaLaws db) (auth : Auth) (passwords : Passwords)
    (now later : ℕ) (t : Accounts) where
  -- What the tables of links and codes are after a reset.
  abbrev Spent : Recovery → Unit {0} → List Effect → Accounts → Type 0
  Spent (by_link token new_password salt) _ effects after =
      db.find_first PasswordResetToken (is_redeemable (auth.hash_token token) later) (λ _. 0)
        after.password_reset_tokens
      ≡ none
  Spent (by_code email otp new_password salt) _ effects after =
      (v : User) × (find_by_email db auth after.users email ≡ some v)
      × (db.find_first EmailVerificationOtp (is_live v.id later) (λ o. o.created_at)
            after.password_reset_otps
          ≡ none)

  recover-Spent :
      UniqueHashes t → (r : Recovery) → Returned (Spent r) (recover db auth passwords r now t)
  unfolding recover confirm_password_reset confirm_password_reset_otp redeem try_reset_code
  recover-Spent unique (by_link token new_password salt) =
      let spent = Spent (by_link token new_password salt) in
      or_throw-Returned spent _ _ t _ (λ row e.
        let (m, k, _) = laws.find_first_some PasswordResetToken _ _ _ row e in
        let claimed =
          db.update_many PasswordResetToken (unused_with_id row.id) (used now)
            t.password_reset_tokens in
        throw_if-Returned spent (claimed.1 == 0) _ t _ (λ _.
          Returned-map (change_password db row.user_id (passwords.hash salt new_password) now t _ _)
            (λ a effects after h.
              let (_, _, same) = h in
              let rows : after.password_reset_tokens ≡ claimed.0 =
                ap (λ (z : Accounts). z.password_reset_tokens) same in
              let claimed_rows =
                ap (λ z. z.0)
                  (laws.update_many_lem PasswordResetToken (unused_with_id row.id) (used now)
                    t.password_reset_tokens) in
              ap
                (db.find_first PasswordResetToken (is_redeemable (auth.hash_token token) later)
                  (λ _. 0))
                (rows ∙ claimed_rows)
              ∙ none_redeemable laws (auth.hash_token token) now later t.password_reset_tokens row
                  (unique (auth.hash_token token)) m k)
            (change_password-HasNewPassword laws row.user_id (passwords.hash salt new_password) now
              t _ _ refl)))
  recover-Spent unique (by_code email otp new_password salt) =
      let spent = Spent (by_code email otp new_password salt) in
      let hash = passwords.hash salt new_password in
      or_throw-Returned spent (find_by_email db auth t.users email) _ t _ (λ user f.
        or_throw-Returned spent _ _ t _ (λ row e.
          let counted =
            db.update_many EmailVerificationOtp (may_try row.id) tried t.password_reset_otps in
          let left =
            db.update_many EmailVerificationOtp (unconsumed user.id) (consumed now) counted.0 in
          throw_if-Returned spent (counted.1 == 0) _ _ _ (λ _.
            throw_if-Returned spent (not (row.code_hash == auth.hash_token otp)) _ _ _ (λ _.
              Returned-map (change_password db user.id hash now t _ _)
                (λ a effects after h.
                  let (_, _, same) = h in
                  let p : User → Bool = λ u. u.email == auth.to_lower_case email in
                  let (v, there, same_id) =
                    changed-email user.id hash now t.users (auth.to_lower_case email)
                      (sym (laws.find_unique_lem User p t.users) ∙ f) in
                  let rows : after.password_reset_otps ≡ left.0 =
                    ap (λ (z : Accounts). z.password_reset_otps) same in
                  let left_rows =
                    ap (λ z. z.0)
                      (laws.update_many_lem EmailVerificationOtp (unconsumed user.id) (consumed now)
                        counted.0) in
                  (
                    v,
                    laws.find_unique_lem User p after.users
                        ∙ ap (λ (z : Accounts). find p z.users) same
                        ∙ there,
                    ap
                          (λ id.
                            db.find_first EmailVerificationOtp (is_live id later)
                              (λ o. o.created_at) after.password_reset_otps)
                          same_id
                        ∙ ap
                            (db.find_first EmailVerificationOtp (is_live user.id later)
                              (λ o. o.created_at))
                            (rows ∙ left_rows)
                        ∙ none_live laws user.id later
                            (updated (unconsumed user.id) (consumed now) counted.0)
                            (updated-NoneLeft user.id now counted.0),
                  ))
                (change_password-HasNewPassword laws user.id hash now t _ _ refl)))))

  Spent-recover :
      (r again : Recovery) (effects : List Effect) (after : Accounts)
      → IsAgain r again
      → Spent r tt effects after
      → recover db auth passwords again later after ≡ throws password_reset_failed after
  unfolding recover confirm_password_reset confirm_password_reset_otp or_throw
  Spent-recover (by_link token x y) (by_link other z w) effects after same h = rw (same, h) refl
  Spent-recover (by_code email otp x y) (by_code other code z w) effects after same
        (v, found, none_left) =
      rw (same, found, none_left) refl
  Spent-recover (by_link token x y) (by_code other code z w) effects after other_kind h =
      elim other_kind [ ]
  Spent-recover (by_code email otp x y) (by_link other z w) effects after other_kind h =
      elim other_kind [ ]

-- After a link or a code has reset a password, an attempt by the same link, or with any code for the
-- same email, is refused at any time, whatever the new password, as long as nothing else
-- was done, and changes nothing; no two links have the same hash.
pub recover-once :
    {db : PrismaClient}
    → PrismaLaws db
    → (auth : Auth) (passwords : Passwords) (r again : Recovery) (now later : ℕ) (t : Accounts)
      {effects : List Effect} {after : Accounts}
    → UniqueHashes t
    → IsAgain r again
    → recover db auth passwords r now t ≡ returns tt effects after
    → recover db auth passwords again later after ≡ throws password_reset_failed after
recover-once {db} laws auth passwords r again now later t {effects} {after} unique same h =
    Spent-recover laws auth passwords now later t r again effects after same (
      Returned-returns (Spent laws auth passwords now later t r) (recover db auth passwords r now t)
        (recover-Spent laws auth passwords now later t unique r) h)
