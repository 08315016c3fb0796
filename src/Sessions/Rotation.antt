-- ===== src/Sessions/Rotation.antt =====
-- A refresh token is used once.
use pathway_backend.Prelude.{
  ℕ, ◌+◌, ◌≤◌, String, true, false, Option, none, some, List, [], ◌∷◌, ◌++◌, ◌≡◌, ◌≢◌, refl, inl,
  inr, arith, Bool-cases, updated, count_where, nat_eq, string_Eq, nat_Eq, eq_iff,
}
use pathway_backend.Exceptions.{is_ok}
use pathway_backend.Database.{PrismaClient, PrismaLaws}
use pathway_backend.Verification.{User, RefreshToken, Accounts, Auth, issue_tokens}
use pathway_backend.Sessions.{
  is_open, is_active, revoked, refresh_failed, rotate, refresh_for, refresh, logout_for, logout,
}

-- Once the active rows are revoked, none is active at a later time.
none_active :
    (id hash : String) (now later : ℕ) (rows : List RefreshToken)
    → now ≤ later
    → count_where (is_active id hash later) (updated (is_active id hash now) (revoked now) rows) ≡ 0
none_active id hash now later [] le = refl
none_active id hash now later (r ∷ rows) le = elim (Bool-cases (is_active id hash now r)) [
  | inl e ↦ rw e (ground (arith, none_active id hash now later rows le))
  | inr e ↦ rw e (ground (arith, none_active id hash now later rows le))
]

none_open :
    (id hash : String) (now later : ℕ) (rows : List RefreshToken)
    → count_where (is_active id hash later) (updated (is_open id hash) (revoked now) rows) ≡ 0
none_open id hash now later [] = refl
none_open id hash now later (r ∷ rows) = elim (Bool-cases (is_open id hash r)) [
  | inl e ↦ rw e (ground (arith, none_open id hash now later rows))
  | inr e ↦ rw e (ground (arith, none_open id hash now later rows))
]

count_where-other :
    (id hash : String) (later : ℕ) (rows : List RefreshToken) (r : RefreshToken)
    → r.token_hash ≢ hash
    → count_where (is_active id hash later) (rows ++ r ∷ [])
      ≡ count_where (is_active id hash later) rows
count_where-other id hash later [] r h = ground (arith, eq_iff r.token_hash hash)
count_where-other id hash later (x ∷ rows) r h =
    ground (arith, count_where-other id hash later rows r h)

not_ok : false ≡ true → ⊥
not_ok e = cc

module _ {db : PrismaClient} (laws : PrismaLaws db) (auth : Auth) where
  -- Without an active row, a refresh fails.
  pub rotate-inactive :
      (o : Option User) (user_id hash jti token_id : String) (now : ℕ) (t : Accounts)
      → count_where (is_active user_id hash now) t.refresh_tokens ≡ 0
      → rotate db auth o user_id hash jti token_id now t ≡ (refresh_failed, t)
  unfolding rotate
  rotate-inactive none user_id hash jti token_id now t e = refl
  rotate-inactive (some user) user_id hash jti token_id now t e =
      rw
        (
          laws.update_many_lem RefreshToken (is_active user_id hash now) (revoked now)
              t.refresh_tokens,
          e,
        )
        refl

  rotate-once :
      (o : Option User) (user_id hash jti token_id : String) (now later : ℕ) (t : Accounts)
      → ((id : String) → auth.hash_token (auth.sign_refresh id jti) ≢ hash)
      → now ≤ later
      → is_ok (rotate db auth o user_id hash jti token_id now t).0 ≡ true
      → count_where
          (is_active user_id hash later)
          (rotate db auth o user_id hash jti token_id now t).1.refresh_tokens
        ≡ 0
  unfolding rotate issue_tokens
  rotate-once none user_id hash jti token_id now later t fresh le e = cc
  rotate-once (some user) user_id hash jti token_id now later t fresh le e =
      let rows = updated (is_active user_id hash now) (revoked now) t.refresh_tokens in
      let row : RefreshToken = record {
        id = token_id;
        user_id = user.id;
        token_hash = auth.hash_token (auth.sign_refresh user.id jti);
        expires_at = now + auth.refresh_ttl;
        revoked_at = none;
      } in
      elim (Bool-cases (nat_eq (count_where (is_active user_id hash now) t.refresh_tokens) 0)) [
        | inl z ↦ absurd (
            not_ok (
              rw
                (
                  laws.update_many_lem RefreshToken (is_active user_id hash now) (revoked now)
                      t.refresh_tokens,
                  z,
                )
                at e))
        | inr z ↦
            rw
              (
                laws.update_many_lem RefreshToken (is_active user_id hash now) (revoked now)
                    t.refresh_tokens,
                z,
              )
              (rw (laws.create_lem RefreshToken row rows) (
                rw (count_where-other user_id hash later rows row (fresh user.id))
                  (none_active user_id hash now later t.refresh_tokens le)))
      ]

  refresh_for-once :
      (o : Option String) (token jti token_id jti2 token_id2 : String) (now later : ℕ)
      (t : Accounts)
      → ((id : String) → auth.hash_token (auth.sign_refresh id jti) ≢ auth.hash_token token)
      → now ≤ later
      → is_ok (refresh_for db auth o token jti token_id now t).0 ≡ true
      → refresh_for db auth o token jti2 token_id2 later
          (refresh_for db auth o token jti token_id now t).1
        ≡ (refresh_failed, (refresh_for db auth o token jti token_id now t).1)
  unfolding refresh_for
  refresh_for-once none token jti token_id jti2 token_id2 now later t fresh le e = refl
  refresh_for-once (some id) token jti token_id jti2 token_id2 now later t fresh le e =
      rotate-inactive _ id (auth.hash_token token) jti2 token_id2 later _
        (rotate-once _ id (auth.hash_token token) jti token_id now later t fresh le e)

  logout_for-refresh :
      (o : Option String) (token jti token_id : String) (now later : ℕ) (t : Accounts)
      → refresh_for db auth o token jti token_id later (logout_for db auth o token now t)
        ≡ (refresh_failed, logout_for db auth o token now t)
  unfolding refresh_for logout_for
  logout_for-refresh none token jti token_id now later t = refl
  logout_for-refresh (some id) token jti token_id now later t =
      rotate-inactive _ id (auth.hash_token token) jti token_id later _ (
        rw
          (laws.update_many_lem RefreshToken (is_open id (auth.hash_token token)) (revoked now)
            t.refresh_tokens)
          (none_open id (auth.hash_token token) now later t.refresh_tokens))

-- A refresh token is used once: after a refresh that succeeds, a second one with the same token fails
-- at every later time and changes nothing, where the new token has another hash than the old.
pub refresh-once :
    {db : PrismaClient}
    → PrismaLaws db
    → (auth : Auth) (decode : String → Option String) (token jti token_id jti2 token_id2 : String)
      (now later : ℕ) (t : Accounts)
    → ((id : String) → auth.hash_token (auth.sign_refresh id jti) ≢ auth.hash_token token)
    → now ≤ later
    → is_ok (refresh db auth decode token jti token_id now t).0 ≡ true
    → refresh db auth decode token jti2 token_id2 later
        (refresh db auth decode token jti token_id now t).1
      ≡ (refresh_failed, (refresh db auth decode token jti token_id now t).1)
unfolding refresh
refresh-once laws auth decode token jti token_id jti2 token_id2 now later t fresh le e =
    refresh_for-once laws auth (decode token) token jti token_id jti2 token_id2 now later t fresh le
      e

-- After a logout the token refreshes nothing, at any time.
pub logout-refresh :
    {db : PrismaClient}
    → PrismaLaws db
    → (auth : Auth) (decode : String → Option String) (token jti token_id : String) (now later : ℕ)
      (t : Accounts)
    → refresh db auth decode token jti token_id later (logout db auth decode token now t)
      ≡ (refresh_failed, logout db auth decode token now t)
unfolding refresh logout
logout-refresh laws auth decode token jti token_id now later t =
    logout_for-refresh laws auth (decode token) token jti token_id now later t
