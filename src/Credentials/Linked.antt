-- ===== src/Credentials/Linked.antt =====
-- Sign-in with Google leads to the same user each time.

use pathway_backend.Prelude.{
  ℕ, String, Bool, true, false, Option, none, some, List, [], ◌∷◌, ◌≡◌, refl, sym, ap, inl, inr,
  arith, Bool-cases, Option-cases, find, any, string_Eq, ◌==◌, eq_iff, is_none, ◌∙◌, find-Memᴰ,
  any_of_Memᴰ,
}
use pathway_backend.Prelude.Members.{find-concat, find-any, any-concat}
use pathway_backend.Effects.{Effect, capture}
use pathway_backend.Handlers.{
  returns, Returned, Returned-returns, or_throw-Returned, throw_if-Returned, or_throw, throw_if,
}
use pathway_backend.Database.{PrismaClient, PrismaLaws}
use pathway_backend.Verification.{User, AuthIdentity, Accounts, Auth, AuthResult, issue_tokens}
use pathway_backend.Credentials.Join.{
  GoogleProfile, Texts, Fresh, trimmed_name, google_user, signed_in, linked, take_over,
  google_account, google_identity, google_login, taken_over,
}

by_google : String → AuthIdentity → Bool
by_google google_id i = i.provider_user_id == google_id

module _ {db : PrismaClient} (laws : PrismaLaws db) (auth : Auth) (texts : Texts)
    (google_id : String) (fresh : Fresh) (now : ℕ) where
  -- The identity belongs to the user who was signed in, and that user is there.
  abbrev Linked : AuthResult → List Effect → Accounts → Type 0
  Linked result effects after =
      ((i : AuthIdentity) × (find (λ (i : AuthIdentity). i.provider_user_id == google_id)
            after.identities
          ≡ some i)
        × (i.user_id ≡ result.user.id))
      × ((v : User) × (find (λ (u : User). u.id == result.user.id) after.users ≡ some v))

  identified :
      (t : Accounts) (user : User) (i : AuthIdentity) (v : User) (sent : List Effect)
      → find (λ (i : AuthIdentity). i.provider_user_id == google_id) t.identities ≡ some i
      → i.user_id ≡ user.id
      → find (λ (u : User). u.id == user.id) t.users ≡ some v
      → Returned Linked (signed_in db auth texts user fresh now sent t)
  unfolding signed_in issue_tokens
  identified t user i v sent h own k = ((i, h, own), (v, k))

  newly_identified :
      (t : Accounts) (user : User) (v : User) (sent : List Effect)
      → find (λ (i : AuthIdentity). i.provider_user_id == google_id) t.identities ≡ none
      → find (λ (u : User). u.id == user.id) t.users ≡ some v
      → Returned Linked (
          signed_in db auth texts user fresh now sent
            (linked db auth texts fresh user.id google_id t))
  newly_identified t user v sent h k =
      let row : AuthIdentity = record {
        id = fresh.identity_id;
        provider_user_id = google_id;
        user_id = user.id;
      } in
      identified (linked db auth texts fresh user.id google_id t) user row v sent
        (ap (find (λ (i : AuthIdentity). i.provider_user_id == google_id))
            (laws.create_lem AuthIdentity row t.identities)
          ∙ find-concat (λ (i : AuthIdentity). i.provider_user_id == google_id) t.identities row h
              ((eq_iff google_id google_id).1 refl))
        refl k

  account-Linked :
      (o : Option User) (email first_name : String) (last_name : Option String) (t : Accounts)
      → find (λ (u : User). u.email == email) t.users ≡ o
      → find (λ (i : AuthIdentity). i.provider_user_id == google_id) t.identities ≡ none
      → Returned Linked
          (google_account db auth texts o email first_name last_name google_id fresh now t)
  unfolding google_account take_over signed_in issue_tokens
  account-Linked none email first_name last_name t e h =
      let user = google_user email fresh.user_id first_name last_name now in
      let rows = db.create User user t.users in
      let there : any (λ (u : User). u.id == user.id) rows ≡ true =
        ap (any (λ (u : User). u.id == user.id)) (laws.create_lem User user t.users)
        ∙ any-concat (λ (u : User). u.id == user.id) t.users user
        ∙ ground (arith, eq_iff user.id user.id) in
      let (v, k) = find-any (λ (u : User). u.id == user.id) rows there in
      newly_identified (record t { users = rows }) user v
        (capture "user_signed_up" user.id ∷ capture "user_logged_in" user.id ∷ []) h k
  account-Linked (some user) email first_name last_name t e h =
      let (m, _) = find-Memᴰ (λ (u : User). u.email == email) t.users e in
      let here : any (λ (u : User). u.id == user.id) t.users ≡ true =
        any_of_Memᴰ (λ (u : User). u.id == user.id) t.users m ((eq_iff user.id user.id).1 refl) in
      let (v, k) = find-any (λ (u : User). u.id == user.id) t.users here in
      elim (Bool-cases (is_none user.email_verified_at)) [
        | inl b ↦ rw b (
            or_throw-Returned Linked
              (db.update User (λ u. u.id == user.id) (taken_over now) t.users) _ t _
              (λ e f.
                or_throw-Returned Linked (db.find_unique User (λ u. u.id == user.id) e.1) _ t _
                  (λ again g.
                    let byid : User → Bool = λ u. u.id == user.id in
                    let found : find byid e.1 ≡ some again =
                      sym (laws.find_unique_lem User byid e.1) ∙ g in
                    let (_, same) = find-Memᴰ byid e.1 found in
                    let again_found : find (λ (u : User). u.id == again.id) e.1 ≡ some again =
                      ap (λ id. find (λ (u : User). u.id == id) e.1)
                        ((eq_iff again.id user.id).0 same)
                      ∙ found in
                    newly_identified (record t { users = e.1 }) again again
                      (capture "user_logged_in" again.id ∷ []) h again_found)))
        | inr b ↦ rw b (newly_identified t user v (capture "user_logged_in" user.id ∷ []) h k)
      ]

  google_login-Linked :
      (profile : GoogleProfile) (t : Accounts)
      → profile.google_id ≡ google_id
      → Returned Linked (google_login db auth texts profile fresh now t)
  unfolding google_login google_identity
  google_login-Linked profile t same =
      let p : AuthIdentity → Bool = λ i. i.provider_user_id == google_id in
      rw same (
        throw_if-Returned Linked (trimmed_name texts profile.full_name == "") _ t _ (λ named.
          elim (Option-cases (db.find_unique AuthIdentity p t.identities)) [
            | inl n ↦ rw n (
                account-Linked _ _ _ _ t (sym (laws.find_unique_lem User _ t.users))
                  (sym (laws.find_unique_lem AuthIdentity p t.identities) ∙ n))
            | inr (i, e) ↦ rw e (
                or_throw-Returned Linked (db.find_unique User (λ u. u.id == i.user_id) t.users) _ t
                  _
                  (λ user f.
                    let byid : User → Bool = λ u. u.id == i.user_id in
                    let found : find byid t.users ≡ some user =
                      sym (laws.find_unique_lem User byid t.users) ∙ f in
                    let (_, own) = find-Memᴰ byid t.users found in
                    let same_id : user.id ≡ i.user_id = (eq_iff user.id i.user_id).0 own in
                    identified t user i user (capture "user_logged_in" user.id ∷ [])
                      (sym (laws.find_unique_lem AuthIdentity p t.identities) ∙ e) (sym same_id)
                      (ap (λ id. find (λ (u : User). u.id == id) t.users) same_id ∙ found)))
          ]))

-- After a sign-in with a Google account, a later sign-in with the same account, whatever email and
-- name it then has, succeeds if it has a name, makes no new user, and is the sign-in of the same user.
pub google_login-again :
    {db : PrismaClient}
    → PrismaLaws db
    → (auth : Auth) (texts : Texts) (profile later_profile : GoogleProfile) (fresh again : Fresh)
      (now later : ℕ) (t : Accounts) {result : AuthResult} {effects : List Effect}
      {after : Accounts}
    → google_login db auth texts profile fresh now t ≡ returns result effects after
    → later_profile.google_id ≡ profile.google_id
    → trimmed_name texts later_profile.full_name == "" ≡ false
    → (r : AuthResult) × (last : Accounts) × (google_login db auth texts later_profile again later
          after
        ≡ returns r (capture "user_logged_in" result.user.id ∷ []) last)
      × (r.user.id ≡ result.user.id)
      × (last.users ≡ after.users)
      × (last.identities ≡ after.identities)
unfolding google_login google_identity throw_if or_throw signed_in issue_tokens
google_login-again {db} laws auth texts profile later_profile fresh again now later t {result}
      {effects} {after} h same named =
    let ((i, found, own), (v, there)) =
      Returned-returns (Linked laws auth texts profile.google_id fresh now)
        (google_login db auth texts profile fresh now t)
        (google_login-Linked laws auth texts profile.google_id fresh now profile t refl) h in
    let byid : User → Bool = λ u. u.id == i.user_id in
    let p : AuthIdentity → Bool = λ x. x.provider_user_id == later_profile.google_id in
    let identity : db.find_unique AuthIdentity p after.identities ≡ some i =
      laws.find_unique_lem AuthIdentity p after.identities
      ∙ ap (λ id. find (λ (x : AuthIdentity). x.provider_user_id == id) after.identities) same
      ∙ found in
    let owner : db.find_unique User byid after.users ≡ some v =
      laws.find_unique_lem User byid after.users
      ∙ ap (λ id. find (λ (x : User). x.id == id) after.users) own
      ∙ there in
    let (_, same_user) = find-Memᴰ (λ (x : User). x.id == result.user.id) after.users there in
    let same_id : v.id ≡ result.user.id = (eq_iff v.id result.user.id).0 same_user in
    (
      record { user = v; tokens = (issue_tokens db auth v again.jti again.token_id later after).0 },
      (issue_tokens db auth v again.jti again.token_id later after).1,
      rw (named, identity, owner, same_id) refl,
      same_id,
      refl,
      refl,
    )
