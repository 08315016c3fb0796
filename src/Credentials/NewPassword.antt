-- ===== src/Credentials/NewPassword.antt =====
-- What a change of the password leaves of a user's sessions, links and codes (`changePassword`).
use pathway_backend.Prelude.{
  ℕ, String, Bool, true, false, some, List, ◌≡◌, ◌≢◌, refl, sym, ap, inl, inr, arith, Option-cases,
  find, updated, count_where, string_Eq, nat_Eq, ◌==◌, eq_iff, if◌then◌else◌, is_some, ◌∙◌,
  find-updated, find-Memᴰ,
}
use pathway_backend.Prelude.Members.{find-updated_apart, count_where-moved}
use pathway_backend.Effects.{Effect}
use pathway_backend.Handlers.{Returned, or_throw-Returned}
use pathway_backend.Database.{PrismaClient, PrismaLaws}
use pathway_backend.Database.Reference.{update-found}
use pathway_backend.Verification.{User, RefreshToken, Accounts, verified_user}
use pathway_backend.Sessions.{revoked}
use pathway_backend.Credentials.Reset.{open_of, unverified_with_id, with_password, change_password}

-- The user has the new password and a verified email, nobody else has changed, and no session of the
-- user is left open.
abbrev pub HasNewPassword : (user_id hash : String) → Accounts → Accounts → Type 0
HasNewPassword user_id hash t after =
    ((u : User) × (v : User) × (find (λ (x : User). x.id == user_id) t.users ≡ some u)
      × (find (λ (x : User). x.id == user_id) after.users ≡ some v)
      × (v.password_hash ≡ some hash)
      × (is_some v.email_verified_at ≡ true)
      × (v.email ≡ u.email)
      × (v.role ≡ u.role))
    × ((other : String)
        → other ≢ user_id
        → find (λ (x : User). x.id == other) after.users
          ≡ find (λ (x : User). x.id == other) t.users)
    × (count_where (open_of user_id) after.refresh_tokens ≡ 0)

module _ (user_id hash : String) (now : ℕ) where
  abbrev pub changed_users : List User → List User
  changed_users users =
      updated (unverified_with_id user_id) (verified_user now)
        (updated (λ u. u.id == user_id) (with_password hash) users)

  abbrev pub settled : User → User
  settled w = if unverified_with_id user_id w then verified_user now w else w

  pub settled_lem :
      (w : User)
      → w.id == user_id ≡ true
      → ((settled w).password_hash ≡ w.password_hash)
        × (is_some (settled w).email_verified_at ≡ true)
        × ((settled w).email ≡ w.email)
        × ((settled w).role ≡ w.role)
  settled_lem w own = elim (Option-cases w.email_verified_at) [
    | inl n ↦ rw (own, n) (refl, refl, refl, refl)
    | inr (at, s) ↦ rw (own, s) (refl, refl, refl, refl)
  ]

  changed-found :
      (users : List User) {u : User}
      → find (λ (x : User). x.id == user_id) users ≡ some u
      → (v : User) × (find (λ (x : User). x.id == user_id) (changed_users users) ≡ some v)
        × (v.password_hash ≡ some hash)
        × (is_some v.email_verified_at ≡ true)
        × (v.email ≡ u.email)
        × (v.role ≡ u.role)
  changed-found users {u} h =
      let p : User → Bool = λ x. x.id == user_id in
      let (_, own) = find-Memᴰ p users h in
      let w = with_password hash u in
      let first : find p (updated p (with_password hash) users) ≡ some w =
        find-updated p p (with_password hash) users (λ x. refl) h
        ∙ ap (λ b. some (if b then w else u)) own in
      let second =
        find-updated p (unverified_with_id user_id) (verified_user now)
          (updated p (with_password hash) users) (λ x. refl) first in
      let (hash_kept, verified, email_kept, role_kept) = settled_lem w own in
      (settled w, second, hash_kept, verified, email_kept, role_kept)

  -- The row of an email keeps its id.
  pub changed-email :
      (users : List User) (email : String) {u : User}
      → find (λ (x : User). x.email == email) users ≡ some u
      → (v : User) × (find (λ (x : User). x.email == email) (changed_users users) ≡ some v)
        × (v.id ≡ u.id)
  changed-email users email {u} h =
      let p : User → Bool = λ x. x.email == email in
      let w = if u.id == user_id then with_password hash u else u in
      let first = find-updated p (λ x. x.id == user_id) (with_password hash) users (λ x. refl) h in
      let second =
        find-updated p (unverified_with_id user_id) (verified_user now)
          (updated (λ x. x.id == user_id) (with_password hash) users) (λ x. refl) first in
      (settled w, second, ground arith)

  changed-other :
      (users : List User) (other : String)
      → other ≢ user_id
      → find (λ (x : User). x.id == other) (changed_users users)
        ≡ find (λ (x : User). x.id == other) users
  changed-other users other h =
      let p : User → Bool = λ x. x.id == other in
      let apart : (x : User) → x.id == user_id ≡ true → p x ≡ false =
        λ x e. ground (arith, eq_iff x.id user_id, eq_iff x.id other, h) in
      find-updated_apart p (unverified_with_id user_id) (verified_user now) _ (λ x. refl)
        (λ x e. apart x (ground arith))
      ∙ find-updated_apart p (λ u. u.id == user_id) (with_password hash) users (λ x. refl) apart

module _ {db : PrismaClient} (laws : PrismaLaws db) (user_id hash : String) (now : ℕ)
    (before t : Accounts) (sent : List Effect) where
  pub change_password-HasNewPassword :
      before.users ≡ t.users
      → Returned
          (λ _ effects after.
            HasNewPassword user_id hash before after
            × (effects ≡ sent)
            × (after ≡ record t {
              users = changed_users user_id hash now t.users;
              refresh_tokens = after.refresh_tokens;
            }))
          (change_password db user_id hash now before t sent)
  unfolding change_password
  change_password-HasNewPassword same =
      or_throw-Returned _ (db.update User (λ u. u.id == user_id) (with_password hash) t.users) _
        before _
        (λ e f.
          let (u, found, _, rows) = update-found laws User _ (with_password hash) t.users f in
          let (v, there, is_new, verified, same_email, same_role) =
            changed-found user_id hash now t.users found in
          let left : (db.update_many User (unverified_with_id user_id) (verified_user now) e.1).0
              ≡ changed_users user_id hash now t.users =
            ap (λ z. z.0)
              (laws.update_many_lem User (unverified_with_id user_id) (verified_user now) e.1)
            ∙ ap (updated (unverified_with_id user_id) (verified_user now)) rows in
          let closed : (db.update_many RefreshToken (open_of user_id) (revoked now)
                t.refresh_tokens).0
              ≡ updated (open_of user_id) (revoked now) t.refresh_tokens =
            ap (λ z. z.0)
              (laws.update_many_lem RefreshToken (open_of user_id) (revoked now)
                t.refresh_tokens) in
          (
            (
              (
                u,
                v,
                ap (find (λ (x : User). x.id == user_id)) same ∙ found,
                ap (find (λ (x : User). x.id == user_id)) left ∙ there,
                is_new,
                verified,
                same_email,
                same_role,
              ),
              λ other apart.
                  ap (find (λ (x : User). x.id == other)) left
                  ∙ changed-other user_id hash now t.users other apart
                  ∙ ap (find (λ (x : User). x.id == other)) (sym same),
              ap (count_where (open_of user_id)) closed
                  ∙ count_where-moved (open_of user_id) (open_of user_id) (revoked now)
                      t.refresh_tokens (λ r k. k) (λ r. ground arith),
            ),
            refl,
            ap
                (λ users. record t {
                  users = users;
                  refresh_tokens =
                      (db.update_many RefreshToken (open_of user_id) (revoked now)
                        t.refresh_tokens).0;
                })
                left,
          ))
