-- ===== src/Credentials/Invited.antt =====
-- What the acceptance of a staff invite does.

use pathway_backend.Prelude.{
  ℕ, ◌+◌, String, Bool, true, none, some, List, [], ◌∷◌, ◌++◌, ◌≡◌, ◌≢◌, refl, sym, ap, subst, inl,
  inr, arith, find, updated, count_where, string_Eq, ◌==◌, eq_iff, if◌then◌else◌, ◌∙◌, find-Memᴰ,
  find-updated, Memᴰ, Memᴰ-append_last,
}
use pathway_backend.Prelude.Members.{find-updated_apart, count_where-moved, count_where-append}
use pathway_backend.Effects.{Effect, capture}
use pathway_backend.Handlers.{returns, Returned, Returned-returns, or_throw-Returned}
use pathway_backend.Database.{PrismaClient, PrismaLaws}
use pathway_backend.Database.Reference.{update-found}
use pathway_backend.Teams.{StaffInvite, claimed, open_with_id, accept_at}
use pathway_backend.Teams.Claim.{MayClaim, by_hash, accepted_row, claim_invite_cases}
use pathway_backend.Verification.{User, RefreshToken, Accounts, Auth, AuthResult, issue_tokens}
use pathway_backend.Sessions.{revoked}
use pathway_backend.Credentials.Reset.{open_of}
use pathway_backend.Credentials.Join.{claimant_of, with_role, joined, accept_staff_invite}

-- The user has the role of the invite and nothing else of anyone has changed; the invite that the token
-- finds is accepted; and the user has one open session, that of the returned refresh token.
abbrev pub IsPromoted :
    Auth
    → (user_id token : String) → StaffInvite
    → User
    → AuthResult
    → (now : ℕ) → Accounts
    → Accounts
    → Type 0
IsPromoted auth user_id token i u result now t after =
    (find (λ (x : User). x.id == user_id) after.users ≡ some (with_role i.role u))
    × ((other : String)
        → other ≢ user_id
        → find (λ (x : User). x.id == other) after.users
          ≡ find (λ (x : User). x.id == other) t.users)
    × (after.staff_invites
        ≡ updated (open_with_id i.id) (λ x. record x { accepted_at = some now }) t.staff_invites)
    × (find (by_hash auth.hash_token auth.to_lower_case token) after.staff_invites
        ≡ some (record i { accepted_at = some now }))
    × ((row : RefreshToken) × Memᴰ row after.refresh_tokens
        × (open_of user_id row ≡ true)
        × (row.token_hash ≡ auth.hash_token result.tokens.refresh_token))
    × (count_where (open_of user_id) after.refresh_tokens ≡ 1)

new_open :
    (user_id : String) (row : RefreshToken)
    → row.user_id ≡ user_id
    → row.revoked_at ≡ none
    → count_where (open_of user_id) (row ∷ []) ≡ 1
new_open user_id row own unrevoked = rw unrevoked (ground (arith, eq_iff row.user_id user_id))

module _ {db : PrismaClient} (laws : PrismaLaws db) (auth : Auth)
    (user_id token jti token_id : String) (now : ℕ) (t : Accounts) where
  abbrev Promoted : AuthResult → List Effect → Accounts → Type 0
  Promoted result effects after =
      (u : User) × (i : StaffInvite) × (find (λ (x : User). x.id == user_id) t.users ≡ some u)
      × (find (by_hash auth.hash_token auth.to_lower_case token) t.staff_invites ≡ some i)
      × MayClaim auth.hash_token auth.to_lower_case i token (claimant_of u) now
      × (result.user ≡ with_role i.role u)
      × (effects ≡ capture "staff_invite_accepted" user_id ∷ [])
      × IsPromoted auth user_id token i u result now t after

  joined-Promoted :
      (u : User) (i : StaffInvite)
      → find (λ (x : User). x.id == user_id) t.users ≡ some u
      → u.id ≡ user_id
      → find (by_hash auth.hash_token auth.to_lower_case token) t.staff_invites ≡ some i
      → MayClaim auth.hash_token auth.to_lower_case i token (claimant_of u) now
      → Returned Promoted (
          joined db auth (claimed i.id i.role) u jti token_id now t (record t {
            staff_invites = updated (open_with_id i.id) (accept_at now) t.staff_invites;
          }))
  unfolding joined issue_tokens
  joined-Promoted u i found own here may =
      let byid : User → Bool = λ x. x.id == u.id in
      or_throw-Returned Promoted (db.update User byid (with_role i.role) t.users) _ t _ (λ e f.
        let (w, there, changed, users) = update-found laws User byid (with_role i.role) t.users f in
        let here_u : find byid t.users ≡ some u =
          ap (λ id. find (λ (x : User). x.id == id) t.users) own ∙ found in
        let same : w ≡ u = cc (there, here_u) in
        let promoted : e.0 ≡ with_role i.role u = changed ∙ ap (with_role i.role) same in
        let open_rows = updated (open_of u.id) (revoked now) t.refresh_tokens in
        let closed : (db.update_many RefreshToken (open_of u.id) (revoked now) t.refresh_tokens).0
            ≡ open_rows =
          ap (λ z. z.0)
            (laws.update_many_lem RefreshToken (open_of u.id) (revoked now) t.refresh_tokens) in
        let is_open : User → Bool = λ x. x.id == user_id in
        let self : byid u ≡ true = (eq_iff u.id u.id).1 refl in
        let row : RefreshToken = record {
          id = token_id;
          user_id = e.0.id;
          token_hash = auth.hash_token (auth.sign_refresh e.0.id jti);
          expires_at = now + auth.refresh_ttl;
          revoked_at = none;
        } in
        let added : db.create RefreshToken row
              (db.update_many RefreshToken (open_of u.id) (revoked now) t.refresh_tokens).0
            ≡ open_rows ++ row ∷ [] =
          laws.create_lem RefreshToken row _ ∙ ap (λ rows. rows ++ row ∷ []) closed in
        let new_owner : row.user_id ≡ user_id = ap (λ (x : User). x.id) promoted ∙ own in
        let no_open : count_where (open_of user_id) open_rows ≡ 0 =
          count_where-moved (open_of user_id) (open_of u.id) (revoked now) t.refresh_tokens
            (λ r k. subst (λ id. open_of id r ≡ true) (sym own) k) (λ r. ground arith) in
        (
          u,
          i,
          found,
          here,
          may,
          promoted,
          ap (λ id. capture "staff_invite_accepted" id ∷ []) own,
          (
            ap (find is_open) users
                ∙ find-updated is_open byid (with_role i.role) t.users (λ x. refl) found
                ∙ ap (λ b. some (if b then with_role i.role u else u)) self,
            λ other apart.
                ap (find (λ (x : User). x.id == other)) users
                ∙ find-updated_apart (λ (x : User). x.id == other) byid (with_role i.role) t.users
                    (λ x. refl)
                    (λ x k. ground (arith, eq_iff x.id u.id, eq_iff x.id other, apart, own)),
            refl,
            accepted_row auth.hash_token auth.to_lower_case db laws token (claimant_of u) now
                t.staff_invites i here may,
            (
              row,
              subst (Memᴰ row) (sym added) (Memᴰ-append_last open_rows row),
              ground (arith, (eq_iff row.user_id user_id).1 new_owner),
              refl,
            ),
            ap (count_where (open_of user_id)) added
                ∙ count_where-append (open_of user_id) open_rows (row ∷ [])
                ∙ omega (arith, no_open, new_open user_id row new_owner refl),
          ),
        ))

  accept_staff_invite-Promoted :
      Returned Promoted (accept_staff_invite db auth user_id token jti token_id now t)
  unfolding accept_staff_invite joined
  accept_staff_invite-Promoted =
      let byid : User → Bool = λ x. x.id == user_id in
      or_throw-Returned Promoted (db.find_unique User byid t.users) _ t _ (λ u e.
        let found : find byid t.users ≡ some u = sym (laws.find_unique_lem User byid t.users) ∙ e in
        let (_, own) = find-Memᴰ byid t.users found in
        elim (claim_invite_cases auth.hash_token auth.to_lower_case db laws token (claimant_of u)
          now t.staff_invites) [
            | inl (i, here, may, e) ↦
                rw e (joined-Promoted u i found ((eq_iff u.id user_id).0 own) here may)
            | inr (reason, e) ↦ rw e tt
          ])

-- When a staff invite is accepted, the user could claim the invite with that token; the user has the
-- invite's role and nothing else of a user has changed; the invite that the token finds is
-- accepted; one event is sent; and the user has one open session, that of the returned refresh token.
pub accept_staff_invite-done :
    {db : PrismaClient}
    → PrismaLaws db
    → (auth : Auth) (user_id token jti token_id : String) (now : ℕ) (t : Accounts)
      {result : AuthResult} {effects : List Effect} {after : Accounts}
    → accept_staff_invite db auth user_id token jti token_id now t ≡ returns result effects after
    → (u : User) × (i : StaffInvite) × (find (λ (x : User). x.id == user_id) t.users ≡ some u)
      × (find (by_hash auth.hash_token auth.to_lower_case token) t.staff_invites ≡ some i)
      × MayClaim auth.hash_token auth.to_lower_case i token (claimant_of u) now
      × (result.user ≡ with_role i.role u)
      × (effects ≡ capture "staff_invite_accepted" user_id ∷ [])
      × IsPromoted auth user_id token i u result now t after
accept_staff_invite-done {db} laws auth user_id token jti token_id now t h =
    Returned-returns (Promoted laws auth user_id token jti token_id now t)
      (accept_staff_invite db auth user_id token jti token_id now t)
      (accept_staff_invite-Promoted laws auth user_id token jti token_id now t) h
