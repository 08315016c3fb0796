-- ===== src/Credentials/Login.antt =====
-- Who can log in with a password.

use pathway_backend.Prelude.{
  ℕ, String, true, false, not, Option, none, some, List, ◌≡◌, ◌≢◌, ◌↔◌, ◌⊎◌, ap, refl, sym, inl,
  inr, arith, Bool-cases, find, any, string_Eq, ◌==◌, eq_iff, is_none, is_some, ◌∙◌,
}
use pathway_backend.Prelude.Members.{find-concat, find-not_any}
use pathway_backend.Exceptions.{unauthorized, forbidden}
use pathway_backend.Effects.{Effect}
use pathway_backend.Handlers.{
  Reply, throws, returns, is_returned, Returned, Returned-returns, throw_if-Returned, or_throw,
  throw_if, or_throw-is_returned, throw_if-is_returned,
}
use pathway_backend.Database.{PrismaClient, PrismaLaws}
use pathway_backend.Roles
use pathway_backend.Roles.{role_eq_iff, role_Eq}
use pathway_backend.Verification.{User, Accounts, Auth, AuthResult, find_by_email}
use pathway_backend.Credentials.{
  Passwords, PasswordLaws, RegisterDto, RegisterResponse, NewCode, hash_or_dummy, registered_user,
  register, authenticated, logged_in, login, admin_login,
}

module _ (auth : Auth) (passwords : Passwords) where
  -- The user has no hash, or an empty one.
  abbrev pub HasNoHash : User → Type 0
  HasNoHash u = (u.password_hash ≡ none) ⊎ (u.password_hash ≡ some "")

  -- The user has this email, a verified one, and a password that this one matches, or no password where
  -- this one matches the hash that stands in for it.
  abbrev pub HasCredentials : Accounts → (email password : String) → User → Type 0
  HasCredentials t email password u =
      (find (λ (u : User). u.email == auth.to_lower_case email) t.users ≡ some u)
      × (((hash : String) × (u.password_hash ≡ some hash)
            × (hash ≢ "")
            × (passwords.compare password hash ≡ true))
          ⊎ (HasNoHash u × (passwords.compare password passwords.dummy_hash ≡ true)))
      × (is_some u.email_verified_at ≡ true)

module _ {db : PrismaClient} (laws : PrismaLaws db) (auth : Auth) (passwords : Passwords) where
  -- What the comparison with the hash or its stand-in says of the user.
  abbrev Matches : (password : String) → Option String → Type 0
  Matches password o =
      ((hash : String) × (o ≡ some hash) × (hash ≢ "") × (passwords.compare password hash ≡ true))
      ⊎ (((o ≡ none) ⊎ (o ≡ some "")) × (passwords.compare password passwords.dummy_hash ≡ true))

  compare-Matches :
      (password : String) (o : Option String)
      → passwords.compare password (hash_or_dummy passwords o) ≡ true
      → Matches password o
  compare-Matches password none h = inr (inl refl, h)
  compare-Matches password (some hash) h = elim (Bool-cases (hash == "")) [
    | inl e ↦ inr (inr (ap some ((eq_iff hash "").0 e)), rw e at h)
    | inr e ↦ inl (hash, refl, λ q. cc (e, (eq_iff hash "").1 q), rw e at h)
  ]

  Matches-compare :
      (password : String) (o : Option String)
      → Matches password o
      → passwords.compare password (hash_or_dummy passwords o) ≡ true
  Matches-compare password o (inl (hash, stored, not_empty, matches)) =
      let e : hash == "" ≡ false = ground (arith, eq_iff hash "", not_empty) in
      rw (stored, e) matches
  Matches-compare password o (inr (inl e, matches)) = rw e matches
  Matches-compare password o (inr (inr e, matches)) = rw e (ground (arith, eq_iff "" "", matches))

  module _ {A : Type 0} (email password : String) (t : Accounts)
      (next : User → Reply Accounts A) where
    authenticated-HasCredentials :
        is_returned (authenticated db auth passwords email password t next) ≡ true
        → (u : User) × HasCredentials auth passwords t email password u
          × (is_returned (next u) ≡ true)
    unfolding authenticated
    authenticated-HasCredentials h =
        let (u, e, k) = or_throw-is_returned (find_by_email db auth t.users email) _ t _ h in
        let (matches, l) =
          throw_if-is_returned
            (not (passwords.compare password (hash_or_dummy passwords u.password_hash))) _ t _ k in
        let (verified, last) = throw_if-is_returned (is_none u.email_verified_at) _ t _ l in
        (
          u,
          (
            sym (laws.find_unique_lem User (λ u. u.email == auth.to_lower_case email) t.users) ∙ e,
            compare-Matches password u.password_hash (ground arith),
            ground arith,
          ),
          last,
        )

    HasCredentials-authenticated :
        (u : User)
        → HasCredentials auth passwords t email password u
        → authenticated db auth passwords email password t next ≡ next u
    unfolding authenticated or_throw throw_if
    HasCredentials-authenticated u (found, same, verified) =
        let here : db.find_unique User (λ u. u.email == auth.to_lower_case email) t.users ≡ some u =
          laws.find_unique_lem User (λ u. u.email == auth.to_lower_case email) t.users ∙ found in
        let shown : is_none u.email_verified_at ≡ false = ground arith in
        let matches = Matches-compare password u.password_hash same in
        rw (here, matches, shown) refl

  logged_in-returned :
      (u : User) (jti token_id : String) (now : ℕ) (t : Accounts)
      → is_returned (logged_in db auth passwords u jti token_id now t) ≡ true
  unfolding logged_in
  logged_in-returned u jti token_id now t = refl

-- A login succeeds exactly for a user who has that email, verified, and a password hash of its own
-- that the password matches, or no hash, or an empty one, where the password matches the hash that
-- stands in for it; an admin login moreover asks for a role other than the ordinary user's.
pub login_iff :
    {db : PrismaClient}
    → PrismaLaws db
    → (auth : Auth) (passwords : Passwords) (email password jti token_id : String) (now : ℕ)
      (t : Accounts)
    → ((is_returned (login db auth passwords email password jti token_id now t) ≡ true)
        ↔ ((u : User) × HasCredentials auth passwords t email password u))
      × ((is_returned (admin_login db auth passwords email password jti token_id now t) ≡ true)
          ↔ ((u : User) × HasCredentials auth passwords t email password u × (u.role ≢ Roles.user)))
unfolding login admin_login throw_if logged_in
login_iff {db} laws auth passwords email password jti token_id now t =
    let next : User → Reply Accounts AuthResult =
      λ user. logged_in db auth passwords user jti token_id now t in
    let admin_next : User → Reply Accounts AuthResult = λ user.
      throw_if (user.role == Roles.user) (forbidden "Admin access required") t (next user) in
    (
      (
        λ h.
            let (u, k, _) =
              authenticated-HasCredentials laws auth passwords email password t next h in
            (u, k),
        λ c.
            let (u, k) = c in
            rw (HasCredentials-authenticated laws auth passwords email password t next u k) refl,
      ),
      (
        λ h.
            let (u, k, l) =
              authenticated-HasCredentials laws auth passwords email password t admin_next h in
            let (no_user, _) = throw_if-is_returned (u.role == Roles.user) _ t (next u) l in
            (u, k, λ e. cc (no_user, (role_eq_iff u.role Roles.user).1 e)),
        λ c.
            let (u, k, role) = c in
            let above : (u.role == Roles.user) ≡ false = elim (Bool-cases (u.role == Roles.user)) [
              | inl e ↦ absurd (role ((role_eq_iff u.role Roles.user).0 e))
              | inr e ↦ e
            ] in
            rw
              (
                HasCredentials-authenticated laws auth passwords email password t admin_next u k,
                above,
              )
              refl,
      ),
    )

module _ {db : PrismaClient} (laws : PrismaLaws db) (auth : Auth) (passwords : Passwords)
    (dto : RegisterDto) (salt user_id : String) (code : NewCode) (now : ℕ) (t : Accounts) where
  abbrev Registered : RegisterResponse → List Effect → Accounts → Type 0
  Registered response effects after =
      find (λ (u : User). u.email == dto.email) after.users
      ≡ some (registered_user db auth passwords dto salt user_id)

  register-Registered : Returned Registered (register db auth passwords dto salt user_id code now t)
  unfolding register
  register-Registered =
      throw_if-Returned Registered (is_some (find_by_email db auth t.users dto.email)) _ t _ (λ e.
        throw_if-Returned Registered (any (λ (u : User). u.email == dto.email) t.users) _ t _ (λ f.
          let user = registered_user db auth passwords dto salt user_id in
          rw (laws.create_lem User user t.users) (
            find-concat (λ u. u.email == dto.email) t.users user
              (find-not_any (λ u. u.email == dto.email) t.users f)
              ((eq_iff dto.email dto.email).1 refl))))

-- After a registration under a lower-case email, a login with that email and password is refused
-- because the email is not verified, and changes nothing.
pub register-login :
    {db : PrismaClient}
    → PrismaLaws db
    → (auth : Auth) {passwords : Passwords} → PasswordLaws passwords
    → (dto : RegisterDto) (salt user_id : String) (code : NewCode) (now : ℕ) (t : Accounts)
      {response : RegisterResponse} {effects : List Effect} {after : Accounts}
      (jti token_id : String) (later : ℕ)
    → auth.to_lower_case dto.email ≡ dto.email
    → register db auth passwords dto salt user_id code now t ≡ returns response effects after
    → login db auth passwords dto.email dto.password jti token_id later after
      ≡ throws (unauthorized "Email not verified") after
unfolding login authenticated or_throw throw_if
register-login {db} laws auth {passwords} password_laws dto salt user_id code now t {response}
      {effects} {after} jti token_id later lower h =
    let found =
      Returned-returns (Registered laws auth passwords dto salt user_id code now t)
        (register db auth passwords dto salt user_id code now t)
        (register-Registered laws auth passwords dto salt user_id code now t) h in
    let user = registered_user db auth passwords dto salt user_id in
    let here : db.find_unique User (λ u. u.email == auth.to_lower_case dto.email) after.users
        ≡ some user =
      laws.find_unique_lem User (λ u. u.email == auth.to_lower_case dto.email) after.users
      ∙ rw lower found in
    rw
      (
        here,
        password_laws.hash_not_empty salt dto.password,
        password_laws.compare_hash salt dto.password,
      )
      refl
