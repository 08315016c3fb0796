-- ===== src/Roles.antt =====
-- Roles, their ranks, and the guard that reads them (prisma/schema.prisma,
-- src/common/decorators/min-role.decorator.ts, src/common/guards/roles.guard.ts).
-- The route metadata that the guard's `Reflector` finds, and the role of `request.user`, are
-- arguments; the role is a text, since it comes from a token.
pub mod Laws
mod Tests
use pathway_backend.Prelude.{
  ℕ, String, Bool, true, false, ◌&&◌, ◌||◌, Option, none, some, List, [], ◌∷◌, ℤ, pos, negsuc,
  leb_ℤ, any, is_none, find, ◌==◌, Eq, nat_eq, nat_Eq, string_Eq, ◌≡◌, ◌↔◌, arith, if◌then◌else◌,
}

pub data Role : Type 0 where
  user editor reviewer publisher admin : Role

abbrev pub rank : Role → ℕ
rank admin = 4
rank publisher = 3
rank reviewer = 2
rank editor = 1
rank user = 0

-- The members of the enumeration are the texts of their names.
abbrev pub role_name : Role → String
role_name user = "USER"
role_name editor = "EDITOR"
role_name reviewer = "REVIEWER"
role_name publisher = "PUBLISHER"
role_name admin = "ADMIN"

pub role_eq_iff : (a b : Role) → (nat_eq (rank a) (rank b) ≡ true) ↔ (a ≡ b)
role_eq_iff a b = ground arith

instance abbrev pub role_Eq : Eq Role
role_Eq = record { is_same = λ a b. nat_eq (rank a) (rank b); is_same_iff = role_eq_iff }

-- `MinRole(role)` stores the rank on the route.
pub min_role : Role → Option ℕ
min_role role = some (rank role)

-- The keys of `ROLE_RANK`, in the order they are written.
abbrev rank_keys : List Role
rank_keys = admin ∷ publisher ∷ reviewer ∷ editor ∷ user ∷ []

own_rank : Option Role → ℤ
own_rank none = negsuc 0
own_rank (some r) = pos (rank r)

rank_of : Option String → ℤ
unfolding own_rank
rank_of none = negsuc 0
rank_of (some name) = own_rank (find (λ r. role_name r == name) rank_keys)

pub role_of_rank : ℕ → Option Role
role_of_rank n = find (λ r. rank r == n) rank_keys

-- `!roles?.length`
abbrev no_roles : Option (List Role) → Bool
no_roles none = true
no_roles (some []) = true
no_roles (some (_ ∷ _)) = false

includes_role : Option (List Role) → Option String → Bool
includes_role none role = false
includes_role (some roles) none = false
includes_role (some roles) (some name) = any (λ r. role_name r == name) roles

min_rank_pass : Option ℕ → Option String → Bool
unfolding rank_of
min_rank_pass none role = true
min_rank_pass (some n) role = leb_ℤ (pos n) (rank_of role)

pub can_activate : Option (List Role) → Option ℕ → Option String → Bool
can_activate roles min_rank role =
    if no_roles roles && is_none min_rank
    then true
    else ((no_roles roles || includes_role roles role) && min_rank_pass min_rank role)
