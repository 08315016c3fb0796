-- ===== src/Roles/Laws.antt =====
-- Whom the roles guard admits (src/common/guards/roles.guard.ts).
use pathway_backend.Prelude.{
  ℕ, ◌≤◌, String, true, false, Option, none, some, List, [], ◌∷◌, ◌≡◌, ◌≢◌, refl, ◌↔◌, ◌⊎◌, inl,
  inr, arith, pos, negsuc, any, eq_iff, Memᴰ, ◌==◌, string_Eq, nat_Eq, Bool-cases, sym, ap,
}
use pathway_backend.Roles.{
  Role, user, editor, reviewer, publisher, admin, rank, role_name, role_eq_iff, min_role, rank_of,
  role_of_rank, includes_role, no_roles, min_rank_pass, can_activate,
}

rank_of-role_name : (r : Role) → rank_of (some (role_name r)) ≡ pos (rank r)
unfolding rank_of
rank_of-role_name user = refl
rank_of-role_name editor = refl
rank_of-role_name reviewer = refl
rank_of-role_name publisher = refl
rank_of-role_name admin = refl

role_name-injective : (a b : Role) → role_name a ≡ role_name b → a ≡ b
role_name-injective a b e =
    let same : pos (rank a) ≡ pos (rank b) =
      cc (rank_of-role_name a, rank_of-role_name b, ap (λ s. rank_of (some s)) e) in
    (role_eq_iff a b).0 (ground arith)

any_of_Memᴰ :
    (r : Role) (rs : List Role) → Memᴰ r rs → any (λ x. role_name x == role_name r) rs ≡ true
any_of_Memᴰ r [] m = elim m [ ]
any_of_Memᴰ r (x ∷ rs) (Memᴰ.head e) =
    ground (arith, eq_iff (role_name x) (role_name r), ap role_name e)
any_of_Memᴰ r (x ∷ rs) (Memᴰ.tail m) = ground (arith, any_of_Memᴰ r rs m)

Memᴰ_of_any :
    (r : Role) (rs : List Role) → any (λ x. role_name x == role_name r) rs ≡ true → Memᴰ r rs
Memᴰ_of_any r [] e = cc
Memᴰ_of_any r (x ∷ rs) e = elim (Bool-cases (role_name x == role_name r)) [
  | inl here ↦ Memᴰ.head (sym (role_name-injective x r ((eq_iff _ _).0 here)))
  | inr later ↦ Memᴰ.tail (Memᴰ_of_any r rs (ground arith))
]

min_rank_pass-role_name :
    (m r : Role) → (min_rank_pass (min_role m) (some (role_name r)) ≡ true) ↔ (rank m ≤ rank r)
unfolding min_rank_pass min_role
min_rank_pass-role_name m r = rw (rank_of-role_name r, min_rank_pass) (ground arith)

includes_role_iff :
    (rs : List Role) (r : Role) → (includes_role (some rs) (some (role_name r)) ≡ true) ↔ Memᴰ r rs
unfolding includes_role
includes_role_iff rs r = (Memᴰ_of_any r rs, any_of_Memᴰ r rs)

includes_role_unknown :
    (roles : Option (List Role)) (name : Option String)
    → ((r : Role) → name ≢ some (role_name r))
    → includes_role roles name ≡ false
unfolding includes_role
includes_role_unknown none name h = refl
includes_role_unknown (some roles) none h = refl
includes_role_unknown (some []) (some s) h = refl
includes_role_unknown (some (x ∷ xs)) (some s) h =
    ground (arith, eq_iff (role_name x) s, h x, includes_role_unknown (some xs) (some s) h)

rank_of_unknown :
    (name : Option String) → ((r : Role) → name ≢ some (role_name r)) → rank_of name ≡ negsuc 0
unfolding rank_of
rank_of_unknown none h = refl
rank_of_unknown (some s) h = ground (
  arith,
  eq_iff "ADMIN" s,
  eq_iff "PUBLISHER" s,
  eq_iff "REVIEWER" s,
  eq_iff "EDITOR" s,
  eq_iff "USER" s,
  h admin,
  h publisher,
  h reviewer,
  h editor,
  h user,
)

min_rank_pass_unknown :
    (n : ℕ) (name : Option String)
    → ((r : Role) → name ≢ some (role_name r))
    → min_rank_pass (some n) name ≡ false
unfolding min_rank_pass
min_rank_pass_unknown n name h = rw (rank_of_unknown name h, min_rank_pass)

-- A route with a list of roles `rs` and a minimum role `m` admits a user of role `r` exactly when
-- the list is empty or holds `r`, and the rank of `r` is at least that of `m`.
pub can_activate_iff :
    (rs : List Role) (m r : Role)
    → (can_activate (some rs) (min_role m) (some (role_name r)) ≡ true)
      ↔ (((rs ≡ []) ⊎ Memᴰ r rs) × (rank m ≤ rank r))
unfolding can_activate min_role
can_activate_iff [] m r = ground (arith, min_rank_pass-role_name m r)
can_activate_iff (x ∷ rs) m r =
    let listed = includes_role_iff (x ∷ rs) r in
    let ranked = min_rank_pass-role_name m r in
    (
      λ e. (inr (listed.0 (ground arith)), ranked.0 (ground arith)),
      λ (where_, le). elim where_ [
        | inl empty ↦ cc
        | inr m ↦ ground (arith, listed.1 m, ranked.1 le)
      ],
    )

-- A request without a user, or whose role is none of the five, is refused wherever the route
-- names a minimum role or a non-empty list of roles.
pub can_activate_unknown :
    (roles : Option (List Role)) (min_rank : Option ℕ) (name : Option String)
    → ((r : Role) → name ≢ some (role_name r))
    → ((no_roles roles ≡ false) ⊎ (min_rank ≢ none))
    → can_activate roles min_rank name ≡ false
unfolding can_activate
can_activate_unknown roles none name h guarded = ground (arith, includes_role_unknown roles name h)
can_activate_unknown roles (some n) name h guarded = ground (arith, min_rank_pass_unknown n name h)

-- The role that a rank is logged as is the role of that rank.
pub role_of_rank-rank : (r : Role) → role_of_rank (rank r) ≡ some r
unfolding role_of_rank
role_of_rank-rank r = ground arith
