-- ===== src/Roles/Tests.antt =====
-- The roles guard on concrete requests.
use pathway_backend.Prelude.{◌≡◌, refl, ◌↔◌, ◌⊎◌, ◌≤◌, true, false, some, none, [], ◌∷◌, Memᴰ}
use pathway_backend.Roles.{
  editor, reviewer, admin, publisher, rank, min_role, includes_role, min_rank_pass, can_activate,
}
use pathway_backend.Roles.Laws.{can_activate_iff}

-- `@MinRole(REVIEWER)` and `@Roles(EDITOR, ADMIN)`: an editor is listed and too low.
can_activate_tests :
    (can_activate (some (editor ∷ admin ∷ [])) (min_role reviewer) (some "EDITOR") ≡ false)
    × (can_activate (some (editor ∷ admin ∷ [])) (min_role reviewer) (some "ADMIN") ≡ true)
    × (can_activate none none none ≡ true)
unfolding can_activate min_role includes_role min_rank_pass
can_activate_tests = (refl, refl, refl)

can_activate_iff_example :
    (can_activate (some (publisher ∷ [])) (min_role reviewer) (some "PUBLISHER") ≡ true)
    ↔ (((publisher ∷ [] ≡ []) ⊎ Memᴰ publisher (publisher ∷ [])) × (rank reviewer ≤ rank publisher))
can_activate_iff_example = can_activate_iff (publisher ∷ []) reviewer publisher
