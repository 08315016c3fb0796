-- ===== src/Opportunities/Laws.antt =====
-- Visibility, labels and the list query agree (src/opportunities).
use pathway_backend.Prelude.{
  ℕ, ◌+◌, ◌*◌, ◌≤◌, ◌<◌, String, Bool, true, false, Option, none, some, ◌≡◌, ◌≢◌, refl, ◌↔◌, ◌⊎◌,
  arith,
}
use pathway_backend.Opportunities.{
  verified, OpportunityRuleInput, open_, closing_soon, closed, rolling, is_visible, derive_status,
  visible_by_deadline, deadline_after, Opportunity, ListQuery, opportunity_list_where,
}

deadline_after_lem : (d : Option ℕ) (now : ℕ) → deadline_after d now ≡ visible_by_deadline d now
unfolding deadline_after visible_by_deadline
deadline_after_lem none now = refl
deadline_after_lem (some d) now = refl

-- A listed opportunity is visible, whatever the query.
pub opportunity_list_where-is_visible :
    (contains : String → String → Bool) (query : ListQuery) (now : ℕ) (o : Opportunity)
    → opportunity_list_where contains query now o ≡ true
    → is_visible o.rule_input now ≡ true
unfolding opportunity_list_where is_visible
opportunity_list_where-is_visible contains query now o h =
    ground (arith, deadline_after_lem o.deadline now)

-- With no filter the list query selects exactly the visible opportunities.
pub opportunity_list_where_unfiltered :
    (contains : String → String → Bool) (now : ℕ) (o : Opportunity)
    → opportunity_list_where contains
        (record { type = none; career_id = none; exclude_id = none; search = none })
        now
        o
      ≡ is_visible o.rule_input now
unfolding opportunity_list_where is_visible
opportunity_list_where_unfiltered contains now o = ground (arith, deadline_after_lem o.deadline now)

-- When each label is given: ROLLING exactly without a known deadline, CLOSED exactly when the
-- deadline is not in the future, CLOSING_SOON exactly in the last seven days before it, and OPEN
-- exactly before those.
pub derive_status_iff :
    (o : OpportunityRuleInput) (now : ℕ)
    → ((derive_status o now ≡ rolling) ↔ ((o.deadline_unknown ≡ true) ⊎ (o.deadline ≡ none)))
      × ((derive_status o now ≡ closed)
          ↔ ((d : ℕ) × (o.deadline_unknown ≡ false) × (o.deadline ≡ some d) × (d ≤ now)))
      × ((derive_status o now ≡ closing_soon) ↔ (
          (d : ℕ) × (o.deadline_unknown ≡ false)
          × (o.deadline ≡ some d)
          × (now < d)
          × (d ≤ now + 7 * 86_400_000)))
      × ((derive_status o now ≡ open_) ↔ (
          (d : ℕ) × (o.deadline_unknown ≡ false)
          × (o.deadline ≡ some d)
          × (now + 7 * 86_400_000 < d)))
unfolding derive_status
derive_status_iff o now = ground arith

-- A verified opportunity with a deadline, or whose deadline is unknown, is visible exactly when its
-- label is not CLOSED.
pub is_visible-derive_status :
    (o : OpportunityRuleInput) (now : ℕ)
    → o.verification ≡ verified
    → ((o.deadline_unknown ≡ true) ⊎ (o.deadline ≢ none))
    → (is_visible o now ≡ true) ↔ (derive_status o now ≢ closed)
unfolding is_visible derive_status
is_visible-derive_status o now v d = ground arith
