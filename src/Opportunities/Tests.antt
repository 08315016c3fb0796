-- ===== src/Opportunities/Tests.antt =====
-- The directory on concrete listings.
use pathway_backend.Prelude.{
  ℕ, String, Bool, true, false, none, some, List, [], ◌∷◌, ◌≡◌, refl, string_Eq, ◌==◌, nat_Eq,
}
use pathway_backend.Opportunities.{
  verified, job, OpportunityRuleInput, closing_soon, closed, rolling, Opportunity, ListQuery,
  is_visible, derive_status, opportunity_list_where,
}
use pathway_backend.Opportunities.Summary.{trim, to_summary, trim_end}
use pathway_backend.Opportunities.Service.{Saved}

abbrev rule : OpportunityRuleInput
rule = record { verification = verified; deadline = some 1_000_000; deadline_unknown = false }

abbrev listing : Opportunity
listing = record {
  id = "o1";
  title = "Intern";
  type = job;
  organisation = "Acme";
  rule_input = rule;
  career_ids = "c1" ∷ [];
}

abbrev contains : String → String → Bool
contains a b = a == b

abbrev query : ListQuery
query = record { type = some job; career_id = some "c1"; exclude_id = none; search = some "Acme" }

rule_tests :
    (opportunity_list_where contains query 5 listing ≡ true)
    × (is_visible rule 1_000_000 ≡ false)
    × (derive_status rule 1_000_000 ≡ closed)
    × (derive_status rule 5 ≡ closing_soon)
    × (derive_status (record rule { deadline = none }) 5 ≡ rolling)
unfolding opportunity_list_where is_visible derive_status
rule_tests = (refl, refl, refl, refl, refl)

abbrev white : ℕ → Bool
white c = c == 32

abbrev description : List ℕ
description = 32 ∷ 65 ∷ 66 ∷ 32 ∷ []

to_summary_test : to_summary white description ≡ 65 ∷ 66 ∷ []
unfolding to_summary trim trim_end
to_summary_test = refl

abbrev one_save : List Saved
one_save = record { user_id = "u"; opportunity_id = "o1"; saved_at = 4 } ∷ []
