-- ===== src/Opportunities.antt =====
-- The opportunity directory: visibility, status labels, the list query and its summary
-- (src/opportunities/opportunities.rules.ts, opportunity-list.ts, opportunities.service.ts).
-- Times are milliseconds since the epoch. Texts are lists of UTF-16 code units where the code
-- cuts them.
pub mod Laws
pub mod Summary
pub mod Service
mod Tests
use pathway_backend.Prelude.{
  ℕ, ◌+◌, ◌*◌, String, Bool, true, false, not, ◌&&◌, ◌||◌, Option, none, some, List, [], ◌∷◌, ℤ,
  pos, negsuc, sub_ℕ, leb_ℤ, ltb, leb, any, is_none, select, nat_eq, nat_Eq, string_Eq, Eq, ◌==◌,
  ◌≡◌, ◌↔◌, arith, if◌then◌else◌,
}

pub data Verification : Type 0 where
  draft verified withdrawn : Verification

abbrev pub is_verified : Verification → Bool
is_verified verified = true
is_verified _ = false

pub data OpportunityType : Type 0 where
  internship job fellowship hackathon scholarship programme : OpportunityType

abbrev type_code : OpportunityType → ℕ
type_code internship = 0
type_code job = 1
type_code fellowship = 2
type_code hackathon = 3
type_code scholarship = 4
type_code programme = 5

pub record OpportunityRuleInput : Type 0 where
  pub verification : Verification
  pub deadline : Option ℕ
  pub deadline_unknown : Bool

pub data OpportunityStatus : Type 0 where
  open_ closing_soon closed rolling : OpportunityStatus

abbrev pub closing_soon_threshold_ms : ℕ
closing_soon_threshold_ms = 7 * 24 * 60 * 60 * 1000

visible_by_deadline : Option ℕ → ℕ → Bool
visible_by_deadline none now = false
visible_by_deadline (some deadline) now = ltb now deadline

pub is_visible : OpportunityRuleInput → ℕ → Bool
unfolding visible_by_deadline
is_visible o now =
    if not (is_verified o.verification)
    then false
    else (if o.deadline_unknown then true else visible_by_deadline o.deadline now)

status_by_time : ℤ → OpportunityStatus
status_by_time time_until_deadline =
    if leb_ℤ time_until_deadline (pos 0)
    then closed
    else (if leb_ℤ time_until_deadline (pos closing_soon_threshold_ms) then closing_soon else open_)

status_by_deadline : Bool → Option ℕ → ℕ → OpportunityStatus
unfolding status_by_time
status_by_deadline true deadline now = rolling
status_by_deadline false none now = rolling
status_by_deadline false (some deadline) now = status_by_time (sub_ℕ deadline now)

pub derive_status : OpportunityRuleInput → ℕ → OpportunityStatus
unfolding status_by_deadline
derive_status o now = status_by_deadline o.deadline_unknown o.deadline now

-- A row of the table, with the ids of the careers that it is linked to.
pub record Opportunity : Type 0 where
  pub id : String
  pub title : String
  pub type : OpportunityType
  pub organisation : String
  pub rule_input : OpportunityRuleInput
  pub open rule_input use *
  pub career_ids : List String

pub record ListQuery : Type 0 where
  pub type : Option OpportunityType
  pub career_id : Option String
  pub exclude_id : Option String
  pub search : Option String

-- `...(value && { … })`: a condition that is left out where the value is absent or empty.
abbrev when_given {ℓ} : {A : Type ℓ} → Option A → (A → Bool) → Bool
when_given none test = true
when_given (some a) test = test a

abbrev when_text : Option String → (String → Bool) → Bool
when_text none test = true
when_text (some s) test = if s == "" then true else test s

-- `deadline: { gt: now }`; a null deadline satisfies no comparison
deadline_after : Option ℕ → ℕ → Bool
deadline_after none now = false
deadline_after (some deadline) now = ltb now deadline

-- `contains` with `mode: 'insensitive'` is the database's.
module _ (contains : String → String → Bool) where
  pub opportunity_list_where : ListQuery → ℕ → Opportunity → Bool
  unfolding deadline_after
  opportunity_list_where query now o =
      is_verified o.verification
      && ((o.deadline_unknown || deadline_after o.deadline now)
          && when_text query.search (λ s. contains o.title s || contains o.organisation s))
      && when_given query.type (λ t. type_code o.type == type_code t)
      && when_text query.career_id (λ c. any (λ id. id == c) o.career_ids)
      && when_text query.exclude_id (λ i. not (o.id == i))
