-- ===== src/Plan/Unchanged.antt =====
-- A draft that changes nothing has a plan without operations.
use mathlib.Core.Option
use pathway_backend.Prelude.{
  ℕ, String, Bool, true, false, not, Option, none, some, List, [], ◌∷◌, map, select, All, All-map,
  ◌≡◌, refl, concat_map, is_some, string_Eq, nat_Eq, Eq, ◌==◌, if◌then◌else◌,
}
use pathway_backend.Prelude.Dict.{Dict, get, new_dict, new_dict-All}
use pathway_backend.Prelude.Equality.{option_Eq, list_Eq}
use pathway_backend.Snapshot.{
  CareerSnapshot, CareerSnapshotSkill, CareerSnapshotStep, CareerSnapshotOutlook,
  CareerSnapshotResource, LiveCareerForPlan, LivePathway, OutlookFields, ResourceFields,
}
use pathway_backend.Snapshot.TempId.{is_temp_id}
use pathway_backend.Plan.Types.{
  OperationKind, PlanSection, link, unlink, step_skills, step_resources,
}
use pathway_backend.Plan.Career.{
  plan_career_fields, text_changes, text_change, texts_change, string_fields, plan_pathway,
  pathway_change, pathway_text,
}
use pathway_backend.Plan.Skills.{plan_skills, skill_operations, skill_operation, skill_removal}
use pathway_backend.Plan.Resources.{
  plan_resources, resource_operation, resource_removal, resource_creation, resource_changed,
  plan_outlook, outlook_operation, outlook_removal, outlook_creation, outlook_changed,
}
use pathway_backend.Plan.Steps.{
  plan_steps, step_operation, step_texts, step_move, link_operation, plan_step_links, links_unless,
  id_set, step_deletion, step_creation,
}
use pathway_backend.Plan.Build.{build_plan, plan_operations}

-- The draft with the content of the live career.
abbrev pub draft_of : LiveCareerForPlan → CareerSnapshot
draft_of live = record {
  career = live.career;
  pathway = Option.map (λ (p : LivePathway). p.content) live.pathway;
  steps = live.steps;
  skills = live.skills;
  outlook = live.outlook;
  resources = live.resources;
}

-- No row of the live career has a temporary id.
abbrev pub HasRealIds : LiveCareerForPlan → Type 0
HasRealIds live =
    All (λ (s : CareerSnapshotStep). is_temp_id s.id ≡ false) live.steps
    × All (λ (o : CareerSnapshotOutlook). is_temp_id o.id ≡ false) live.outlook
    × All (λ (r : CareerSnapshotResource). is_temp_id r.id ≡ false) live.resources

beq_refl : {A : Type 0} ⦃e : Eq A⦄ (a : A) → (a == a) ≡ true
beq_refl ⦃e⦄ a = (e.is_same_iff a a).1 refl

concat_map-nil :
    {A : Type 0} {B : Type 0} (f : A → List B) (xs : List A)
    → All (λ x. f x ≡ []) xs
    → concat_map f xs ≡ []
concat_map-nil f [] h = refl
concat_map-nil f (x ∷ xs) (p, h) = rw (p, concat_map-nil f xs h)

-- The loop over a dictionary's own entries pushes nothing where an entry's own value pushes nothing.
same-nil :
    {V : Type 0} {B : Type 0} (f : String → Option V → V → List B) (entries : List (String × V))
    → ((k : String) (v : V) → f k (some v) v ≡ [])
    → concat_map (λ (e : String × V). f e.0 (get (new_dict entries) e.0) e.1) (new_dict entries)
      ≡ []
same-nil f entries h =
    concat_map-nil _ (new_dict entries)
      (All-map _ (new_dict entries) (λ e q. rw q (h e.0 e.1)) (new_dict-All entries))

select-All :
    {A : Type 0} (p : A → Bool) (xs : List A)
    → All (λ x. p x ≡ false) xs
    → select (λ x. not (p x)) xs ≡ xs
select-All p [] h = refl
select-All p (x ∷ xs) (q, h) = rw (q, select-All p xs h)

text_changes-same :
    (id : String) (fields : List (String × Option String)) → text_changes id fields fields ≡ []
unfolding text_changes text_change
text_changes-same id [] = refl
text_changes-same id ((f, v) ∷ fields) = rw (beq_refl v, text_changes-same id fields)

career-same : (live : LiveCareerForPlan) → plan_career_fields live (draft_of live) ≡ []
unfolding plan_career_fields texts_change
career-same live = rw (
  text_changes-same live.id (string_fields live.career),
  beq_refl live.career.target_levels,
  beq_refl live.career.example_activities,
)

pathway-same :
    (p : Option LivePathway) → pathway_change p (Option.map (λ (p : LivePathway). p.content) p) ≡ []
unfolding pathway_change pathway_text
pathway-same none = refl
pathway-same (some p) = rw (beq_refl (some p.content.title), beq_refl p.content.description)

skill-same : (d : List (String × String)) → skill_operations (new_dict d) (new_dict d) ≡ []
unfolding skill_operations skill_operation skill_removal
skill-same d = rw (
  same-nil skill_operation d (λ k v. rw (beq_refl v)),
  same-nil (λ k o v. skill_removal o k v) d (λ k v. refl),
)

resource_changed-same : (r : ResourceFields) → resource_changed r r ≡ false
unfolding resource_changed
resource_changed-same r = rw (
  beq_refl r.title,
  beq_refl r.description,
  beq_refl r.url,
  beq_refl r.type,
  beq_refl r.provider,
  beq_refl r.cost_status,
  beq_refl r.curation_rationale,
  beq_refl r.certification_cost,
)

outlook_changed-same : (o : OutlookFields) → outlook_changed o o ≡ false
unfolding outlook_changed
outlook_changed-same o = rw (
  beq_refl o.type,
  beq_refl o.geography,
  beq_refl o.period,
  beq_refl o.source_id,
  beq_refl o.median,
  beq_refl o.percentile25,
  beq_refl o.percentile75,
  beq_refl o.currency,
  beq_refl o.pay_period,
  beq_refl o.gross_or_net,
  beq_refl o.experience_level,
  beq_refl o.base_year,
  beq_refl o.base_value,
  beq_refl o.projected_year,
  beq_refl o.projected_value,
  beq_refl o.growth_percent,
  beq_refl o.demand_level,
)

links-same :
    (k : OperationKind) (s : PlanSection) (id : String) (ids : List String)
    → links_unless k s id (id_set ids) (id_set ids) ≡ []
unfolding links_unless
links-same k s id ids =
    same-nil (λ e o v. if is_some o then [] else link_operation k s id e ∷ [])
      (map (λ (id : String). (id, id)) ids) (λ e v. refl)

step_operation-same : (id : String) (l : CareerSnapshotStep) → step_operation id (some l) l ≡ []
unfolding step_operation step_texts step_move plan_step_links
step_operation-same id l = rw (
  beq_refl (some l.texts.title),
  beq_refl l.texts.description,
  beq_refl (some l.texts.learning_objective),
  beq_refl l.texts.prerequisites,
  beq_refl (some l.texts.expected_activity),
  beq_refl l.order,
  links-same link step_skills id l.skill_ids,
  links-same unlink step_skills id l.skill_ids,
  links-same link step_resources id l.resource_ids,
  links-same unlink step_resources id l.resource_ids,
)

resources-same :
    (live : LiveCareerForPlan)
    → All (λ (r : CareerSnapshotResource). is_temp_id r.id ≡ false) live.resources
    → plan_resources live (draft_of live) ≡ []
unfolding plan_resources resource_operation resource_removal resource_creation
resources-same live h =
    let entries : List (String × CareerSnapshotResource) =
      map (λ (r : CareerSnapshotResource). (r.id, r)) live.resources in
    rw (
      select-All (λ (r : CareerSnapshotResource). is_temp_id r.id) live.resources h,
      same-nil resource_operation entries (λ k v. rw (resource_changed-same v.fields)),
      same-nil (λ k o v. resource_removal o k v) entries (λ k v. refl),
      concat_map-nil resource_creation live.resources (All-map _ live.resources (λ r q. rw q) h),
    )

outlook-same :
    (live : LiveCareerForPlan)
    → All (λ (o : CareerSnapshotOutlook). is_temp_id o.id ≡ false) live.outlook
    → plan_outlook live (draft_of live) ≡ []
unfolding plan_outlook outlook_operation outlook_removal outlook_creation
outlook-same live h =
    let entries : List (String × CareerSnapshotOutlook) =
      map (λ (o : CareerSnapshotOutlook). (o.id, o)) live.outlook in
    rw (
      select-All (λ (o : CareerSnapshotOutlook). is_temp_id o.id) live.outlook h,
      same-nil outlook_operation entries (λ k v. rw (outlook_changed-same v.fields)),
      same-nil (λ k o v. outlook_removal o k v) entries (λ k v. refl),
      concat_map-nil outlook_creation live.outlook (All-map _ live.outlook (λ r q. rw q) h),
    )

steps-same :
    (live : LiveCareerForPlan) (learners : Dict ℕ)
    → All (λ (s : CareerSnapshotStep). is_temp_id s.id ≡ false) live.steps
    → plan_steps live (draft_of live) learners ≡ []
unfolding plan_steps step_deletion step_creation
steps-same live learners h =
    let entries : List (String × CareerSnapshotStep) =
      map (λ (s : CareerSnapshotStep). (s.id, s)) live.steps in
    rw (
      select-All (λ (s : CareerSnapshotStep). is_temp_id s.id) live.steps h,
      same-nil step_operation entries step_operation-same,
      same-nil (λ k o v. step_deletion learners o k v) entries (λ k v. refl),
      concat_map-nil step_creation live.steps (All-map _ live.steps (λ r q. rw q) h),
    )

-- A draft with the content of the live career, whose rows have no temporary ids, has a plan without
-- operations.
pub build_plan-unchanged :
    (live : LiveCareerForPlan) (base_version : ℕ) (learners : Dict ℕ)
    → HasRealIds live
    → (build_plan live (draft_of live) base_version learners).operations ≡ []
unfolding build_plan plan_operations plan_pathway plan_skills
build_plan-unchanged live base_version learners (s, o, r) = rw (
  career-same live,
  pathway-same live.pathway,
  skill-same (map (λ (s : CareerSnapshotSkill). (s.skill_id, s.importance)) live.skills),
  resources-same live r,
  outlook-same live o,
  steps-same live learners s,
)
