-- ===== src/Plan/Skills.antt =====
-- The skills of a plan (src/catalog/content-revisions/career-snapshot.plan.ts). The loop over a `Map`
-- goes through its entries.
use pathway_backend.Prelude.{
  String, Option, none, some, List, [], ◌∷◌, ◌++◌, map, string_Eq, nat_Eq, ◌==◌, if◌then◌else◌,
  concat_map,
}
use pathway_backend.Prelude.Dict.{Dict, get, new_dict}
use pathway_backend.Prelude.Equality.{option_Eq, list_Eq}
use pathway_backend.Snapshot.{CareerSnapshot, CareerSnapshotSkill, LiveCareerForPlan}
use pathway_backend.Plan.Types.{
  PlanOperation, PlanBlocker, update, link, unlink, skills, absent, text, a_skill, no_skills,
}

-- `new Map(skills.map((s) => [s.skillId, s.importance]))`
abbrev pub skill_dict : List CareerSnapshotSkill → Dict String
skill_dict list = new_dict (map (λ (s : CareerSnapshotSkill). (s.skill_id, s.importance)) list)

unfoldable pub skill_operation : String → Option String → String → List PlanOperation
skill_operation skill_id none importance =
    record {
      kind = link;
      section = skills;
      entity_id = some skill_id;
      parent_id = none;
      field = none;
      before = absent;
      after = a_skill (record { skill_id = skill_id; importance = importance });
    }
    ∷ []
skill_operation skill_id (some live_importance) importance =
    if live_importance == importance
    then []
    else record {
      kind = update;
      section = skills;
      entity_id = some skill_id;
      parent_id = none;
      field = some "importance";
      before = text (some live_importance);
      after = text (some importance);
    }
      ∷ []

unfoldable pub skill_removal : Option String → String → String → List PlanOperation
skill_removal (some _) skill_id live_importance = []
skill_removal none skill_id live_importance =
    record {
      kind = unlink;
      section = skills;
      entity_id = some skill_id;
      parent_id = none;
      field = none;
      before = a_skill (record { skill_id = skill_id; importance = live_importance });
      after = absent;
    }
    ∷ []

unfoldable pub skill_operations : Dict String → Dict String → List PlanOperation
unfolding skill_operation skill_removal
skill_operations live snap =
    concat_map (λ (e : String × String). skill_operation e.0 (get live e.0) e.1) snap
    ++ concat_map (λ (e : String × String). skill_removal (get snap e.0) e.0 e.1) live

unfoldable pub plan_skills : LiveCareerForPlan → CareerSnapshot → List PlanOperation
plan_skills live snapshot = skill_operations (skill_dict live.skills) (skill_dict snapshot.skills)

abbrev pub no_skills_blocker : PlanBlocker
no_skills_blocker = record {
  code = no_skills;
  field = none;
  section = skills;
  entity_id = none;
  entity_title = none;
  learners_affected = none;
}

unfoldable pub no_skills_blockers : List CareerSnapshotSkill → List PlanBlocker
no_skills_blockers [] = no_skills_blocker ∷ []
no_skills_blockers (s ∷ list) = []

unfoldable pub skill_blockers : CareerSnapshot → List PlanBlocker
skill_blockers snapshot = no_skills_blockers snapshot.skills
