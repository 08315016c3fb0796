-- ===== src/Publishing/Apply.antt =====
-- The application of a plan to a career (`applyPlan`): the order of its parts is the source's.
use pathway_backend.Prelude.{
  String, Bool, Option, none, some, List, [], ◌++◌, any, concat_map, string_Eq, nat_Eq, ◌==◌,
  if◌then◌else◌,
}
use pathway_backend.Exceptions.{Result, ok, err}
use pathway_backend.Database.{PrismaClient}
use pathway_backend.Snapshot.{
  CareerSnapshotCareer, CareerSnapshotOutlook, CareerSnapshotPathway, CareerSnapshotResource,
  CareerSnapshotSkill, CareerSnapshotStep,
}
use pathway_backend.Plan.Types.{
  Payload, PlanOperation, create, update, delete, link, unlink, career, pathway, skills, outlook,
  resources, text, texts,
}
use pathway_backend.Publishing.{
  Applied, operations_by, and_then, each, expect, resource_of, skill_of, outlook_of, fields_of,
  pathway_of, text_of, internal_error, record_not_found, update_row, delete_row, create_row,
}
use pathway_backend.Publishing.Steps.{apply_steps, apply_step_links}
use pathway_backend.Revisions.{Pathway}

abbrev required : Option String → String → String
required none old = old
required (some new) old = new

unfoldable pub set_career_text :
    String → Option String → CareerSnapshotCareer → CareerSnapshotCareer
set_career_text field value c =
    if field == "title"
    then record c { title = required value c.title }
    else (if field == "slug"
        then record c { slug = required value c.slug }
        else (if field == "description"
            then record c { description = required value c.description }
            else (if field == "roleSummary"
                then record c { role_summary = value }
                else (if field == "fieldId"
                    then record c { field_id = value }
                    else (if field == "typicalEducationNote"
                        then record c { typical_education_note = value }
                        else (if field == "certificationsNote"
                            then record c { certifications_note = value }
                            else c))))))

unfoldable pub set_career_texts : String → List String → CareerSnapshotCareer → CareerSnapshotCareer
set_career_texts field value c =
    if field == "targetLevels"
    then record c { target_levels = value }
    else (if field == "exampleActivities" then record c { example_activities = value } else c)

-- `data[op.field!] = op.after` on the career.
unfoldable pub set_career_field : String → Payload → CareerSnapshotCareer → CareerSnapshotCareer
set_career_field field (text value) c = set_career_text field value c
set_career_field field (texts value) c = set_career_texts field value c
set_career_field field _ c = c

unfoldable pub apply_career_update : PlanOperation → Applied → Result Applied
apply_career_update op s =
    expect op.field (λ field. ok (record s { content = set_career_field field op.after s.content }))

module _ (db : PrismaClient) where
  -- Part 1: the database gives a new resource its id.
  unfoldable pub create_resource : (String → String) → PlanOperation → Applied → Result Applied
  create_resource new_id op s = expect (resource_of op.after) (λ snap. ok (record s {
    resources = db.create CareerSnapshotResource (record snap { id = new_id snap.id }) s.resources;
  }))

  -- Part 2.
  unfoldable pub update_resource : PlanOperation → Applied → Result Applied
  update_resource op s = expect op.entity_id (λ id. expect (resource_of op.after) (λ snap.
      and_then
        (update_row db (λ r. r.id == id) (λ (r : CareerSnapshotResource). record snap { id = r.id })
          s.resources)
        (λ rows. ok (record s { resources = rows }))))

  -- Part 4: a career has one pathway.
  unfoldable pub create_pathway : (String → String) → PlanOperation → Applied → Result Applied
  create_pathway new_id op s = expect (pathway_of op.after) (λ content. elim s.pathway [
    | some p ↦ err internal_error
    | none ↦ ok (record s {
      pathway =
          some
            (record { pathway = record { id = new_id "pathway"; content = content }; steps = [] });
    })
  ])

  unfoldable pub set_pathway_text :
      String → Option String → CareerSnapshotPathway → CareerSnapshotPathway
  set_pathway_text field value p =
      if field == "title"
      then record p { title = required value p.title }
      else (if field == "description" then record p { description = value } else p)

  unfoldable pub update_pathway : PlanOperation → Applied → Result Applied
  update_pathway op s = expect op.field (λ field. expect (text_of op.after) (λ value.
      elim s.pathway [
        | none ↦ ok s
        | some p ↦ ok (record s {
          pathway = some (record p {
            pathway = record p.pathway { content = set_pathway_text field value p.pathway.content };
          });
        })
      ]))

  -- Part 7: a resource that no step links any more is deleted.
  abbrev pub linked_resources : Option Pathway → List String
  linked_resources none = []
  linked_resources (some p) = concat_map (λ (s : CareerSnapshotStep). s.resource_ids) p.steps

  unfoldable pub delete_resource : PlanOperation → Applied → Result Applied
  delete_resource op s = expect op.entity_id (λ id.
      let deleted =
        and_then (delete_row db (λ (r : CareerSnapshotResource). r.id == id) s.resources)
          (λ rows. ok (record s { resources = rows })) in
      if any (λ x. x == id) (linked_resources s.pathway ++ s.foreign_links) then ok s else deleted)

  -- Part 8: with the pathway go its steps.
  unfoldable pub delete_pathway : PlanOperation → Applied → Result Applied
  delete_pathway op s = expect op.entity_id (λ id. elim s.pathway [
    | none ↦ err record_not_found
    | some p ↦ if p.pathway.id == id then ok (record s { pathway = none }) else err record_not_found
  ])

  -- Part 9: the key of a skill is the career and the skill.
  abbrev pub is_skill : String → CareerSnapshotSkill → Bool
  is_skill id s = s.skill_id == id

  unfoldable pub link_career_skill :
      PlanOperation → List CareerSnapshotSkill → Result (List CareerSnapshotSkill)
  link_career_skill op rows =
      expect (skill_of op.after) (λ skill. create_row db (is_skill skill.skill_id) skill rows)

  unfoldable pub update_career_skill :
      PlanOperation → List CareerSnapshotSkill → Result (List CareerSnapshotSkill)
  update_career_skill op rows = expect op.entity_id (λ id. expect (text_of op.after) (λ value.
      expect value (λ importance.
        update_row db (is_skill id)
          (λ (s : CareerSnapshotSkill). record s { importance = importance }) rows)))

  unfoldable pub unlink_career_skill :
      PlanOperation → List CareerSnapshotSkill → Result (List CareerSnapshotSkill)
  unlink_career_skill op rows = expect op.entity_id (λ id. delete_row db (is_skill id) rows)

  unfoldable pub apply_skills :
      List PlanOperation → List CareerSnapshotSkill → Result (List CareerSnapshotSkill)
  apply_skills operations rows =
      and_then (each link_career_skill (operations_by skills link operations) rows) (λ rows.
        and_then (each update_career_skill (operations_by skills update operations) rows)
          (λ rows. each unlink_career_skill (operations_by skills unlink operations) rows))

  -- Part 10: the row of a new outlook keeps the id of the draft, since it is part of the data.
  unfoldable pub create_outlook :
      (taken : List String)
      → PlanOperation
      → List CareerSnapshotOutlook
      → Result (List CareerSnapshotOutlook)
  create_outlook taken op rows = expect (outlook_of op.after) (λ row.
      let created = create_row db (λ (o : CareerSnapshotOutlook). o.id == row.id) row rows in
      if any (λ id. id == row.id) taken then err internal_error else created)

  unfoldable pub update_outlook :
      PlanOperation → List CareerSnapshotOutlook → Result (List CareerSnapshotOutlook)
  update_outlook op rows = expect op.entity_id (λ id. expect (fields_of op.after) (λ fields.
      update_row db (λ o. o.id == id) (λ (o : CareerSnapshotOutlook). record o { fields = fields })
        rows))

  unfoldable pub delete_outlook :
      PlanOperation → List CareerSnapshotOutlook → Result (List CareerSnapshotOutlook)
  delete_outlook op rows =
      expect op.entity_id (λ id. delete_row db (λ (o : CareerSnapshotOutlook). o.id == id) rows)

  unfoldable pub apply_outlook :
      (taken : List String)
      → List PlanOperation
      → List CareerSnapshotOutlook
      → Result (List CareerSnapshotOutlook)
  apply_outlook taken operations rows =
      and_then (each (create_outlook taken) (operations_by outlook create operations) rows) (λ rows.
        and_then (each update_outlook (operations_by outlook update operations) rows)
          (λ rows. each delete_outlook (operations_by outlook delete operations) rows))

  unfoldable pub apply_plan : (String → String) → List PlanOperation → Applied → Result Applied
  apply_plan new_id operations s =
      and_then (each (create_resource new_id) (operations_by resources create operations) s) (λ s.
        and_then (each update_resource (operations_by resources update operations) s) (λ s.
          and_then (each apply_career_update (operations_by career update operations) s) (λ s.
            and_then (each (create_pathway new_id) (operations_by pathway create operations) s)
              (λ s. and_then (each update_pathway (operations_by pathway update operations) s) (λ s.
                and_then (apply_steps db new_id operations s) (λ s.
                  and_then (apply_step_links db new_id operations s) (λ s.
                    and_then (each delete_resource (operations_by resources unlink operations) s)
                      (λ s.
                        and_then (each delete_pathway (operations_by pathway delete operations) s)
                          (λ s. and_then (apply_skills operations s.skills) (λ skill_rows.
                            and_then (apply_outlook s.foreign_outlook operations s.outlook)
                              (λ outlook_rows. ok (record s {
                                skills = skill_rows;
                                outlook = outlook_rows;
                              }))))))))))))
