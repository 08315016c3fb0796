-- ===== src/Publishing/Steps.antt =====
-- The application of a plan's steps and their links (`applyPlan`, parts 5 and 6).
use pathway_backend.Prelude.{
  ℕ, ◌+◌, String, Bool, true, not, ◌&&◌, Option, none, some, List, [], ◌∷◌, ◌++◌, any, find,
  removed, string_Eq, nat_Eq, ◌==◌, if◌then◌else◌,
}
use pathway_backend.Prelude.Dict.{Dict}
use pathway_backend.Prelude.Equality.{option_Eq}
use pathway_backend.Exceptions.{Exception, Result, ok, err, domain}
use pathway_backend.Database.{PrismaClient}
use pathway_backend.Snapshot.{CareerSnapshotStep, StepTexts}
use pathway_backend.Plan.Types.{
  PlanOperation, create, update, move, delete, link, unlink, steps, step_skills, step_resources,
  resources,
}
use pathway_backend.Publishing.{
  Applied, operations_by, and_then, each, expect, step_of, text_of, number_of, created_ids,
  resolved, internal_error, record_not_found, update_row, delete_row, with_row,
}
use pathway_backend.Revisions.{Pathway}

abbrev pub reorder_offset : ℕ
reorder_offset = 10_000

-- The unique key of a step within its pathway is its order.
unfoldable pub orders_unique : List CareerSnapshotStep → Bool
orders_unique [] = true
orders_unique (s ∷ rows) =
    not (any (λ (x : CareerSnapshotStep). x.order == s.order) rows) && orders_unique rows

unfoldable pub checked : List CareerSnapshotStep → Result (List CareerSnapshotStep)
checked rows = if orders_unique rows then ok rows else err internal_error

-- `data[op.field!] = op.after` on a step; a required text is never null.
abbrev required : Option String → String → String
required none old = old
required (some new) old = new

unfoldable pub set_step_text : String → Option String → StepTexts → StepTexts
set_step_text field value t =
    if field == "title"
    then record t { title = required value t.title }
    else (if field == "description"
        then record t { description = value }
        else (if field == "learningObjective"
            then record t { learning_objective = required value t.learning_objective }
            else (if field == "prerequisites"
                then record t { prerequisites = value }
                else (if field == "expectedActivity"
                    then record t { expected_activity = required value t.expected_activity }
                    else t))))

-- The steps of the pathway; without a pathway there are none.
unfoldable pub on_steps :
    (List CareerSnapshotStep → Result (List CareerSnapshotStep))
    → Applied
    → Option Pathway
    → Result Applied
unfolding and_then
on_steps f s none = and_then (f []) (λ rows. ok s)
on_steps f s (some p) =
    and_then (f p.steps) (λ rows. ok (record s { pathway = some (record p { steps = rows }) }))

abbrev is_moved : List PlanOperation → CareerSnapshotStep → Bool
is_moved moves s = any (λ (op : PlanOperation). op.entity_id == some s.id) moves

module _ (db : PrismaClient) where
  abbrev has_id : String → CareerSnapshotStep → Bool
  has_id id s = s.id == id

  unfoldable pub move_step :
      PlanOperation → List CareerSnapshotStep → Result (List CareerSnapshotStep)
  move_step op rows = expect op.entity_id (λ id. expect (number_of op.after) (λ order.
      and_then
        (update_row db (has_id id) (λ (s : CareerSnapshotStep). record s { order = order }) rows)
        checked))

  -- The two passes: every moved step goes out of the way, and then to its place.
  unfoldable pub move_steps :
      List PlanOperation → List CareerSnapshotStep → Result (List CareerSnapshotStep)
  move_steps [] rows = ok rows
  move_steps (m ∷ moves) rows =
      let (away, _) =
        db.update_many CareerSnapshotStep (is_moved (m ∷ moves))
          (λ s. record s { order = s.order + reorder_offset }) rows in
      and_then (checked away) (λ rows. each move_step (m ∷ moves) rows)

  unfoldable pub update_step_text :
      PlanOperation → List CareerSnapshotStep → Result (List CareerSnapshotStep)
  update_step_text op rows = expect op.entity_id (λ id. expect op.field (λ field.
      expect (text_of op.after) (λ value.
        update_row db (has_id id)
          (λ (s : CareerSnapshotStep). record s { texts = set_step_text field value s.texts })
          rows)))

  -- A new step has the id that the database gives it and no links yet.
  unfoldable pub create_step :
      (String → String) → PlanOperation → List CareerSnapshotStep → Result (List CareerSnapshotStep)
  create_step new_id op rows = expect (step_of op.after) (λ snap. checked (
      db.create CareerSnapshotStep
        (record {
          id = new_id snap.id;
          order = snap.order;
          texts = snap.texts;
          skill_ids = [];
          resource_ids = [];
        })
        rows))

  unfoldable pub delete_step :
      PlanOperation → List CareerSnapshotStep → Result (List CareerSnapshotStep)
  delete_step op rows = expect op.entity_id (λ id. delete_row db (has_id id) rows)

  unfoldable pub create_steps :
      (String → String) → List PlanOperation → Applied → Option Pathway → Result Applied
  create_steps new_id [] s p = ok s
  create_steps new_id (op ∷ creates) s none =
      err (domain 500 "PATHWAY_MISSING" "Pathway is required to create steps")
  create_steps new_id (op ∷ creates) s (some p) =
      on_steps (each (create_step new_id) (op ∷ creates)) s (some p)

  -- Part 5: moves, updates, creates, deletes.
  unfoldable pub apply_steps : (String → String) → List PlanOperation → Applied → Result Applied
  apply_steps new_id operations s =
      and_then (on_steps (move_steps (operations_by steps move operations)) s s.pathway) (λ s.
        and_then
          (on_steps (each update_step_text (operations_by steps update operations)) s s.pathway)
          (λ s.
            and_then (create_steps new_id (operations_by steps create operations) s s.pathway) (λ s.
              on_steps (each delete_step (operations_by steps delete operations)) s s.pathway)))

  -- A link is a row with a unique key, and its step must be there.
  unfoldable pub linked_id : String → List String → Result (List String)
  linked_id id ids = if any (λ x. x == id) ids then err internal_error else ok (ids ++ id ∷ [])

  unfoldable pub unlinked_id : String → List String → Result (List String)
  unlinked_id id ids =
      if any (λ x. x == id) ids then ok (removed (λ x. x == id) ids) else err record_not_found

  unfoldable pub link_skill :
      Exception
      → (String → List String → Result (List String))
      → Dict String
      → PlanOperation
      → List CareerSnapshotStep
      → Result (List CareerSnapshotStep)
  link_skill missing change step_ids op rows = elim op.parent_id [
    | none ↦ ok rows
    | some parent ↦ expect op.entity_id (λ id.
        with_row missing (find (has_id (resolved step_ids parent)) rows)
          (λ (step : CareerSnapshotStep). and_then (change id step.skill_ids) (λ ids.
            update_row db (has_id step.id)
              (λ (s : CareerSnapshotStep). record s { skill_ids = ids }) rows)))
  ]

  unfoldable pub link_resource :
      Exception
      → (String → List String → Result (List String))
      → Dict String
      → Dict String
      → PlanOperation
      → List CareerSnapshotStep
      → Result (List CareerSnapshotStep)
  link_resource missing change step_ids resource_ids op rows = elim op.parent_id [
    | none ↦ ok rows
    | some parent ↦ elim op.entity_id [
      | none ↦ ok rows
      | some id ↦
          with_row missing (find (has_id (resolved step_ids parent)) rows)
            (λ (step : CareerSnapshotStep).
              and_then (change (resolved resource_ids id) step.resource_ids) (λ ids.
                update_row db (has_id step.id)
                  (λ (s : CareerSnapshotStep). record s { resource_ids = ids }) rows))
    ]
  ]

  -- Part 6: the links of steps.
  unfoldable pub apply_step_links :
      (String → String) → List PlanOperation → Applied → Result Applied
  apply_step_links new_id operations s =
      let step_ids = created_ids new_id (operations_by steps create operations) in
      let resource_ids = created_ids new_id (operations_by resources create operations) in
      and_then
        (on_steps
          (each (link_skill internal_error linked_id step_ids)
            (operations_by step_skills link operations))
          s s.pathway)
        (λ s.
          and_then
            (on_steps
              (each (link_skill record_not_found unlinked_id step_ids)
                (operations_by step_skills unlink operations))
              s s.pathway)
            (λ s.
              and_then
                (on_steps
                  (each (link_resource internal_error linked_id step_ids resource_ids)
                    (operations_by step_resources link operations))
                  s s.pathway)
                (λ s.
                  on_steps
                    (each (link_resource record_not_found unlinked_id step_ids resource_ids)
                      (operations_by step_resources unlink operations))
                    s s.pathway)))
