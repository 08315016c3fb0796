-- ===== src/Plan/Resources.antt =====
-- The resources and the outlook of a plan (src/catalog/content-revisions/career-snapshot.plan.ts). The
-- loop over a `Map` goes through its entries.
use pathway_backend.Prelude.{
  String, Bool, not, ◌||◌, Option, none, some, List, [], ◌∷◌, ◌++◌, map, select, ◌==◌, string_Eq,
  nat_Eq, if◌then◌else◌, concat_map,
}
use pathway_backend.Prelude.Dict.{Dict, get, new_dict}
use pathway_backend.Prelude.Equality.{option_Eq}
use pathway_backend.Snapshot.{
  CareerSnapshot, CareerSnapshotOutlook, CareerSnapshotResource, OutlookFields, ResourceFields,
  LiveCareerForPlan,
}
use pathway_backend.Snapshot.TempId.{is_temp_id}
use pathway_backend.Plan.Types.{
  OperationKind, PlanSection, Payload, PlanOperation, create, update, delete, link, unlink, outlook,
  resources, absent, a_resource, an_outlook, outlook_fields,
}

-- An operation on a whole entity of a section.
abbrev pub entity_operation :
    OperationKind → PlanSection → String → Payload → Payload → PlanOperation
entity_operation kind section entity_id before after = record {
  kind = kind;
  section = section;
  entity_id = some entity_id;
  parent_id = none;
  field = none;
  before = before;
  after = after;
}

unfoldable pub resource_changed : ResourceFields → ResourceFields → Bool
resource_changed l snap =
    not (l.title == snap.title)
    || not (l.description == snap.description)
    || not (l.url == snap.url)
    || not (l.type == snap.type)
    || not (l.provider == snap.provider)
    || not (l.cost_status == snap.cost_status)
    || not (l.curation_rationale == snap.curation_rationale)
    || not (l.certification_cost == snap.certification_cost)

-- `new Map(resources.map((r) => [r.id, r]))`
abbrev pub resource_dict : List CareerSnapshotResource → Dict CareerSnapshotResource
resource_dict list = new_dict (map (λ (r : CareerSnapshotResource). (r.id, r)) list)

abbrev pub kept_resources : List CareerSnapshotResource → List CareerSnapshotResource
kept_resources = select (λ (r : CareerSnapshotResource). not (is_temp_id r.id))

unfoldable pub resource_operation :
    String → Option CareerSnapshotResource → CareerSnapshotResource → List PlanOperation
resource_operation id none snap = entity_operation link resources id absent (a_resource snap) ∷ []
resource_operation id (some l) snap =
    if resource_changed l.fields snap.fields
    then entity_operation update resources id (a_resource l) (a_resource snap) ∷ []
    else []

unfoldable pub resource_removal :
    Option CareerSnapshotResource → String → CareerSnapshotResource → List PlanOperation
resource_removal (some _) id l = []
resource_removal none id l = entity_operation unlink resources id (a_resource l) absent ∷ []

unfoldable pub resource_creation : CareerSnapshotResource → List PlanOperation
resource_creation snap =
    if is_temp_id snap.id
    then entity_operation create resources snap.id absent (a_resource snap) ∷ []
    else []

unfoldable pub plan_resources : LiveCareerForPlan → CareerSnapshot → List PlanOperation
plan_resources live snapshot =
    let live_resources = resource_dict live.resources in
    let snap_resources = resource_dict (kept_resources snapshot.resources) in
    concat_map
      (λ (e : String × CareerSnapshotResource). resource_operation e.0 (get live_resources e.0) e.1)
      snap_resources
    ++ concat_map
        (λ (e : String × CareerSnapshotResource). resource_removal (get snap_resources e.0) e.0 e.1)
        live_resources
    ++ concat_map resource_creation snapshot.resources

-- Whether one of `OUTLOOK_COMPARED_FIELDS` differs.
unfoldable pub outlook_changed : OutlookFields → OutlookFields → Bool
outlook_changed l snap =
    not (l.type == snap.type)
    || not (l.geography == snap.geography)
    || not (l.period == snap.period)
    || not (l.source_id == snap.source_id)
    || not (l.median == snap.median)
    || not (l.percentile25 == snap.percentile25)
    || not (l.percentile75 == snap.percentile75)
    || not (l.currency == snap.currency)
    || not (l.pay_period == snap.pay_period)
    || not (l.gross_or_net == snap.gross_or_net)
    || not (l.experience_level == snap.experience_level)
    || not (l.base_year == snap.base_year)
    || not (l.base_value == snap.base_value)
    || not (l.projected_year == snap.projected_year)
    || not (l.projected_value == snap.projected_value)
    || not (l.growth_percent == snap.growth_percent)
    || not (l.demand_level == snap.demand_level)

abbrev pub outlook_dict : List CareerSnapshotOutlook → Dict CareerSnapshotOutlook
outlook_dict list = new_dict (map (λ (o : CareerSnapshotOutlook). (o.id, o)) list)

abbrev pub kept_outlook : List CareerSnapshotOutlook → List CareerSnapshotOutlook
kept_outlook = select (λ (o : CareerSnapshotOutlook). not (is_temp_id o.id))

unfoldable pub outlook_operation :
    String → Option CareerSnapshotOutlook → CareerSnapshotOutlook → List PlanOperation
outlook_operation id none snap = entity_operation create outlook id absent (an_outlook snap) ∷ []
outlook_operation id (some l) snap =
    if outlook_changed l.fields snap.fields
    then entity_operation update outlook id (outlook_fields l.fields) (outlook_fields snap.fields)
      ∷ []
    else []

unfoldable pub outlook_removal :
    Option CareerSnapshotOutlook → String → CareerSnapshotOutlook → List PlanOperation
outlook_removal (some _) id l = []
outlook_removal none id l = entity_operation delete outlook id (an_outlook l) absent ∷ []

unfoldable pub outlook_creation : CareerSnapshotOutlook → List PlanOperation
outlook_creation snap =
    if is_temp_id snap.id
    then entity_operation create outlook snap.id absent (an_outlook snap) ∷ []
    else []

unfoldable pub plan_outlook : LiveCareerForPlan → CareerSnapshot → List PlanOperation
plan_outlook live snapshot =
    let live_by_id = outlook_dict live.outlook in
    let snap_by_id = outlook_dict (kept_outlook snapshot.outlook) in
    concat_map
      (λ (e : String × CareerSnapshotOutlook). outlook_operation e.0 (get live_by_id e.0) e.1)
      snap_by_id
    ++ concat_map
        (λ (e : String × CareerSnapshotOutlook). outlook_removal (get snap_by_id e.0) e.0 e.1)
        live_by_id
    ++ concat_map outlook_creation snapshot.outlook
