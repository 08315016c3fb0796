-- ===== src/Diff/Service.antt =====
-- The diff of a revision (src/catalog/content-revisions/content-revisions.service.ts: buildDiff) and its
-- display (reviewer-diff.formatter.ts: format, resolveSourceLabels, relativeTime). The columns of a
-- revision that the editing of drafts does not read, its author's profile and its time of creation, are
-- arguments, and so are a number in decimal and the time. There are no rules for advisories yet.
use Prim.Native.String.{◌++◌ as ◌^◌}
use pathway_backend.Prelude.{
  ℕ, ◌-◌, ◌/◌, String, Bool, not, ◌&&◌, Option, none, some, List, [], ◌∷◌, ◌++◌, map, select, any,
  concat_map, ltb, leb, string_Eq, nat_Eq, ◌==◌, if◌then◌else◌,
}
use pathway_backend.Prelude.Dict.{get, new_dict}
use pathway_backend.Prelude.Equality.{option_Eq}
use pathway_backend.Exceptions.{not_found, domain}
use pathway_backend.Handlers.{Reply, returns, or_throw, throw_if}
use pathway_backend.Database.{PrismaClient}
use pathway_backend.Roles.{rank, reviewer}
use pathway_backend.Plan.Types.{Payload, PlanBlocker, CareerPlan, text, outlook}
use pathway_backend.Plan.Build.{build_plan}
use pathway_backend.Revisions.{
  Tables, ContentRevision, Actor, find_revision, find_career, live_career, step_learner_counts,
}
use pathway_backend.Diff.{SectionChanges, FieldChange, is_of, group_operations, or_else}

pub record Source : Type 0 where
  pub id : String
  pub name : String

pub record RevisionMeta : Type 0 where
  pub title : String
  pub author_name : String
  pub created_at : ℕ

pub record ReviewerDiff : Type 0 where
  pub revision_id : String
  pub title : String
  pub submitted_by : String
  pub submitted_at : String
  pub base_version : ℕ
  pub live_version : ℕ
  pub stale : Bool
  pub blockers : List PlanBlocker
  pub sections : List SectionChanges

abbrev pub is_source_change : FieldChange → Bool
is_source_change change = change.field == some "sourceId"

-- `typeof value === 'string'`
abbrev pub text_ids : Payload → List String
text_ids (text (some id)) = id ∷ []
text_ids _ = []

abbrev pub source_ids : SectionChanges → List String
source_ids b =
    concat_map (λ (c : FieldChange). text_ids c.before ++ text_ids c.after)
      (select is_source_change b.changed)

abbrev pub source_label : (String → Option String) → Payload → Option String → Option String
source_label names (text (some id)) old = some (or_else (names id) "Unknown source")
source_label names _ old = old

abbrev pub labelled_change : (String → Option String) → FieldChange → FieldChange
labelled_change names c =
    if is_source_change c
    then record c {
      before_label = source_label names c.before c.before_label;
      after_label = source_label names c.after c.after_label;
    }
    else c

-- `${n} hour${n === 1 ? '' : 's'} ago`
abbrev pub plural : (show : ℕ → String) → ℕ → String → String
plural show n unit = show n ^ (" " ^ (unit ^ (if n == 1 then " ago" else "s ago")))

-- The time since then; a date in the future is now.
unfoldable pub relative_time : (show : ℕ → String) → (now date : ℕ) → String
relative_time show now date =
    let minutes = (now - date) / 60_000 in
    let hours = minutes / 60 in
    let days = hours / 24 in
    if ltb minutes 1
    then "Just now"
    else (if ltb minutes 60
        then show minutes ^ " min ago"
        else (if ltb hours 24 then plural show hours "hour" else plural show days "day"))

-- `[first, last].filter(Boolean).join(' ') || 'Unknown'`
abbrev pub name_parts : Option String → List String
name_parts none = []
name_parts (some part) = if part == "" then [] else part ∷ []

abbrev pub joined_names : List String → String
joined_names [] = "Unknown"
joined_names (part ∷ []) = part
joined_names (part ∷ last ∷ parts) = part ^ (" " ^ last)

module _ (db : PrismaClient) where
  -- Grouping gives one section of outlook at most.
  unfoldable pub resolve_source_labels : List Source → List SectionChanges → List SectionChanges
  resolve_source_labels sources sections =
      map
        (λ (b : SectionChanges).
          let ids = source_ids b in
          let rows = db.find_many Source (λ s. any (λ id. id == s.id) ids) sources in
          let names = new_dict (map (λ (s : Source). (s.id, s.name)) rows) in
          if is_of outlook b
          then record b { changed = map (labelled_change (get names)) b.changed }
          else b)
        sections

  unfoldable pub format :
      (show : ℕ → String)
      → (now : ℕ) → List Source
      → String
      → CareerPlan
      → RevisionMeta
      → ReviewerDiff
  format show now sources revision_id plan meta = record {
    revision_id = revision_id;
    title = meta.title;
    submitted_by = meta.author_name;
    submitted_at = relative_time show now meta.created_at;
    base_version = plan.base_version;
    live_version = plan.live_version;
    stale = plan.stale;
    blockers = plan.blockers;
    sections = resolve_source_labels sources (group_operations plan.operations);
  }

  unfoldable pub build_diff :
      (show : ℕ → String) (now : ℕ) (created_at : ContentRevision → ℕ)
      (first_name last_name : ContentRevision → Option String) (sources : List Source)
      (revision_id : String)
      → Actor
      → Tables
      → Reply Tables ReviewerDiff
  build_diff show now created_at first_name last_name sources revision_id actor t =
      or_throw (find_revision db t revision_id) (not_found "Record not found") t (λ revision.
        throw_if
          (not (revision.created_by_id == actor.id) && not (leb (rank reviewer) (rank actor.role)))
          (domain 403 "DIFF_FORBIDDEN" "Only the creator or a reviewer can view this diff") t
          (or_throw (find_career db t revision.career_id) (not_found "Record not found") t
            (λ career.
              let live = live_career db t career in
              let plan =
                build_plan live revision.snapshot revision.base_version
                  (step_learner_counts db t live.steps) in
              returns
                (format show now sources revision_id plan (record {
                  title = career.content.title ^ " (Revision)";
                  author_name =
                      joined_names
                        (name_parts (first_name revision) ++ name_parts (last_name revision));
                  created_at = created_at revision;
                }))
                [] t)))
