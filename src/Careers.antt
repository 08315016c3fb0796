-- ===== src/Careers.antt =====
-- Careers (src/catalog/careers/careers.service.ts: getPublicCareers, createCareer, deleteCareer,
-- retireCareer). Comparison of texts without regard to case is an argument, and so are the ids of new
-- rows. The constraint errors that `createCareer` catches come from concurrent calls; a call that runs
-- as one step does not meet them. The order of a list by title is not modelled.
pub mod Created
pub mod Removed
pub mod Sound
pub mod Steps
mod Tests
use pathway_backend.Prelude.{
  ℕ, String, Bool, true, false, not, ◌&&◌, ◌||◌, Option, none, some, List, [], ◌∷◌, map, any,
  is_none, is_some, string_Eq, nat_Eq, ◌==◌, if◌then◌else◌,
}
use pathway_backend.Prelude.Equality.{option_Eq}
use pathway_backend.Exceptions.{Exception, not_found, conflict, domain}
use pathway_backend.Effects.{Effect, capture}
use pathway_backend.Handlers.{Reply, throws, returns, or_throw, throw_if}
use pathway_backend.Database.{PrismaClient}
use pathway_backend.Snapshot.{CareerSnapshot, CareerSnapshotCareer, CareerSnapshotStep}
use pathway_backend.Revisions.{
  Career, ContentRevision, Review, UserPathwayStep, Pathway, Tables, CareerStatus, unpublished,
  live, retired, draft, can_retire,
}
use pathway_backend.Learning.{UserPathway}
use pathway_backend.Publishing.Publish.{pathway_steps}

pub record Field : Type 0 where
  pub id : String
  pub slug : String

pub record CareerTables : Type 0 where
  pub tables : Tables
  pub fields : List Field
  pub user_pathways : List UserPathway

pub record CreateCareerDto : Type 0 where
  pub title : String
  pub slug : String
  pub description : String
  pub role_summary : Option String
  pub field_id : String
  pub target_levels : Option (List String)

pub record CareerListItem : Type 0 where
  pub id : String
  pub slug : String
  pub title : String
  pub short_description : String

pub record CreatedCareer : Type 0 where
  pub career : Career
  pub revision : ContentRevision

abbrev pub is_draft_career : CareerStatus → Bool
is_draft_career unpublished = true
is_draft_career _ = false

abbrev pub is_live : CareerStatus → Bool
is_live live = true
is_live _ = false

abbrev pub initial_snapshot : CareerSnapshotCareer → CareerSnapshot
initial_snapshot career = record {
  career = career;
  pathway = none;
  steps = [];
  skills = [];
  outlook = [];
  resources = [];
}

-- `dto.targetLevels ?? []`
abbrev pub or_empty : Option (List String) → List String
or_empty none = []
or_empty (some xs) = xs

abbrev pub draft_content : CreateCareerDto → CareerSnapshotCareer
draft_content dto = record {
  title = dto.title;
  slug = dto.slug;
  description = dto.description;
  role_summary = dto.role_summary;
  field_id = some dto.field_id;
  target_levels = or_empty dto.target_levels;
  example_activities = [];
  typical_education_note = none;
  certifications_note = none;
}

abbrev pub new_career : CreateCareerDto → (id : String) → Career
new_career dto id = record {
  id = id;
  version = 1;
  status = unpublished;
  content = draft_content dto;
  skills = [];
  outlook = [];
  pathway = none;
  published_at = none;
  published_by_id = none;
  reviewed_at = none;
  reviewed_by_id = none;
}

abbrev pub first_revision :
    CreateCareerDto → (career_id revision_id actor_user_id : String) → ContentRevision
first_revision dto career_id revision_id actor_user_id = record {
  id = revision_id;
  career_id = career_id;
  base_version = 1;
  snapshot = initial_snapshot (draft_content dto);
  status = draft;
  created_by_id = actor_user_id;
}

abbrev pub title_taken : Exception
title_taken = domain 409 "CAREER_TITLE_TAKEN" "A career with this title already exists"

abbrev pub slug_taken : Exception
slug_taken = domain 409 "CAREER_SLUG_TAKEN" "A career with this slug already exists"

-- `level && { targetLevels: { has: level } }`; an empty text is no level.
abbrev pub has_level : Option String → Career → Bool
has_level none c = true
has_level (some level) c = level == "" || any (λ l. l == level) c.content.target_levels

-- `interest && { field: { slug: interest } }`
abbrev pub has_interest : List Field → Option String → Career → Bool
has_interest fields none c = true
has_interest fields (some slug) c =
    slug == "" || any (λ (f : Field). c.content.field_id == some f.id && f.slug == slug) fields

abbrev pub list_item : Career → CareerListItem
list_item c = record {
  id = c.id;
  slug = c.content.slug;
  title = c.content.title;
  short_description = c.content.description;
}

-- A draft that was never published and that nobody has saved.
abbrev pub is_deletable : CareerTables → String → Career → Bool
is_deletable t id c =
    c.id == id
    && is_draft_career c.status
    && is_none c.published_at
    && not (any (λ (u : UserPathway). u.career_id == c.id) t.user_pathways)

abbrev pub is_review_of : List ContentRevision → (career_id : String) → Review → Bool
is_review_of revisions career_id v =
    any (λ (r : ContentRevision). r.career_id == career_id && r.id == v.revision_id) revisions

abbrev pub is_progress_of : List Career → (career_id : String) → UserPathwayStep → Bool
is_progress_of careers career_id u =
    any
      (λ (c : Career).
        c.id == career_id
        && any (λ (s : CareerSnapshotStep). s.id == u.pathway_step_id) (pathway_steps c.pathway))
      careers

abbrev pub delete_refused : Exception
delete_refused = conflict "Only a draft career that was never published or saved can be deleted"

module _ (db : PrismaClient) where
  unfoldable pub get_public_careers :
      (level interest : Option String) → CareerTables → List CareerListItem
  get_public_careers level interest t = map list_item (
      db.find_many Career
        (λ c. is_live c.status && has_level level c && has_interest t.fields interest c)
        t.tables.careers)

  unfoldable pub create_career :
      (same_text : String → String → Bool)
      → CreateCareerDto
      → (actor_user_id career_id revision_id : String) → CareerTables
      → Reply CareerTables CreatedCareer
  create_career same_text dto actor_user_id career_id revision_id t =
      or_throw (db.find_unique Field (λ f. f.id == dto.field_id) t.fields)
        (domain 400 "FIELD_NOT_FOUND" "Field not found") t
        (λ field.
          throw_if
            (is_some (
              db.find_first Career (λ c. same_text c.content.title dto.title) (λ _. 0)
                t.tables.careers))
            title_taken t
            (throw_if
              (is_some (
                db.find_first Career (λ c. same_text c.content.slug dto.slug) (λ _. 0)
                  t.tables.careers))
              slug_taken t
              (let career = new_career dto career_id in
                let revision = first_revision dto career_id revision_id actor_user_id in
                returns (record { career = career; revision = revision }) []
                  (record t {
                    tables = record t.tables {
                      careers = db.create Career career t.tables.careers;
                      revisions = db.create ContentRevision revision t.tables.revisions;
                    };
                  }))))

  unfoldable pub reject_delete : String → CareerTables → Reply CareerTables String
  reject_delete id t =
      or_throw (db.find_unique Career (λ c. c.id == id) t.tables.careers)
        (not_found "Career not found") t (λ career. throws delete_refused t)

  -- With the career go its revisions, their reviews, and the progress on its steps.
  unfoldable pub delete_career :
      (id actor_user_id : String) → CareerTables → Reply CareerTables String
  delete_career id actor_user_id t =
      let (careers, count) = db.delete_many Career (is_deletable t id) t.tables.careers in
      let (revisions, _) =
        db.delete_many ContentRevision (λ r. r.career_id == id) t.tables.revisions in
      let (reviews, _) =
        db.delete_many Review (is_review_of t.tables.revisions id) t.tables.reviews in
      let (user_steps, _) =
        db.delete_many UserPathwayStep (is_progress_of t.tables.careers id) t.tables.user_steps in
      let rejected = reject_delete id t in
      if count == 0
      then rejected
      else returns "Career deleted" (capture "career_deleted" actor_user_id ∷ []) (record t {
        tables = record t.tables {
          careers = careers;
          revisions = revisions;
          reviews = reviews;
          user_steps = user_steps;
        };
      })

  unfoldable pub retire_career :
      (id actor_user_id : String) → CareerTables → Reply CareerTables Career
  retire_career id actor_user_id t =
      or_throw (db.find_unique Career (λ c. c.id == id) t.tables.careers)
        (not_found "Career not found") t
        (λ row.
          throw_if (not (can_retire row.status))
            (domain 409 "CAREER_NOT_PUBLISHED" "Only a published career can be retired") t
            (or_throw
              (db.update Career (λ c. c.id == id) (λ c. record c { status = retired })
                t.tables.careers)
              (not_found "Record not found") t
              (λ e.
                returns e.0 (capture "career_status_changed" actor_user_id ∷ [])
                  (record t { tables = record t.tables { careers = e.1 } }))))
