-- ===== src/Learning/Pathways.antt =====
-- Saved careers and their pathways (src/catalog/pathways/pathways.service.ts). A required relation
-- that a row selects is looked up by its key; where the row were missing, which a foreign key
-- excludes, the row reads as one without a pathway.
use pathway_backend.Prelude.{
  ℕ, String, Bool, true, false, not, ◌&&◌, Option, none, some, List, [], ◌∷◌, map, any, length,
  is_none, select, concat_map, string_Eq, ◌==◌,
}
use pathway_backend.Prelude.Dict.{get}
use pathway_backend.Exceptions.{not_found, conflict, bad_request}
use pathway_backend.Effects.{capture}
use pathway_backend.Handlers.{Reply, returns, or_throw, throw_if}
use pathway_backend.Database.{PrismaClient}
use pathway_backend.Revisions.{is_retired}
use pathway_backend.Progress.{StepStatus, not_started, Floats, compute_step_statuses}
use pathway_backend.Learning.{
  Skill, Career, Pathway, PathwayStep, UserPathway, UserPathwayStep, Tables, ActivePathwayProgress,
  is_published, is_published_or_retired, has_key, career_passes, for_progress, step_progress,
  ordered_steps, user_steps_on, pathway_of_career, progress_from, get_pathway_progress,
}

pub record StepSummary : Type 0 where
  pub id : String
  pub title : String
  pub order : ℕ
  pub description : Option String

pub record PathwayMetadata : Type 0 where
  pub id : String
  pub career_id : String
  pub title : String
  pub description : Option String
  pub step_count : ℕ
  pub steps : List StepSummary

pub record ActiveCareer : Type 0 where
  pub id : String
  pub slug : String
  pub title : String
  pub role_summary : String
  pub retired : Bool

pub record ActiveStep : Type 0 where
  pub id : String
  pub order : ℕ
  pub title : String
  pub skills : List Skill
  pub status : StepStatus

pub record ActivePathwayResponse : Type 0 where
  pub career : Option ActiveCareer
  pub pathway : Option (String × String)
  pub progress : Option ActivePathwayProgress
  pub steps : List ActiveStep

pub record StartingPointResponse : Type 0 where
  pub career_id : String
  pub start_step_id : Option String
  pub progress : ActivePathwayProgress

pub record SavedPathway : Type 0 where
  pub career_id : String
  pub slug : String
  pub title : String
  pub retired : Bool
  pub is_active : Bool
  pub completed : ℕ
  pub total : ℕ
  pub percentage : ℕ

-- `value ?? fallback`
abbrev pub or_default {ℓ} : {A : Type ℓ} → Option A → A → A
or_default none d = d
or_default (some a) d = a

-- `{ userId, isActive: true, careerId: { not: careerId } }`
abbrev pub other_active : String → String → UserPathway → Bool
other_active user_id career_id u =
    u.user_id == user_id && u.is_active && not (u.career_id == career_id)

abbrev pub inactive : UserPathway → UserPathway
inactive u = record u { is_active = false }

abbrev pub active : UserPathway → UserPathway
active u = record u { is_active = true }

-- `{ userId, isActive: true }`
abbrev pub is_active_of : String → UserPathway → Bool
is_active_of user_id u = u.user_id == user_id && u.is_active

abbrev pub no_active_pathway : ActivePathwayResponse
no_active_pathway = record { career = none; pathway = none; progress = none; steps = [] }

abbrev pub active_career : Career → ActiveCareer
active_career c = record {
  id = c.id;
  slug = c.slug;
  title = c.title;
  role_summary = or_default c.role_summary "";
  retired = is_retired c.status;
}

abbrev pub step_summary : PathwayStep → StepSummary
step_summary s = record { id = s.id; title = s.title; order = s.order; description = s.description }

module _ (db : PrismaClient) where
  unfoldable pub get_pathway_metadata :
      (pathway_id : String) → Tables → Reply Tables PathwayMetadata
  get_pathway_metadata pathway_id t =
      or_throw
        (db.find_first Pathway
          (λ p. p.id == pathway_id && career_passes t (λ c. is_published c.status) p.career_id)
          (λ _. 0) t.pathways)
        (not_found "Pathway not found") t
        (λ pathway.
          let steps = ordered_steps db t pathway.id in
          returns
            (record {
              id = pathway.id;
              career_id = pathway.career_id;
              title = pathway.title;
              description = pathway.description;
              step_count = length steps;
              steps = map step_summary steps;
            })
            [] t)

  -- The transaction of `setActivePathway`; `row_id` is the id of a new row.
  unfoldable pub activate :
      (row_id user_id career_id : String) → List UserPathway → List UserPathway
  activate row_id user_id career_id rows =
      let (others, _) = db.update_many UserPathway (other_active user_id career_id) inactive rows in
      db.upsert UserPathway (has_key user_id career_id)
        (record {
          id = row_id;
          user_id = user_id;
          career_id = career_id;
          is_active = true;
          start_step_id = none;
        })
        active others

  abbrev pub find_active : Tables → String → Option UserPathway
  find_active t user_id = db.find_first UserPathway (is_active_of user_id) (λ _. 0) t.user_pathways

  abbrev pub career_with_id : Tables → String → Option Career
  career_with_id t id = db.find_unique Career (λ c. c.id == id) t.careers

  abbrev pub may_be_saved : Tables → UserPathway → Bool
  may_be_saved t u = career_passes t (λ c. is_published_or_retired c.status) u.career_id

  module _ (fl : Floats) where
    unfoldable pub active_response :
        Tables → String → UserPathway → Option Career → Option Pathway → ActivePathwayResponse
    active_response t user_id u none pathway = no_active_pathway
    active_response t user_id u (some career) none = no_active_pathway
    active_response t user_id u (some career) (some pathway) =
        let steps = ordered_steps db t pathway.id in
        let user_steps = user_steps_on db t user_id pathway.id in
        let statuses = compute_step_statuses (map for_progress steps) user_steps in
        record {
          career = some (active_career career);
          pathway = some (pathway.id, pathway.title);
          progress = some (progress_from fl (map for_progress steps) user_steps u.start_step_id);
          steps =
              map
                (λ (s : PathwayStep). record {
                  id = s.id;
                  order = s.order;
                  title = s.title;
                  skills = s.skills;
                  status = or_default (get statuses s.id) not_started;
                })
                steps;
        }

    unfoldable pub active_of_row : Tables → String → Option UserPathway → ActivePathwayResponse
    active_of_row t user_id none = no_active_pathway
    active_of_row t user_id (some u) =
        active_response t user_id u (career_with_id t u.career_id)
          (pathway_of_career db t u.career_id)

    unfoldable pub get_active_pathway : (user_id : String) → Tables → ActivePathwayResponse
    get_active_pathway user_id t = active_of_row t user_id (find_active t user_id)

    unfoldable pub set_active_pathway :
        (row_id user_id career_id : String) → Tables → Reply Tables ActivePathwayResponse
    set_active_pathway row_id user_id career_id t =
        or_throw
          (db.find_first Career (λ c. c.id == career_id && is_published c.status) (λ _. 0)
            t.careers)
          (not_found "Career not found") t
          (λ career.
            or_throw (pathway_of_career db t career_id) (conflict "This career has no pathway yet")
              t
              (λ pathway.
                let after : Tables = record t {
                  user_pathways = activate row_id user_id career_id t.user_pathways;
                } in
                returns (get_active_pathway user_id after) (capture "pathway_saved" user_id ∷ [])
                  after))

    -- A step that is given must be one of the pathway's.
    unfoldable pub is_foreign_step : Tables → (pathway_id : String) → Option String → Bool
    is_foreign_step t pathway_id none = false
    is_foreign_step t pathway_id (some step_id) = is_none (
        db.find_first PathwayStep (λ s. s.id == step_id && s.pathway_id == pathway_id) (λ _. 0)
          t.steps)

    abbrev pub is_own_saved : Tables → String → String → UserPathway → Bool
    is_own_saved t user_id career_id u = has_key user_id career_id u && may_be_saved t u

    unfoldable pub set_starting_point :
        (user_id career_id : String) → Option String → Tables → Reply Tables StartingPointResponse
    set_starting_point user_id career_id step_id t =
        or_throw
          (db.find_first UserPathway (is_own_saved t user_id career_id) (λ _. 0) t.user_pathways)
          (not_found "Saved pathway not found") t
          (λ saved.
            or_throw (pathway_of_career db t saved.career_id) (not_found "Saved pathway not found")
              t
              (λ pathway.
                throw_if (is_foreign_step t pathway.id step_id)
                  (bad_request "Step does not belong to this career's pathway") t
                  (or_throw
                    (db.update UserPathway (λ u. u.id == saved.id)
                      (λ u. record u { start_step_id = step_id }) t.user_pathways)
                    (not_found "Record not found") t
                    (λ e.
                      let after : Tables = record t { user_pathways = e.1 } in
                      returns
                        (record {
                          career_id = career_id;
                          start_step_id = step_id;
                          progress = get_pathway_progress fl db after user_id pathway.id step_id;
                        })
                        [] after))))

    -- One saved row; a row whose career has no pathway is left out.
    unfoldable pub saved_pathway :
        Tables
        → List UserPathwayStep
        → UserPathway
        → Option Career
        → Option Pathway
        → List SavedPathway
    saved_pathway t user_steps u none pathway = []
    saved_pathway t user_steps u (some career) none = []
    saved_pathway t user_steps u (some career) (some pathway) =
        let steps = db.find_many PathwayStep (λ s. s.pathway_id == pathway.id) t.steps in
        let relevant =
          select
            (λ (v : UserPathwayStep). any (λ (s : PathwayStep). s.id == v.pathway_step_id) steps)
            user_steps in
        let progress =
          progress_from fl (map for_progress steps) (map step_progress relevant) u.start_step_id in
        record {
          career_id = career.id;
          slug = career.slug;
          title = career.title;
          retired = is_retired career.status;
          is_active = u.is_active;
          completed = progress.summary.completed;
          total = progress.summary.total;
          percentage = progress.summary.percentage;
        }
        ∷ []

    unfoldable pub get_saved_pathways : (user_id : String) → Tables → List SavedPathway
    get_saved_pathways user_id t =
        let rows =
          db.find_many UserPathway (λ u. u.user_id == user_id && may_be_saved t u)
            t.user_pathways in
        let user_steps = db.find_many UserPathwayStep (λ v. v.user_id == user_id) t.user_steps in
        concat_map
          (λ u.
            saved_pathway t user_steps u (career_with_id t u.career_id)
              (pathway_of_career db t u.career_id))
          rows
