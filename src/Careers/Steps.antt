-- ===== src/Careers/Steps.antt =====
-- The commands that write the rows of careers, of their revisions and of the reviews, one after
-- another: the commands of the revisions service, publishRevision among them, and createCareer,
-- retireCareer and deleteCareer; and, between them, any writes of learners. The ids of the rows that
-- `createCareer` adds are not in use.
use pathway_backend.Prelude.{List, ℕ, String, Bool, false, any, string_Eq, ◌==◌, ◌≡◌}
use pathway_backend.Handlers.{tables_of}
use pathway_backend.Database.{PrismaClient}
use pathway_backend.Plan.Types.{PlanBlocker}
use pathway_backend.Revisions.{Career, ContentRevision, UserPathwayStep, Actor}
use pathway_backend.Learning.{UserPathway}
use pathway_backend.Revisions.Failures.{Command, run}
use pathway_backend.Publishing.Publish.{publish_revision}
use pathway_backend.Careers.{
  CareerTables, CreateCareerDto, create_career, retire_career, delete_career,
}

module _ (db : PrismaClient) (trim : String → String) (same_text : String → String → Bool)
    (new_id : String → String) (message : PlanBlocker → String) where
  pub data Step (t : CareerTables) : CareerTables → Type 0 where
    revised : (c : Command) → Step t (record t { tables = (run db trim c t.tables).2 })
    publishing :
        (revision_id : String) (actor : Actor) (now : ℕ)
        → Step t (record t {
          tables = (publish_revision db new_id message revision_id actor now t.tables).2;
        })
    creating :
        (dto : CreateCareerDto) (actor_user_id career_id revision_id : String)
        → any (λ (c : Career). c.id == career_id) t.tables.careers ≡ false
        → any (λ (r : ContentRevision). r.id == revision_id) t.tables.revisions ≡ false
        → Step t (tables_of (create_career db same_text dto actor_user_id career_id revision_id t))
    retiring :
        (id actor_user_id : String) → Step t (tables_of (retire_career db id actor_user_id t))
    -- What learners save, start and complete.
    learning :
        (user_pathways : List UserPathway) (user_steps : List UserPathwayStep)
        → Step t (record t {
          user_pathways = user_pathways;
          tables = record t.tables { user_steps = user_steps };
        })
    deleting :
        (id actor_user_id : String) → Step t (tables_of (delete_career db id actor_user_id t))

  pub data Reach (t : CareerTables) : CareerTables → Type 0 where
    here : Reach t t
    next : {u v : CareerTables} → Reach t u → Step u v → Reach t v
