-- ===== src/Publishing/Samples.antt =====
-- The rows of a career with an approved revision, before and after the revision is published.
use pathway_backend.Prelude.{String, none, some, [], ◌∷◌}
use pathway_backend.Roles.{publisher}
use pathway_backend.Snapshot.Samples.{nurse_draft, texts, path, first_step, second_step, skill}
use pathway_backend.Plan.Types.{PlanBlocker}
use pathway_backend.Revisions.{
  Career, ContentRevision, Review, Tables, Actor, live, approved, published, approve,
}
use pathway_backend.Publishing.{Applied}
use pathway_backend.Publishing.Publish.{Published, published_career, applied_state}

abbrev pub career : Career
career = record {
  id = "c1";
  version = 3;
  status = live;
  content = texts;
  skills = skill ∷ [];
  outlook = [];
  pathway = some (record {
    pathway = record { id = "p1"; content = path };
    steps = first_step ∷ second_step ∷ [];
  });
  published_at = some 1;
  published_by_id = some "ann";
  reviewed_at = some 1;
  reviewed_by_id = some "bob";
}

abbrev pub revision : ContentRevision
revision = record {
  id = "r1";
  career_id = "c1";
  base_version = 3;
  snapshot = nurse_draft;
  status = approved;
  created_by_id = "ann";
}

abbrev pub approval : Review
approval = record {
  id = "v1";
  revision_id = "r1";
  reviewer_id = "bob";
  decision = approve;
  note = none;
  created_at = 40;
}

abbrev pub tables : Tables
tables = record {
  careers = career ∷ [];
  revisions = revision ∷ [];
  reviews = approval ∷ [];
  resources = [];
  user_steps = [];
}

abbrev pub eve : Actor
eve = record { id = "eve"; role = publisher }

abbrev pub state : Applied
state = applied_state tables career

-- The second step is deleted.
abbrev pub left : Applied
left = record state {
  pathway =
      some (record { pathway = record { id = "p1"; content = path }; steps = first_step ∷ [] });
}

abbrev pub published_tables : Tables
published_tables = record tables {
  careers = published_career left eve approval 50 career ∷ [];
  revisions = record revision { status = published } ∷ [];
}

abbrev pub result : Published
result = record { revision_id = "r1"; career_id = "c1"; new_version = 4; published_at = 50 }

abbrev pub no_text : PlanBlocker → String
no_text b = ""

abbrev pub same_id : String → String
same_id id = id
