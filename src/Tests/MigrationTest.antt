-- ===== src/Tests/MigrationTest.antt =====
-- The migration of a store of version 1 with an entry that has no event and a fresh projection.
use sarmady.Prelude.{ℕ, ◌≡◌, refl, none, [], ◌∷◌}
use sarmady.Outcome.{Outcome, ok, err, Exception}
use sarmady.Cognition.{CognitiveRequest}
use sarmady.Store.{Db}
use sarmady.Store.Cognitive.{create_cognitive_request}
use sarmady.Store.Migration.{migrate}
use sarmady.Store.Migration.Retry.{create_cognitive_request-migrate}
use sarmady.Store.Migration.Idempotent.{migrate_idem}
use sarmady.Tests.Samples.{at, bundle}
use sarmady.Tests.Workspace.{host, open_db}

abbrev legacy : Db
legacy = record open_db {
  agents = record { id = 1; name = "agent"; created_at = at 1 } ∷ [];
  memory_entries = (bundle 1 "eu" none).memory ∷ [];
}

abbrev uuid5 : ℕ → ℕ
uuid5 id = id

abbrev value_or {ℓ} : {A : Type ℓ} → Outcome A → A → A
value_or (ok a) b = a
value_or (err e) b = b

abbrev migrated : Db
migrated = value_or (migrate uuid5 1 legacy) legacy

migrates : migrate uuid5 1 legacy ≡ ok migrated
unfolding migrate
migrates = refl

migrate_idem_example : migrate uuid5 1 migrated ≡ ok migrated
migrate_idem_example = migrate_idem uuid5 1 legacy migrated migrates

abbrev asked : CognitiveRequest
asked = record {
  id = 8;
  agent_id = 1;
  context_projection_id = 2;
  operation = "answer";
  created_at = at 9;
  reasoning_policy_id = none;
}

create_cognitive_request-migrate_example :
    (e : Exception) × (create_cognitive_request host asked migrated migrated ≡ err e)
create_cognitive_request-migrate_example =
    create_cognitive_request-migrate host uuid5 1 legacy migrated asked migrated refl migrates
