-- ===== src/Tests/Workspace.antt =====
-- A store with one projection, an invocation over it, and the artifact that the invocation made.
use sarmady.Prelude.{pos, true, false, none, some, [], ◌∷◌}
use sarmady.Host.{Host}
use sarmady.Context.{ContextRequest, ContextProjection, complete}
use sarmady.Cognition.{
  ModelInvocation, GeneratedArtifact, ContextNeedProposal, ContextNeedDecision, accepted,
}
use sarmady.Cognition.ContextNeed.{payload}
use sarmady.Store.{Db, ProjectionRow, empty_db}
use sarmady.Tests.Samples.{at, id_text}

abbrev pub proposal : ContextNeedProposal
proposal = record { query = "region"; reason = "unknown"; coverage_requirements = "where" ∷ [] }

-- Every text is one word, and the one JSON text is the proposal's.
abbrev pub host : Host
host = record {
  uuid_text = id_text;
  int_text = id_text;
  isoformat = λ t. id_text t.instant;
  utc_isoformat = λ t. id_text t.instant;
  json_dumps = λ v. "json";
  json_loads = λ s. some (payload proposal);
  sha256 = λ s. s;
  strip = λ s. s;
  lower = λ s. s;
  upper = λ s. s;
  words = λ s. s ∷ [];
  casefold = λ s. s;
  startswith = λ s t. true;
  number_text = λ v. "1";
  text_leb = λ s t. true;
  json_compact = λ v. "json";
}

abbrev pub request : ContextRequest
request = record {
  id = 1;
  query = "region";
  token_budget = pos 100;
  latency_budget_ms = some (pos 50);
  goal_ref = none;
  task_ref = none;
  coverage_requirements = [];
  exact_requirements = [];
  known_at = none;
  valid_at = none;
}

abbrev pub child : ContextRequest
child = record request {
  id = 9;
  token_budget = pos 40;
  latency_budget_ms = some (pos 50);
  coverage_requirements = "where" ∷ [];
}

abbrev pub projection : ContextProjection
projection = record {
  id = 2;
  request_id = 1;
  snapshot_id = "sqlite:";
  canonical_frontier = 0;
  items = [];
  coverage_status = complete;
  manifest_digest = "sha256:0";
  compiler_version = "exact-v0.2";
  conflict_refs = [];
  unresolved_gaps = [];
  omitted_refs = [];
}

abbrev pub row : ProjectionRow
row = record {
  projection = projection;
  stale = false;
  stale_reason = none;
  stale_at_frontier = none;
  dependencies = "epistemic-key:server:region" ∷ "memory-entry:ii" ∷ [];
}

abbrev pub invocation : ModelInvocation
invocation = record {
  id = 4;
  cognitive_request_id = 3;
  model_binding = "model";
  started_at = at 10;
  completed_at = none;
  error_code = none;
}

abbrev pub artifact : GeneratedArtifact
artifact = record {
  id = 5;
  invocation_id = 4;
  artifact_kind = "context-need:v1";
  content = "json";
  created_at = at 11;
}

-- before the invocation ends
abbrev pub open_db : Db
open_db = record empty_db {
  context_requests = request ∷ [];
  context_projections = row ∷ [];
  cognitive_requests =
      record {
        id = 3;
        agent_id = 1;
        context_projection_id = 2;
        operation = "answer";
        created_at = at 9;
        reasoning_policy_id = none;
      }
      ∷ [];
  model_invocations = invocation ∷ [];
}

abbrev pub finished_invocation : ModelInvocation
finished_invocation = record invocation { completed_at = some (at 12) }

-- after it has ended
abbrev pub closed_db : Db
closed_db = record open_db {
  model_invocations = finished_invocation ∷ [];
  generated_artifacts = artifact ∷ [];
}

abbrev pub decision : ContextNeedDecision
decision = record {
  id = 6;
  context_need_artifact_id = 5;
  decision = accepted;
  decided_at = at 13;
  reason = "needed";
  decision_source = "operator";
  parent_invocation_id = 4;
  parent_cognitive_request_id = 3;
  parent_context_projection_id = 2;
  parent_context_request_id = 1;
  child_context_request_id = some 9;
}
