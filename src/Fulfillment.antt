-- ===== src/Fulfillment.antt =====
-- src/sarmady/context/fulfillment.py: `ContextNeedCoordinator`, the host's decision over a stored
-- context need. The clock's time and the identifiers that `uuid4()` may give are arguments.
pub mod Outcomes
pub mod Accepted
use sarmady.Prelude.{
  ℕ, ℤ, ltb_ℤ, String, ◌≡◌, not, Option, none, some, [], ◌==◌, ◌||◌, is_some, string_eq,
}
use sarmady.Outcome.{
  Outcome, ok, err, value_error, runtime_error, raise_if, or_raise, ◌>>=◌, ◌>>◌, >>=-eq-ok, ok-inj,
}
use sarmady.Time.{DateTime}
use sarmady.Host.{Host}
use sarmady.Context.{ContextRequest, check_request, not_positive, not_positive_if, first_some}
use sarmady.Cognition.{
  ContextNeedProposal, ContextNeedDecision, accepted, rejected, check_decision, context_need_kind,
}
use sarmady.Cognition.ContextNeed.{deserialize}
use sarmady.Store.{Db, projection_by_id, request_by_id}
use sarmady.Store.Cognitive.{artifact_by_id, invocation_by_id, cognitive_request_by_id}
use sarmady.Store.ContextNeed.{parent_latency, register_context_need_decision}

pub record ContextNeedLineage : Type 0 where
  pub proposal : ContextNeedProposal
  pub invocation_id : ℕ
  pub cognitive_request_id : ℕ
  pub projection_id : ℕ
  pub parent_request : ContextRequest

-- `_load_lineage`
unfoldable pub load_lineage : Host → ℕ → Db → Outcome ContextNeedLineage
load_lineage host artifact_id db = do
  artifact ←
      or_raise (artifact_by_id db.generated_artifacts artifact_id)
        (value_error "unknown context need artifact")
  raise_if (not (artifact.artifact_kind == context_need_kind))
      (value_error "artifact is not a context-need proposal")
  proposal ← deserialize host artifact.content
  invocation ←
      or_raise (invocation_by_id db.model_invocations artifact.invocation_id)
        (runtime_error "context-need artifact references missing invocation")
  raise_if (not (is_some invocation.completed_at) || is_some invocation.error_code)
      (value_error "context-need artifact does not come from a successful invocation")
  request ←
      or_raise (cognitive_request_by_id db.cognitive_requests invocation.cognitive_request_id)
        (runtime_error "context-need invocation references missing cognitive request")
  row ←
      or_raise (projection_by_id db.context_projections request.context_projection_id)
        (runtime_error "context-need cognitive request references missing projection")
  parent ←
      or_raise (request_by_id db.context_requests row.projection.request_id)
        (runtime_error "context-need projection references missing context request")
  ok (record {
    proposal = proposal;
    invocation_id = invocation.id;
    cognitive_request_id = request.id;
    projection_id = row.projection.id;
    parent_request = parent;
  })

abbrev pub given_or {ℓ} : {A : Type ℓ} → Option A → A → A
given_or none a = a
given_or (some b) a = b

unfoldable pub allocate_tokens : ContextRequest → Option ℤ → Outcome ℤ
allocate_tokens parent asked = do
  let tokens = given_or asked parent.token_budget
  raise_if (not_positive tokens) (value_error "child token_budget must be positive")
  raise_if (ltb_ℤ parent.token_budget tokens)
      (value_error "child token_budget cannot exceed parent token budget")
  ok tokens

abbrev pub latency_within : Option ℤ → Option ℤ → Outcome (Unit {0})
latency_within none child = ok tt
latency_within (some bound) none =
    err (value_error "bounded parent latency cannot be removed from child request")
latency_within (some bound) (some child) =
    raise_if (ltb_ℤ bound child)
      (value_error "child latency_budget_ms cannot exceed parent latency budget")

unfoldable pub allocate_latency : ContextRequest → Option ℤ → Outcome (Option ℤ)
allocate_latency parent asked = do
  let latency = first_some asked (parent_latency parent)
  raise_if (not_positive_if latency) (value_error "child latency_budget_ms must be positive")
  latency_within (parent_latency parent) latency
  ok latency

abbrev pub child_of : ContextNeedLineage → ℕ → ℤ → Option ℤ → ContextRequest
child_of lineage id tokens latency = record lineage.parent_request {
  id = id;
  query = lineage.proposal.query;
  token_budget = tokens;
  latency_budget_ms = latency;
  coverage_requirements = lineage.proposal.coverage_requirements;
  exact_requirements = [];
}

-- What the caller says of the decision: its identifier, time, reason and source.
pub record Verdict : Type 0 where
  pub id : ℕ
  pub decided_at : DateTime
  pub reason : String
  pub decision_source : String

abbrev pub accepting : Verdict → ℕ → ContextNeedLineage → ℕ → ContextNeedDecision
accepting v artifact_id lineage child_id = record {
  id = v.id;
  context_need_artifact_id = artifact_id;
  decision = accepted;
  decided_at = v.decided_at;
  reason = v.reason;
  decision_source = v.decision_source;
  parent_invocation_id = lineage.invocation_id;
  parent_cognitive_request_id = lineage.cognitive_request_id;
  parent_context_projection_id = lineage.projection_id;
  parent_context_request_id = lineage.parent_request.id;
  child_context_request_id = some child_id;
}

unfoldable pub accept :
    Host
    → ℕ
    → Verdict
    → Option ℤ
    → Option ℤ
    → ℕ
    → Db
    → Outcome (Db × ContextNeedDecision × ContextRequest)
accept host artifact_id v token_budget latency_budget child_id db = do
  lineage ← load_lineage host artifact_id db
  tokens ← allocate_tokens lineage.parent_request token_budget
  latency ← allocate_latency lineage.parent_request latency_budget
  child ← check_request (child_of lineage child_id tokens latency)
  decision ← check_decision host (accepting v artifact_id lineage child.id)
  db' ← register_context_need_decision host decision (some child) db
  ok (db', decision, child)

unfoldable pub reject : Host → ℕ → Verdict → Db → Outcome (Db × ContextNeedDecision)
reject host artifact_id v db = do
  lineage ← load_lineage host artifact_id db
  decision ← check_decision host (record (accepting v artifact_id lineage 0) {
    decision = rejected;
    child_context_request_id = none;
  })
  db' ← register_context_need_decision host decision none db
  ok (db', decision)
