-- ===== src/Fulfillment/Outcomes.antt =====
-- The outcomes of a call of `accept` of src/sarmady/context/fulfillment.py.
use sarmady.Prelude.{ℕ, ℤ, ltb_ℤ, ◌≡◌, true, false, Option, none, some}
use sarmady.Outcome.{Exception, Outcome, ok, err, value_error}
use sarmady.Host.{Host}
use sarmady.Context.{ContextRequest, check_request, not_positive, not_positive_if, first_some}
use sarmady.Cognition.{ContextNeedDecision, accepted, check_decision}
use sarmady.Store.{Db}
use sarmady.Store.ContextNeed.{parent_latency, register_context_need_decision}
use sarmady.Store.ContextNeed.Bounds.{Granted}
use sarmady.Fulfillment.{ContextNeedLineage, given_or, Verdict}

-- The decision and the child are what the caller asks for and what the artifact's lineage says.
pub record Asked (artifact_id : ℕ) (v : Verdict) (tokens latency : Option ℤ) (child_id : ℕ)
    (lineage : ContextNeedLineage) (d : ContextNeedDecision) (child : ContextRequest) : Type 0 where
  pub artifact : d.context_need_artifact_id ≡ artifact_id
  pub kind : d.decision ≡ accepted
  pub id : d.id ≡ v.id
  pub decided_at : d.decided_at ≡ v.decided_at
  pub reason : d.reason ≡ v.reason
  pub decision_source : d.decision_source ≡ v.decision_source
  pub invocation : d.parent_invocation_id ≡ lineage.invocation_id
  pub cognitive_request : d.parent_cognitive_request_id ≡ lineage.cognitive_request_id
  pub projection : d.parent_context_projection_id ≡ lineage.projection_id
  pub parent : d.parent_context_request_id ≡ lineage.parent_request.id
  pub grants_child : d.child_context_request_id ≡ some child_id
  pub child_named : child.id ≡ child_id
  pub query : child.query ≡ lineage.proposal.query
  pub token_budget : child.token_budget ≡ given_or tokens lineage.parent_request.token_budget
  pub latency_budget :
      child.latency_budget_ms ≡ first_some latency (parent_latency lineage.parent_request)
  pub goal_ref : child.goal_ref ≡ lineage.parent_request.goal_ref
  pub task_ref : child.task_ref ≡ lineage.parent_request.task_ref
  pub known_at : child.known_at ≡ lineage.parent_request.known_at
  pub valid_at : child.valid_at ≡ lineage.parent_request.valid_at

-- A latency budget against the parent's.
abbrev pub LatencyWithin : Option ℤ → Option ℤ → Type 0
LatencyWithin none child = Unit
LatencyWithin (some bound) none = ⊥
LatencyWithin (some bound) (some child) = ltb_ℤ bound child ≡ false

-- Budgets that are positive and within the parent's.
pub record Affordable (parent : ContextRequest) (tokens : ℤ) (latency : Option ℤ) : Type 0 where
  pub tokens_positive : not_positive tokens ≡ false
  pub tokens_within : ltb_ℤ parent.token_budget tokens ≡ false
  pub latency_positive : not_positive_if latency ≡ false
  pub latency_bounded : LatencyWithin (parent_latency parent) latency

-- Budgets that are not, with the exception that says which is refused first.
pub data Refused (parent : ContextRequest) (tokens : ℤ) (latency : Option ℤ)
    : Exception → Type 0 where
  no_tokens :
      not_positive tokens ≡ true
      → Refused parent tokens latency (value_error "child token_budget must be positive")
  tokens_above :
      not_positive tokens ≡ false
      → ltb_ℤ parent.token_budget tokens ≡ true
      → Refused parent tokens latency
          (value_error "child token_budget cannot exceed parent token budget")
  no_latency :
      ltb_ℤ parent.token_budget tokens ≡ false
      → not_positive_if latency ≡ true
      → Refused parent tokens latency (value_error "child latency_budget_ms must be positive")
  latency_above :
      (bound child : ℤ)
      → not_positive_if latency ≡ false
      → parent_latency parent ≡ some bound
      → latency ≡ some child
      → ltb_ℤ bound child ≡ true
      → Refused parent tokens latency
          (value_error "child latency_budget_ms cannot exceed parent latency budget")

-- What a call gives: the budgets are refused; or they are affordable, and the child, the decision or
-- its registration raises; or the store has granted the decision and the child.
pub data AcceptOutcome (host : Host) (artifact_id : ℕ) (v : Verdict) (tokens latency : Option ℤ)
    (child_id : ℕ) (db : Db) (lineage : ContextNeedLineage)
    : Outcome (Db × ContextNeedDecision × ContextRequest) → Type 0 where
  refused :
      (e : Exception)
      → Refused lineage.parent_request
          (given_or tokens lineage.parent_request.token_budget)
          (first_some latency (parent_latency lineage.parent_request))
          e
      → AcceptOutcome host artifact_id v tokens latency child_id db lineage (err e)
  invalid_child :
      (d : ContextNeedDecision) (child : ContextRequest) (e : Exception)
      → Asked artifact_id v tokens latency child_id lineage d child
      → Affordable lineage.parent_request child.token_budget child.latency_budget_ms
      → check_request child ≡ err e
      → AcceptOutcome host artifact_id v tokens latency child_id db lineage (err e)
  invalid_decision :
      (d : ContextNeedDecision) (child : ContextRequest) (e : Exception)
      → Asked artifact_id v tokens latency child_id lineage d child
      → Affordable lineage.parent_request child.token_budget child.latency_budget_ms
      → check_decision host d ≡ err e
      → AcceptOutcome host artifact_id v tokens latency child_id db lineage (err e)
  not_granted :
      (d : ContextNeedDecision) (child : ContextRequest) (e : Exception)
      → Asked artifact_id v tokens latency child_id lineage d child
      → Affordable lineage.parent_request child.token_budget child.latency_budget_ms
      → register_context_need_decision host d (some child) db ≡ err e
      → AcceptOutcome host artifact_id v tokens latency child_id db lineage (err e)
  granted :
      (d : ContextNeedDecision) (child : ContextRequest) (db' : Db)
      → Asked artifact_id v tokens latency child_id lineage d child
      → Affordable lineage.parent_request child.token_budget child.latency_budget_ms
      → Granted host d child db db'
      → AcceptOutcome host artifact_id v tokens latency child_id db lineage (ok (db', d, child))
