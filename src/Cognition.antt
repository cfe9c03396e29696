-- ===== src/Cognition.antt =====
-- src/sarmady/cognition/models.py, context_need.py and reasoning.py: requests, invocations,
-- artifacts, context-need proposals and decisions, and reasoning policies.
pub mod ContextNeed
pub mod Reasoning
use sarmady.Prelude.{
  ℕ, String, Bool, true, false, not, Option, none, some, List, [], ◌∷◌, map, ◌==◌, ◌&&◌, ◌||◌,
  is_some, any_of, nat_eq, string_eq, option_eq, option_beq,
}
use sarmady.Outcome.{Outcome, ok, err, value_error, type_error, raise_if, ◌>>=◌, ◌>>◌}
use sarmady.Time.{DateTime, before, require_aware, require_aware_if}
use sarmady.Host.{Host}
use sarmady.Context.{is_blank, duplicated}

pub record CognitiveRequest : Type 0 where
  pub id : ℕ
  pub agent_id : ℕ
  pub context_projection_id : ℕ
  pub operation : String
  pub created_at : DateTime
  pub reasoning_policy_id : Option String

abbrev pub blank_if : Host → Option String → Bool
blank_if host none = false
blank_if host (some text) = is_blank host text

unfoldable pub check_cognitive_request : Host → CognitiveRequest → Outcome CognitiveRequest
check_cognitive_request host r = do
  raise_if (is_blank host r.operation) (value_error "operation is required")
  raise_if (blank_if host r.reasoning_policy_id) (value_error "reasoning_policy_id cannot be blank")
  require_aware r.created_at
  ok r

pub record ModelInvocation : Type 0 where
  pub id : ℕ
  pub cognitive_request_id : ℕ
  pub model_binding : String
  pub started_at : DateTime
  pub completed_at : Option DateTime
  pub error_code : Option String

abbrev pub ends_before : Option DateTime → DateTime → Bool
ends_before none start = false
ends_before (some stop) start = before stop start

unfoldable pub check_invocation : Host → ModelInvocation → Outcome ModelInvocation
check_invocation host i = do
  raise_if (is_blank host i.model_binding) (value_error "model_binding is required")
  require_aware i.started_at
  require_aware_if i.completed_at
  raise_if (ends_before i.completed_at i.started_at)
      (value_error "completed_at cannot precede started_at")
  ok i

pub record GeneratedArtifact : Type 0 where
  pub id : ℕ
  pub invocation_id : ℕ
  pub artifact_kind : String
  pub content : String
  pub created_at : DateTime

unfoldable pub check_artifact : Host → GeneratedArtifact → Outcome GeneratedArtifact
check_artifact host a = do
  raise_if (is_blank host a.artifact_kind) (value_error "artifact_kind is required")
  require_aware a.created_at
  ok a

-- `CONTEXT_NEED_ARTIFACT_KIND`
abbrev pub context_need_kind : String
context_need_kind = "context-need:v1"

pub record ContextNeedProposal : Type 0 where
  pub query : String
  pub reason : String
  pub coverage_requirements : List String

unfoldable pub check_proposal : Host → ContextNeedProposal → Outcome ContextNeedProposal
check_proposal host p = do
  raise_if (is_blank host p.query) (value_error "context need query is required")
  raise_if (is_blank host p.reason) (value_error "context need reason is required")
  raise_if (any_of (is_blank host) p.coverage_requirements)
      (type_error "context need coverage_requirements must contain non-empty strings")
  raise_if (duplicated p.coverage_requirements)
      (value_error "context need coverage_requirements must be unique")
  ok p

pub data DecisionKind : Type 0 where
  accepted rejected : DecisionKind

pub record ContextNeedDecision : Type 0 where
  pub id : ℕ
  pub context_need_artifact_id : ℕ
  pub decision : DecisionKind
  pub decided_at : DateTime
  pub reason : String
  pub decision_source : String
  pub parent_invocation_id : ℕ
  pub parent_cognitive_request_id : ℕ
  pub parent_context_projection_id : ℕ
  pub parent_context_request_id : ℕ
  pub child_context_request_id : Option ℕ

-- The last branch of `ContextNeedDecision.__post_init__`.
abbrev pub check_child : DecisionKind → Option ℕ → ℕ → Outcome (Unit {0})
check_child accepted none parent =
    err (value_error "accepted context need requires a child context request")
check_child accepted (some child) parent =
    raise_if (child == parent)
      (value_error "accepted context need must create a new child request id")
check_child rejected none parent = ok tt
check_child rejected (some child) parent =
    err (value_error "rejected context need cannot create a child context request")

unfoldable pub check_decision : Host → ContextNeedDecision → Outcome ContextNeedDecision
check_decision host d = do
  require_aware d.decided_at
  raise_if (is_blank host d.reason) (value_error "context need decision reason is required")
  raise_if (is_blank host d.decision_source)
      (value_error "context need decision source is required")
  check_child d.decision d.child_context_request_id d.parent_context_request_id
  ok d

pub data ReasoningMode : Type 0 where
  direct compact full : ReasoningMode

pub record ReasoningRequirement : Type 0 where
  pub key : String
  pub description : String

pub record ReasoningPolicy : Type 0 where
  pub id : String
  pub version : String
  pub mode : ReasoningMode
  pub stages : List String
  pub requirements : List ReasoningRequirement
  pub source_ref : String
  pub source_sha256 : Option String
