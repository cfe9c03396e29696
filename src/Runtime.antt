-- ===== src/Runtime.antt =====
-- src/sarmady/runtime/model.py: what the runtime gives to a model and takes back, and calls that
-- write to the store before they raise.
pub mod Calls
pub mod Input
pub mod Invocation
pub mod Begun
pub mod Tracked
pub mod Ends
pub mod Returns
use sarmady.Prelude.{
  ℕ, String, Bool, true, false, not, Option, none, some, List, ◌==◌, ◌&&◌, ◌||◌, is_some, string_eq,
  option_eq, list_eq,
}
use sarmady.Outcome.{
  Exception, value_error, type_error, runtime_error, integrity_error, canonical_integrity,
  key_error, other_error, Outcome, ok, err, raise_if, ◌>>=◌, ◌>>◌,
}
use sarmady.Values.{Value}
use sarmady.Host.{Host}
use sarmady.Context.{is_blank, CoverageStatus}
use sarmady.Cognition.{GeneratedArtifact, ContextNeedProposal, ReasoningPolicy, context_need_kind}
use sarmady.Cognition.ContextNeed.{deserialize}
use sarmady.Cognition.Reasoning.{fingerprint}
use sarmady.Store.{Db}

pub record ModelContextItem : Type 0 where
  pub ref_type : String
  pub ref_id : ℕ
  pub role : String
  pub payload : Value
  pub provenance_refs : List ℕ

pub record ModelInput : Type 0 where
  pub agent_id : ℕ
  pub cognitive_request_id : ℕ
  pub context_projection_id : ℕ
  pub snapshot_id : String
  pub operation : String
  pub reasoning_policy_id : Option String
  pub reasoning_policy_fingerprint : Option String
  pub reasoning_policy : Option ReasoningPolicy
  pub items : List ModelContextItem
  pub conflict_refs : List ℕ
  pub coverage_status : CoverageStatus
  pub unresolved_gaps : List String
  pub omitted_refs : List ℕ

abbrev pub check_policy_metadata :
    Host → Option ReasoningPolicy → Option String → Option String → Outcome (Unit {0})
check_policy_metadata host none id print =
    raise_if (is_some id || is_some print)
      (value_error "reasoning policy metadata requires a structured reasoning policy")
check_policy_metadata host (some policy) id print = do
  raise_if (not (id == some policy.id))
      (value_error "reasoning_policy_id must match the structured policy")
  raise_if (not (print == some (fingerprint host policy)))
      (value_error "reasoning_policy_fingerprint must match the structured policy")

-- `ModelInput.__post_init__`
unfoldable pub check_model_input : Host → ModelInput → Outcome ModelInput
check_model_input host i = do
  check_policy_metadata host i.reasoning_policy i.reasoning_policy_id i.reasoning_policy_fingerprint
  ok i

pub record ModelResponse : Type 0 where
  pub artifact_kind : String
  pub content : String

unfoldable pub check_response : Host → ModelResponse → Outcome ModelResponse
check_response host r = do
  raise_if (is_blank host r.artifact_kind) (value_error "artifact_kind is required")
  raise_if (r.artifact_kind == context_need_kind)
      (value_error "context-need:v1 is reserved for typed ContextNeedProposal outcomes")
  ok r

-- What an adapter may return: a response, a proposal, or an object of any other class.
pub data Answer : Type 0 where
  response : ModelResponse → Answer
  proposal : ContextNeedProposal → Answer
  other_object : Answer

pub data CognitiveStepStatus : Type 0 where
  completed needs_context : CognitiveStepStatus

pub record CognitiveStepResult : Type 0 where
  pub status : CognitiveStepStatus
  pub artifact : GeneratedArtifact
  pub context_need : Option ContextNeedProposal

abbrev pub same_proposal : ContextNeedProposal → ContextNeedProposal → Bool
same_proposal p q =
    p.query == q.query && p.reason == q.reason && p.coverage_requirements == q.coverage_requirements

abbrev pub check_need : Host → GeneratedArtifact → Option ContextNeedProposal → Outcome (Unit {0})
check_need host artifact none =
    err (type_error "context-needing cognitive step requires a ContextNeedProposal")
check_need host artifact (some need) = do
  raise_if (not (artifact.artifact_kind == context_need_kind))
      (value_error "context-needing cognitive step requires a context-need artifact")
  read ← deserialize host artifact.content
  raise_if (not (same_proposal read need))
      (value_error "context-needing cognitive step artifact does not match its proposal")

abbrev pub check_status :
    Host → CognitiveStepStatus → GeneratedArtifact → Option ContextNeedProposal → Outcome (Unit {0})
check_status host completed artifact need = do
  raise_if (is_some need) (value_error "completed cognitive step cannot carry a context need")
  raise_if (artifact.artifact_kind == context_need_kind)
      (value_error "completed cognitive step cannot carry a context-need artifact")
check_status host needs_context artifact need = check_need host artifact need

-- `CognitiveStepResult.__post_init__`
unfoldable pub check_step_result : Host → CognitiveStepResult → Outcome CognitiveStepResult
check_step_result host r = do check_status host r.status r.artifact r.context_need; ok r

unfoldable pub context_need_from_artifact : Host → GeneratedArtifact → Outcome ContextNeedProposal
context_need_from_artifact host artifact = do
  raise_if (not (artifact.artifact_kind == context_need_kind))
      (value_error "generated artifact is not a context-need artifact")
  deserialize host artifact.content

-- `type(exc).__name__`
abbrev pub type_name : Exception → String
type_name (value_error message) = "ValueError"
type_name (type_error message) = "TypeError"
type_name (runtime_error message) = "RuntimeError"
type_name (integrity_error message) = "IntegrityError"
type_name (canonical_integrity message) = "CanonicalIntegrityError"
type_name (key_error message) = "KeyError"
type_name (other_error name message) = name
