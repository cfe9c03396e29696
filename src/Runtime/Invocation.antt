-- ===== src/Runtime/Invocation.antt =====
-- `CognitiveRuntime` of src/sarmady/runtime/model.py. The readings of the clock and the identifiers
-- that `uuid4()` gives are arguments, and so is the adapter, which may write to the store.
use Prim.Native.String.{◌++◌ as append}
use sarmady.Prelude.{
  ℕ, String, Bool, true, false, not, Option, none, some, ◌==◌, ◌&&◌, is_some, string_eq,
}
use sarmady.Outcome.{
  Exception, value_error, type_error, runtime_error, Outcome, ok, err, raise_if, or_raise,
}
use sarmady.Time.{DateTime}
use sarmady.Host.{Host}
use sarmady.Context.{is_blank}
use sarmady.Cognition.{
  CognitiveRequest, ModelInvocation, GeneratedArtifact, ReasoningPolicy, check_cognitive_request,
  check_invocation, check_artifact, context_need_kind,
}
use sarmady.Cognition.ContextNeed.{serialize, deserialize}
use sarmady.Store.{projection_by_id}
use sarmady.Store.Cognitive.{
  create_cognitive_request, start_model_invocation, complete_model_invocation,
  fail_model_invocation,
}
use sarmady.Store.Reasoning.{register_reasoning_policy, reasoning_policy}
use sarmady.Runtime.{
  ModelInput, ModelResponse, Answer, response, proposal, other_object, CognitiveStepResult,
  completed, needs_context, check_response, check_step_result, type_name,
}
use sarmady.Runtime.Calls.{Call, ◌>>=◌, ◌>>◌, reading, pure, transaction, write, try_or}
use sarmady.Runtime.Input.{policy_id, materialize_input, read_invocation}

-- The arguments of `invoke` and `invoke_step`, the adapter apart.
pub record Task : Type 0 where
  pub agent_id : ℕ
  pub context_projection_id : ℕ
  pub operation : String
  pub reasoning_policy : Option ReasoningPolicy
  pub reasoning_policy_id : Option String

-- What the clock gives at each of its readings, and what `uuid4()` gives.
pub record Readings : Type 0 where
  pub registered_at : DateTime
  pub requested_at : DateTime
  pub started_at : DateTime
  pub created_at : DateTime
  pub completed_at : DateTime
  pub failed_at : DateTime
  pub request_id : ℕ
  pub invocation_id : ℕ
  pub artifact_id : ℕ

-- `ModelAdapter` and `StepModelAdapter`
pub record Adapter : Type 0 where
  pub binding_id : String
  pub answer : ModelInput → Call Answer

abbrev pub different_policies : Option ReasoningPolicy → Option String → Bool
different_policies (some p) (some id) = not (p.id == id)
different_policies (some p) none = false
different_policies none id = false

unfoldable pub choose_policy :
    Host → DateTime → Option ReasoningPolicy → Option String → Call (Option ReasoningPolicy)
choose_policy host registered_at (some p) id = do
  stored ← transaction (register_reasoning_policy host p registered_at)
  pure (ok (some p))
choose_policy host registered_at none (some id) = do
  found ← reading (λ db. reasoning_policy host db id)
  p ← pure (or_raise found (value_error "unknown reasoning policy"))
  pure (ok (some p))
choose_policy host registered_at none none = pure (ok none)

abbrev pub new_cognitive_request : Task → Readings → Option ReasoningPolicy → CognitiveRequest
new_cognitive_request task now policy = record {
  id = now.request_id;
  agent_id = task.agent_id;
  context_projection_id = task.context_projection_id;
  operation = task.operation;
  created_at = now.requested_at;
  reasoning_policy_id = policy_id policy;
}

abbrev pub new_invocation : String → Readings → CognitiveRequest → ModelInvocation
new_invocation binding_id now request = record {
  id = now.invocation_id;
  cognitive_request_id = request.id;
  model_binding = binding_id;
  started_at = now.started_at;
  completed_at = none;
  error_code = none;
}

-- `_begin_invocation`. No other connection writes between the two tests of staleness.
unfoldable pub begin_invocation :
    Host → Task → String → Readings → Call (ModelInvocation × ModelInput)
begin_invocation host task binding_id now = do
  pure (raise_if (is_blank host binding_id) (value_error "adapter binding_id is required"))
  pure (
      raise_if (different_policies task.reasoning_policy task.reasoning_policy_id)
        (value_error "reasoning_policy and reasoning_policy_id refer to different policies"))
  policy ← choose_policy host now.registered_at task.reasoning_policy task.reasoning_policy_id
  request ← pure (check_cognitive_request host (new_cognitive_request task now policy))
  write (λ db. create_cognitive_request host request db db)
  row ← reading (λ db.
      or_raise (projection_by_id db.context_projections task.context_projection_id)
        (runtime_error "persisted context projection disappeared"))
  input ← reading (materialize_input host request row.projection)
  invocation ← pure (check_invocation host (new_invocation binding_id now request))
  write (start_model_invocation invocation)
  pure (ok (invocation, input))

abbrev pub new_artifact : ModelInvocation → Readings → String → String → GeneratedArtifact
new_artifact invocation now kind content = record {
  id = now.artifact_id;
  invocation_id = invocation.id;
  artifact_kind = kind;
  content = content;
  created_at = now.created_at;
}

-- `_complete_artifact`
unfoldable pub complete_artifact :
    Host → Readings → ModelInvocation → String → String → Bool → Call GeneratedArtifact
complete_artifact host now invocation kind content allow_context_need = do
  pure (
      raise_if (kind == context_need_kind && not allow_context_need)
        (value_error "context-need:v1 artifact is reserved for typed ContextNeedProposal outcomes"))
  artifact ← pure (check_artifact host (new_artifact invocation now kind content))
  ended ← transaction (complete_model_invocation invocation.id artifact now.completed_at)
  pure (ok artifact)

abbrev pub is_open : Option ModelInvocation → Bool
is_open none = false
is_open (some i) = not (is_some i.completed_at)

abbrev pub adapter_error : Exception → String
adapter_error e = append "adapter-error:" (type_name e)

abbrev pub fail_if : Bool → Host → ℕ → DateTime → String → Call (Unit {0})
fail_if true host id failed_at code = do
  ended ← transaction (fail_model_invocation host id failed_at code)
  pure (ok tt)
fail_if false host id failed_at code = pure (ok tt)

-- `_fail_open_invocation`
unfoldable pub fail_open_invocation :
    Host → Readings → ModelInvocation → Exception → Call (Unit {0})
fail_open_invocation host now invocation e = do
  current ← reading (read_invocation host invocation.id)
  fail_if (is_open current) host invocation.id now.failed_at (adapter_error e)

-- `_validated_model_response`
unfoldable pub validated_model_response : Host → Answer → Outcome ModelResponse
validated_model_response host (response r) = check_response host r
validated_model_response host _ = err (type_error "model adapter must return ModelResponse")

-- The body of the `try` of `invoke`.
unfoldable pub terminal_answer :
    Host → Readings → Adapter → ModelInvocation → ModelInput → Call GeneratedArtifact
terminal_answer host now adapter invocation input = do
  answer ← adapter.answer input
  r ← pure (validated_model_response host answer)
  complete_artifact host now invocation r.artifact_kind r.content false

unfoldable pub invoke : Host → Task → Adapter → Readings → Call GeneratedArtifact
invoke host task adapter now = do
  begun ← begin_invocation host task adapter.binding_id now
  try_or (terminal_answer host now adapter begun.0 begun.1) (fail_open_invocation host now begun.0)

-- What `invoke_step` makes of an answer.
unfoldable pub step_of : Host → Readings → ModelInvocation → Answer → Call CognitiveStepResult
step_of host now invocation (response r) = do
  terminal ← pure (check_response host r)
  artifact ← complete_artifact host now invocation terminal.artifact_kind terminal.content false
  pure (
      check_step_result host
        (record { status = completed; artifact = artifact; context_need = none }))
step_of host now invocation (proposal need) = do
  content ← pure (serialize host need)
  normalized ← pure (deserialize host content)
  artifact ← complete_artifact host now invocation context_need_kind content true
  pure (
      check_step_result host
        (record { status = needs_context; artifact = artifact; context_need = some normalized }))
step_of host now invocation other_object =
    pure (err (type_error "step model adapter must return ModelResponse or ContextNeedProposal"))

-- The body of the `try` of `invoke_step`.
unfoldable pub step_answer :
    Host → Readings → Adapter → ModelInvocation → ModelInput → Call CognitiveStepResult
step_answer host now adapter invocation input = do
  answer ← adapter.answer input
  step_of host now invocation answer

unfoldable pub invoke_step : Host → Task → Adapter → Readings → Call CognitiveStepResult
invoke_step host task adapter now = do
  begun ← begin_invocation host task adapter.binding_id now
  try_or (step_answer host now adapter begun.0 begun.1) (fail_open_invocation host now begun.0)
