-- ===== src/Runtime/Input.antt =====
-- `_materialize_input` of src/sarmady/runtime/model.py: the payloads of the claims and the evidence
-- that a projection names.
use sarmady.Prelude.{ℕ, String, Option, none, some, List, [], ◌∷◌, ◌==◌, string_eq, if◌then◌else◌}
use sarmady.Outcome.{Outcome, ok, err, runtime_error, or_raise, ◌>>=◌}
use sarmady.Time.{DateTime}
use sarmady.Values.{Value, null, str, mapping, end, field, text, thaw_value}
use sarmady.Host.{Host}
use sarmady.Epistemic.{Claim, Evidence}
use sarmady.Context.{ContextItem, ContextProjection}
use sarmady.Cognition.{CognitiveRequest, ModelInvocation, ReasoningPolicy, check_invocation}
use sarmady.Cognition.Reasoning.{fingerprint}
use sarmady.Store.{Db, claim_by_id, evidence_by_id}
use sarmady.Store.Cognitive.{invocation_by_id}
use sarmady.Store.Reasoning.{reasoning_policy}
use sarmady.Runtime.{ModelContextItem, ModelInput, check_model_input}

abbrev pub time_value : Host → Option DateTime → Value
time_value host none = null
time_value host (some t) = str (host.isoformat t)

abbrev pub text_value : Option String → Value
text_value none = null
text_value (some s) = str s

abbrev pub claim_payload : Host → Claim → Value → Value
claim_payload host c value = mapping (
    field (text "subject") (str c.subject) (
      field (text "predicate") (str c.predicate) (
        field (text "value") value (
          field (text "recorded_at") (str (host.isoformat c.recorded_at)) (
            field (text "valid_from") (time_value host c.valid_from)
              (field (text "valid_to") (time_value host c.valid_to) end))))))

abbrev pub evidence_payload : Host → Evidence → Value
evidence_payload host e = mapping (
    field (text "source_ref") (str e.source_ref) (
      field (text "captured_at") (str (host.isoformat e.captured_at))
        (field (text "digest") (text_value e.digest) end)))

abbrev pub read_claim : Host → Db → ℕ → Outcome Value
read_claim host db id = do
  c ← or_raise (claim_by_id db.claims id) (runtime_error "projection references missing claim")
  value ← thaw_value c.value
  ok (claim_payload host c value)

abbrev pub read_evidence : Host → Db → ℕ → Outcome Value
read_evidence host db id = do
  e ←
      or_raise (evidence_by_id db.evidence id)
        (runtime_error "projection references missing evidence")
  ok (evidence_payload host e)

unfoldable pub item_payload : Host → Db → ContextItem → Outcome Value
item_payload host db i =
    if i.ref_type == "Claim"
    then read_claim host db i.ref_id
    else if i.ref_type == "Evidence"
    then read_evidence host db i.ref_id
    else err (runtime_error "unsupported context item type for model input")

abbrev pub model_item : ContextItem → Value → ModelContextItem
model_item i payload = record {
  ref_type = i.ref_type;
  ref_id = i.ref_id;
  role = i.role;
  payload = payload;
  provenance_refs = i.provenance_refs;
}

unfoldable pub materialize_items : Host → Db → List ContextItem → Outcome (List ModelContextItem)
materialize_items host db [] = ok []
materialize_items host db (i ∷ is) = do
  payload ← item_payload host db i
  rest ← materialize_items host db is
  ok (model_item i payload ∷ rest)

abbrev pub request_policy : Host → Db → Option String → Outcome (Option ReasoningPolicy)
request_policy host db none = ok none
request_policy host db (some id) = do
  found ← reasoning_policy host db id
  policy ← or_raise found (runtime_error "cognitive request references missing reasoning policy")
  ok (some policy)

abbrev pub policy_id : Option ReasoningPolicy → Option String
policy_id none = none
policy_id (some p) = some p.id

abbrev pub policy_fingerprint : Host → Option ReasoningPolicy → Option String
policy_fingerprint host none = none
policy_fingerprint host (some p) = some (fingerprint host p)

abbrev pub model_input :
    Host
    → CognitiveRequest
    → ContextProjection
    → Option ReasoningPolicy
    → List ModelContextItem
    → ModelInput
model_input host request projection policy items = record {
  agent_id = request.agent_id;
  cognitive_request_id = request.id;
  context_projection_id = projection.id;
  snapshot_id = projection.snapshot_id;
  operation = request.operation;
  reasoning_policy_id = policy_id policy;
  reasoning_policy_fingerprint = policy_fingerprint host policy;
  reasoning_policy = policy;
  items = items;
  conflict_refs = projection.conflict_refs;
  coverage_status = projection.coverage_status;
  unresolved_gaps = projection.unresolved_gaps;
  omitted_refs = projection.omitted_refs;
}

unfoldable pub materialize_input :
    Host → CognitiveRequest → ContextProjection → Db → Outcome ModelInput
materialize_input host request projection db = do
  policy ← request_policy host db request.reasoning_policy_id
  items ← materialize_items host db projection.items
  check_model_input host (model_input host request projection policy items)

abbrev pub read_if : Host → Option ModelInvocation → Outcome (Option ModelInvocation)
read_if host none = ok none
read_if host (some i) = do i' ← check_invocation host i; ok (some i')

-- `invocation` of the store
unfoldable pub read_invocation : Host → ℕ → Db → Outcome (Option ModelInvocation)
read_invocation host id db = read_if host (invocation_by_id db.model_invocations id)
