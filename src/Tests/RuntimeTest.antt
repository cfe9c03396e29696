-- ===== src/Tests/RuntimeTest.antt =====
-- Steps of the runtime at one store, with an adapter that asks for context and one that raises.
use Prim.Native.String.{count}
use text.Mathlib.TextLemmas.{length-append}
use sarmady.Prelude.{ap, arith, test-ne, string_eq, ◌≡◌, refl, false, none, some, [], ◌∷◌, nat_eq}
use sarmady.Outcome.{ok, err, Exception, other_error}
use sarmady.Cognition.{CognitiveRequest, GeneratedArtifact}
use sarmady.Context.{is_blank}
use sarmady.Store.{Db}
use sarmady.Store.Cognitive.{finished}
use sarmady.Store.Cognitive.Invocations.{with_artifact}
use sarmady.Runtime.{ModelInput, type_name, proposal, response, context_need_from_artifact}
use sarmady.Runtime.Input.{model_input}
use sarmady.Runtime.Invocation.{
  Task, Readings, Adapter, begin_invocation, adapter_error, invoke, invoke_step,
}
use sarmady.Runtime.Tracked.{Ended}
use sarmady.Runtime.Ends.{invoke_step-Ended, invoke-Ended, invoke_step-raises}
use sarmady.Runtime.Returns.{needing, invoke_step-needs}
use sarmady.Tests.Samples.{at}
use sarmady.Tests.Workspace
use sarmady.Tests.Workspace.{host, projection, open_db, invocation}

abbrev idle_db : Db
idle_db = record open_db {
  agents = record { id = 1; name = "agent"; created_at = at 1 } ∷ [];
  cognitive_requests = [];
  model_invocations = [];
}

abbrev task : Task
task = record {
  agent_id = 1;
  context_projection_id = 2;
  operation = "answer";
  reasoning_policy = none;
  reasoning_policy_id = none;
}

abbrev now : Readings
now = record {
  registered_at = at 8;
  requested_at = at 9;
  started_at = at 10;
  created_at = at 11;
  completed_at = at 12;
  failed_at = at 13;
  request_id = 3;
  invocation_id = 4;
  artifact_id = 5;
}

abbrev asked : CognitiveRequest
asked = record {
  id = 3;
  agent_id = 1;
  context_projection_id = 2;
  operation = "answer";
  created_at = at 9;
  reasoning_policy_id = none;
}

abbrev begun_db : Db
begun_db = record idle_db { cognitive_requests = asked ∷ []; model_invocations = invocation ∷ [] }

abbrev input : ModelInput
input = model_input host asked projection none []

abbrev asking : Adapter
asking = record { binding_id = "model"; answer = λ i db. (db, ok (proposal Workspace.proposal)) }

abbrev answering : Adapter
answering = record {
  binding_id = "model";
  answer = λ i db. (db, ok (response (record { artifact_kind = "answer"; content = "here" })));
}

abbrev raising : Adapter
raising = record {
  binding_id = "model";
  answer = λ i db. (db, err (other_error "TimeoutError" "late"));
}

begun : begin_invocation host task "model" now idle_db ≡ (begun_db, ok (invocation, input))
unfolding begin_invocation sarmady.Runtime.Invocation.choose_policy
    sarmady.Cognition.check_cognitive_request sarmady.Time.require_aware
    sarmady.Store.Cognitive.create_cognitive_request sarmady.Store.Cognitive.projection_is_stale
    sarmady.Store.Cognitive.insert_cognitive_request sarmady.Runtime.Input.materialize_input
    sarmady.Runtime.Input.materialize_items sarmady.Runtime.check_model_input
    sarmady.Cognition.check_invocation sarmady.Store.Cognitive.require_policy
    sarmady.Time.require_aware_if sarmady.Store.Cognitive.start_model_invocation
    sarmady.Store.Cognitive.insert_invocation
begun = refl

checked : sarmady.Cognition.check_proposal host Workspace.proposal ≡ ok Workspace.proposal
unfolding sarmady.Cognition.check_proposal
checked = refl

named : (e : Exception) → is_blank host (adapter_error e) ≡ false
named e =
    test-ne (adapter_error e) ""
      (λ h. omega (arith, ap count h, length-append "adapter-error:" (type_name e)))

invoke_step-Ended_example : Ended 4 (invoke_step host task answering now idle_db).0
invoke_step-Ended_example =
    invoke_step-Ended host task answering now idle_db begun_db invocation input begun refl
      (refl, refl) named

invoke-Ended_example : Ended 4 (invoke host task asking now idle_db).0
invoke-Ended_example =
    invoke-Ended host task asking now idle_db begun_db invocation input begun refl (refl, refl)
      named

invoke_step-raises_example : invoke_step host task raising now idle_db ≡ (
  finished 4 (at 13) (some "adapter-error:TimeoutError") begun_db,
  err (other_error "TimeoutError" "late"),
)
invoke_step-raises_example =
    invoke_step-raises host task raising now idle_db begun_db invocation input begun refl
      (refl, refl) named (other_error "TimeoutError" "late") begun_db refl

invoke_step-needs_example :
    (artifact : GeneratedArtifact) × (invoke_step host task asking now idle_db
      ≡ (with_artifact 4 artifact (at 12) begun_db, ok (needing artifact Workspace.proposal)))
    × (context_need_from_artifact host artifact ≡ ok Workspace.proposal)
invoke_step-needs_example =
    invoke_step-needs host task asking now idle_db begun_db begun_db invocation input
      Workspace.proposal begun refl refl checked refl refl refl (refl, refl) (refl, refl) refl
