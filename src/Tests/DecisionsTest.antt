-- ===== src/Tests/DecisionsTest.antt =====
-- Decisions over a context need, and the ends of invocations, at one store.
use sarmady.Prelude.{pos, ◌≡◌, refl, false, none, some, [], ◌∷◌, nat_eq, is_some}
use sarmady.Outcome.{ok}
use sarmady.Time.{before}
use sarmady.Cognition.{ModelInvocation, ContextNeedDecision}
use sarmady.Cognition.ContextNeed.{serialize, deserialize, deserialize-serialize}
use sarmady.Store.{Db}
use sarmady.Store.Cognitive.{invocation_by_id, artifact_by_id, complete_model_invocation}
use sarmady.Store.Cognitive.Terminal.{
  start, complete, fail, attempts, attempts-Stored, complete_model_invocation_lem,
}
use sarmady.Store.Cognitive.Invocations.{completed, with_artifact}
use sarmady.Store.ContextNeed.{register_context_need_decision}
use sarmady.Store.ContextNeed.Bounds.{granted, Granted, register_context_need_decision-Granted}
use sarmady.Context.{duplicated}
use sarmady.Store.ContextNeed.Once.{decided, register_all, decided-register_all}
use sarmady.Fulfillment.{Verdict, ContextNeedLineage, load_lineage, accept}
use sarmady.Tests.Samples.{at}
use sarmady.Tests.Workspace.{
  proposal, host, request, child, invocation, artifact, open_db, finished_invocation, closed_db,
  decision,
}

register_decision :
    register_context_need_decision host decision (some child) closed_db
    ≡ ok (granted decision child closed_db)
unfolding register_context_need_decision sarmady.Cognition.check_decision sarmady.Time.require_aware
    sarmady.Context.check_request sarmady.Time.require_aware_if
    sarmady.Store.ContextNeed.write_decision sarmady.Store.ContextNeed.validate_context_need_lineage
    sarmady.Store.ContextNeed.read_context_need deserialize
    sarmady.Cognition.ContextNeed.read_payload sarmady.Cognition.check_proposal
    sarmady.Store.ContextNeed.follow_lineage sarmady.Store.ContextNeed.admit_child
    sarmady.Store.ContextNeed.validate_child_context_request
    sarmady.Store.ContextNeed.insert_new_context_request sarmady.Store.ContextNeed.insert_decision
register_decision = refl

register_context_need_decision-Granted_example :
    Granted host decision child closed_db (granted decision child closed_db)
register_context_need_decision-Granted_example =
    register_context_need_decision-Granted host decision child closed_db
      (granted decision child closed_db) register_decision

abbrev verdict : Verdict
verdict = record { id = 6; decided_at = at 13; reason = "needed"; decision_source = "operator" }

abbrev lineage : ContextNeedLineage
lineage = record {
  proposal = proposal;
  invocation_id = 4;
  cognitive_request_id = invocation.cognitive_request_id;
  projection_id = decision.parent_context_projection_id;
  parent_request = request;
}

accepted_decision :
    accept host 5 verdict (some (pos 40)) none 9 closed_db
    ≡ ok (granted decision child closed_db, decision, child)
unfolding accept sarmady.Fulfillment.load_lineage sarmady.Fulfillment.allocate_tokens
    sarmady.Fulfillment.allocate_latency register_context_need_decision
    sarmady.Cognition.check_decision sarmady.Time.require_aware sarmady.Context.check_request
    sarmady.Time.require_aware_if sarmady.Store.ContextNeed.write_decision
    sarmady.Store.ContextNeed.validate_context_need_lineage
    sarmady.Store.ContextNeed.read_context_need deserialize
    sarmady.Cognition.ContextNeed.read_payload sarmady.Cognition.check_proposal
    sarmady.Store.ContextNeed.follow_lineage sarmady.Store.ContextNeed.admit_child
    sarmady.Store.ContextNeed.validate_child_context_request
    sarmady.Store.ContextNeed.insert_new_context_request sarmady.Store.ContextNeed.insert_decision
accepted_decision = refl

-- A second end, a failure, and a start of another invocation.
attempts-Stored_example :
    invocation_by_id
      (attempts host
        (complete 4 artifact (at 14) ∷ fail 4 (at 15) "late" ∷ start invocation ∷ [])
        closed_db).model_invocations
      4
    ≡ some finished_invocation
attempts-Stored_example =
    attempts-Stored host 4 finished_invocation
      (complete 4 artifact (at 14) ∷ fail 4 (at 15) "late" ∷ start invocation ∷ []) closed_db refl
      refl

complete_open :
    complete_model_invocation 4 artifact (at 12) open_db
    ≡ ok (with_artifact 4 artifact (at 12) open_db, finished_invocation)
unfolding complete_model_invocation sarmady.Time.require_comparable
    sarmady.Store.Cognitive.open_invocation sarmady.Store.Cognitive.insert_artifact
complete_open = refl

complete_model_invocation_example :
    (i : ModelInvocation) × (invocation_by_id open_db.model_invocations 4 ≡ some i)
    × (is_some i.completed_at ≡ false)
    × (before artifact.created_at i.started_at ≡ false)
    × (before (at 12) artifact.created_at ≡ false)
    × (finished_invocation ≡ completed (at 12) i)
    × (invocation_by_id (with_artifact 4 artifact (at 12) open_db).model_invocations 4
        ≡ some finished_invocation)
    × (artifact_by_id open_db.generated_artifacts artifact.id ≡ none)
    × (artifact_by_id (with_artifact 4 artifact (at 12) open_db).generated_artifacts artifact.id
        ≡ some artifact)
complete_model_invocation_example =
    complete_model_invocation_lem 4 artifact (at 12) open_db
      (with_artifact 4 artifact (at 12) open_db) finished_invocation complete_open

serialized : serialize host proposal ≡ ok "json"
unfolding serialize sarmady.Cognition.check_proposal
serialized = refl

deserialize-serialize_example : deserialize host "json" ≡ ok proposal
deserialize-serialize_example = deserialize-serialize host proposal "json" refl serialized

-- The same decision twice.
decided-register_all_example :
    duplicated
      (decided (register_all host ((decision, some child) ∷ (decision, some child) ∷ []) closed_db))
    ≡ false
decided-register_all_example =
    decided-register_all host ((decision, some child) ∷ (decision, some child) ∷ []) closed_db refl
