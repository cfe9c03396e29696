-- ===== src/Runtime/Returns.antt =====
-- What `invoke_step` of src/sarmady/runtime/model.py returns and stores for an answer that is a
-- context need.
use sarmady.Prelude.{
  String, ◌≡◌, refl, true, false, none, some, arith, nat_eq, string_eq, list_eq, eq_self,
}
use sarmady.Outcome.{ok}
use sarmady.Time.{
  DateTime, before, is_aware, NotBefore, NotBefore-require_comparable, same_awareness_trans,
}
use sarmady.Host.{Host}
use sarmady.Context.{is_blank}
use sarmady.Cognition.{
  ModelInvocation, GeneratedArtifact, ContextNeedProposal, check_artifact, check_proposal,
  context_need_kind,
}
use sarmady.Cognition.ContextNeed.{payload, serialize, deserialize, deserialize-serialize}
use sarmady.Store.{Db}
use sarmady.Store.Cognitive.{
  invocation_by_id, artifact_by_id, insert_artifact, complete_model_invocation,
}
use sarmady.Store.Cognitive.Invocations.{with_artifact, completed}
use sarmady.Runtime.{
  ModelInput, proposal, check_step_result, CognitiveStepResult, needs_context, same_proposal,
  context_need_from_artifact,
}
use sarmady.Runtime.Invocation.{
  Task, Readings, Adapter, begin_invocation, complete_artifact, new_artifact, step_of, step_answer,
  invoke_step,
}
use sarmady.Runtime.Begun.{begin_invocation-Begun}
use sarmady.Runtime.Tracked.{open_invocation-open}

later :
    (start middle stop : DateTime)
    → NotBefore middle start
    → NotBefore stop middle
    → NotBefore stop start
later start middle stop (known, after) (known', after') =
    (same_awareness_trans stop.offset middle.offset start.offset known' known, ground arith)

complete-returns :
    (i : ModelInvocation) (a : GeneratedArtifact) (t : DateTime) (db : Db)
    → a.invocation_id ≡ i.id
    → invocation_by_id db.model_invocations i.id ≡ some i
    → i.completed_at ≡ none
    → NotBefore a.created_at i.started_at
    → NotBefore t a.created_at
    → artifact_by_id db.generated_artifacts a.id ≡ none
    → complete_model_invocation i.id a t db ≡ ok (with_artifact i.id a t db, completed t i)
unfolding complete_model_invocation insert_artifact
complete-returns i a t db of row running started ended fresh =
    let opened =
      open_invocation-open i.id t db i row running
        (later i.started_at a.created_at t started ended) in
    let known = NotBefore-require_comparable a.created_at i.started_at started in
    rw (of, eq_self i.id, opened, known, started.1, ended.1, fresh) refl

module _ (host : Host) (now : Readings) (i : ModelInvocation) (content : String) (db : Db)
    (row : invocation_by_id db.model_invocations i.id ≡ some i) (running : i.completed_at ≡ none)
    (began : i.started_at ≡ now.started_at) (given : is_blank host context_need_kind ≡ false)
    (aware : is_aware now.created_at ≡ true) (started : NotBefore now.created_at now.started_at)
    (ended : NotBefore now.completed_at now.created_at)
    (fresh : artifact_by_id db.generated_artifacts now.artifact_id ≡ none) where
  abbrev made : GeneratedArtifact
  made = new_artifact i now context_need_kind content

  complete_artifact-returns :
      complete_artifact host now i context_need_kind content true db
      ≡ (with_artifact i.id made now.completed_at db, ok made)
  unfolding complete_artifact check_artifact sarmady.Time.require_aware
  complete_artifact-returns =
      let stored =
        complete-returns i made now.completed_at db refl row running (rw began started) ended
          fresh in
      rw (given, aware, stored) refl

same_proposal_self : (p : ContextNeedProposal) → same_proposal p p ≡ true
same_proposal_self p = rw (eq_self p.query, eq_self p.reason, eq_self p.coverage_requirements) refl

abbrev pub needing : GeneratedArtifact → ContextNeedProposal → CognitiveStepResult
needing artifact need = record {
  status = needs_context;
  artifact = artifact;
  context_need = some need;
}

check_step_result-needing :
    (host : Host) (artifact : GeneratedArtifact) (need : ContextNeedProposal)
    → artifact.artifact_kind ≡ context_need_kind
    → deserialize host artifact.content ≡ ok need
    → check_step_result host (needing artifact need) ≡ ok (needing artifact need)
unfolding check_step_result
check_step_result-needing host artifact need kind read =
    rw (kind, read, same_proposal_self need) refl

-- An accepted context need comes back from `invoke_step` as it was given. Let the invocation have
-- begun, and the adapter answer a proposal that its constructor accepts, and leave the row of the
-- invocation; let JSON text read back as it was written, the artifact's identifier be new, its kind
-- not blank and its time aware, and the readings of the clock compare and not run backwards. Then
-- the step needs context, its need is the proposal, the invocation is completed, the artifact is
-- stored beside what was there, and the proposal is read back from it.
pub invoke_step-needs :
    (host : Host) (task : Task) (adapter : Adapter) (now : Readings) (db db1 db2 : Db)
    (i : ModelInvocation) (input : ModelInput) (need : ContextNeedProposal)
    → begin_invocation host task adapter.binding_id now db ≡ (db1, ok (i, input))
    → adapter.answer input db1 ≡ (db2, ok (proposal need))
    → invocation_by_id db2.model_invocations i.id ≡ some i
    → check_proposal host need ≡ ok need
    → host.json_loads (host.json_dumps (payload need)) ≡ some (payload need)
    → is_blank host context_need_kind ≡ false
    → is_aware now.created_at ≡ true
    → NotBefore now.created_at now.started_at
    → NotBefore now.completed_at now.created_at
    → artifact_by_id db2.generated_artifacts now.artifact_id ≡ none
    → (artifact : GeneratedArtifact) × (invoke_step host task adapter now db
        ≡ (with_artifact i.id artifact now.completed_at db2, ok (needing artifact need)))
      × (context_need_from_artifact host artifact ≡ ok need)
unfolding invoke_step step_answer step_of serialize context_need_from_artifact
invoke_step-needs host task adapter now db db1 db2 i input need begun answered row checked law given
      aware started ended fresh =
    let (_, _, running, began) =
      begin_invocation-Begun host task adapter.binding_id now db db1 i input begun in
    let content = host.json_dumps (payload need) in
    let read = deserialize-serialize host need content law (rw checked refl) in
    let artifact = new_artifact i now context_need_kind content in
    (
      artifact,
      rw
          (
            begun,
            answered,
            checked,
            read,
            complete_artifact-returns host now i content db2 row running began given aware started
                ended fresh,
            check_step_result-needing host artifact need refl read,
          )
          refl,
      rw read refl,
    )
