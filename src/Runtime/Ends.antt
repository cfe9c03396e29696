-- ===== src/Runtime/Ends.antt =====
-- How an invocation that `CognitiveRuntime` of src/sarmady/runtime/model.py began ends, whatever its
-- adapter answers.
use mathlib.Core.Path.{subst}
use sarmady.Prelude.{◌≡◌, refl, true, false, none, some, inl, nat_eq, string_eq}
use sarmady.Outcome.{Exception, Outcome, ok, err}
use sarmady.Time.{NotBefore}
use sarmady.Host.{Host}
use sarmady.Context.{is_blank}
use sarmady.Cognition.{ModelInvocation, context_need_kind}
use sarmady.Cognition.ContextNeed.{serialize, deserialize}
use sarmady.Store.{Db}
use sarmady.Store.Cognitive.{invocation_by_id, finished}
use sarmady.Runtime.{
  ModelInput, Answer, response, proposal, other_object, check_response, check_step_result,
  completed, needs_context,
}
use sarmady.Runtime.Calls.{Call, continue, rescue}
use sarmady.Runtime.Invocation.{
  Task, Readings, Adapter, begin_invocation, complete_artifact, adapter_error, fail_open_invocation,
  validated_model_response, terminal_answer, invoke, step_of, step_answer, invoke_step,
}
use sarmady.Runtime.Begun.{begin_invocation-Begun}
-- The row of the invocation is terminal.
use sarmady.Runtime.Tracked.{
  Ended, Tracked, Tracked-pure, Tracked-checked, complete_artifact-Tracked,
  fail_open_invocation-open, rescue-Ended,
}

module _ (host : Host) (now : Readings) (i : ModelInvocation) where
  step_of-Tracked :
      (a : Answer) (db : Db)
      → invocation_by_id db.model_invocations i.id ≡ some i
      → Tracked i (step_of host now i a db)
  unfolding step_of
  step_of-Tracked (response r) db row = Tracked-pure i (check_response host r) _ db row (λ terminal.
      Tracked-checked i
        (complete_artifact host now i terminal.artifact_kind terminal.content false db)
        (λ artifact.
          check_step_result host
            (record { status = completed; artifact = artifact; context_need = none }))
        (complete_artifact-Tracked host now i terminal.artifact_kind terminal.content false db row))
  step_of-Tracked (proposal need) db row = Tracked-pure i (serialize host need) _ db row (λ content.
      Tracked-pure i (deserialize host content) _ db row (λ normalized.
        Tracked-checked i (complete_artifact host now i context_need_kind content true db)
          (λ artifact. check_step_result host (record {
            status = needs_context;
            artifact = artifact;
            context_need = some normalized;
          }))
          (complete_artifact-Tracked host now i context_need_kind content true db row)))
  step_of-Tracked other_object db row = inl row

  answered-Tracked :
      {A : Type 0} (x : Db × Outcome Answer) (k : Answer → Call A)
      → invocation_by_id x.0.model_invocations i.id ≡ some i
      → ((a : Answer) (db : Db)
          → invocation_by_id db.model_invocations i.id ≡ some i
          → Tracked i (k a db))
      → Tracked i (continue x k)
  answered-Tracked (db, ok a) k row h = h a db row
  answered-Tracked (db, err e) k row h = inl row

module _ (host : Host) (task : Task) (adapter : Adapter) (now : Readings) (db db1 : Db)
    (i : ModelInvocation) (input : ModelInput)
    (begun : begin_invocation host task adapter.binding_id now db ≡ (db1, ok (i, input)))
    (untouched : invocation_by_id (adapter.answer input db1).0.model_invocations i.id ≡ some i)
    (ordered : NotBefore now.failed_at now.started_at)
    (named : (e : Exception) → is_blank host (adapter_error e) ≡ false) where
  rescued-Ended :
      {A : Type 0} (x : Db × Outcome A)
      → Tracked i x
      → Ended i.id (rescue x (fail_open_invocation host now i)).0
  rescued-Ended =
      let (row, checked, running, began) =
        begin_invocation-Begun host task adapter.binding_id now db db1 i input begun in
      rescue-Ended host now i checked running began ordered named

  -- Once `invoke_step` has begun its invocation, the row of the invocation is completed or failed
  -- when the call is over, whatever the adapter returns or raises and whether or not its answer is
  -- accepted. The adapter may write to the store, but not to that row; the clock's reading at a
  -- failure compares with the start and is not before it, and the name of an exception does not make a blank text.
  pub invoke_step-Ended : Ended i.id (invoke_step host task adapter now db).0
  unfolding invoke_step step_answer
  invoke_step-Ended = rw begun (
      rescued-Ended (continue (adapter.answer input db1) (step_of host now i)) (
        answered-Tracked host now i (adapter.answer input db1) (step_of host now i) untouched
          (step_of-Tracked host now i)))

  -- Once `invoke` has begun its invocation, the row of the invocation is completed or failed when the
  -- call is over, whatever the adapter returns or raises. The adapter may write to the store, but not to that
  -- row; the clock's reading at a failure compares with the start and is not before it, and the name
  -- of an exception does not make a blank text.
  pub invoke-Ended : Ended i.id (invoke host task adapter now db).0
  unfolding invoke terminal_answer
  invoke-Ended = rw begun (
      rescued-Ended _ (
        answered-Tracked host now i (adapter.answer input db1) _ untouched (λ a d row.
          Tracked-pure i (validated_model_response host a) _ d row
            (λ r. complete_artifact-Tracked host now i r.artifact_kind r.content false d row))))

  -- When the invocation has begun and the adapter then raises, `invoke_step` raises the same
  -- exception, and has failed the invocation at the clock's reading with the code of that exception;
  -- nothing else of the store that the adapter left is changed. The adapter leaves the row of the
  -- invocation as it is, the clock's reading at a failure compares with the start and is not before
  -- it, and the name of an exception does not make a blank text.
  pub invoke_step-raises :
      (e : Exception) (db2 : Db)
      → adapter.answer input db1 ≡ (db2, err e)
      → invoke_step host task adapter now db
        ≡ (finished i.id now.failed_at (some (adapter_error e)) db2, err e)
  unfolding invoke_step step_answer
  invoke_step-raises e db2 raised =
      let (row, checked, running, began) =
        begin_invocation-Begun host task adapter.binding_id now db db1 i input begun in
      let row2 =
        subst (λ (x : Db × Outcome Answer). invocation_by_id x.0.model_invocations i.id ≡ some i)
          raised untouched in
      rw (begun, raised)
        (rw (fail_open_invocation-open host now i checked running began ordered named e db2 row2)
          refl)
