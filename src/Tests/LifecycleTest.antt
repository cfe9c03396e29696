-- ===== src/Tests/LifecycleTest.antt =====
-- The sample history: its archived entry, the rebuild of its lifecycle column, and its growth.
use sarmady.Prelude.{◌≡◌, refl, none, some, length, take}
use sarmady.Outcome.{ok}
use sarmady.Memory.{MemoryEntry, archived}
use sarmady.Store.{empty_db, memory_by_id}
use sarmady.Store.Memory.{
  memory_lifecycle_events, replayed_lifecycle, rebuild_memory_lifecycle_states,
}
use sarmady.Store.History.{run}
use sarmady.Store.Lifecycle.Replay.{replayed_lifecycle-run}
use sarmady.Store.Lifecycle.Rebuild.{rebuild_memory_lifecycle_states-run}
use sarmady.Store.AppendOnly.{Appended}
use sarmady.Store.AppendOnly.History.{run-Appended}
use sarmady.Tests.Samples.{id_text, bundle, history}

abbrev entry : MemoryEntry
entry = record (bundle 2 "us" none).memory { lifecycle = archived }

stored_entry : memory_by_id (run id_text history empty_db).memory_entries 2 ≡ some entry
unfolding run sarmady.Store.Memory.record_memory_event sarmady.Memory.check_event
    sarmady.Time.require_aware sarmady.Store.Memory.record_memory_event_in_tx
    sarmady.Store.Epistemic.commit_claim_bundle sarmady.Store.Epistemic.Checks.reconstruct
    sarmady.Epistemic.check_event sarmady.Values.freeze_value sarmady.Epistemic.check_evidence
    sarmady.Epistemic.check_claim sarmady.Time.require_aware_if sarmady.Memory.check_entry
    sarmady.Store.Epistemic.Checks.validate_bundle sarmady.Store.Epistemic.write_bundle
    sarmady.Store.Epistemic.Checks.check_current sarmady.Store.Epistemic.Checks.current_claim
    sarmady.Store.ClaimHeads.lookup_head sarmady.Epistemic.check_relation
    sarmady.Memory.State.next_memory_state sarmady.Store.ClaimHeads.upsert_head
    sarmady.Store.Epistemic.Checks.check_evidence_ref
    sarmady.Store.Epistemic.Checks.check_evidence_refs
    sarmady.Store.Epistemic.Inserts.commit_relation sarmady.Store.Epistemic.Inserts.insert_claim
    sarmady.Store.Epistemic.Inserts.insert_event sarmady.Store.Epistemic.Inserts.insert_evidence
    sarmady.Store.Epistemic.Inserts.insert_memory_entry
    sarmady.Store.Epistemic.Inserts.insert_relation sarmady.Store.Epistemic.Inserts.move_head
    sarmady.Store.History.operate sarmady.Store.History.settle
    sarmady.Store.History.write_transaction sarmady.Store.Identity.insert_agent
    sarmady.Store.Identity.register_agent sarmady.Store.Memory.apply_state
    sarmady.Store.Memory.insert_memory_event sarmady.Store.frontier
    sarmady.Store.invalidate_projection_dependencies sarmady.Store.log
stored_entry = refl

replayed_lifecycle-run_example :
    replayed_lifecycle (memory_lifecycle_events (run id_text history empty_db) 2) ≡ ok archived
replayed_lifecycle-run_example = replayed_lifecycle-run id_text history 2 entry stored_entry

rebuild_memory_lifecycle_states-run_example :
    rebuild_memory_lifecycle_states (run id_text history empty_db)
    ≡ ok (run id_text history empty_db, length (run id_text history empty_db).memory_entries)
rebuild_memory_lifecycle_states-run_example = rebuild_memory_lifecycle_states-run id_text history

-- The first two commits, then the whole history: those two raise, the other operations write.
run-Appended_example :
    Appended
      (run id_text (take 2 history) empty_db)
      (run id_text history (run id_text (take 2 history) empty_db))
run-Appended_example = run-Appended id_text history (run id_text (take 2 history) empty_db)
