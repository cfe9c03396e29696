-- ===== src/Store/Epistemic.antt =====
-- src/sarmady/storage/sqlite/epistemic_store.py
pub mod Checks
pub mod Inserts
pub mod Written
use sarmady.Prelude.{ℕ, String, Bool, false, Option, none, some, List, [], ◌∷◌, is_some}
use sarmady.Outcome.{Outcome, ok, ◌>>=◌, ◌>>◌}
use sarmady.Memory.{MemoryEntry, MemoryLifecycleEvent, created}
use sarmady.Epistemic.{Claim}
use sarmady.Store.{
  Db, event, evidence, claim, memory_entry, log, epistemic_dependency_key,
  invalidate_projection_dependencies,
}
use sarmady.Store.Memory.{record_memory_event_in_tx}
use Checks.{Bundle, reconstruct, validate_bundle, current_claim, check_current, check_evidence_refs}
use Inserts.{
  insert_event, insert_evidence, insert_claim, insert_memory_entry, commit_relation, moves_head,
  move_head,
}

abbrev pub creation_event : ℕ → MemoryEntry → MemoryLifecycleEvent
creation_event id m = record {
  id = id;
  memory_entry_id = m.id;
  event_kind = created;
  occurred_at = m.created_at;
  source = "memory-admission";
  reason = none;
}

-- The body of the write transaction; `event_id` is the identifier that `uuid4()` gives.
unfoldable pub write_bundle : (ℕ → String) → ℕ → Bundle → Db → Outcome Db
write_bundle uuid_text event_id b db = do
  let current = current_claim db b.claim.subject b.claim.predicate
  check_current current b.claim b.relation
  check_evidence_refs db b.claim b.evidence.id b.claim.evidence_refs
  db1 ← insert_event b.event db
  db2 ← log event b.event.id b.event.recorded_at db1
  db3 ← insert_evidence b.evidence db2
  db4 ← log evidence b.evidence.id b.event.recorded_at db3
  db5 ← insert_claim b.claim db4
  db6 ← log claim b.claim.id b.claim.recorded_at db5
  db7 ← commit_relation b.relation db6
  let db8 = move_head (moves_head current b.relation) b.claim db7
  db9 ← insert_memory_entry b.memory db8
  db10 ← log memory_entry b.memory.id b.memory.created_at db9
  db11 ← record_memory_event_in_tx uuid_text (creation_event event_id b.memory) false db10
  ok (
      invalidate_projection_dependencies
        (epistemic_dependency_key b.claim.subject b.claim.predicate) "epistemic-state-changed" db11)

-- `commit_claim_bundle`
unfoldable pub commit_claim_bundle : (ℕ → String) → ℕ → Bundle → Db → Outcome Db
commit_claim_bundle uuid_text event_id b db = do
  b' ← reconstruct b
  validate_bundle b'
  write_bundle uuid_text event_id b' db
