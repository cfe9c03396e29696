-- ===== src/Store/Lifecycle/Replay.antt =====
-- The lifecycle column after any history of the store's transactions.
use sarmady.Prelude.{
  ℕ, ◌≡◌, refl, String, true, not, some, List, [], ◌∷◌, ◌==◌, ◌||◌, elem, nat_eq, string_eq,
}
use sarmady.Outcome.{Outcome, ok, err, canonical_integrity, not-false, >>=-eq-ok, raise_if-eq-ok}
use sarmady.Memory.{MemoryEntry, active, check_event}
use sarmady.Memory.State.{next_memory_state}
use sarmady.Store
use sarmady.Store.{Db, empty_db, memory_by_id}
use sarmady.Store.Memory.{
  as_value_error, is_created, record_memory_event, memory_lifecycle_events, event_rows,
  replayed_lifecycle,
}
use sarmady.Store.Identity.{register_agent, insert_agent, insert_agent-eq-ok}
use sarmady.Store.Epistemic.Checks.{Bundle, is_active, reconstruct, validate_bundle}
use sarmady.Store.Epistemic.{commit_claim_bundle}
use sarmady.Store.History.{
  Operation, commit, memory_event, admit_agent, operate, write_transaction, run, settle-keeps,
}
use sarmady.Store.Lifecycle.{LifecyclesAgree, Unmoved-trans, Unmoved-same, Unmoved-LifecyclesAgree}
use sarmady.Store.Lifecycle.Writes.{record_memory_event_in_tx-Recorded}
use sarmady.Store.Lifecycle.Agreement.{Recorded-LifecyclesAgree}
use sarmady.Store.Lifecycle.Admission.{
  Unmoved-log, Unmoved-ok, is_active-eq, write_bundle-LifecyclesAgree,
}

validate_bundle-active :
    (b : Bundle) {u : Unit {0}} → validate_bundle b ≡ ok u → b.memory.lifecycle ≡ active
unfolding validate_bundle
validate_bundle-active b h =
    let (_, h1) = raise_if-eq-ok (not (b.evidence.event_id == b.event.id)) _ _ h in
    let (_, h2) = raise_if-eq-ok (not (elem b.evidence.id b.claim.evidence_refs)) _ _ h1 in
    let (_, h3) =
      raise_if-eq-ok
        (not (b.memory.target_type == "Claim") || not (b.memory.target_id == b.claim.id)) _ _ h2 in
    let (begins, _) = raise_if-eq-ok (not (is_active b.memory.lifecycle)) _ _ h3 in
    is_active-eq b.memory.lifecycle (not-false (is_active b.memory.lifecycle) begins)

as_value_error-ok : {A : Type 0} (m : Outcome A) {a : A} → as_value_error m ≡ ok a → m ≡ ok a
as_value_error-ok (ok a) h = h
as_value_error-ok (err (canonical_integrity message)) h = cc
as_value_error-ok (err _) h = cc

-- Every transaction that writes to the log keeps the agreement.
operate-LifecyclesAgree :
    (uuid_text : ℕ → String) (op : Operation) (db db' : Db)
    → LifecyclesAgree db
    → operate uuid_text op db ≡ ok db'
    → LifecyclesAgree db'
unfolding operate commit_claim_bundle record_memory_event register_agent
operate-LifecyclesAgree uuid_text (commit event_id b) db db' g h =
    let (b', _, h1) = >>=-eq-ok (reconstruct b) _ h in
    let (_, valid, h2) = >>=-eq-ok (validate_bundle b') _ h1 in
    write_bundle-LifecyclesAgree uuid_text event_id b' db db' g (validate_bundle-active b' valid) h2
operate-LifecyclesAgree uuid_text (memory_event e) db db' g h =
    let (_, h1) = raise_if-eq-ok (is_created e.event_kind) _ _ h in
    let (e', _, h2) = >>=-eq-ok (check_event e) _ h1 in
    let (m, after, found, next, w) =
      record_memory_event_in_tx-Recorded uuid_text e' true db db' h2 in
    Recorded-LifecyclesAgree e' m after db db' g found
      (as_value_error-ok (next_memory_state m.lifecycle e'.event_kind) next) w
operate-LifecyclesAgree uuid_text (admit_agent a) db db' g h =
    let (mid, inserted, noted) = >>=-eq-ok (insert_agent a db) _ h in
    let (_, e) = insert_agent-eq-ok a db inserted in
    Unmoved-LifecyclesAgree
      (Unmoved-trans (Unmoved-ok e (Unmoved-same refl refl refl))
        (Unmoved-log Store.agent a.id a.created_at mid refl noted))
      g

pub empty_db-LifecyclesAgree : LifecyclesAgree empty_db
unfolding event_rows
empty_db-LifecyclesAgree = record {
  replayed = λ id m found. cc;
  distinct = tt;
  known = λ id absent. refl;
}

pub run-LifecyclesAgree :
    (uuid_text : ℕ → String) (ops : List Operation) (db : Db)
    → LifecyclesAgree db
    → LifecyclesAgree (run uuid_text ops db)
unfolding run write_transaction
run-LifecyclesAgree uuid_text [] db g = g
run-LifecyclesAgree uuid_text (op ∷ ops) db g = run-LifecyclesAgree uuid_text ops _ (
    settle-keeps LifecyclesAgree (operate uuid_text op db) db g
      (λ db' e. operate-LifecyclesAgree uuid_text op db db' g e))

-- After any sequence of commits, memory events and registrations of agents on an empty store, failed
-- ones rolled back, the lifecycle column of every memory entry is what its events, in the order of
-- the log, replay to from the CREATED event on, and the replay does not raise.
pub replayed_lifecycle-run :
    (uuid_text : ℕ → String) (ops : List Operation) (id : ℕ) (m : MemoryEntry)
    → memory_by_id (run uuid_text ops empty_db).memory_entries id ≡ some m
    → replayed_lifecycle (memory_lifecycle_events (run uuid_text ops empty_db) id) ≡ ok m.lifecycle
replayed_lifecycle-run uuid_text ops id m found =
    (run-LifecyclesAgree uuid_text ops empty_db empty_db-LifecyclesAgree).replayed id m found
