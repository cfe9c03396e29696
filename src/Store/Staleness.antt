-- ===== src/Store/Staleness.antt =====
-- Which projections the writes of src/sarmady/storage/sqlite/epistemic_store.py and
-- memory_store.py leave stale.
use mathlib.Core.Path.{subst}
use sarmady.Prelude.{
  ℕ, String, ◌≡◌, sym, ap, ◌∙◌, Bool, true, false, some, List, [], ◌∷◌, ◌||◌, map, elem, string_eq,
  All, arith,
}
use sarmady.Outcome.{ok, raise_if, >>=-eq-ok, ok-inj, or_raise, value_error}
use sarmady.Epistemic.{Claim, check_claim, check_event, check_evidence}
use sarmady.Memory
use sarmady.Memory.{MemoryEntry, MemoryLifecycle, MemoryLifecycleEvent, check_entry}
use sarmady.Memory.State.{next_memory_state}
use sarmady.Store.{
  Db, ProjectionRow, make_stale, unproven_dependency, epistemic_dependency_key,
  memory_dependency_key, invalidate_projection_dependencies, event, evidence, claim, memory_entry,
  memory_lifecycle_event, log, frontier, memory_by_id,
}
use sarmady.Store.Epistemic.Checks.{
  Bundle, reconstruct, validate_bundle, check_relation_if, current_claim, check_current,
  check_evidence_refs,
}
use sarmady.Store.Epistemic.Inserts.{
  insert_event, insert_evidence, insert_claim, insert_memory_entry, commit_relation, moves_head,
  move_head,
}
use sarmady.Store.Epistemic.{creation_event, write_bundle, commit_claim_bundle}
use sarmady.Store.Memory.{
  record_memory_event_in_tx, record_memory_event, insert_memory_event, next_state, apply_state,
  same_lifecycle, lifecycle_reason, is_created, set_lifecycle, as_value_error,
}

-- A row that depends on the key, or on all semantic state.
abbrev pub depends_on : String → ProjectionRow → Bool
depends_on key row = elem key row.dependencies || elem unproven_dependency row.dependencies

-- Every projection that depends on the key is stale.
abbrev pub AllStale : String → Db → Type 0
AllStale key db = All (λ row. depends_on key row ≡ true → row.stale ≡ true) db.context_projections

make_stale-stale :
    (key reason : String) (at : ℕ) (row : ProjectionRow)
    → depends_on key (make_stale (depends_on key) reason at row) ≡ true
    → (make_stale (depends_on key) reason at row).stale ≡ true
make_stale-stale key reason at row h = ground arith

map-stale :
    (key reason : String) (at : ℕ) (rows : List ProjectionRow)
    → All
        (λ row. depends_on key row ≡ true → row.stale ≡ true)
        (map (make_stale (depends_on key) reason at) rows)
map-stale key reason at [] = tt
map-stale key reason at (row ∷ rows) =
    (make_stale-stale key reason at row, map-stale key reason at rows)

invalidate-AllStale :
    (key reason : String) (db : Db)
    → AllStale key (invalidate_projection_dependencies key reason db)
unfolding invalidate_projection_dependencies
invalidate-AllStale key reason db = map-stale key reason (frontier db) db.context_projections

check_claim-key :
    (c : Claim) {d : Claim}
    → check_claim c ≡ ok d
    → (d.subject ≡ c.subject) × (d.predicate ≡ c.predicate)
unfolding check_claim
check_claim-key c h = (ground arith, ground arith)

write_bundle-AllStale :
    (uuid_text : ℕ → String) (event_id : ℕ) (b : Bundle) (db db' : Db)
    → write_bundle uuid_text event_id b db ≡ ok db'
    → AllStale (epistemic_dependency_key b.claim.subject b.claim.predicate) db'
unfolding write_bundle
write_bundle-AllStale uuid_text event_id b db db' h =
    let current = current_claim db b.claim.subject b.claim.predicate in
    let (_, _, h0) = >>=-eq-ok (check_current current b.claim b.relation) _ h in
    let (_, _, h1) =
      >>=-eq-ok (check_evidence_refs db b.claim b.evidence.id b.claim.evidence_refs) _ h0 in
    let (db1, _, h2) = >>=-eq-ok (insert_event b.event db) _ h1 in
    let (db2, _, h3) = >>=-eq-ok (log event b.event.id b.event.recorded_at db1) _ h2 in
    let (db3, _, h4) = >>=-eq-ok (insert_evidence b.evidence db2) _ h3 in
    let (db4, _, h5) = >>=-eq-ok (log evidence b.evidence.id b.event.recorded_at db3) _ h4 in
    let (db5, _, h6) = >>=-eq-ok (insert_claim b.claim db4) _ h5 in
    let (db6, _, h7) = >>=-eq-ok (log claim b.claim.id b.claim.recorded_at db5) _ h6 in
    let (db7, _, h8) = >>=-eq-ok (commit_relation b.relation db6) _ h7 in
    let db8 = move_head (moves_head current b.relation) b.claim db7 in
    let (db9, _, h9) = >>=-eq-ok (insert_memory_entry b.memory db8) _ h8 in
    let (db10, _, h10) = >>=-eq-ok (log memory_entry b.memory.id b.memory.created_at db9) _ h9 in
    let (db11, _, h11) =
      >>=-eq-ok (record_memory_event_in_tx uuid_text (creation_event event_id b.memory) false db10)
        _ h10 in
    let key = epistemic_dependency_key b.claim.subject b.claim.predicate in
    subst (AllStale key) (ok-inj h11) (invalidate-AllStale key "epistemic-state-changed" db11)

reconstruct-key :
    (b b' : Bundle)
    → reconstruct b ≡ ok b'
    → epistemic_dependency_key b'.claim.subject b'.claim.predicate
      ≡ epistemic_dependency_key b.claim.subject b.claim.predicate
unfolding reconstruct
reconstruct-key b b' h =
    let (e, _, h1) = >>=-eq-ok (check_event b.event) _ h in
    let (v, _, h2) = >>=-eq-ok (check_evidence b.evidence) _ h1 in
    let (c, checked, h3) = >>=-eq-ok (check_claim b.claim) _ h2 in
    let (m, _, h4) = >>=-eq-ok (check_entry b.memory) _ h3 in
    let (r, _, h5) = >>=-eq-ok (check_relation_if b.relation) _ h4 in
    let (subject, predicate) = check_claim-key b.claim checked in
    let same : c ≡ b'.claim = ap (λ (q : Bundle). q.claim) (ok-inj h5) in
    ap (λ (d : Claim). epistemic_dependency_key d.subject d.predicate) (sym same)
    ∙ ap (λ s. epistemic_dependency_key s c.predicate) subject
    ∙ ap (epistemic_dependency_key b.claim.subject) predicate

-- After a committed bundle, every projection with the dependency key of the claim's subject and
-- predicate, or with the wildcard dependency, is stale.
pub commit_claim_bundle-AllStale :
    (uuid_text : ℕ → String) (event_id : ℕ) (b : Bundle) (db db' : Db)
    → commit_claim_bundle uuid_text event_id b db ≡ ok db'
    → AllStale (epistemic_dependency_key b.claim.subject b.claim.predicate) db'
unfolding commit_claim_bundle
commit_claim_bundle-AllStale uuid_text event_id b db db' h =
    let (b', made, h1) = >>=-eq-ok (reconstruct b) _ h in
    let (_, _, h2) = >>=-eq-ok (validate_bundle b') _ h1 in
    subst (λ key. AllStale key db') (reconstruct-key b b' made)
      (write_bundle-AllStale uuid_text event_id b' db db' h2)

apply_state-AllStale :
    (uuid_text : ℕ → String) (e : MemoryLifecycleEvent) (before after : MemoryLifecycle) (db : Db)
    → same_lifecycle after before ≡ false
    → AllStale
        (memory_dependency_key uuid_text e.memory_entry_id)
        (apply_state uuid_text e before after db)
unfolding apply_state
apply_state-AllStale uuid_text e before after db h = rw h (
    invalidate-AllStale (memory_dependency_key uuid_text e.memory_entry_id)
      (lifecycle_reason e.event_kind)
      (record db {
        memory_entries = map (set_lifecycle e.memory_entry_id after) db.memory_entries;
      }))

record_in_tx-AllStale :
    (uuid_text : ℕ → String) (e : MemoryLifecycleEvent) (m : MemoryEntry) (after : MemoryLifecycle)
    (db db' : Db)
    → memory_by_id db.memory_entries e.memory_entry_id ≡ some m
    → next_memory_state m.lifecycle e.event_kind ≡ ok after
    → same_lifecycle after m.lifecycle ≡ false
    → record_memory_event_in_tx uuid_text e true db ≡ ok db'
    → AllStale (memory_dependency_key uuid_text e.memory_entry_id) db'
unfolding record_memory_event_in_tx
record_in_tx-AllStale uuid_text e m after db db' found next changed h =
    let (entry, is_m, h1) =
      >>=-eq-ok
        (or_raise (memory_by_id db.memory_entries e.memory_entry_id)
          (value_error "unknown memory entry"))
        _ h in
    let (state, moved, h2) = >>=-eq-ok (next_state true entry.lifecycle e.event_kind) _ h1 in
    let (db1, _, h3) = >>=-eq-ok (insert_memory_event e db) _ h2 in
    let (db2, _, h4) = >>=-eq-ok (log memory_lifecycle_event e.id e.occurred_at db1) _ h3 in
    let same_entry : m ≡ entry =
      ok-inj (ap (λ o. or_raise o (value_error "unknown memory entry")) (sym found) ∙ is_m) in
    let same_state : after ≡ state = ok-inj (
      ap as_value_error (sym next)
      ∙ ap (λ (x : MemoryEntry). next_state true x.lifecycle e.event_kind) same_entry
      ∙ moved) in
    subst (AllStale (memory_dependency_key uuid_text e.memory_entry_id)) (ok-inj h4) (
      apply_state-AllStale uuid_text e entry.lifecycle state db2 (
        ap (λ (x : MemoryEntry). same_lifecycle state x.lifecycle) (sym same_entry)
        ∙ ap (λ s. same_lifecycle s m.lifecycle) (sym same_state)
        ∙ changed))

check_event-eq-ok :
    (e : MemoryLifecycleEvent) {d : MemoryLifecycleEvent} → Memory.check_event e ≡ ok d → d ≡ e
unfolding Memory.check_event
check_event-eq-ok e h = ground arith

-- After a memory event that is recorded and takes its entry to another lifecycle state, every
-- projection with the entry's dependency key, or with the wildcard dependency, is stale.
pub record_memory_event-AllStale :
    (uuid_text : ℕ → String) (e : MemoryLifecycleEvent) (m : MemoryEntry) (after : MemoryLifecycle)
    (db db' : Db)
    → memory_by_id db.memory_entries e.memory_entry_id ≡ some m
    → next_memory_state m.lifecycle e.event_kind ≡ ok after
    → same_lifecycle after m.lifecycle ≡ false
    → record_memory_event uuid_text e db ≡ ok db'
    → AllStale (memory_dependency_key uuid_text e.memory_entry_id) db'
unfolding record_memory_event
record_memory_event-AllStale uuid_text e m after db db' found next changed h =
    let (_, _, h1) =
      >>=-eq-ok
        (raise_if (is_created e.event_kind)
          (value_error "CREATED is emitted only by memory admission"))
        _ h in
    let (e', checked, h2) = >>=-eq-ok (Memory.check_event e) _ h1 in
    let same = check_event-eq-ok e checked in
    record_in_tx-AllStale uuid_text e m after db db' found next changed
      (subst (λ d. record_memory_event_in_tx uuid_text d true db ≡ ok db') same h2)
