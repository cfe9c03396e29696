-- ===== src/Store/Writes.antt =====
-- What a successful write did: each call of the store's writers, inverted.
use sarmady.Prelude.{ℕ, ◌≡◌, false, none, [], ◌∷◌, ◌++◌, arith, any_of}
use sarmady.Outcome.{ok, raise_if-eq-ok}
use sarmady.Time.{DateTime}
use sarmady.Memory.{MemoryEntry, MemoryLifecycleEvent}
use sarmady.Epistemic.{Event, Evidence, Claim, ClaimRelation}
use sarmady.Store.{LogKind, Db, is_entry, log, logged, claim_by_id, relation_by_id}
use sarmady.Store.Memory.{insert_memory_event}
use sarmady.Store.Epistemic.Inserts.{
  insert_event, insert_evidence, insert_claim, insert_relation, insert_memory_entry,
}

pub log-eq-ok :
    (kind : LogKind) (i : ℕ) (t : DateTime) (db : Db) {db' : Db}
    → log kind i t db ≡ ok db'
    → (any_of (is_entry kind i) db.semantic_log ≡ false) × (ok (logged kind i t db) ≡ ok db')
unfolding log
log-eq-ok kind i t db h = raise_if-eq-ok _ _ _ h

pub insert_event-eq-ok :
    (e : Event) (db : Db) {db' : Db}
    → insert_event e db ≡ ok db'
    → ok (record db { events = db.events ++ e ∷ [] }) ≡ ok db'
unfolding insert_event
insert_event-eq-ok e db h = ground arith

pub insert_evidence-eq-ok :
    (e : Evidence) (db : Db) {db' : Db}
    → insert_evidence e db ≡ ok db'
    → ok (record db { evidence = db.evidence ++ e ∷ [] }) ≡ ok db'
unfolding insert_evidence
insert_evidence-eq-ok e db h = ground arith

pub insert_claim-eq-ok :
    (c : Claim) (db : Db) {db' : Db}
    → insert_claim c db ≡ ok db'
    → (claim_by_id db.claims c.id ≡ none)
      × (ok (record db { claims = db.claims ++ c ∷ [] }) ≡ ok db')
unfolding insert_claim
insert_claim-eq-ok c db h = ground arith

pub insert_relation-eq-ok :
    (r : ClaimRelation) (db : Db) {db' : Db}
    → insert_relation r db ≡ ok db'
    → (relation_by_id db.claim_relations r.id ≡ none)
      × (ok (record db { claim_relations = db.claim_relations ++ r ∷ [] }) ≡ ok db')
unfolding insert_relation
insert_relation-eq-ok r db h = ground arith

pub insert_memory_entry-eq-ok :
    (m : MemoryEntry) (db : Db) {db' : Db}
    → insert_memory_entry m db ≡ ok db'
    → ok (record db { memory_entries = db.memory_entries ++ m ∷ [] }) ≡ ok db'
unfolding insert_memory_entry
insert_memory_entry-eq-ok m db h = ground arith

pub insert_memory_event-eq-ok :
    (e : MemoryLifecycleEvent) (db : Db) {db' : Db}
    → insert_memory_event e db ≡ ok db'
    → ok (record db { memory_lifecycle_events = db.memory_lifecycle_events ++ e ∷ [] }) ≡ ok db'
unfolding insert_memory_event
insert_memory_event-eq-ok e db h = ground arith
