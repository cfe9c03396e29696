-- ===== src/Store/Epistemic/Written.antt =====
-- The writes of a committed bundle, one by one: write_bundle of
-- src/sarmady/storage/sqlite/epistemic_store.py, inverted.
use sarmady.Prelude.{ℕ, ◌≡◌, String, false, Option}
use sarmady.Outcome.{ok, >>=-eq-ok}
use sarmady.Epistemic.{Claim}
use sarmady.Store.{
  Db, event, evidence, claim, memory_entry, log, invalidate_projection_dependencies,
  epistemic_dependency_key,
}
use sarmady.Store.Memory.{record_memory_event_in_tx}
use sarmady.Store.Epistemic.Checks.{Bundle, current_claim, check_current, check_evidence_refs}
use sarmady.Store.Epistemic.Inserts.{
  insert_event, insert_evidence, insert_claim, insert_memory_entry, commit_relation, moves_head,
  move_head,
}
use sarmady.Store.Epistemic.{creation_event, write_bundle}

-- The claim that is current for the bundle's key.
abbrev pub current_for : Db → Bundle → Option Claim
current_for db b = current_claim db b.claim.subject b.claim.predicate

-- The store after each write.
pub record Written (uuid_text : ℕ → String) (event_id : ℕ) (b : Bundle) (db db' : Db) : Type 0 where
  pub db1 : Db
  pub db2 : Db
  pub db3 : Db
  pub db4 : Db
  pub db5 : Db
  pub db6 : Db
  pub db7 : Db
  pub db9 : Db
  pub db10 : Db
  pub db11 : Db
  pub checked : check_current (current_for db b) b.claim b.relation ≡ ok tt
  pub wrote1 : insert_event b.event db ≡ ok db1
  pub wrote2 : log event b.event.id b.event.recorded_at db1 ≡ ok db2
  pub wrote3 : insert_evidence b.evidence db2 ≡ ok db3
  pub wrote4 : log evidence b.evidence.id b.event.recorded_at db3 ≡ ok db4
  pub wrote5 : insert_claim b.claim db4 ≡ ok db5
  pub wrote6 : log claim b.claim.id b.claim.recorded_at db5 ≡ ok db6
  pub wrote7 : commit_relation b.relation db6 ≡ ok db7
  pub wrote9 :
      insert_memory_entry b.memory
        (move_head (moves_head (current_for db b) b.relation) b.claim db7)
      ≡ ok db9
  pub wrote10 : log memory_entry b.memory.id b.memory.created_at db9 ≡ ok db10
  pub wrote11 :
      record_memory_event_in_tx uuid_text (creation_event event_id b.memory) false db10 ≡ ok db11
  pub returned :
      ok (
        invalidate_projection_dependencies
          (epistemic_dependency_key b.claim.subject b.claim.predicate)
          "epistemic-state-changed"
          db11)
      ≡ ok db'

pub write_bundle-Written :
    (uuid_text : ℕ → String) (event_id : ℕ) (b : Bundle) (db db' : Db)
    → write_bundle uuid_text event_id b db ≡ ok db'
    → Written uuid_text event_id b db db'
unfolding write_bundle
write_bundle-Written uuid_text event_id b db db' h =
    let current = current_for db b in
    let (_, c0, h0) = >>=-eq-ok (check_current current b.claim b.relation) _ h in
    let (_, _, h1) =
      >>=-eq-ok (check_evidence_refs db b.claim b.evidence.id b.claim.evidence_refs) _ h0 in
    let (db1, w1, h2) = >>=-eq-ok (insert_event b.event db) _ h1 in
    let (db2, w2, h3) = >>=-eq-ok (log event b.event.id b.event.recorded_at db1) _ h2 in
    let (db3, w3, h4) = >>=-eq-ok (insert_evidence b.evidence db2) _ h3 in
    let (db4, w4, h5) = >>=-eq-ok (log evidence b.evidence.id b.event.recorded_at db3) _ h4 in
    let (db5, w5, h6) = >>=-eq-ok (insert_claim b.claim db4) _ h5 in
    let (db6, w6, h7) = >>=-eq-ok (log claim b.claim.id b.claim.recorded_at db5) _ h6 in
    let (db7, w7, h8) = >>=-eq-ok (commit_relation b.relation db6) _ h7 in
    let db8 = move_head (moves_head current b.relation) b.claim db7 in
    let (db9, w9, h9) = >>=-eq-ok (insert_memory_entry b.memory db8) _ h8 in
    let (db10, w10, h10) = >>=-eq-ok (log memory_entry b.memory.id b.memory.created_at db9) _ h9 in
    let (db11, w11, h11) =
      >>=-eq-ok (record_memory_event_in_tx uuid_text (creation_event event_id b.memory) false db10)
        _ h10 in
    record {
      db1 = db1;
      db2 = db2;
      db3 = db3;
      db4 = db4;
      db5 = db5;
      db6 = db6;
      db7 = db7;
      db9 = db9;
      db10 = db10;
      db11 = db11;
      checked = c0;
      wrote1 = w1;
      wrote2 = w2;
      wrote3 = w3;
      wrote4 = w4;
      wrote5 = w5;
      wrote6 = w6;
      wrote7 = w7;
      wrote9 = w9;
      wrote10 = w10;
      wrote11 = w11;
      returned = h11;
    }
