-- ===== src/Store/AppendOnly/Bundle.antt =====
-- commit_claim_bundle of src/sarmady/storage/sqlite/epistemic_store.py appends to its tables.
use sarmady.Prelude.{ℕ, ◌≡◌, String, Bool, true, false, Option, none, some}
use sarmady.Outcome.{ok, >>=-eq-ok}
use sarmady.Epistemic.{Claim, ClaimRelation}
use sarmady.Store.{
  Db, event, evidence, claim, claim_relation, memory_entry, invalidate_projection_dependencies,
}
use sarmady.Store.Epistemic.Checks.{Bundle, reconstruct, validate_bundle}
use sarmady.Store.Epistemic.Inserts.{
  insert_event, insert_evidence, insert_claim, insert_relation, insert_memory_entry,
  commit_relation, moves_head, move_head,
}
use sarmady.Store.Epistemic.{creation_event, write_bundle, commit_claim_bundle}
use sarmady.Store.Epistemic.Written.{current_for, write_bundle-Written}
use sarmady.Store.Writes.{
  insert_event-eq-ok, insert_evidence-eq-ok, insert_claim-eq-ok, insert_relation-eq-ok,
  insert_memory_entry-eq-ok,
}
use sarmady.Store.AppendOnly.{
  Appended, Appended-of, Appended-ok, Appended-refl, Appended-trans, Appended-log,
  Appended-record_memory_event_in_tx, Prefix-refl, Prefix-snoc, LogGrows-refl,
}

Appended-commit_relation :
    (r : Option ClaimRelation) (db : Db) {db' : Db}
    → commit_relation r db ≡ ok db'
    → Appended db db'
unfolding commit_relation
Appended-commit_relation none db h = Appended-ok h (Appended-refl db)
Appended-commit_relation (some r) db h =
    let (mid, inserted, h1) = >>=-eq-ok (insert_relation r db) _ h in
    let (_, e) = insert_relation-eq-ok r db inserted in
    let row = Appended-ok e (
      Appended-of LogGrows-refl Prefix-refl Prefix-refl Prefix-refl
        (Prefix-snoc db.claim_relations r) Prefix-refl Prefix-refl) in
    Appended-trans row (Appended-log claim_relation r.id r.recorded_at mid h1)

Appended-move_head : (moves : Bool) (c : Claim) (db : Db) → Appended db (move_head moves c db)
unfolding move_head
Appended-move_head true c db =
    Appended-of LogGrows-refl Prefix-refl Prefix-refl Prefix-refl Prefix-refl Prefix-refl
      Prefix-refl
Appended-move_head false c db = Appended-refl db

Appended-invalidate :
    (key reason : String) (db : Db) → Appended db (invalidate_projection_dependencies key reason db)
unfolding invalidate_projection_dependencies
Appended-invalidate key reason db =
    Appended-of LogGrows-refl Prefix-refl Prefix-refl Prefix-refl Prefix-refl Prefix-refl
      Prefix-refl

module _ (b : Bundle) (db : Db) {db' : Db} where
  Appended-insert_event : insert_event b.event db ≡ ok db' → Appended db db'
  Appended-insert_event h = Appended-ok (insert_event-eq-ok b.event db h) (
      Appended-of LogGrows-refl (Prefix-snoc db.events b.event) Prefix-refl Prefix-refl Prefix-refl
        Prefix-refl Prefix-refl)

  Appended-insert_evidence : insert_evidence b.evidence db ≡ ok db' → Appended db db'
  Appended-insert_evidence h = Appended-ok (insert_evidence-eq-ok b.evidence db h) (
      Appended-of LogGrows-refl Prefix-refl (Prefix-snoc db.evidence b.evidence) Prefix-refl
        Prefix-refl Prefix-refl Prefix-refl)

  Appended-insert_claim : insert_claim b.claim db ≡ ok db' → Appended db db'
  Appended-insert_claim h =
      let (_, e) = insert_claim-eq-ok b.claim db h in
      Appended-ok e (
        Appended-of LogGrows-refl Prefix-refl Prefix-refl (Prefix-snoc db.claims b.claim)
          Prefix-refl Prefix-refl Prefix-refl)

  Appended-insert_memory_entry : insert_memory_entry b.memory db ≡ ok db' → Appended db db'
  Appended-insert_memory_entry h = Appended-ok (insert_memory_entry-eq-ok b.memory db h) (
      Appended-of LogGrows-refl Prefix-refl Prefix-refl Prefix-refl Prefix-refl Prefix-refl
        Prefix-refl)

Appended-write_bundle :
    (uuid_text : ℕ → String) (event_id : ℕ) (b : Bundle) (db db' : Db)
    → write_bundle uuid_text event_id b db ≡ ok db'
    → Appended db db'
Appended-write_bundle uuid_text event_id b db db' h =
    let w = write_bundle-Written uuid_text event_id b db db' h in
    let db8 = move_head (moves_head (current_for db b) b.relation) b.claim w.db7 in
    let to4 : Appended db w.db4 = Appended-trans {b = w.db1} (Appended-insert_event b db w.wrote1) (
      Appended-trans {b = w.db2} (Appended-log event b.event.id b.event.recorded_at w.db1 w.wrote2)
        (Appended-trans {b = w.db3} (Appended-insert_evidence b w.db2 w.wrote3)
          (Appended-log evidence b.evidence.id b.event.recorded_at w.db3 w.wrote4))) in
    let to8 : Appended w.db4 db8 =
      Appended-trans {b = w.db5} (Appended-insert_claim b w.db4 w.wrote5) (
        Appended-trans {b = w.db6}
          (Appended-log claim b.claim.id b.claim.recorded_at w.db5 w.wrote6)
          (Appended-trans {b = w.db7} (Appended-commit_relation b.relation w.db6 w.wrote7)
            (Appended-move_head (moves_head (current_for db b) b.relation) b.claim w.db7))) in
    let to11 : Appended db8 w.db11 =
      Appended-trans {b = w.db9} (Appended-insert_memory_entry b db8 w.wrote9) (
        Appended-trans {b = w.db10}
          (Appended-log memory_entry b.memory.id b.memory.created_at w.db9 w.wrote10)
          (Appended-record_memory_event_in_tx uuid_text (creation_event event_id b.memory) false
            w.db10 w.wrote11)) in
    Appended-trans to4 (
      Appended-trans to8
        (Appended-trans to11 (Appended-ok w.returned (Appended-invalidate _ _ w.db11))))

pub Appended-commit_claim_bundle :
    (uuid_text : ℕ → String) (event_id : ℕ) (b : Bundle) (db db' : Db)
    → commit_claim_bundle uuid_text event_id b db ≡ ok db'
    → Appended db db'
unfolding commit_claim_bundle
Appended-commit_claim_bundle uuid_text event_id b db db' h =
    let (b', _, h1) = >>=-eq-ok (reconstruct b) _ h in
    let (_, _, h2) = >>=-eq-ok (validate_bundle b') _ h1 in
    Appended-write_bundle uuid_text event_id b' db db' h2
