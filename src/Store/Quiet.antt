-- ===== src/Store/Quiet.antt =====
-- Writes that the heads of the keys do not depend on.
use mathlib.Core.Path.{subst}
use sarmady.Prelude.{
  ℕ, ◌≡◌, refl, ◌∙◌, Bool, false, none, List, String, arith, any_of, any_of-append, Bool-cases, inl,
  inr,
}
use sarmady.Outcome.{ok, >>=-eq-ok, or_raise, value_error}
use sarmady.Time.{DateTime}
use sarmady.Memory.{MemoryLifecycle, MemoryLifecycleEvent}
use sarmady.Epistemic.{Claim, ClaimRelation}
use sarmady.Store.{
  LogKind, Db, claim, claim_relation, memory_lifecycle_event, same_kind, is_entry, log, logged,
  memory_by_id,
}
use sarmady.Store.Resolution.{relation_rows}
use sarmady.Store.Resolution.Rows.{claim_rows_other, relation_rows_other}
use sarmady.Store.Resolution.Moments.{rows_of}
use sarmady.Store.ClaimHeads.Agreement.{HeadsAgree}
use sarmady.Store.Memory.{
  insert_memory_event, next_state, apply_state, record_memory_event_in_tx, same_lifecycle,
}
use sarmady.Store.Writes.{log-eq-ok, insert_memory_event-eq-ok}

pub record Quiet (a b : Db) : Type 0 where
  pub claims : b.claims ≡ a.claims
  pub relations : b.claim_relations ≡ a.claim_relations
  pub heads : b.claim_heads ≡ a.claim_heads
  pub rows :
      (claims : List Claim) (s p : String)
      → rows_of claims b.semantic_log s p ≡ rows_of claims a.semantic_log s p
  pub linking :
      (relations : List ClaimRelation) (rows : List (Claim × ℕ))
      → relation_rows relations rows none b.semantic_log
        ≡ relation_rows relations rows none a.semantic_log
  pub logged_claim :
      (i : ℕ) → any_of (is_entry claim i) b.semantic_log ≡ any_of (is_entry claim i) a.semantic_log
  pub logged_relation :
      (i : ℕ)
      → any_of (is_entry claim_relation i) b.semantic_log
        ≡ any_of (is_entry claim_relation i) a.semantic_log

pub Quiet-trans : {a b c : Db} → Quiet a b → Quiet b c → Quiet a c
Quiet-trans q w = record {
  claims = w.claims ∙ q.claims;
  relations = w.relations ∙ q.relations;
  heads = w.heads ∙ q.heads;
  rows = λ claims s p. w.rows claims s p ∙ q.rows claims s p;
  linking = λ relations rows. w.linking relations rows ∙ q.linking relations rows;
  logged_claim = λ i. w.logged_claim i ∙ q.logged_claim i;
  logged_relation = λ i. w.logged_relation i ∙ q.logged_relation i;
}

-- A write to other tables.
pub Quiet-same :
    {a b : Db}
    → b.claims ≡ a.claims
    → b.claim_relations ≡ a.claim_relations
    → b.claim_heads ≡ a.claim_heads
    → b.semantic_log ≡ a.semantic_log
    → Quiet a b
Quiet-same c r h l = record {
  claims = c;
  relations = r;
  heads = h;
  rows = λ claims s p. rw l;
  linking = λ relations rows. rw l;
  logged_claim = λ i. rw l;
  logged_relation = λ i. rw l;
}

pub Quiet-refl : (a : Db) → Quiet a a
Quiet-refl a = Quiet-same refl refl refl refl

-- A result of a quiet computation, carried over the equation that names it.
pub Quiet-ok : {a b c : Db} → ok b ≡ ok c → Quiet a b → Quiet a c
Quiet-ok {a} {b} {c} e q = let same : b ≡ c = cc e in subst (Quiet a) same q

pub Quiet-HeadsAgree : {a b : Db} → Quiet a b → HeadsAgree a → HeadsAgree b
Quiet-HeadsAgree {a} {b} q g = record {
  replayed = λ s p.
      rw (q.claims, q.relations, q.heads)
        (rw (q.rows a.claims s p) (
          rw (q.linking a.claim_relations (rows_of a.claims a.semantic_log s p)) (g.replayed s p)));
  present =
      λ s p h found. rw q.claims (rw (q.rows a.claims s p) (g.present s p h (rw q.heads at found)));
  linked = λ j r found. rw q.claims (g.linked j r (rw q.relations at found));
}

-- A log entry of another kind.
pub Quiet-logged :
    (kind : LogKind) (i : ℕ) (t : DateTime) (db : Db)
    → same_kind kind claim ≡ false
    → same_kind kind claim_relation ≡ false
    → Quiet db (logged kind i t db)
Quiet-logged kind i t db not_claim not_relation = record {
  claims = refl;
  relations = refl;
  heads = refl;
  rows = λ claims s p. claim_rows_other claims s p none db.semantic_log _ not_claim;
  linking =
      λ relations rows. relation_rows_other relations rows none db.semantic_log _ not_relation;
  logged_claim = λ j. any_of-append (is_entry claim j) db.semantic_log _ ∙ ground arith;
  logged_relation = λ j. any_of-append (is_entry claim_relation j) db.semantic_log _ ∙ ground arith;
}

pub Quiet-log :
    (kind : LogKind) (i : ℕ) (t : DateTime) (db : Db) {db' : Db}
    → same_kind kind claim ≡ false
    → same_kind kind claim_relation ≡ false
    → log kind i t db ≡ ok db'
    → Quiet db db'
Quiet-log kind i t db not_claim not_relation h =
    Quiet-ok (log-eq-ok kind i t db h).1 (Quiet-logged kind i t db not_claim not_relation)

Quiet-apply_state :
    (uuid_text : ℕ → String) (e : MemoryLifecycleEvent) (before after : MemoryLifecycle) (db : Db)
    → Quiet db (apply_state uuid_text e before after db)
unfolding apply_state
Quiet-apply_state uuid_text e before after db = elim (Bool-cases (same_lifecycle after before)) [
  | inl same ↦ rw same (Quiet-refl db)
  | inr moved ↦ rw moved (Quiet-same refl refl refl refl)
]

-- A lifecycle event of a memory entry, whatever it does to the entry and the projections.
pub Quiet-record_memory_event_in_tx :
    (uuid_text : ℕ → String) (e : MemoryLifecycleEvent) (update_state : Bool) (db : Db) {db' : Db}
    → record_memory_event_in_tx uuid_text e update_state db ≡ ok db'
    → Quiet db db'
unfolding record_memory_event_in_tx
Quiet-record_memory_event_in_tx uuid_text e update_state db h =
    let (entry, _, h1) =
      >>=-eq-ok
        (or_raise (memory_by_id db.memory_entries e.memory_entry_id)
          (value_error "unknown memory entry"))
        _ h in
    let (after, _, h2) = >>=-eq-ok (next_state update_state entry.lifecycle e.event_kind) _ h1 in
    let (db1, inserted, h3) = >>=-eq-ok (insert_memory_event e db) _ h2 in
    let (db2, noted, h4) = >>=-eq-ok (log memory_lifecycle_event e.id e.occurred_at db1) _ h3 in
    Quiet-ok h4 (
      Quiet-trans
        (Quiet-ok (insert_memory_event-eq-ok e db inserted) (Quiet-same refl refl refl refl))
        (Quiet-trans (Quiet-log memory_lifecycle_event e.id e.occurred_at db1 refl refl noted)
          (Quiet-apply_state uuid_text e entry.lifecycle after db2)))
