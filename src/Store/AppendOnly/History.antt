-- ===== src/Store/AppendOnly/History.antt =====
-- The canonical tables over a history of the store's transactions.
use sarmady.Prelude.{ℕ, ◌≡◌, String, true, List, [], ◌∷◌}
use sarmady.Outcome.{ok, value_error, raise_if, >>=-eq-ok}
use sarmady.Memory.{check_event}
use sarmady.Store
use sarmady.Store.{Db}
use sarmady.Store.Memory.{record_memory_event, is_created}
use sarmady.Store.Identity.{register_agent, insert_agent, insert_agent-eq-ok}
use sarmady.Store.History.{
  Operation, commit, memory_event, admit_agent, operate, write_transaction, run, settle-keeps,
}
use sarmady.Store.AppendOnly.{
  Appended, Appended-of, Appended-ok, Appended-refl, Appended-trans, Appended-log,
  Appended-record_memory_event_in_tx, Prefix-refl, Prefix-snoc, LogGrows-refl,
}
use sarmady.Store.AppendOnly.Bundle.{Appended-commit_claim_bundle}

Appended-operate :
    (uuid_text : ℕ → String) (op : Operation) (db db' : Db)
    → operate uuid_text op db ≡ ok db'
    → Appended db db'
unfolding operate record_memory_event register_agent
Appended-operate uuid_text (commit event_id b) db db' h =
    Appended-commit_claim_bundle uuid_text event_id b db db' h
Appended-operate uuid_text (memory_event e) db db' h =
    let (_, _, h1) =
      >>=-eq-ok
        (raise_if (is_created e.event_kind)
          (value_error "CREATED is emitted only by memory admission"))
        _ h in
    let (e', _, h2) = >>=-eq-ok (check_event e) _ h1 in
    Appended-record_memory_event_in_tx uuid_text e' true db h2
Appended-operate uuid_text (admit_agent a) db db' h =
    let (mid, inserted, noted) = >>=-eq-ok (insert_agent a db) _ h in
    let (_, e) = insert_agent-eq-ok a db inserted in
    let row = Appended-ok e (
      Appended-of LogGrows-refl Prefix-refl Prefix-refl Prefix-refl Prefix-refl Prefix-refl
        (Prefix-snoc db.agents a)) in
    Appended-trans row (Appended-log Store.agent a.id a.created_at mid noted)

-- Whatever commits, memory events and registrations of agents follow on a store, failed ones rolled
-- back, its events, evidence, claims, relations, lifecycle events, agents and log entries stay as
-- they are and where they are; rows are added behind them, and every entry added to the log has a
-- sequence number above all that were there.
pub run-Appended :
    (uuid_text : ℕ → String) (ops : List Operation) (db : Db) → Appended db (run uuid_text ops db)
unfolding run write_transaction
run-Appended uuid_text [] db = Appended-refl db
run-Appended uuid_text (op ∷ ops) db =
    Appended-trans
      (settle-keeps (Appended db) (operate uuid_text op db) db (Appended-refl db)
        (Appended-operate uuid_text op db))
      (run-Appended uuid_text ops _)
