-- ===== src/Store/History.antt =====
-- The write transactions of `SQLiteCanonicalStore`, one after another, from an empty store.
use sarmady.Prelude.{ℕ, String, ◌≡◌, refl, none, List, [], ◌∷◌, true}
use sarmady.Outcome.{Outcome, ok, err, value_error, raise_if, >>=-eq-ok}
use sarmady.Memory.{MemoryLifecycleEvent, check_event}
use sarmady.Store.{Db, empty_db}
use sarmady.Store.Resolution.{
  head_for_key, timeline, replay, claim_rows, relation_rows, sort_moments,
}
use sarmady.Store.ClaimHeads.{lookup_head}
use sarmady.Store.Epistemic.Checks.{Bundle}
use sarmady.Store.Epistemic.{commit_claim_bundle}
use sarmady.Store.Memory.{record_memory_event, is_created}
use sarmady.Kernel.Identity.{Agent}
use sarmady.Store.Identity.{register_agent, Quiet-register_agent}
use sarmady.Store.ClaimHeads.Agreement.{HeadsAgree}
use sarmady.Store.Quiet.{Quiet-HeadsAgree, Quiet-record_memory_event_in_tx}
use sarmady.Store.Admission.{commit_claim_bundle-HeadsAgree}

-- `_write_transaction`: commit what the body wrote, or roll back to what was there.
unfoldable pub settle : Outcome Db → Db → Db
settle (ok db') db = db'
settle (err e) db = db

unfoldable pub write_transaction : (Db → Outcome Db) → Db → Db
unfolding settle
write_transaction body db = settle (body db) db

-- What holds before and after every successful body holds after the transaction.
pub settle-keeps {ℓ} :
    (P : Db → Type ℓ) (m : Outcome Db) (db : Db)
    → P db
    → ((db' : Db) → m ≡ ok db' → P db')
    → P (settle m db)
unfolding settle
settle-keeps P (ok db') db h k = k db' refl
settle-keeps P (err e) db h k = h

-- The calls that write to the semantic log: claims, relations, memory events and agents.
pub data Operation : Type 0 where
  commit : ℕ → Bundle → Operation
  memory_event : MemoryLifecycleEvent → Operation
  admit_agent : Agent → Operation

unfoldable pub operate : (ℕ → String) → Operation → Db → Outcome Db
operate uuid_text (commit event_id b) = commit_claim_bundle uuid_text event_id b
operate uuid_text (memory_event e) = record_memory_event uuid_text e
operate uuid_text (admit_agent a) = register_agent a

unfoldable pub run : (ℕ → String) → List Operation → Db → Db
unfolding write_transaction operate
run uuid_text [] db = db
run uuid_text (op ∷ ops) db = run uuid_text ops (write_transaction (operate uuid_text op) db)

pub record_memory_event-HeadsAgree :
    (uuid_text : ℕ → String) (e : MemoryLifecycleEvent) (db db' : Db)
    → HeadsAgree db
    → record_memory_event uuid_text e db ≡ ok db'
    → HeadsAgree db'
unfolding record_memory_event
record_memory_event-HeadsAgree uuid_text e db db' g h =
    let (_, _, h1) =
      >>=-eq-ok
        (raise_if (is_created e.event_kind)
          (value_error "CREATED is emitted only by memory admission"))
        _ h in
    let (e', _, h2) = >>=-eq-ok (check_event e) _ h1 in
    Quiet-HeadsAgree (Quiet-record_memory_event_in_tx uuid_text e' true db h2) g

operate-HeadsAgree :
    (uuid_text : ℕ → String) (op : Operation) (db db' : Db)
    → HeadsAgree db
    → operate uuid_text op db ≡ ok db'
    → HeadsAgree db'
unfolding operate
operate-HeadsAgree uuid_text (commit event_id b) =
    commit_claim_bundle-HeadsAgree uuid_text event_id b
operate-HeadsAgree uuid_text (memory_event e) = record_memory_event-HeadsAgree uuid_text e
operate-HeadsAgree uuid_text (admit_agent a) =
    λ db db' g h. Quiet-HeadsAgree (Quiet-register_agent a db h) g

pub empty_db-HeadsAgree : HeadsAgree empty_db
unfolding replay claim_rows relation_rows sort_moments lookup_head
empty_db-HeadsAgree = record {
  replayed = λ s p. ([], refl);
  present = λ s p h found. cc;
  linked = λ j r found. cc;
}

pub run-HeadsAgree :
    (uuid_text : ℕ → String) (ops : List Operation) (db : Db)
    → HeadsAgree db
    → HeadsAgree (run uuid_text ops db)
unfolding run
run-HeadsAgree uuid_text [] db g = g
run-HeadsAgree uuid_text (op ∷ ops) db g = run-HeadsAgree uuid_text ops _ (
    settle-keeps HeadsAgree (operate uuid_text op db) db g
      (λ db' e. operate-HeadsAgree uuid_text op db db' g e))

-- After any sequence of commits, memory events and registrations of agents on an empty store, failed
-- ones rolled back, the head that `head_for_key` reconstructs for a key without consulting
-- `claim_heads` is the entry of `claim_heads`, and the reconstruction does not raise.
pub head_for_key-run :
    (uuid_text : ℕ → String) (ops : List Operation) (subject predicate : String)
    → (parents : List (ℕ × ℕ)) × (head_for_key (run uuid_text ops empty_db) subject predicate none
        ≡ ok (lookup_head (run uuid_text ops empty_db).claim_heads (subject, predicate), parents))
unfolding head_for_key timeline
head_for_key-run uuid_text ops subject predicate =
    (run-HeadsAgree uuid_text ops empty_db empty_db-HeadsAgree).replayed subject predicate
