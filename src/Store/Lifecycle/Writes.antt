-- ===== src/Store/Lifecycle/Writes.antt =====
-- What one recorded event of src/sarmady/storage/sqlite/memory_store.py does to the entries and to
-- their events.
use mathlib.Core.Path.{subst}
use mathlib.Core.List.{append-nil}
use sarmady.Prelude.{
  ℕ, suc, ◌≡◌, refl, sym, ap, ◌∙◌, String, Bool, true, false, some, [], ◌∷◌, ◌++◌, ◌==◌, any_of,
  nat_eq, if◌then◌else◌, some-inj, find-passes, Option-cases, Bool-cases, inl, inr, eq_of_test,
}
use sarmady.Outcome.{ok, value_error, or_raise, or_raise-eq-ok, ok-inj, >>=-eq-ok, raise_if-eq-ok}
use sarmady.Time.{DateTime}
use sarmady.Memory.{
  MemoryEntry, MemoryLifecycle, active, archived, tombstoned, deleted, MemoryLifecycleEvent,
}
use sarmady.Store.{
  Db, LogKind, LogEntry, memory_lifecycle_event, same_kind, is_entry, log, logged, frontier,
  memory_by_id,
}
use sarmady.Store.Memory.{
  insert_memory_event, same_lifecycle, next_state, apply_state, record_memory_event_in_tx,
  event_row, event_rows,
}
use sarmady.Store.Writes.{log-eq-ok, insert_memory_event-eq-ok}
use sarmady.Store.Lifecycle.Rows.{event_rows_append, event_rows_unlogged, event_row_new}
use sarmady.Store.Lifecycle.Entries.{set_if, memory_by_id-map, set_lifecycle_kept, Distinct-map}
use sarmady.Store.Lifecycle.{Distinct, Unmoved}

-- An entry of the log of another kind.
pub Unmoved-logged :
    (kind : LogKind) (i : ℕ) (t : DateTime) (db : Db)
    → same_kind kind memory_lifecycle_event ≡ false
    → Unmoved db (logged kind i t db)
Unmoved-logged kind i t db other = record {
  entries = refl;
  events = refl;
  rows = λ events id.
      event_rows_append events id db.semantic_log _
      ∙ rw other (append-nil (event_rows events id db.semantic_log));
}

same_lifecycle-eq : (a b : MemoryLifecycle) → same_lifecycle a b ≡ true → a ≡ b
same_lifecycle-eq active active h = refl
same_lifecycle-eq archived archived h = refl
same_lifecycle-eq tombstoned tombstoned h = refl
same_lifecycle-eq deleted deleted h = refl
same_lifecycle-eq _ _ h = cc

-- What a recorded event leaves: its entry has the state, and the event is the last of its entry.
pub record Recorded (e : MemoryLifecycleEvent) (state : MemoryLifecycle) (a b : Db) : Type 0 where
  pub entries :
      (id : ℕ)
      → memory_by_id b.memory_entries id
        ≡ set_if e.memory_entry_id state (memory_by_id a.memory_entries id)
  pub distinct : Distinct a.memory_entries → Distinct b.memory_entries
  pub rows :
      (id : ℕ)
      → event_rows b.memory_lifecycle_events id b.semantic_log
        ≡ event_rows a.memory_lifecycle_events id a.semantic_log
          ++ (if e.memory_entry_id == id then e ∷ [] else [])

module _ (uuid_text : ℕ → String) (e : MemoryLifecycleEvent) (m : MemoryEntry)
    (after : MemoryLifecycle) (db : Db)
    (found : memory_by_id db.memory_entries e.memory_entry_id ≡ some m) where
  -- An entry whose state does not change is as if it were set.
  kept_entries :
      after ≡ m.lifecycle
      → (id : ℕ)
      → memory_by_id db.memory_entries id
        ≡ set_if e.memory_entry_id after (memory_by_id db.memory_entries id)
  kept_entries same id = elim (Option-cases (memory_by_id db.memory_entries id)) [
    | inl absent ↦ rw absent refl
    | inr (n, there) ↦
        let own =
          eq_of_test n.id id
            (find-passes (λ (v : MemoryEntry). v.id == id) db.memory_entries n there) in
        let kept = set_lifecycle_kept e.memory_entry_id after n (λ at_event.
          let there' : memory_by_id db.memory_entries e.memory_entry_id ≡ some n =
            subst (λ i. memory_by_id db.memory_entries i ≡ some n) (sym own ∙ at_event) there in
          ap (λ (v : MemoryEntry). v.lifecycle) (some-inj (sym there' ∙ found)) ∙ sym same) in
        rw there (ap some (sym kept))
  ]

  apply_state-entries :
      (id : ℕ)
      → memory_by_id (apply_state uuid_text e m.lifecycle after db).memory_entries id
        ≡ set_if e.memory_entry_id after (memory_by_id db.memory_entries id)
  unfolding apply_state
  apply_state-entries id = elim (Bool-cases (same_lifecycle after m.lifecycle)) [
    | inl same ↦ rw same (kept_entries (same_lifecycle-eq after m.lifecycle same) id)
    | inr moved ↦ rw moved (memory_by_id-map e.memory_entry_id after db.memory_entries id)
  ]

apply_state-Distinct :
    (uuid_text : ℕ → String) (e : MemoryLifecycleEvent) (m : MemoryEntry) (after : MemoryLifecycle)
    (db : Db)
    → Distinct db.memory_entries
    → Distinct (apply_state uuid_text e m.lifecycle after db).memory_entries
unfolding apply_state
apply_state-Distinct uuid_text e m after db h =
    elim (Bool-cases (same_lifecycle after m.lifecycle)) [
      | inl same ↦ rw same h
      | inr moved ↦ rw moved (Distinct-map e.memory_entry_id after db.memory_entries h)
    ]

apply_state_tables :
    (uuid_text : ℕ → String) (e : MemoryLifecycleEvent) (m : MemoryEntry) (after : MemoryLifecycle)
    (db : Db)
    → ((apply_state uuid_text e m.lifecycle after db).memory_lifecycle_events
        ≡ db.memory_lifecycle_events)
      × ((apply_state uuid_text e m.lifecycle after db).semantic_log ≡ db.semantic_log)
unfolding apply_state
apply_state_tables uuid_text e m after db = elim (Bool-cases (same_lifecycle after m.lifecycle)) [
  | inl same ↦ rw same (refl, refl)
  | inr moved ↦ rw moved (refl, refl)
]

-- The store with the event, logged.
abbrev pub with_event : MemoryLifecycleEvent → Db → Db
with_event e db =
    logged memory_lifecycle_event e.id e.occurred_at
      (record db { memory_lifecycle_events = db.memory_lifecycle_events ++ e ∷ [] })

abbrev event_entry : MemoryLifecycleEvent → Db → LogEntry
event_entry e db = record {
  seq =
      suc (frontier (record db { memory_lifecycle_events = db.memory_lifecycle_events ++ e ∷ [] }));
  kind = memory_lifecycle_event;
  ref_id = e.id;
  recorded_at = e.occurred_at;
}

with_event-rows :
    (e : MemoryLifecycleEvent) (db : Db) (id : ℕ)
    → any_of (λ (f : MemoryLifecycleEvent). f.id == e.id) db.memory_lifecycle_events ≡ false
    → any_of (is_entry memory_lifecycle_event e.id) db.semantic_log ≡ false
    → event_rows (with_event e db).memory_lifecycle_events id (with_event e db).semantic_log
      ≡ event_rows db.memory_lifecycle_events id db.semantic_log
        ++ (if e.memory_entry_id == id then e ∷ [] else [])
with_event-rows e db id fresh unlogged =
    event_rows_append (db.memory_lifecycle_events ++ e ∷ []) id db.semantic_log (event_entry e db)
    ∙ ap (λ r. r ++ event_row (db.memory_lifecycle_events ++ e ∷ []) id (event_entry e db))
        (event_rows_unlogged db.memory_lifecycle_events e id db.semantic_log unlogged)
    ∙ ap (λ r. event_rows db.memory_lifecycle_events id db.semantic_log ++ r)
        (event_row_new db.memory_lifecycle_events e id (event_entry e db) refl refl fresh)

apply_state-Recorded :
    (uuid_text : ℕ → String) (e : MemoryLifecycleEvent) (m : MemoryEntry) (after : MemoryLifecycle)
    (db : Db)
    → memory_by_id db.memory_entries e.memory_entry_id ≡ some m
    → any_of (λ (f : MemoryLifecycleEvent). f.id == e.id) db.memory_lifecycle_events ≡ false
    → any_of (is_entry memory_lifecycle_event e.id) db.semantic_log ≡ false
    → Recorded e after db (apply_state uuid_text e m.lifecycle after (with_event e db))
apply_state-Recorded uuid_text e m after db found fresh unlogged =
    let (events, log) = apply_state_tables uuid_text e m after (with_event e db) in
    record {
      entries = apply_state-entries uuid_text e m after (with_event e db) found;
      distinct = apply_state-Distinct uuid_text e m after (with_event e db);
      rows = λ id.
          ap
            (λ es.
              event_rows es id
                (apply_state uuid_text e m.lifecycle after (with_event e db)).semantic_log)
            events
          ∙ ap (event_rows (with_event e db).memory_lifecycle_events id) log
          ∙ with_event-rows e db id fresh unlogged;
    }

-- What an accepted event does.
pub record_memory_event_in_tx-Recorded :
    (uuid_text : ℕ → String) (e : MemoryLifecycleEvent) (update : Bool) (db db' : Db)
    → record_memory_event_in_tx uuid_text e update db ≡ ok db'
    → (m : MemoryEntry) × (after : MemoryLifecycle) × (memory_by_id db.memory_entries
          e.memory_entry_id
        ≡ some m)
      × (next_state update m.lifecycle e.event_kind ≡ ok after)
      × Recorded e after db db'
unfolding record_memory_event_in_tx insert_memory_event
record_memory_event_in_tx-Recorded uuid_text e update db db' h =
    let (m, found, h1) =
      >>=-eq-ok
        (or_raise (memory_by_id db.memory_entries e.memory_entry_id)
          (value_error "unknown memory entry"))
        _ h in
    let (after, next, h2) = >>=-eq-ok (next_state update m.lifecycle e.event_kind) _ h1 in
    let (db1, inserted, h3) = >>=-eq-ok (insert_memory_event e db) _ h2 in
    let (db2, noted, h4) = >>=-eq-ok (log memory_lifecycle_event e.id e.occurred_at db1) _ h3 in
    let (fresh, _) =
      raise_if-eq-ok
        (any_of (λ (f : MemoryLifecycleEvent). f.id == e.id) db.memory_lifecycle_events) _ _
        inserted in
    let e1 = ok-inj (insert_memory_event-eq-ok e db inserted) in
    let (unlogged, logs) = log-eq-ok memory_lifecycle_event e.id e.occurred_at db1 noted in
    let written : with_event e db ≡ db2 =
      ap (logged memory_lifecycle_event e.id e.occurred_at) e1 ∙ ok-inj logs in
    let unlogged' =
      subst (λ (d : Db). any_of (is_entry memory_lifecycle_event e.id) d.semantic_log ≡ false)
        (sym e1) unlogged in
    let found' = or_raise-eq-ok (memory_by_id db.memory_entries e.memory_entry_id) _ found in
    (
      m,
      after,
      found',
      next,
      subst (Recorded e after db)
          (ap (apply_state uuid_text e m.lifecycle after) written ∙ ok-inj h4)
          (apply_state-Recorded uuid_text e m after db found' fresh unlogged'),
    )
