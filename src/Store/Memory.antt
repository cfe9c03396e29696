-- ===== src/Store/Memory.antt =====
-- src/sarmady/storage/sqlite/memory_store.py
use sarmady.Prelude.{
  ℕ, String, Bool, true, false, not, Option, none, some, List, [], ◌∷◌, ◌++◌, map, ◌==◌, ◌&&◌,
  nat_eq, string_eq, is_some, suc, length, find, any_of, if◌then◌else◌,
}
use sarmady.Outcome.{
  Outcome, ok, err, value_error, canonical_integrity, integrity_error, raise_if, or_raise, ◌>>=◌,
  ◌>>◌,
}
use sarmady.Memory.{
  MemoryEntry, MemoryLifecycle, active, archived, tombstoned, deleted, MemoryLifecycleEvent,
  MemoryLifecycleEventKind, created, seen, used, consolidated, archive, restore, tombstone, delete,
  check_event,
}
use sarmady.Memory.State.{next_memory_state}
use sarmady.Store.{
  Db, LogEntry, memory_lifecycle_event, log, same_kind, memory_by_id, memory_dependency_key,
  invalidate_projection_dependencies,
}

unfoldable pub insert_memory_event : MemoryLifecycleEvent → Db → Outcome Db
insert_memory_event e db = do
  raise_if (any_of (λ (f : MemoryLifecycleEvent). f.id == e.id) db.memory_lifecycle_events)
      (integrity_error "UNIQUE constraint failed: memory_lifecycle_events.id")
  raise_if (not (is_some (memory_by_id db.memory_entries e.memory_entry_id)))
      (integrity_error "FOREIGN KEY constraint failed")
  ok (record db { memory_lifecycle_events = db.memory_lifecycle_events ++ e ∷ [] })

abbrev pub lifecycle_code : MemoryLifecycle → ℕ
lifecycle_code active = 0
lifecycle_code archived = 1
lifecycle_code tombstoned = 2
lifecycle_code deleted = 3

abbrev pub same_lifecycle : MemoryLifecycle → MemoryLifecycle → Bool
same_lifecycle a b = lifecycle_code a == lifecycle_code b

abbrev pub set_lifecycle : ℕ → MemoryLifecycle → MemoryEntry → MemoryEntry
set_lifecycle id state m = if m.id == id then record m { lifecycle = state } else m

-- `except CanonicalIntegrityError as exc: raise ValueError(str(exc))`
abbrev pub as_value_error {ℓ} : {A : Type ℓ} → Outcome A → Outcome A
as_value_error (err (canonical_integrity message)) = err (value_error message)
as_value_error (err e) = err e
as_value_error (ok a) = ok a

abbrev pub next_state : Bool → MemoryLifecycle → MemoryLifecycleEventKind → Outcome MemoryLifecycle
next_state true current kind = as_value_error (next_memory_state current kind)
next_state false current kind = ok current

-- the text of the kind, in the reason for staleness
abbrev pub lifecycle_reason : MemoryLifecycleEventKind → String
lifecycle_reason created = "memory-lifecycle:CREATED"
lifecycle_reason seen = "memory-lifecycle:SEEN"
lifecycle_reason used = "memory-lifecycle:USED"
lifecycle_reason consolidated = "memory-lifecycle:CONSOLIDATED"
lifecycle_reason archive = "memory-lifecycle:ARCHIVED"
lifecycle_reason restore = "memory-lifecycle:RESTORED"
lifecycle_reason tombstone = "memory-lifecycle:TOMBSTONED"
lifecycle_reason delete = "memory-lifecycle:DELETED"

-- The `UPDATE` of the entry, and the invalidation, when the state changes.
unfoldable pub apply_state :
    (ℕ → String) → MemoryLifecycleEvent → MemoryLifecycle → MemoryLifecycle → Db → Db
unfolding invalidate_projection_dependencies
apply_state uuid_text e before after db =
    if same_lifecycle after before
    then db
    else invalidate_projection_dependencies (memory_dependency_key uuid_text e.memory_entry_id)
        (lifecycle_reason e.event_kind)
        (record db {
          memory_entries = map (set_lifecycle e.memory_entry_id after) db.memory_entries;
        })

-- `_record_memory_event_in_tx`
unfoldable pub record_memory_event_in_tx :
    (ℕ → String) → MemoryLifecycleEvent → Bool → Db → Outcome Db
record_memory_event_in_tx uuid_text e update_state db = do
  entry ←
      or_raise (memory_by_id db.memory_entries e.memory_entry_id)
        (value_error "unknown memory entry")
  after ← next_state update_state entry.lifecycle e.event_kind
  db1 ← insert_memory_event e db
  db2 ← log memory_lifecycle_event e.id e.occurred_at db1
  ok (apply_state uuid_text e entry.lifecycle after db2)

abbrev pub is_created : MemoryLifecycleEventKind → Bool
is_created created = true
is_created _ = false

-- `record_memory_event`; the event's identifier comes from `uuid4()`.
unfoldable pub record_memory_event : (ℕ → String) → MemoryLifecycleEvent → Db → Outcome Db
record_memory_event uuid_text e db = do
  raise_if (is_created e.event_kind) (value_error "CREATED is emitted only by memory admission")
  e' ← check_event e
  record_memory_event_in_tx uuid_text e' true db

unfoldable pub memory_entry_for_target : Db → String → ℕ → Option MemoryEntry
memory_entry_for_target db target_type target_id =
    find (λ m. m.target_type == target_type && m.target_id == target_id) db.memory_entries

unfoldable pub active_memory_entry_for_target : Db → String → ℕ → Option MemoryEntry
active_memory_entry_for_target db target_type target_id =
    find
      (λ m.
        m.target_type == target_type
        && m.target_id == target_id
        && same_lifecycle m.lifecycle active)
      db.memory_entries

unfoldable pub is_active_memory_target : Db → String → ℕ → Bool
unfolding active_memory_entry_for_target
is_active_memory_target db target_type target_id =
    is_some (active_memory_entry_for_target db target_type target_id)

-- `memory_lifecycle_events`: the join with the log, in the order of the log
abbrev pub event_row : List MemoryLifecycleEvent → ℕ → LogEntry → List MemoryLifecycleEvent
event_row events id e =
    if same_kind e.kind memory_lifecycle_event
    then elim (find (λ (v : MemoryLifecycleEvent). v.id == e.ref_id) events) [
      | none ↦ []
      | some v ↦ if v.memory_entry_id == id then v ∷ [] else []
    ]
    else []

unfoldable pub event_rows :
    List MemoryLifecycleEvent → ℕ → List LogEntry → List MemoryLifecycleEvent
event_rows events id [] = []
event_rows events id (e ∷ rest) = event_row events id e ++ event_rows events id rest

abbrev pub memory_lifecycle_events : Db → ℕ → List MemoryLifecycleEvent
memory_lifecycle_events db id = event_rows db.memory_lifecycle_events id db.semantic_log

unfoldable pub count_kind : (MemoryLifecycleEventKind → Bool) → ℕ → List MemoryLifecycleEvent → ℕ
count_kind test id [] = 0
count_kind test id (e ∷ events) =
    let rest = count_kind test id events in
    if e.memory_entry_id == id && test e.event_kind then suc rest else rest

abbrev pub is_seen : MemoryLifecycleEventKind → Bool
is_seen seen = true
is_seen _ = false

abbrev pub is_used : MemoryLifecycleEventKind → Bool
is_used used = true
is_used _ = false

unfoldable pub memory_access_counts : Db → ℕ → ℕ × ℕ
unfolding count_kind
memory_access_counts db id = (
  count_kind is_seen id db.memory_lifecycle_events,
  count_kind is_used id db.memory_lifecycle_events,
)

-- The fold over `events[1:]`.
unfoldable pub replay_states : MemoryLifecycle → List MemoryLifecycleEvent → Outcome MemoryLifecycle
replay_states state [] = ok state
replay_states state (e ∷ events) = do
  state' ← next_memory_state state e.event_kind
  replay_states state' events

unfoldable pub replayed_lifecycle : List MemoryLifecycleEvent → Outcome MemoryLifecycle
replayed_lifecycle [] = err (canonical_integrity "memory entry has no CREATED lifecycle event")
replayed_lifecycle (e ∷ events) =
    if is_created e.event_kind
    then replay_states active events
    else err (canonical_integrity "memory entry does not begin with CREATED")

-- One round of `rebuild_memory_lifecycle_states`.
unfoldable pub rebuild_entry : ℕ → Db → Outcome Db
rebuild_entry id db = do
  state ← replayed_lifecycle (memory_lifecycle_events db id)
  ok (record db { memory_entries = map (set_lifecycle id state) db.memory_entries })

unfoldable pub rebuild_entries : List ℕ → Db → Outcome Db
rebuild_entries [] db = ok db
rebuild_entries (id ∷ ids) db = do db' ← rebuild_entry id db; rebuild_entries ids db'

unfoldable pub rebuild_memory_lifecycle_states : Db → Outcome (Db × ℕ)
unfolding rebuild_entries
rebuild_memory_lifecycle_states db = do
  let ids = map (λ (m : MemoryEntry). m.id) db.memory_entries
  db' ← rebuild_entries ids db
  ok (db', length ids)
