-- ===== src/Store/Lifecycle.antt =====
-- The lifecycle column of memory entries against their lifecycle events, through the writes of
-- src/sarmady/storage/sqlite/memory_store.py and epistemic_store.py.
pub mod Entries
pub mod Rows
pub mod Writes
pub mod Agreement
pub mod Admission
pub mod Replay
pub mod Rebuild
use mathlib.Core.Path.{subst}
use sarmady.Prelude.{
  ℕ, ◌≡◌, refl, sym, ap, ◌∙◌, Bool, true, false, Option, none, some, List, [], ◌∷◌, ◌++◌, any_of,
  find,
}
use sarmady.Outcome.{Outcome, ok}
use sarmady.Memory.{MemoryEntry, MemoryLifecycleEvent}
use sarmady.Store.{Db, LogEntry, is_entry, memory_lifecycle_event, memory_by_id}
use sarmady.Store.Memory.{event_rows, memory_lifecycle_events, replayed_lifecycle}

-- No two entries have one identifier, as the primary key has it.
abbrev pub Distinct : List MemoryEntry → Type 0
Distinct [] = Unit
Distinct (m ∷ rows) = (memory_by_id rows m.id ≡ none) × Distinct rows

-- The column of every entry is what its events replay to, and events are of known entries.
pub record LifecyclesAgree (db : Db) : Type 0 where
  pub replayed :
      (id : ℕ) (m : MemoryEntry)
      → memory_by_id db.memory_entries id ≡ some m
      → replayed_lifecycle (event_rows db.memory_lifecycle_events id db.semantic_log)
        ≡ ok m.lifecycle
  pub distinct : Distinct db.memory_entries
  pub known :
      (id : ℕ)
      → memory_by_id db.memory_entries id ≡ none
      → event_rows db.memory_lifecycle_events id db.semantic_log ≡ []

-- A write that leaves entries and their events as they are.
pub record Unmoved (a b : Db) : Type 0 where
  pub entries : b.memory_entries ≡ a.memory_entries
  pub events : b.memory_lifecycle_events ≡ a.memory_lifecycle_events
  pub rows :
      (events : List MemoryLifecycleEvent) (id : ℕ)
      → event_rows events id b.semantic_log ≡ event_rows events id a.semantic_log

pub Unmoved-trans : {a b c : Db} → Unmoved a b → Unmoved b c → Unmoved a c
Unmoved-trans f g = record {
  entries = g.entries ∙ f.entries;
  events = g.events ∙ f.events;
  rows = λ events id. g.rows events id ∙ f.rows events id;
}

-- A write to other tables.
pub Unmoved-same :
    {a b : Db}
    → b.memory_entries ≡ a.memory_entries
    → b.memory_lifecycle_events ≡ a.memory_lifecycle_events
    → b.semantic_log ≡ a.semantic_log
    → Unmoved a b
Unmoved-same entries events log = record {
  entries = entries;
  events = events;
  rows = λ es id. rw log refl;
}

pub Unmoved-LifecyclesAgree : {a b : Db} → Unmoved a b → LifecyclesAgree a → LifecyclesAgree b
Unmoved-LifecyclesAgree {a} {b} u g = record {
  replayed = λ id m found.
      ap replayed_lifecycle
        (ap (λ es. event_rows es id b.semantic_log) u.events ∙ u.rows a.memory_lifecycle_events id)
      ∙ g.replayed id m (rw u.entries at found);
  distinct = subst Distinct (sym u.entries) g.distinct;
  known = λ id found.
      ap (λ es. event_rows es id b.semantic_log) u.events
      ∙ u.rows a.memory_lifecycle_events id
      ∙ g.known id (rw u.entries at found);
}
