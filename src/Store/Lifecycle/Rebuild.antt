-- ===== src/Store/Lifecycle/Rebuild.antt =====
-- rebuild_memory_lifecycle_states of src/sarmady/storage/sqlite/memory_store.py on a store whose
-- lifecycle column agrees with the events.
use sarmady.Prelude.{
  ℕ, suc, ◌≡◌, refl, ap, String, true, List, [], ◌∷◌, map, length, All, is_some, Option-cases, inl,
  inr,
}
use sarmady.Outcome.{ok}
use sarmady.Memory.{MemoryEntry}
use sarmady.Store.{Db, empty_db, memory_by_id}
use sarmady.Store.Memory.{rebuild_entry, rebuild_entries, rebuild_memory_lifecycle_states}
use sarmady.Store.History.{Operation, run}
use sarmady.Store.Lifecycle.{LifecyclesAgree}
use sarmady.Store.Lifecycle.Entries.{set_same, rows_found}
use sarmady.Store.Lifecycle.Replay.{empty_db-LifecyclesAgree, run-LifecyclesAgree}

length-map : (f : MemoryEntry → ℕ) (xs : List MemoryEntry) → length (map f xs) ≡ length xs
length-map f [] = refl
length-map f (x ∷ xs) = ap suc (length-map f xs)

module _ (db : Db) (g : LifecyclesAgree db) where
  rebuild_entry_same :
      (id : ℕ) → is_some (memory_by_id db.memory_entries id) ≡ true → rebuild_entry id db ≡ ok db
  unfolding rebuild_entry
  rebuild_entry_same id there = elim (Option-cases (memory_by_id db.memory_entries id)) [
    | inl absent ↦ let wrong = rw absent at there in cc
    | inr (m, found) ↦ rw (g.replayed id m found) (
        ap (λ rows. ok (record db { memory_entries = rows }))
          (set_same id db.memory_entries m g.distinct found))
  ]

  rebuild_entries_same :
      (rows : List MemoryEntry)
      → All (λ (m : MemoryEntry). is_some (memory_by_id db.memory_entries m.id) ≡ true) rows
      → rebuild_entries (map (λ (m : MemoryEntry). m.id) rows) db ≡ ok db
  unfolding rebuild_entries
  rebuild_entries_same [] h = refl
  rebuild_entries_same (m ∷ rows) h =
      rw (rebuild_entry_same m.id h.0) (rebuild_entries_same rows h.1)

-- After any sequence of commits, memory events and registrations of agents on an empty store, failed
-- ones rolled back, rebuild_memory_lifecycle_states does not raise, changes nothing, and returns
-- the number of memory entries.
pub rebuild_memory_lifecycle_states-run :
    (uuid_text : ℕ → String) (ops : List Operation)
    → rebuild_memory_lifecycle_states (run uuid_text ops empty_db)
      ≡ ok (run uuid_text ops empty_db, length (run uuid_text ops empty_db).memory_entries)
unfolding rebuild_memory_lifecycle_states
rebuild_memory_lifecycle_states-run uuid_text ops =
    let db = run uuid_text ops empty_db in
    rw
      (rebuild_entries_same db (run-LifecyclesAgree uuid_text ops empty_db empty_db-LifecyclesAgree)
        db.memory_entries (rows_found db.memory_entries))
      (ap (λ n. ok (db, n)) (length-map (λ m. m.id) db.memory_entries))
