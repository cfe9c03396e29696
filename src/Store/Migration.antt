-- ===== src/Store/Migration.antt =====
-- src/sarmady/storage/sqlite/schema.py: what `initialize_schema` does to the rows of a store of an
-- earlier version. `uuid5` gives the identifier of the event for the identifier of an entry.
pub mod Retry
pub mod Idempotent
use sarmady.Prelude.{
  ℕ, suc, ◌≡◌, refl, sym, ap, ◌∙◌, String, Bool, true, false, not, Option, none, some, List, [],
  ◌∷◌, ◌++◌, map, ◌==◌, ◌&&◌, ◌||◌, elem, any_of, find, select, ltb, nat_eq, string_eq, is_some,
  if◌then◌else◌, All, find-All, arith, Bool-cases, inl, inr, any_of-append,
}
use sarmady.Outcome.{
  Outcome, ok, runtime_error, ◌>>=◌, ◌>>◌, err, value_error, key_error, raise_if, or_raise,
  >>=-eq-ok, raise_if-eq-ok,
}
use sarmady.Memory.{MemoryEntry, MemoryLifecycleEvent, created}
use sarmady.Cognition.{CognitiveRequest}
use sarmady.Store.{
  Db, ProjectionRow, LogEntry, memory_lifecycle_event, frontier, is_entry, unproven_dependency,
  make_stale, projection_by_id, agent_by_id,
}
use sarmady.Store.Cognitive.{projection_is_stale, create_cognitive_request}

abbrev pub created_backfill : (ℕ → ℕ) → MemoryEntry → MemoryLifecycleEvent
created_backfill uuid5 m = record {
  id = uuid5 m.id;
  memory_entry_id = m.id;
  event_kind = created;
  occurred_at = m.created_at;
  source = "schema-migration-v2";
  reason = some "backfill legacy memory admission";
}

-- `INSERT OR IGNORE INTO memory_lifecycle_events`
abbrev pub insert_or_ignore : MemoryLifecycleEvent → Db → Db
insert_or_ignore e db =
    if any_of (λ (f : MemoryLifecycleEvent). f.id == e.id) db.memory_lifecycle_events
    then db
    else record db { memory_lifecycle_events = db.memory_lifecycle_events ++ e ∷ [] }

-- The entry of the log, without the invalidation that `_log` does.
abbrev pub log_if_absent : MemoryLifecycleEvent → Db → Db
log_if_absent e db =
    if any_of (is_entry memory_lifecycle_event e.id) db.semantic_log then db else record db {
      semantic_log =
          db.semantic_log
          ++ record {
            seq = suc (frontier db);
            kind = memory_lifecycle_event;
            ref_id = e.id;
            recorded_at = e.occurred_at;
          }
            ∷ [];
    }

unfoldable pub backfill_entries : (ℕ → ℕ) → List MemoryEntry → Db → Db
backfill_entries uuid5 [] db = db
backfill_entries uuid5 (m ∷ ms) db =
    let e = created_backfill uuid5 m in
    backfill_entries uuid5 ms (log_if_absent e (insert_or_ignore e db))

abbrev pub has_no_event : List MemoryLifecycleEvent → MemoryEntry → Bool
has_no_event events m =
    not (any_of (λ (e : MemoryLifecycleEvent). e.memory_entry_id == m.id) events)

-- `_backfill_legacy_memory_created_events`: the rows are read before the first write.
unfoldable pub backfill_memory_created_events : (ℕ → ℕ) → Db → Db
backfill_memory_created_events uuid5 db =
    backfill_entries uuid5 (select (has_no_event db.memory_lifecycle_events) db.memory_entries) db

abbrev pub with_unproven : ProjectionRow → ProjectionRow
with_unproven row =
    if elem unproven_dependency row.dependencies
    then row
    else record row { dependencies = row.dependencies ++ unproven_dependency ∷ [] }

-- `_backfill_legacy_projection_lineage`
unfoldable pub backfill_projection_lineage : Db → Db
backfill_projection_lineage db = record db {
  context_projections =
      map
        (λ row.
          make_stale (λ r. true) "schema-v6-unproven-lineage-migration" (frontier db)
            (with_unproven row))
        db.context_projections;
}

abbrev pub backfill_below_six : Bool → Db → Db
backfill_below_six true db = backfill_projection_lineage db
backfill_below_six false db = db

-- `initialize_schema` on the rows of a store of the given version, up to the new version's number.
unfoldable pub migrate : (ℕ → ℕ) → ℕ → Db → Outcome Db
migrate uuid5 version db = do
  raise_if (ltb 7 version) (runtime_error "unsupported Sarmady SQLite schema version")
  ok (backfill_below_six (ltb version 6) (backfill_memory_created_events uuid5 db))
