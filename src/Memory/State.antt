-- ===== src/Memory/State.antt =====
-- src/sarmady/storage/sqlite/memory_state.py: the lifecycle of a memory entry.
use sarmady.Outcome.{Outcome, ok, err, canonical_integrity}
use sarmady.Memory.{
  MemoryLifecycle, active, archived, tombstoned, deleted, MemoryLifecycleEventKind, created, seen,
  used, consolidated, archive, restore, tombstone, delete,
}

unfoldable pub next_memory_state :
    MemoryLifecycle → MemoryLifecycleEventKind → Outcome MemoryLifecycle
next_memory_state current created = ok current
next_memory_state current seen = ok current
next_memory_state current used = ok current
next_memory_state current consolidated = ok current
next_memory_state active archive = ok archived
next_memory_state _ archive = err (canonical_integrity "only ACTIVE memory can be archived")
next_memory_state archived restore = ok active
next_memory_state _ restore = err (canonical_integrity "only ARCHIVED memory can be restored")
next_memory_state active tombstone = ok tombstoned
next_memory_state archived tombstone = ok tombstoned
next_memory_state _ tombstone =
    err (canonical_integrity "only ACTIVE or ARCHIVED memory can be tombstoned")
next_memory_state tombstoned delete = ok deleted
next_memory_state _ delete = err (canonical_integrity "memory must be TOMBSTONED before DELETED")
