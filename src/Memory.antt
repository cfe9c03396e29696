-- ===== src/Memory.antt =====
-- src/sarmady/memory/models.py
pub mod State
use sarmady.Prelude.{ℕ, String, Bool, true, false, Option, ◌==◌, nat_eq, string_eq}
use sarmady.Outcome.{Outcome, ok, value_error, raise_if, ◌>>=◌, ◌>>◌}
use sarmady.Time.{DateTime, require_aware}

pub data MemoryKind : Type 0 where
  semantic episodic source procedural decision experiential : MemoryKind

pub data MemoryLifecycle : Type 0 where
  active archived tombstoned deleted : MemoryLifecycle

pub data MemoryLifecycleEventKind : Type 0 where
  created seen used consolidated archive restore tombstone delete : MemoryLifecycleEventKind

pub record MemoryEntry : Type 0 where
  pub id : ℕ
  pub target_type : String
  pub target_id : ℕ
  pub kind : MemoryKind
  pub created_at : DateTime
  pub lifecycle : MemoryLifecycle

-- `__post_init__`: the value, or what the constructor raises.
unfoldable pub check_entry : MemoryEntry → Outcome MemoryEntry
check_entry m = do
  raise_if (m.target_type == "") (value_error "target_type is required")
  require_aware m.created_at
  ok m

pub record MemoryLifecycleEvent : Type 0 where
  pub id : ℕ
  pub memory_entry_id : ℕ
  pub event_kind : MemoryLifecycleEventKind
  pub occurred_at : DateTime
  pub source : String
  pub reason : Option String

unfoldable pub check_event : MemoryLifecycleEvent → Outcome MemoryLifecycleEvent
check_event e = do
  raise_if (e.source == "") (value_error "source is required")
  require_aware e.occurred_at
  ok e
