-- ===== src/Kernel/Identity.antt =====
-- src/sarmady/kernel/identity.py
use sarmady.Prelude.{ℕ, String}
use sarmady.Outcome.{Outcome, ok, value_error, raise_if, ◌>>◌}
use sarmady.Time.{DateTime, require_aware}
use sarmady.Host.{Host}
use sarmady.Context.{is_blank}

pub record Agent : Type 0 where
  pub id : ℕ
  pub name : String
  pub created_at : DateTime

-- `Agent.__post_init__`
unfoldable pub check_agent : Host → Agent → Outcome Agent
check_agent host a = do
  raise_if (is_blank host a.name) (value_error "agent name is required")
  require_aware a.created_at
  ok a
