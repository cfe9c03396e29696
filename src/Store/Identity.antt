-- ===== src/Store/Identity.antt =====
-- src/sarmady/storage/sqlite/identity_store.py
use sarmady.Prelude.{ℕ, ◌≡◌, refl, Option, none, [], ◌∷◌, ◌++◌, nat_eq, is_some, is_some-none}
use sarmady.Outcome.{Outcome, ok, integrity_error, raise_if, ◌>>=◌, ◌>>◌, >>=-eq-ok, raise_if-eq-ok}
use sarmady.Kernel.Identity.{Agent}
use sarmady.Store
use sarmady.Store.{Db, log, agent_by_id}
use sarmady.Store.Quiet.{Quiet, Quiet-trans, Quiet-same, Quiet-ok, Quiet-log}

unfoldable pub insert_agent : Agent → Db → Outcome Db
insert_agent a db = do
  raise_if (is_some (agent_by_id db.agents a.id))
      (integrity_error "UNIQUE constraint failed: agents.id")
  ok (record db { agents = db.agents ++ a ∷ [] })

unfoldable pub register_agent : Agent → Db → Outcome Db
register_agent a db = do db' ← insert_agent a db; log Store.agent a.id a.created_at db'

unfoldable pub agent : Db → ℕ → Option Agent
agent db id = agent_by_id db.agents id

pub insert_agent-eq-ok :
    (a : Agent) (db : Db) {db' : Db}
    → insert_agent a db ≡ ok db'
    → (agent_by_id db.agents a.id ≡ none)
      × (ok (record db { agents = db.agents ++ a ∷ [] }) ≡ ok db')
unfolding insert_agent
insert_agent-eq-ok a db h =
    let (fresh, e) = raise_if-eq-ok (is_some (agent_by_id db.agents a.id)) _ _ h in
    (is_some-none (agent_by_id db.agents a.id) fresh, e)

pub Quiet-register_agent :
    (a : Agent) (db : Db) {db' : Db} → register_agent a db ≡ ok db' → Quiet db db'
unfolding register_agent
Quiet-register_agent a db h =
    let (mid, inserted, noted) = >>=-eq-ok (insert_agent a db) _ h in
    let (_, e) = insert_agent-eq-ok a db inserted in
    Quiet-trans (Quiet-ok e (Quiet-same refl refl refl refl))
      (Quiet-log Store.agent a.id a.created_at mid refl refl noted)
