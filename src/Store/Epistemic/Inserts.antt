-- ===== src/Store/Epistemic/Inserts.antt =====
-- `commit_claim_bundle` of epistemic_store.py: the rows that it inserts, under schema.py's constraints.
use sarmady.Prelude.{
  Bool, true, false, not, Option, none, some, [], ◌∷◌, ◌++◌, ◌==◌, ◌&&◌, ◌||◌, nat_eq, string_eq,
  pair_eq, is_some, any_of,
}
use sarmady.Outcome.{Outcome, ok, integrity_error, raise_if, ◌>>=◌, ◌>>◌}
use sarmady.Memory.{MemoryEntry}
use sarmady.Epistemic.{Event, Evidence, Claim, ClaimRelation}
use sarmady.Store.{
  Db, claim_relation, log, claim_by_id, relation_by_id, evidence_by_id, event_by_id, memory_by_id,
}
use sarmady.Store.Resolution.{is_head_moving}
use sarmady.Store.ClaimHeads.{upsert_head, claim_key}

-- One `INSERT` for each table: its primary key is new, and what it refers to is there.
unfoldable pub insert_event : Event → Db → Outcome Db
insert_event e db = do
  raise_if (is_some (event_by_id db.events e.id))
      (integrity_error "UNIQUE constraint failed: events.id")
  ok (record db { events = db.events ++ e ∷ [] })

unfoldable pub insert_evidence : Evidence → Db → Outcome Db
insert_evidence e db = do
  raise_if (is_some (evidence_by_id db.evidence e.id))
      (integrity_error "UNIQUE constraint failed: evidence.id")
  raise_if (not (is_some (event_by_id db.events e.event_id)))
      (integrity_error "FOREIGN KEY constraint failed")
  ok (record db { evidence = db.evidence ++ e ∷ [] })

unfoldable pub insert_claim : Claim → Db → Outcome Db
insert_claim c db = do
  raise_if (is_some (claim_by_id db.claims c.id))
      (integrity_error "UNIQUE constraint failed: claims.id")
  ok (record db { claims = db.claims ++ c ∷ [] })

unfoldable pub insert_relation : ClaimRelation → Db → Outcome Db
insert_relation r db = do
  raise_if (is_some (relation_by_id db.claim_relations r.id))
      (integrity_error "UNIQUE constraint failed: claim_relations.id")
  raise_if
      (not (is_some (claim_by_id db.claims r.source_claim_id))
        || not (is_some (claim_by_id db.claims r.target_claim_id)))
      (integrity_error "FOREIGN KEY constraint failed")
  ok (record db { claim_relations = db.claim_relations ++ r ∷ [] })

-- `id` is the primary key and `(target_type, target_id)` a unique index.
unfoldable pub insert_memory_entry : MemoryEntry → Db → Outcome Db
insert_memory_entry m db = do
  raise_if (is_some (memory_by_id db.memory_entries m.id))
      (integrity_error "UNIQUE constraint failed: memory_entries.id")
  raise_if
      (any_of (λ (n : MemoryEntry). n.target_type == m.target_type && n.target_id == m.target_id)
        db.memory_entries)
      (integrity_error "UNIQUE constraint failed: memory_entries.target_type, target_id")
  ok (record db { memory_entries = db.memory_entries ++ m ∷ [] })

-- the relation, and whether the head moves
unfoldable pub commit_relation : Option ClaimRelation → Db → Outcome Db
unfolding insert_relation log
commit_relation none db = ok db
commit_relation (some r) db = do
  db' ← insert_relation r db
  log claim_relation r.id r.recorded_at db'

abbrev pub moves_head : Option Claim → Option ClaimRelation → Bool
moves_head current none = not (is_some current)
moves_head current (some r) = is_head_moving r.kind

unfoldable pub move_head : Bool → Claim → Db → Db
move_head true c db = record db { claim_heads = upsert_head (claim_key c) c.id db.claim_heads }
move_head false c db = db
