-- ===== src/Store/Epistemic/Checks.antt =====
-- `commit_claim_bundle` of epistemic_store.py: what is checked before the first write.
use sarmady.Prelude.{
  ℕ, String, Bool, true, false, not, Option, none, some, List, [], ◌∷◌, ◌==◌, ◌||◌, nat_eq,
  string_eq, pair_eq, elem, if◌then◌else◌,
}
use sarmady.Outcome.{Outcome, ok, err, value_error, raise_if, or_raise, ◌>>=◌, ◌>>◌}
use sarmady.Time.{DateTime, before, same_time}
use sarmady.Memory.{
  MemoryEntry, MemoryLifecycle, active, archived, tombstoned, deleted, MemoryLifecycleEvent,
  created,
}
use sarmady.Memory
use sarmady.Epistemic.{
  Event, Evidence, Claim, ClaimRelation, check_event, check_evidence, check_claim, check_relation,
}
use sarmady.Store.{Db, claim_by_id, evidence_by_id, event_by_id}
use sarmady.Store.ClaimHeads.{lookup_head}

-- The arguments of `commit_claim_bundle`.
pub record Bundle : Type 0 where
  pub event : Event
  pub evidence : Evidence
  pub claim : Claim
  pub memory : MemoryEntry
  pub relation : Option ClaimRelation

abbrev pub is_active : MemoryLifecycle → Bool
is_active active = true
is_active _ = false

abbrev pub check_relation_if : Option ClaimRelation → Outcome (Option ClaimRelation)
check_relation_if none = ok none
check_relation_if (some r) = do r' ← check_relation r; ok (some r')

-- every constructor runs again, on the values as they are
unfoldable pub reconstruct : Bundle → Outcome Bundle
reconstruct b = do
  event' ← check_event b.event
  evidence' ← check_evidence b.evidence
  claim' ← check_claim b.claim
  memory' ← Memory.check_entry b.memory
  relation' ← check_relation_if b.relation
  ok (record {
    event = event';
    evidence = evidence';
    claim = claim';
    memory = memory';
    relation = relation';
  })

abbrev pub relation_time_differs : Option ClaimRelation → Claim → Bool
relation_time_differs none c = false
relation_time_differs (some r) c = not (same_time r.recorded_at c.recorded_at)

abbrev pub starts_later : Option DateTime → DateTime → Bool
starts_later none t = false
starts_later (some start) t = before t start

unfoldable pub validate_bundle : Bundle → Outcome (Unit {0})
validate_bundle b = do
  raise_if (not (b.evidence.event_id == b.event.id))
      (value_error "evidence must reference the bundled event")
  raise_if (not (elem b.evidence.id b.claim.evidence_refs))
      (value_error "claim must reference the bundled evidence")
  raise_if (not (b.memory.target_type == "Claim") || not (b.memory.target_id == b.claim.id))
      (value_error "memory entry must target the bundled claim")
  raise_if (not (is_active b.memory.lifecycle))
      (value_error "new memory admission must begin ACTIVE")
  raise_if
      (not (same_time b.event.recorded_at b.claim.recorded_at)
        || not (same_time b.memory.created_at b.claim.recorded_at))
      (value_error "event, claim, and memory admission must share one recorded_at")
  raise_if (relation_time_differs b.relation b.claim)
      (value_error "claim relation must share the bundled claim recorded_at")
  raise_if (before b.claim.recorded_at b.evidence.captured_at)
      (value_error "evidence cannot be captured after claim admission")
  raise_if (starts_later b.claim.valid_from b.claim.recorded_at)
      (value_error "future-valid claims require scheduled activation and are not supported in M1")

-- the join of `claim_heads` with `claims`
unfoldable pub current_claim : Db → String → String → Option Claim
current_claim db subject predicate = elim (lookup_head db.claim_heads (subject, predicate)) [
  | none ↦ none
  | some i ↦ claim_by_id db.claims i
]

-- The checks against the current claim, under the write lock.
unfoldable pub check_current : Option Claim → Claim → Option ClaimRelation → Outcome (Unit {0})
check_current none c none = ok tt
check_current none c (some r) =
    err (value_error "initial claim cannot revise a missing current claim")
check_current (some current) c relation = do
  raise_if (before c.recorded_at current.recorded_at)
      (value_error "new claim recorded_at cannot precede the locked current claim")
  r ←
      or_raise relation
        (value_error "a claim over existing current state requires an explicit relation")
  raise_if (not (r.source_claim_id == c.id) || not (r.target_claim_id == current.id))
      (value_error "revision relation must point from new claim to the locked current claim")

-- The checks of the evidence that the claim cites beside the bundled one.
unfoldable pub check_evidence_ref : Db → Claim → ℕ → ℕ → Outcome (Unit {0})
check_evidence_ref db c own ref = if ref == own then ok tt else (do
  cited ←
      or_raise (evidence_by_id db.evidence ref) (value_error "claim references unknown evidence")
  raise_if (before c.recorded_at cited.captured_at)
      (value_error "claim references evidence captured after claim admission")
  origin ←
      or_raise (event_by_id db.events cited.event_id)
        (value_error "evidence references unknown event")
  raise_if (before c.recorded_at origin.recorded_at)
      (value_error "claim references evidence learned after claim admission"))

unfoldable pub check_evidence_refs : Db → Claim → ℕ → List ℕ → Outcome (Unit {0})
check_evidence_refs db c own [] = ok tt
check_evidence_refs db c own (ref ∷ refs) = do
  check_evidence_ref db c own ref
  check_evidence_refs db c own refs
