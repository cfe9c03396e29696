-- ===== src/Observation.antt =====
-- src/sarmady/epistemic/service.py: `EpistemicMemoryService.observe_claim`, the admission of an
-- observed claim. The identifiers that `uuid4()` gives are arguments.
pub mod Heads
use sarmady.Prelude.{
  ℕ, String, Bool, true, false, not, Option, none, some, List, [], ◌∷◌, ◌&&◌, is_some,
}
use sarmady.Outcome.{Outcome, ok, err, value_error, other_error, raise_if, ◌>>=◌, ◌>>◌}
use sarmady.Time.{DateTime, before, require_aware, require_aware_if}
use sarmady.Values.{Value, mapping, Fields, end}
use sarmady.Memory.{MemoryEntry, semantic, active, check_entry}
use sarmady.Epistemic.{
  Event, Evidence, Claim, ClaimRelation, ClaimRelationKind, supersedes, check_event, check_evidence,
  check_claim, check_relation,
}
use sarmady.Store.{Db}
use sarmady.Store.Epistemic.Checks.{Bundle, current_claim, starts_later}
use sarmady.Store.Epistemic.{commit_claim_bundle}

-- The arguments of `observe_claim`.
pub record Observed : Type 0 where
  pub subject : String
  pub predicate : String
  pub value : Value
  pub source_ref : String
  pub observed_at : DateTime
  pub recorded_at : Option DateTime
  pub payload : Option Fields
  pub valid_from : Option DateTime
  pub valid_to : Option DateTime
  pub relation_kind : Option ClaimRelationKind
  pub supersede_current : Bool

-- What `uuid4()` gives, in the order of the calls; the last is that of the memory's creation event.
pub record Fresh : Type 0 where
  pub event : ℕ
  pub evidence : ℕ
  pub claim : ℕ
  pub memory : ℕ
  pub relation : ℕ
  pub memory_event : ℕ

-- `recorded_at or observed_at`
abbrev pub recorded_or : Option DateTime → DateTime → DateTime
recorded_or none t = t
recorded_or (some r) t = r

abbrev pub fields_or_end : Option Fields → Fields
fields_or_end none = end
fields_or_end (some fs) = fs

abbrev pub is_supersedes : ClaimRelationKind → Bool
is_supersedes supersedes = true
is_supersedes _ = false

abbrev pub not_supersedes : Option ClaimRelationKind → Bool
not_supersedes none = false
not_supersedes (some kind) = not (is_supersedes kind)

-- The relation that the caller chose.
unfoldable pub chosen_kind : Bool → Option ClaimRelationKind → Outcome (Option ClaimRelationKind)
chosen_kind false kind = ok kind
chosen_kind true kind = do
  raise_if (not_supersedes kind)
      (value_error "supersede_current conflicts with explicit relation_kind")
  ok (some supersedes)

abbrev pub observed_event : Observed → Fresh → DateTime → Event
observed_event o ids recorded_at = record {
  id = ids.event;
  kind = "OBSERVATION";
  occurred_at = o.observed_at;
  recorded_at = recorded_at;
  payload = mapping (fields_or_end o.payload);
}

abbrev pub observed_evidence : Observed → Fresh → Event → Evidence
observed_evidence o ids e = record {
  id = ids.evidence;
  event_id = e.id;
  source_ref = o.source_ref;
  captured_at = o.observed_at;
  digest = none;
}

abbrev pub observed_claim : Observed → Fresh → DateTime → Evidence → Claim
observed_claim o ids recorded_at e = record {
  id = ids.claim;
  subject = o.subject;
  predicate = o.predicate;
  value = o.value;
  recorded_at = recorded_at;
  evidence_refs = e.id ∷ [];
  valid_from = o.valid_from;
  valid_to = o.valid_to;
  derivation_ref = none;
}

abbrev pub observed_memory : Fresh → DateTime → Claim → MemoryEntry
observed_memory ids recorded_at c = record {
  id = ids.memory;
  target_type = "Claim";
  target_id = c.id;
  kind = semantic;
  created_at = recorded_at;
  lifecycle = active;
}

-- The relation to the current claim; with a current claim a kind has been chosen by then.
abbrev pub observed_relation :
    Option Claim
    → Option ClaimRelationKind
    → Fresh
    → DateTime
    → Claim
    → Outcome (Option ClaimRelation)
observed_relation none kind ids recorded_at c = ok none
observed_relation (some current) none ids recorded_at c = err (other_error "AssertionError" "")
observed_relation (some current) (some kind) ids recorded_at c = do
  relation ← check_relation (record {
    id = ids.relation;
    source_claim_id = c.id;
    target_claim_id = current.id;
    kind = kind;
    recorded_at = recorded_at;
  })
  ok (some relation)

-- The objects of the observation, each through its constructor.
unfoldable pub observed_bundle :
    Observed → Fresh → DateTime → Option ClaimRelationKind → Option Claim → Outcome Bundle
observed_bundle o ids recorded_at kind current = do
  event ← check_event (observed_event o ids recorded_at)
  evidence ← check_evidence (observed_evidence o ids event)
  claim ← check_claim (observed_claim o ids recorded_at evidence)
  memory ← check_entry (observed_memory ids recorded_at claim)
  relation ← observed_relation current kind ids recorded_at claim
  ok (record {
    event = event;
    evidence = evidence;
    claim = claim;
    memory = memory;
    relation = relation;
  })

unfoldable pub observe_claim : (ℕ → String) → Observed → Fresh → Db → Outcome (Db × Claim)
observe_claim uuid_text o ids db = do
  require_aware o.observed_at
  let recorded_at = recorded_or o.recorded_at o.observed_at
  require_aware recorded_at
  raise_if (before recorded_at o.observed_at) (value_error "recorded_at cannot precede observed_at")
  require_aware_if o.valid_from
  require_aware_if o.valid_to
  kind ← chosen_kind o.supersede_current o.relation_kind
  let current = current_claim db o.subject o.predicate
  raise_if (not (is_some current) && is_some kind)
      (value_error "cannot relate to current state when no current claim exists")
  raise_if (is_some current && not (is_some kind))
      (value_error "existing current claim requires an explicit relation choice")
  raise_if (starts_later o.valid_from recorded_at)
      (value_error "future-valid claims require scheduled activation and are not supported in M1")
  bundle ← observed_bundle o ids recorded_at kind current
  db' ← commit_claim_bundle uuid_text ids.memory_event bundle db
  ok (db', bundle.claim)
