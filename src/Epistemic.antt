-- ===== src/Epistemic.antt =====
-- src/sarmady/epistemic/models.py
use sarmady.Prelude.{ℕ, String, Bool, false, not, Option, none, some, List, ◌==◌, nat_eq, string_eq}
use sarmady.Outcome.{Outcome, ok, value_error, raise_if, ◌>>=◌, ◌>>◌}
use sarmady.Time.{DateTime, before, require_aware, require_aware_if}
use sarmady.Values.{Value, freeze_value}

pub data ClaimRelationKind : Type 0 where
  supports corrects supersedes contradicts refines : ClaimRelationKind

pub data ResolutionStatus : Type 0 where
  missing resolved contested : ResolutionStatus

pub record Event : Type 0 where
  pub id : ℕ
  pub kind : String
  pub occurred_at : DateTime
  pub recorded_at : DateTime
  pub payload : Value

-- `Event.__post_init__`: the admitted value, or what the constructor raises.
unfoldable pub check_event : Event → Outcome Event
check_event e = do
  raise_if (e.kind == "") (value_error "kind is required")
  require_aware e.occurred_at
  require_aware e.recorded_at
  raise_if (before e.recorded_at e.occurred_at)
      (value_error "recorded_at cannot precede occurred_at")
  frozen ← freeze_value e.payload
  ok (record e { payload = frozen })

pub record Evidence : Type 0 where
  pub id : ℕ
  pub event_id : ℕ
  pub source_ref : String
  pub captured_at : DateTime
  pub digest : Option String

unfoldable pub check_evidence : Evidence → Outcome Evidence
check_evidence e = do
  raise_if (e.source_ref == "") (value_error "source_ref is required")
  require_aware e.captured_at
  ok e

pub record Claim : Type 0 where
  pub id : ℕ
  pub subject : String
  pub predicate : String
  pub value : Value
  pub recorded_at : DateTime
  pub evidence_refs : List ℕ
  pub valid_from : Option DateTime
  pub valid_to : Option DateTime
  pub derivation_ref : Option ℕ

-- `valid_from is not None and valid_to is not None and valid_to <= valid_from`
abbrev pub empty_interval : Option DateTime → Option DateTime → Bool
empty_interval (some start) (some stop) = not (before start stop)
empty_interval (some start) none = false
empty_interval none stop = false

unfoldable pub check_claim : Claim → Outcome Claim
check_claim c = do
  raise_if (c.subject == "") (value_error "subject is required")
  raise_if (c.predicate == "") (value_error "predicate is required")
  require_aware c.recorded_at
  require_aware_if c.valid_from
  require_aware_if c.valid_to
  raise_if (empty_interval c.valid_from c.valid_to)
      (value_error "valid_to must be later than valid_from")
  frozen ← freeze_value c.value
  ok (record c { value = frozen })

pub record ClaimRelation : Type 0 where
  pub id : ℕ
  pub source_claim_id : ℕ
  pub target_claim_id : ℕ
  pub kind : ClaimRelationKind
  pub recorded_at : DateTime

unfoldable pub check_relation : ClaimRelation → Outcome ClaimRelation
check_relation r = do
  raise_if (r.source_claim_id == r.target_claim_id)
      (value_error "claim relation cannot point a claim to itself")
  require_aware r.recorded_at
  ok r

-- `computed_at` is left out: it is the wall clock's time, which nothing reads.
pub record ResolvedState : Type 0 where
  pub subject : String
  pub predicate : String
  pub status : ResolutionStatus
  pub operative_claim_id : Option ℕ
  pub competing_claim_ids : List ℕ
  pub conflict_relation_ids : List ℕ
  pub value : Value
  pub snapshot_frontier : ℕ
