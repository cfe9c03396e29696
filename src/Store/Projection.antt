-- ===== src/Store/Projection.antt =====
-- src/sarmady/storage/sqlite/projection_store.py: the registration of a compiled projection, and
-- whether it is stale already.
pub mod Registration
pub mod Freshness
use Prim.Native.String.{◌++◌ as append}
use sarmady.Prelude.{
  ℕ, ℤ, pos, leb_ℤ, ltb, String, Bool, true, false, not, Option, none, some, List, [], ◌∷◌, ◌++◌,
  map, ◌==◌, ◌&&◌, ◌||◌, Eq, elem, any_of, is_some, find, nat_eq, string_eq, option_eq, pair_eq,
  if◌then◌else◌,
}
use sarmady.Outcome.{
  Outcome, ok, err, value_error, integrity_error, key_error, raise_if, or_raise, ◌>>=◌, ◌>>◌,
}
use sarmady.Time.{DateTime, same_time}
use sarmady.Host.{Host}
use sarmady.Epistemic.{Claim, ClaimRelation, Event, Evidence}
use sarmady.Memory.{MemoryEntry, MemoryLifecycleEvent, MemoryLifecycleEventKind, seen, used}
use sarmady.Context.{
  ContextRequest, ContextProjection, ContextItem, ExactCoverageRequirement, check_request,
}
use sarmady.Store.{
  Db, LogKind, LogEntry, ProjectionRow, claim, claim_relation, memory_entry, memory_lifecycle_event,
  event, evidence, agent, frontier, unproven_dependency, epistemic_dependency_key,
  memory_dependency_key, claim_by_id, relation_by_id, evidence_by_id, event_by_id, memory_by_id,
  projection_by_id, request_by_id,
}
use sarmady.Store.Capture.{Ref, Capture, covered, consume_capture}

abbrev pub supported : ContextItem → Bool
supported i = i.ref_type == "Claim" || i.ref_type == "Evidence"

abbrev pub all_supported : List ContextItem → Bool
all_supported [] = true
all_supported (i ∷ is) = supported i && all_supported is

abbrev pub item_refs : List ContextItem → List Ref
item_refs is = map (λ (i : ContextItem). (i.ref_type, i.ref_id)) is

abbrev pub provenance : List ContextItem → List ℕ
provenance [] = []
provenance (i ∷ is) = i.provenance_refs ++ provenance is

abbrev pub required_refs : ContextProjection → List Ref
required_refs p = item_refs p.items ++ map (λ (id : ℕ). ("ClaimRelation", id)) p.conflict_refs

abbrev pub required_any_refs : ContextProjection → List ℕ
required_any_refs p = p.omitted_refs ++ provenance p.items

-- What registration keeps of the lineage: whether it is proven, the dependencies, and the capture.
pub record Lineage : Type 0 where
  pub proven : Bool
  pub dependencies : List String
  pub capture : Option Capture

abbrev pub is_nil {ℓ} : {A : Type ℓ} → List A → Bool
is_nil [] = true
is_nil (x ∷ xs) = false

abbrev pub captured_lineage : Capture → Lineage
captured_lineage c =
    if is_nil c.keys && is_nil c.read_refs
    then record { proven = false; dependencies = unproven_dependency ∷ []; capture = some c }
    else record { proven = true; dependencies = c.keys; capture = some c }

unfoldable pub lineage_of : ContextProjection → List String → Option Capture → Outcome Lineage
lineage_of p declared none =
    ok (record { proven = false; dependencies = unproven_dependency ∷ declared; capture = none })
lineage_of p declared (some c) = do
  consumed ← consume_capture p.canonical_frontier (required_refs p) (required_any_refs p) c
  raise_if (not (is_nil declared) && not (covered declared c.keys && covered c.keys declared))
      (value_error "declared dependency_keys do not match captured context dependencies")
  ok (captured_lineage consumed)

-- `_canonical_metadata_ref_exists_in_tx`
unfoldable pub metadata_ref_exists : Db → ℕ → Bool
metadata_ref_exists db id =
    is_some (event_by_id db.events id)
    || is_some (evidence_by_id db.evidence id)
    || is_some (claim_by_id db.claims id)
    || is_some (relation_by_id db.claim_relations id)
    || is_some (memory_by_id db.memory_entries id)

abbrev pub item_exists : Db → ContextItem → Bool
item_exists db i =
    if i.ref_type == "Claim"
    then is_some (claim_by_id db.claims i.ref_id)
    else i.ref_type == "Evidence" && is_some (evidence_by_id db.evidence i.ref_id)

unfoldable pub validate_items : Db → List ContextItem → Outcome (Unit {0})
validate_items db [] = ok tt
validate_items db (i ∷ is) = do
  raise_if (not (item_exists db i)) (value_error "context projection references unknown item")
  raise_if (any_of (λ id. not (metadata_ref_exists db id)) i.provenance_refs)
      (value_error "context projection references unknown provenance artifact")
  validate_items db is

unfoldable pub validate_context_projection_refs : Db → ContextProjection → Outcome (Unit {0})
validate_context_projection_refs db p = do
  validate_items db p.items
  raise_if (any_of (λ id. not (is_some (relation_by_id db.claim_relations id))) p.conflict_refs)
      (value_error "context projection references unknown conflict relation")
  raise_if (any_of (λ id. not (metadata_ref_exists db id)) p.omitted_refs)
      (value_error "context projection references unknown omitted artifact")

abbrev pub claim_key_of : Option Claim → List String
claim_key_of none = []
claim_key_of (some c) = epistemic_dependency_key c.subject c.predicate ∷ []

abbrev pub relation_key_of : Db → Option ClaimRelation → List String
relation_key_of db none = []
relation_key_of db (some r) = claim_key_of (claim_by_id db.claims r.source_claim_id)

abbrev pub memory_key_of : (ℕ → String) → Option MemoryEntry → List String
memory_key_of uuid_text none = []
memory_key_of uuid_text (some m) = memory_dependency_key uuid_text m.id ∷ []

abbrev pub lifecycle_key_of : (ℕ → String) → Option MemoryLifecycleEvent → List String
lifecycle_key_of uuid_text none = []
lifecycle_key_of uuid_text (some e) = elim e.event_kind [
  | seen ↦ []
  | used ↦ []
  | _ ↦ memory_dependency_key uuid_text e.memory_entry_id ∷ []
]

-- the keys that an entry of the log changes
unfoldable pub changed_keys : (ℕ → String) → Db → LogKind → ℕ → List String
changed_keys uuid_text db claim id = claim_key_of (claim_by_id db.claims id)
changed_keys uuid_text db claim_relation id =
    relation_key_of db (relation_by_id db.claim_relations id)
changed_keys uuid_text db memory_entry id =
    memory_key_of uuid_text (memory_by_id db.memory_entries id)
changed_keys uuid_text db memory_lifecycle_event id =
    lifecycle_key_of uuid_text
      (find (λ (e : MemoryLifecycleEvent). e.id == id) db.memory_lifecycle_events)
changed_keys uuid_text db _ id = []

-- `_dependency_keys_changed_since`
unfoldable pub keys_changed_since : (ℕ → String) → Db → ℕ → List LogEntry → List String
unfolding changed_keys
keys_changed_since uuid_text db at [] = []
keys_changed_since uuid_text db at (e ∷ log) =
    let rest = keys_changed_since uuid_text db at log in
    if ltb at e.seq then changed_keys uuid_text db e.kind e.ref_id ++ rest else rest
