-- ===== src/Store/ResolvedState.antt =====
-- src/sarmady/storage/sqlite/resolution.py: `claim_valid_at` and `resolve_state`.
pub mod Fuel
use sarmady.Prelude.{
  ℕ, zero, suc, String, Bool, true, not, Option, none, some, List, [], ◌∷◌, ◌++◌, map, ◌==◌, ◌&&◌,
  ◌||◌, nat_eq, string_eq, pair_eq, elem, leb, ltb, length, if◌then◌else◌,
}
use sarmady.Outcome.{Outcome, ok, err, canonical_integrity, out_of_fuel, or_raise, ◌>>=◌}
use sarmady.Time.{DateTime}
use sarmady.Values.{null}
use sarmady.Epistemic.{
  Claim, ClaimRelation, ResolutionStatus, missing, resolved, contested, ResolvedState,
}
use sarmady.Store.{LogEntry, Db, claim_relation, same_kind, claim_by_id, relation_by_id}
use sarmady.Store.Resolution.{normalized_if, learned_later, is_contradicts, Lineage, head_for_key}

-- `valid_from <= point < valid_to`, an end that is absent not tested
abbrev pub claim_valid_from : Option DateTime → ℕ → Bool
claim_valid_from none point = true
claim_valid_from (some start) point = leb start.instant point

abbrev pub claim_valid_to : Option DateTime → ℕ → Bool
claim_valid_to none point = true
claim_valid_to (some stop) point = ltb point stop.instant

unfoldable pub claim_valid_at : Claim → ℕ → Bool
claim_valid_at c point = claim_valid_from c.valid_from point && claim_valid_to c.valid_to point

abbrev pub valid_if : Claim → Option ℕ → Bool
valid_if c none = true
valid_if c (some point) = claim_valid_at c point

unfoldable pub parent_of : List (ℕ × ℕ) → ℕ → Option ℕ
parent_of [] i = none
parent_of ((source, target) ∷ parents) i = if source == i then some target else parent_of parents i

-- The `while cursor is not None` walk along the revision lineage, on fuel.
unfoldable pub walk_lineage :
    ℕ → List Claim → List (ℕ × ℕ) → ℕ → List ℕ → Option ℕ → Outcome (Option ℕ)
walk_lineage fuel claims parents point seen none = ok none
walk_lineage zero claims parents point seen (some cursor) = err out_of_fuel
walk_lineage (suc fuel) claims parents point seen (some cursor) =
    let rest = walk_lineage fuel claims parents point (cursor ∷ seen) (parent_of parents cursor) in
    if elem cursor seen
    then err (canonical_integrity "revision lineage contains a cycle")
    else elim (claim_by_id claims cursor) [
      | none ↦ err (canonical_integrity "revision lineage references missing claim")
      | some candidate ↦ if claim_valid_at candidate point then ok (some cursor) else rest
    ]

abbrev pub missing_state : Db → String → String → ℕ → ResolvedState
missing_state db subject predicate at = record {
  subject = subject;
  predicate = predicate;
  status = missing;
  operative_claim_id = none;
  competing_claim_ids = [];
  conflict_relation_ids = [];
  value = null;
  snapshot_frontier = at;
}

-- The rows of the contradiction query, in the order of the log.
abbrev pub touches : ℕ → ClaimRelation → Bool
touches i r = r.source_claim_id == i || r.target_claim_id == i

abbrev pub contradiction_row : List ClaimRelation → ℕ → LogEntry → List ClaimRelation
contradiction_row relations operative e =
    if same_kind e.kind claim_relation
    then elim (relation_by_id relations e.ref_id) [
      | none ↦ []
      | some r ↦ if is_contradicts r.kind && touches operative r then r ∷ [] else []
    ]
    else []

unfoldable pub contradictions : List ClaimRelation → ℕ → List LogEntry → List ClaimRelation
contradictions relations operative [] = []
contradictions relations operative (e ∷ log) =
    contradiction_row relations operative e ++ contradictions relations operative log

abbrev pub other_end : ℕ → ClaimRelation → ℕ
other_end operative r =
    if r.source_claim_id == operative then r.target_claim_id else r.source_claim_id

-- One round of the loop: what it appends to `competing` and `conflicts`.
unfoldable pub conflict_of :
    List Claim → ℕ → Option ℕ → Option ℕ → ClaimRelation → Outcome (List (ℕ × ℕ))
conflict_of claims operative known point r =
    if learned_later known r.recorded_at then ok [] else (do
      other ←
          or_raise (claim_by_id claims (other_end operative r))
            (canonical_integrity "contradiction references missing claim")
      if learned_later known other.recorded_at
          then ok []
          else if not (valid_if other point)
          then ok []
          else ok ((other_end operative r, r.id) ∷ []))

unfoldable pub conflicts_of :
    List Claim → ℕ → Option ℕ → Option ℕ → List ClaimRelation → Outcome (List (ℕ × ℕ))
conflicts_of claims operative known point [] = ok []
conflicts_of claims operative known point (r ∷ rs) = do
  found ← conflict_of claims operative known point r
  rest ← conflicts_of claims operative known point rs
  ok (found ++ rest)

abbrev pub conflict_status : List (ℕ × ℕ) → ResolutionStatus
conflict_status [] = resolved
conflict_status (c ∷ cs) = contested

-- The part of `resolve_state` from an operative claim on.
unfoldable pub resolve_operative :
    Db → String → String → ℕ → Option ℕ → Option ℕ → Option ℕ → Outcome ResolvedState
resolve_operative db subject predicate at known point none =
    ok (missing_state db subject predicate at)
resolve_operative db subject predicate at known point (some operative_id) = do
  operative ←
      or_raise (claim_by_id db.claims operative_id)
        (canonical_integrity "operative canonical claim is missing")
  found ←
      conflicts_of db.claims operative_id known point
        (contradictions db.claim_relations operative_id db.semantic_log)
  ok (record {
    subject = subject;
    predicate = predicate;
    status = conflict_status found;
    operative_claim_id = some operative.id;
    competing_claim_ids = map (λ (c : ℕ × ℕ). c.0) found;
    conflict_relation_ids = map (λ (c : ℕ × ℕ). c.1) found;
    value = operative.value;
    snapshot_frontier = at;
  })

-- the head, or the latest claim of its lineage that is valid at the point
abbrev pub operative_for : Db → Lineage → Option ℕ → Outcome (Option ℕ)
operative_for db (head, parents) none = ok head
operative_for db (head, parents) (some point) =
    walk_lineage (suc (length parents)) db.claims parents point [] head

unfoldable pub resolve_state :
    Db → String → String → ℕ → Option DateTime → Option DateTime → Outcome ResolvedState
resolve_state db subject predicate at known_at valid_at = do
  known ← normalized_if known_at
  point ← normalized_if valid_at
  lineage ← head_for_key db subject predicate known_at
  operative ← operative_for db lineage point
  resolve_operative db subject predicate at known point operative
