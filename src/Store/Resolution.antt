-- ===== src/Store/Resolution.antt =====
-- src/sarmady/storage/sqlite/resolution.py: `head_for_key`, the head of a key from the canonical rows.
pub mod Rows
pub mod Sorting
pub mod Moments
use sarmady.Prelude.{
  ℕ, zero, suc, String, Bool, true, false, not, Option, none, some, List, [], ◌∷◌, ◌++◌, map, ◌==◌,
  ◌&&◌, ◌||◌, Eq, nat_eq, string_eq, pair_eq, is_some, elem, find, any_of, select, leb, ltb, length,
  if◌then◌else◌,
}
use sarmady.Outcome.{
  Outcome, ok, err, value_error, canonical_integrity, raise_if, or_raise, ◌>>=◌, ◌>>◌,
}
use sarmady.Time.{DateTime, is_aware}
use sarmady.Values.{null}
use sarmady.Epistemic.{
  Claim, ClaimRelation, ClaimRelationKind, supports, corrects, supersedes, contradicts, refines,
  ResolutionStatus, missing, resolved, contested, ResolvedState,
}
use sarmady.Store.{
  LogKind, LogEntry, Db, claim, claim_relation, same_kind, claim_by_id, relation_by_id,
}

-- `normalized`: the instant, for an aware value
unfoldable pub normalized : DateTime → Outcome ℕ
normalized t =
    if is_aware t
    then ok t.instant
    else err (value_error "temporal query values must be timezone-aware")

abbrev pub normalized_if : Option DateTime → Outcome (Option ℕ)
normalized_if none = ok none
normalized_if (some t) = do instant ← normalized t; ok (some instant)

-- `HEAD_MOVING_RELATIONS`
abbrev pub is_head_moving : ClaimRelationKind → Bool
is_head_moving corrects = true
is_head_moving supersedes = true
is_head_moving _ = false

abbrev pub is_contradicts : ClaimRelationKind → Bool
is_contradicts contradicts = true
is_contradicts _ = false

-- `known_norm is not None and normalized(recorded_at) > known_norm`, for a stored time
abbrev pub learned_later : Option ℕ → DateTime → Bool
learned_later none t = false
learned_later (some known) t = ltb known t.instant

-- The dict `claims`: the rows of the join with the log for one key, in the order of the log.
abbrev pub claim_row : List Claim → String → String → Option ℕ → LogEntry → List (Claim × ℕ)
claim_row claims subject predicate known e =
    if same_kind e.kind claim
    then elim (claim_by_id claims e.ref_id) [
      | none ↦ []
      | some c ↦
          if c.subject == subject
            && c.predicate == predicate
            && not (learned_later known c.recorded_at)
          then (c, e.seq) ∷ []
          else []
    ]
    else []

unfoldable pub claim_rows :
    List Claim → String → String → Option ℕ → List LogEntry → List (Claim × ℕ)
claim_rows claims subject predicate known [] = []
claim_rows claims subject predicate known (e ∷ log) =
    claim_row claims subject predicate known e ++ claim_rows claims subject predicate known log

-- `claim_id in claims`
abbrev pub in_rows : ℕ → List (Claim × ℕ) → Bool
in_rows i rows = any_of (λ (row : Claim × ℕ). row.0.id == i) rows

-- The dict `relations`: both ends are claims of the key.
abbrev pub relation_row :
    List ClaimRelation → List (Claim × ℕ) → Option ℕ → LogEntry → List (ClaimRelation × ℕ)
relation_row relations rows known e =
    if same_kind e.kind claim_relation
    then elim (relation_by_id relations e.ref_id) [
      | none ↦ []
      | some r ↦
          if in_rows r.source_claim_id rows
            && in_rows r.target_claim_id rows
            && not (learned_later known r.recorded_at)
          then (r, e.seq) ∷ []
          else []
    ]
    else []

unfoldable pub relation_rows :
    List ClaimRelation → List (Claim × ℕ) → Option ℕ → List LogEntry → List (ClaimRelation × ℕ)
relation_rows relations rows known [] = []
relation_rows relations rows known (e ∷ log) =
    relation_row relations rows known e ++ relation_rows relations rows known log

-- An item of `timeline`: a claim's id, or a relation.
pub data Moment : Type 0 where
  admitted : ℕ → Moment
  related : ClaimRelation → Moment

-- `timeline.sort(key=lambda item: item[0])`: a stable insertion sort
unfoldable pub insert_moment : ℕ × Moment → List (ℕ × Moment) → List (ℕ × Moment)
insert_moment m [] = m ∷ []
insert_moment m (n ∷ rest) = if leb m.0 n.0 then m ∷ n ∷ rest else n ∷ insert_moment m rest

unfoldable pub sort_moments : List (ℕ × Moment) → List (ℕ × Moment)
unfolding insert_moment
sort_moments [] = []
sort_moments (m ∷ rest) = insert_moment m (sort_moments rest)

abbrev pub claim_moment : Claim × ℕ → ℕ × Moment
claim_moment (c, seq) = (seq, admitted c.id)

abbrev pub relation_moment : ClaimRelation × ℕ → ℕ × Moment
relation_moment (r, seq) = (seq, related r)

-- `head` and `revision_parent`; a later parent of a claim hides an earlier one.
abbrev pub Lineage : Type 0
Lineage = Option ℕ × List (ℕ × ℕ)

abbrev pub head_is : Option ℕ → ℕ → Bool
head_is none i = false
head_is (some h) i = h == i

unfoldable pub revise : Lineage → Moment → Outcome Lineage
revise (none, parents) (admitted i) = ok (some i, parents)
revise (some h, parents) (admitted i) = ok (some h, parents)
revise (head, parents) (related r) =
    if is_head_moving r.kind
    then (do
      raise_if (not (head_is head r.target_claim_id))
          (canonical_integrity "head-moving relation does not target the operative canonical head")
      ok (some r.source_claim_id, (r.source_claim_id, r.target_claim_id) ∷ parents))
    else ok (head, parents)

unfoldable pub replay : Lineage → List (ℕ × Moment) → Outcome Lineage
replay state [] = ok state
replay state (m ∷ rest) = do state' ← revise state m.1; replay state' rest

unfoldable pub timeline : Db → String → String → Option ℕ → List (ℕ × Moment)
timeline db subject predicate known =
    let rows = claim_rows db.claims subject predicate known db.semantic_log in
    sort_moments (
      map claim_moment rows
      ++ map relation_moment (relation_rows db.claim_relations rows known db.semantic_log))

unfoldable pub head_for_key : Db → String → String → Option DateTime → Outcome Lineage
head_for_key db subject predicate known_at = do
  known ← normalized_if known_at
  replay (none, []) (timeline db subject predicate known)
