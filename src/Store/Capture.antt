-- ===== src/Store/Capture.antt =====
-- src/sarmady/storage/sqlite/store.py: the reads of a pinned snapshot, which record what a compiler
-- has consulted, and the single use of that record. The snapshot is the database that it pinned.
use sarmady.Prelude.{
  ℕ, String, Bool, true, false, not, Option, none, some, List, [], ◌∷◌, ◌++◌, map, ◌==◌, ◌&&◌, ◌||◌,
  Eq, elem, nat_eq, string_eq, pair_eq, if◌then◌else◌,
}
use sarmady.Outcome.{Outcome, ok, value_error, runtime_error, raise_if, ◌>>=◌, ◌>>◌}
use sarmady.Time.{DateTime}
use sarmady.Epistemic.{Claim, Evidence, ResolvedState}
use sarmady.Memory.{MemoryEntry}
use sarmady.Store.{
  Db, LogEntry, claim, same_kind, frontier, claim_by_id, evidence_by_id, unproven_dependency,
  epistemic_dependency_key, memory_dependency_key,
}
use sarmady.Store.Memory.{memory_entry_for_target, is_active_memory_target}
use sarmady.Store.ResolvedState.{resolve_state}

abbrev pub Ref : Type 0
Ref = String × ℕ

-- `_ContextDependencyState`; its sets are lists, in the order of the reads.
pub record Capture : Type 0 where
  pub frontier : ℕ
  pub keys : List String
  pub read_refs : List Ref
  pub closed : Bool
  pub consumed : Bool

-- `context_read_snapshot`, at its beginning and its end
abbrev pub open_capture : Db → Capture
open_capture db = record {
  frontier = frontier db;
  keys = [];
  read_refs = [];
  closed = false;
  consumed = false;
}

abbrev pub close_capture : Capture → Capture
close_capture c = record c { closed = true }

abbrev pub require_open : Capture → Outcome (Unit {0})
require_open c = raise_if c.closed (runtime_error "context read snapshot is closed")

abbrev pub depends : String → Capture → Capture
depends key c = record c { keys = c.keys ++ key ∷ [] }

abbrev pub reads : List Ref → Capture → Capture
reads refs c = record c { read_refs = c.read_refs ++ refs }

-- the keys of the logged claims, each once; the source has them in order
abbrev pub add_key : List Claim → LogEntry → List (String × String) → List (String × String)
add_key claims e found =
    if same_kind e.kind claim
    then elim (claim_by_id claims e.ref_id) [
      | none ↦ found
      | some c ↦
          if elem (c.subject, c.predicate) found then found else (c.subject, c.predicate) ∷ found
    ]
    else found

unfoldable pub logged_keys : List Claim → List LogEntry → List (String × String)
logged_keys claims [] = []
logged_keys claims (e ∷ log) = add_key claims e (logged_keys claims log)

unfoldable pub semantic_keys :
    (List (String × String) → List (String × String))
    → Db
    → Capture
    → Outcome (Capture × List (String × String))
semantic_keys ordered db c = do
  require_open c
  ok (depends unproven_dependency c, ordered (logged_keys db.claims db.semantic_log))

unfoldable pub captured_state :
    String
    → String
    → Option DateTime
    → Option DateTime
    → Db
    → Capture
    → Outcome (Capture × ResolvedState)
captured_state subject predicate known_at valid_at db c = do
  require_open c
  let c1 = depends (epistemic_dependency_key subject predicate) c
  state ← resolve_state db subject predicate c1.frontier known_at valid_at
  ok (reads (map (λ (id : ℕ). ("ClaimRelation", id)) state.conflict_relation_ids) c1, state)

unfoldable pub captured_claim : ℕ → Db → Capture → Outcome (Capture × Option Claim)
captured_claim id db c = do
  require_open c
  ok (elim (claim_by_id db.claims id) [
    | none ↦ (depends unproven_dependency c, none)
    | some v ↦ (reads (("Claim", v.id) ∷ []) c, some v)
  ])

unfoldable pub captured_evidence : ℕ → Db → Capture → Outcome (Capture × Option Evidence)
captured_evidence id db c = do
  require_open c
  ok (elim (evidence_by_id db.evidence id) [
    | none ↦ (depends unproven_dependency c, none)
    | some v ↦ (reads (("Evidence", v.id) ∷ []) c, some v)
  ])

abbrev pub capture_entry : (ℕ → String) → Option MemoryEntry → Capture → Capture
capture_entry uuid_text none c = depends unproven_dependency c
capture_entry uuid_text (some m) c =
    reads (("MemoryEntry", m.id) ∷ []) (depends (memory_dependency_key uuid_text m.id) c)

unfoldable pub captured_memory_entry :
    (ℕ → String) → String → ℕ → Db → Capture → Outcome (Capture × Option MemoryEntry)
captured_memory_entry uuid_text target_type id db c = do
  require_open c
  let entry = memory_entry_for_target db target_type id
  ok (capture_entry uuid_text entry c, entry)

unfoldable pub captured_is_active :
    (ℕ → String) → String → ℕ → Db → Capture → Outcome (Capture × Bool)
captured_is_active uuid_text target_type id db c = do
  require_open c
  ok (
    capture_entry uuid_text (memory_entry_for_target db target_type id) c,
    is_active_memory_target db target_type id,
  )

abbrev pub covered {ℓ} : {A : Type ℓ} ⦃e : Eq A⦄ → List A → List A → Bool
covered [] ys = true
covered (x ∷ xs) ys = elem x ys && covered xs ys

-- `_consume_context_dependency_capture` of a capture of this store: the capture, used up.
unfoldable pub consume_capture : ℕ → List Ref → List ℕ → Capture → Outcome Capture
consume_capture at required required_any c = do
  raise_if (not c.closed) (value_error "context dependency capture is still active")
  raise_if c.consumed (value_error "context dependency capture has already been consumed")
  raise_if (not (c.frontier == at))
      (value_error "context dependency capture frontier does not match projection frontier")
  raise_if
      (not (covered required c.read_refs)
        || not (covered required_any (map (λ (r : Ref). r.1) c.read_refs)))
      (value_error "context dependency capture did not read all required projection references")
  ok (record c { consumed = true })
