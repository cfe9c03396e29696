-- ===== src/Store.antt =====
-- src/sarmady/storage/sqlite/store.py and schema.py: the canonical tables, the semantic log, and
-- the invalidation of projections that every semantic write starts.
-- A table is the list of its rows in the order of insertion. A write that raises inside
-- `_write_transaction` is rolled back, so a transaction's body is a function `Db → Outcome Db`
-- and the caller of a failed one still has the database that it had.
pub mod Resolution
pub mod ResolvedState
pub mod ClaimHeads
pub mod Memory
pub mod Lifecycle
pub mod AppendOnly
pub mod Epistemic
pub mod Capture
pub mod Projection
pub mod Cognitive
pub mod Reasoning
pub mod Identity
pub mod Migration
pub mod ContextNeed
pub mod Writes
pub mod Quiet
pub mod Admission
pub mod HeadMoves
pub mod History
pub mod Staleness
use Prim.Native.String.{◌++◌ as append}
use sarmady.Prelude.{
  ℕ, zero, suc, ◌+◌, String, Bool, true, false, not, Option, none, some, List, [], ◌∷◌, ◌++◌, map,
  ◌==◌, ◌&&◌, ◌||◌, Eq, nat_eq, string_eq, pair_eq, is_some, elem, find, any_of, leb, if◌then◌else◌,
}
use sarmady.Outcome.{Outcome, ok, err, integrity_error, raise_if, ◌>>=◌, ◌>>◌}
use sarmady.Time.{DateTime}
use sarmady.Epistemic.{Event, Evidence, Claim, ClaimRelation}
use sarmady.Memory.{MemoryEntry, MemoryLifecycleEvent}
use sarmady.Kernel.Identity.{Agent}
use sarmady.Context.{ContextRequest, ContextProjection}
use sarmady.Cognition.{
  CognitiveRequest, ModelInvocation, GeneratedArtifact, ContextNeedDecision, ReasoningPolicy,
}

pub data LogKind : Type 0 where
  event evidence claim claim_relation memory_entry memory_lifecycle_event agent : LogKind

abbrev pub log_kind_code : LogKind → ℕ
log_kind_code event = 0
log_kind_code evidence = 1
log_kind_code claim = 2
log_kind_code claim_relation = 3
log_kind_code memory_entry = 4
log_kind_code memory_lifecycle_event = 5
log_kind_code agent = 6

abbrev pub same_kind : LogKind → LogKind → Bool
same_kind a b = log_kind_code a == log_kind_code b

pub record LogEntry : Type 0 where
  pub seq : ℕ
  pub kind : LogKind
  pub ref_id : ℕ
  pub recorded_at : DateTime

-- A row of `context_projections` with its details, items and dependencies, which the source keeps
-- in tables of their own and never writes without it.
pub record ProjectionRow : Type 0 where
  pub projection : ContextProjection
  pub stale : Bool
  pub stale_reason : Option String
  pub stale_at_frontier : Option ℕ
  pub dependencies : List String

pub record PolicyRow : Type 0 where
  pub policy : ReasoningPolicy
  pub fingerprint : String
  pub registered_at : DateTime

pub record Db : Type 0 where
  pub semantic_log : List LogEntry
  pub events : List Event
  pub evidence : List Evidence
  pub claims : List Claim
  pub claim_relations : List ClaimRelation
  pub claim_heads : List ((String × String) × ℕ)
  pub memory_entries : List MemoryEntry
  pub memory_lifecycle_events : List MemoryLifecycleEvent
  pub context_requests : List ContextRequest
  pub context_projections : List ProjectionRow
  pub agents : List Agent
  pub reasoning_policies : List PolicyRow
  pub cognitive_requests : List CognitiveRequest
  pub model_invocations : List ModelInvocation
  pub generated_artifacts : List GeneratedArtifact
  pub context_need_decisions : List ContextNeedDecision

abbrev pub empty_db : Db
empty_db = record {
  semantic_log = [];
  events = [];
  evidence = [];
  claims = [];
  claim_relations = [];
  claim_heads = [];
  memory_entries = [];
  memory_lifecycle_events = [];
  context_requests = [];
  context_projections = [];
  agents = [];
  reasoning_policies = [];
  cognitive_requests = [];
  model_invocations = [];
  generated_artifacts = [];
  context_need_decisions = [];
}

-- `COALESCE(MAX(seq), 0)`
abbrev pub max_seq : List LogEntry → ℕ
max_seq [] = 0
max_seq (e ∷ log) = let rest = max_seq log in if leb rest e.seq then e.seq else rest

unfoldable pub frontier : Db → ℕ
frontier db = max_seq db.semantic_log

-- `_UNPROVEN_CONTEXT_DEPENDENCY`
abbrev pub unproven_dependency : String
unproven_dependency = "semantic:*"

abbrev pub epistemic_dependency_key : String → String → String
epistemic_dependency_key subject predicate =
    append "epistemic-key:" (append subject (append ":" predicate))

abbrev pub memory_dependency_key : (ℕ → String) → ℕ → String
memory_dependency_key uuid_text memory_entry_id = append "memory-entry:" (uuid_text memory_entry_id)

-- `UPDATE context_projections SET stale = 1, … WHERE stale = 0 AND …`
abbrev pub make_stale : (ProjectionRow → Bool) → String → ℕ → ProjectionRow → ProjectionRow
make_stale hit reason at row =
    if not row.stale && hit row
    then record row { stale = true; stale_reason = some reason; stale_at_frontier = some at }
    else row

abbrev pub logged : LogKind → ℕ → DateTime → Db → Db
logged kind ref_id recorded_at db =
    let seq = suc (frontier db) in
    record db {
      semantic_log =
          db.semantic_log
          ++ record { seq = seq; kind = kind; ref_id = ref_id; recorded_at = recorded_at } ∷ [];
      context_projections =
          map
            (make_stale (λ row. elem unproven_dependency row.dependencies)
              "unproven-lineage-semantic-state-changed" seq)
            db.context_projections;
    }

abbrev pub is_entry : LogKind → ℕ → LogEntry → Bool
is_entry kind ref_id e = same_kind e.kind kind && e.ref_id == ref_id

-- `_log`; `(kind, ref_id)` is a unique index, and `seq` counts on from the last one.
unfoldable pub log : LogKind → ℕ → DateTime → Db → Outcome Db
log kind ref_id recorded_at db = do
  raise_if (any_of (is_entry kind ref_id) db.semantic_log)
      (integrity_error "UNIQUE constraint failed: semantic_log.kind, semantic_log.ref_id")
  ok (logged kind ref_id recorded_at db)

-- `_invalidate_projection_dependencies_in_tx`, for one key, which is all that its callers pass
unfoldable pub invalidate_projection_dependencies : String → String → Db → Db
invalidate_projection_dependencies key reason db = record db {
  context_projections =
      map
        (make_stale (λ row. elem key row.dependencies || elem unproven_dependency row.dependencies)
          reason (frontier db))
        db.context_projections;
}

abbrev pub claim_by_id : List Claim → ℕ → Option Claim
claim_by_id claims i = find (λ c. c.id == i) claims

abbrev pub relation_by_id : List ClaimRelation → ℕ → Option ClaimRelation
relation_by_id relations i = find (λ r. r.id == i) relations

abbrev pub evidence_by_id : List Evidence → ℕ → Option Evidence
evidence_by_id rows i = find (λ e. e.id == i) rows

abbrev pub event_by_id : List Event → ℕ → Option Event
event_by_id rows i = find (λ e. e.id == i) rows

abbrev pub memory_by_id : List MemoryEntry → ℕ → Option MemoryEntry
memory_by_id rows i = find (λ m. m.id == i) rows

abbrev pub policy_by_id : List PolicyRow → String → Option PolicyRow
policy_by_id rows id = find (λ r. r.policy.id == id) rows

abbrev pub projection_by_id : List ProjectionRow → ℕ → Option ProjectionRow
projection_by_id rows i = find (λ r. r.projection.id == i) rows

abbrev pub request_by_id : List ContextRequest → ℕ → Option ContextRequest
request_by_id rows i = find (λ r. r.id == i) rows

abbrev pub agent_by_id : List Agent → ℕ → Option Agent
agent_by_id rows i = find (λ a. a.id == i) rows
