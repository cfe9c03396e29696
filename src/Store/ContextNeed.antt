-- ===== src/Store/ContextNeed.antt =====
-- src/sarmady/storage/sqlite/context_need_store.py: the durable decision over a context need, its
-- lineage, and the bounds of the child request.
pub mod Bounds
pub mod Once
use sarmady.Prelude.{
  ℕ, ℤ, pos, leb_ℤ, ltb_ℤ, String, Bool, true, false, not, Option, none, some, List, [], ◌∷◌, ◌++◌,
  map, ◌==◌, ◌&&◌, ◌||◌, is_some, any_of, find, nat_eq, string_eq, option_eq, if◌then◌else◌,
}
use sarmady.Outcome.{
  Outcome, ok, err, value_error, integrity_error, runtime_error, raise_if, or_raise, ◌>>=◌, ◌>>◌,
}
use sarmady.Time.{DateTime, before, same_time}
use sarmady.Host.{Host}
use sarmady.Context.{
  ContextRequest, ExactCoverageRequirement, check_request, not_positive, not_positive_if,
}
use sarmady.Cognition.{
  CognitiveRequest, ModelInvocation, GeneratedArtifact, ContextNeedProposal, ContextNeedDecision,
  DecisionKind, accepted, rejected, check_decision, context_need_kind, ends_before,
}
use sarmady.Cognition.ContextNeed.{deserialize}
use sarmady.Store.{Db, projection_by_id, request_by_id}
use sarmady.Store.Cognitive.{artifact_by_id, invocation_by_id, cognitive_request_by_id}

abbrev pub same_time_if : Option DateTime → Option DateTime → Bool
same_time_if none none = true
same_time_if (some a) (some b) = same_time a b
same_time_if _ _ = false

abbrev pub same_texts : List String → List String → Bool
same_texts [] [] = true
same_texts (x ∷ xs) (y ∷ ys) = x == y && same_texts xs ys
same_texts _ _ = false

abbrev pub is_empty {ℓ} : {A : Type ℓ} → List A → Bool
is_empty [] = true
is_empty (x ∷ xs) = false

-- A persisted budget that is not positive binds no child.
abbrev pub parent_latency : ContextRequest → Option ℤ
parent_latency parent = elim parent.latency_budget_ms [
  | none ↦ none
  | some n ↦ if not_positive n then none else some n
]

abbrev pub check_latency : Option ℤ → Option ℤ → Outcome (Unit {0})
check_latency none child = ok tt
check_latency (some bound) none =
    err (value_error "bounded parent latency cannot be removed from child request")
check_latency (some bound) (some child) =
    raise_if (ltb_ℤ bound child)
      (value_error "child latency budget cannot exceed parent latency budget")

unfoldable pub validate_child_context_request :
    ContextRequest → ContextRequest → ContextNeedProposal → Outcome (Unit {0})
validate_child_context_request parent child proposal = do
  raise_if (child.id == parent.id) (value_error "child context request must use a new id")
  raise_if (not (child.query == proposal.query))
      (value_error "child context request query must match the accepted proposal")
  raise_if (not (same_texts child.coverage_requirements proposal.coverage_requirements))
      (value_error "child context request coverage labels must match the accepted proposal")
  raise_if (not (is_empty child.exact_requirements))
      (value_error "context-need acceptance cannot directly create exact semantic requirements")
  raise_if (not (child.goal_ref == parent.goal_ref) || not (child.task_ref == parent.task_ref))
      (value_error "child context request must inherit parent goal/task lineage")
  raise_if
      (not (same_time_if child.known_at parent.known_at)
        || not (same_time_if child.valid_at parent.valid_at))
      (value_error "child context request must inherit parent temporal selectors")
  raise_if (not_positive child.token_budget) (value_error "child token budget must be positive")
  raise_if (ltb_ℤ parent.token_budget child.token_budget)
      (value_error "child token budget cannot exceed parent token budget")
  raise_if (not_positive_if child.latency_budget_ms)
      (value_error "child latency budget must be positive")
  check_latency (parent_latency parent) child.latency_budget_ms

-- The artifact, which must be a proposal, and the proposal that its content holds.
unfoldable pub read_context_need : Host → ℕ → Db → Outcome (GeneratedArtifact × ContextNeedProposal)
read_context_need host id db = do
  artifact ←
      or_raise (artifact_by_id db.generated_artifacts id)
        (value_error "unknown context need artifact")
  raise_if (not (artifact.artifact_kind == context_need_kind))
      (value_error "artifact is not a context-need proposal")
  proposal ← deserialize host artifact.content
  ok (artifact, proposal)

-- The links from the artifact to its invocation, request, projection and the parent request.
unfoldable pub follow_lineage :
    ContextNeedDecision → GeneratedArtifact → Db → Outcome ContextRequest
follow_lineage d artifact db = do
  raise_if (not (artifact.invocation_id == d.parent_invocation_id))
      (value_error "context need decision invocation lineage mismatch")
  invocation ←
      or_raise (invocation_by_id db.model_invocations d.parent_invocation_id)
        (value_error "unknown parent model invocation")
  completed_at ←
      or_raise invocation.completed_at
        (value_error "context need must come from a successful model invocation")
  raise_if (is_some invocation.error_code)
      (value_error "context need must come from a successful model invocation")
  raise_if (not (invocation.cognitive_request_id == d.parent_cognitive_request_id))
      (value_error "context need decision cognitive lineage mismatch")
  raise_if (before d.decided_at artifact.created_at || before d.decided_at completed_at)
      (value_error "context need decision cannot precede its completed proposal")
  request ←
      or_raise (cognitive_request_by_id db.cognitive_requests d.parent_cognitive_request_id)
        (value_error "unknown parent cognitive request")
  raise_if (not (request.context_projection_id == d.parent_context_projection_id))
      (value_error "context need decision projection lineage mismatch")
  row ←
      or_raise (projection_by_id db.context_projections d.parent_context_projection_id)
        (value_error "unknown parent context projection")
  raise_if (not (row.projection.request_id == d.parent_context_request_id))
      (value_error "context need decision request lineage mismatch")
  or_raise (request_by_id db.context_requests d.parent_context_request_id)
      (value_error "unknown parent context request")

unfoldable pub validate_context_need_lineage :
    Host → ContextNeedDecision → Db → Outcome (ContextNeedProposal × ContextRequest)
validate_context_need_lineage host d db = do
  need ← read_context_need host d.context_need_artifact_id db
  parent ← follow_lineage d need.0 db
  ok (need.1, parent)

unfoldable pub insert_new_context_request : ContextRequest → Db → Outcome Db
insert_new_context_request r db = do
  raise_if (is_some (request_by_id db.context_requests r.id))
      (value_error "child context request id already exists")
  ok (record db { context_requests = db.context_requests ++ r ∷ [] })

-- The acceptance's own steps: a fresh projection, a child within its bounds, and its row.
unfoldable pub admit_child :
    ContextNeedDecision → ContextNeedProposal → ContextRequest → ContextRequest → Db → Outcome Db
admit_child d proposal parent child db = do
  row ←
      or_raise (projection_by_id db.context_projections d.parent_context_projection_id)
        (value_error "unknown parent context projection")
  raise_if row.stale (value_error "cannot accept context need from a stale context projection")
  validate_child_context_request parent child proposal
  insert_new_context_request child db

abbrev pub has_decision : ℕ → ContextNeedDecision → Bool
has_decision artifact d = d.context_need_artifact_id == artifact

unfoldable pub insert_decision : ContextNeedDecision → Db → Outcome Db
insert_decision d db = do
  raise_if (any_of (λ (e : ContextNeedDecision). e.id == d.id) db.context_need_decisions)
      (integrity_error "UNIQUE constraint failed: context_need_decisions.id")
  ok (record db { context_need_decisions = db.context_need_decisions ++ d ∷ [] })

-- The decision and its child, reconstructed and held against one another.
abbrev pub check_request_if : Option ContextRequest → Outcome (Option ContextRequest)
check_request_if none = ok none
check_request_if (some r) = do r' ← check_request r; ok (some r')

abbrev pub match_child : DecisionKind → Option ℕ → Option ContextRequest → Outcome (Unit {0})
match_child accepted id none = err (value_error "accepted context need requires child_request")
match_child accepted id (some child) =
    raise_if (not (id == some child.id))
      (value_error "child request does not match accepted decision")
match_child rejected id none = ok tt
match_child rejected id (some child) =
    err (value_error "rejected context need cannot persist a child request")

-- the writes of the child for an acceptance, nothing for a rejection
abbrev pub admit_if :
    ContextNeedDecision
    → Option ContextRequest
    → ContextNeedProposal × ContextRequest
    → Db
    → Outcome Db
admit_if d none lineage db = ok db
admit_if d (some child) (proposal, parent) db = admit_child d proposal parent child db

unfoldable pub write_decision : Host → ContextNeedDecision → Option ContextRequest → Db → Outcome Db
write_decision host d child db = do
  raise_if (any_of (has_decision d.context_need_artifact_id) db.context_need_decisions)
      (value_error "context need artifact already has a decision")
  lineage ← validate_context_need_lineage host d db
  db' ← admit_if d child lineage db
  insert_decision d db'

unfoldable pub register_context_need_decision :
    Host → ContextNeedDecision → Option ContextRequest → Db → Outcome Db
register_context_need_decision host d child db = do
  d' ← check_decision host d
  child' ← check_request_if child
  match_child d'.decision d'.child_context_request_id child'
  write_decision host d' child' db
