-- ===== src/Store/Projection/Registration.antt =====
-- `register_context_projection` of src/sarmady/storage/sqlite/projection_store.py. A row of
-- `context_projections` carries the projection's details, items and dependencies.
use Prim.Native.String.{◌++◌ as append}
use sarmady.Prelude.{
  ℕ, ℤ, pos_part, neg_part, ltb, String, Bool, true, false, not, Option, none, some, List, [], ◌∷◌,
  ◌++◌, ◌==◌, ◌&&◌, ◌||◌, elem, any_of, is_some, nat_eq, string_eq, option_eq, if◌then◌else◌,
}
use sarmady.Outcome.{Outcome, ok, value_error, integrity_error, raise_if, or_raise, ◌>>=◌, ◌>>◌}
use sarmady.Time.{DateTime, same_time}
use sarmady.Host.{Host}
use sarmady.Context.{ContextRequest, ContextProjection, ExactCoverageRequirement, check_request}
use sarmady.Store.{
  Db, ProjectionRow, frontier, unproven_dependency, projection_by_id, request_by_id,
}
use sarmady.Store.Capture.{Capture}
use sarmady.Store.Projection.{
  Lineage, lineage_of, all_supported, validate_context_projection_refs, keys_changed_since,
}

abbrev pub same_int : ℤ → ℤ → Bool
same_int a b = pos_part a == pos_part b && neg_part a == neg_part b

abbrev pub same_int_if : Option ℤ → Option ℤ → Bool
same_int_if none none = true
same_int_if (some a) (some b) = same_int a b
same_int_if _ _ = false

abbrev pub same_time_if : Option DateTime → Option DateTime → Bool
same_time_if none none = true
same_time_if (some a) (some b) = same_time a b
same_time_if _ _ = false

abbrev pub same_labels : List String → List String → Bool
same_labels [] [] = true
same_labels (x ∷ xs) (y ∷ ys) = x == y && same_labels xs ys
same_labels _ _ = false

abbrev pub same_requirements : List ExactCoverageRequirement → List ExactCoverageRequirement → Bool
same_requirements [] [] = true
same_requirements (p ∷ ps) (q ∷ qs) =
    p.key == q.key
    && p.subject == q.subject
    && p.predicate == q.predicate
    && p.role == q.role
    && same_requirements ps qs
same_requirements _ _ = false

-- `==` of the data class, field by field
unfoldable pub same_request : ContextRequest → ContextRequest → Bool
same_request a b =
    a.id == b.id
    && a.query == b.query
    && same_int a.token_budget b.token_budget
    && same_int_if a.latency_budget_ms b.latency_budget_ms
    && a.goal_ref == b.goal_ref
    && a.task_ref == b.task_ref
    && same_labels a.coverage_requirements b.coverage_requirements
    && same_requirements a.exact_requirements b.exact_requirements
    && same_time_if a.known_at b.known_at
    && same_time_if a.valid_at b.valid_at

-- `INSERT OR IGNORE INTO context_requests`
unfoldable pub keep_request : ContextRequest → Db → Db
keep_request r db =
    if is_some (request_by_id db.context_requests r.id)
    then db
    else record db { context_requests = db.context_requests ++ r ∷ [] }

-- Whether the projection is stale when it is registered.
unfoldable pub stale_already : Host → Db → ContextProjection → Lineage → Bool
stale_already host db p l =
    (elem unproven_dependency l.dependencies && ltb p.canonical_frontier (frontier db))
    || any_of
        (λ key.
          elem key (keys_changed_since host.uuid_text db p.canonical_frontier db.semantic_log))
        l.dependencies

abbrev pub projection_row : ContextProjection → Lineage → Bool → ℕ → ProjectionRow
projection_row p l stale at = record {
  projection = p;
  stale = stale;
  stale_reason = if stale then some "dependency-changed-before-registration" else none;
  stale_at_frontier = if stale then some at else none;
  dependencies = l.dependencies;
}

unfoldable pub insert_projection : ProjectionRow → Db → Outcome Db
insert_projection row db = do
  raise_if (is_some (projection_by_id db.context_projections row.projection.id))
      (integrity_error "UNIQUE constraint failed: context_projections.id")
  ok (record db { context_projections = db.context_projections ++ row ∷ [] })

-- the body of the transaction
unfoldable pub write_projection :
    Host → ContextProjection → ContextRequest → Lineage → Db → Outcome (Db × Bool)
write_projection host p r l db = do
  raise_if (ltb (frontier db) p.canonical_frontier)
      (value_error "projection canonical_frontier cannot exceed current frontier")
  raise_if (not l.proven && ltb p.canonical_frontier (frontier db)) (
      value_error
        "projection compiled before current frontier requires captured dependency lineage")
  validate_context_projection_refs db p
  let stale = stale_already host db p l
  let db1 = keep_request r db
  persisted ←
      or_raise (request_by_id db1.context_requests r.id)
        (value_error "context request id is already bound to different semantics")
  raise_if (not (same_request persisted r))
      (value_error "context request id is already bound to different semantics")
  db2 ← insert_projection (projection_row p l stale (frontier db)) db1
  ok (db2, stale)

-- The frontier is a number here, which the source reads with `int`; it returns whether the
-- projection is stale.
unfoldable pub register_context_projection :
    Host
    → ContextProjection
    → ContextRequest
    → List String
    → Option Capture
    → Db
    → Outcome (Db × Bool)
register_context_projection host p request declared capture db = do
  raise_if (not (p.request_id == request.id))
      (value_error "projection must reference the persisted context request")
  r ← check_request request
  raise_if (not (p.snapshot_id == append "sqlite:" (host.int_text p.canonical_frontier)))
      (value_error "projection snapshot_id must match canonical frontier")
  raise_if (not (all_supported p.items)) (value_error "unsupported context projection item type(s)")
  lineage ← lineage_of p declared capture
  write_projection host p r lineage db
