-- ===== src/Compiler/Exact.antt =====
-- src/sarmady/context/compiler.py: `ExactContextCompiler.compile`.
use Prim.Native.String.{◌++◌ as append}
use sarmady.Prelude.{ℕ, String, false, not, some, List, [], ◌∷◌, ◌++◌, map, ◌&&◌, if◌then◌else◌}
use sarmady.Outcome.{Outcome, ok, ◌>>=◌}
use sarmady.Host.{Host}
use sarmady.Epistemic.{ResolvedState}
use sarmady.Context.{
  ContextRequest, ContextProjection, CoverageStatus, complete, insufficient, check_projection,
}
use sarmady.Store.{Db}
use sarmady.Store.Capture.{Capture, open_capture, close_capture, captured_state}
use sarmady.Store.Projection.{is_nil}
use sarmady.Store.Projection.Registration.{register_context_projection}
use sarmady.Compiler.{
  Draft, empty_draft, gap, include_claims, is_missing, time_text, item_text, conflict_text, digest,
}

abbrev pub exact_version : String
exact_version = "exact-v0.2"

unfoldable pub draft_exact :
    Host → String → String → Db → ResolvedState → Capture → Outcome (Capture × Draft)
draft_exact host subject predicate db state c =
    if is_missing state.status
    then ok (
      c,
      gap (append "missing-resolved-state:" (append subject (append ":" predicate))) empty_draft,
    )
    else include_claims host false "essential_now" db state c empty_draft

abbrev pub exact_coverage : ResolvedState → Draft → CoverageStatus
exact_coverage state d =
    if not (is_missing state.status) && (not (is_nil d.items) && is_nil d.gaps)
    then complete
    else insufficient

abbrev pub exact_manifest :
    Host → ContextRequest → String → String → ℕ → ResolvedState → Draft → List String
exact_manifest host request subject predicate frontier state d =
    host.int_text frontier
      ∷ subject
      ∷ predicate
      ∷ time_text host request.known_at
      ∷ time_text host request.valid_at
      ∷ map (item_text host) d.items
    ++ (map (conflict_text host) state.conflict_relation_ids ++ d.gaps)

abbrev pub exact_projection :
    Host
    → ℕ
    → ContextRequest
    → String
    → String
    → Capture
    → ResolvedState
    → Draft
    → ContextProjection
exact_projection host id request subject predicate c state d = record {
  id = id;
  request_id = request.id;
  snapshot_id = append "sqlite:" (host.int_text c.frontier);
  canonical_frontier = c.frontier;
  items = d.items;
  coverage_status = exact_coverage state d;
  manifest_digest = digest host (exact_manifest host request subject predicate c.frontier state d);
  compiler_version = exact_version;
  conflict_refs = state.conflict_relation_ids;
  unresolved_gaps = d.gaps;
  omitted_refs = d.omitted;
}

-- What is compiled within the snapshot, with the capture of its reads.
unfoldable pub compile_exact_snapshot :
    Host → ℕ → ContextRequest → String → String → Db → Outcome (Capture × ContextProjection)
compile_exact_snapshot host id request subject predicate db = do
  (c, state) ←
      captured_state subject predicate request.known_at request.valid_at db (open_capture db)
  (c', d) ← draft_exact host subject predicate db state c
  projection ← check_projection (exact_projection host id request subject predicate c' state d)
  ok (close_capture c', projection)

-- `id` is the identifier that `uuid4()` gives, `db` the database that the snapshot has pinned, and
-- `later` the one at the registration, which other connections may have written by then.
unfoldable pub compile_exact :
    Host → ℕ → ContextRequest → String → String → Db → Db → Outcome (Db × ContextProjection)
compile_exact host id request subject predicate db later = do
  (c, projection) ← compile_exact_snapshot host id request subject predicate db
  (db', stale) ← register_context_projection host projection request [] (some c) later
  ok (db', projection)
