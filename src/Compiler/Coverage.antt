-- ===== src/Compiler/Coverage.antt =====
-- src/sarmady/context/coverage.py: `CoverageContextCompiler.compile`.
use Prim.Native.String.{◌++◌ as append}
use sarmady.Prelude.{
  ℕ, String, true, some, List, [], ◌∷◌, ◌++◌, map, length, ◌==◌, nat_eq, elem, if◌then◌else◌,
}
use sarmady.Outcome.{Outcome, ok, value_error, raise_if, ◌>>=◌, ◌>>◌}
use sarmady.Host.{Host}
use sarmady.Epistemic.{ResolvedState}
use sarmady.Context.{
  ContextRequest, ContextProjection, ExactCoverageRequirement, CoverageStatus, complete, partial,
  insufficient, check_projection,
}
use sarmady.Store.{Db}
use sarmady.Store.Capture.{Capture, open_capture, close_capture, captured_state}
use sarmady.Store.Projection.{is_nil}
use sarmady.Store.Projection.Registration.{register_context_projection}
use sarmady.Compiler.{
  Draft, empty_draft, gap, include_claims, is_missing, time_text, item_text, conflict_text, digest,
}

abbrev pub coverage_version : String
coverage_version = "coverage-exact-v0.1"

-- The draft of the whole request, the conflicts of its requirements, and the keys satisfied.
pub record Progress : Type 0 where
  pub draft : Draft
  pub conflicts : List ℕ
  pub satisfied : List String

abbrev pub no_progress : Progress
no_progress = record { draft = empty_draft; conflicts = []; satisfied = [] }

unfoldable pub draft_requirement :
    Host
    → ExactCoverageRequirement
    → Db
    → ResolvedState
    → Capture
    → Draft
    → Outcome (Capture × Draft)
draft_requirement host q db state c d =
    if is_missing state.status
    then ok (c, gap "missing-resolved-state" d)
    else include_claims host true q.role db state c d

abbrev pub coverage_gap : ExactCoverageRequirement → String → String
coverage_gap q text = append "coverage:" (append q.key (append ":" text))

abbrev pub satisfied_by : ExactCoverageRequirement → List String → List String
satisfied_by q gaps = if is_nil gaps then q.key ∷ [] else []

-- `draft.gaps` are the gaps of the requirement alone, while its claims are walked.
abbrev pub required_draft : Draft → Draft
required_draft d = record d { gaps = [] }

abbrev pub noted_conflicts : ResolvedState → List ℕ
noted_conflicts state = if is_missing state.status then [] else state.conflict_relation_ids

abbrev pub progress_with : ExactCoverageRequirement → ResolvedState → Draft → Progress → Progress
progress_with q state d p = record {
  draft = record d { gaps = p.draft.gaps ++ map (coverage_gap q) d.gaps };
  conflicts = p.conflicts ++ noted_conflicts state;
  satisfied = p.satisfied ++ satisfied_by q d.gaps;
}

-- The loop over `request.exact_requirements`.
unfoldable pub cover :
    Host
    → ContextRequest
    → Db
    → List ExactCoverageRequirement
    → Capture
    → Progress
    → Outcome (Capture × Progress)
cover host request db [] c p = ok (c, p)
cover host request db (q ∷ qs) c p = do
  (c1, state) ← captured_state q.subject q.predicate request.known_at request.valid_at db c
  (c2, d) ← draft_requirement host q db state c1 (required_draft p.draft)
  cover host request db qs c2 (progress_with q state d p)

abbrev pub coverage_of : ℕ → ℕ → CoverageStatus
coverage_of required satisfied =
    if satisfied == required then complete else if satisfied == 0 then insufficient else partial

-- `dict.fromkeys(ids)`: the first of each.
unfoldable pub first_of_each : List ℕ → List ℕ → List ℕ
first_of_each seen [] = []
first_of_each seen (id ∷ ids) =
    let rest = first_of_each (id ∷ seen) ids in
    if elem id seen then first_of_each seen ids else id ∷ rest

abbrev pub requirement_text : ExactCoverageRequirement → String
requirement_text q = append "requirement:" (
    append q.key
      (append ":" (append q.subject (append ":" (append q.predicate (append ":" q.role))))))

abbrev pub coverage_manifest : Host → ContextRequest → ℕ → Progress → List String
coverage_manifest host request frontier p =
    host.int_text frontier
      ∷ time_text host request.known_at
      ∷ time_text host request.valid_at
      ∷ map requirement_text request.exact_requirements
    ++ (map (append "satisfied:") p.satisfied
        ++ (map (item_text host) p.draft.items
            ++ (map (conflict_text host) (first_of_each [] p.conflicts) ++ p.draft.gaps)))

abbrev pub coverage_projection : Host → ℕ → ContextRequest → Capture → Progress → ContextProjection
coverage_projection host id request c p = record {
  id = id;
  request_id = request.id;
  snapshot_id = append "sqlite:" (host.int_text c.frontier);
  canonical_frontier = c.frontier;
  items = p.draft.items;
  coverage_status = coverage_of (length request.exact_requirements) (length p.satisfied);
  manifest_digest = digest host (coverage_manifest host request c.frontier p);
  compiler_version = coverage_version;
  conflict_refs = first_of_each [] p.conflicts;
  unresolved_gaps = p.draft.gaps;
  omitted_refs = first_of_each [] p.draft.omitted;
}

unfoldable pub compile_coverage_snapshot :
    Host → ℕ → ContextRequest → Db → Outcome (Capture × ContextProjection)
compile_coverage_snapshot host id request db = do
  (c, p) ← cover host request db request.exact_requirements (open_capture db) no_progress
  projection ← check_projection (coverage_projection host id request c p)
  ok (close_capture c, projection)

-- As for the exact compiler, the registration runs on the database as it is by then.
unfoldable pub compile_coverage :
    Host → ℕ → ContextRequest → Db → Db → Outcome (Db × ContextProjection)
compile_coverage host id request db later = do
  raise_if (is_nil request.exact_requirements)
      (value_error "CoverageContextCompiler requires at least one exact coverage requirement")
  (c, projection) ← compile_coverage_snapshot host id request db
  (db', stale) ← register_context_projection host projection request [] (some c) later
  ok (db', projection)
