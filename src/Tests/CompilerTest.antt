-- ===== src/Tests/CompilerTest.antt =====
-- Both compilers over a store with one claim that has evidence and an active memory entry, and an
-- observation that supersedes it.
use sarmady.Prelude.{
  String, ◌≡◌, refl, none, some, [], ◌∷◌, ◌==◌, ◌&&◌, nat_eq, string_eq, pair_eq, if◌then◌else◌,
  find-All, true, is_some, All,
}
use sarmady.Outcome.{Outcome, ok, err}
use sarmady.Values.{str}
use sarmady.Memory.{semantic, active}
use sarmady.Epistemic.{Claim, Evidence}
use sarmady.Context.{ContextRequest, ContextProjection}
use sarmady.Store.{Db, empty_db, claim, event, evidence, memory_entry, evidence_by_id}
use sarmady.Store.ClaimHeads.{lookup_head, claim_key}
use sarmady.Store.Epistemic.Checks.{current_claim}
use sarmady.Store.Capture.{Capture, open_capture}
use sarmady.Store.Projection.{lineage_of, captured_lineage}
use sarmady.Compiler.Exact.{compile_exact_snapshot}
use sarmady.Compiler.Coverage.{compile_coverage_snapshot}
use sarmady.Compiler.Reads.{EvidencePresent}
use sarmady.Compiler.Accepted.{
  lineage_of-compile_exact_snapshot, lineage_of-compile_coverage_snapshot,
}
use sarmady.Observation.{Observed, Fresh, observe_claim}
use sarmady.Observation.Heads.{replaces, lookup_head-observe_claim}
use sarmady.Tests.Samples.{at, id_text, bundle}
use sarmady.Tests.Workspace
use sarmady.Tests.Workspace.{host}

abbrev sample : Claim
sample = (bundle 1 "eu" none).claim

abbrev db : Db
db = record empty_db {
  semantic_log =
      record { seq = 1; kind = event; ref_id = 1; recorded_at = at 1 }
      ∷ record { seq = 2; kind = evidence; ref_id = 1; recorded_at = at 1 }
      ∷ record { seq = 3; kind = claim; ref_id = 1; recorded_at = at 1 }
      ∷ record { seq = 4; kind = memory_entry; ref_id = 1; recorded_at = at 1 }
      ∷ [];
  events = (bundle 1 "eu" none).event ∷ [];
  evidence = (bundle 1 "eu" none).evidence ∷ [];
  claims = sample ∷ [];
  claim_heads = (("server", "region"), 1) ∷ [];
  memory_entries = (bundle 1 "eu" none).memory ∷ [];
}

present : EvidencePresent db
present id v found =
    find-All
      (λ (c : Claim). All (λ e. is_some (evidence_by_id db.evidence e) ≡ true) c.evidence_refs)
      (λ (c : Claim). c.id == id) db.claims v ((refl, tt), tt) found

abbrev value_or {ℓ} : {A : Type ℓ} → Outcome A → A → A
value_or (ok a) b = a
value_or (err e) b = b

abbrev compiled : Capture × ContextProjection
compiled =
    value_or (compile_exact_snapshot host 20 Workspace.request "server" "region" db)
      (open_capture db, Workspace.projection)

compiles : compile_exact_snapshot host 20 Workspace.request "server" "region" db ≡ ok compiled
unfolding compile_exact_snapshot sarmady.Store.Capture.captured_state
    sarmady.Store.ResolvedState.resolve_state sarmady.Store.Resolution.head_for_key
    sarmady.Store.Resolution.replay sarmady.Store.Resolution.timeline
    sarmady.Store.Resolution.sort_moments sarmady.Store.Resolution.claim_rows
    sarmady.Store.Resolution.relation_rows sarmady.Store.Resolution.revise
    sarmady.Store.ResolvedState.resolve_operative sarmady.Store.ResolvedState.conflicts_of
    sarmady.Store.ResolvedState.contradictions sarmady.Compiler.Exact.draft_exact
    sarmady.Compiler.include_claims sarmady.Compiler.include_claim
    sarmady.Store.Capture.captured_claim sarmady.Store.Capture.captured_memory_entry
    sarmady.Compiler.add_item sarmady.Compiler.include_competing sarmady.Compiler.include_evidence
    sarmady.Compiler.join sarmady.Context.check_projection sarmady.Store.Capture.captured_evidence
    sarmady.Store.Capture.captured_is_active sarmady.Store.Memory.active_memory_entry_for_target
    sarmady.Store.Memory.is_active_memory_target sarmady.Store.Memory.memory_entry_for_target
    sarmady.Store.Resolution.insert_moment sarmady.Store.Resolution.normalized
    sarmady.Store.ResolvedState.claim_valid_at sarmady.Store.ResolvedState.conflict_of
    sarmady.Store.ResolvedState.parent_of sarmady.Store.ResolvedState.walk_lineage
    sarmady.Store.frontier
compiles = refl

lineage_of-compile_exact_snapshot_example :
    lineage_of compiled.1 [] (some compiled.0)
    ≡ ok (captured_lineage (record compiled.0 { consumed = true }))
lineage_of-compile_exact_snapshot_example =
    lineage_of-compile_exact_snapshot host 20 Workspace.request "server" "region" db compiled.0
      compiled.1 present compiles

abbrev requiring : ContextRequest
requiring = record Workspace.request {
  exact_requirements =
      record { key = "where"; subject = "server"; predicate = "region"; role = "essential" }
      ∷ record { key = "who"; subject = "server"; predicate = "owner"; role = "essential" }
      ∷ [];
}

abbrev covered_claims : Capture × ContextProjection
covered_claims =
    value_or (compile_coverage_snapshot host 20 requiring db)
      (open_capture db, Workspace.projection)

covers : compile_coverage_snapshot host 20 requiring db ≡ ok covered_claims
unfolding compile_coverage_snapshot sarmady.Compiler.Coverage.cover
    sarmady.Store.Capture.captured_state sarmady.Store.ResolvedState.resolve_state
    sarmady.Store.Resolution.head_for_key sarmady.Store.Resolution.replay
    sarmady.Store.Resolution.timeline sarmady.Store.Resolution.sort_moments
    sarmady.Store.Resolution.claim_rows sarmady.Store.Resolution.relation_rows
    sarmady.Store.Resolution.revise sarmady.Store.ResolvedState.resolve_operative
    sarmady.Store.ResolvedState.conflicts_of sarmady.Store.ResolvedState.contradictions
    sarmady.Compiler.Coverage.draft_requirement sarmady.Compiler.include_claims
    sarmady.Compiler.include_claim sarmady.Store.Capture.captured_claim
    sarmady.Compiler.Coverage.first_of_each sarmady.Compiler.add_item
    sarmady.Compiler.include_competing sarmady.Compiler.include_evidence sarmady.Compiler.join
    sarmady.Context.check_projection sarmady.Store.Capture.captured_evidence
    sarmady.Store.Capture.captured_is_active sarmady.Store.Capture.captured_memory_entry
    sarmady.Store.Memory.active_memory_entry_for_target sarmady.Store.Memory.is_active_memory_target
    sarmady.Store.Memory.memory_entry_for_target sarmady.Store.Resolution.insert_moment
    sarmady.Store.Resolution.normalized sarmady.Store.ResolvedState.claim_valid_at
    sarmady.Store.ResolvedState.conflict_of sarmady.Store.ResolvedState.parent_of
    sarmady.Store.ResolvedState.walk_lineage sarmady.Store.frontier
covers = refl

lineage_of-compile_coverage_snapshot_example :
    lineage_of covered_claims.1 [] (some covered_claims.0)
    ≡ ok (captured_lineage (record covered_claims.0 { consumed = true }))
lineage_of-compile_coverage_snapshot_example =
    lineage_of-compile_coverage_snapshot host 20 requiring db covered_claims.0 covered_claims.1
      present covers

abbrev seen_again : Observed
seen_again = record {
  subject = "server";
  predicate = "region";
  value = str "us";
  source_ref = "test";
  observed_at = at 5;
  recorded_at = some (at 6);
  payload = none;
  valid_from = none;
  valid_to = none;
  relation_kind = none;
  supersede_current = true;
}

abbrev fresh : Fresh
fresh = record { event = 2; evidence = 2; claim = 2; memory = 2; relation = 1; memory_event = 1 }

abbrev observed : Db × Claim
observed = value_or (observe_claim id_text seen_again fresh db) (db, sample)

observes : observe_claim id_text seen_again fresh db ≡ ok observed
unfolding observe_claim sarmady.Time.require_aware sarmady.Time.require_aware_if
    sarmady.Observation.chosen_kind current_claim lookup_head sarmady.Observation.observed_bundle
    sarmady.Epistemic.check_event sarmady.Values.freeze_value sarmady.Epistemic.check_evidence
    sarmady.Epistemic.check_claim sarmady.Memory.check_entry sarmady.Epistemic.check_relation
    sarmady.Store.Epistemic.commit_claim_bundle sarmady.Store.Epistemic.Checks.reconstruct
    sarmady.Store.Epistemic.Checks.validate_bundle sarmady.Store.Epistemic.write_bundle
    sarmady.Store.Epistemic.Checks.check_current sarmady.Memory.State.next_memory_state
    sarmady.Store.ClaimHeads.upsert_head sarmady.Store.Epistemic.Checks.check_evidence_ref
    sarmady.Store.Epistemic.Checks.check_evidence_refs
    sarmady.Store.Epistemic.Inserts.commit_relation sarmady.Store.Epistemic.Inserts.insert_claim
    sarmady.Store.Epistemic.Inserts.insert_event sarmady.Store.Epistemic.Inserts.insert_evidence
    sarmady.Store.Epistemic.Inserts.insert_memory_entry
    sarmady.Store.Epistemic.Inserts.insert_relation sarmady.Store.Epistemic.Inserts.move_head
    sarmady.Store.Memory.apply_state sarmady.Store.Memory.insert_memory_event
    sarmady.Store.Memory.record_memory_event_in_tx sarmady.Store.frontier
    sarmady.Store.invalidate_projection_dependencies sarmady.Store.log
observes = refl

lookup_head-observe_claim_example :
    (claim_key observed.1 ≡ ("server", "region"))
    × (lookup_head observed.0.claim_heads ("server", "region") ≡ (
        if replaces (current_claim db "server" "region") seen_again
          && ◌==◌ {A = String × String} ("server", "region") ("server", "region")
        then some observed.1.id
        else lookup_head db.claim_heads ("server", "region")))
lookup_head-observe_claim_example =
    lookup_head-observe_claim id_text seen_again fresh db observed.0 observed.1 ("server", "region")
      observes
