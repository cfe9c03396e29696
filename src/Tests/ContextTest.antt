-- ===== src/Tests/ContextTest.antt =====
-- Plans, candidate sets, registrations and staleness, at small stores.
use sarmady.Prelude.{
  ltb, String, ◌≡◌, ◌≤◌, refl, true, false, none, some, List, [], ◌∷◌, map, elem, length, take, In,
  nat_eq, string_eq, pair_eq,
}
use sarmady.Outcome.{Outcome, ok, err}
use sarmady.Epistemic.{Claim}
use sarmady.Memory.{MemoryEntry, archived, archive}
use sarmady.Context.{ContextRequest, duplicated, check_request}
use sarmady.Context.Fingerprint.{context_request_fingerprint}
use sarmady.Context.Plan.{ContextCandidate, CandidateSet, RequirementPlan, candidate_key, resolved}
use sarmady.Context.Planning.{
  lexical_tokens, lexical_version, evokes, plan_of, planned_requirement, plan, derive_request,
}
use sarmady.Context.Planning.Evidence.{Selected}
use sarmady.Context.Planning.Derivation.{plan-Selected, derive_request-plan}
use sarmady.Store.{
  Db, claim, ProjectionRow, empty_db, frontier, projection_by_id, epistemic_dependency_key,
  memory_dependency_key,
}
use sarmady.Store.Capture.{Capture, open_capture, semantic_keys}
use sarmady.Store.Projection.{keys_changed_since}
use sarmady.Store.Projection.Registration.{register_context_projection}
use sarmady.Store.Projection.Freshness.{register_context_projection_fresh}
use sarmady.Store.Epistemic.{commit_claim_bundle}
use sarmady.Store.ClaimHeads.{lookup_head}
use sarmady.Store.HeadMoves.{head_after, lookup_head-commit_claim_bundle}
use sarmady.Store.Memory.{record_memory_event}
use sarmady.Store.Staleness.{AllStale, commit_claim_bundle-AllStale, record_memory_event-AllStale}
use sarmady.Retrieval.{sort_texts, all_candidates, sort_candidates, generate}
use sarmady.Retrieval.Generated.{generate_lem}
use sarmady.Tests.Samples.{at, id_text, bundle, lifecycle_event}
use sarmady.Tests.Workspace.{host, request, projection, row, open_db}

abbrev candidate : ContextCandidate
candidate = record {
  subject = "server";
  predicate = "region";
  operative_claim_id = 7;
  rank_score = 5;
  signals = [];
}

abbrev candidates : CandidateSet
candidates = record {
  request_id = 1;
  snapshot_id = "sqlite:1";
  canonical_frontier = "1";
  candidates = candidate ∷ [];
  generator_version = "lexical-v0.2";
  request_fingerprint = "sha256:json";
  is_exhaustive = true;
}

abbrev planned : RequirementPlan
planned =
    plan_of request candidates "sha256:json" resolved (planned_requirement candidate ∷ []) (7 ∷ [])
      [] []

plans : plan host request candidates ≡ ok planned
unfolding plan context_request_fingerprint sarmady.Context.Fingerprint.fingerprint_time
    sarmady.Context.Planning.plan_bound sarmady.Context.Planning.plan_predicate lexical_tokens
    sarmady.Context.Planning.plan_subject sarmady.Context.Planning.resolve_subject
    sarmady.Context.check_requirement sarmady.Context.Plan.check_plan
    sarmady.Context.Plan.check_status
plans = refl

plan-Selected_example :
    (candidates.request_id ≡ request.id)
    × (context_request_fingerprint host request ≡ ok candidates.request_fingerprint)
    × Selected host request candidates candidates.request_fingerprint planned
    × (candidates.is_exhaustive ≡ true)
    × (candidates.generator_version ≡ lexical_version)
plan-Selected_example = plan-Selected host request candidates planned plans refl

request_checked : check_request request ≡ ok request
unfolding check_request sarmady.Time.require_aware_if
request_checked = refl

derive_request-plan_example :
    (derive_request host request planned 8
      ≡ ok (record request { id = 8; exact_requirements = planned.exact_requirements }))
    × ((c : ContextCandidate) × (planned.exact_requirements ≡ planned_requirement c ∷ [])
        × In c candidates.candidates
        × (evokes host (lexical_tokens host request.query) c ≡ true))
derive_request-plan_example =
    derive_request-plan host request candidates planned 8 plans refl request_checked refl

abbrev value_or {ℓ} : {A : Type ℓ} → Outcome A → A → A
value_or (ok a) b = a
value_or (err e) b = b

abbrev capture : Capture
capture = record {
  frontier = 0;
  keys = "epistemic-key:server:region" ∷ [];
  read_refs = [];
  closed = true;
  consumed = false;
}

abbrev registered : Db
registered = record empty_db {
  context_requests = request ∷ [];
  context_projections = record row { dependencies = "epistemic-key:server:region" ∷ [] } ∷ [];
}

registers :
    register_context_projection host projection request [] (some capture) empty_db
    ≡ ok (registered, false)
unfolding register_context_projection check_request sarmady.Time.require_aware_if
    sarmady.Store.Projection.lineage_of sarmady.Store.Capture.consume_capture
    sarmady.Store.Projection.Registration.write_projection frontier
    sarmady.Store.Projection.validate_context_projection_refs
    sarmady.Store.Projection.validate_items sarmady.Store.Projection.Registration.keep_request
    sarmady.Store.Projection.Registration.same_request
    sarmady.Store.Projection.Registration.insert_projection
    sarmady.Store.Projection.Registration.stale_already keys_changed_since
registers = refl

register_context_projection_fresh_example :
    (row : ProjectionRow) × (projection_by_id registered.context_projections 2 ≡ some row)
    × (row.projection ≡ projection)
    × (row.stale ≡ false)
    × (ltb (frontier empty_db) 0 ≡ false)
    × (some capture ≡ none → ltb 0 (frontier empty_db) ≡ false)
    × ((key : String)
        → In key row.dependencies
        → elem key (keys_changed_since id_text empty_db 0 []) ≡ false)
register_context_projection_fresh_example =
    register_context_projection_fresh host projection request [] (some capture) empty_db registered
      registers

abbrev committed : Db
committed = value_or (commit_claim_bundle id_text 4 (bundle 1 "eu" none) open_db) empty_db

commits : commit_claim_bundle id_text 4 (bundle 1 "eu" none) open_db ≡ ok committed
unfolding commit_claim_bundle sarmady.Store.Epistemic.Checks.reconstruct
    sarmady.Epistemic.check_event sarmady.Time.require_aware sarmady.Values.freeze_value
    sarmady.Values.freeze_items sarmady.Values.freeze_fields sarmady.Epistemic.check_evidence
    sarmady.Epistemic.check_claim sarmady.Time.require_aware_if sarmady.Memory.check_entry
    sarmady.Store.Epistemic.Checks.validate_bundle sarmady.Store.Epistemic.write_bundle
    sarmady.Store.Epistemic.Checks.check_current sarmady.Store.Epistemic.Checks.current_claim
    sarmady.Store.ClaimHeads.lookup_head sarmady.Store.ClaimHeads.upsert_head
    sarmady.Store.Epistemic.Checks.check_evidence_refs
    sarmady.Store.Epistemic.Checks.check_evidence_ref sarmady.Store.Epistemic.Inserts.insert_event
    sarmady.Store.Epistemic.Inserts.insert_evidence sarmady.Store.Epistemic.Inserts.insert_claim
    sarmady.Store.Epistemic.Inserts.insert_memory_entry
    sarmady.Store.Epistemic.Inserts.commit_relation sarmady.Store.Epistemic.Inserts.move_head
    sarmady.Store.Memory.record_memory_event_in_tx sarmady.Store.Memory.insert_memory_event
    sarmady.Store.Memory.apply_state sarmady.Store.log sarmady.Store.frontier
    sarmady.Store.invalidate_projection_dependencies sarmady.Memory.State.next_memory_state
commits = refl

commit_claim_bundle-AllStale_example :
    AllStale (epistemic_dependency_key "server" "region") committed
commit_claim_bundle-AllStale_example =
    commit_claim_bundle-AllStale id_text 4 (bundle 1 "eu" none) open_db committed commits

lookup_head-commit_claim_bundle_example :
    lookup_head committed.claim_heads ("server", "region")
    ≡ head_after open_db ("server", "region") 1 none ("server", "region")
lookup_head-commit_claim_bundle_example =
    lookup_head-commit_claim_bundle id_text 4 (bundle 1 "eu" none) open_db committed
      ("server", "region") commits

abbrev entry : MemoryEntry
entry = (bundle 2 "us" none).memory

abbrev remembering : Db
remembering = record open_db { memory_entries = entry ∷ [] }

abbrev archiving : Db
archiving =
    value_or (record_memory_event id_text (lifecycle_event 5 archive 2) remembering) empty_db

archives : record_memory_event id_text (lifecycle_event 5 archive 2) remembering ≡ ok archiving
unfolding record_memory_event sarmady.Memory.check_event sarmady.Time.require_aware
    sarmady.Store.Memory.record_memory_event_in_tx sarmady.Store.Memory.insert_memory_event
    sarmady.Store.Memory.apply_state sarmady.Store.log sarmady.Store.frontier
    sarmady.Store.invalidate_projection_dependencies sarmady.Memory.State.next_memory_state
archives = refl

next_is_archived : sarmady.Memory.State.next_memory_state entry.lifecycle archive ≡ ok archived
unfolding sarmady.Memory.State.next_memory_state
next_is_archived = refl

record_memory_event-AllStale_example : AllStale (memory_dependency_key id_text 2) archiving
record_memory_event-AllStale_example =
    record_memory_event-AllStale id_text (lifecycle_event 5 archive 2) entry archived remembering
      archiving refl next_is_archived refl archives

-- one claim, logged, with an active memory entry
abbrev searched : Db
searched = record empty_db {
  semantic_log = record { seq = 1; kind = claim; ref_id = 1; recorded_at = at 1 } ∷ [];
  claims = (bundle 1 "eu" none).claim ∷ [];
  memory_entries = (bundle 1 "eu" none).memory ∷ [];
}

abbrev found_set : CandidateSet
found_set = value_or (generate host (λ ks. ks) request 3 searched) candidates

found_one : map candidate_key found_set.candidates ≡ ("server", "region") ∷ []
unfolding generate context_request_fingerprint sarmady.Context.Fingerprint.fingerprint_time
    sort_texts lexical_tokens semantic_keys all_candidates sarmady.Store.Capture.logged_keys
    sarmady.Context.Plan.check_candidate sarmady.Context.Plan.check_candidate_set
    sarmady.Retrieval.competing_tokens sarmady.Retrieval.key_candidates
    sarmady.Retrieval.semantic_tokens sort_candidates sarmady.Store.Capture.captured_claim
    sarmady.Store.Capture.captured_is_active sarmady.Store.Capture.captured_state frontier
    sarmady.Store.ResolvedState.resolve_state sarmady.Store.ResolvedState.resolve_operative
    sarmady.Store.ResolvedState.conflicts_of sarmady.Store.ResolvedState.contradictions
    sarmady.Store.Resolution.head_for_key sarmady.Store.Resolution.timeline
    sarmady.Store.Resolution.claim_rows sarmady.Store.Resolution.relation_rows
    sarmady.Store.Resolution.sort_moments sarmady.Store.Resolution.replay
    sarmady.Store.Memory.memory_entry_for_target sarmady.Store.Memory.is_active_memory_target
    sarmady.Store.Resolution.revise
found_one = refl

generates : generate host (λ ks. ks) request 3 searched ≡ ok found_set
unfolding generate context_request_fingerprint sarmady.Context.Fingerprint.fingerprint_time
    sort_texts lexical_tokens semantic_keys all_candidates sarmady.Store.Capture.logged_keys
    sarmady.Context.Plan.check_candidate sarmady.Context.Plan.check_candidate_set
    sarmady.Retrieval.competing_tokens sarmady.Retrieval.key_candidates
    sarmady.Retrieval.semantic_tokens sort_candidates sarmady.Store.Capture.captured_claim
    sarmady.Store.Capture.captured_is_active sarmady.Store.Capture.captured_state frontier
    sarmady.Store.ResolvedState.resolve_state sarmady.Store.ResolvedState.resolve_operative
    sarmady.Store.ResolvedState.conflicts_of sarmady.Store.ResolvedState.contradictions
    sarmady.Store.Resolution.head_for_key sarmady.Store.Resolution.timeline
    sarmady.Store.Resolution.claim_rows sarmady.Store.Resolution.relation_rows
    sarmady.Store.Resolution.sort_moments sarmady.Store.Resolution.replay
    sarmady.Store.Memory.memory_entry_for_target sarmady.Store.Memory.is_active_memory_target
    sarmady.Store.Resolution.revise
generates = refl

generate_example :
    (context_request_fingerprint host request ≡ ok found_set.request_fingerprint)
    × (found_set.request_id ≡ request.id)
    × (found_set.generator_version ≡ lexical_version)
    × (length found_set.candidates ≤ 3)
    × (duplicated (map candidate_key found_set.candidates) ≡ false)
    × (keys : Capture × List (String × String)) × (semantic_keys
          (λ ks. ks)
          searched
          (open_capture searched)
        ≡ ok keys)
    × (found : Capture × List ContextCandidate) × (all_candidates host request
          (sort_texts host (lexical_tokens host request.query))
          searched
          keys.1
          keys.0
        ≡ ok found)
    × (found_set.candidates ≡ take 3 (sort_candidates host found.1))
    × (found_set.is_exhaustive ≡ true → found_set.candidates ≡ sort_candidates host found.1)
generate_example = generate_lem host (λ ks. ks) request 3 searched found_set generates
