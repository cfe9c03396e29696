-- ===== src/Context/Plan.antt =====
-- src/sarmady/context/models.py: candidates, candidate sets and requirement plans.
use sarmady.Prelude.{
  ℕ, String, Bool, true, false, not, List, [], ◌∷◌, map, ◌==◌, ◌&&◌, ◌||◌, any_of, length,
  string_eq, nat_eq, pair_eq,
}
use sarmady.Outcome.{Outcome, ok, value_error, type_error, raise_if, ◌>>◌}
use sarmady.Host.{Host}
use sarmady.Context.{ExactCoverageRequirement, is_blank, duplicated}

-- `rank_score` is the natural number whose `float` the one generator writes.
pub record ContextCandidate : Type 0 where
  pub subject : String
  pub predicate : String
  pub operative_claim_id : ℕ
  pub rank_score : ℕ
  pub signals : List String

abbrev pub is_empty_text : String → Bool
is_empty_text s = s == ""

unfoldable pub check_candidate : Host → ContextCandidate → Outcome ContextCandidate
check_candidate host c = do
  raise_if (is_blank host c.subject) (value_error "candidate subject is required")
  raise_if (is_blank host c.predicate) (value_error "candidate predicate is required")
  raise_if (any_of is_empty_text c.signals)
      (type_error "candidate signals must contain non-empty strings")
  raise_if (duplicated c.signals) (value_error "candidate signals must be unique")
  ok c

pub record CandidateSet : Type 0 where
  pub request_id : ℕ
  pub snapshot_id : String
  pub canonical_frontier : String
  pub candidates : List ContextCandidate
  pub generator_version : String
  pub request_fingerprint : String
  pub is_exhaustive : Bool

abbrev pub candidate_key : ContextCandidate → String × String
candidate_key c = (c.subject, c.predicate)

unfoldable pub check_candidate_set : Host → CandidateSet → Outcome CandidateSet
check_candidate_set host s = do
  raise_if (s.snapshot_id == "") (value_error "candidate snapshot_id is required")
  raise_if (s.canonical_frontier == "") (value_error "candidate canonical_frontier is required")
  raise_if (s.generator_version == "") (value_error "candidate generator_version is required")
  raise_if
      (not (s.request_fingerprint == "") && not (host.startswith s.request_fingerprint "sha256:"))
      (value_error "candidate request_fingerprint must be a sha256 fingerprint")
  raise_if (duplicated (map candidate_key s.candidates))
      (value_error "candidate semantic keys must be unique")
  ok s

pub data RequirementPlanStatus : Type 0 where
  resolved ambiguous abstained : RequirementPlanStatus

pub record RequirementPlan : Type 0 where
  pub source_request_id : ℕ
  pub source_request_fingerprint : String
  pub candidate_snapshot_id : String
  pub canonical_frontier : String
  pub candidate_generator_version : String
  pub planner_version : String
  pub status : RequirementPlanStatus
  pub exact_requirements : List ExactCoverageRequirement
  pub selected_candidate_claim_ids : List ℕ
  pub ambiguous_candidate_claim_ids : List ℕ
  pub reasons : List String

abbrev pub no_elements {ℓ} : {A : Type ℓ} → List A → Bool
no_elements [] = true
no_elements (x ∷ xs) = false

unfoldable pub check_status : RequirementPlan → RequirementPlanStatus → Outcome (Unit {0})
check_status p resolved = do
  raise_if
      (no_elements p.exact_requirements
        || not (length p.exact_requirements == length p.selected_candidate_claim_ids))
      (value_error "resolved plan requires one selected candidate for each exact requirement")
  raise_if (not (no_elements p.ambiguous_candidate_claim_ids))
      (value_error "resolved plan cannot contain ambiguous candidates")
check_status p ambiguous = do
  raise_if
      (not (no_elements p.exact_requirements) || not (no_elements p.selected_candidate_claim_ids))
      (value_error "non-resolved plan cannot emit hard exact requirements")
  raise_if (no_elements p.reasons) (value_error "non-resolved plan requires an abstention reason")
  raise_if (no_elements p.ambiguous_candidate_claim_ids)
      (value_error "ambiguous plan requires ambiguous candidate references")
check_status p abstained = do
  raise_if
      (not (no_elements p.exact_requirements) || not (no_elements p.selected_candidate_claim_ids))
      (value_error "non-resolved plan cannot emit hard exact requirements")
  raise_if (no_elements p.reasons) (value_error "non-resolved plan requires an abstention reason")

unfoldable pub check_plan : Host → RequirementPlan → Outcome RequirementPlan
check_plan host p = do
  raise_if (not (host.startswith p.source_request_fingerprint "sha256:"))
      (value_error "plan source_request_fingerprint is required")
  raise_if (p.candidate_snapshot_id == "") (value_error "plan candidate_snapshot_id is required")
  raise_if (p.canonical_frontier == "") (value_error "plan canonical_frontier is required")
  raise_if (p.candidate_generator_version == "")
      (value_error "plan candidate_generator_version is required")
  raise_if (p.planner_version == "") (value_error "plan planner_version is required")
  raise_if (any_of is_empty_text p.reasons)
      (type_error "plan reasons must contain non-empty strings")
  raise_if (duplicated p.reasons) (value_error "plan reasons must be unique")
  raise_if (duplicated (map (λ (q : ExactCoverageRequirement). q.key) p.exact_requirements))
      (value_error "plan requirement keys must be unique")
  check_status p p.status
  ok p
