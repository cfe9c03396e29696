-- ===== src/Context/Planning.antt =====
-- src/sarmady/context/planning.py: `ControlledRequirementPlanner`, and `lexical_tokens` of
-- src/sarmady/context/_lexical.py.
pub mod Evidence
pub mod Derivation
use Prim.Native.String.{◌++◌ as append}
use sarmady.Prelude.{
  ℕ, String, Bool, true, false, not, Option, none, some, List, [], ◌∷◌, ◌++◌, map, ◌==◌, ◌&&◌, ◌||◌,
  elem, any_of, select, find, length, string_eq, nat_eq, Eq, if◌then◌else◌,
}
use sarmady.Outcome.{Outcome, ok, err, value_error, raise_if, ◌>>=◌, ◌>>◌}
use sarmady.Host.{Host}
use sarmady.Context.{ContextRequest, ExactCoverageRequirement, check_request, check_requirement}
use sarmady.Context.Fingerprint.{context_request_fingerprint}
use sarmady.Context.Plan.{
  ContextCandidate, CandidateSet, RequirementPlan, RequirementPlanStatus, resolved, ambiguous,
  abstained, check_plan, no_elements,
}

-- A set is the list of its elements, each once.
abbrev pub distinct : List String → List String
distinct [] = []
distinct (x ∷ xs) = let rest = distinct xs in if elem x rest then rest else x ∷ rest

abbrev pub meet : List String → List String → List String
meet xs ys = select (λ x. elem x ys) xs

abbrev pub minus : List String → List String → List String
minus xs ys = select (λ x. not (elem x ys)) xs

unfoldable pub lexical_tokens : Host → String → List String
lexical_tokens host content = distinct (map host.casefold (host.words content))

abbrev pub lexical_version : String
lexical_version = "lexical-v0.2"

abbrev pub planner_version : String
planner_version = "controlled-requirement-v0.1"

-- `query_terms & lexical_tokens(candidate.predicate)`
abbrev pub evokes : Host → List String → ContextCandidate → Bool
evokes host terms c = not (no_elements (meet terms (lexical_tokens host c.predicate)))

abbrev pub subjects : List ContextCandidate → List String
subjects cs = distinct (map (λ (c : ContextCandidate). c.subject) cs)

-- `term_subjects[term]`
abbrev pub term_subjects : Host → List ContextCandidate → String → List String
term_subjects host cs term = subjects (select (λ c. elem term (lexical_tokens host c.subject)) cs)

abbrev pub is_single {ℓ} : {A : Type ℓ} → List A → Bool
is_single (x ∷ []) = true
is_single _ = false

abbrev pub discriminating_terms : Host → List ContextCandidate → String → List String
discriminating_terms host cs subject =
    select (λ term. is_single (term_subjects host cs term)) (lexical_tokens host subject)

abbrev pub qualifies : Host → List String → List ContextCandidate → String → Bool
qualifies host terms cs subject =
    not (no_elements (meet terms (discriminating_terms host cs subject)))

abbrev pub qualified_subjects : Host → List String → List ContextCandidate → List String
qualified_subjects host terms cs = select (qualifies host terms cs) (subjects cs)

abbrev pub only_subject : List String → List ContextCandidate → Option ContextCandidate
only_subject (subject ∷ []) cs = find (λ c. c.subject == subject) cs
only_subject _ cs = none

-- `_resolve_subject`; its last line is not reached, as a subject is taken from the candidates.
unfoldable pub resolve_subject :
    Host → List String → List ContextCandidate → Option ContextCandidate
resolve_subject host terms (c ∷ []) = some c
resolve_subject host terms cs = only_subject (qualified_subjects host terms cs) cs

-- the fields that every plan of the planner has, with the status and the rest
abbrev pub plan_of :
    ContextRequest
    → CandidateSet
    → String
    → RequirementPlanStatus
    → List ExactCoverageRequirement
    → List ℕ
    → List ℕ
    → List String
    → RequirementPlan
plan_of r s fingerprint status requirements selected doubtful reasons = record {
  source_request_id = r.id;
  source_request_fingerprint = fingerprint;
  candidate_snapshot_id = s.snapshot_id;
  canonical_frontier = s.canonical_frontier;
  candidate_generator_version = s.generator_version;
  planner_version = planner_version;
  status = status;
  exact_requirements = requirements;
  selected_candidate_claim_ids = selected;
  ambiguous_candidate_claim_ids = doubtful;
  reasons = reasons;
}

abbrev pub abstain : ContextRequest → CandidateSet → String → String → RequirementPlan
abstain r s fingerprint reason = plan_of r s fingerprint abstained [] [] [] (reason ∷ [])

abbrev pub planned_requirement : ContextCandidate → ExactCoverageRequirement
planned_requirement c = record {
  key = append "planned:" (append c.subject (append ":" c.predicate));
  subject = c.subject;
  predicate = c.predicate;
  role = "essential_now";
}

-- the plan for the pool of the candidates of one predicate
unfoldable pub plan_subject :
    Host
    → ContextRequest
    → CandidateSet
    → String
    → List ContextCandidate
    → Option ContextCandidate
    → Outcome RequirementPlan
plan_subject host r s fingerprint pool none = check_plan host (
    plan_of r s fingerprint ambiguous [] []
      (map (λ (c : ContextCandidate). c.operative_claim_id) pool) ("ambiguous-subject" ∷ []))
plan_subject host r s fingerprint pool (some c) = do
  q ← check_requirement host (planned_requirement c)
  check_plan host (plan_of r s fingerprint resolved (q ∷ []) (c.operative_claim_id ∷ []) [] [])

unfoldable pub plan_predicate :
    Host
    → ContextRequest
    → CandidateSet
    → String
    → List String
    → List ContextCandidate
    → List String
    → Outcome RequirementPlan
plan_predicate host r s fingerprint terms evoked [] =
    check_plan host (abstain r s fingerprint "no-explicit-predicate-evidence")
plan_predicate host r s fingerprint terms evoked (predicate ∷ []) =
    let pool = select (λ (c : ContextCandidate). c.predicate == predicate) evoked in
    plan_subject host r s fingerprint pool
      (resolve_subject host (minus terms (lexical_tokens host predicate)) pool)
plan_predicate host r s fingerprint terms evoked (p ∷ q ∷ ps) =
    check_plan host (abstain r s fingerprint "predicate-ambiguous-or-multi-intent")

abbrev pub evoked_by : Host → ContextRequest → CandidateSet → List ContextCandidate
evoked_by host r s = select (evokes host (lexical_tokens host r.query)) s.candidates

abbrev pub predicates : List ContextCandidate → List String
predicates cs = distinct (map (λ (c : ContextCandidate). c.predicate) cs)

-- The plan for a candidate set that is bound to the request.
unfoldable pub plan_bound : Host → ContextRequest → CandidateSet → String → Outcome RequirementPlan
plan_bound host r s fingerprint =
    if not (s.generator_version == lexical_version)
    then check_plan host (abstain r s fingerprint "unsupported-candidate-generator")
    else if not s.is_exhaustive
    then check_plan host (abstain r s fingerprint "candidate-set-non-exhaustive")
    else if no_elements s.candidates
    then check_plan host (abstain r s fingerprint "no-candidates")
    else (let evoked = evoked_by host r s in
        plan_predicate host r s fingerprint (lexical_tokens host r.query) evoked
          (predicates evoked))

unfoldable pub plan : Host → ContextRequest → CandidateSet → Outcome RequirementPlan
plan host r s = do
  raise_if (not (no_elements r.exact_requirements))
      (value_error "controlled requirement planning expects a request without exact requirements")
  raise_if (not (s.request_id == r.id))
      (value_error "candidate set belongs to a different context request")
  fingerprint ← context_request_fingerprint host r
  raise_if (s.request_fingerprint == "")
      (value_error "candidate set is not bound to source request semantics")
  raise_if (not (s.request_fingerprint == fingerprint))
      (value_error "candidate set does not match source request semantics")
  plan_bound host r s fingerprint

abbrev pub is_resolved : RequirementPlanStatus → Bool
is_resolved resolved = true
is_resolved _ = false

unfoldable pub derive_request : Host → ContextRequest → RequirementPlan → ℕ → Outcome ContextRequest
derive_request host source p new_request_id = do
  raise_if (not (p.planner_version == planner_version))
      (value_error "requirement plan belongs to a different planner version")
  raise_if (not (p.candidate_generator_version == lexical_version))
      (value_error "requirement plan uses an unsupported candidate generator")
  raise_if (not (p.source_request_id == source.id))
      (value_error "requirement plan belongs to a different source request")
  fingerprint ← context_request_fingerprint host source
  raise_if (not (p.source_request_fingerprint == fingerprint))
      (value_error "source request semantics changed after requirement planning")
  raise_if (not (is_resolved p.status))
      (value_error "only a resolved requirement plan can derive a context request")
  raise_if (not (is_single p.exact_requirements) || not (is_single p.selected_candidate_claim_ids))
      (value_error "controlled requirement v0.1 plan must contain exactly one obligation")
  raise_if (new_request_id == source.id) (value_error "derived context request must use a new id")
  check_request (record source { id = new_request_id; exact_requirements = p.exact_requirements })
