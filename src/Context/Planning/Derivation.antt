-- ===== src/Context/Planning/Derivation.antt =====
-- Resolved plans of src/sarmady/context/planning.py from a whole call of `plan`, and the requests
-- that `derive_request` makes of them.
use sarmady.Prelude.{
  ℕ, String, In, ◌≡◌, refl, sym, ap, ◌∙◌, Bool, true, false, not, [], ◌∷◌, ◌==◌, string_eq, nat_eq,
  eq_of_test, eq_self, arith, if◌then◌else◌,
}
use sarmady.Outcome.{Outcome, ok, >>=-eq-ok, raise_if-eq-ok}
use sarmady.Host.{Host}
use sarmady.Context.{ContextRequest, ExactCoverageRequirement, check_request}
use sarmady.Context.Fingerprint.{context_request_fingerprint}
use sarmady.Context.Plan.{
  ContextCandidate, CandidateSet, RequirementPlan, resolved, check_plan, no_elements,
}
use sarmady.Context.Planning.{
  lexical_version, lexical_tokens, evokes, evoked_by, predicates, abstain, planned_requirement,
  plan_bound, plan_of, plan, derive_request, is_resolved,
}
use sarmady.Context.Planning.Evidence.{Selected, not_resolved, plan_predicate-Selected}

-- A branch that abstains gives no resolved plan.
refused :
    (host : Host) (r : ContextRequest) (s : CandidateSet) (fingerprint reason : String)
    (p : RequirementPlan) (b : Bool) (m : Outcome RequirementPlan)
    → (if b then check_plan host (abstain r s fingerprint reason) else m) ≡ ok p
    → is_resolved p.status ≡ true
    → (b ≡ false) × (m ≡ ok p)
refused host r s fingerprint reason p true m h e = elim (not_resolved host _ p h refl e) [ ]
refused host r s fingerprint reason p false m h e = (refl, h)

true_of_not : (b : Bool) → not b ≡ false → b ≡ true
true_of_not true h = refl
true_of_not false h = cc

plan_bound-Selected :
    (host : Host) (r : ContextRequest) (s : CandidateSet) (fingerprint : String)
    (p : RequirementPlan)
    → plan_bound host r s fingerprint ≡ ok p
    → is_resolved p.status ≡ true
    → Selected host r s fingerprint p
      × (s.is_exhaustive ≡ true)
      × (s.generator_version ≡ lexical_version)
unfolding plan_bound
plan_bound-Selected host r s fingerprint p h e =
    let (version, h1) = refused host r s fingerprint _ p _ _ h e in
    let (exhaustive, h2) = refused host r s fingerprint _ p _ _ h1 e in
    let (_, h3) = refused host r s fingerprint _ p _ _ h2 e in
    (
      plan_predicate-Selected host r s fingerprint (predicates (evoked_by host r s)) p refl h3 e,
      true_of_not _ exhaustive,
      eq_of_test s.generator_version lexical_version (true_of_not _ version),
    )

-- A call of `plan` that gives a resolved plan had a set that is bound to the request by its
-- identifier and fingerprint, is exhaustive and comes from the lexical generator; the plan's one
-- obligation is a candidate of the set that the query evokes, and every candidate that the query
-- evokes has the predicate of that obligation.
pub plan-Selected :
    (host : Host) (r : ContextRequest) (s : CandidateSet) (p : RequirementPlan)
    → plan host r s ≡ ok p
    → is_resolved p.status ≡ true
    → (s.request_id ≡ r.id)
      × (context_request_fingerprint host r ≡ ok s.request_fingerprint)
      × Selected host r s s.request_fingerprint p
      × (s.is_exhaustive ≡ true)
      × (s.generator_version ≡ lexical_version)
unfolding plan
plan-Selected host r s p h e =
    let (_, h1) = raise_if-eq-ok (not (no_elements r.exact_requirements)) _ _ h in
    let (same_id, h2) = raise_if-eq-ok (not (s.request_id == r.id)) _ _ h1 in
    let (fingerprint, computed, h3) = >>=-eq-ok (context_request_fingerprint host r) _ h2 in
    let (_, h4) = raise_if-eq-ok (s.request_fingerprint == "") _ _ h3 in
    let (same, h5) = raise_if-eq-ok (not (s.request_fingerprint == fingerprint)) _ _ h4 in
    let bound = eq_of_test s.request_fingerprint fingerprint (true_of_not _ same) in
    let (selected, exhaustive, version) =
      plan_bound-Selected host r s s.request_fingerprint p (ap (plan_bound host r s) bound ∙ h5)
        e in
    (
      eq_of_test s.request_id r.id (true_of_not _ same_id),
      computed ∙ ap ok (sym bound),
      selected,
      exhaustive,
      version,
    )

check_request_single :
    (r : ContextRequest) (id : ℕ) (q : ExactCoverageRequirement)
    → check_request r ≡ ok r
    → check_request (record r { id = id; exact_requirements = q ∷ [] })
      ≡ ok (record r { id = id; exact_requirements = q ∷ [] })
unfolding check_request
check_request_single r id q h = ground arith

derive_shape :
    (host : Host) (r : ContextRequest) (s : CandidateSet) (c : ContextCandidate) (id : ℕ)
    → context_request_fingerprint host r ≡ ok s.request_fingerprint
    → s.generator_version ≡ lexical_version
    → check_request r ≡ ok r
    → (id == r.id) ≡ false
    → derive_request host r
        (plan_of r s s.request_fingerprint resolved
          (planned_requirement c ∷ [])
          (c.operative_claim_id ∷ [])
          []
          [])
        id
      ≡ ok (record r { id = id; exact_requirements = planned_requirement c ∷ [] })
unfolding derive_request
derive_shape host r s c id computed version valid new =
    rw (version, computed, new, eq_self r.id, eq_self s.request_fingerprint)
      (check_request_single r id (planned_requirement c) valid)

-- From a resolved plan for a request that its own constructor accepts, `derive_request` makes, for
-- every identifier but the request's own, the request with that identifier and the plan's exact
-- requirements: it does not raise, and budgets, lineage and temporal selectors are the source's.
-- The plan's exact requirements are one, that of a candidate of the set that the query evokes.
pub derive_request-plan :
    (host : Host) (r : ContextRequest) (s : CandidateSet) (p : RequirementPlan) (id : ℕ)
    → plan host r s ≡ ok p
    → is_resolved p.status ≡ true
    → check_request r ≡ ok r
    → (id == r.id) ≡ false
    → (derive_request host r p id
        ≡ ok (record r { id = id; exact_requirements = p.exact_requirements }))
      × ((c : ContextCandidate) × (p.exact_requirements ≡ planned_requirement c ∷ [])
          × In c s.candidates
          × (evokes host (lexical_tokens host r.query) c ≡ true))
derive_request-plan host r s p id h e valid new =
    let (_, computed, selected, _, version) = plan-Selected host r s p h e in
    let required = ap (λ (q : RequirementPlan). q.exact_requirements) selected.shape in
    (
      ap (λ (q : RequirementPlan). derive_request host r q id) selected.shape
          ∙ derive_shape host r s selected.candidate id computed version valid new
          ∙ ap (λ qs. ok (record r { id = id; exact_requirements = qs })) (sym required),
      (selected.candidate, required, selected.offered, selected.evoked),
    )
