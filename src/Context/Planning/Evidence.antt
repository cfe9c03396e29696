-- ===== src/Context/Planning/Evidence.antt =====
-- What a resolved plan of src/sarmady/context/planning.py rests on, and that a request can be
-- derived from it.
use sarmady.Prelude.{
  String, ◌≡◌, refl, sym, ap, ◌∙◌, inl, inr, Bool, true, false, Option, none, some, List, [], ◌∷◌,
  map, ◌==◌, ◌||◌, elem, select, string_eq, nat_eq, eq_of_test, eq_self, arith, In, In-select,
  select-In, In-find, some-inj,
}
use sarmady.Outcome.{ok, >>=-eq-ok}
use sarmady.Host.{Host}
use sarmady.Context.{ContextRequest, ExactCoverageRequirement, check_requirement}
use sarmady.Context.Plan.{ContextCandidate, CandidateSet, RequirementPlan, resolved, check_plan}
use sarmady.Context.Planning.{
  lexical_tokens, distinct, evokes, evoked_by, predicates, only_subject, qualified_subjects,
  resolve_subject, plan_of, planned_requirement, plan_subject, plan_predicate, is_resolved,
}

-- The one candidate that a resolved plan takes its obligation from, and why it may.
pub record Selected (host : Host) (r : ContextRequest) (s : CandidateSet) (fingerprint : String)
    (p : RequirementPlan) : Type 0 where
  pub candidate : ContextCandidate
  pub offered : In candidate s.candidates
  pub evoked : evokes host (lexical_tokens host r.query) candidate ≡ true
  pub only_predicate :
      (c : ContextCandidate)
      → In c s.candidates
      → evokes host (lexical_tokens host r.query) c ≡ true
      → c.predicate ≡ candidate.predicate
  pub shape :
      p
      ≡ plan_of r s fingerprint resolved
          (planned_requirement candidate ∷ [])
          (candidate.operative_claim_id ∷ [])
          []
          []

elem-distinct : (xs : List String) (x : String) → In x xs → elem x (distinct xs) ≡ true
elem-distinct [] x h = elim h.lower [ ]
elem-distinct (y ∷ ys) x (inl same) = ground (arith, eq_self x, same, string_eq.same_as_iff x y)
elem-distinct (y ∷ ys) x (inr h) = ground (arith, elem-distinct ys x h)

check_plan-eq-ok :
    (host : Host) (p : RequirementPlan) {q : RequirementPlan} → check_plan host p ≡ ok q → q ≡ p
unfolding check_plan
check_plan-eq-ok host p h = ground arith

check_requirement-eq-ok :
    (host : Host) (c : ExactCoverageRequirement) {q : ExactCoverageRequirement}
    → check_requirement host c ≡ ok q
    → q ≡ c
unfolding check_requirement
check_requirement-eq-ok host c h = ground arith

only_subject-In :
    (names : List String) (cs : List ContextCandidate) (c : ContextCandidate)
    → only_subject names cs ≡ some c
    → In c cs
only_subject-In [] cs c h = cc
only_subject-In (name ∷ []) cs c h = In-find (λ d. d.subject == name) cs c h
only_subject-In (name ∷ more ∷ rest) cs c h = cc

resolve_subject-In :
    (host : Host) (terms : List String) (cs : List ContextCandidate) (c : ContextCandidate)
    → resolve_subject host terms cs ≡ some c
    → In c cs
unfolding resolve_subject
resolve_subject-In host terms [] c h = cc
resolve_subject-In host terms (d ∷ []) c h = inl (some-inj (sym h))
resolve_subject-In host terms (d ∷ e ∷ cs) c h =
    only_subject-In (qualified_subjects host terms (d ∷ e ∷ cs)) (d ∷ e ∷ cs) c h

-- a plan of another status is not a resolved one
pub not_resolved :
    (host : Host) (q p : RequirementPlan)
    → check_plan host q ≡ ok p
    → is_resolved q.status ≡ false
    → is_resolved p.status ≡ true
    → ⊥
not_resolved host q p h other e =
    let same = check_plan-eq-ok host q h in
    let status = ap (λ (x : RequirementPlan). is_resolved x.status) same in cc

plan_subject-Resolved :
    (host : Host) (r : ContextRequest) (s : CandidateSet) (fingerprint : String)
    (pool : List ContextCandidate) (o : Option ContextCandidate) (p : RequirementPlan)
    → plan_subject host r s fingerprint pool o ≡ ok p
    → is_resolved p.status ≡ true
    → (c : ContextCandidate) × (o ≡ some c)
      × (p
          ≡ plan_of r s fingerprint resolved
              (planned_requirement c ∷ [])
              (c.operative_claim_id ∷ [])
              []
              [])
unfolding plan_subject
plan_subject-Resolved host r s fingerprint pool none p h e =
    elim (not_resolved host _ p h refl e) [ ]
plan_subject-Resolved host r s fingerprint pool (some c) p h e =
    let (q, checked, h1) = >>=-eq-ok (check_requirement host (planned_requirement c)) _ h in
    let same = check_requirement-eq-ok host (planned_requirement c) checked in
    (
      c,
      refl,
      check_plan-eq-ok host _ h1
          ∙ ap (λ d. plan_of r s fingerprint resolved (d ∷ []) (c.operative_claim_id ∷ []) [] [])
              same,
    )

In-map :
    (cs : List ContextCandidate) (c : ContextCandidate)
    → In c cs
    → In c.predicate (map (λ (d : ContextCandidate). d.predicate) cs)
In-map [] c h = elim h.lower [ ]
In-map (d ∷ cs) c (inl same) = inl (ap (λ (x : ContextCandidate). x.predicate) same)
In-map (d ∷ cs) c (inr h) = inr (In-map cs c h)

true_of_or : (b : Bool) → (b || false) ≡ true → b ≡ true
true_of_or true h = refl
true_of_or false h = h

-- The single predicate that the query evokes is the predicate of every candidate that it evokes.
single_predicate :
    (cs : List ContextCandidate) (predicate : String) (c : ContextCandidate)
    → predicates cs ≡ predicate ∷ []
    → In c cs
    → c.predicate ≡ predicate
single_predicate cs predicate c h found =
    let there : elem c.predicate (predicates cs) ≡ true =
      elem-distinct (map (λ (d : ContextCandidate). d.predicate) cs) c.predicate
        (In-map cs c found) in
    let single = sym (ap (elem c.predicate) h) ∙ there in
    eq_of_test c.predicate predicate (true_of_or _ single)

pub plan_predicate-Selected :
    (host : Host) (r : ContextRequest) (s : CandidateSet) (fingerprint : String)
    (found : List String) (p : RequirementPlan)
    → predicates (evoked_by host r s) ≡ found
    → plan_predicate host r s fingerprint (lexical_tokens host r.query) (evoked_by host r s) found
      ≡ ok p
    → is_resolved p.status ≡ true
    → Selected host r s fingerprint p
unfolding plan_predicate
plan_predicate-Selected host r s fingerprint [] p f h e = elim (not_resolved host _ p h refl e) [ ]
plan_predicate-Selected host r s fingerprint (a ∷ b ∷ cs) p f h e =
    elim (not_resolved host _ p h refl e) [ ]
plan_predicate-Selected host r s fingerprint (predicate ∷ []) p f h e =
    let evoked = evoked_by host r s in
    let pool = select (λ (c : ContextCandidate). c.predicate == predicate) evoked in
    let (c, chosen, same) = plan_subject-Resolved host r s fingerprint pool _ p h e in
    let in_pool = resolve_subject-In host _ pool c chosen in
    let (in_evoked, _) = In-select _ evoked c in_pool in
    let (offered, by_query) = In-select _ s.candidates c in_evoked in
    record {
      candidate = c;
      offered = offered;
      evoked = by_query;
      only_predicate = λ d there also.
          single_predicate evoked predicate d f (select-In _ s.candidates d there also)
          ∙ sym (single_predicate evoked predicate c f in_evoked);
      shape = same;
    }
