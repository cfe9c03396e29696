-- ===== src/Store/Reasoning/Rows.antt =====
-- The row of a policy in src/sarmady/storage/sqlite/reasoning_store.py: what its constructor keeps,
-- and how the row is read back.
use sarmady.Prelude.{
  String, ◌≡◌, refl, sym, ap, ◌∙◌, true, false, not, Option, none, some, ◌==◌, inl, inr, arith,
  eq_self, eq_of_test, Bool-cases, string_eq, nat_eq, list_eq, option_eq, pair_eq, any_of, map,
}
use sarmady.Outcome.{ok, ok-inj, >>=-eq-ok, raise_if-eq-ok}
use sarmady.Time.{DateTime}
use sarmady.Host.{Host}
use sarmady.Context.{is_blank, duplicated}
use sarmady.Cognition.{ReasoningPolicy, ReasoningRequirement}
use sarmady.Cognition.Reasoning.{stage_key, check_policy, check_digest, fingerprint}
use sarmady.Store.{PolicyRow}
use sarmady.Store.Reasoning.{
  lower_if, same_terms, is_noncanonical, check_requirements, policy_from_row, mode_code,
  requirement_pair,
}

check_digest-canonical :
    (host : Host) (digest : Option String) {u : Unit {0}}
    → check_digest host digest ≡ ok u
    → is_noncanonical host digest ≡ false
unfolding check_digest
check_digest-canonical host none h = refl
check_digest-canonical host (some digest) h = ground arith

-- A policy that passes its constructor is unchanged by it, and its digest is in lower case.
pub check_policy-eq-ok :
    (host : Host) (p : ReasoningPolicy) {q : ReasoningPolicy}
    → check_policy host p ≡ ok q
    → (p ≡ q) × (is_noncanonical host p.source_sha256 ≡ false)
unfolding check_policy
check_policy-eq-ok host p h =
    let (_, h1) = raise_if-eq-ok (is_blank host p.id) _ _ h in
    let (_, h2) = raise_if-eq-ok (is_blank host p.version) _ _ h1 in
    let (_, h3) = raise_if-eq-ok (is_blank host p.source_ref) _ _ h2 in
    let (_, h4) = raise_if-eq-ok (any_of (is_blank host) p.stages) _ _ h3 in
    let (_, h5) = raise_if-eq-ok (duplicated (map (stage_key host) p.stages)) _ _ h4 in
    let (_, h6) =
      raise_if-eq-ok (duplicated (map (λ (r : ReasoningRequirement). r.key) p.requirements)) _ _
        h5 in
    let (_, digest, h7) = >>=-eq-ok (check_digest host p.source_sha256) _ h6 in
    (ok-inj h7, check_digest-canonical host p.source_sha256 digest)

pub lower_if-canonical :
    (host : Host) (digest : Option String)
    → is_noncanonical host digest ≡ false
    → lower_if host digest ≡ digest
lower_if-canonical host none h = refl
lower_if-canonical host (some digest) h = elim (Bool-cases (digest == host.lower digest)) [
  | inl same ↦ ap some (sym (eq_of_test digest (host.lower digest) same))
  | inr different ↦ let absurd : true ≡ false = ap not (sym different) ∙ h in cc
]

abbrev pub policy_row : Host → ReasoningPolicy → DateTime → PolicyRow
policy_row host p t = record { policy = p; fingerprint = fingerprint host p; registered_at = t }

-- A row that registration writes is read back as the policy that it was given.
pub policy_from_row-policy_row :
    (host : Host) (p : ReasoningPolicy) (t : DateTime)
    → check_policy host p ≡ ok p
    → check_requirements host p.requirements ≡ ok p.requirements
    → policy_from_row host (policy_row host p t) ≡ ok p
unfolding policy_from_row
policy_from_row-policy_row host p t checked requirements =
    let (_, canonical) = check_policy-eq-ok host p checked in
    rw (requirements, canonical, checked, eq_self (fingerprint host p)) refl

pub same_terms_self : (p : ReasoningPolicy) → same_terms p p ≡ true
same_terms_self p =
    rw
      (
        eq_self p.id,
        eq_self p.version,
        eq_self (mode_code p.mode),
        eq_self p.stages,
        eq_self (map requirement_pair p.requirements),
        eq_self p.source_ref,
      )
      refl
