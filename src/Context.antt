-- ===== src/Context.antt =====
-- src/sarmady/context/models.py: requests, items and projections. Candidates and plans are in
-- Context/Plan.antt.
pub mod Fingerprint
pub mod Plan
pub mod Planning
use sarmady.Prelude.{
  ℕ, ℤ, pos, leb_ℤ, String, Bool, true, false, Option, none, some, List, [], ◌∷◌, map, ◌==◌, ◌||◌,
  ◌&&◌, is_some, nat_eq, string_eq, Eq, elem, any_of,
}
use sarmady.Outcome.{Outcome, ok, err, value_error, type_error, raise_if, ◌>>=◌, ◌>>◌}
use sarmady.Time.{DateTime, require_aware_if}
use sarmady.Host.{Host}

pub data CoverageStatus : Type 0 where
  complete partial insufficient : CoverageStatus

pub record ExactCoverageRequirement : Type 0 where
  pub key : String
  pub subject : String
  pub predicate : String
  pub role : String

-- `not text.strip()`
abbrev pub is_blank : Host → String → Bool
is_blank host text = host.strip text == ""

-- `len(items) != len(set(items))`
abbrev pub duplicated {ℓ} : {A : Type ℓ} ⦃e : Eq A⦄ → List A → Bool
duplicated [] = false
duplicated (x ∷ xs) = elem x xs || duplicated xs

unfoldable pub check_requirement :
    Host → ExactCoverageRequirement → Outcome ExactCoverageRequirement
check_requirement host r = do
  raise_if (is_blank host r.key) (value_error "coverage requirement key is required")
  raise_if (is_blank host r.subject) (value_error "coverage requirement subject is required")
  raise_if (is_blank host r.predicate) (value_error "coverage requirement predicate is required")
  raise_if (is_blank host r.role) (value_error "coverage requirement role is required")
  ok r

pub record ContextRequest : Type 0 where
  pub id : ℕ
  pub query : String
  pub token_budget : ℤ
  pub latency_budget_ms : Option ℤ
  pub goal_ref : Option ℕ
  pub task_ref : Option ℕ
  pub coverage_requirements : List String
  pub exact_requirements : List ExactCoverageRequirement
  pub known_at : Option DateTime
  pub valid_at : Option DateTime

-- What callers pass in the slot of `exact_requirements`: requirements, or, from callers of the
-- layout before them, the `known_at` of that layout.
pub data ExactArgument : Type 0 where
  exact : List ExactCoverageRequirement → ExactArgument
  legacy : Option DateTime → ExactArgument

abbrev pub not_positive : ℤ → Bool
not_positive n = leb_ℤ n (pos 0)

abbrev pub not_positive_if : Option ℤ → Bool
not_positive_if none = false
not_positive_if (some n) = not_positive n

-- `valid_at if valid_at is not None else known_at`
abbrev pub first_some {ℓ} : {A : Type ℓ} → Option A → Option A → Option A
first_some none b = b
first_some (some a) b = some a

-- `ContextRequest.__post_init__` on the arguments as given, `r.exact_requirements` apart.
unfoldable pub shift_legacy : ExactArgument → ContextRequest → Outcome ContextRequest
shift_legacy (exact requirements) r = ok (record r { exact_requirements = requirements })
shift_legacy (legacy raw) r = do
  raise_if (is_some r.known_at && is_some r.valid_at)
      (type_error "ambiguous ContextRequest temporal arguments; use keywords")
  ok (record r {
    exact_requirements = [];
    known_at = raw;
    valid_at = first_some r.valid_at r.known_at;
  })

unfoldable pub check_request : ContextRequest → Outcome ContextRequest
check_request r = do
  raise_if (not_positive r.token_budget) (value_error "token_budget must be positive")
  raise_if (not_positive_if r.latency_budget_ms)
      (value_error "latency_budget_ms must be positive when provided")
  raise_if (duplicated (map (λ (q : ExactCoverageRequirement). q.key) r.exact_requirements))
      (value_error "exact coverage requirement keys must be unique")
  require_aware_if r.known_at
  require_aware_if r.valid_at
  ok r

unfoldable pub new_request : ExactArgument → ContextRequest → Outcome ContextRequest
unfolding shift_legacy check_request
new_request argument r = do shifted ← shift_legacy argument r; check_request shifted

pub record ContextItem : Type 0 where
  pub ref_type : String
  pub ref_id : ℕ
  pub role : String
  pub provenance_refs : List ℕ

-- `canonical_frontier` is the number that the source writes as decimal text.
pub record ContextProjection : Type 0 where
  pub id : ℕ
  pub request_id : ℕ
  pub snapshot_id : String
  pub canonical_frontier : ℕ
  pub items : List ContextItem
  pub coverage_status : CoverageStatus
  pub manifest_digest : String
  pub compiler_version : String
  pub conflict_refs : List ℕ
  pub unresolved_gaps : List String
  pub omitted_refs : List ℕ

unfoldable pub check_projection : ContextProjection → Outcome ContextProjection
check_projection p = do
  raise_if (p.snapshot_id == "") (value_error "snapshot_id is required")
  raise_if (p.manifest_digest == "") (value_error "manifest_digest is required")
  raise_if (p.compiler_version == "") (value_error "compiler_version is required")
  ok p
