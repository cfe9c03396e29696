-- ===== src/Store/Reasoning.antt =====
-- src/sarmady/storage/sqlite/reasoning_store.py: reasoning policies, registered once and verified
-- by their fingerprint at every reading. A row keeps the policy's columns as values.
pub mod Rows
pub mod Registration
use sarmady.Prelude.{
  ℕ, String, Bool, true, false, not, Option, none, some, List, [], ◌∷◌, ◌++◌, map, ◌==◌, ◌&&◌, ◌||◌,
  is_some, find, any_of, nat_eq, string_eq, option_eq, pair_eq, list_eq, if◌then◌else◌,
}
use sarmady.Outcome.{Outcome, ok, err, value_error, runtime_error, raise_if, ◌>>=◌, ◌>>◌}
use sarmady.Time.{DateTime, is_aware}
use sarmady.Host.{Host}
use sarmady.Cognition.{ReasoningMode, direct, compact, full, ReasoningRequirement, ReasoningPolicy}
use sarmady.Cognition.Reasoning.{check_reasoning_requirement, check_policy, fingerprint}
use sarmady.Store.{Db, PolicyRow}
use sarmady.Store.{policy_by_id}

abbrev pub lower_if : Host → Option String → Option String
lower_if host none = none
lower_if host (some digest) = some (host.lower digest)

-- `_canonical_policy_for_registration`
unfoldable pub canonical_policy : Host → ReasoningPolicy → Outcome ReasoningPolicy
canonical_policy host p =
    check_policy host (record p { source_sha256 = lower_if host p.source_sha256 })

abbrev pub mode_code : ReasoningMode → ℕ
mode_code direct = 0
mode_code compact = 1
mode_code full = 2

abbrev pub requirement_pair : ReasoningRequirement → String × String
requirement_pair r = (r.key, r.description)

-- The fields but the digest.
abbrev pub same_terms : ReasoningPolicy → ReasoningPolicy → Bool
same_terms p q =
    p.id == q.id
    && p.version == q.version
    && mode_code p.mode == mode_code q.mode
    && p.stages == q.stages
    && map requirement_pair p.requirements == map requirement_pair q.requirements
    && p.source_ref == q.source_ref

-- `==` of the data class
abbrev pub same_policy : ReasoningPolicy → ReasoningPolicy → Bool
same_policy p q = same_terms p q && p.source_sha256 == q.source_sha256

-- `_equivalent_modulo_digest_case`
unfoldable pub equivalent_modulo_digest_case : Host → ReasoningPolicy → ReasoningPolicy → Bool
equivalent_modulo_digest_case host p q =
    same_terms p q && lower_if host p.source_sha256 == lower_if host q.source_sha256

abbrev pub is_noncanonical : Host → Option String → Bool
is_noncanonical host none = false
is_noncanonical host (some digest) = not (digest == host.lower digest)

unfoldable pub check_requirements :
    Host → List ReasoningRequirement → Outcome (List ReasoningRequirement)
check_requirements host [] = ok []
check_requirements host (r ∷ rs) = do
  r' ← check_reasoning_requirement host r
  rs' ← check_requirements host rs
  ok (r' ∷ rs')

-- `_reasoning_policy_from_row`: a digest of another case is lowered for the constructor's check,
-- and stands again in what is returned.
unfoldable pub policy_from_row : Host → PolicyRow → Outcome ReasoningPolicy
policy_from_row host row = do
  requirements ← check_requirements host row.policy.requirements
  let digest = row.policy.source_sha256
  let given = if is_noncanonical host digest then lower_if host digest else digest
  built ←
      check_policy host (record row.policy { requirements = requirements; source_sha256 = given })
  let policy = record built { source_sha256 = digest }
  raise_if (not (fingerprint host policy == row.fingerprint))
      (runtime_error "persisted reasoning policy failed fingerprint verification")
  ok policy

unfoldable pub insert_policy :
    Host → ReasoningPolicy → DateTime → Db → Outcome (Db × ReasoningPolicy)
insert_policy host p registered_at db = do
  raise_if (any_of (λ (r : PolicyRow). r.fingerprint == fingerprint host p) db.reasoning_policies)
      (value_error "reasoning policy fingerprint is already registered")
  ok (
    record db {
      reasoning_policies =
          db.reasoning_policies
          ++ record { policy = p; fingerprint = fingerprint host p; registered_at = registered_at }
            ∷ [];
    },
    p,
  )

-- An identifier that is registered already: the stored policy, if it is the one given.
unfoldable pub reuse_policy :
    Host → ReasoningPolicy → PolicyRow → Db → Outcome (Db × ReasoningPolicy)
reuse_policy host p row db = do
  existing ← policy_from_row host row
  raise_if
      (not (same_policy existing p && row.fingerprint == fingerprint host p)
        && not (equivalent_modulo_digest_case host existing p))
      (value_error "reasoning policy id is already bound to different semantics")
  ok (db, existing)

unfoldable pub register_canonical :
    Host → ReasoningPolicy → DateTime → Option PolicyRow → Db → Outcome (Db × ReasoningPolicy)
register_canonical host p registered_at none db = insert_policy host p registered_at db
register_canonical host p registered_at (some row) db = reuse_policy host p row db

unfoldable pub register_reasoning_policy :
    Host → ReasoningPolicy → DateTime → Db → Outcome (Db × ReasoningPolicy)
register_reasoning_policy host policy registered_at db = do
  raise_if (not (is_aware registered_at)) (value_error "registered_at must be timezone-aware")
  p ← canonical_policy host policy
  register_canonical host p registered_at (policy_by_id db.reasoning_policies p.id) db

abbrev pub read_row : Host → Option PolicyRow → Outcome (Option ReasoningPolicy)
read_row host none = ok none
read_row host (some row) = do p ← policy_from_row host row; ok (some p)

unfoldable pub reasoning_policy : Host → Db → String → Outcome (Option ReasoningPolicy)
reasoning_policy host db id = read_row host (policy_by_id db.reasoning_policies id)

abbrev pub fingerprint_of_row : Option PolicyRow → Option String
fingerprint_of_row none = none
fingerprint_of_row (some row) = some row.fingerprint

unfoldable pub reasoning_policy_fingerprint : Db → String → Option String
reasoning_policy_fingerprint db id = fingerprint_of_row (policy_by_id db.reasoning_policies id)
