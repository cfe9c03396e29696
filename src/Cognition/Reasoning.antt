-- ===== src/Cognition/Reasoning.antt =====
-- `ReasoningRequirement` and `ReasoningPolicy` of src/sarmady/cognition/reasoning.py: their checks
-- and the fingerprint of a policy.
use Prim.Native.Char.{code}
use Prim.Native.String.{◌++◌ as append}
use sarmady.Prelude.{
  ℕ, String, leb, Bool, not, Option, none, some, List, [], ◌∷◌, map, ◌==◌, ◌&&◌, ◌||◌, any_of,
  length, nat_eq, string_eq,
}
use sarmady.Outcome.{Outcome, ok, value_error, raise_if, ◌>>◌}
use sarmady.Host.{Host}
use sarmady.Values.{Value, null, str, mapping, list, Items, nil, cons, end, field, text}
use sarmady.Context.{is_blank, duplicated}
use sarmady.Cognition.{ReasoningMode, direct, compact, full, ReasoningRequirement, ReasoningPolicy}

-- The code points of a text.
abbrev pub codes : String → List ℕ
codes String.[] = []
codes (String.◌∷◌ c s) = code c ∷ codes s

-- `ch in "0123456789abcdef"`
abbrev pub is_hex : ℕ → Bool
is_hex c = (leb b'0' c && leb c b'9') || (leb b'a' c && leb c b'f')

abbrev pub is_not_hex : ℕ → Bool
is_not_hex c = not (is_hex c)

unfoldable pub check_reasoning_requirement :
    Host → ReasoningRequirement → Outcome ReasoningRequirement
check_reasoning_requirement host r = do
  raise_if (is_blank host r.key) (value_error "reasoning requirement key is required")
  raise_if (is_blank host r.description)
      (value_error "reasoning requirement description is required")
  ok r

unfoldable pub check_digest : Host → Option String → Outcome (Unit {0})
check_digest host none = ok tt
check_digest host (some digest) = do
  raise_if (not (digest == host.lower digest))
      (value_error "source_sha256 must be a lowercase SHA-256 hex digest")
  raise_if (not (length (codes digest) == 64) || any_of is_not_hex (codes digest))
      (value_error "source_sha256 must be a lowercase SHA-256 hex digest")

abbrev pub stage_key : Host → String → String
stage_key host stage = host.upper (host.strip stage)

-- `ReasoningPolicy.__post_init__`
unfoldable pub check_policy : Host → ReasoningPolicy → Outcome ReasoningPolicy
check_policy host p = do
  raise_if (is_blank host p.id) (value_error "reasoning policy id is required")
  raise_if (is_blank host p.version) (value_error "reasoning policy version is required")
  raise_if (is_blank host p.source_ref) (value_error "reasoning policy source_ref is required")
  raise_if (any_of (is_blank host) p.stages) (value_error "reasoning policy stages cannot be empty")
  raise_if (duplicated (map (stage_key host) p.stages))
      (value_error "reasoning policy stages must be unique")
  raise_if (duplicated (map (λ (r : ReasoningRequirement). r.key) p.requirements))
      (value_error "reasoning requirement keys must be unique")
  check_digest host p.source_sha256
  ok p

abbrev pub mode_text : ReasoningMode → String
mode_text direct = "DIRECT"
mode_text compact = "COMPACT"
mode_text full = "FULL"

abbrev pub stage_values : List String → Items
stage_values [] = nil
stage_values (s ∷ ss) = cons (str s) (stage_values ss)

abbrev pub requirement_items : List ReasoningRequirement → Items
requirement_items [] = nil
requirement_items (r ∷ rs) =
    cons
      (mapping
        (field (text "key") (str r.key) (field (text "description") (str r.description) end)))
      (requirement_items rs)

abbrev pub digest_value : Option String → Value
digest_value none = null
digest_value (some digest) = str digest

abbrev pub policy_payload : ReasoningPolicy → Value
policy_payload p = mapping (
    field (text "id") (str p.id) (
      field (text "version") (str p.version) (
        field (text "mode") (str (mode_text p.mode)) (
          field (text "stages") (list (stage_values p.stages)) (
            field (text "requirements") (list (requirement_items p.requirements)) (
              field (text "source_ref") (str p.source_ref)
                (field (text "source_sha256") (digest_value p.source_sha256) end)))))))

-- the property `fingerprint`
unfoldable pub fingerprint : Host → ReasoningPolicy → String
fingerprint host p = append "sha256:" (host.sha256 (host.json_compact (policy_payload p)))
