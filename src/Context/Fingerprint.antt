-- ===== src/Context/Fingerprint.antt =====
-- `context_request_fingerprint` of src/sarmady/context/models.py.
use Prim.Native.String.{◌++◌ as append}
use sarmady.Prelude.{ℕ, ℤ, String, Option, none, some, List, [], ◌∷◌, not}
use sarmady.Outcome.{Outcome, ok, value_error, raise_if, ◌>>=◌, ◌>>◌}
use sarmady.Time.{DateTime, is_aware}
use sarmady.Host.{Host}
use sarmady.Values.{Value, null, str, int, mapping, list, Items, nil, cons, end, field, text}
use sarmady.Context.{ContextRequest, ExactCoverageRequirement}

-- `_fingerprint_time`
unfoldable pub fingerprint_time : Host → Option DateTime → Outcome Value
fingerprint_time host none = ok null
fingerprint_time host (some t) = do
  raise_if (not (is_aware t)) (value_error "must be timezone-aware")
  ok (str (host.utc_isoformat t))

abbrev pub id_value : Host → Option ℕ → Value
id_value host none = null
id_value host (some id) = str (host.uuid_text id)

abbrev pub int_value : Option ℤ → Value
int_value none = null
int_value (some n) = int n

abbrev pub requirement_value : ExactCoverageRequirement → Value
requirement_value q = mapping (
    field (text "key") (str q.key) (
      field (text "subject") (str q.subject)
        (field (text "predicate") (str q.predicate) (field (text "role") (str q.role) end))))

abbrev pub requirement_values : List ExactCoverageRequirement → Items
requirement_values [] = nil
requirement_values (q ∷ qs) = cons (requirement_value q) (requirement_values qs)

abbrev pub label_values : List String → Items
label_values [] = nil
label_values (s ∷ ss) = cons (str s) (label_values ss)

abbrev pub fingerprint_payload : Host → ContextRequest → Value → Value → Value
fingerprint_payload host r known valid = mapping (
    field (text "contract") (str "ContextRequest:v1") (
      field (text "id") (str (host.uuid_text r.id)) (
        field (text "query") (str r.query) (
          field (text "token_budget") (int r.token_budget) (
            field (text "latency_budget_ms") (int_value r.latency_budget_ms) (
              field (text "goal_ref") (id_value host r.goal_ref) (
                field (text "task_ref") (id_value host r.task_ref) (
                  field (text "coverage_requirements") (list (label_values r.coverage_requirements))
                    (field (text "exact_requirements")
                      (list (requirement_values r.exact_requirements))
                      (field (text "known_at") known (field (text "valid_at") valid end)))))))))))

unfoldable pub context_request_fingerprint : Host → ContextRequest → Outcome String
context_request_fingerprint host r = do
  known ← fingerprint_time host r.known_at
  valid ← fingerprint_time host r.valid_at
  ok (append "sha256:" (host.sha256 (host.json_compact (fingerprint_payload host r known valid))))
