-- ===== src/Cognition/ContextNeed.antt =====
-- `serialize_context_need_proposal` and `deserialize_context_need_proposal` of
-- src/sarmady/cognition/models.py: the durable payload of a context-need artifact.
use sarmady.Prelude.{
  String, ◌≡◌, refl, sym, ap, ◌∙◌, Bool, true, false, not, Option, none, some, List, [], ◌∷◌, ◌==◌,
  ◌&&◌, elem, string_eq, arith, if◌then◌else◌,
}
use sarmady.Outcome.{
  Outcome, ok, err, value_error, type_error, raise_if, or_raise, ◌>>=◌, ◌>>◌, >>=-eq-ok,
}
use sarmady.Values.{text, not_text, Value, str, mapping, list, Items, nil, cons, Fields, end, field}
use sarmady.Host.{Host}
use sarmady.Cognition.{ContextNeedProposal, check_proposal}

-- `_CONTEXT_NEED_CONTRACT`
abbrev pub contract : String
contract = "ContextNeedProposal:v1"

abbrev pub str_items : List String → Items
str_items [] = nil
str_items (s ∷ ss) = cons (str s) (str_items ss)

-- The payload, its keys in the order in which `sort_keys=True` writes them.
abbrev pub payload : ContextNeedProposal → Value
payload p = mapping (
    field (text "contract") (str contract) (
      field (text "coverage_requirements") (list (str_items p.coverage_requirements))
        (field (text "query") (str p.query) (field (text "reason") (str p.reason) end))))

unfoldable pub serialize : Host → ContextNeedProposal → Outcome String
serialize host p = do snapshot ← check_proposal host p; ok (host.json_dumps (payload snapshot))

-- `payload[key]`
abbrev pub get : String → Fields → Option Value
get k end = none
get k (field (text j) v fs) = if j == k then some v else get k fs
get k (field (not_text n) v fs) = get k fs

abbrev pub keys : Fields → List String
keys end = []
keys (field (text j) v fs) = j ∷ keys fs
keys (field (not_text n) v fs) = keys fs

abbrev pub expected : List String
expected = "contract" ∷ "query" ∷ "reason" ∷ "coverage_requirements" ∷ []

abbrev pub within : List String → List String → Bool
within [] ys = true
within (x ∷ xs) ys = elem x ys && within xs ys

abbrev pub as_fields : Value → Outcome Fields
as_fields (mapping fs) = ok fs
as_fields _ = err (value_error "context need artifact payload must be an object")

abbrev pub is_contract : Option Value → Bool
is_contract (some (str s)) = s == contract
is_contract _ = false

abbrev pub as_items : Option Value → Outcome Items
as_items (some (list xs)) = ok xs
as_items _ = err (type_error "context need coverage_requirements must be a JSON array")

-- The constructor's tests of the types of the fields.
abbrev pub as_text : Option Value → String → Outcome String
as_text (some (str s)) message = ok s
as_text _ message = err (value_error message)

abbrev pub as_texts : Items → Outcome (List String)
as_texts nil = ok []
as_texts (cons (str s) xs) = do rest ← as_texts xs; ok (s ∷ rest)
as_texts (cons _ xs) =
    err (type_error "context need coverage_requirements must contain non-empty strings")

-- JSON objects have text keys, each once (the last of equal keys is kept by `json.loads`).
unfoldable pub read_payload : Host → Value → Outcome ContextNeedProposal
read_payload host value = do
  fs ← as_fields value
  raise_if (not (within (keys fs) expected && within expected (keys fs)))
      (value_error "context need artifact payload has unexpected fields")
  raise_if (not (is_contract (get "contract" fs)))
      (value_error "unsupported context need artifact contract")
  items ← as_items (get "coverage_requirements" fs)
  query ← as_text (get "query" fs) "context need query is required"
  reason ← as_text (get "reason" fs) "context need reason is required"
  labels ← as_texts items
  check_proposal host (record { query = query; reason = reason; coverage_requirements = labels })

unfoldable pub deserialize : Host → String → Outcome ContextNeedProposal
deserialize host content = do
  value ←
      or_raise (host.json_loads content)
        (value_error "context need artifact content is not valid JSON")
  read_payload host value

as_texts-str_items : (ss : List String) → as_texts (str_items ss) ≡ ok ss
as_texts-str_items [] = refl
as_texts-str_items (s ∷ ss) = rw (as_texts-str_items ss)

-- A checked proposal is returned as it is, and passes the check again.
check_proposal-eq-ok :
    (host : Host) (p : ContextNeedProposal) {q : ContextNeedProposal}
    → check_proposal host p ≡ ok q
    → q ≡ p
unfolding check_proposal
check_proposal-eq-ok host p h = ground arith

read_payload_lem :
    (host : Host) (p : ContextNeedProposal) → read_payload host (payload p) ≡ check_proposal host p
unfolding read_payload
read_payload_lem host p = rw (as_texts-str_items p.coverage_requirements)

deserialize-json_dumps :
    (host : Host) (p : ContextNeedProposal)
    → host.json_loads (host.json_dumps (payload p)) ≡ some (payload p)
    → deserialize host (host.json_dumps (payload p)) ≡ check_proposal host p
unfolding deserialize
deserialize-json_dumps host p law = rw law (read_payload_lem host p)

read_written :
    (host : Host) (content : String) (p : ContextNeedProposal) {written : String}
    → ok content ≡ ok written
    → deserialize host written ≡ ok p
    → deserialize host content ≡ ok p
read_written host content p h = cc

-- Reading back a serialized proposal gives the proposal, where `json.loads` reads back the payload
-- that `json.dumps` wrote: what the serializer accepts is rehydrated exactly.
pub deserialize-serialize :
    (host : Host) (p : ContextNeedProposal) (content : String)
    → host.json_loads (host.json_dumps (payload p)) ≡ some (payload p)
    → serialize host p ≡ ok content
    → deserialize host content ≡ ok p
unfolding serialize
deserialize-serialize host p content law h =
    let (q, checked, written) = >>=-eq-ok (check_proposal host p) _ h in
    let same = check_proposal-eq-ok host p checked in
    let is_payload : ok content ≡ ok (host.json_dumps (payload p)) =
      sym written ∙ ap (λ q. ok (host.json_dumps (payload q))) same in
    read_written host content p is_payload
      (deserialize-json_dumps host p law ∙ checked ∙ ap ok same)
