-- ===== src/Retrieval.antt =====
-- src/sarmady/context/candidates.py: `LexicalCandidateGenerator`, and `semantic_tokens` of
-- src/sarmady/context/_lexical.py. The program reads through a capture of the pinned snapshot.
pub mod Generated
use Prim.Native.String.{◌++◌ as append}
use sarmady.Prelude.{
  ℕ, zero, suc, ◌+◌, ◌*◌, leb, ltb, String, Bool, true, false, not, Option, none, some, List, [],
  ◌∷◌, ◌++◌, map, ◌==◌, ◌&&◌, ◌||◌, elem, length, take, select, string_eq, nat_eq, if◌then◌else◌,
}
use sarmady.Outcome.{Outcome, ok, err, value_error, type_error, raise_if, ◌>>=◌, ◌>>◌}
use sarmady.Host.{Host}
use sarmady.Values.{
  Value, null, str, int, bool, float, mapping, list, tuple, other, Items, nil, cons, Fields, end,
  field, text, not_text,
}
use sarmady.Epistemic.{Claim, ResolvedState, ResolutionStatus, missing}
use sarmady.Context.{ContextRequest}
use sarmady.Context.Fingerprint.{context_request_fingerprint}
use sarmady.Context.Plan.{
  ContextCandidate, CandidateSet, check_candidate, check_candidate_set, no_elements,
}
use sarmady.Context.Planning.{distinct, meet, lexical_tokens, lexical_version}
use sarmady.Store.{Db, frontier}
use sarmady.Store.Capture.{
  Capture, open_capture, semantic_keys, captured_state, captured_claim, captured_is_active,
}

abbrev pub union : List String → List String → List String
union xs ys = distinct (xs ++ ys)

unfoldable mutual
  pub semantic_tokens : Host → Value → Outcome (List String)
  semantic_tokens host null = ok []
  semantic_tokens host (str s) = ok (lexical_tokens host s)
  semantic_tokens host (bool b) = ok ((if b then "true" else "false") ∷ [])
  semantic_tokens host (int n) = ok (lexical_tokens host (host.number_text (int n)))
  semantic_tokens host (float finite n) =
      ok (lexical_tokens host (host.number_text (float finite n)))
  semantic_tokens host (mapping fs) = field_tokens host fs
  semantic_tokens host (tuple xs) = item_tokens host xs
  semantic_tokens host (list xs) =
      err (type_error "lexical normalization received non-canonical semantic value")
  semantic_tokens host (other n) =
      err (type_error "lexical normalization received non-canonical semantic value")

  pub item_tokens : Host → Items → Outcome (List String)
  item_tokens host nil = ok []
  item_tokens host (cons x xs) = do
    found ← semantic_tokens host x
    rest ← item_tokens host xs
    ok (union found rest)

  pub field_tokens : Host → Fields → Outcome (List String)
  field_tokens host end = ok []
  field_tokens host (field (not_text n) v fs) =
      err (type_error "lexical normalization received non-canonical semantic value")
  field_tokens host (field (text k) v fs) = do
    found ← semantic_tokens host v
    rest ← field_tokens host fs
    ok (union (union (lexical_tokens host k) found) rest)

-- the tokens of the values of the competing claims whose memory is active
unfoldable pub competing_tokens : Host → Db → List ℕ → Capture → Outcome (Capture × List String)
unfolding captured_claim captured_is_active
competing_tokens host db [] c = ok (c, [])
competing_tokens host db (id ∷ ids) c = do
  read ← captured_claim id db c
  found ← value_tokens_if host db read.1 read.0
  rest ← competing_tokens host db ids found.0
  ok (rest.0, union found.1 rest.1)
  where
    value_tokens_if : Host → Db → Option Claim → Capture → Outcome (Capture × List String)
    value_tokens_if host db none c = ok (c, [])
    value_tokens_if host db (some v) c = do
      active ← captured_is_active host.uuid_text "Claim" v.id db c
      if active.1
          then (do tokens ← semantic_tokens host v.value; ok (active.0, tokens))
          else ok (active.0, [])

-- a candidate for a key, from the terms of the query that match
abbrev pub scored :
    Host
    → List String
    → String
    → String
    → ℕ
    → List String
    → List ContextCandidate
    → Outcome (List ContextCandidate)
scored host terms subject predicate operative value_terms rest =
    let by_subject = meet terms (lexical_tokens host subject) in
    let by_predicate = meet terms (lexical_tokens host predicate) in
    let by_value = meet terms value_terms in
    let matched = select (λ t. elem t by_subject || elem t by_predicate || elem t by_value) terms in
    if no_elements matched then ok rest else (do
      candidate ← check_candidate host (record {
        subject = subject;
        predicate = predicate;
        operative_claim_id = operative;
        rank_score = 5 * length by_predicate + 3 * length by_subject + length by_value;
        signals = map (append "term:") matched;
      })
      ok (candidate ∷ rest))

abbrev pub is_missing : ResolutionStatus → Bool
is_missing missing = true
is_missing _ = false

-- The candidates that one key adds, with the capture after its reads.
unfoldable pub key_candidates :
    Host
    → ContextRequest
    → List String
    → Db
    → String × String
    → Capture
    → Outcome (Capture × List ContextCandidate)
unfolding captured_state captured_claim captured_is_active competing_tokens semantic_tokens
key_candidates host r terms db (subject, predicate) c = do
  read ← captured_state subject predicate r.known_at r.valid_at db c
  if is_missing read.1.status
      then ok (read.0, [])
      else operative_candidates host terms db subject predicate read.1.competing_claim_ids
          read.1.operative_claim_id read.0
  where
    active_candidates :
        Host
        → List String
        → Db
        → String
        → String
        → List ℕ
        → Claim
        → Capture × Bool
        → Outcome (Capture × List ContextCandidate)
    active_candidates host terms db subject predicate competing v (c, false) = ok (c, [])
    active_candidates host terms db subject predicate competing v (c, true) = do
      tokens ← semantic_tokens host v.value
      others ← competing_tokens host db competing c
      found ← scored host terms subject predicate v.id (union tokens others.1) []
      ok (others.0, found)

    claim_candidates :
        Host
        → List String
        → Db
        → String
        → String
        → List ℕ
        → Capture × Option Claim
        → Outcome (Capture × List ContextCandidate)
    claim_candidates host terms db subject predicate competing (c, none) = ok (c, [])
    claim_candidates host terms db subject predicate competing (c, some v) = do
      active ← captured_is_active host.uuid_text "Claim" v.id db c
      active_candidates host terms db subject predicate competing v active

    operative_candidates :
        Host
        → List String
        → Db
        → String
        → String
        → List ℕ
        → Option ℕ
        → Capture
        → Outcome (Capture × List ContextCandidate)
    operative_candidates host terms db subject predicate competing none c = ok (c, [])
    operative_candidates host terms db subject predicate competing (some id) c = do
      read ← captured_claim id db c
      claim_candidates host terms db subject predicate competing read

unfoldable pub all_candidates :
    Host
    → ContextRequest
    → List String
    → Db
    → List (String × String)
    → Capture
    → Outcome (Capture × List ContextCandidate)
unfolding key_candidates
all_candidates host r terms db [] c = ok (c, [])
all_candidates host r terms db (key ∷ keys) c = do
  found ← key_candidates host r terms db key c
  rest ← all_candidates host r terms db keys found.0
  ok (rest.0, found.1 ++ rest.1)

abbrev pub insert_text : Host → String → List String → List String
insert_text host t [] = t ∷ []
insert_text host t (u ∷ us) =
    let rest = insert_text host t us in if host.text_leb t u then t ∷ u ∷ us else u ∷ rest

-- `sorted`
unfoldable pub sort_texts : Host → List String → List String
sort_texts host [] = []
sort_texts host (t ∷ ts) = insert_text host t (sort_texts host ts)

-- The order of the key (-rank, subject, predicate, identifier): `a` stands before `b` or ties.
abbrev pub stands_before : Host → ContextCandidate → ContextCandidate → Bool
stands_before host a b =
    if ltb b.rank_score a.rank_score
    then true
    else if ltb a.rank_score b.rank_score
    then false
    else if not (a.subject == b.subject)
    then host.text_leb a.subject b.subject
    else if not (a.predicate == b.predicate)
    then host.text_leb a.predicate b.predicate
    else host.text_leb (host.uuid_text a.operative_claim_id) (host.uuid_text b.operative_claim_id)

-- `list.sort` by insertion, which is stable as the source's is
abbrev pub insert_candidate :
    Host → ContextCandidate → List ContextCandidate → List ContextCandidate
insert_candidate host a [] = a ∷ []
insert_candidate host a (b ∷ bs) =
    let rest = insert_candidate host a bs in if stands_before host a b then a ∷ b ∷ bs else b ∷ rest

unfoldable pub sort_candidates : Host → List ContextCandidate → List ContextCandidate
sort_candidates host [] = []
sort_candidates host (a ∷ rest) = insert_candidate host a (sort_candidates host rest)

-- `generate`; `ordered` is the order of `ORDER BY` on the keys.
unfoldable pub generate :
    Host
    → (List (String × String) → List (String × String))
    → ContextRequest
    → ℕ
    → Db
    → Outcome CandidateSet
generate host ordered r limit db = do
  raise_if (leb limit 0) (value_error "candidate limit must be a positive integer")
  fingerprint ← context_request_fingerprint host r
  let terms = sort_texts host (lexical_tokens host r.query)
  raise_if (no_elements terms) (value_error "context request query must contain a lexical term")
  keys ← semantic_keys ordered db (open_capture db)
  found ← all_candidates host r terms db keys.1 keys.0
  let at = host.int_text (frontier db)
  check_candidate_set host (record {
    request_id = r.id;
    snapshot_id = append "sqlite:" at;
    canonical_frontier = at;
    candidates = take limit (sort_candidates host found.1);
    generator_version = lexical_version;
    request_fingerprint = fingerprint;
    is_exhaustive = leb (length found.1) limit;
  })
