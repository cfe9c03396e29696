-- ===== src/Retrieval/Generated.antt =====
-- What a set that `generate` of src/sarmady/context/candidates.py returns is bound to.
use Prim.Native.String.{◌++◌ as append}
use mathlib.Core.Path.{subst}
use sarmady.Prelude.{
  ℕ, zero, suc, ◌≤◌, leb, String, ◌≡◌, refl, sym, ap, ◌∙◌, true, false, List, [], ◌∷◌, map, length,
  take, arith, string_eq, pair_eq,
}
use sarmady.Outcome.{ok, >>=-eq-ok, raise_if-eq-ok, ok-inj}
use sarmady.Host.{Host}
use sarmady.Context.{ContextRequest, duplicated}
use sarmady.Context.Fingerprint.{context_request_fingerprint}
use sarmady.Context.Plan.{
  ContextCandidate, CandidateSet, candidate_key, check_candidate_set, no_elements,
}
use sarmady.Context.Planning.{lexical_tokens, lexical_version}
use sarmady.Store.{Db, frontier}
use sarmady.Store.Capture.{Capture, open_capture, semantic_keys}
use sarmady.Retrieval.{sort_texts, all_candidates, insert_candidate, sort_candidates, generate}

length-insert_candidate :
    (host : Host) (a : ContextCandidate) (bs : List ContextCandidate)
    → length (insert_candidate host a bs) ≡ suc (length bs)
length-insert_candidate host a [] = refl
length-insert_candidate host a (b ∷ bs) = ground (arith, length-insert_candidate host a bs)

length-sort_candidates :
    (host : Host) (bs : List ContextCandidate) → length (sort_candidates host bs) ≡ length bs
unfolding sort_candidates
length-sort_candidates host [] = refl
length-sort_candidates host (b ∷ bs) =
    length-insert_candidate host b (sort_candidates host bs)
    ∙ ap suc (length-sort_candidates host bs)

length-take : {A : Type 0} (n : ℕ) (xs : List A) → length (take n xs) ≤ n
length-take zero xs = omega arith
length-take (suc n) [] = omega arith
length-take (suc n) (x ∷ xs) = omega (arith, length-take n xs)

take-all : {A : Type 0} (n : ℕ) (xs : List A) → length xs ≤ n → take n xs ≡ xs
take-all zero [] h = refl
take-all zero (x ∷ xs) h = let absurd : ⊥ = omega (arith, h) in elim absurd [ ]
take-all (suc n) [] h = refl
take-all (suc n) (x ∷ xs) h = ap (◌∷◌ x) (take-all n xs (omega (arith, h)))

check_candidate_set-eq-ok :
    (host : Host) (s : CandidateSet) {t : CandidateSet}
    → check_candidate_set host s ≡ ok t
    → (duplicated (map candidate_key s.candidates) ≡ false) × (ok s ≡ ok t)
unfolding check_candidate_set
check_candidate_set-eq-ok host s h = ground arith

-- The set that `generate` hands to the constructor.
abbrev pub generated :
    Host → ContextRequest → ℕ → Db → String → List ContextCandidate → CandidateSet
generated host r limit db fingerprint found = record {
  request_id = r.id;
  snapshot_id = append "sqlite:" (host.int_text (frontier db));
  canonical_frontier = host.int_text (frontier db);
  candidates = take limit (sort_candidates host found);
  generator_version = lexical_version;
  request_fingerprint = fingerprint;
  is_exhaustive = leb (length found) limit;
}

all_taken :
    (host : Host) (limit : ℕ) (found : List ContextCandidate)
    → leb (length found) limit ≡ true
    → take limit (sort_candidates host found) ≡ sort_candidates host found
all_taken host limit found h =
    take-all limit (sort_candidates host found)
      (ground (arith, h, length-sort_candidates host found))

-- A candidate set that `generate` returns has the request's identifier and fingerprint and the
-- generator's version; it has at most `limit` candidates, no two for one key, the first ones of
-- the sorted list of what the snapshot's keys gave, and it is all of that list where it says that
-- it is exhaustive.
pub generate_lem :
    (host : Host) (ordered : List (String × String) → List (String × String)) (r : ContextRequest)
    (limit : ℕ) (db : Db) (s : CandidateSet)
    → generate host ordered r limit db ≡ ok s
    → (context_request_fingerprint host r ≡ ok s.request_fingerprint)
      × (s.request_id ≡ r.id)
      × (s.generator_version ≡ lexical_version)
      × (length s.candidates ≤ limit)
      × (duplicated (map candidate_key s.candidates) ≡ false)
      × (keys : Capture × List (String × String)) × (semantic_keys ordered db (open_capture db)
          ≡ ok keys)
      × (found : Capture × List ContextCandidate) × (all_candidates host r
            (sort_texts host (lexical_tokens host r.query))
            db
            keys.1
            keys.0
          ≡ ok found)
      × (s.candidates ≡ take limit (sort_candidates host found.1))
      × (s.is_exhaustive ≡ true → s.candidates ≡ sort_candidates host found.1)
unfolding generate
generate_lem host ordered r limit db s h =
    let (_, h1) = raise_if-eq-ok (leb limit 0) _ _ h in
    let (fingerprint, bound, h2) = >>=-eq-ok (context_request_fingerprint host r) _ h1 in
    let terms = sort_texts host (lexical_tokens host r.query) in
    let (_, h3) = raise_if-eq-ok (no_elements terms) _ _ h2 in
    let (keys, opened, h4) = >>=-eq-ok (semantic_keys ordered db (open_capture db)) _ h3 in
    let (found, scanned, h5) = >>=-eq-ok (all_candidates host r terms db keys.1 keys.0) _ h4 in
    let (single, made) =
      check_candidate_set-eq-ok host (generated host r limit db fingerprint found.1) h5 in
    let same = ok-inj made in
    (
      bound ∙ ap (λ (q : CandidateSet). ok q.request_fingerprint) same,
      sym (ap (λ (q : CandidateSet). q.request_id) same),
      sym (ap (λ (q : CandidateSet). q.generator_version) same),
      subst (λ (q : CandidateSet). length q.candidates ≤ limit) same
          (length-take limit (sort_candidates host found.1)),
      ap (λ (q : CandidateSet). duplicated (map candidate_key q.candidates)) (sym same) ∙ single,
      keys,
      opened,
      found,
      scanned,
      sym (ap (λ (q : CandidateSet). q.candidates) same),
      λ exhaustive.
          sym (ap (λ (q : CandidateSet). q.candidates) same)
          ∙ all_taken host limit found.1
              (ap (λ (q : CandidateSet). q.is_exhaustive) same ∙ exhaustive),
    )
