-- ===== src/Store/ClaimHeads.antt =====
-- The materialised heads: the table `claim_heads`, and `rebuild_claim_heads` of
-- src/sarmady/storage/sqlite/resolution.py.
pub mod Table
pub mod Agreement
pub mod Revision
pub mod Rebuild
use sarmady.Prelude.{
  ℕ, zero, suc, String, Bool, true, false, not, Option, none, some, List, [], ◌∷◌, ◌++◌, map, ◌==◌,
  ◌&&◌, ◌||◌, Eq, nat_eq, string_eq, pair_eq, is_some, elem, find, any_of, select, leb, ltb, length,
  if◌then◌else◌,
}
use sarmady.Outcome.{
  Outcome, ok, err, value_error, canonical_integrity, raise_if, or_raise, ◌>>=◌, ◌>>◌,
}
use sarmady.Time.{DateTime, is_aware}
use sarmady.Values.{null}
use sarmady.Epistemic.{
  Claim, ClaimRelation, ClaimRelationKind, supports, corrects, supersedes, contradicts, refines,
  ResolutionStatus, missing, resolved, contested, ResolvedState,
}
use sarmady.Store.{
  LogKind, LogEntry, Db, claim, claim_relation, same_kind, claim_by_id, relation_by_id,
}
use sarmady.Store.Resolution.{head_for_key}

-- `claim_heads`, whose primary key is `(subject, predicate)`
unfoldable pub lookup_head : List ((String × String) × ℕ) → String × String → Option ℕ
lookup_head [] k = none
lookup_head ((j, i) ∷ heads) k = if j == k then some i else lookup_head heads k

-- `INSERT … ON CONFLICT DO UPDATE`
unfoldable pub upsert_head :
    String × String → ℕ → List ((String × String) × ℕ) → List ((String × String) × ℕ)
upsert_head k i [] = (k, i) ∷ []
upsert_head k i ((j, h) ∷ heads) = if j == k then (k, i) ∷ heads else (j, h) ∷ upsert_head k i heads

abbrev pub claim_key : Claim → String × String
claim_key c = (c.subject, c.predicate)

-- `SELECT DISTINCT subject, predicate FROM claims`; nothing depends on the order of the keys.
unfoldable pub distinct_keys : List Claim → List (String × String)
distinct_keys [] = []
distinct_keys (c ∷ claims) =
    let rest = distinct_keys claims in if elem (claim_key c) rest then rest else claim_key c ∷ rest

unfoldable pub desired_heads : Db → List (String × String) → Outcome (List ((String × String) × ℕ))
desired_heads db [] = ok []
desired_heads db ((subject, predicate) ∷ keys) = do
  lineage ← head_for_key db subject predicate none
  rest ← desired_heads db keys
  ok (elim lineage.0 [ none ↦ rest | some h ↦ ((subject, predicate), h) ∷ rest ])

unfoldable pub rebuild_claim_heads : Db → Outcome (Db × ℕ)
unfolding distinct_keys desired_heads
rebuild_claim_heads db = do
  desired ← desired_heads db (distinct_keys db.claims)
  ok (record db { claim_heads = desired }, length desired)
