-- ===== src/Store/ClaimHeads/Rebuild.antt =====
-- Rebuilding the table of heads.
use mathlib.Core.Path.{subst}
use sarmady.Prelude.{
  ℕ, ◌≡◌, refl, sym, ◌∙◌, true, Option, none, some, List, [], ◌∷◌, String, arith, elem,
  any_of-append, nat_eq, string_eq, pair_eq, pair_beq_iff, ◌==◌, Option-cases, Bool-cases, inl, inr,
  if◌then◌else◌, length,
}
use sarmady.Outcome.{ok}
use sarmady.Epistemic.{Claim}
use sarmady.Store.{Db, LogEntry, claim_by_id}
use sarmady.Store.Resolution.{claim_row, claim_rows, in_rows, head_for_key, timeline}
use sarmady.Store.ClaimHeads.{
  lookup_head, claim_key, distinct_keys, desired_heads, rebuild_claim_heads,
}
use sarmady.Store.ClaimHeads.Agreement.{Heads, HeadsAgree}

elem-distinct_keys :
    (claims : List Claim) (i : ℕ) (c : Claim)
    → claim_by_id claims i ≡ some c
    → elem (claim_key c) (distinct_keys claims) ≡ true
unfolding distinct_keys
elem-distinct_keys [] i c h = cc
elem-distinct_keys (d ∷ claims) i c h = ground (
  arith,
  elem-distinct_keys claims i c,
  pair_beq_iff (claim_key c) (claim_key d),
  pair_beq_iff (claim_key c) (claim_key c),
)

in_rows-elem :
    (claims : List Claim) (s p : String) (known : Option ℕ) (log : List LogEntry) (i : ℕ)
    → in_rows i (claim_rows claims s p known log) ≡ true
    → elem (s, p) (distinct_keys claims) ≡ true
unfolding claim_rows
in_rows-elem claims s p known [] i h = cc
in_rows-elem claims s p known (e ∷ log) i h = elim (Option-cases (claim_by_id claims e.ref_id)) [
  | inl absent ↦ ground (arith, in_rows-elem claims s p known log i)
  | inr (c, found) ↦ ground (
    arith,
    in_rows-elem claims s p known log i,
    elem-distinct_keys claims e.ref_id c found,
    pair_beq_iff (claim_key c) (s, p),
    any_of-append (λ (row : Claim × ℕ). row.0.id == i) (claim_row claims s p known e)
        (claim_rows claims s p known log),
  )
]

module _ (heads rest : Heads) (keys : List (String × String)) (j k : String × String) where
  vacant_key :
      lookup_head heads j ≡ none
      → lookup_head rest k ≡ (if elem k keys then lookup_head heads k else none)
      → lookup_head rest k ≡ (if elem k (j ∷ keys) then lookup_head heads k else none)
  vacant_key vacant l = elim (Bool-cases (k == j)) [
    | inl hit ↦
        let at_k : lookup_head heads k ≡ none =
          subst (λ i. lookup_head heads i ≡ none) (sym ((pair_beq_iff k j).0 hit)) vacant in
        ground arith
    | inr miss ↦ rw miss l
  ]

  found_key :
      (h : ℕ)
      → lookup_head heads j ≡ some h
      → lookup_head rest k ≡ (if elem k keys then lookup_head heads k else none)
      → lookup_head ((j, h) ∷ rest) k ≡ (if elem k (j ∷ keys) then lookup_head heads k else none)
  unfolding lookup_head
  found_key h found l = elim (Bool-cases (k == j)) [
    | inl hit ↦
        let at_k : lookup_head heads k ≡ some h =
          subst (λ i. lookup_head heads i ≡ some h) (sym ((pair_beq_iff k j).0 hit)) found in
        rw (hit, (pair_beq_iff j k).1 (sym ((pair_beq_iff k j).0 hit))) (sym at_k)
    | inr miss ↦ ground (arith, pair_beq_iff j k, pair_beq_iff k j)
  ]

-- The heads that are inserted, for some keys.
desired_heads_lem :
    (db : Db) (keys : List (String × String))
    → HeadsAgree db
    → (desired : Heads) × (desired_heads db keys ≡ ok desired)
      × ((k : String × String)
          → lookup_head desired k ≡ (if elem k keys then lookup_head db.claim_heads k else none))
unfolding desired_heads head_for_key timeline
desired_heads_lem db [] g = ([], refl, unfold lookup_head in λ k. refl)
desired_heads_lem db ((s, p) ∷ keys) g =
    let (parents, e) = g.replayed s p in
    let (rest, d, l) = desired_heads_lem db keys g in
    elim (Option-cases (lookup_head db.claim_heads (s, p))) [
      | inl vacant ↦
          (rest, rw (e, vacant, d), λ k. vacant_key db.claim_heads rest keys (s, p) k vacant (l k))
      | inr (h, found) ↦ (
        ((s, p), h) ∷ rest,
        rw (e, found, d),
        λ k. found_key db.claim_heads rest keys (s, p) k h found (l k),
      )
    ]

-- Every head belongs to a key of some claim.
every_head :
    (db : Db)
    → HeadsAgree db
    → (k : String × String)
    → (if elem k (distinct_keys db.claims) then lookup_head db.claim_heads k else none)
      ≡ lookup_head db.claim_heads k
every_head db g (s, p) = elim (Option-cases (lookup_head db.claim_heads (s, p))) [
  | inl vacant ↦ ground arith
  | inr (h, found) ↦
      rw (in_rows-elem db.claims s p none db.semantic_log h (g.present s p h found)) refl
]

-- `rebuild_claim_heads` on a store whose table of heads agrees with its canonical rows: it does not
-- raise, changes no table but `claim_heads`, and leaves the head of every key as it was.
pub lookup_head-rebuild_claim_heads :
    (db : Db)
    → HeadsAgree db
    → (desired : Heads) × (rebuild_claim_heads db
        ≡ ok (record db { claim_heads = desired }, length desired))
      × ((k : String × String) → lookup_head desired k ≡ lookup_head db.claim_heads k)
unfolding rebuild_claim_heads
lookup_head-rebuild_claim_heads db g =
    let (desired, d, l) = desired_heads_lem db (distinct_keys db.claims) g in
    (desired, rw d, λ k. l k ∙ every_head db g k)
