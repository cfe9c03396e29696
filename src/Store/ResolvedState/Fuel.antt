-- ===== src/Store/ResolvedState/Fuel.antt =====
-- The fuel of `walk_lineage`, the loop of `resolve_state` in
-- src/sarmady/storage/sqlite/resolution.py: a walk visits the revision parents at most once each.
use sarmady.Prelude.{
  ℕ, zero, suc, ◌+◌, ◌≤◌, ◌<◌, ◌≡◌, refl, ap, inl, inr, true, false, Option, none, some, List, [],
  ◌∷◌, map, ◌==◌, elem, Option-cases, length, nat_eq, Bool-cases, arith, if◌then◌else◌,
}
use sarmady.Outcome.{Outcome, ok, err, canonical_integrity}
use sarmady.Epistemic.{Claim}
use sarmady.Store.{claim_by_id}
use sarmady.Store.ResolvedState.{claim_valid_at, parent_of, walk_lineage}

-- Every element is in `ys`, and none stands twice.
abbrev Within : List ℕ → List ℕ → Type 0
Within [] ys = Unit
Within (x ∷ xs) ys = (elem x ys ≡ true) × (elem x xs ≡ false) × Within xs ys

abbrev remove : ℕ → List ℕ → List ℕ
remove x [] = []
remove x (y ∷ ys) = let rest = remove x ys in if x == y then ys else y ∷ rest

length-remove : (x : ℕ) (ys : List ℕ) → elem x ys ≡ true → suc (length (remove x ys)) ≡ length ys
length-remove x [] h = cc
length-remove x (y ∷ ys) h = ground (arith, length-remove x ys)

elem-remove :
    (x z : ℕ) (ys : List ℕ) → (z == x) ≡ false → elem z ys ≡ true → elem z (remove x ys) ≡ true
elem-remove x z [] other h = cc
elem-remove x z (y ∷ ys) other h = ground (arith, elem-remove x z ys other)

other_element : (x z : ℕ) (xs : List ℕ) → elem x (z ∷ xs) ≡ false → (z == x) ≡ false
other_element x z xs h = ground arith

Within-remove :
    (x : ℕ) (xs ys : List ℕ) → elem x xs ≡ false → Within xs ys → Within xs (remove x ys)
Within-remove x [] ys h w = tt
Within-remove x (z ∷ xs) ys h (there, once, w) = (
  elem-remove x z ys (other_element x z xs h) there,
  once,
  Within-remove x xs ys (ground (arith, h)) w,
)

-- No more distinct elements than there are places.
length-Within : (xs ys : List ℕ) → Within xs ys → length xs ≤ length ys
length-Within [] ys w = omega arith
length-Within (x ∷ xs) ys (there, once, w) =
    omega (
      arith,
      length-Within xs (remove x ys) (Within-remove x xs ys once w),
      length-remove x ys there,
    )

abbrev revised : List (ℕ × ℕ) → List ℕ
revised parents = map (λ (p : ℕ × ℕ). p.0) parents

length-revised : (parents : List (ℕ × ℕ)) → length (revised parents) ≡ length parents
length-revised [] = refl
length-revised (p ∷ parents) = ap suc (length-revised parents)

elem-revised :
    (parents : List (ℕ × ℕ)) (i j : ℕ)
    → parent_of parents i ≡ some j
    → elem i (revised parents) ≡ true
unfolding parent_of
elem-revised [] i j h = cc
elem-revised ((a, b) ∷ parents) i j h = ground (arith, elem-revised parents i j, h)

unspent :
    (seen : List ℕ) (parents : List (ℕ × ℕ))
    → Within seen (revised parents)
    → length parents < length seen
    → ⊥
unspent seen parents w h =
    omega (arith, h, length-Within seen (revised parents) w, length-revised parents)

-- The loop without fuel: the rounds that `while cursor is not None` makes from the claims seen so far
-- and the cursor, up to what the function returns or raises.
pub data Walk (claims : List Claim) (parents : List (ℕ × ℕ)) (point : ℕ)
    : List ℕ → Option ℕ → Outcome (Option ℕ) → Type 0 where
  ended : (seen : List ℕ) → Walk claims parents point seen none (ok none)
  cycle :
      (seen : List ℕ) (cursor : ℕ)
      → elem cursor seen ≡ true
      → Walk claims parents point seen
          (some cursor)
          (err (canonical_integrity "revision lineage contains a cycle"))
  missing_claim :
      (seen : List ℕ) (cursor : ℕ)
      → elem cursor seen ≡ false
      → claim_by_id claims cursor ≡ none
      → Walk claims parents point seen
          (some cursor)
          (err (canonical_integrity "revision lineage references missing claim"))
  found :
      (seen : List ℕ) (cursor : ℕ) (candidate : Claim)
      → elem cursor seen ≡ false
      → claim_by_id claims cursor ≡ some candidate
      → claim_valid_at candidate point ≡ true
      → Walk claims parents point seen (some cursor) (ok (some cursor))
  onward :
      (seen : List ℕ) (cursor : ℕ) (candidate : Claim) (result : Outcome (Option ℕ))
      → elem cursor seen ≡ false
      → claim_by_id claims cursor ≡ some candidate
      → claim_valid_at candidate point ≡ false
      → Walk claims parents point (cursor ∷ seen) (parent_of parents cursor) result
      → Walk claims parents point seen (some cursor) result

module _ (claims : List Claim) (parents : List (ℕ × ℕ)) (point : ℕ) where
  no_cursor :
      (fuel : ℕ) (seen : List ℕ)
      → Walk claims parents point seen none (walk_lineage fuel claims parents point seen none)
  unfolding walk_lineage
  no_cursor zero seen = ended seen
  no_cursor (suc fuel) seen = ended seen

  -- A round at a claim that was not seen, from the walk that follows it.
  one_round :
      (fuel : ℕ) (seen : List ℕ) (cursor : ℕ)
      → elem cursor seen ≡ false
      → Walk claims parents point
          (cursor ∷ seen)
          (parent_of parents cursor)
          (walk_lineage fuel claims parents point (cursor ∷ seen) (parent_of parents cursor))
      → Walk claims parents point seen
          (some cursor)
          (walk_lineage (suc fuel) claims parents point seen (some cursor))
  unfolding walk_lineage
  one_round fuel seen cursor new rest = elim (Option-cases (claim_by_id claims cursor)) [
    | inl absent ↦ rw (new, absent) (missing_claim seen cursor new absent)
    | inr (candidate, there) ↦ elim (Bool-cases (claim_valid_at candidate point)) [
      | inl valid ↦ rw (new, there, valid) (found seen cursor candidate new there valid)
      | inr past ↦ rw (new, there, past) (onward seen cursor candidate _ new there past rest)
    ]
  ]

  -- While the claims seen are fewer than the fuel leaves room for, the walk ends by itself.
  enough_fuel :
      (fuel : ℕ) (seen : List ℕ) (cursor : Option ℕ)
      → Within seen (revised parents)
      → length parents < fuel + length seen
      → Walk claims parents point seen cursor (walk_lineage fuel claims parents point seen cursor)
  unfolding walk_lineage
  enough_fuel zero seen none w h = no_cursor zero seen
  enough_fuel (suc fuel) seen none w h = no_cursor (suc fuel) seen
  enough_fuel zero seen (some cursor) w h = elim (unspent seen parents w (omega (arith, h))) [ ]
  enough_fuel (suc fuel) seen (some cursor) w h = elim (Bool-cases (elem cursor seen)) [
    | inl again ↦ rw again (cycle seen cursor again)
    | inr new ↦ one_round fuel seen cursor new (elim (Option-cases (parent_of parents cursor)) [
      | inl none_left ↦ rw none_left (no_cursor fuel (cursor ∷ seen))
      | inr (j, next) ↦ rw next (
          enough_fuel fuel (cursor ∷ seen) (some j) (elem-revised parents cursor j next, new, w)
            (omega (arith, h)))
    ])
  ]

-- The walk of `operative_for` from a head, on fuel for one more round than there are revision
-- parents, is what the loop does: the loop, which raises for a cycle only where it meets a claim
-- again, ends from every head, whatever the parents and claims are, and with that result.
pub walk_lineage-Walk :
    (claims : List Claim) (parents : List (ℕ × ℕ)) (point : ℕ) (head : Option ℕ)
    → Walk claims parents point [] head
        (walk_lineage (suc (length parents)) claims parents point [] head)
walk_lineage-Walk claims parents point head =
    enough_fuel claims parents point (suc (length parents)) [] head tt (omega arith)
