-- ===== src/Store/ClaimHeads/Table.antt =====
-- The table of heads as a map.
use sarmady.Prelude.{
  ℕ, String, ◌≡◌, refl, some, List, [], ◌∷◌, arith, ◌==◌, string_eq, pair_eq, pair_beq_iff,
  if◌then◌else◌,
}
use sarmady.Store.ClaimHeads.{lookup_head, upsert_head}

pub lookup_head-upsert_head :
    (k j : String × String) (i : ℕ) (heads : List ((String × String) × ℕ))
    → lookup_head (upsert_head k i heads) j ≡ (if k == j then some i else lookup_head heads j)
unfolding lookup_head upsert_head
lookup_head-upsert_head k j i [] = refl
lookup_head-upsert_head k j i ((l, h) ∷ heads) = ground (
  arith,
  pair_beq_iff k j,
  pair_beq_iff l k,
  pair_beq_iff l j,
  lookup_head-upsert_head k j i heads,
)
