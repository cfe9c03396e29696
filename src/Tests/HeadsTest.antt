-- ===== src/Tests/HeadsTest.antt =====
-- Heads of keys, at a small history.
use sarmady.Prelude.{◌∷◌, [], some, ℕ, String, ◌≡◌, none, List, length}
use sarmady.Outcome.{ok}
use sarmady.Store.{Db, empty_db}
use sarmady.Store.Resolution.{head_for_key}
use sarmady.Store.ClaimHeads.{lookup_head, rebuild_claim_heads}
use sarmady.Store.ClaimHeads.Agreement.{Heads, HeadsAgree}
use sarmady.Store.ClaimHeads.Rebuild.{lookup_head-rebuild_claim_heads}
use sarmady.Store.History.{run, run-HeadsAgree, head_for_key-run, empty_db-HeadsAgree}
use sarmady.Store.ResolvedState.{walk_lineage}
use sarmady.Store.ResolvedState.Fuel.{Walk, walk_lineage-Walk}
use sarmady.Tests.Samples.{id_text, history}

abbrev stored : Db
stored = run id_text history empty_db

head_for_key-run_example :
    (parents : List (ℕ × ℕ)) × (head_for_key stored "server" "region" none
      ≡ ok (lookup_head stored.claim_heads ("server", "region"), parents))
head_for_key-run_example = head_for_key-run id_text history "server" "region"

stored-HeadsAgree : HeadsAgree stored
stored-HeadsAgree = run-HeadsAgree id_text history empty_db empty_db-HeadsAgree

lookup_head-rebuild_claim_heads_example :
    (desired : Heads) × (rebuild_claim_heads stored
      ≡ ok (record stored { claim_heads = desired }, length desired))
    × ((k : String × String) → lookup_head desired k ≡ lookup_head stored.claim_heads k)
lookup_head-rebuild_claim_heads_example = lookup_head-rebuild_claim_heads stored stored-HeadsAgree

-- A walk of three claims.
walk_lineage-Walk_example :
    Walk stored.claims
      ((3, 2) ∷ (2, 1) ∷ [])
      5
      []
      (some 3)
      (walk_lineage 3 stored.claims ((3, 2) ∷ (2, 1) ∷ []) 5 [] (some 3))
walk_lineage-Walk_example = walk_lineage-Walk stored.claims ((3, 2) ∷ (2, 1) ∷ []) 5 (some 3)
