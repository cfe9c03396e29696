-- ===== src/Store/Resolution/Rows.antt =====
-- The joins with the log, when the log or a table grows.
use mathlib.Core.Path.{ap₂}
use mathlib.Core.List.{append_assoc, append-nil}
use sarmady.Prelude.{
  ℕ, ◌≡◌, refl, sym, ◌∙◌, false, Option, some, List, [], ◌∷◌, ◌++◌, String, arith, any_of, nat_eq,
  ◌==◌, Option-cases, inl, inr, ◌≢◌, find-snoc_miss, any_of-append,
}
use sarmady.Epistemic.{Claim, ClaimRelation}
use sarmady.Store.{LogEntry, claim, claim_relation, same_kind, is_entry, relation_by_id}
use sarmady.Store.Resolution.{claim_row, claim_rows, relation_row, relation_rows}

module _ (claims : List Claim) (s p : String) (known : Option ℕ) where
  pub claim_rows-append :
      (a b : List LogEntry)
      → claim_rows claims s p known (a ++ b)
        ≡ claim_rows claims s p known a ++ claim_rows claims s p known b
  unfolding claim_rows
  claim_rows-append [] b = refl
  claim_rows-append (e ∷ a) b =
      rw (claim_rows-append a b) (sym (append_assoc (claim_row claims s p known e) _ _))

  -- An entry of another kind adds no row.
  pub claim_rows_other :
      (log : List LogEntry) (e : LogEntry)
      → same_kind e.kind claim ≡ false
      → claim_rows claims s p known (log ++ e ∷ []) ≡ claim_rows claims s p known log
  unfolding claim_rows
  claim_rows_other log e h = claim_rows-append log (e ∷ []) ∙ rw h (append-nil _)

  claim_row_unlogged :
      (c : Claim) (e : LogEntry)
      → is_entry claim c.id e ≡ false
      → claim_row (claims ++ c ∷ []) s p known e ≡ claim_row claims s p known e
  claim_row_unlogged c e h =
      ground (arith, find-snoc_miss (λ (x : Claim). x.id == e.ref_id) claims c)

  -- A claim that the log does not mention adds no row.
  pub claim_rows_unlogged :
      (c : Claim) (log : List LogEntry)
      → any_of (is_entry claim c.id) log ≡ false
      → claim_rows (claims ++ c ∷ []) s p known log ≡ claim_rows claims s p known log
  unfolding claim_rows
  claim_rows_unlogged c [] h = refl
  claim_rows_unlogged c (e ∷ log) h =
      ap₂ ◌++◌ (claim_row_unlogged c e (ground arith)) (claim_rows_unlogged c log (ground arith))

-- The claim `i` is an end of no relation.
abbrev pub Untouched : List ClaimRelation → ℕ → Type 0
Untouched relations i =
    (j : ℕ) (r : ClaimRelation)
    → relation_by_id relations j ≡ some r
    → (r.source_claim_id ≢ i) × (r.target_claim_id ≢ i)

module _ (relations : List ClaimRelation) (rows : List (Claim × ℕ)) (known : Option ℕ) where
  pub relation_rows-append :
      (a b : List LogEntry)
      → relation_rows relations rows known (a ++ b)
        ≡ relation_rows relations rows known a ++ relation_rows relations rows known b
  unfolding relation_rows
  relation_rows-append [] b = refl
  relation_rows-append (e ∷ a) b =
      rw (relation_rows-append a b) (sym (append_assoc (relation_row relations rows known e) _ _))

  pub relation_rows_other :
      (log : List LogEntry) (e : LogEntry)
      → same_kind e.kind claim_relation ≡ false
      → relation_rows relations rows known (log ++ e ∷ []) ≡ relation_rows relations rows known log
  unfolding relation_rows
  relation_rows_other log e h = relation_rows-append log (e ∷ []) ∙ rw h (append-nil _)

  relation_row_unlogged :
      (r : ClaimRelation) (e : LogEntry)
      → is_entry claim_relation r.id e ≡ false
      → relation_row (relations ++ r ∷ []) rows known e ≡ relation_row relations rows known e
  relation_row_unlogged r e h =
      ground (arith, find-snoc_miss (λ (x : ClaimRelation). x.id == e.ref_id) relations r)

  -- A relation that the log does not mention adds no row.
  pub relation_rows_unlogged :
      (r : ClaimRelation) (log : List LogEntry)
      → any_of (is_entry claim_relation r.id) log ≡ false
      → relation_rows (relations ++ r ∷ []) rows known log ≡ relation_rows relations rows known log
  unfolding relation_rows
  relation_rows_unlogged r [] h = refl
  relation_rows_unlogged r (e ∷ log) h =
      ap₂ ◌++◌ (relation_row_unlogged r e (ground arith))
        (relation_rows_unlogged r log (ground arith))

  relation_row_new_claim :
      (c : Claim) (n : ℕ) (e : LogEntry)
      → Untouched relations c.id
      → relation_row relations (rows ++ (c, n) ∷ []) known e ≡ relation_row relations rows known e
  relation_row_new_claim c n e u = elim (Option-cases (relation_by_id relations e.ref_id)) [
    | inl absent ↦ ground arith
    | inr (r, found) ↦ ground (
      arith,
      u e.ref_id r found,
      any_of-append (λ (row : Claim × ℕ). row.0.id == r.source_claim_id) rows ((c, n) ∷ []),
      any_of-append (λ (row : Claim × ℕ). row.0.id == r.target_claim_id) rows ((c, n) ∷ []),
    )
  ]

  -- A claim that no relation touches brings no relation in.
  pub relation_rows_new_claim :
      (c : Claim) (n : ℕ) (log : List LogEntry)
      → Untouched relations c.id
      → relation_rows relations (rows ++ (c, n) ∷ []) known log
        ≡ relation_rows relations rows known log
  unfolding relation_rows
  relation_rows_new_claim c n [] u = refl
  relation_rows_new_claim c n (e ∷ log) u =
      ap₂ ◌++◌ (relation_row_new_claim c n e u) (relation_rows_new_claim c n log u)
