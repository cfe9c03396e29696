-- ===== src/Store/ClaimHeads/Agreement.antt =====
-- The invariant of the materialised heads: the table gives for each key the head that the replay
-- of the canonical rows gives, and keeps it when a claim or a revision joins the log.
use mathlib.Core.Path.{subst}
use sarmady.Prelude.{
  ℕ, ◌≡◌, ap, true, false, none, some, List, [], ◌∷◌, ◌++◌, String, arith, any_of, is_some, nat_eq,
  string_eq, pair_eq, pair_beq_iff, ◌==◌, eq_self, find-snoc_some, any_of-append, Option-cases,
  Bool-cases, inl, inr,
}
use sarmady.Outcome.{ok}
use sarmady.Time.{DateTime}
use sarmady.Epistemic.{Claim, ClaimRelation}
use sarmady.Store.{Db, LogEntry, claim, is_entry, claim_by_id, relation_by_id}
use sarmady.Store.Resolution.{in_rows, replay, revise}
use sarmady.Store.Resolution.Rows.{Untouched}
use sarmady.Store.Resolution.Moments.{
  replay-append, in_rows-claim_by_id, rows_of, moments, next_entry, is_key, rows_of-claim,
  moments_claim_own, moments_claim_other,
}
use sarmady.Store.ClaimHeads.{lookup_head, upsert_head, claim_key}
use sarmady.Store.ClaimHeads.Table.{lookup_head-upsert_head}

abbrev pub Heads : Type 0
Heads = List ((String × String) × ℕ)

pub record Agree (claims : List Claim) (relations : List ClaimRelation) (log : List LogEntry)
    (heads : Heads) : Type 0 where
  pub replayed :
      (s p : String)
      → (parents : List (ℕ × ℕ)) × (replay (none, []) (moments claims relations log s p)
          ≡ ok (lookup_head heads (s, p), parents))
  pub present :
      (s p : String) (h : ℕ)
      → lookup_head heads (s, p) ≡ some h
      → in_rows h (rows_of claims log s p) ≡ true
  pub linked :
      (j : ℕ) (r : ClaimRelation)
      → relation_by_id relations j ≡ some r
      → (is_some (claim_by_id claims r.source_claim_id) ≡ true)
        × (is_some (claim_by_id claims r.target_claim_id) ≡ true)

-- The materialised heads of the database agree with its canonical rows.
abbrev pub HeadsAgree : Db → Type 0
HeadsAgree db = Agree db.claims db.claim_relations db.semantic_log db.claim_heads

-- A new claim's identifier is an end of no relation.
pub Untouched-of_linked :
    {claims : List Claim} {relations : List ClaimRelation} {log : List LogEntry} {heads : Heads}
    (i : ℕ)
    → Agree claims relations log heads
    → claim_by_id claims i ≡ none
    → Untouched relations i
Untouched-of_linked {claims = claims} i g new j r found = (
  λ e. cc ((g.linked j r found).0, ap (claim_by_id claims) e, new),
  λ e. cc ((g.linked j r found).1, ap (claim_by_id claims) e, new),
)

pub is_some-snoc :
    (claims : List Claim) (c : Claim) (i : ℕ)
    → is_some (claim_by_id claims i) ≡ true
    → is_some (claim_by_id (claims ++ c ∷ []) i) ≡ true
is_some-snoc claims c i h = elim (Option-cases (claim_by_id claims i)) [
  | inl absent ↦ cc
  | inr (a, found) ↦ rw (find-snoc_some (λ (x : Claim). x.id == i) claims c a found)
]

module _ {claims : List Claim} {relations : List ClaimRelation} {log : List LogEntry}
    {heads : Heads} (c : Claim) (t : DateTime) (g : Agree claims relations log heads)
    (new : claim_by_id claims c.id ≡ none)
    (unlogged : any_of (is_entry claim c.id) log ≡ false) where
  untouched : Untouched relations c.id
  untouched = Untouched-of_linked c.id g new

  pub linked_after :
      (j : ℕ) (r : ClaimRelation)
      → relation_by_id relations j ≡ some r
      → (is_some (claim_by_id (claims ++ c ∷ []) r.source_claim_id) ≡ true)
        × (is_some (claim_by_id (claims ++ c ∷ []) r.target_claim_id) ≡ true)
  linked_after j r found = (
    is_some-snoc claims c r.source_claim_id (g.linked j r found).0,
    is_some-snoc claims c r.target_claim_id (g.linked j r found).1,
  )

  pub present_after :
      (s p : String) (h : ℕ)
      → lookup_head heads (s, p) ≡ some h
      → in_rows h (rows_of (claims ++ c ∷ []) (log ++ next_entry log claim c.id t ∷ []) s p) ≡ true
  present_after s p h found =
      rw (rows_of-claim claims relations log c t new unlogged untouched s p)
        (rw any_of-append (rw (g.present s p h found)))

  pub own_in_rows :
      (s p : String)
      → is_key c s p ≡ true
      → in_rows c.id (rows_of (claims ++ c ∷ []) (log ++ next_entry log claim c.id t ∷ []) s p)
        ≡ true
  own_in_rows s p own =
      rw (rows_of-claim claims relations log c t new unlogged untouched s p)
        (rw any_of-append (rw own (ground (arith, eq_self c.id))))

  replayed_own :
      (s p : String)
      → is_key c s p ≡ true
      → lookup_head heads (s, p) ≡ none
      → (parents : List (ℕ × ℕ)) × (replay
            (none, [])
            (moments (claims ++ c ∷ []) relations (log ++ next_entry log claim c.id t ∷ []) s p)
          ≡ ok (some c.id, parents))
  unfolding replay revise
  replayed_own s p own vacant =
      let (parents, e) = g.replayed s p in
      (
        parents,
        rw (moments_claim_own claims relations log c t new unlogged untouched s p own)
            (rw replay-append (rw (e, vacant))),
      )

  pub replayed_standing :
      (s p : String) (h : ℕ)
      → lookup_head heads (s, p) ≡ some h
      → (parents : List (ℕ × ℕ)) × (replay
            (none, [])
            (moments (claims ++ c ∷ []) relations (log ++ next_entry log claim c.id t ∷ []) s p)
          ≡ ok (some h, parents))
  unfolding replay revise
  replayed_standing s p h standing =
      let (parents, e) = g.replayed s p in
      elim (Bool-cases (is_key c s p)) [
        | inl own ↦ (
          parents,
          rw (moments_claim_own claims relations log c t new unlogged untouched s p own)
              (rw replay-append (rw (e, standing))),
        )
        | inr foreign ↦ (
          parents,
          rw (moments_claim_other claims relations log c t new unlogged untouched s p foreign)
              (rw (e, standing)),
        )
      ]

  pub replayed_foreign :
      (s p : String)
      → is_key c s p ≡ false
      → (parents : List (ℕ × ℕ)) × (replay
            (none, [])
            (moments (claims ++ c ∷ []) relations (log ++ next_entry log claim c.id t ∷ []) s p)
          ≡ ok (lookup_head heads (s, p), parents))
  replayed_foreign s p foreign =
      let (parents, e) = g.replayed s p in
      (
        parents,
        rw (moments_claim_other claims relations log c t new unlogged untouched s p foreign) e,
      )

  pub foreign_not_in_rows :
      (s p : String)
      → is_key c s p ≡ false
      → in_rows c.id (rows_of (claims ++ c ∷ []) (log ++ next_entry log claim c.id t ∷ []) s p)
        ≡ false
  foreign_not_in_rows s p foreign =
      rw (rows_of-claim claims relations log c t new unlogged untouched s p) (
        rw any_of-append (elim (Bool-cases (in_rows c.id (rows_of claims log s p))) [
          | inl found ↦ cc (in_rows-claim_by_id claims s p none log c.id found, new)
          | inr absent ↦ rw (absent, foreign)
        ]))

  pub present_upserted :
      (s p : String) (h : ℕ)
      → lookup_head (upsert_head (claim_key c) c.id heads) (s, p) ≡ some h
      → in_rows h (rows_of (claims ++ c ∷ []) (log ++ next_entry log claim c.id t ∷ []) s p) ≡ true
  present_upserted s p h found = elim (Bool-cases (is_key c s p)) [
    | inl own ↦
        let moved : c.id ≡ h =
          ground (arith, lookup_head-upsert_head (claim_key c) (s, p) c.id heads) in
        subst
          (λ i.
            in_rows i (rows_of (claims ++ c ∷ []) (log ++ next_entry log claim c.id t ∷ []) s p)
            ≡ true)
          moved (own_in_rows s p own)
    | inr foreign ↦
        present_after s p h
          (ground (arith, lookup_head-upsert_head (claim_key c) (s, p) c.id heads))
  ]

  -- A first claim of its key becomes the head.
  pub Agree-admit :
      lookup_head heads (claim_key c) ≡ none
      → Agree
          (claims ++ c ∷ [])
          relations
          (log ++ next_entry log claim c.id t ∷ [])
          (upsert_head (claim_key c) c.id heads)
  Agree-admit vacant = record {
    replayed = λ s p. elim (Bool-cases (is_key c s p)) [
      | inl own ↦ rw lookup_head-upsert_head (
          rw own (
            replayed_own s p own (
              subst (λ k. lookup_head heads k ≡ none) ((pair_beq_iff (claim_key c) (s, p)).0 own)
                vacant)))
      | inr foreign ↦ rw lookup_head-upsert_head (rw foreign (replayed_foreign s p foreign))
    ];
    present = present_upserted;
    linked = linked_after;
  }
