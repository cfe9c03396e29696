-- ===== src/Store/ClaimHeads/Revision.antt =====
-- The invariant of the materialised heads, when a claim arrives with a relation to the head.
use mathlib.Core.Path.{subst}
use sarmady.Prelude.{
  ℕ, ◌≡◌, sym, ap, ◌∙◌, true, false, none, some, List, [], ◌∷◌, ◌++◌, String, arith, any_of,
  is_some, nat_eq, string_eq, pair_eq, pair_beq_iff, ◌==◌, ◌&&◌, eq_self, find-snoc_some,
  find-snoc_hit, find-snoc_miss, Option-cases, Bool-cases, inl, inr, if◌then◌else◌,
}
use sarmady.Outcome.{ok}
use sarmady.Time.{DateTime}
use sarmady.Epistemic.{Claim, ClaimRelation}
use sarmady.Store.{LogEntry, claim, claim_relation, is_entry, claim_by_id, relation_by_id}
use sarmady.Store.Resolution.{in_rows, related, replay, revise, is_head_moving}
use sarmady.Store.Resolution.Moments.{
  replay-append, in_rows-claim_by_id, rows_of, moments, next_entry, is_key, rows_of-relation,
  moments_relation_joined, moments_relation_apart,
}
use sarmady.Store.ClaimHeads.{lookup_head, upsert_head, claim_key}
use sarmady.Store.ClaimHeads.Table.{lookup_head-upsert_head}
use sarmady.Store.ClaimHeads.Agreement.{
  Heads, Agree, is_some-snoc, present_after, own_in_rows, replayed_standing, replayed_foreign,
  foreign_not_in_rows, present_upserted, linked_after,
}

module _ {claims : List Claim} {relations : List ClaimRelation} {log : List LogEntry}
    {heads : Heads} (c : Claim) (r : ClaimRelation) (t u : DateTime) (h : ℕ)
    (g : Agree claims relations log heads) (new : claim_by_id claims c.id ≡ none)
    (unlogged : any_of (is_entry claim c.id) log ≡ false)
    (standing : lookup_head heads (claim_key c) ≡ some h) (source : r.source_claim_id ≡ c.id)
    (target : r.target_claim_id ≡ h) (new_relation : relation_by_id relations r.id ≡ none)
    (unlogged_relation : any_of
        (is_entry claim_relation r.id)
        (log ++ next_entry log claim c.id t ∷ [])
      ≡ false) where
  abbrev claims1 : List Claim
  claims1 = claims ++ c ∷ []

  abbrev log1 : List LogEntry
  log1 = log ++ next_entry log claim c.id t ∷ []

  abbrev log2 : List LogEntry
  log2 = log1 ++ next_entry log1 claim_relation r.id u ∷ []

  abbrev heads2 : Heads
  heads2 = if is_head_moving r.kind then upsert_head (claim_key c) c.id heads else heads

  own_standing : (s p : String) → is_key c s p ≡ true → lookup_head heads (s, p) ≡ some h
  own_standing s p own =
      subst (λ k. lookup_head heads k ≡ some h) ((pair_beq_iff (claim_key c) (s, p)).0 own) standing

  abbrev parents2 : List (ℕ × ℕ) → List (ℕ × ℕ)
  parents2 parents =
      if is_head_moving r.kind then (r.source_claim_id, r.target_claim_id) ∷ parents else parents

  revise_own :
      (s p : String) (parents : List (ℕ × ℕ))
      → is_key c s p ≡ true
      → revise (some h, parents) (related r) ≡ ok (lookup_head heads2 (s, p), parents2 parents)
  unfolding revise
  revise_own s p parents own = elim (Bool-cases (is_head_moving r.kind)) [
    | inl moving ↦ rw (moving, lookup_head-upsert_head, own, target, eq_self h) (rw source)
    | inr still ↦ rw (still, own_standing s p own)
  ]

  joins_own :
      (s p : String)
      → is_key c s p ≡ true
      → (in_rows r.source_claim_id (rows_of claims1 log1 s p)
          && in_rows r.target_claim_id (rows_of claims1 log1 s p))
        ≡ true
  joins_own s p own =
      rw (source, target, own_in_rows c t g new unlogged s p own)
        (present_after c t g new unlogged s p h (own_standing s p own))

  revised_own :
      (s p : String)
      → is_key c s p ≡ true
      → (parents : List (ℕ × ℕ)) × (replay
            (none, [])
            (moments claims1 (relations ++ r ∷ []) log2 s p)
          ≡ ok (lookup_head heads2 (s, p), parents))
  revised_own s p own =
      let (parents, e) = replayed_standing c t g new unlogged s p h (own_standing s p own) in
      (
        parents2 parents,
        rw
            (moments_relation_joined claims1 relations log1 r u new_relation unlogged_relation s p
              (joins_own s p own))
            (rw replay-append (rw e (unfold replay in rw (revise_own s p parents own)))),
      )

  heads2_foreign :
      (s p : String) → is_key c s p ≡ false → lookup_head heads2 (s, p) ≡ lookup_head heads (s, p)
  heads2_foreign s p foreign =
      ground (arith, lookup_head-upsert_head (claim_key c) (s, p) c.id heads)

  revised_foreign :
      (s p : String)
      → is_key c s p ≡ false
      → (parents : List (ℕ × ℕ)) × (replay
            (none, [])
            (moments claims1 (relations ++ r ∷ []) log2 s p)
          ≡ ok (lookup_head heads2 (s, p), parents))
  revised_foreign s p foreign =
      let (parents, e) = replayed_foreign c t g new unlogged s p foreign in
      (
        parents,
        rw
            (moments_relation_apart claims1 relations log1 r u new_relation unlogged_relation s p
              (rw (source, foreign_not_in_rows c t g new unlogged s p foreign)))
            (e ∙ ap (λ k. ok (k, parents)) (sym (heads2_foreign s p foreign))),
      )

  present2 :
      (s p : String) (i : ℕ)
      → lookup_head heads2 (s, p) ≡ some i
      → in_rows i (rows_of claims1 log2 s p) ≡ true
  present2 s p i found =
      rw (rows_of-relation claims1 relations log1 r u new_relation unlogged_relation s p)
        (elim (Bool-cases (is_head_moving r.kind)) [
          | inl moving ↦ present_upserted c t g new unlogged s p i (rw moving at found)
          | inr still ↦ present_after c t g new unlogged s p i (rw still at found)
        ])

  abbrev Linked : ClaimRelation → Type 0
  Linked q =
      (is_some (claim_by_id claims1 q.source_claim_id) ≡ true)
      × (is_some (claim_by_id claims1 q.target_claim_id) ≡ true)

  Linked-new : Linked r
  Linked-new = (
    rw source (rw (find-snoc_hit (λ (x : Claim). x.id == c.id) claims c (eq_self c.id) new)),
    rw target (
        is_some-snoc claims c h (
          in_rows-claim_by_id claims c.subject c.predicate none log h
            (g.present c.subject c.predicate h standing))),
  )

  linked2 :
      (j : ℕ) (q : ClaimRelation)
      → relation_by_id (relations ++ r ∷ []) j ≡ some q
      → (is_some (claim_by_id claims1 q.source_claim_id) ≡ true)
        × (is_some (claim_by_id claims1 q.target_claim_id) ≡ true)
  linked2 j q found =
      let snoc = find-snoc_some (λ (x : ClaimRelation). x.id == j) relations r in
      elim (Option-cases (relation_by_id relations j)) [
        | inl absent ↦ elim (Bool-cases (r.id == j)) [
          | inl hit ↦
              let same : r ≡ q =
                ground (
                  arith,
                  find-snoc_hit (λ (x : ClaimRelation). x.id == j) relations r hit absent,
                ) in
              subst Linked same Linked-new
          | inr miss ↦
              cc (find-snoc_miss (λ (x : ClaimRelation). x.id == j) relations r miss, absent, found)
        ]
        | inr (q0, old) ↦ linked_after c t g new unlogged j q (old ∙ sym (snoc q0 old) ∙ found)
      ]

  -- A revision of the standing head, head-moving or not.
  pub Agree-revise : Agree claims1 (relations ++ r ∷ []) log2 heads2
  Agree-revise = record {
    replayed = λ s p. elim (Bool-cases (is_key c s p)) [
      | inl own ↦ revised_own s p own
      | inr foreign ↦ revised_foreign s p foreign
    ];
    present = present2;
    linked = linked2;
  }
