-- ===== src/Compiler/Lineage.antt =====
-- The lineage of a closed capture of src/sarmady/storage/sqlite/store.py whose reads cover what a
-- projection refers to.
use mathlib.Core.Path.{subst}
use sarmady.Prelude.{
  All-map, ℕ, String, ◌≡◌, refl, true, false, Option, some, List, [], ◌∷◌, ◌++◌, map, ◌==◌, elem,
  nat_eq, string_eq, pair_eq, All, All-append, Bool-cases, inl, inr, eq_self, arith, Eq,
}
use sarmady.Outcome.{ok, ok-inj, >>=-eq-ok, raise_if-eq-ok}
use sarmady.Time.{DateTime}
use sarmady.Host.{Host}
use sarmady.Epistemic.{ResolvedState}
use sarmady.Context.{ContextItem, ContextProjection, check_projection}
use sarmady.Store.{Db, epistemic_dependency_key}
use sarmady.Store.ResolvedState.{resolve_state}
use sarmady.Store.Capture.{
  Ref, Capture, close_capture, depends, captured_state, covered, consume_capture,
}
use sarmady.Store.Projection.{
  lineage_of, captured_lineage, item_refs, provenance, required_refs, required_any_refs,
}
use sarmady.Compiler.{Draft, empty_draft, is_missing}
use sarmady.Compiler.Exact.{draft_exact}
use sarmady.Compiler.Walk.{
  read_ids, Grows, Grows-refl, Grows-trans, Grows-reads, Grows-depends, ItemRead, elem-append_right,
  elem-head,
}
use sarmady.Compiler.Reads.{EvidencePresent, Step}
use sarmady.Compiler.Steps.{include_claims-Step}

covered-All {ℓ} :
    {A : Type ℓ} ⦃e : Eq A⦄ (xs ys : List A) → All (λ x. elem x ys ≡ true) xs → covered xs ys ≡ true
covered-All [] ys h = refl
covered-All (x ∷ xs) ys h = rw h.0 (covered-All xs ys h.1)

All-item_refs :
    (c : Capture) (is : List ContextItem)
    → All (ItemRead c []) is
    → All (λ r. elem r c.read_refs ≡ true) (item_refs is)
All-item_refs c [] h = tt
All-item_refs c (i ∷ is) h = (h.0.0, All-item_refs c is h.1)

All-provenance :
    (c : Capture) (is : List ContextItem)
    → All (ItemRead c []) is
    → All (λ p. elem p (read_ids c.read_refs) ≡ true) (provenance is)
All-provenance c [] h = tt
All-provenance c (i ∷ is) h =
    All-append (λ p. elem p (read_ids c.read_refs) ≡ true) i.provenance_refs (provenance is)
      (All-map i.provenance_refs (λ p e. ground (arith, e)) h.0.1) (All-provenance c is h.1)

-- Conflicts whose relations are read.
abbrev pub ConflictsRead : Capture → List ℕ → Type 0
ConflictsRead c ids = All (λ id. elem ("ClaimRelation", id) c.read_refs ≡ true) ids

All-relation_refs :
    (c : Capture) (ids : List ℕ)
    → ConflictsRead c ids
    → All (λ r. elem r c.read_refs ≡ true) (map (λ (id : ℕ). ("ClaimRelation", id)) ids)
All-relation_refs c [] h = tt
All-relation_refs c (id ∷ ids) h = (h.0, All-relation_refs c ids h.1)

-- A closed capture, not used yet, that read what a projection of its frontier refers to.
pub lineage_of-closed :
    (p : ContextProjection) (c : Capture)
    → p.canonical_frontier ≡ c.frontier
    → c.consumed ≡ false
    → All (ItemRead c []) p.items
    → ConflictsRead c p.conflict_refs
    → All (λ id. elem id (read_ids c.read_refs) ≡ true) p.omitted_refs
    → lineage_of p [] (some (close_capture c))
      ≡ ok (captured_lineage (record (close_capture c) { consumed = true }))
unfolding lineage_of consume_capture
lineage_of-closed p c at unused items conflicts omitted =
    let refs = covered-All (required_refs p) c.read_refs (
      All-append (λ r. elem r c.read_refs ≡ true) (item_refs p.items)
        (map (λ (id : ℕ). ("ClaimRelation", id)) p.conflict_refs) (All-item_refs c p.items items)
        (All-relation_refs c p.conflict_refs conflicts)) in
    let any = covered-All (required_any_refs p) (read_ids c.read_refs) (
      All-append (λ id. elem id (read_ids c.read_refs) ≡ true) p.omitted_refs (provenance p.items)
        omitted (All-provenance c p.items items)) in
    rw (unused, at, eq_self c.frontier, refs, any) refl

abbrev pub relation_ref : ℕ → Ref
relation_ref id = ("ClaimRelation", id)

relation_refs :
    (ids : List ℕ) → All (λ id. elem (relation_ref id) (map relation_ref ids) ≡ true) ids
relation_refs [] = tt
relation_refs (id ∷ ids) = (
  elem-head {A = Ref} (relation_ref id) (map relation_ref ids),
  All-map ids
      (λ j e. elem-append_right (relation_ref j) (relation_ref id ∷ []) (map relation_ref ids) e)
      (relation_refs ids),
)

read_relations :
    (rs : List Ref) (ids : List ℕ)
    → All (λ id. elem (relation_ref id) (rs ++ map relation_ref ids) ≡ true) ids
read_relations rs ids =
    All-map ids (λ j e. elem-append_right (relation_ref j) rs (map relation_ref ids) e)
      (relation_refs ids)

pub captured_state-reads :
    (s k : String) (known valid : Option DateTime) (db : Db) (c : Capture)
    {r : Capture × ResolvedState}
    → captured_state s k known valid db c ≡ ok r
    → Grows c r.0 × ConflictsRead r.0 r.1.conflict_relation_ids
unfolding captured_state
captured_state-reads s k known valid db c h =
    let (_, h1) = raise_if-eq-ok c.closed _ _ h in
    let c1 = depends (epistemic_dependency_key s k) c in
    let (state, _, h2) = >>=-eq-ok (resolve_state db s k c1.frontier known valid) _ h1 in
    subst
      (λ (r : Capture × ResolvedState). Grows c r.0 × ConflictsRead r.0 r.1.conflict_relation_ids)
      (ok-inj h2)
      (
        Grows-trans (Grows-depends (epistemic_dependency_key s k) c) (Grows-reads _ c1),
        read_relations c1.read_refs state.conflict_relation_ids,
      )

pub ConflictsRead-Grows :
    {c c' : Capture} → Grows c c' → (ids : List ℕ) → ConflictsRead c ids → ConflictsRead c' ids
ConflictsRead-Grows g ids h = All-map ids (λ j e. g.refs (relation_ref j) e) h

pub draft_exact-Step :
    (host : Host) (s k : String) (db : Db) (state : ResolvedState) (c : Capture)
    (r : Capture × Draft)
    → EvidencePresent db
    → draft_exact host s k db state c ≡ ok r
    → Step c [] empty_draft r
unfolding draft_exact
draft_exact-Step host s k db state c r present h = elim (Bool-cases (is_missing state.status)) [
  | inl absent ↦
      subst (Step c [] empty_draft) (ok-inj (rw absent at h)) (Grows-refl c, λ read. read)
  | inr found ↦
      include_claims-Step host false db present "essential_now" state c empty_draft r
        (rw found at h)
]

pub check_projection-eq-ok :
    (p : ContextProjection) {q : ContextProjection} → check_projection p ≡ ok q → p ≡ q
unfolding check_projection
check_projection-eq-ok p h =
    let (_, h1) = raise_if-eq-ok (p.snapshot_id == "") _ _ h in
    let (_, h2) = raise_if-eq-ok (p.manifest_digest == "") _ _ h1 in
    let (_, h3) = raise_if-eq-ok (p.compiler_version == "") _ _ h2 in ok-inj h3

-- Registration accepts the lineage of the capture.
abbrev pub AcceptedLineage : Capture × ContextProjection → Type 0
AcceptedLineage (c, p) =
    lineage_of p [] (some c) ≡ ok (captured_lineage (record c { consumed = true }))
