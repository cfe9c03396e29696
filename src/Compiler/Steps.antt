-- ===== src/Compiler/Steps.antt =====
-- Each step of the walk over claims and evidence, from the captured reads of
-- src/sarmady/storage/sqlite/store.py to the loops of the compilers.
use mathlib.Core.Path.{subst}
use sarmady.Prelude.{
  All-map, ℕ, String, ◌≡◌, refl, sym, inl, inr, Bool, true, false, Option, none, some, List, [],
  ◌∷◌, elem, nat_eq, string_eq, pair_eq, is_some, All, All-append, arith,
}
use sarmady.Outcome.{ok, ok-inj, >>=-eq-ok}
use sarmady.Host.{Host}
use sarmady.Memory.{MemoryEntry}
use sarmady.Epistemic.{Claim, ResolvedState}
use sarmady.Store.{Db, evidence_by_id, unproven_dependency}
use sarmady.Store.Capture.{
  Ref, Capture, reads, depends, captured_claim, captured_memory_entry, captured_is_active,
}
use sarmady.Compiler.{
  Draft, gap_at, omit, add_item, claim_item, without_evidence, include_active, include_admitted,
  include_found, include_claim, include_competing, include_operative, include_claims,
}
use sarmady.Compiler.Walk.{
  read_ids, read_ids-append, Grows, Grows-refl, Grows-trans, Grows-reads, Grows-depends, ItemRead,
  DraftRead-Grows, DraftRead-add_item, elem-append_right, elem-head,
}
-- The evidence that the stored claims cite is stored.
use sarmady.Compiler.Reads.{
  EvidencePresent, captured_claim-eq-ok, captured_memory_entry-Grows, captured_is_active-Grows,
  Step, include_evidence-Step,
}

-- A draft that only has more gaps, or omits a claim that is read.
omitted-Step :
    (c : Capture) (d d' : Draft) (id : ℕ)
    → elem id (read_ids c.read_refs) ≡ true
    → d'.items ≡ d.items
    → d'.omitted ≡ d.omitted
    → Step c [] d (c, omit id d')
omitted-Step c d d' id read items omitted = (
  Grows-refl c,
  λ given. (
    subst (λ l. All (ItemRead c []) l) (sym items) given.0,
    All-append (λ i. elem i (read_ids c.read_refs) ≡ true) d'.omitted (id ∷ [])
        (subst (λ l. All (λ i. elem i (read_ids c.read_refs) ≡ true) l) (sym omitted) given.1)
        (read, tt),
  ),
)

without_evidence-items :
    (host : Host) (strict : Bool) (id : ℕ) (refs : List ℕ) (d : Draft)
    → ((without_evidence host strict id refs d).items ≡ d.items)
      × ((without_evidence host strict id refs d).omitted ≡ d.omitted)
without_evidence-items host true id [] d = (refl, refl)
without_evidence-items host true id (r ∷ rs) d = (refl, refl)
without_evidence-items host false id refs d = (refl, refl)

All-elem_cons :
    (x : ℕ) (xs ys : List ℕ) → All (λ p. elem p xs ≡ true) ys → All (λ p. elem p (x ∷ xs) ≡ true) ys
All-elem_cons x xs ys h = All-map ys (λ p e. ground (arith, e)) h

All-elem : (xs : List ℕ) → All (λ p. elem p xs ≡ true) xs
All-elem [] = tt
All-elem (x ∷ xs) = (elem-head {A = ℕ} x xs, All-elem_cons x xs xs (All-elem xs))

-- evidence that a claim cites is pending when its item is added
ItemRead-claim :
    (c : Capture) (v : Claim) (role : String)
    → elem ("Claim", v.id) c.read_refs ≡ true
    → ItemRead c v.evidence_refs (claim_item v role)
ItemRead-claim c v role read =
    (read, All-map v.evidence_refs (λ p h. ground (arith, h)) (All-elem v.evidence_refs))

read_claim :
    (c : Capture) (v : Claim)
    → (elem ("Claim", v.id) (reads (("Claim", v.id) ∷ []) c).read_refs ≡ true)
      × (elem v.id (read_ids (reads (("Claim", v.id) ∷ []) c).read_refs) ≡ true)
read_claim c v =
    let last =
      elem-append_right v.id (read_ids c.read_refs) (v.id ∷ []) (elem-head {A = ℕ} v.id []) in
    (
      elem-append_right ("Claim", v.id) c.read_refs (("Claim", v.id) ∷ [])
          (elem-head {A = Ref} ("Claim", v.id) []),
      rw (sym (read_ids-append c.read_refs (("Claim", v.id) ∷ []))) at last,
    )

-- A step after reads that the draft does not need.
Step-after :
    (d : Draft) (r : Capture × Draft) {c c' : Capture} → Grows c c' → Step c' [] d r → Step c [] d r
Step-after d r g (grown, rest) =
    (Grows-trans g grown, λ read. rest (DraftRead-Grows g [] [] (λ p e. cc) d read))

module _ (host : Host) (strict : Bool) (role : String) (db : Db) (v : Claim)
    (present : All (λ e. is_some (evidence_by_id db.evidence e) ≡ true) v.evidence_refs) where
  include_active-Step :
      (active : Bool) (c : Capture) (d : Draft) (r : Capture × Draft)
      → elem ("Claim", v.id) c.read_refs ≡ true
      → elem v.id (read_ids c.read_refs) ≡ true
      → include_active host strict role db v active c d ≡ ok r
      → Step c [] d r
  include_active-Step false c d r ref read h =
      subst (Step c [] d) (ok-inj h)
        (omitted-Step c d (gap_at host "claim-memory-not-active:" v.id d) v.id read refl refl)
  include_active-Step true c d r ref read h =
      let added = add_item (claim_item v role) d in
      let (items, omitted) = without_evidence-items host strict v.id v.evidence_refs added in
      let (grown, rest) =
        include_evidence-Step host db v.evidence_refs c
          (without_evidence host strict v.id v.evidence_refs added) r present h in
      (
        grown,
        λ given.
            let (i, o) =
              DraftRead-add_item c v.evidence_refs (claim_item v role) d
                (ItemRead-claim c v role ref)
                (DraftRead-Grows (Grows-refl c) [] v.evidence_refs (λ p e. cc) d given) in
            rest (
              subst (λ l. All (ItemRead c v.evidence_refs) l) (sym items) i,
              subst (λ l. All (λ id. elem id (read_ids c.read_refs) ≡ true) l) (sym omitted) o,
            ),
      )

  include_admitted-Step :
      (m : Option MemoryEntry) (c : Capture) (d : Draft) (r : Capture × Draft)
      → elem ("Claim", v.id) c.read_refs ≡ true
      → elem v.id (read_ids c.read_refs) ≡ true
      → include_admitted host strict role db v m c d ≡ ok r
      → Step c [] d r
  include_admitted-Step none c d r ref read h =
      subst (Step c [] d) (ok-inj h)
        (omitted-Step c d (gap_at host "claim-not-admitted-to-memory:" v.id d) v.id read refl refl)
  include_admitted-Step (some m) c d r ref read h =
      let (x, captured, h1) = >>=-eq-ok (captured_is_active host.uuid_text "Claim" v.id db c) _ h in
      let grown = captured_is_active-Grows host.uuid_text "Claim" v.id db c captured in
      Step-after d r grown
        (include_active-Step x.1 x.0 d r (grown.refs ("Claim", v.id) ref) (grown.ids v.id read) h1)

no_operative-Step :
    (host : Host) (strict : Bool) (role : String) (db : Db) (c : Capture) (d : Draft)
    (r : Capture × Draft)
    → include_operative host strict role db none c d ≡ ok r
    → Step c [] d r
no_operative-Step host true role db c d r h =
    subst (Step c [] d) (ok-inj h) (Grows-refl c, λ read. read)
no_operative-Step host false role db c d r h =
    subst (Step c [] d) (ok-inj h) (Grows-refl c, λ read. read)

module _ (host : Host) (strict : Bool) (db : Db) (present : EvidencePresent db) where
  include_found-Step :
      (role : String) (id : ℕ) (c c' : Capture) (found : Option Claim) (d : Draft)
      (r : Capture × Draft)
      → captured_claim id db c ≡ ok (c', found)
      → include_found host strict role db id found c' d ≡ ok r
      → Step c [] d r
  include_found-Step role id c c' found d r captured h =
      elim (captured_claim-eq-ok id db c captured) [
        | inl missed ↦
            let same = ok-inj missed in
            let h1 : include_found host strict role db id none (depends unproven_dependency c) d
                ≡ ok r =
              subst
                (λ (y : Capture × Option Claim).
                  include_found host strict role db id y.1 y.0 d ≡ ok r)
                (sym same) h in
            subst (Step c [] d) (ok-inj h1) (Grows-depends unproven_dependency c, λ read. read)
        | inr (v, stored, hit) ↦
            let c1 = reads (("Claim", v.id) ∷ []) c in
            let h1 : include_found host strict role db id (some v) c1 d ≡ ok r =
              subst
                (λ (y : Capture × Option Claim).
                  include_found host strict role db id y.1 y.0 d ≡ ok r)
                (sym (ok-inj hit)) h in
            let (x, entry, h2) =
              >>=-eq-ok (captured_memory_entry host.uuid_text "Claim" v.id db c1) _ h1 in
            let grown = captured_memory_entry-Grows host.uuid_text "Claim" v.id db c1 entry in
            let (ref, read) = read_claim c v in
            Step-after d r (Grows-trans (Grows-reads (("Claim", v.id) ∷ []) c) grown) (
              include_admitted-Step host strict role db v (present id v stored) x.1 x.0 d r
                (grown.refs ("Claim", v.id) ref) (grown.ids v.id read) h2)
      ]

  include_claim-Step :
      (role : String) (id : ℕ) (c : Capture) (d : Draft) (r : Capture × Draft)
      → include_claim host strict role db id c d ≡ ok r
      → Step c [] d r
  unfolding include_claim
  include_claim-Step role id c d r h =
      let (x, captured, h1) = >>=-eq-ok (captured_claim id db c) _ h in
      include_found-Step role id c x.0 x.1 d r captured h1

  Step-trans :
      (d : Draft) {c : Capture} (x r : Capture × Draft)
      → Step c [] d x
      → Step x.0 [] x.1 r
      → Step c [] d r
  Step-trans d x r (g, f) (h, k) = (Grows-trans g h, λ read. k (f read))

  include_competing-Step :
      (ids : List ℕ) (c : Capture) (d : Draft) (r : Capture × Draft)
      → include_competing host strict db ids c d ≡ ok r
      → Step c [] d r
  unfolding include_competing
  include_competing-Step [] c d r h = subst (Step c [] d) (ok-inj h) (Grows-refl c, λ read. read)
  include_competing-Step (id ∷ ids) c d r h =
      let (x, first, h1) = >>=-eq-ok (include_claim host strict "counterevidence" db id c d) _ h in
      Step-trans d x r (include_claim-Step "counterevidence" id c d x first)
        (include_competing-Step ids x.0 x.1 r h1)

  include_operative-Step :
      (role : String) (id : Option ℕ) (c : Capture) (d : Draft) (r : Capture × Draft)
      → include_operative host strict role db id c d ≡ ok r
      → Step c [] d r
  include_operative-Step role (some id) c d r h = include_claim-Step role id c d r h
  include_operative-Step role none c d r h = no_operative-Step host strict role db c d r h

  pub include_claims-Step :
      (role : String) (state : ResolvedState) (c : Capture) (d : Draft) (r : Capture × Draft)
      → include_claims host strict role db state c d ≡ ok r
      → Step c [] d r
  unfolding include_claims
  include_claims-Step role state c d r h =
      let (x, first, h1) =
        >>=-eq-ok (include_operative host strict role db state.operative_claim_id c d) _ h in
      Step-trans d x r (include_operative-Step role state.operative_claim_id c d x first)
        (include_competing-Step state.competing_claim_ids x.0 x.1 r h1)
