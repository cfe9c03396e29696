-- ===== src/Compiler/Reads.antt =====
-- What the captured reads of src/sarmady/storage/sqlite/store.py record, and the walk over the
-- evidence of a claim.
use mathlib.Core.Path.{subst}
use sarmady.Prelude.{
  ℕ, String, ◌≡◌, refl, sym, ap, ◌∙◌, ◌⊎◌, inl, inr, Bool, true, Option, none, some, List, [], ◌∷◌,
  ◌==◌, ◌||◌, elem, nat_eq, string_eq, pair_eq, is_some, All, Option-cases, Bool-cases, find-passes,
  eq_of_test, arith,
}
use sarmady.Outcome.{ok, ok-inj, >>=-eq-ok, raise_if-eq-ok}
use sarmady.Host.{Host}
use sarmady.Memory.{MemoryEntry}
use sarmady.Epistemic.{Claim, Evidence}
use sarmady.Store.{Db, claim_by_id, evidence_by_id, unproven_dependency, memory_dependency_key}
use sarmady.Store.Memory.{memory_entry_for_target}
use sarmady.Store.Capture.{
  Ref, Capture, reads, depends, capture_entry, captured_claim, captured_evidence,
  captured_memory_entry, captured_is_active,
}
use sarmady.Compiler.{Draft, add_item, add_evidence, evidence_item, include_evidence}
use sarmady.Compiler.Walk.{
  read_ids, read_ids-append, Grows, Grows-refl, Grows-trans, Grows-reads, Grows-depends, ItemRead,
  DraftRead, DraftRead-Grows, DraftRead-add_item, elem-append_right, elem-head,
}

abbrev pub EvidencePresent : Db → Type 0
EvidencePresent db =
    (id : ℕ) (v : Claim)
    → claim_by_id db.claims id ≡ some v
    → All (λ e. is_some (evidence_by_id db.evidence e) ≡ true) v.evidence_refs

captured_evidence-eq-ok :
    (id : ℕ) (db : Db) (c : Capture) {r : Capture × Option Evidence}
    → is_some (evidence_by_id db.evidence id) ≡ true
    → captured_evidence id db c ≡ ok r
    → (e : Evidence) × (ok (reads (("Evidence", id) ∷ []) c, some e) ≡ ok r)
unfolding captured_evidence
captured_evidence-eq-ok id db c present h =
    let (_, h1) = raise_if-eq-ok c.closed _ _ h in
    elim (Option-cases (evidence_by_id db.evidence id)) [
      | inl absent ↦ cc
      | inr (e, found) ↦
          let same =
            eq_of_test e.id id (find-passes (λ (v : Evidence). v.id == id) db.evidence e found) in
          (e, ap (λ i. ok (reads (("Evidence", i) ∷ []) c, some e)) (sym same) ∙ (rw found at h1))
    ]

pub captured_claim-eq-ok :
    (id : ℕ) (db : Db) (c : Capture) {r : Capture × Option Claim}
    → captured_claim id db c ≡ ok r
    → (ok (depends unproven_dependency c, none) ≡ ok r)
      ⊎ ((v : Claim) × (claim_by_id db.claims id ≡ some v)
          × (ok (reads (("Claim", v.id) ∷ []) c, some v) ≡ ok r))
unfolding captured_claim
captured_claim-eq-ok id db c h =
    let (_, h1) = raise_if-eq-ok c.closed _ _ h in
    elim (Option-cases (claim_by_id db.claims id)) [
      | inl absent ↦ inl (rw absent at h1)
      | inr (v, found) ↦ inr (v, found, rw found at h1)
    ]

capture_entry-Grows :
    (uuid_text : ℕ → String) (m : Option MemoryEntry) (c : Capture)
    → Grows c (capture_entry uuid_text m c)
capture_entry-Grows uuid_text none c = Grows-depends _ c
capture_entry-Grows uuid_text (some m) c =
    Grows-trans (Grows-depends (memory_dependency_key uuid_text m.id) c)
      (Grows-reads (("MemoryEntry", m.id) ∷ []) _)

pub captured_memory_entry-Grows :
    (uuid_text : ℕ → String) (target : String) (id : ℕ) (db : Db) (c : Capture)
    {r : Capture × Option MemoryEntry}
    → captured_memory_entry uuid_text target id db c ≡ ok r
    → Grows c r.0
unfolding captured_memory_entry
captured_memory_entry-Grows uuid_text target id db c h =
    let (_, h1) = raise_if-eq-ok c.closed _ _ h in
    subst (λ (r : Capture × Option MemoryEntry). Grows c r.0) (ok-inj h1)
      (capture_entry-Grows uuid_text (memory_entry_for_target db target id) c)

pub captured_is_active-Grows :
    (uuid_text : ℕ → String) (target : String) (id : ℕ) (db : Db) (c : Capture) {r : Capture × Bool}
    → captured_is_active uuid_text target id db c ≡ ok r
    → Grows c r.0
unfolding captured_is_active
captured_is_active-Grows uuid_text target id db c h =
    let (_, h1) = raise_if-eq-ok c.closed _ _ h in
    subst (λ (r : Capture × Bool). Grows c r.0) (ok-inj h1)
      (capture_entry-Grows uuid_text (memory_entry_for_target db target id) c)

-- A step from a capture and a draft whose pending evidence is `pending`: the capture grows, and
-- what the draft refers to is read afterwards.
abbrev pub Step : Capture → List ℕ → Draft → Capture × Draft → Type 0
Step c pending d r = Grows c r.0 × (DraftRead c pending d → DraftRead r.0 [] r.1)

evidence_read :
    (c : Capture) (id : ℕ) (ids : List ℕ) (p : ℕ)
    → elem p (id ∷ ids) ≡ true
    → (elem p (read_ids (reads (("Evidence", id) ∷ []) c).read_refs) || elem p ids) ≡ true
evidence_read c id ids p h = elim (Bool-cases (p == id)) [
  | inl same ↦
      let last = elem-append_right p (read_ids c.read_refs) (id ∷ []) (rw same refl) in
      let read = rw (sym (read_ids-append c.read_refs (("Evidence", id) ∷ []))) at last in
      ground (arith, read)
  | inr other ↦ let rest : elem p ids ≡ true = rw other at h in ground (arith, rest)
]

ItemRead-evidence :
    (c : Capture) (pending : List ℕ) (id : ℕ)
    → ItemRead (reads (("Evidence", id) ∷ []) c) pending (evidence_item id)
ItemRead-evidence c pending id =
    let ref =
      elem-append_right ("Evidence", id) c.read_refs (("Evidence", id) ∷ [])
        (elem-head {A = Ref} ("Evidence", id) []) in
    let last = elem-append_right id (read_ids c.read_refs) (id ∷ []) (elem-head {A = ℕ} id []) in
    let read = rw (sym (read_ids-append c.read_refs (("Evidence", id) ∷ []))) at last in
    (ref, (ground (arith, read), tt))

pub include_evidence-Step :
    (host : Host) (db : Db) (ids : List ℕ) (c : Capture) (d : Draft) (r : Capture × Draft)
    → All (λ e. is_some (evidence_by_id db.evidence e) ≡ true) ids
    → include_evidence host db ids c d ≡ ok r
    → Step c ids d r
unfolding include_evidence
include_evidence-Step host db [] c d r present h =
    subst (Step c [] d) (ok-inj h) (Grows-refl c, λ read. read)
include_evidence-Step host db (id ∷ ids) c d r present h =
    let (x, captured, h1) = >>=-eq-ok (captured_evidence id db c) _ h in
    let (e, result) = captured_evidence-eq-ok id db c present.0 captured in
    let c1 = reads (("Evidence", id) ∷ []) c in
    let d1 = add_item (evidence_item id) d in
    let h2 : include_evidence host db ids c1 d1 ≡ ok r =
      subst
        (λ (y : Capture × Option Evidence).
          include_evidence host db ids y.0 (add_evidence host id y.1 d) ≡ ok r)
        (sym (ok-inj result)) h1 in
    let (grown, rest) = include_evidence-Step host db ids c1 d1 r present.1 h2 in
    let first = Grows-reads (("Evidence", id) ∷ []) c in
    (
      Grows-trans first grown,
      λ read. rest (
          DraftRead-add_item c1 ids (evidence_item id) d (ItemRead-evidence c ids id)
            (DraftRead-Grows first (id ∷ ids) ids (evidence_read c id ids) d read)),
    )
