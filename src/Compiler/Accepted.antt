-- ===== src/Compiler/Accepted.antt =====
-- Registration accepts the lineage of what the compilers of src/sarmady/context/compiler.py and
-- coverage.py compile.
use mathlib.Core.Path.{subst}
use sarmady.Prelude.{
  ℕ, String, ◌≡◌, refl, ap, ◌∙◌, true, some, List, [], ◌∷◌, elem, nat_eq, string_eq, pair_eq, All,
  All-append, Bool-cases, inl, inr,
}
use sarmady.Outcome.{ok, ok-inj, >>=-eq-ok}
use sarmady.Host.{Host}
use sarmady.Epistemic.{ResolvedState}
use sarmady.Context.{ContextRequest, ContextProjection, ExactCoverageRequirement, check_projection}
use sarmady.Store.{Db}
use sarmady.Store.Capture.{Capture, open_capture, close_capture, captured_state}
use sarmady.Store.Projection.{lineage_of, captured_lineage}
use sarmady.Compiler.{Draft, is_missing}
use sarmady.Compiler.Exact.{draft_exact, exact_projection, compile_exact_snapshot}
use sarmady.Compiler.Coverage.{
  Progress, no_progress, draft_requirement, required_draft, progress_with, noted_conflicts, cover,
  first_of_each, coverage_projection, compile_coverage_snapshot,
}
use sarmady.Compiler.Walk.{read_ids, Grows, Grows-refl, Grows-trans, DraftRead, DraftRead-Grows}
use sarmady.Compiler.Reads.{EvidencePresent, Step}
use sarmady.Compiler.Steps.{include_claims-Step}
use sarmady.Compiler.Lineage.{
  ConflictsRead, lineage_of-closed, relation_ref, captured_state-reads, ConflictsRead-Grows,
  draft_exact-Step, check_projection-eq-ok, AcceptedLineage,
}

-- Where the evidence that claims cite is stored, what the exact compiler compiles in a snapshot has
-- a lineage that registration accepts: the capture is closed and unused, it is of the projection's
-- frontier, and its reads cover the projection's items, provenance, conflicts and omissions.
pub lineage_of-compile_exact_snapshot :
    (host : Host) (id : ℕ) (request : ContextRequest) (subject predicate : String) (db : Db)
    (c : Capture) (p : ContextProjection)
    → EvidencePresent db
    → compile_exact_snapshot host id request subject predicate db ≡ ok (c, p)
    → lineage_of p [] (some c) ≡ ok (captured_lineage (record c { consumed = true }))
unfolding compile_exact_snapshot
lineage_of-compile_exact_snapshot host id request subject predicate db c p present h =
    let (x, resolved, h1) =
      >>=-eq-ok
        (captured_state subject predicate request.known_at request.valid_at db (open_capture db)) _
        h in
    let (y, drafted, h2) = >>=-eq-ok (draft_exact host subject predicate db x.1 x.0) _ h1 in
    let (q, checked, h3) =
      >>=-eq-ok (check_projection (exact_projection host id request subject predicate y.0 x.1 y.1))
        _ h2 in
    let (opened, conflicts) =
      captured_state-reads subject predicate request.known_at request.valid_at db (open_capture db)
        resolved in
    let (grown, keeps) = draft_exact-Step host subject predicate db x.1 x.0 y present drafted in
    let (items, omitted) = keeps (tt, tt) in
    let built = exact_projection host id request subject predicate y.0 x.1 y.1 in
    let accepted =
      lineage_of-closed built y.0 refl (grown.consumed ∙ opened.consumed) items
        (ConflictsRead-Grows grown x.1.conflict_relation_ids conflicts) omitted in
    subst AcceptedLineage
      (ap (λ (w : ContextProjection). (close_capture y.0, w)) (check_projection-eq-ok built checked)
        ∙ ok-inj h3)
      accepted

-- What the progress refers to is read.
abbrev ProgressRead : Capture → Progress → Type 0
ProgressRead c p = DraftRead c [] p.draft × ConflictsRead c p.conflicts

draft_requirement-Step :
    (host : Host) (q : ExactCoverageRequirement) (db : Db) (state : ResolvedState) (c : Capture)
    (d : Draft) (r : Capture × Draft)
    → EvidencePresent db
    → draft_requirement host q db state c d ≡ ok r
    → Step c [] d r
unfolding draft_requirement
draft_requirement-Step host q db state c d r present h =
    elim (Bool-cases (is_missing state.status)) [
      | inl absent ↦ subst (Step c [] d) (ok-inj (rw absent at h)) (Grows-refl c, λ read. read)
      | inr found ↦ include_claims-Step host true db present q.role state c d r (rw found at h)
    ]

noted_conflicts-read :
    (c : Capture) (state : ResolvedState)
    → ConflictsRead c state.conflict_relation_ids
    → ConflictsRead c (noted_conflicts state)
noted_conflicts-read c state h = elim (Bool-cases (is_missing state.status)) [
  | inl absent ↦ rw absent tt
  | inr found ↦ rw found h
]

cover-read :
    (host : Host) (request : ContextRequest) (db : Db) (qs : List ExactCoverageRequirement)
    (c : Capture) (p : Progress) (r : Capture × Progress)
    → EvidencePresent db
    → ProgressRead c p
    → cover host request db qs c p ≡ ok r
    → Grows c r.0 × ProgressRead r.0 r.1
unfolding cover
cover-read host request db [] c p r present read h =
    subst (λ (x : Capture × Progress). Grows c x.0 × ProgressRead x.0 x.1) (ok-inj h)
      (Grows-refl c, read)
cover-read host request db (q ∷ qs) c p r present (drafted, noted) h =
    let (x, resolved, h1) =
      >>=-eq-ok (captured_state q.subject q.predicate request.known_at request.valid_at db c) _ h in
    let (y, walked, h2) =
      >>=-eq-ok (draft_requirement host q db x.1 x.0 (required_draft p.draft)) _ h1 in
    let (first, conflicts) =
      captured_state-reads q.subject q.predicate request.known_at request.valid_at db c resolved in
    let (grown, keeps) =
      draft_requirement-Step host q db x.1 x.0 (required_draft p.draft) y present walked in
    let both = Grows-trans first grown in
    let read' : ProgressRead y.0 (progress_with q x.1 y.1 p) = (
      keeps (DraftRead-Grows first [] [] (λ i e. cc) (required_draft p.draft) drafted),
      All-append (λ j. elem (relation_ref j) y.0.read_refs ≡ true) p.conflicts (noted_conflicts x.1)
          (ConflictsRead-Grows both p.conflicts noted)
          (ConflictsRead-Grows grown (noted_conflicts x.1)
            (noted_conflicts-read x.0 x.1 conflicts)),
    ) in
    let (rest, done) =
      cover-read host request db qs y.0 (progress_with q x.1 y.1 p) r present read' h2 in
    (Grows-trans both rest, done)

All-first_of_each :
    (P : ℕ → Type 0) (seen ids : List ℕ) → All P ids → All P (first_of_each seen ids)
unfolding first_of_each
All-first_of_each P seen [] h = tt
All-first_of_each P seen (id ∷ ids) h = elim (Bool-cases (elem id seen)) [
  | inl old ↦ rw old (All-first_of_each P seen ids h.1)
  | inr new ↦ rw new (h.0, All-first_of_each P (id ∷ seen) ids h.1)
]

-- Where the evidence that claims cite is stored, what the coverage compiler compiles in a snapshot,
-- over all the requirements of a request, has a lineage that registration accepts: the capture is
-- closed and unused, it is of the projection's frontier, and its reads cover the projection's items,
-- provenance, conflicts and omissions.
pub lineage_of-compile_coverage_snapshot :
    (host : Host) (id : ℕ) (request : ContextRequest) (db : Db) (c : Capture)
    (p : ContextProjection)
    → EvidencePresent db
    → compile_coverage_snapshot host id request db ≡ ok (c, p)
    → lineage_of p [] (some c) ≡ ok (captured_lineage (record c { consumed = true }))
unfolding compile_coverage_snapshot
lineage_of-compile_coverage_snapshot host id request db c p present h =
    let (y, covering, h1) =
      >>=-eq-ok (cover host request db request.exact_requirements (open_capture db) no_progress) _
        h in
    let (q, checked, h2) =
      >>=-eq-ok (check_projection (coverage_projection host id request y.0 y.1)) _ h1 in
    let (grown, ((items, omitted), conflicts)) =
      cover-read host request db request.exact_requirements (open_capture db) no_progress y present
        ((tt, tt), tt) covering in
    let built = coverage_projection host id request y.0 y.1 in
    let accepted =
      lineage_of-closed built y.0 refl grown.consumed items
        (All-first_of_each (λ j. elem (relation_ref j) y.0.read_refs ≡ true) [] y.1.conflicts
          conflicts)
        (All-first_of_each (λ j. elem j (read_ids y.0.read_refs) ≡ true) [] y.1.draft.omitted
          omitted) in
    subst AcceptedLineage
      (ap (λ (w : ContextProjection). (close_capture y.0, w)) (check_projection-eq-ok built checked)
        ∙ ok-inj h2)
      accepted
