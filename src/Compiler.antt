-- ===== src/Compiler.antt =====
-- src/sarmady/context/compiler.py and coverage.py: what the two compilers share. Both walk the
-- operative claim and its competitors, then the evidence of each, through the reads of a captured
-- snapshot. `strict` is the coverage compiler's walk, which counts two more gaps.
pub mod Exact
pub mod Coverage
pub mod Walk
pub mod Reads
pub mod Steps
pub mod Lineage
pub mod Accepted
use Prim.Native.String.{◌++◌ as append}
use sarmady.Prelude.{
  ℕ, String, Bool, true, false, not, Option, none, some, List, [], ◌∷◌, ◌++◌, map, ◌==◌, ◌&&◌, ◌||◌,
  Eq, elem, nat_eq, string_eq, pair_eq, if◌then◌else◌,
}
use sarmady.Outcome.{Outcome, ok, ◌>>=◌}
use sarmady.Time.{DateTime}
use sarmady.Host.{Host}
use sarmady.Epistemic.{
  Claim, Evidence, ResolvedState, ResolutionStatus, missing, resolved, contested,
}
use sarmady.Memory.{MemoryEntry}
use sarmady.Context.{ContextItem}
use sarmady.Store.{Db}
use sarmady.Store.Capture.{
  Ref, Capture, captured_claim, captured_evidence, captured_memory_entry, captured_is_active,
}

-- The lists that a compiler fills; `seen` is its set of references.
pub record Draft : Type 0 where
  pub items : List ContextItem
  pub gaps : List String
  pub omitted : List ℕ
  pub seen : List Ref

abbrev pub empty_draft : Draft
empty_draft = record { items = []; gaps = []; omitted = []; seen = [] }

abbrev pub gap : String → Draft → Draft
gap text d = record d { gaps = d.gaps ++ text ∷ [] }

abbrev pub gap_at : Host → String → ℕ → Draft → Draft
gap_at host text id d = gap (append text (host.uuid_text id)) d

abbrev pub omit : ℕ → Draft → Draft
omit id d = record d { omitted = d.omitted ++ id ∷ [] }

-- `if key not in seen_refs: items.append(…); seen_refs.add(key)`
unfoldable pub add_item : ContextItem → Draft → Draft
add_item i d =
    if elem (i.ref_type, i.ref_id) d.seen
    then d
    else record d { items = d.items ++ i ∷ []; seen = d.seen ++ (i.ref_type, i.ref_id) ∷ [] }

abbrev pub claim_item : Claim → String → ContextItem
claim_item c role = record {
  ref_type = "Claim";
  ref_id = c.id;
  role = role;
  provenance_refs = c.evidence_refs;
}

abbrev pub evidence_item : ℕ → ContextItem
evidence_item id = record {
  ref_type = "Evidence";
  ref_id = id;
  role = "provenance";
  provenance_refs = id ∷ [];
}

abbrev pub add_evidence : Host → ℕ → Option Evidence → Draft → Draft
add_evidence host id none d = gap_at host "missing-evidence:" id d
add_evidence host id (some e) d = add_item (evidence_item id) d

unfoldable pub include_evidence : Host → Db → List ℕ → Capture → Draft → Outcome (Capture × Draft)
include_evidence host db [] c d = ok (c, d)
include_evidence host db (id ∷ ids) c d = do
  (c', e) ← captured_evidence id db c
  include_evidence host db ids c' (add_evidence host id e d)

-- `if not claim.evidence_refs`, in the coverage compiler only
abbrev pub without_evidence : Host → Bool → ℕ → List ℕ → Draft → Draft
without_evidence host true id [] d = gap_at host "claim-without-evidence:" id d
without_evidence host _ id _ d = d

abbrev pub include_active :
    Host → Bool → String → Db → Claim → Bool → Capture → Draft → Outcome (Capture × Draft)
include_active host strict role db v false c d =
    ok (c, omit v.id (gap_at host "claim-memory-not-active:" v.id d))
include_active host strict role db v true c d =
    include_evidence host db v.evidence_refs c
      (without_evidence host strict v.id v.evidence_refs (add_item (claim_item v role) d))

abbrev pub include_admitted :
    Host
    → Bool
    → String
    → Db
    → Claim
    → Option MemoryEntry
    → Capture
    → Draft
    → Outcome (Capture × Draft)
include_admitted host strict role db v none c d =
    ok (c, omit v.id (gap_at host "claim-not-admitted-to-memory:" v.id d))
include_admitted host strict role db v (some m) c d = do
  (c', active) ← captured_is_active host.uuid_text "Claim" v.id db c
  include_active host strict role db v active c' d

abbrev pub include_found :
    Host → Bool → String → Db → ℕ → Option Claim → Capture → Draft → Outcome (Capture × Draft)
include_found host strict role db id none c d = ok (c, gap_at host "missing-claim:" id d)
include_found host strict role db id (some v) c d = do
  (c', m) ← captured_memory_entry host.uuid_text "Claim" v.id db c
  include_admitted host strict role db v m c' d

unfoldable pub include_claim :
    Host → Bool → String → Db → ℕ → Capture → Draft → Outcome (Capture × Draft)
include_claim host strict role db id c d = do
  (c', found) ← captured_claim id db c
  include_found host strict role db id found c' d

unfoldable pub include_competing :
    Host → Bool → Db → List ℕ → Capture → Draft → Outcome (Capture × Draft)
include_competing host strict db [] c d = ok (c, d)
include_competing host strict db (id ∷ ids) c d = do
  (c', d') ← include_claim host strict "counterevidence" db id c d
  include_competing host strict db ids c' d'

-- an operative claim that is not there: skipped, or a gap of the coverage compiler
abbrev pub include_operative :
    Host → Bool → String → Db → Option ℕ → Capture → Draft → Outcome (Capture × Draft)
include_operative host strict role db (some id) c d = include_claim host strict role db id c d
include_operative host true role db none c d = ok (c, gap "missing-operative-claim" d)
include_operative host false role db none c d = ok (c, d)

-- The loop over `[state.operative_claim_id, *state.competing_claim_ids]`.
unfoldable pub include_claims :
    Host → Bool → String → Db → ResolvedState → Capture → Draft → Outcome (Capture × Draft)
include_claims host strict role db state c d = do
  (c', d') ← include_operative host strict role db state.operative_claim_id c d
  include_competing host strict db state.competing_claim_ids c' d'

abbrev pub is_missing : ResolutionStatus → Bool
is_missing missing = true
is_missing resolved = false
is_missing contested = false

-- `"|".join(parts)`
unfoldable pub join : List String → String
join [] = ""
join (s ∷ []) = s
join (s ∷ t ∷ ss) = append s (append "|" (join (t ∷ ss)))

abbrev pub time_text : Host → Option DateTime → String
time_text host none = ""
time_text host (some t) = host.isoformat t

abbrev pub item_text : Host → ContextItem → String
item_text host i =
    append i.ref_type (append ":" (append (host.uuid_text i.ref_id) (append ":" i.role)))

abbrev pub conflict_text : Host → ℕ → String
conflict_text host id = append "conflict:" (host.uuid_text id)

abbrev pub digest : Host → List String → String
digest host parts = append "sha256:" (host.sha256 (join parts))
