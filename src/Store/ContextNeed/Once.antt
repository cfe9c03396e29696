-- ===== src/Store/ContextNeed/Once.antt =====
-- One decision for each context need: registrations of
-- src/sarmady/storage/sqlite/context_need_store.py, one after another.
use sarmady.Prelude.{
  ℕ, ◌≡◌, refl, sym, ap, ◌∙◌, false, Option, none, some, List, [], ◌∷◌, ◌++◌, map, ◌==◌, elem,
  any_of, nat_eq, arith,
}
use sarmady.Outcome.{Outcome, ok, err, value_error, >>=-eq-ok, raise_if-eq-ok, ok-inj}
use sarmady.Host.{Host}
use sarmady.Context.{ContextRequest, duplicated}
use sarmady.Cognition.{ContextNeedProposal, ContextNeedDecision, check_decision}
use sarmady.Store.{Db}
use sarmady.Store.ContextNeed.{
  validate_context_need_lineage, has_decision, check_request_if, match_child, admit_if,
  write_decision, register_context_need_decision,
}
use sarmady.Store.ContextNeed.Bounds.{
  insert_decision-eq-ok, insert_new_context_request-eq-ok, admit_child-eq-ok,
}

-- The artifacts that have a decision.
abbrev pub decided : Db → List ℕ
decided db = map (λ (d : ContextNeedDecision). d.context_need_artifact_id) db.context_need_decisions

-- The database after a registration, and as it was where it raises.
abbrev pub kept : Outcome Db → Db → Db
kept (ok db') db = db'
kept (err e) db = db

unfoldable pub register_all : Host → List (ContextNeedDecision × Option ContextRequest) → Db → Db
register_all host [] db = db
register_all host ((d, child) ∷ rest) db =
    register_all host rest (kept (register_context_need_decision host d child db) db)

elem-snoc :
    (x y : ℕ) (ys : List ℕ) → elem x ys ≡ false → (x == y) ≡ false → elem x (ys ++ y ∷ []) ≡ false
elem-snoc x y [] h e = ground arith
elem-snoc x y (z ∷ ys) h e = ground (arith, elem-snoc x y ys)

duplicated-snoc :
    (xs : List ℕ) (y : ℕ)
    → duplicated xs ≡ false
    → elem y xs ≡ false
    → duplicated (xs ++ y ∷ []) ≡ false
duplicated-snoc [] y h e = refl
duplicated-snoc (x ∷ xs) y h e = ground (arith, duplicated-snoc xs y, elem-snoc x y xs)

undecided :
    (a : ℕ) (ds : List ContextNeedDecision)
    → any_of (has_decision a) ds ≡ false
    → elem a (map (λ (d : ContextNeedDecision). d.context_need_artifact_id) ds) ≡ false
undecided a [] h = refl
undecided a (d ∷ ds) h = ground (arith, undecided a ds)

map-snoc :
    (ds : List ContextNeedDecision) (d : ContextNeedDecision)
    → map (λ (e : ContextNeedDecision). e.context_need_artifact_id) (ds ++ d ∷ [])
      ≡ map (λ (e : ContextNeedDecision). e.context_need_artifact_id) ds
        ++ d.context_need_artifact_id ∷ []
map-snoc [] d = refl
map-snoc (e ∷ ds) d = ap (◌∷◌ e.context_need_artifact_id) (map-snoc ds d)

admit_if-decisions :
    (d : ContextNeedDecision) (child : Option ContextRequest)
    (lineage : ContextNeedProposal × ContextRequest) (db : Db) {db' : Db}
    → admit_if d child lineage db ≡ ok db'
    → db'.context_need_decisions ≡ db.context_need_decisions
admit_if-decisions d none lineage db h = ap (λ (q : Db). q.context_need_decisions) (sym (ok-inj h))
admit_if-decisions d (some child) (proposal, parent) db h =
    let (row, _, _, _, new) = admit_child-eq-ok d proposal parent child db h in
    let (_, added) = insert_new_context_request-eq-ok child db new in
    ap (λ (q : Db). q.context_need_decisions) (sym (ok-inj added))

write_decision-decided :
    (host : Host) (d : ContextNeedDecision) (child : Option ContextRequest) (db db' : Db)
    → write_decision host d child db ≡ ok db'
    → duplicated (decided db) ≡ false
    → duplicated (decided db') ≡ false
unfolding write_decision
write_decision-decided host d child db db' h once =
    let (undecided_yet, h1) =
      raise_if-eq-ok (any_of (has_decision d.context_need_artifact_id) db.context_need_decisions)
        (value_error "context need artifact already has a decision") _ h in
    let (lineage, _, h2) = >>=-eq-ok (validate_context_need_lineage host d db) _ h1 in
    let (db1, admitted, h3) = >>=-eq-ok (admit_if d child lineage db) _ h2 in
    let rows : db'.context_need_decisions ≡ db.context_need_decisions ++ d ∷ [] =
      ap (λ (q : Db). q.context_need_decisions) (sym (ok-inj (insert_decision-eq-ok d db1 h3)))
      ∙ ap (λ ds. ds ++ d ∷ []) (admit_if-decisions d child lineage db admitted) in
    ap (λ ds. duplicated (map (λ (e : ContextNeedDecision). e.context_need_artifact_id) ds)) rows
    ∙ ap duplicated (map-snoc db.context_need_decisions d)
    ∙ duplicated-snoc (decided db) d.context_need_artifact_id once
        (undecided d.context_need_artifact_id db.context_need_decisions undecided_yet)

register-decided :
    (host : Host) (d : ContextNeedDecision) (child : Option ContextRequest) (db db' : Db)
    → register_context_need_decision host d child db ≡ ok db'
    → duplicated (decided db) ≡ false
    → duplicated (decided db') ≡ false
unfolding register_context_need_decision
register-decided host d child db db' h once =
    let (d', _, h1) = >>=-eq-ok (check_decision host d) _ h in
    let (child', _, h2) = >>=-eq-ok (check_request_if child) _ h1 in
    let (_, _, h3) = >>=-eq-ok (match_child d'.decision d'.child_context_request_id child') _ h2 in
    write_decision-decided host d' child' db db' h3 once

kept-decided :
    (m : Outcome Db) (db : Db)
    → ((db' : Db) → m ≡ ok db' → duplicated (decided db') ≡ false)
    → duplicated (decided db) ≡ false
    → duplicated (decided (kept m db)) ≡ false
kept-decided (ok db') db k once = k db' refl
kept-decided (err e) db k once = once

-- If no artifact has two decisions in a store, none has after any sequence of registrations of
-- decisions, with or without a child request and rejected registrations included.
pub decided-register_all :
    (host : Host) (ops : List (ContextNeedDecision × Option ContextRequest)) (db : Db)
    → duplicated (decided db) ≡ false
    → duplicated (decided (register_all host ops db)) ≡ false
unfolding register_all
decided-register_all host [] db once = once
decided-register_all host ((d, child) ∷ rest) db once =
    decided-register_all host rest (kept (register_context_need_decision host d child db) db) (
      kept-decided (register_context_need_decision host d child db) db
        (λ db' e. register-decided host d child db db' e once) once)
