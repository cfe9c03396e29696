-- ===== src/Store/Admission.antt =====
-- Every write to the canonical rows keeps the materialised heads in agreement with them.
use mathlib.Core.Path.{subst}
use sarmady.Prelude.{
  ℕ, ◌≡◌, refl, sym, ap, ◌∙◌, true, false, Option, none, some, [], ◌∷◌, ◌++◌, String, arith, any_of,
  is_some, find-passes, nat_eq, string_eq, ◌==◌, Bool-cases, Option-cases, inl, inr,
}
use sarmady.Outcome.{ok, >>=-eq-ok}
use sarmady.Epistemic.{Claim, ClaimRelation}
use sarmady.Store.{
  Db, event, evidence, claim, claim_relation, memory_entry, is_entry,
  invalidate_projection_dependencies, log, logged, frontier, claim_by_id, relation_by_id,
}
use sarmady.Store.Resolution.{is_head_moving}
use sarmady.Store.ClaimHeads.{lookup_head, claim_key}
use sarmady.Store.ClaimHeads.Agreement.{HeadsAgree, Agree-admit}
use sarmady.Store.ClaimHeads.Revision.{Agree-revise}
use sarmady.Store.Resolution.Moments.{in_rows-claim_by_id}
use sarmady.Store.Epistemic.Checks.{
  Bundle, current_claim, check_current, reconstruct, validate_bundle,
}
use sarmady.Store.Epistemic.Inserts.{
  insert_claim, insert_relation, commit_relation, moves_head, move_head,
}
use sarmady.Store.Epistemic.{creation_event, write_bundle, commit_claim_bundle}
use sarmady.Store.Epistemic.Written.{current_for, write_bundle-Written}
use sarmady.Store.Writes.{
  log-eq-ok, insert_event-eq-ok, insert_evidence-eq-ok, insert_claim-eq-ok, insert_relation-eq-ok,
  insert_memory_entry-eq-ok,
}
use sarmady.Store.Quiet.{
  Quiet, Quiet-same, Quiet-ok, Quiet-trans, Quiet-HeadsAgree, Quiet-log,
  Quiet-record_memory_event_in_tx,
}

-- Where the heads agree, no current claim means no head, and the current claim is the head's.
current_claim-none :
    (db : Db) (s p : String)
    → HeadsAgree db
    → current_claim db s p ≡ none
    → lookup_head db.claim_heads (s, p) ≡ none
unfolding current_claim
current_claim-none db s p g h = elim (Option-cases (lookup_head db.claim_heads (s, p))) [
  | inl vacant ↦ vacant
  | inr (i, found) ↦
      let there =
        in_rows-claim_by_id db.claims s p none db.semantic_log i (g.present s p i found) in
      let gone : claim_by_id db.claims i ≡ none = ground arith in cc (there, ap is_some gone)
]

current_claim-some :
    (db : Db) (s p : String) (c : Claim)
    → current_claim db s p ≡ some c
    → lookup_head db.claim_heads (s, p) ≡ some c.id
unfolding current_claim
current_claim-some db s p c h = elim (Option-cases (lookup_head db.claim_heads (s, p))) [
  | inl vacant ↦ ground arith
  | inr (i, found) ↦
      let there : claim_by_id db.claims i ≡ some c = ground arith in
      ground (arith, find-passes (λ (x : Claim). x.id == i) db.claims c there)
]

-- What the checks against the current claim leave.
data Checked (c : Claim) : Option Claim → Option ClaimRelation → Type 0 where
  first : Checked c none none
  revision :
      (old : Claim) (r : ClaimRelation)
      → r.source_claim_id ≡ c.id
      → r.target_claim_id ≡ old.id
      → Checked c (some old) (some r)

check_current-Checked :
    (c : Claim) (current : Option Claim) (relation : Option ClaimRelation)
    → check_current current c relation ≡ ok tt
    → Checked c current relation
unfolding check_current
check_current-Checked c none none h = first
check_current-Checked c none (some r) h = cc
check_current-Checked c (some old) none h = absurd (ground arith)
check_current-Checked c (some old) (some r) h = revision old r (ground arith) (ground arith)

abbrev with_claim : Claim → Db → Db
with_claim c db = logged claim c.id c.recorded_at (record db { claims = db.claims ++ c ∷ [] })

abbrev with_relation : ClaimRelation → Db → Db
with_relation r db =
    logged claim_relation r.id r.recorded_at
      (record db { claim_relations = db.claim_relations ++ r ∷ [] })

first-HeadsAgree :
    (c : Claim) (db : Db)
    → HeadsAgree db
    → lookup_head db.claim_heads (claim_key c) ≡ none
    → claim_by_id db.claims c.id ≡ none
    → any_of (is_entry claim c.id) db.semantic_log ≡ false
    → HeadsAgree (move_head true c (with_claim c db))
unfolding move_head frontier
first-HeadsAgree c db g vacant new unlogged = Agree-admit c c.recorded_at g new unlogged vacant

revision-HeadsAgree :
    (c old : Claim) (r : ClaimRelation) (db : Db)
    → HeadsAgree db
    → lookup_head db.claim_heads (claim_key c) ≡ some old.id
    → claim_by_id db.claims c.id ≡ none
    → any_of (is_entry claim c.id) db.semantic_log ≡ false
    → r.source_claim_id ≡ c.id
    → r.target_claim_id ≡ old.id
    → relation_by_id db.claim_relations r.id ≡ none
    → any_of (is_entry claim_relation r.id) (with_claim c db).semantic_log ≡ false
    → HeadsAgree (move_head (is_head_moving r.kind) c (with_relation r (with_claim c db)))
unfolding move_head frontier
revision-HeadsAgree c old r db g standing new unlogged s t new_relation unlogged_relation =
    let agreed =
      Agree-revise c r c.recorded_at r.recorded_at old.id g new unlogged standing s t new_relation
        unlogged_relation in
    elim (Bool-cases (is_head_moving r.kind)) [
      | inl moving ↦ rw moving (rw moving at agreed)
      | inr still ↦ rw still (rw still at agreed)
    ]

-- The middle of the transaction, from the claim's row to the moved head.
admit-HeadsAgree :
    (c : Claim) (relation : Option ClaimRelation) (current : Option Claim) (db db1 db2 db3 : Db)
    → HeadsAgree db
    → current_claim db c.subject c.predicate ≡ current
    → Checked c current relation
    → insert_claim c db ≡ ok db1
    → log claim c.id c.recorded_at db1 ≡ ok db2
    → commit_relation relation db2 ≡ ok db3
    → HeadsAgree (move_head (moves_head current relation) c db3)
unfolding commit_relation
admit-HeadsAgree c _ _ db db1 db2 db3 g now first h1 h2 h3 =
    let (new, e1) = insert_claim-eq-ok c db h1 in
    let (unlogged, e2) = log-eq-ok claim c.id c.recorded_at db1 h2 in
    let p1 : record db { claims = db.claims ++ c ∷ [] } ≡ db1 = cc in
    let p2 : with_claim c db ≡ db3 = ap (logged claim c.id c.recorded_at) p1 ∙ cc in
    subst (λ d. HeadsAgree (move_head true c d)) p2
      (first-HeadsAgree c db g (current_claim-none db c.subject c.predicate g now) new
        (subst (λ (d : Db). any_of (is_entry claim c.id) d.semantic_log ≡ false) (sym p1) unlogged))
admit-HeadsAgree c _ _ db db1 db2 db3 g now (revision old r s t) h1 h2 h3 =
    let (new, e1) = insert_claim-eq-ok c db h1 in
    let (unlogged, e2) = log-eq-ok claim c.id c.recorded_at db1 h2 in
    let (mid, i3, h4) = >>=-eq-ok (insert_relation r db2) _ h3 in
    let (new_relation, e3) = insert_relation-eq-ok r db2 i3 in
    let (unlogged_relation, e4) = log-eq-ok claim_relation r.id r.recorded_at mid h4 in
    let p1 : record db { claims = db.claims ++ c ∷ [] } ≡ db1 = cc in
    let p2 : with_claim c db ≡ db2 = ap (logged claim c.id c.recorded_at) p1 ∙ cc in
    let p3 : record db2 { claim_relations = db2.claim_relations ++ r ∷ [] } ≡ mid = cc in
    let p4 : with_relation r (with_claim c db) ≡ db3 =
      ap (with_relation r) p2 ∙ ap (logged claim_relation r.id r.recorded_at) p3 ∙ cc in
    subst (λ d. HeadsAgree (move_head (is_head_moving r.kind) c d)) p4
      (revision-HeadsAgree c old r db g (current_claim-some db c.subject c.predicate old now) new
        (subst (λ (d : Db). any_of (is_entry claim c.id) d.semantic_log ≡ false) (sym p1) unlogged)
        s t (subst (λ (d : Db). relation_by_id d.claim_relations r.id ≡ none) (sym p2) new_relation)
        (subst (λ (d : Db). any_of (is_entry claim_relation r.id) d.semantic_log ≡ false) (sym p2)
          (subst (λ (d : Db). any_of (is_entry claim_relation r.id) d.semantic_log ≡ false) (sym p3)
            unlogged_relation)))

Quiet-current_claim :
    {a b : Db} → Quiet a b → (s p : String) → current_claim b s p ≡ current_claim a s p
unfolding current_claim
Quiet-current_claim q s p = rw (q.heads, q.claims)

Quiet-invalidate :
    (key reason : String) (db : Db) → Quiet db (invalidate_projection_dependencies key reason db)
unfolding invalidate_projection_dependencies
Quiet-invalidate key reason db = Quiet-same refl refl refl refl

-- The stages of a bundle's transaction: what comes before the claim's row and after the moved head
-- is quiet.
pub record Stages (b : Bundle) (db db' : Db) : Type 0 where
  pub start : Db
  pub with_row : Db
  pub with_entry : Db
  pub with_link : Db
  pub before_claim : Quiet db start
  pub checked :
      check_current (current_claim db b.claim.subject b.claim.predicate) b.claim b.relation ≡ ok tt
  pub inserted : insert_claim b.claim start ≡ ok with_row
  pub entered : log claim b.claim.id b.claim.recorded_at with_row ≡ ok with_entry
  pub linked : commit_relation b.relation with_entry ≡ ok with_link
  pub after_head :
      Quiet
        (move_head
          (moves_head (current_claim db b.claim.subject b.claim.predicate) b.relation)
          b.claim
          with_link)
        db'

pub write_bundle-Stages :
    (uuid_text : ℕ → String) (event_id : ℕ) (b : Bundle) (db db' : Db)
    → write_bundle uuid_text event_id b db ≡ ok db'
    → Stages b db db'
write_bundle-Stages uuid_text event_id b db db' h =
    let w = write_bundle-Written uuid_text event_id b db db' h in
    let db8 = move_head (moves_head (current_for db b) b.relation) b.claim w.db7 in
    let before_claim : Quiet db w.db4 =
      Quiet-trans
        (Quiet-ok (insert_event-eq-ok b.event db w.wrote1) (Quiet-same refl refl refl refl))
        (Quiet-trans (Quiet-log event b.event.id b.event.recorded_at w.db1 refl refl w.wrote2) (
          Quiet-trans
            (Quiet-ok (insert_evidence-eq-ok b.evidence w.db2 w.wrote3)
              (Quiet-same refl refl refl refl))
            (Quiet-log evidence b.evidence.id b.event.recorded_at w.db3 refl refl w.wrote4))) in
    let after_head : Quiet db8 db' =
      Quiet-trans
        (Quiet-ok (insert_memory_entry-eq-ok b.memory db8 w.wrote9)
          (Quiet-same refl refl refl refl))
        (Quiet-trans
          (Quiet-log memory_entry b.memory.id b.memory.created_at w.db9 refl refl w.wrote10)
          (Quiet-trans
            (Quiet-record_memory_event_in_tx uuid_text (creation_event event_id b.memory) false
              w.db10 w.wrote11)
            (Quiet-ok w.returned (Quiet-invalidate _ _ w.db11)))) in
    record {
      start = w.db4;
      with_row = w.db5;
      with_entry = w.db6;
      with_link = w.db7;
      before_claim = before_claim;
      checked = w.checked;
      inserted = w.wrote5;
      entered = w.wrote6;
      linked = w.wrote7;
      after_head = after_head;
    }

write_bundle-HeadsAgree :
    (uuid_text : ℕ → String) (event_id : ℕ) (b : Bundle) (db db' : Db)
    → HeadsAgree db
    → write_bundle uuid_text event_id b db ≡ ok db'
    → HeadsAgree db'
write_bundle-HeadsAgree uuid_text event_id b db db' g h =
    let s = write_bundle-Stages uuid_text event_id b db db' h in
    let current = current_claim db b.claim.subject b.claim.predicate in
    Quiet-HeadsAgree s.after_head (
      admit-HeadsAgree b.claim b.relation current s.start s.with_row s.with_entry s.with_link
        (Quiet-HeadsAgree s.before_claim g) (Quiet-current_claim s.before_claim _ _)
        (check_current-Checked b.claim current b.relation s.checked) s.inserted s.entered s.linked)

-- A committed bundle keeps the table of heads in agreement with the canonical rows: if every key's
-- entry in `claim_heads` is the head that `head_for_key` replays from the claims, the relations
-- and the log (and heads are claims of their key, and relations join known claims), then so it is
-- after `commit_claim_bundle` has returned.
pub commit_claim_bundle-HeadsAgree :
    (uuid_text : ℕ → String) (event_id : ℕ) (b : Bundle) (db db' : Db)
    → HeadsAgree db
    → commit_claim_bundle uuid_text event_id b db ≡ ok db'
    → HeadsAgree db'
unfolding commit_claim_bundle
commit_claim_bundle-HeadsAgree uuid_text event_id b db db' g h =
    let (b', _, h1) = >>=-eq-ok (reconstruct b) _ h in
    let (_, _, h2) = >>=-eq-ok (validate_bundle b') _ h1 in
    write_bundle-HeadsAgree uuid_text event_id b' db db' g h2
