-- ===== src/Store/HeadMoves.antt =====
-- Where the heads of the keys are after `commit_claim_bundle` of
-- src/sarmady/storage/sqlite/epistemic_store.py.
use sarmady.Prelude.{
  ℕ, String, ◌≡◌, refl, sym, ap, ◌∙◌, Bool, true, false, Option, none, some, ◌==◌, ◌&&◌, nat_eq,
  string_eq, pair_eq, if◌then◌else◌,
}
use sarmady.Outcome.{ok, ok-inj, >>=-eq-ok, raise_if-eq-ok}
use sarmady.Time.{require_aware, require_aware_if}
use sarmady.Values.{freeze_value}
use sarmady.Memory
use sarmady.Epistemic.{
  Claim, ClaimRelation, check_event, check_evidence, check_claim, check_relation, empty_interval,
}
use sarmady.Store.{Db, claim, claim_relation, log}
use sarmady.Store.ClaimHeads.{lookup_head, claim_key}
use sarmady.Store.ClaimHeads.Table.{lookup_head-upsert_head}
use sarmady.Store.Epistemic.Checks.{
  Bundle, check_relation_if, reconstruct, validate_bundle, current_claim,
}
use sarmady.Store.Epistemic.Inserts.{insert_relation, commit_relation, moves_head, move_head}
use sarmady.Store.Epistemic.{commit_claim_bundle}
use sarmady.Store.Writes.{log-eq-ok, insert_claim-eq-ok, insert_relation-eq-ok}
use sarmady.Store.Admission.{Stages, write_bundle-Stages}

log-heads :
    (kind : sarmady.Store.LogKind) (i : ℕ) (t : sarmady.Time.DateTime) (db : Db) {db' : Db}
    → log kind i t db ≡ ok db'
    → db'.claim_heads ≡ db.claim_heads
log-heads kind i t db h =
    let (_, e) = log-eq-ok kind i t db h in ap (λ (d : Db). d.claim_heads) (sym (ok-inj e))

commit_relation-heads :
    (r : Option ClaimRelation) (db db' : Db)
    → commit_relation r db ≡ ok db'
    → db'.claim_heads ≡ db.claim_heads
unfolding commit_relation
commit_relation-heads none db db' h = ap (λ (d : Db). d.claim_heads) (sym (ok-inj h))
commit_relation-heads (some r) db db' h =
    let (mid, inserted, h1) = >>=-eq-ok (insert_relation r db) _ h in
    let (_, e) = insert_relation-eq-ok r db inserted in
    log-heads claim_relation r.id r.recorded_at mid h1
    ∙ ap (λ (d : Db). d.claim_heads) (sym (ok-inj e))

lookup_head-move_head :
    (moves : Bool) (c : Claim) (db : Db) (k : String × String)
    → lookup_head (move_head moves c db).claim_heads k
      ≡ (if moves && claim_key c == k then some c.id else lookup_head db.claim_heads k)
unfolding move_head
lookup_head-move_head true c db k = lookup_head-upsert_head (claim_key c) k c.id db.claim_heads
lookup_head-move_head false c db k = refl

module _ (b : Bundle) (db db' : Db) (s : Stages b db db') where
  heads_before : s.with_link.claim_heads ≡ db.claim_heads
  heads_before =
      let (_, e) = insert_claim-eq-ok b.claim s.start s.inserted in
      commit_relation-heads b.relation s.with_entry s.with_link s.linked
      ∙ log-heads claim b.claim.id b.claim.recorded_at s.with_row s.entered
      ∙ ap (λ (d : Db). d.claim_heads) (sym (ok-inj e))
      ∙ s.before_claim.heads

  lookup_head-Stages :
      (k : String × String)
      → lookup_head db'.claim_heads k ≡ (
          if moves_head (current_claim db b.claim.subject b.claim.predicate) b.relation
            && claim_key b.claim == k
          then some b.claim.id
          else lookup_head db.claim_heads k)
  lookup_head-Stages k =
      ap (λ heads. lookup_head heads k) s.after_head.heads
      ∙ lookup_head-move_head
          (moves_head (current_claim db b.claim.subject b.claim.predicate) b.relation) b.claim
          s.with_link k
      ∙ ap
          (λ heads.
            if moves_head (current_claim db b.claim.subject b.claim.predicate) b.relation
              && claim_key b.claim == k
            then some b.claim.id
            else lookup_head heads k)
          heads_before

pub check_claim-same :
    (c : Claim) {d : Claim} → check_claim c ≡ ok d → (d.id ≡ c.id) × (claim_key d ≡ claim_key c)
unfolding check_claim
check_claim-same c h =
    let (_, h1) = raise_if-eq-ok (c.subject == "") _ _ h in
    let (_, h2) = raise_if-eq-ok (c.predicate == "") _ _ h1 in
    let (_, _, h3) = >>=-eq-ok (require_aware c.recorded_at) _ h2 in
    let (_, _, h4) = >>=-eq-ok (require_aware_if c.valid_from) _ h3 in
    let (_, _, h5) = >>=-eq-ok (require_aware_if c.valid_to) _ h4 in
    let (_, h6) = raise_if-eq-ok (empty_interval c.valid_from c.valid_to) _ _ h5 in
    let (_, _, h7) = >>=-eq-ok (freeze_value c.value) _ h6 in
    (ap (λ (d : Claim). d.id) (sym (ok-inj h7)), ap (λ (d : Claim). claim_key d) (sym (ok-inj h7)))

pub check_relation-same : (r : ClaimRelation) {q : ClaimRelation} → check_relation r ≡ ok q → q ≡ r
unfolding check_relation
check_relation-same r h =
    let (_, h1) = raise_if-eq-ok (r.source_claim_id == r.target_claim_id) _ _ h in
    let (_, _, h2) = >>=-eq-ok (require_aware r.recorded_at) _ h1 in sym (ok-inj h2)

check_relation_if-same :
    (r : Option ClaimRelation) {q : Option ClaimRelation} → check_relation_if r ≡ ok q → q ≡ r
check_relation_if-same none h = sym (ok-inj h)
check_relation_if-same (some r) h =
    let (q, checked, e) = >>=-eq-ok (check_relation r) _ h in
    sym (ok-inj e) ∙ ap some (check_relation-same r checked)

-- What the constructors of a bundle leave as it is.
reconstruct-same :
    (b : Bundle) {b' : Bundle}
    → reconstruct b ≡ ok b'
    → (b'.claim.id ≡ b.claim.id)
      × (claim_key b'.claim ≡ claim_key b.claim)
      × (b'.relation ≡ b.relation)
unfolding reconstruct
reconstruct-same b h =
    let (_, _, h1) = >>=-eq-ok (check_event b.event) _ h in
    let (_, _, h2) = >>=-eq-ok (check_evidence b.evidence) _ h1 in
    let (c, checked, h3) = >>=-eq-ok (check_claim b.claim) _ h2 in
    let (_, _, h4) = >>=-eq-ok (Memory.check_entry b.memory) _ h3 in
    let (r, related, h5) = >>=-eq-ok (check_relation_if b.relation) _ h4 in
    let (id, key) = check_claim-same b.claim checked in
    let built = sym (ok-inj h5) in
    (
      ap (λ (d : Bundle). d.claim.id) built ∙ id,
      ap (λ (d : Bundle). claim_key d.claim) built ∙ key,
      ap (λ (d : Bundle). d.relation) built ∙ check_relation_if-same b.relation related,
    )

-- The head of a key after a claim of identifier `id` was committed under the key `own`.
abbrev pub head_after : Db → String × String → ℕ → Option ClaimRelation → String × String → Option ℕ
head_after db own id relation k =
    if moves_head (current_claim db own.0 own.1) relation && own == k
    then some id
    else lookup_head db.claim_heads k

-- After a committed bundle the head of the claim's key is the claim, if the key had no current claim
-- or the relation moves heads (CORRECTS, SUPERSEDES); the head of every other key, and of this key
-- in the other cases, is what it was.
pub lookup_head-commit_claim_bundle :
    (uuid_text : ℕ → String) (event_id : ℕ) (b : Bundle) (db db' : Db) (k : String × String)
    → commit_claim_bundle uuid_text event_id b db ≡ ok db'
    → lookup_head db'.claim_heads k ≡ head_after db (claim_key b.claim) b.claim.id b.relation k
unfolding commit_claim_bundle
lookup_head-commit_claim_bundle uuid_text event_id b db db' k h =
    let (b', rebuilt, h1) = >>=-eq-ok (reconstruct b) _ h in
    let (_, _, h2) = >>=-eq-ok (validate_bundle b') _ h1 in
    let (id, key, relation) = reconstruct-same b rebuilt in
    lookup_head-Stages b' db db' (write_bundle-Stages uuid_text event_id b' db db' h2) k
    ∙ ap (λ own. head_after db own b'.claim.id b'.relation k) key
    ∙ ap (λ i. head_after db (claim_key b.claim) i b'.relation k) id
    ∙ ap (λ r. head_after db (claim_key b.claim) b.claim.id r k) relation
