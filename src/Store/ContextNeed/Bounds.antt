-- ===== src/Store/ContextNeed/Bounds.antt =====
-- What an accepted context need may ask for: the guards of
-- src/sarmady/storage/sqlite/context_need_store.py, and the row that they let through.
use mathlib.Core.Path.{subst}
use sarmady.Prelude.{
  ℕ, ltb_ℤ, String, ◌≡◌, refl, sym, ap, ◌∙◌, Bool, true, false, not, Option, none, some, [], ◌∷◌,
  ◌++◌, ◌==◌, any_of, nat_eq, string_eq, eq_of_test, eq_self, arith, find-snoc_hit,
}
use sarmady.Outcome.{Outcome, ok, value_error, or_raise, >>=-eq-ok, raise_if-eq-ok, ok-inj}
use sarmady.Host.{Host}
use sarmady.Context.{ContextRequest, check_request, not_positive}
use sarmady.Cognition.{
  ContextNeedProposal, ContextNeedDecision, GeneratedArtifact, check_decision, context_need_kind,
}
use sarmady.Cognition.ContextNeed.{deserialize}
use sarmady.Store.{Db, ProjectionRow, projection_by_id, request_by_id}
use sarmady.Store.Cognitive.{artifact_by_id}
use sarmady.Store.ContextNeed.{
  same_texts, is_empty, parent_latency, check_latency, validate_child_context_request,
  validate_context_need_lineage, read_context_need, follow_lineage, insert_new_context_request,
  admit_child, has_decision, insert_decision, check_request_if, match_child, admit_if,
  write_decision, register_context_need_decision,
}

-- The child asks for no more than the parent and the proposal allow.
pub record Bounded (parent child : ContextRequest) (proposal : ContextNeedProposal) : Type 0 where
  pub new_id : (child.id == parent.id) ≡ false
  pub query : child.query ≡ proposal.query
  pub labels : same_texts child.coverage_requirements proposal.coverage_requirements ≡ true
  pub no_exact : is_empty child.exact_requirements ≡ true
  pub tokens_positive : not_positive child.token_budget ≡ false
  pub tokens : ltb_ℤ parent.token_budget child.token_budget ≡ false
  pub latency : check_latency (parent_latency parent) child.latency_budget_ms ≡ ok tt

holds : (t : Bool) → not t ≡ false → t ≡ true
holds true h = refl
holds false h = cc

unit_ok : (u : Unit {0}) {m : Outcome (Unit {0})} → m ≡ ok u → m ≡ ok tt
unit_ok tt h = h

pub validate_child-Bounded :
    (parent child : ContextRequest) (proposal : ContextNeedProposal) {u : Unit {0}}
    → validate_child_context_request parent child proposal ≡ ok u
    → Bounded parent child proposal
unfolding validate_child_context_request
validate_child-Bounded parent child proposal {u} h = record {
  new_id = ground arith;
  query = eq_of_test child.query proposal.query (ground arith);
  labels = ground arith;
  no_exact = ground arith;
  tokens_positive = ground arith;
  tokens = ground arith;
  latency = unit_ok u (ground arith);
}

pub check_request-eq-ok : (r : ContextRequest) {q : ContextRequest} → check_request r ≡ ok q → q ≡ r
unfolding check_request
check_request-eq-ok r h = ground arith

pub check_decision-eq-ok :
    (host : Host) (d : ContextNeedDecision) {e : ContextNeedDecision}
    → check_decision host d ≡ ok e
    → (e ≡ d)
unfolding check_decision
check_decision-eq-ok host d h = ground arith

or_raise-eq-ok {ℓ} :
    {A : Type ℓ} (o : Option A) (message : String) {a : A}
    → or_raise o (value_error message) ≡ ok a
    → o ≡ some a
or_raise-eq-ok none m h = cc
or_raise-eq-ok (some b) m h = ap some (ok-inj h)

read_context_need-eq-ok :
    (host : Host) (id : ℕ) (db : Db) {r : GeneratedArtifact × ContextNeedProposal}
    → read_context_need host id db ≡ ok r
    → (artifact_by_id db.generated_artifacts id ≡ some r.0)
      × (r.0.artifact_kind ≡ context_need_kind)
      × (deserialize host r.0.content ≡ ok r.1)
unfolding read_context_need
read_context_need-eq-ok host id db {r} h =
    (ground arith, eq_of_test r.0.artifact_kind context_need_kind (ground arith), ground arith)

follow_lineage-eq-ok :
    (d : ContextNeedDecision) (a : GeneratedArtifact) (db : Db) {parent : ContextRequest}
    → follow_lineage d a db ≡ ok parent
    → (a.invocation_id ≡ d.parent_invocation_id)
      × (request_by_id db.context_requests d.parent_context_request_id ≡ some parent)
unfolding follow_lineage
follow_lineage-eq-ok d a db h =
    (eq_of_test a.invocation_id d.parent_invocation_id (ground arith), ground arith)

pub insert_new_context_request-eq-ok :
    (r : ContextRequest) (db : Db) {db' : Db}
    → insert_new_context_request r db ≡ ok db'
    → (request_by_id db.context_requests r.id ≡ none)
      × (ok (record db { context_requests = db.context_requests ++ r ∷ [] }) ≡ ok db')
unfolding insert_new_context_request
insert_new_context_request-eq-ok r db h = ground arith

pub insert_decision-eq-ok :
    (d : ContextNeedDecision) (db : Db) {db' : Db}
    → insert_decision d db ≡ ok db'
    → (ok (record db { context_need_decisions = db.context_need_decisions ++ d ∷ [] }) ≡ ok db')
unfolding insert_decision
insert_decision-eq-ok d db h = ground arith

pub admit_child-eq-ok :
    (d : ContextNeedDecision) (proposal : ContextNeedProposal) (parent child : ContextRequest)
    (db : Db) {db' : Db}
    → admit_child d proposal parent child db ≡ ok db'
    → (row : ProjectionRow) × (projection_by_id db.context_projections
          d.parent_context_projection_id
        ≡ some row)
      × (row.stale ≡ false)
      × Bounded parent child proposal
      × (insert_new_context_request child db ≡ ok db')
unfolding admit_child
admit_child-eq-ok d proposal parent child db h =
    let (row, found, h1) =
      >>=-eq-ok
        (or_raise (projection_by_id db.context_projections d.parent_context_projection_id)
          (value_error "unknown parent context projection"))
        _ h in
    let (fresh, h2) =
      raise_if-eq-ok row.stale
        (value_error "cannot accept context need from a stale context projection") _ h1 in
    let (u, checked, h3) = >>=-eq-ok (validate_child_context_request parent child proposal) _ h2 in
    (row, or_raise-eq-ok _ _ found, fresh, validate_child-Bounded parent child proposal checked, h3)

-- What a decision that the store accepts with a child request has established and written.
pub record Granted (host : Host) (d : ContextNeedDecision) (child : ContextRequest) (db db' : Db)
    : Type 0 where
  pub artifact : GeneratedArtifact
  pub proposal : ContextNeedProposal
  pub parent : ContextRequest
  pub row : ProjectionRow
  pub proposed : artifact_by_id db.generated_artifacts d.context_need_artifact_id ≡ some artifact
  pub kind : artifact.artifact_kind ≡ context_need_kind
  pub read : deserialize host artifact.content ≡ ok proposal
  pub from_invocation : artifact.invocation_id ≡ d.parent_invocation_id
  pub of_parent : request_by_id db.context_requests d.parent_context_request_id ≡ some parent
  pub of_projection :
      projection_by_id db.context_projections d.parent_context_projection_id ≡ some row
  pub fresh : row.stale ≡ false
  pub bounded : Bounded parent child proposal
  pub unused : request_by_id db.context_requests child.id ≡ none
  pub stored : request_by_id db'.context_requests child.id ≡ some child
  pub decided : db'.context_need_decisions ≡ db.context_need_decisions ++ d ∷ []

-- the database after the child and the decision
abbrev pub granted : ContextNeedDecision → ContextRequest → Db → Db
granted d child db = record db {
  context_requests = db.context_requests ++ child ∷ [];
  context_need_decisions = db.context_need_decisions ++ d ∷ [];
}

written :
    (host : Host) (d : ContextNeedDecision) (child : ContextRequest) (db db' : Db) {db1 : Db}
    (need : GeneratedArtifact × ContextNeedProposal) (parent : ContextRequest)
    → read_context_need host d.context_need_artifact_id db ≡ ok need
    → follow_lineage d need.0 db ≡ ok parent
    → admit_child d need.1 parent child db ≡ ok db1
    → insert_decision d db1 ≡ ok db'
    → Granted host d child db db'
written host d child db db' {db1} need parent proposed followed admitted inserted =
    let (found, kind, read) = read_context_need-eq-ok host d.context_need_artifact_id db proposed in
    let (invoked, of_parent) = follow_lineage-eq-ok d need.0 db followed in
    let (row, of_projection, fresh, bounded, new) =
      admit_child-eq-ok d need.1 parent child db admitted in
    let (unused, added) = insert_new_context_request-eq-ok child db new in
    let after : granted d child db ≡ db' =
      ap (λ (q : Db). record q { context_need_decisions = q.context_need_decisions ++ d ∷ [] })
        (ok-inj added)
      ∙ ok-inj (insert_decision-eq-ok d db1 inserted) in
    record {
      artifact = need.0;
      proposal = need.1;
      parent = parent;
      row = row;
      proposed = found;
      kind = kind;
      read = read;
      from_invocation = invoked;
      of_parent = of_parent;
      of_projection = of_projection;
      fresh = fresh;
      bounded = bounded;
      unused = unused;
      stored =
          subst (λ (q : Db). request_by_id q.context_requests child.id ≡ some child) after
            (find-snoc_hit (λ r. r.id == child.id) db.context_requests child (eq_self child.id)
              unused);
      decided = sym (ap (λ (q : Db). q.context_need_decisions) after);
    }

write_decision-Granted :
    (host : Host) (d : ContextNeedDecision) (child : ContextRequest) (db db' : Db)
    → write_decision host d (some child) db ≡ ok db'
    → Granted host d child db db'
unfolding write_decision validate_context_need_lineage
write_decision-Granted host d child db db' h =
    let (_, h1) =
      raise_if-eq-ok (any_of (has_decision d.context_need_artifact_id) db.context_need_decisions)
        (value_error "context need artifact already has a decision") _ h in
    let (lineage, linked, h2) = >>=-eq-ok (validate_context_need_lineage host d db) _ h1 in
    let (need, proposed, h3) =
      >>=-eq-ok (read_context_need host d.context_need_artifact_id db) _ linked in
    let (parent, followed, h4) = >>=-eq-ok (follow_lineage d need.0 db) _ h3 in
    let (db1, admitted, h5) = >>=-eq-ok (admit_if d (some child) lineage db) _ h2 in
    written host d child db db' need parent proposed followed
      (subst (λ l. admit_if d (some child) l db ≡ ok db1) (sym (ok-inj h4)) admitted) h5

-- A decision that is accepted with a child request rests on a stored context-need artifact of its
-- invocation that reads back to a proposal, and on a projection that is not stale; the child has an
-- identifier that no request had, the query and labels of the proposal, no exact requirements, a
-- positive token budget within the parent's and a latency budget within a positive one of the
-- parent's; the child and the decision are stored.
pub register_context_need_decision-Granted :
    (host : Host) (d : ContextNeedDecision) (child : ContextRequest) (db db' : Db)
    → register_context_need_decision host d (some child) db ≡ ok db'
    → Granted host d child db db'
unfolding register_context_need_decision
register_context_need_decision-Granted host d child db db' h =
    let (d', checked, h1) = >>=-eq-ok (check_decision host d) _ h in
    let (child', checked_child, h2) = >>=-eq-ok (check_request_if (some child)) _ h1 in
    let (r, request_checked, h3) = >>=-eq-ok (check_request child) _ checked_child in
    let (_, matched, h4) =
      >>=-eq-ok (match_child d'.decision d'.child_context_request_id child') _ h2 in
    let same_child = sym (ok-inj h3) ∙ ap some (check_request-eq-ok child request_checked) in
    let same = check_decision-eq-ok host d checked in
    write_decision-Granted host d child db db' (
      subst (λ e. write_decision host e (some child) db ≡ ok db') same
        (subst (λ c. write_decision host d' c db ≡ ok db') same_child h4))
