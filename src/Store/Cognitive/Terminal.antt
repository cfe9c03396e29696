-- ===== src/Store/Cognitive/Terminal.antt =====
-- The states of a model invocation: open, then completed or failed. The writes of
-- src/sarmady/storage/sqlite/cognitive_store.py, one after another.
use mathlib.Core.Path.{subst}
use sarmady.Prelude.{
  ℕ, String, ◌≡◌, refl, sym, ◌∙◌, inl, inr, true, false, none, some, List, [], ◌∷◌, ◌==◌, is_some,
  nat_eq, eq_of_test, eq_self, Bool-cases, find-snoc_some, find-snoc_hit,
}
use sarmady.Outcome.{
  ok-inj, or-false, Outcome, ok, err, value_error, or_raise, >>=-eq-ok, raise_if-eq-ok,
}
use sarmady.Time.{DateTime, before}
use sarmady.Host.{Host}
use sarmady.Cognition.{ModelInvocation, GeneratedArtifact}
use sarmady.Store.{Db}
use sarmady.Store.Cognitive.{
  invocation_by_id, artifact_by_id, cognitive_request_by_id, projection_is_stale, insert_invocation,
  start_model_invocation, begun, complete_model_invocation, fail_model_invocation,
}
use sarmady.Store.Cognitive.Invocations.{
  finish-finds_other, finish-finds, open_invocation-eq-ok, completed,
  complete_model_invocation-eq-ok, fail_model_invocation-eq-ok,
}

-- The writes of model invocations, as the store offers them.
pub data InvocationOperation : Type 0 where
  start : ModelInvocation → InvocationOperation
  complete : ℕ → GeneratedArtifact → DateTime → InvocationOperation
  fail : ℕ → DateTime → String → InvocationOperation

-- The database after the call, and as it was where the call raises.
abbrev pub first_or {ℓ} : {A : Type ℓ} → Outcome (Db × A) → Db → Db
first_or (ok (db', a)) db = db'
first_or (err e) db = db

abbrev pub db_or : Outcome Db → Db → Db
db_or (ok db') db = db'
db_or (err e) db = db

unfoldable pub attempt : Host → InvocationOperation → Db → Db
attempt host (start i) db = db_or (start_model_invocation i db) db
attempt host (complete id artifact t) db = first_or (complete_model_invocation id artifact t db) db
attempt host (fail id t code) db = first_or (fail_model_invocation host id t code db) db

unfoldable pub attempts : Host → List InvocationOperation → Db → Db
unfolding attempt
attempts host [] db = db
attempts host (op ∷ ops) db = attempts host ops (attempt host op db)

module _ (id : ℕ) (i : ModelInvocation) where
  -- The row of the identifier is `i`.
  abbrev pub Stored : Db → Type 0
  Stored db = invocation_by_id db.model_invocations id ≡ some i

-- What holds of the written value holds of the result.
of_written {ℓ κ} :
    {A : Type ℓ} (P : A → Type κ) {written result : A}
    → ok written ≡ ok result
    → P written
    → P result
of_written P h = subst P (ok-inj h)

other_row :
    (id j : ℕ) (i v : ModelInvocation) (db : Db)
    → is_some i.completed_at ≡ true
    → Stored id i db
    → Stored j v db
    → is_some v.completed_at ≡ false
    → (id == j) ≡ false
other_row id j i v db terminal found row unfinished = elim (Bool-cases (id == j)) [
  | inr different ↦ different
  | inl same ↦
      let row' = subst (λ k. Stored k v db) (sym (eq_of_test id j same)) row in
      let same_row = sym found ∙ row' in cc
]

insert_invocation-Stored :
    (id : ℕ) (i j : ModelInvocation) (db db' : Db)
    → Stored id i db
    → insert_invocation j db ≡ ok db'
    → Stored id i db'
unfolding insert_invocation
insert_invocation-Stored id i j db db' found h =
    let (_, written) = raise_if-eq-ok _ _ _ h in
    of_written (Stored id i) written
      (find-snoc_some (λ v. v.id == id) db.model_invocations (begun j) i found)

start_model_invocation-Stored :
    (id : ℕ) (i j : ModelInvocation) (db db' : Db)
    → Stored id i db
    → start_model_invocation j db ≡ ok db'
    → Stored id i db'
unfolding start_model_invocation
start_model_invocation-Stored id i j db db' found h =
    let (_, h1) = raise_if-eq-ok _ _ _ h in
    let (request, _, h2) =
      >>=-eq-ok
        (or_raise (cognitive_request_by_id db.cognitive_requests j.cognitive_request_id)
          (value_error "unknown cognitive request"))
        _ h1 in
    let (stale, _, h3) = >>=-eq-ok (projection_is_stale db request.context_projection_id) _ h2 in
    let (_, h4) = raise_if-eq-ok _ _ _ h3 in insert_invocation-Stored id i j db db' found h4

complete-Stored :
    (id j : ℕ) (i : ModelInvocation) (a : GeneratedArtifact) (t : DateTime) (db : Db)
    (r : Db × ModelInvocation)
    → is_some i.completed_at ≡ true
    → Stored id i db
    → complete_model_invocation j a t db ≡ ok r
    → Stored id i r.0
complete-Stored id j i a t db r terminal found h =
    let (v, opened, _, _, written) = complete_model_invocation-eq-ok j a t db h in
    let (row, not_terminal, _) = open_invocation-eq-ok j t db opened in
    of_written (λ q. Stored id i q.0) written
      (finish-finds_other j id t none db.model_invocations i
        (other_row id j i v db terminal found row not_terminal) found)

fail-Stored :
    (host : Host) (id j : ℕ) (i : ModelInvocation) (t : DateTime) (code : String) (db : Db)
    (r : Db × ModelInvocation)
    → is_some i.completed_at ≡ true
    → Stored id i db
    → fail_model_invocation host j t code db ≡ ok r
    → Stored id i r.0
fail-Stored host id j i t code db r terminal found h =
    let (v, opened, written) = fail_model_invocation-eq-ok host j t code db h in
    let (row, not_terminal, _) = open_invocation-eq-ok j t db opened in
    of_written (λ q. Stored id i q.0) (sym written)
      (finish-finds_other j id t (some code) db.model_invocations i
        (other_row id j i v db terminal found row not_terminal) found)

db_or-keeps {ℓ} :
    (P : Db → Type ℓ) (m : Outcome Db) (db : Db)
    → P db
    → ((db' : Db) → m ≡ ok db' → P db')
    → P (db_or m db)
db_or-keeps P (ok db') db h k = k db' refl
db_or-keeps P (err e) db h k = h

first_or-keeps {ℓ κ} :
    {A : Type ℓ} (P : Db → Type κ) (m : Outcome (Db × A)) (db : Db)
    → P db
    → ((r : Db × A) → m ≡ ok r → P r.0)
    → P (first_or m db)
first_or-keeps P (ok (db', a)) db h k = k (db', a) refl
first_or-keeps P (err e) db h k = h

attempt-Stored :
    (host : Host) (id : ℕ) (i : ModelInvocation) (op : InvocationOperation) (db : Db)
    → is_some i.completed_at ≡ true
    → Stored id i db
    → Stored id i (attempt host op db)
unfolding attempt
attempt-Stored host id i (start j) db terminal found =
    db_or-keeps (Stored id i) (start_model_invocation j db) db found
      (λ db'. start_model_invocation-Stored id i j db db' found)
attempt-Stored host id i (complete j a t) db terminal found =
    first_or-keeps (Stored id i) (complete_model_invocation j a t db) db found
      (λ r. complete-Stored id j i a t db r terminal found)
attempt-Stored host id i (fail j t code) db terminal found =
    first_or-keeps (Stored id i) (fail_model_invocation host j t code db) db found
      (λ r. fail-Stored host id j i t code db r terminal found)

-- A row of a completed or failed invocation stays as it is through any sequence of starts,
-- completions and failures, of this invocation or of others, rejected calls included.
pub attempts-Stored :
    (host : Host) (id : ℕ) (i : ModelInvocation) (ops : List InvocationOperation) (db : Db)
    → is_some i.completed_at ≡ true
    → invocation_by_id db.model_invocations id ≡ some i
    → invocation_by_id (attempts host ops db).model_invocations id ≡ some i
unfolding attempts
attempts-Stored host id i [] db terminal found = found
attempts-Stored host id i (op ∷ ops) db terminal found =
    attempts-Stored host id i ops (attempt host op db) terminal
      (attempt-Stored host id i op db terminal found)

-- A completion that is accepted found its invocation open, begun no later than the artifact and
-- the artifact no later than the completion; it leaves the invocation completed without an error,
-- as returned, and the artifact, whose identifier was new, retrievable under that identifier.
pub complete_model_invocation_lem :
    (id : ℕ) (a : GeneratedArtifact) (t : DateTime) (db db' : Db) (result : ModelInvocation)
    → complete_model_invocation id a t db ≡ ok (db', result)
    → (i : ModelInvocation) × (invocation_by_id db.model_invocations id ≡ some i)
      × (is_some i.completed_at ≡ false)
      × (before a.created_at i.started_at ≡ false)
      × (before t a.created_at ≡ false)
      × (result ≡ completed t i)
      × (invocation_by_id db'.model_invocations id ≡ some result)
      × (artifact_by_id db.generated_artifacts a.id ≡ none)
      × (artifact_by_id db'.generated_artifacts a.id ≡ some a)
complete_model_invocation_lem id a t db db' result h =
    let (i, opened, times, fresh, written) = complete_model_invocation-eq-ok id a t db h in
    let (row, not_terminal, _) = open_invocation-eq-ok id t db opened in
    let (after_start, before_end) = or-false _ _ times in
    of_written
      (λ (r : Db × ModelInvocation).
        (i : ModelInvocation) × (invocation_by_id db.model_invocations id ≡ some i)
        × (is_some i.completed_at ≡ false)
        × (before a.created_at i.started_at ≡ false)
        × (before t a.created_at ≡ false)
        × (r.1 ≡ completed t i)
        × (invocation_by_id r.0.model_invocations id ≡ some r.1)
        × (artifact_by_id db.generated_artifacts a.id ≡ none)
        × (artifact_by_id r.0.generated_artifacts a.id ≡ some a))
      written
      (
        i,
        row,
        not_terminal,
        after_start,
        before_end,
        refl,
        finish-finds id t none db.model_invocations i row,
        fresh,
        find-snoc_hit (λ b. b.id == a.id) db.generated_artifacts a (eq_self a.id) fresh,
      )
