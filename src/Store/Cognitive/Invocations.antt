-- ===== src/Store/Cognitive/Invocations.antt =====
-- What an accepted call of src/sarmady/storage/sqlite/cognitive_store.py has checked and written.
use mathlib.Core.Path.{subst}
use sarmady.Prelude.{
  ℕ, String, ◌≡◌, sym, false, Option, none, some, List, [], ◌∷◌, ◌++◌, map, ◌==◌, is_some, ◌||◌,
  nat_eq, arith,
}
use sarmady.Outcome.{ok, or_raise, ok-inj, or_raise-eq-ok, ◌>>=◌, >>=-eq-ok, raise_if-eq-ok}
use sarmady.Time.{DateTime, before, require_comparable}
use sarmady.Host.{Host}
use sarmady.Cognition.{ModelInvocation, GeneratedArtifact}
use sarmady.Store.{Db}
use sarmady.Store.Cognitive.{
  invocation_by_id, artifact_by_id, finish, finished, open_invocation, insert_artifact,
  complete_model_invocation, fail_model_invocation,
}

pub finish-finds_other :
    (j id : ℕ) (t : DateTime) (code : Option String) (rows : List ModelInvocation)
    (i : ModelInvocation)
    → (id == j) ≡ false
    → invocation_by_id rows id ≡ some i
    → invocation_by_id (map (finish j t code) rows) id ≡ some i
finish-finds_other j id t code [] i other found = cc
finish-finds_other j id t code (v ∷ rows) i other found =
    ground (arith, finish-finds_other j id t code rows i)

pub finish-finds :
    (id : ℕ) (t : DateTime) (code : Option String) (rows : List ModelInvocation)
    (i : ModelInvocation)
    → invocation_by_id rows id ≡ some i
    → invocation_by_id (map (finish id t code) rows) id
      ≡ some (record i { completed_at = some t; error_code = code })
finish-finds id t code [] i found = cc
finish-finds id t code (v ∷ rows) i found = ground (arith, finish-finds id t code rows i)

pub open_invocation-eq-ok :
    (id : ℕ) (t : DateTime) (db : Db) {i : ModelInvocation}
    → open_invocation id t db ≡ ok i
    → (invocation_by_id db.model_invocations id ≡ some i)
      × (is_some i.completed_at ≡ false)
      × (before t i.started_at ≡ false)
unfolding open_invocation
open_invocation-eq-ok id t db h =
    let (i, found, h1) = >>=-eq-ok (or_raise (invocation_by_id db.model_invocations id) _) _ h in
    let (running, h2) = raise_if-eq-ok (is_some i.completed_at) _ _ h1 in
    let (_, _, h3) = >>=-eq-ok (require_comparable t i.started_at) _ h2 in
    let (ordered, h4) = raise_if-eq-ok (before t i.started_at) _ _ h3 in
    subst
      (λ (v : ModelInvocation).
        (invocation_by_id db.model_invocations id ≡ some v)
        × (is_some v.completed_at ≡ false)
        × (before t v.started_at ≡ false))
      (ok-inj h4) (or_raise-eq-ok _ _ found, running, ordered)

pub insert_artifact-eq-ok :
    (a : GeneratedArtifact) (db : Db) {db' : Db}
    → insert_artifact a db ≡ ok db'
    → (artifact_by_id db.generated_artifacts a.id ≡ none)
      × (ok (record db { generated_artifacts = db.generated_artifacts ++ a ∷ [] }) ≡ ok db')
unfolding insert_artifact
insert_artifact-eq-ok a db h = ground arith

abbrev pub with_artifact : ℕ → GeneratedArtifact → DateTime → Db → Db
with_artifact id a t db = record db {
  model_invocations = map (finish id t none) db.model_invocations;
  generated_artifacts = db.generated_artifacts ++ a ∷ [];
}

abbrev pub completed : DateTime → ModelInvocation → ModelInvocation
completed t i = record i { completed_at = some t; error_code = none }

pub stored-eq-ok :
    (id : ℕ) (a : GeneratedArtifact) (t : DateTime) (db : Db) (i : ModelInvocation)
    {r : Db × ModelInvocation}
    → (insert_artifact a (finished id t none db) >>= λ db'. ok (db', completed t i)) ≡ ok r
    → (artifact_by_id db.generated_artifacts a.id ≡ none)
      × (ok (with_artifact id a t db, completed t i) ≡ ok r)
unfolding insert_artifact
stored-eq-ok id a t db i h = ground arith

-- What a completion that was accepted has checked and written.
pub complete_model_invocation-eq-ok :
    (id : ℕ) (a : GeneratedArtifact) (t : DateTime) (db : Db) {r : Db × ModelInvocation}
    → complete_model_invocation id a t db ≡ ok r
    → (i : ModelInvocation) × (open_invocation id t db ≡ ok i)
      × ((before a.created_at i.started_at || before t a.created_at) ≡ false)
      × (artifact_by_id db.generated_artifacts a.id ≡ none)
      × (ok (with_artifact id a t db, completed t i) ≡ ok r)
unfolding complete_model_invocation
complete_model_invocation-eq-ok id a t db h =
    let (same, h1) = raise_if-eq-ok _ _ _ h in
    let (i, opened, h2) = >>=-eq-ok (open_invocation id t db) _ h1 in
    let (_, _, h3) = >>=-eq-ok (require_comparable a.created_at i.started_at) _ h2 in
    let (times, h4) = raise_if-eq-ok _ _ _ h3 in
    let (fresh, written) = stored-eq-ok id a t db i h4 in (i, opened, times, fresh, written)

pub fail_model_invocation-eq-ok :
    (host : Host) (id : ℕ) (t : DateTime) (code : String) (db : Db) {r : Db × ModelInvocation}
    → fail_model_invocation host id t code db ≡ ok r
    → (i : ModelInvocation) × (open_invocation id t db ≡ ok i)
      × (ok r
          ≡ ok (
            finished id t (some code) db,
            record i { completed_at = some t; error_code = some code },
          ))
unfolding fail_model_invocation
fail_model_invocation-eq-ok host id t code db h =
    let (given, h1) = raise_if-eq-ok _ _ _ h in
    let (i, opened, h2) = >>=-eq-ok (open_invocation id t db) _ h1 in (i, opened, sym h2)
