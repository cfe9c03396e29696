-- ===== src/Runtime/Tracked.antt =====
-- The row of an invocation through `_complete_artifact` and `_fail_open_invocation` of
-- src/sarmady/runtime/model.py.
use mathlib.Core.Path.{subst}
use sarmady.Prelude.{
  ℕ, String, ◌≡◌, refl, sym, ap, ◌∙◌, Bool, true, false, not, ◌&&◌, none, some, is_some, ◌⊎◌, inl,
  inr, nat_eq, string_eq, ◌==◌,
}
use sarmady.Outcome.{Exception, Outcome, ok, err, raise_if, Outcome-cases}
use sarmady.Time.{DateTime, NotBefore, NotBefore-require_comparable}
use sarmady.Host.{Host}
use sarmady.Context.{is_blank}
use sarmady.Cognition.{
  ModelInvocation, GeneratedArtifact, check_artifact, check_invocation, context_need_kind,
}
use sarmady.Store.{Db}
use sarmady.Store.Cognitive.{
  invocation_by_id, finished, open_invocation, complete_model_invocation, fail_model_invocation,
}
use sarmady.Store.Cognitive.Invocations.{finish-finds}
use sarmady.Store.Cognitive.Terminal.{complete_model_invocation_lem}
use sarmady.Runtime.Calls.{Call, continue, pure, rescue, settled}
use sarmady.Runtime.Input.{read_invocation}
use sarmady.Runtime.Invocation.{
  Readings, complete_artifact, new_artifact, adapter_error, fail_open_invocation,
}
use sarmady.Runtime.Begun.{check_invocation-eq-ok}

abbrev pub Ended : ℕ → Db → Type 0
Ended id db =
    (v : ModelInvocation) × (invocation_by_id db.model_invocations id ≡ some v)
    × (is_some v.completed_at ≡ true)

-- The row of an invocation is as it began, unless the call returned or has ended it.
abbrev pub Tracked : {A : Type 0} → ModelInvocation → Db × Outcome A → Type 0
Tracked i (db, ok a) = Ended i.id db
Tracked i (db, err e) = (invocation_by_id db.model_invocations i.id ≡ some i) ⊎ Ended i.id db

module _ {A : Type 0} (i : ModelInvocation) where
  pub Tracked-pure :
      {B : Type 0} (m : Outcome A) (k : A → Call B) (db : Db)
      → invocation_by_id db.model_invocations i.id ≡ some i
      → ((a : A) → Tracked i (k a db))
      → Tracked i (continue (db, m) k)
  Tracked-pure (ok a) k db row h = h a
  Tracked-pure (err e) k db row h = inl row

  pub Tracked-checked :
      {B : Type 0} (x : Db × Outcome A) (check : A → Outcome B)
      → Tracked i x
      → Tracked i (continue x (λ a. pure (check a)))
  Tracked-checked (db, err e) check t = t
  Tracked-checked (db, ok a) check t = elim (Outcome-cases (check a)) [
    | inl (b, e) ↦ rw e t
    | inr (x, e) ↦ rw e (inr t)
  ]

Tracked-completed :
    (i : ModelInvocation) (a : GeneratedArtifact) (t : DateTime) (db : Db)
    (m : Outcome (Db × ModelInvocation))
    → complete_model_invocation i.id a t db ≡ m
    → invocation_by_id db.model_invocations i.id ≡ some i
    → Tracked i (continue (settled m db) (λ v. pure (ok a)))
Tracked-completed i a t db (err e) h row = inl row
Tracked-completed i a t db (ok (db', v)) h row =
    let (_, _, _, _, _, same, stored, _, _) = complete_model_invocation_lem i.id a t db db' v h in
    (v, stored, ap (λ (w : ModelInvocation). is_some w.completed_at) same)

pub complete_artifact-Tracked :
    (host : Host) (now : Readings) (i : ModelInvocation) (kind content : String) (allow : Bool)
    (db : Db)
    → invocation_by_id db.model_invocations i.id ≡ some i
    → Tracked i (complete_artifact host now i kind content allow db)
unfolding complete_artifact
complete_artifact-Tracked host now i kind content allow db row =
    Tracked-pure i (raise_if (kind == context_need_kind && not allow) _) _ db row (λ _.
      Tracked-pure i (check_artifact host (new_artifact i now kind content)) _ db row
        (λ a. Tracked-completed i a now.completed_at db _ refl row))

pub open_invocation-open :
    (id : ℕ) (t : DateTime) (db : Db) (i : ModelInvocation)
    → invocation_by_id db.model_invocations id ≡ some i
    → i.completed_at ≡ none
    → NotBefore t i.started_at
    → open_invocation id t db ≡ ok i
unfolding open_invocation
open_invocation-open id t db i row running ordered =
    rw row (rw running (rw (NotBefore-require_comparable t i.started_at ordered, ordered.1) refl))

fail_model_invocation-open :
    (host : Host) (id : ℕ) (t : DateTime) (code : String) (db : Db) (i : ModelInvocation)
    → is_blank host code ≡ false
    → open_invocation id t db ≡ ok i
    → fail_model_invocation host id t code db
      ≡ ok
          (finished id t (some code) db, record i { completed_at = some t; error_code = some code })
unfolding fail_model_invocation
fail_model_invocation-open host id t code db i given found = rw (given, found)

module _ (host : Host) (now : Readings) (i : ModelInvocation)
    (checked : check_invocation host i ≡ ok i) (running : i.completed_at ≡ none)
    (began : i.started_at ≡ now.started_at) (ordered : NotBefore now.failed_at now.started_at)
    (named : (e : Exception) → is_blank host (adapter_error e) ≡ false) where
  pub fail_open_invocation-open :
      (e : Exception) (db : Db)
      → invocation_by_id db.model_invocations i.id ≡ some i
      → fail_open_invocation host now i e db
        ≡ (finished i.id now.failed_at (some (adapter_error e)) db, ok tt)
  unfolding fail_open_invocation read_invocation
  fail_open_invocation-open e db row =
      let opened = open_invocation-open i.id now.failed_at db i row running (rw began ordered) in
      rw (row, checked, running)
        (rw
          (fail_model_invocation-open host i.id now.failed_at (adapter_error e) db i (named e)
            opened)
          refl)

  fail_open_invocation-Ended :
      (e : Exception) (db : Db) → Ended i.id db → (fail_open_invocation host now i e db).0 ≡ db
  unfolding fail_open_invocation read_invocation
  fail_open_invocation-Ended e db (v, row, over) =
      rw row (elim (Outcome-cases (check_invocation host v)) [
        | inl (w, h) ↦
            let over' =
              subst (λ (u : ModelInvocation). is_some u.completed_at ≡ true)
                (check_invocation-eq-ok host v h) over in
            rw (h, over') refl
        | inr (x, h) ↦ rw h refl
      ])

  finished-Ended :
      (e : Exception) (db : Db)
      → invocation_by_id db.model_invocations i.id ≡ some i
      → Ended i.id (finished i.id now.failed_at (some (adapter_error e)) db)
  finished-Ended e db row = (
    record i { completed_at = some now.failed_at; error_code = some (adapter_error e) },
    finish-finds i.id now.failed_at (some (adapter_error e)) db.model_invocations i row,
    refl,
  )

  failed_db :
      (A : Type 0) (x : Db × Outcome (Unit {0})) (e : Exception)
      → (continue {B = A} x (λ _ db'. (db', err e))).0 ≡ x.0
  failed_db A (db, ok u) e = refl
  failed_db A (db, err f) e = refl

  pub rescue-Ended :
      {A : Type 0} (x : Db × Outcome A)
      → Tracked i x
      → Ended i.id (rescue x (fail_open_invocation host now i)).0
  rescue-Ended (db, ok a) t = t
  rescue-Ended (db, err e) (inl row) =
      subst (Ended i.id)
        (ap (λ (y : Db × Outcome (Unit {0})). y.0) (sym (fail_open_invocation-open e db row))
          ∙ sym (failed_db _ (fail_open_invocation host now i e db) e))
        (finished-Ended e db row)
  rescue-Ended (db, err e) (inr ended) =
      subst (Ended i.id)
        (sym (
          failed_db _ (fail_open_invocation host now i e db) e
          ∙ fail_open_invocation-Ended e db ended))
        ended
