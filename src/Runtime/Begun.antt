-- ===== src/Runtime/Begun.antt =====
-- `_begin_invocation` of src/sarmady/runtime/model.py: the row that it leaves.
use mathlib.Core.Path.{subst}
use sarmady.Prelude.{
  String, ◌==◌, arith, is_some-none, ◌≡◌, refl, sym, ap, ◌∙◌, none, some, eq_self, nat_eq,
  find-snoc_hit,
}
use sarmady.Outcome.{
  Outcome, ok, err, value_error, runtime_error, raise_if, or_raise, ok-inj, >>=-eq-ok,
  raise_if-eq-ok,
}
use sarmady.Host.{Host}
use sarmady.Context.{is_blank}
use sarmady.Cognition.{ModelInvocation, check_invocation, check_cognitive_request}
use sarmady.Store.{Db, projection_by_id}
use sarmady.Store.Cognitive.{
  begun, invocation_by_id, cognitive_request_by_id, projection_is_stale, insert_invocation,
  start_model_invocation, create_cognitive_request,
}
use sarmady.Runtime.{ModelInput}
use sarmady.Runtime.Calls.{Call, continue, pure, written}
use sarmady.Runtime.Input.{materialize_input}
use sarmady.Runtime.Invocation.{
  Task, Readings, begin_invocation, choose_policy, different_policies, new_cognitive_request,
  new_invocation,
}

-- What a sequence of calls that returned says of its first call.
pub continue-eq-ok :
    {A B : Type 0} (x : Db × Outcome A) (k : A → Call B) {db' : Db} {b : B}
    → continue x k ≡ (db', ok b)
    → (d : Db) × (a : A) × (x ≡ (d, ok a)) × (k a d ≡ (db', ok b))
continue-eq-ok (d, ok a) k h = (d, a, refl, h)
continue-eq-ok (d, err e) k h = cc

pub pure-eq-ok :
    {A B : Type 0} (m : Outcome A) (k : A → Call B) (db : Db) {db' : Db} {b : B}
    → continue (db, m) k ≡ (db', ok b)
    → (a : A) × (m ≡ ok a) × (k a db ≡ (db', ok b))
pure-eq-ok (ok a) k db h = (a, refl, h)
pure-eq-ok (err e) k db h = cc

pub written-eq-ok :
    {B : Type 0} (m : Outcome Db) (k : (Unit {0}) → Call B) (db : Db) {db' : Db} {b : B}
    → continue (written m db) k ≡ (db', ok b)
    → (d : Db) × (m ≡ ok d) × (k tt d ≡ (db', ok b))
written-eq-ok (ok d) k db h = (d, refl, h)
written-eq-ok (err e) k db h = cc

pub check_invocation-eq-ok :
    (host : Host) (i : ModelInvocation) {j : ModelInvocation}
    → check_invocation host i ≡ ok j
    → i ≡ j
unfolding check_invocation
check_invocation-eq-ok host i h = ground arith

insert_invocation-stores :
    (i : ModelInvocation) (db : Db) {db' : Db}
    → insert_invocation i db ≡ ok db'
    → invocation_by_id db'.model_invocations i.id ≡ some (begun i)
unfolding insert_invocation
insert_invocation-stores i db h =
    let (fresh, inserted) = raise_if-eq-ok _ _ _ h in
    subst (λ (d : Db). invocation_by_id d.model_invocations i.id ≡ some (begun i)) (ok-inj inserted)
      (find-snoc_hit (λ v. v.id == i.id) db.model_invocations (begun i) (eq_self i.id)
        (is_some-none _ fresh))

start_model_invocation-stores :
    (i : ModelInvocation) (db : Db) {db' : Db}
    → start_model_invocation i db ≡ ok db'
    → invocation_by_id db'.model_invocations i.id ≡ some (begun i)
unfolding start_model_invocation
start_model_invocation-stores i db h =
    let (_, h1) = raise_if-eq-ok _ _ _ h in
    let (request, _, h2) =
      >>=-eq-ok
        (or_raise (cognitive_request_by_id db.cognitive_requests i.cognitive_request_id)
          (value_error "unknown cognitive request"))
        _ h1 in
    let (stale, _, h3) = >>=-eq-ok (projection_is_stale db request.context_projection_id) _ h2 in
    let (_, h4) = raise_if-eq-ok _ _ _ h3 in insert_invocation-stores i db h4

-- The row of an invocation that has begun, and not ended.
abbrev pub Begun : Host → Readings → ModelInvocation → Db → Type 0
Begun host now i db =
    (invocation_by_id db.model_invocations i.id ≡ some i)
    × (check_invocation host i ≡ ok i)
    × (i.completed_at ≡ none)
    × (i.started_at ≡ now.started_at)

-- The same of what `_begin_invocation` returns.
abbrev BegunBy : Host → Readings → Db × Outcome (ModelInvocation × ModelInput) → Type 0
BegunBy host now (d, ok r) = Begun host now r.0 d
BegunBy host now (d, err e) = Unit

started-Begun :
    (host : Host) (now : Readings) (i v : ModelInvocation) (input : ModelInput) (db d : Db)
    (result : ModelInvocation × ModelInput)
    → begun i ≡ i
    → i.started_at ≡ now.started_at
    → check_invocation host i ≡ ok v
    → continue (written (start_model_invocation v db) db) (λ _. pure (ok (v, input)))
      ≡ (d, ok result)
    → Begun host now result.0 d
started-Begun host now i v input db d result same time checked h =
    let eq : i ≡ v = check_invocation-eq-ok host i checked in
    let (d', started, h1) = written-eq-ok (start_model_invocation v db) _ db h in
    let open_at : begun v ≡ v = subst (λ w. begun w ≡ w) eq same in
    let at_start : v.started_at ≡ now.started_at =
      subst (λ (w : ModelInvocation). w.started_at ≡ now.started_at) eq time in
    let begun_at : Begun host now v d' = (
      start_model_invocation-stores v db started ∙ ap some open_at,
      subst (λ w. check_invocation host w ≡ ok v) eq checked,
      ap (λ (w : ModelInvocation). w.completed_at) (sym open_at),
      at_start,
    ) in
    subst (λ (x : Db × Outcome (ModelInvocation × ModelInput)). BegunBy host now x) h1 begun_at

pub begin_invocation-Begun :
    (host : Host) (task : Task) (binding_id : String) (now : Readings) (db d : Db)
    (i : ModelInvocation) (input : ModelInput)
    → begin_invocation host task binding_id now db ≡ (d, ok (i, input))
    → Begun host now i d
unfolding begin_invocation
begin_invocation-Begun host task binding_id now db d i input h =
    let (_, _, h1) =
      pure-eq-ok
        (raise_if (is_blank host binding_id) (value_error "adapter binding_id is required")) _ db
        h in
    let (_, _, h2) =
      pure-eq-ok
        (raise_if (different_policies task.reasoning_policy task.reasoning_policy_id)
          (value_error "reasoning_policy and reasoning_policy_id refer to different policies"))
        _ db h1 in
    let (db1, policy, _, h3) =
      continue-eq-ok
        (choose_policy host now.registered_at task.reasoning_policy task.reasoning_policy_id db) _
        h2 in
    let (request, _, h4) =
      pure-eq-ok (check_cognitive_request host (new_cognitive_request task now policy)) _ db1 h3 in
    let (db2, _, h5) = written-eq-ok (create_cognitive_request host request db1 db1) _ db1 h4 in
    let (row, _, h6) =
      pure-eq-ok
        (or_raise (projection_by_id db2.context_projections task.context_projection_id)
          (runtime_error "persisted context projection disappeared"))
        _ db2 h5 in
    let (input', _, h7) = pure-eq-ok (materialize_input host request row.projection db2) _ db2 h6 in
    let (v, checked, h8) =
      pure-eq-ok (check_invocation host (new_invocation binding_id now request)) _ db2 h7 in
    started-Begun host now (new_invocation binding_id now request) v input' db2 d (i, input) refl
      refl checked h8
