-- ===== src/Store/Lifecycle/Admission.antt =====
-- The admission of a memory entry by `commit_claim_bundle` of
-- src/sarmady/storage/sqlite/epistemic_store.py, with the event that creates it.
use mathlib.Core.Path.{subst}
use sarmady.Prelude.{
  ℕ, ◌≡◌, refl, sym, ap, ◌∙◌, String, Bool, true, false, Option, none, some, [], ◌∷◌, ◌++◌, ◌==◌,
  nat_eq, string_eq, Bool-cases, inl, inr, eq_self, eq_of_test, find-snoc_hit, find-snoc_miss,
  some-inj, is_some, is_some-none,
}
use sarmady.Outcome.{ok, ok-inj, >>=-eq-ok, raise_if-eq-ok}
use sarmady.Memory.{MemoryEntry, MemoryLifecycle, active, MemoryLifecycleEvent, created}
use sarmady.Epistemic.{ClaimRelation}
use sarmady.Store.{
  Db, LogKind, event, evidence, claim, claim_relation, memory_entry, memory_lifecycle_event,
  same_kind, log, memory_by_id, invalidate_projection_dependencies,
}
use sarmady.Store.Memory.{event_rows, replay_states, replayed_lifecycle, record_memory_event_in_tx}
use sarmady.Store.Epistemic.Checks.{Bundle, is_active}
use sarmady.Store.Epistemic.Inserts.{
  insert_relation, insert_memory_entry, commit_relation, moves_head, move_head,
}
use sarmady.Store.Epistemic.{creation_event, write_bundle}
use sarmady.Store.Epistemic.Written.{current_for, write_bundle-Written}
use sarmady.Store.Writes.{
  log-eq-ok, insert_event-eq-ok, insert_evidence-eq-ok, insert_claim-eq-ok, insert_relation-eq-ok,
  insert_memory_entry-eq-ok,
}
use sarmady.Store.Lifecycle.Entries.{Distinct_snoc}
use sarmady.Store.Lifecycle.{
  Distinct, LifecyclesAgree, Unmoved, Unmoved-trans, Unmoved-same, Unmoved-LifecyclesAgree,
}
use sarmady.Store.Lifecycle.Writes.{Unmoved-logged, Recorded, record_memory_event_in_tx-Recorded}
use sarmady.Store.Lifecycle.Agreement.{rows_own, rows_other, entry_own, entry_other, absent_before}

replayed_lifecycle-created :
    (e : MemoryLifecycleEvent) → e.event_kind ≡ created → replayed_lifecycle (e ∷ []) ≡ ok active
unfolding replayed_lifecycle replay_states
replayed_lifecycle-created e kind = rw kind refl

module _ (m : MemoryEntry) (e : MemoryLifecycleEvent) (a b c : Db) (g : LifecyclesAgree a)
    (fresh : memory_by_id a.memory_entries m.id ≡ none)
    (entries : b.memory_entries ≡ a.memory_entries ++ m ∷ [])
    (rows : (id : ℕ)
      → event_rows b.memory_lifecycle_events id b.semantic_log
        ≡ event_rows a.memory_lifecycle_events id a.semantic_log)
    (of : e.memory_entry_id ≡ m.id) (kind : e.event_kind ≡ created)
    (w : Recorded e active b c) where
  added_own :
      (id : ℕ) → (e.memory_entry_id == id) ≡ true → memory_by_id b.memory_entries id ≡ some m
  added_own id own =
      let at_m : m.id ≡ id = sym of ∙ eq_of_test e.memory_entry_id id own in
      ap (λ l. memory_by_id l id) entries
      ∙ find-snoc_hit (λ (v : MemoryEntry). v.id == id) a.memory_entries m (rw at_m (eq_self id))
          (subst (λ i. memory_by_id a.memory_entries i ≡ none) at_m fresh)

  added_other :
      (id : ℕ)
      → (e.memory_entry_id == id) ≡ false
      → memory_by_id b.memory_entries id ≡ memory_by_id a.memory_entries id
  added_other id other =
      ap (λ l. memory_by_id l id) entries
      ∙ find-snoc_miss (λ (v : MemoryEntry). v.id == id) a.memory_entries m
          (subst (λ i. (i == id) ≡ false) of other)

  Admitted-LifecyclesAgree : LifecyclesAgree c
  Admitted-LifecyclesAgree = record {
    replayed = λ id n there. elim (Bool-cases (e.memory_entry_id == id)) [
      | inl own ↦
          let at_m : m.id ≡ id = sym of ∙ eq_of_test e.memory_entry_id id own in
          let none_yet =
            g.known id (subst (λ i. memory_by_id a.memory_entries i ≡ none) at_m fresh) in
          ap replayed_lifecycle (rows_own w id own ∙ ap (λ r. r ++ e ∷ []) (rows id ∙ none_yet))
          ∙ replayed_lifecycle-created e kind
          ∙ ap ok (sym (entry_own w id n own there))
      | inr other ↦
          ap replayed_lifecycle (rows_other w id other ∙ rows id)
          ∙ g.replayed id n (sym (added_other id other) ∙ entry_other w id n other there)
    ];
    distinct =
        w.distinct
          (subst Distinct (sym entries) (Distinct_snoc a.memory_entries m g.distinct fresh));
    known = λ id absent. elim (Bool-cases (e.memory_entry_id == id)) [
      | inl own ↦ let wrong = sym (added_own id own) ∙ absent_before w id absent in cc
      | inr other ↦
          rows_other w id other
          ∙ rows id
          ∙ g.known id (sym (added_other id other) ∙ absent_before w id absent)
    ];
  }

pub Unmoved-log :
    (kind : LogKind) (i : ℕ) (t : sarmady.Time.DateTime) (db : Db) {db' : Db}
    → same_kind kind memory_lifecycle_event ≡ false
    → log kind i t db ≡ ok db'
    → Unmoved db db'
Unmoved-log kind i t db other h =
    let (_, e) = log-eq-ok kind i t db h in
    subst (Unmoved db) (ok-inj e) (Unmoved-logged kind i t db other)

pub Unmoved-ok : {a b c : Db} → ok b ≡ ok c → Unmoved a b → Unmoved a c
Unmoved-ok {a} e u = subst (Unmoved a) (ok-inj e) u

Unmoved-commit_relation :
    (r : Option ClaimRelation) (db db' : Db) → commit_relation r db ≡ ok db' → Unmoved db db'
unfolding commit_relation
Unmoved-commit_relation none db db' h = Unmoved-ok h (Unmoved-same refl refl refl)
Unmoved-commit_relation (some r) db db' h =
    let (mid, inserted, h1) = >>=-eq-ok (insert_relation r db) _ h in
    let (_, e) = insert_relation-eq-ok r db inserted in
    Unmoved-trans (Unmoved-ok e (Unmoved-same refl refl refl))
      (Unmoved-log claim_relation r.id r.recorded_at mid refl h1)

Unmoved-move_head :
    (moves : Bool) (c : sarmady.Epistemic.Claim) (db : Db) → Unmoved db (move_head moves c db)
unfolding move_head
Unmoved-move_head true c db = Unmoved-same refl refl refl
Unmoved-move_head false c db = Unmoved-same refl refl refl

-- The entry, its entry of the log, and the event that creates it.
admit-LifecyclesAgree :
    (uuid_text : ℕ → String) (event_id : ℕ) (m : MemoryEntry) (a a' b c : Db)
    → LifecyclesAgree a
    → m.lifecycle ≡ active
    → insert_memory_entry m a ≡ ok a'
    → log memory_entry m.id m.created_at a' ≡ ok b
    → record_memory_event_in_tx uuid_text (creation_event event_id m) false b ≡ ok c
    → LifecyclesAgree c
unfolding insert_memory_entry
admit-LifecyclesAgree uuid_text event_id m a a' b c g begins inserted noted recorded =
    let (taken, _) = raise_if-eq-ok (is_some (memory_by_id a.memory_entries m.id)) _ _ inserted in
    let fresh = is_some-none (memory_by_id a.memory_entries m.id) taken in
    let added = ok-inj (insert_memory_entry-eq-ok m a inserted) in
    let u = Unmoved-log memory_entry m.id m.created_at a' refl noted in
    let entries : b.memory_entries ≡ a.memory_entries ++ m ∷ [] =
      u.entries ∙ ap (λ (d : Db). d.memory_entries) (sym added) in
    let events : b.memory_lifecycle_events ≡ a.memory_lifecycle_events =
      u.events ∙ ap (λ (d : Db). d.memory_lifecycle_events) (sym added) in
    let (k, after, found, next, w) =
      record_memory_event_in_tx-Recorded uuid_text (creation_event event_id m) false b c recorded in
    let there : memory_by_id b.memory_entries m.id ≡ some m =
      ap (λ l. memory_by_id l m.id) entries
      ∙ find-snoc_hit (λ (v : MemoryEntry). v.id == m.id) a.memory_entries m (eq_self m.id) fresh in
    let begun : after ≡ active =
      sym (ok-inj next)
      ∙ ap (λ (v : MemoryEntry). v.lifecycle) (some-inj (sym found ∙ there))
      ∙ begins in
    Admitted-LifecyclesAgree m (creation_event event_id m) a b c g fresh entries
      (λ id.
        ap (λ es. event_rows es id b.semantic_log) events
        ∙ u.rows a.memory_lifecycle_events id
        ∙ ap (λ (d : Db). event_rows a.memory_lifecycle_events id d.semantic_log) (sym added))
      refl refl (subst (λ s. Recorded (creation_event event_id m) s b c) begun w)

pub is_active-eq : (s : MemoryLifecycle) → is_active s ≡ true → s ≡ active
is_active-eq active h = refl
is_active-eq _ h = cc

Unmoved-invalidate :
    (key reason : String) (db : Db) → Unmoved db (invalidate_projection_dependencies key reason db)
unfolding invalidate_projection_dependencies
Unmoved-invalidate key reason db = Unmoved-same refl refl refl

pub write_bundle-LifecyclesAgree :
    (uuid_text : ℕ → String) (event_id : ℕ) (b : Bundle) (db db' : Db)
    → LifecyclesAgree db
    → b.memory.lifecycle ≡ active
    → write_bundle uuid_text event_id b db ≡ ok db'
    → LifecyclesAgree db'
write_bundle-LifecyclesAgree uuid_text event_id b db db' g begins h =
    let w = write_bundle-Written uuid_text event_id b db db' h in
    let db8 = move_head (moves_head (current_for db b) b.relation) b.claim w.db7 in
    let e1 = Unmoved-ok (insert_event-eq-ok b.event db w.wrote1) (Unmoved-same refl refl refl) in
    let e2 = Unmoved-log event b.event.id b.event.recorded_at w.db1 refl w.wrote2 in
    let e3 =
      Unmoved-ok (insert_evidence-eq-ok b.evidence w.db2 w.wrote3) (Unmoved-same refl refl refl) in
    let e4 = Unmoved-log evidence b.evidence.id b.event.recorded_at w.db3 refl w.wrote4 in
    let (_, i5) = insert_claim-eq-ok b.claim w.db4 w.wrote5 in
    let e5 = Unmoved-ok i5 (Unmoved-same refl refl refl) in
    let e6 = Unmoved-log claim b.claim.id b.claim.recorded_at w.db5 refl w.wrote6 in
    let e7 = Unmoved-commit_relation b.relation w.db6 w.db7 w.wrote7 in
    let e8 = Unmoved-move_head (moves_head (current_for db b) b.relation) b.claim w.db7 in
    let start = Unmoved-LifecyclesAgree e8 (
      Unmoved-LifecyclesAgree e7 (
        Unmoved-LifecyclesAgree e6 (
          Unmoved-LifecyclesAgree e5 (
            Unmoved-LifecyclesAgree e4 (
              Unmoved-LifecyclesAgree e3
                (Unmoved-LifecyclesAgree e2 (Unmoved-LifecyclesAgree e1 g))))))) in
    let admitted =
      admit-LifecyclesAgree uuid_text event_id b.memory db8 w.db9 w.db10 w.db11 start begins
        w.wrote9 w.wrote10 w.wrote11 in
    subst LifecyclesAgree (ok-inj w.returned)
      (Unmoved-LifecyclesAgree (Unmoved-invalidate _ _ w.db11) admitted)
