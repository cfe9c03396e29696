-- ===== src/Store/Lifecycle/Agreement.antt =====
-- Recorded events and admissions of src/sarmady/storage/sqlite/ keep the lifecycle column in
-- agreement with the events.
use mathlib.Core.Path.{subst}
use mathlib.Core.List.{append-nil}
use sarmady.Prelude.{
  ℕ, ◌≡◌, refl, sym, ap, ◌∙◌, true, false, Option, none, some, List, [], ◌∷◌, ◌++◌, ◌==◌, nat_eq,
  Bool-cases, inl, inr, eq_self, eq_of_test, find-passes, some-inj, arith,
}
use sarmady.Outcome.{ok}
use sarmady.Memory.{MemoryEntry, MemoryLifecycle, active, MemoryLifecycleEvent}
use sarmady.Memory.State.{next_memory_state}
use sarmady.Store.{Db, memory_by_id}
use sarmady.Store.Memory.{set_lifecycle, event_rows, replayed_lifecycle, is_created}
use sarmady.Store.Lifecycle.{LifecyclesAgree}
use sarmady.Store.Lifecycle.Rows.{replay_states_append}
use sarmady.Store.Lifecycle.Writes.{Recorded}
use sarmady.Store.Lifecycle.Entries.{set_if}

replayed_lifecycle_append :
    (rows : List MemoryLifecycleEvent) (e : MemoryLifecycleEvent) (state : MemoryLifecycle)
    → replayed_lifecycle rows ≡ ok state
    → replayed_lifecycle (rows ++ e ∷ []) ≡ next_memory_state state e.event_kind
unfolding replayed_lifecycle
replayed_lifecycle_append [] e state h = cc
replayed_lifecycle_append (f ∷ rows) e state h = elim (Bool-cases (is_created f.event_kind)) [
  | inl first ↦
      let so_far = rw first at h in rw first (replay_states_append active rows e ∙ (rw so_far refl))
  | inr other ↦ let wrong = rw other at h in cc
]

set_lifecycle_own :
    (i : ℕ) (state : MemoryLifecycle) (m : MemoryEntry)
    → m.id ≡ i
    → (set_lifecycle i state m).lifecycle ≡ state
set_lifecycle_own i state m own = rw (own, eq_self i) refl

set_lifecycle_other :
    (i : ℕ) (state : MemoryLifecycle) (m : MemoryEntry)
    → (m.id == i) ≡ false
    → set_lifecycle i state m ≡ m
set_lifecycle_other i state m other = rw other refl

memory_by_id-id :
    (rows : List MemoryEntry) (id : ℕ) (m : MemoryEntry) → memory_by_id rows id ≡ some m → m.id ≡ id
memory_by_id-id rows id m found =
    eq_of_test m.id id (find-passes (λ (v : MemoryEntry). v.id == id) rows m found)

set_if-none :
    (i : ℕ) (state : MemoryLifecycle) (o : Option MemoryEntry) → set_if i state o ≡ none → o ≡ none
set_if-none i state none h = refl
set_if-none i state (some m) h = cc

set_if-some :
    (i : ℕ) (state : MemoryLifecycle) (o : Option MemoryEntry) (n : MemoryEntry)
    → set_if i state o ≡ some n
    → (k : MemoryEntry) × (o ≡ some k) × (set_lifecycle i state k ≡ n)
set_if-some i state none n h = cc
set_if-some i state (some k) n h = (k, refl, some-inj h)

-- The events of an entry after a recorded one, for the event's entry and for another.
module _ {e : MemoryLifecycleEvent} {state : MemoryLifecycle} {a b : Db}
    (w : Recorded e state a b) where
  pub rows_own :
      (id : ℕ)
      → (e.memory_entry_id == id) ≡ true
      → event_rows b.memory_lifecycle_events id b.semantic_log
        ≡ event_rows a.memory_lifecycle_events id a.semantic_log ++ e ∷ []
  rows_own id own = w.rows id ∙ rw own refl

  pub rows_other :
      (id : ℕ)
      → (e.memory_entry_id == id) ≡ false
      → event_rows b.memory_lifecycle_events id b.semantic_log
        ≡ event_rows a.memory_lifecycle_events id a.semantic_log
  rows_other id other =
      w.rows id ∙ rw other (append-nil (event_rows a.memory_lifecycle_events id a.semantic_log))

  -- An entry that the event is not about is as it was.
  pub entry_other :
      (id : ℕ) (n : MemoryEntry)
      → (e.memory_entry_id == id) ≡ false
      → memory_by_id b.memory_entries id ≡ some n
      → memory_by_id a.memory_entries id ≡ some n
  entry_other id n other found =
      let (k, there, set) =
        set_if-some e.memory_entry_id state (memory_by_id a.memory_entries id) n
          (sym (w.entries id) ∙ found) in
      let own = memory_by_id-id a.memory_entries id k there in
      let apart : (k.id == e.memory_entry_id) ≡ false = rw own (ground (arith, other)) in
      there ∙ ap some (sym (set_lifecycle_other e.memory_entry_id state k apart) ∙ set)

  pub entry_own :
      (id : ℕ) (n : MemoryEntry)
      → (e.memory_entry_id == id) ≡ true
      → memory_by_id b.memory_entries id ≡ some n
      → n.lifecycle ≡ state
  entry_own id n own found =
      let (k, there, set) =
        set_if-some e.memory_entry_id state (memory_by_id a.memory_entries id) n
          (sym (w.entries id) ∙ found) in
      let k_own =
        memory_by_id-id a.memory_entries id k there ∙ sym (eq_of_test e.memory_entry_id id own) in
      ap (λ (v : MemoryEntry). v.lifecycle) (sym set)
      ∙ set_lifecycle_own e.memory_entry_id state k k_own

  pub absent_before :
      (id : ℕ) → memory_by_id b.memory_entries id ≡ none → memory_by_id a.memory_entries id ≡ none
  absent_before id absent =
      set_if-none e.memory_entry_id state (memory_by_id a.memory_entries id)
        (sym (w.entries id) ∙ absent)

-- An event that takes its entry along the lifecycle.
pub Recorded-LifecyclesAgree :
    (e : MemoryLifecycleEvent) (m : MemoryEntry) (state : MemoryLifecycle) (a b : Db)
    → LifecyclesAgree a
    → memory_by_id a.memory_entries e.memory_entry_id ≡ some m
    → next_memory_state m.lifecycle e.event_kind ≡ ok state
    → Recorded e state a b
    → LifecyclesAgree b
Recorded-LifecyclesAgree e m state a b g found next w = record {
  replayed = λ id n there. elim (Bool-cases (e.memory_entry_id == id)) [
    | inl own ↦
        let found' =
          subst (λ i. memory_by_id a.memory_entries i ≡ some m)
            (eq_of_test e.memory_entry_id id own) found in
        ap replayed_lifecycle (rows_own w id own)
        ∙ replayed_lifecycle_append _ e m.lifecycle (g.replayed id m found')
        ∙ next
        ∙ ap ok (sym (entry_own w id n own there))
    | inr other ↦
        ap replayed_lifecycle (rows_other w id other)
        ∙ g.replayed id n (entry_other w id n other there)
  ];
  distinct = w.distinct g.distinct;
  known = λ id absent. elim (Bool-cases (e.memory_entry_id == id)) [
    | inl own ↦
        let found' =
          subst (λ i. memory_by_id a.memory_entries i ≡ some m)
            (eq_of_test e.memory_entry_id id own) found in
        let wrong = sym found' ∙ absent_before w id absent in cc
    | inr other ↦ rows_other w id other ∙ g.known id (absent_before w id absent)
  ];
}
