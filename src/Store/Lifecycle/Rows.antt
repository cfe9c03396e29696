-- ===== src/Store/Lifecycle/Rows.antt =====
-- The lifecycle events of an entry in the order of the log, when the log or the table grows.
use mathlib.Core.List.{append-nil, append_assoc}
use sarmady.Prelude.{
  ℕ, ◌≡◌, refl, sym, ap, ◌∙◌, Bool, true, false, none, some, List, [], ◌∷◌, ◌++◌, ◌==◌, any_of,
  find, nat_eq, if◌then◌else◌, find-snoc_miss, find-snoc_hit, Bool-cases, inl, inr, eq_self, arith,
}
use sarmady.Outcome.{◌>>=◌, Outcome-cases}
use sarmady.Memory.{MemoryLifecycle, MemoryLifecycleEvent}
use sarmady.Memory.State.{next_memory_state}
use sarmady.Store.{LogEntry, memory_lifecycle_event, same_kind, is_entry}
use sarmady.Store.Memory.{event_row, event_rows, replay_states}

pub event_rows_append :
    (events : List MemoryLifecycleEvent) (id : ℕ) (log : List LogEntry) (e : LogEntry)
    → event_rows events id (log ++ e ∷ []) ≡ event_rows events id log ++ event_row events id e
unfolding event_rows
event_rows_append events id [] e = append-nil (event_row events id e)
event_rows_append events id (l ∷ log) e =
    ap (λ rest. event_row events id l ++ rest) (event_rows_append events id log e)
    ∙ sym (append_assoc (event_row events id l) (event_rows events id log) (event_row events id e))

event_row_unlogged :
    (events : List MemoryLifecycleEvent) (e : MemoryLifecycleEvent) (id : ℕ) (l : LogEntry)
    → is_entry memory_lifecycle_event e.id l ≡ false
    → event_row (events ++ e ∷ []) id l ≡ event_row events id l
event_row_unlogged events e id l h = elim (Bool-cases (same_kind l.kind memory_lifecycle_event)) [
  | inr other ↦ rw other refl
  | inl own ↦
      let differs : (e.id == l.ref_id) ≡ false =
        let apart : (l.ref_id == e.id) ≡ false = rw own at h in ground (arith, apart) in
      rw own
        (rw (find-snoc_miss (λ (v : MemoryLifecycleEvent). v.id == l.ref_id) events e differs) refl)
]

any_of_split :
    (p : LogEntry → Bool) (l : LogEntry) (log : List LogEntry)
    → any_of p (l ∷ log) ≡ false
    → (p l ≡ false) × (any_of p log ≡ false)
any_of_split p l log h = elim (Bool-cases (p l)) [
  | inl hit ↦ let wrong = rw hit at h in cc
  | inr miss ↦ (miss, rw miss at h)
]

pub event_rows_unlogged :
    (events : List MemoryLifecycleEvent) (e : MemoryLifecycleEvent) (id : ℕ) (log : List LogEntry)
    → any_of (is_entry memory_lifecycle_event e.id) log ≡ false
    → event_rows (events ++ e ∷ []) id log ≡ event_rows events id log
unfolding event_rows
event_rows_unlogged events e id [] h = refl
event_rows_unlogged events e id (l ∷ log) h =
    let (here, rest) = any_of_split (is_entry memory_lifecycle_event e.id) l log h in
    ap (λ r. r ++ event_rows (events ++ e ∷ []) id log) (event_row_unlogged events e id l here)
    ∙ ap (λ r. event_row events id l ++ r) (event_rows_unlogged events e id log rest)

find-none :
    (p : MemoryLifecycleEvent → Bool) (xs : List MemoryLifecycleEvent)
    → any_of p xs ≡ false
    → find p xs ≡ none
find-none p [] h = refl
find-none p (x ∷ xs) h = ground (arith, find-none p xs)

-- The row of a new event, logged last.
pub event_row_new :
    (events : List MemoryLifecycleEvent) (e : MemoryLifecycleEvent) (id : ℕ) (l : LogEntry)
    → same_kind l.kind memory_lifecycle_event ≡ true
    → l.ref_id ≡ e.id
    → any_of (λ (f : MemoryLifecycleEvent). f.id == e.id) events ≡ false
    → event_row (events ++ e ∷ []) id l ≡ (if e.memory_entry_id == id then e ∷ [] else [])
event_row_new events e id l kind ref fresh =
    let found : find (λ (v : MemoryLifecycleEvent). v.id == l.ref_id) (events ++ e ∷ []) ≡ some e =
      rw ref (
        find-snoc_hit (λ (v : MemoryLifecycleEvent). v.id == e.id) events e (eq_self e.id)
          (find-none (λ (v : MemoryLifecycleEvent). v.id == e.id) events fresh)) in
    rw kind (rw found refl)

pub replay_states_append :
    (state : MemoryLifecycle) (events : List MemoryLifecycleEvent) (e : MemoryLifecycleEvent)
    → replay_states state (events ++ e ∷ [])
      ≡ (replay_states state events >>= λ s. next_memory_state s e.event_kind)
unfolding replay_states
replay_states_append state [] e = elim (Outcome-cases (next_memory_state state e.event_kind)) [
  | inl (s, next) ↦ rw next refl
  | inr (x, raised) ↦ rw raised refl
]
replay_states_append state (f ∷ events) e =
    elim (Outcome-cases (next_memory_state state f.event_kind)) [
      | inl (s, next) ↦ rw next (replay_states_append s events e)
      | inr (x, raised) ↦ rw raised refl
    ]
