-- ===== src/Store/Lifecycle/Entries.antt =====
-- The rows of memory_entries when src/sarmady/storage/sqlite/memory_store.py sets a lifecycle.
use mathlib.Core.Path.{subst}
use sarmady.Prelude.{
  ℕ, ◌≡◌, refl, sym, ap, ◌∙◌, true, false, Option, none, some, List, [], ◌∷◌, ◌++◌, map, ◌==◌,
  nat_eq, find-snoc_miss, some-inj, Bool-cases, inl, inr, eq_self, eq_of_test, arith, All, All-map,
  is_some,
}
use sarmady.Memory.{MemoryEntry, MemoryLifecycle}
use sarmady.Store.{memory_by_id}
use sarmady.Store.Memory.{set_lifecycle}
use sarmady.Store.Lifecycle.{Distinct}

abbrev pub set_if : ℕ → MemoryLifecycle → Option MemoryEntry → Option MemoryEntry
set_if id state none = none
set_if id state (some m) = some (set_lifecycle id state m)

pub memory_by_id-map :
    (i : ℕ) (state : MemoryLifecycle) (rows : List MemoryEntry) (id : ℕ)
    → memory_by_id (map (set_lifecycle i state) rows) id ≡ set_if i state (memory_by_id rows id)
memory_by_id-map i state [] id = refl
memory_by_id-map i state (m ∷ rows) id = ground (arith, memory_by_id-map i state rows id)

pub set_lifecycle_kept :
    (i : ℕ) (state : MemoryLifecycle) (n : MemoryEntry)
    → (n.id ≡ i → n.lifecycle ≡ state)
    → set_lifecycle i state n ≡ n
set_lifecycle_kept i state n h = elim (Bool-cases (n.id == i)) [
  | inl own ↦ rw own (ap (λ s. record n { lifecycle = s }) (sym (h (eq_of_test n.id i own))))
  | inr other ↦ rw other refl
]

set_lifecycle-id :
    (i : ℕ) (state : MemoryLifecycle) (m : MemoryEntry) → (set_lifecycle i state m).id ≡ m.id
set_lifecycle-id i state m = elim (Bool-cases (m.id == i)) [
  | inl own ↦ rw own refl
  | inr other ↦ rw other refl
]

pub Distinct-map :
    (i : ℕ) (state : MemoryLifecycle) (rows : List MemoryEntry)
    → Distinct rows
    → Distinct (map (set_lifecycle i state) rows)
Distinct-map i state [] h = h
Distinct-map i state (m ∷ rows) (fresh, rest) = (
  memory_by_id-map i state rows (set_lifecycle i state m).id
      ∙ ap (λ id. set_if i state (memory_by_id rows id)) (set_lifecycle-id i state m)
      ∙ ap (set_if i state) fresh,
  Distinct-map i state rows rest,
)

-- A new entry.
pub Distinct_snoc :
    (rows : List MemoryEntry) (m : MemoryEntry)
    → Distinct rows
    → memory_by_id rows m.id ≡ none
    → Distinct (rows ++ m ∷ [])
Distinct_snoc [] m h fresh = (refl, tt)
Distinct_snoc (n ∷ rows) m (alone, rest) fresh = elim (Bool-cases (n.id == m.id)) [
  | inl own ↦ let wrong = rw own at fresh in cc
  | inr other ↦
      let apart : (m.id == n.id) ≡ false = ground (arith, other) in
      (
        find-snoc_miss (λ (v : MemoryEntry). v.id == n.id) rows m apart ∙ alone,
        Distinct_snoc rows m rest (rw other at fresh),
      )
]

-- Setting the lifecycle of rows that have another identifier changes none of them.
set_absent :
    (i : ℕ) (state : MemoryLifecycle) (rows : List MemoryEntry)
    → memory_by_id rows i ≡ none
    → map (set_lifecycle i state) rows ≡ rows
set_absent i state [] h = refl
set_absent i state (m ∷ rows) h = elim (Bool-cases (m.id == i)) [
  | inl own ↦ let wrong = rw own at h in cc
  | inr other ↦ rw other (ap (λ r. m ∷ r) (set_absent i state rows (rw other at h)))
]

-- Setting an entry to the lifecycle that it has changes nothing.
pub set_same :
    (i : ℕ) (rows : List MemoryEntry) (m : MemoryEntry)
    → Distinct rows
    → memory_by_id rows i ≡ some m
    → map (set_lifecycle i m.lifecycle) rows ≡ rows
set_same i [] m h found = cc
set_same i (n ∷ rows) m (alone, rest) found = elim (Bool-cases (n.id == i)) [
  | inl own ↦
      let at_n : n ≡ m = some-inj (rw own at found) in
      let absent : memory_by_id rows i ≡ none =
        subst (λ k. memory_by_id rows k ≡ none) (eq_of_test n.id i own) alone in
      ap (λ x. x ∷ map (set_lifecycle i m.lifecycle) rows)
        (set_lifecycle_kept i m.lifecycle n (λ _. ap (λ (v : MemoryEntry). v.lifecycle) at_n))
      ∙ ap (λ r. n ∷ r) (set_absent i m.lifecycle rows absent)
  | inr other ↦ rw other (ap (λ r. n ∷ r) (set_same i rows m rest (rw other at found)))
]

found_after :
    (rows : List MemoryEntry) (m n : MemoryEntry)
    → is_some (memory_by_id rows n.id) ≡ true
    → is_some (memory_by_id (m ∷ rows) n.id) ≡ true
found_after rows m n h = ground (arith, h)

-- Every row's identifier is found.
pub rows_found :
    (rows : List MemoryEntry)
    → All (λ (m : MemoryEntry). is_some (memory_by_id rows m.id) ≡ true) rows
rows_found [] = tt
rows_found (m ∷ rows) =
    (rw (eq_self m.id) refl, All-map rows (found_after rows m) (rows_found rows))
