-- ===== src/Store/Migration/Idempotent.antt =====
-- The migration of src/sarmady/storage/sqlite/schema.py is idempotent: an interrupted one is run
-- again on the next opening of the store.
use mathlib.Core.Path.{subst}
use sarmady.Prelude.{
  All-map, ℕ, suc, ◌≡◌, refl, sym, ap, ◌∙◌, Bool, true, false, not, List, [], ◌∷◌, ◌++◌, ◌==◌,
  any_of, select, ltb, nat_eq, if◌then◌else◌, All, arith, Bool-cases, inl, inr, any_of-append,
  eq_self,
}
use sarmady.Outcome.{ok, ok-inj, raise_if-eq-ok}
use sarmady.Memory.{MemoryEntry, MemoryLifecycleEvent}
use sarmady.Store.{Db, memory_lifecycle_event, frontier, is_entry}
use sarmady.Store.Migration.{
  created_backfill, insert_or_ignore, log_if_absent, backfill_entries, has_no_event,
  backfill_memory_created_events, backfill_projection_lineage, backfill_below_six, migrate,
}
use sarmady.Store.Migration.Retry.{migrated_rows}

module _ {ℓ} {A : Type ℓ} (p : A → Bool) where
  any_of-front : (xs ys : List A) → any_of p xs ≡ true → any_of p (xs ++ ys) ≡ true
  any_of-front xs ys h = any_of-append p xs ys ∙ (rw h refl)

  any_of-last : (xs : List A) (y : A) → p y ≡ true → any_of p (xs ++ y ∷ []) ≡ true
  any_of-last [] y h = rw h refl
  any_of-last (x ∷ xs) y h = ground (arith, any_of-last xs y h)

-- The event of an entry is stored and logged.
abbrev has_event : ℕ → Db → Bool
has_event id db = any_of (λ (f : MemoryLifecycleEvent). f.id == id) db.memory_lifecycle_events

abbrev has_log : ℕ → Db → Bool
has_log id db = any_of (is_entry memory_lifecycle_event id) db.semantic_log

abbrev covers_entry : ℕ → Db → Bool
covers_entry id db =
    any_of (λ (f : MemoryLifecycleEvent). f.memory_entry_id == id) db.memory_lifecycle_events

-- The second store has what the first has.
record More (a b : Db) : Type 0 where
  pub entries : b.memory_entries ≡ a.memory_entries
  pub events : (id : ℕ) → has_event id a ≡ true → has_event id b ≡ true
  pub logged : (id : ℕ) → has_log id a ≡ true → has_log id b ≡ true
  pub covered : (id : ℕ) → covers_entry id a ≡ true → covers_entry id b ≡ true

More-refl : (a : Db) → More a a
More-refl a = record { entries = refl; events = λ id h. h; logged = λ id h. h; covered = λ id h. h }

More-trans : {a b c : Db} → More a b → More b c → More a c
More-trans f g = record {
  entries = g.entries ∙ f.entries;
  events = λ id h. g.events id (f.events id h);
  logged = λ id h. g.logged id (f.logged id h);
  covered = λ id h. g.covered id (f.covered id h);
}

module _ (e : MemoryLifecycleEvent) (db : Db) where
  More-insert_or_ignore :
      More db (insert_or_ignore e db) × (has_event e.id (insert_or_ignore e db) ≡ true)
  More-insert_or_ignore = elim (Bool-cases (has_event e.id db)) [
    | inl there ↦ rw there (More-refl db, there)
    | inr absent ↦ rw absent (
      record {
        entries = refl;
        events = λ id h. any_of-front _ db.memory_lifecycle_events (e ∷ []) h;
        logged = λ id h. h;
        covered = λ id h. any_of-front _ db.memory_lifecycle_events (e ∷ []) h;
      },
      any_of-last (λ (f : MemoryLifecycleEvent). f.id == e.id) db.memory_lifecycle_events e
          (eq_self e.id),
    )
  ]

  More-log_if_absent : More db (log_if_absent e db) × (has_log e.id (log_if_absent e db) ≡ true)
  More-log_if_absent = elim (Bool-cases (has_log e.id db)) [
    | inl there ↦ rw there (More-refl db, there)
    | inr absent ↦ rw absent (
      record {
        entries = refl;
        events = λ id h. h;
        logged = λ id h. any_of-front _ db.semantic_log _ h;
        covered = λ id h. h;
      },
      any_of-last (is_entry memory_lifecycle_event e.id) db.semantic_log
          (record {
            seq = suc (frontier db);
            kind = memory_lifecycle_event;
            ref_id = e.id;
            recorded_at = e.occurred_at;
          })
          (eq_self e.id),
    )
  ]

-- The entry's event is there, stored and logged.
abbrev Filled : (ℕ → ℕ) → Db → MemoryEntry → Type 0
Filled uuid5 db m = (has_event (uuid5 m.id) db ≡ true) × (has_log (uuid5 m.id) db ≡ true)

module _ (uuid5 : ℕ → ℕ) where
  abbrev fill : MemoryEntry → Db → Db
  fill m db =
      log_if_absent (created_backfill uuid5 m) (insert_or_ignore (created_backfill uuid5 m) db)

  More-fill : (m : MemoryEntry) (db : Db) → More db (fill m db) × Filled uuid5 (fill m db) m
  More-fill m db =
      let e = created_backfill uuid5 m in
      let (more, stored) = More-insert_or_ignore e db in
      let (more', noted) = More-log_if_absent e (insert_or_ignore e db) in
      (More-trans more more', (more'.events e.id stored, noted))

  Filled-More : {a b : Db} → More a b → (m : MemoryEntry) → Filled uuid5 a m → Filled uuid5 b m
  Filled-More more m (stored, noted) =
      (more.events (uuid5 m.id) stored, more.logged (uuid5 m.id) noted)

  More-backfill_entries :
      (ms : List MemoryEntry) (db : Db)
      → More db (backfill_entries uuid5 ms db)
        × All (Filled uuid5 (backfill_entries uuid5 ms db)) ms
  unfolding backfill_entries
  More-backfill_entries [] db = (More-refl db, tt)
  More-backfill_entries (m ∷ ms) db =
      let (more, done) = More-fill m db in
      let (rest, all) = More-backfill_entries ms (fill m db) in
      (More-trans more rest, (Filled-More rest m done, all))

  -- Entries whose events are there are passed over.
  fill-Filled : (m : MemoryEntry) (db : Db) → Filled uuid5 db m → fill m db ≡ db
  fill-Filled m db (stored, noted) = rw (stored, noted) refl

  backfill_entries-Filled :
      (ms : List MemoryEntry) (db : Db)
      → All (Filled uuid5 db) ms
      → backfill_entries uuid5 ms db ≡ db
  unfolding backfill_entries
  backfill_entries-Filled [] db all = refl
  backfill_entries-Filled (m ∷ ms) db all =
      ap (backfill_entries uuid5 ms) (fill-Filled m db all.0) ∙ backfill_entries-Filled ms db all.1

select_rest {ℓ κ} :
    {A : Type ℓ} (P : A → Type κ) (p : A → Bool) (x : A) (xs : List A) (b : Bool)
    → All P (if b then x ∷ select p xs else select p xs)
    → All P (select p xs)
select_rest P p x xs true all = all.1
select_rest P p x xs false all = all

select-All {ℓ κ} :
    {A : Type ℓ} (P : A → Type κ) (p q : A → Bool) (xs : List A)
    → ((x : A) → q x ≡ true → p x ≡ true)
    → All P (select p xs)
    → All P (select q xs)
select-All P p q [] sub all = tt
select-All P p q (x ∷ xs) sub all = elim (Bool-cases (q x)) [
  | inl chosen ↦
      let (own, rest) = rw (sub x chosen) at all in rw chosen (own, select-All P p q xs sub rest)
  | inr passed ↦ rw passed (select-All P p q xs sub (select_rest P p x xs (p x) all))
]

still_none : (a b : Bool) → (a ≡ true → b ≡ true) → not b ≡ true → not a ≡ true
still_none false b f h = refl
still_none true b f h = cc (f refl)

-- A second run finds nothing to fill in.
backfilled :
    (uuid5 : ℕ → ℕ) (db db' : Db)
    → More (backfill_memory_created_events uuid5 db) db'
    → backfill_memory_created_events uuid5 db' ≡ db'
unfolding backfill_memory_created_events
backfilled uuid5 db db' more =
    let ms = select (has_no_event db.memory_lifecycle_events) db.memory_entries in
    let (more', all) = More-backfill_entries uuid5 ms db in
    let both = More-trans more' more in
    let filled = All-map ms (Filled-More uuid5 more) all in
    let still =
      select-All (Filled uuid5 db') (has_no_event db.memory_lifecycle_events)
        (has_no_event db'.memory_lifecycle_events) db.memory_entries
        (λ m h. still_none (covers_entry m.id db) (covers_entry m.id db') (both.covered m.id) h)
        filled in
    backfill_entries-Filled uuid5
      (select (has_no_event db'.memory_lifecycle_events) db'.memory_entries) db'
      (subst (λ l. All (Filled uuid5 db') (select (has_no_event db'.memory_lifecycle_events) l))
        (sym both.entries) still)

below_six_twice :
    (b : Bool) (db : Db) → backfill_below_six b (backfill_below_six b db) ≡ backfill_below_six b db
unfolding backfill_projection_lineage frontier
below_six_twice false db = refl
below_six_twice true db =
    ap (λ rows. record db { context_projections = rows })
      (migrated_rows (frontier db) (frontier db) db.context_projections)

More-below_six : (b : Bool) (db : Db) → More db (backfill_below_six b db)
unfolding backfill_projection_lineage
More-below_six false db = More-refl db
More-below_six true db = record {
  entries = refl;
  events = λ id h. h;
  logged = λ id h. h;
  covered = λ id h. h;
}

-- Migrating a store of any supported version a second time, before the new version is recorded,
-- changes nothing, whatever identifiers `uuid5` gives.
pub migrate_idem :
    (uuid5 : ℕ → ℕ) (version : ℕ) (db migrated : Db)
    → migrate uuid5 version db ≡ ok migrated
    → migrate uuid5 version migrated ≡ ok migrated
unfolding migrate
migrate_idem uuid5 version db migrated h =
    let (supported, h1) = raise_if-eq-ok (ltb 7 version) _ _ h in
    let filled = backfill_memory_created_events uuid5 db in
    let done = backfill_below_six (ltb version 6) filled in
    let again : backfill_memory_created_events uuid5 done ≡ done =
      backfilled uuid5 db done (More-below_six (ltb version 6) filled) in
    subst (λ d. migrate uuid5 version d ≡ ok d) (ok-inj h1)
      (rw (supported, again) (ap ok (below_six_twice (ltb version 6) filled)))
