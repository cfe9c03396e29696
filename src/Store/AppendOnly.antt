-- ===== src/Store/AppendOnly.antt =====
-- The tables of src/sarmady/storage/sqlite/ that are only appended to.
pub mod Bundle
pub mod History
use mathlib.Core.Path.{subst}
use mathlib.Core.List.{append-nil, append_assoc}
use sarmady.Prelude.{
  ℕ, ◌<◌, ◌≡◌, refl, sym, ap, ◌∙◌, String, Bool, true, false, List, [], ◌∷◌, ◌++◌, All, All-append,
  All-map, Bool-cases, inl, inr, Option, none, some, arith,
}
use sarmady.Outcome.{ok, value_error, or_raise, ok-inj, >>=-eq-ok}
use sarmady.Time.{DateTime}
use sarmady.Memory.{MemoryLifecycle, MemoryLifecycleEvent}
use sarmady.Store.{
  Db, LogKind, LogEntry, max_seq, frontier, log, logged, memory_lifecycle_event, memory_by_id,
}
use sarmady.Store.Memory.{
  insert_memory_event, same_lifecycle, next_state, apply_state, record_memory_event_in_tx,
}
use sarmady.Store.Writes.{log-eq-ok, insert_memory_event-eq-ok}

-- A list and the same list with further rows.
pub record Prefix {ℓ} {A : Type ℓ} (xs ys : List A) : Type ℓ where
  pub rows : List A
  pub appended : ys ≡ xs ++ rows

pub Prefix-refl {ℓ} : {A : Type ℓ} {xs : List A} → Prefix xs xs
Prefix-refl {xs = xs} = record { rows = []; appended = sym (append-nil xs) }

pub Prefix-snoc {ℓ} : {A : Type ℓ} (xs : List A) (x : A) → Prefix xs (xs ++ x ∷ [])
Prefix-snoc xs x = record { rows = x ∷ []; appended = refl }

Prefix-trans {ℓ} : {A : Type ℓ} {xs ys zs : List A} → Prefix xs ys → Prefix ys zs → Prefix xs zs
Prefix-trans {xs = xs} f g = record {
  rows = f.rows ++ g.rows;
  appended = g.appended ∙ ap (λ l. l ++ g.rows) f.appended ∙ append_assoc xs f.rows g.rows;
}

-- The log with further entries, whose sequence numbers are above all that were there.
pub record LogGrows (xs ys : List LogEntry) : Type 0 where
  pub entries : List LogEntry
  pub appended : ys ≡ xs ++ entries
  pub above : All (λ (e : LogEntry). max_seq xs < e.seq) entries

below_append : (xs ys : List LogEntry) (n : ℕ) → max_seq (xs ++ ys) < n → max_seq xs < n
below_append [] ys n h = omega arith
below_append (x ∷ xs) ys n h = ground (arith, below_append xs ys n, h)

pub LogGrows-refl : {xs : List LogEntry} → LogGrows xs xs
LogGrows-refl {xs} = record { entries = []; appended = sym (append-nil xs); above = tt }

LogGrows-trans : {xs ys zs : List LogEntry} → LogGrows xs ys → LogGrows ys zs → LogGrows xs zs
LogGrows-trans {xs} {ys} f g = record {
  entries = f.entries ++ g.entries;
  appended = g.appended ∙ ap (λ l. l ++ g.entries) f.appended ∙ append_assoc xs f.entries g.entries;
  above =
      All-append _ f.entries g.entries f.above
        (All-map g.entries (λ e h. below_append xs f.entries e.seq (rw f.appended at h)) g.above);
}

-- What a write may do: rows of the canonical tables are neither changed nor removed.
pub record Appended (a b : Db) : Type 0 where
  pub semantic_log : LogGrows a.semantic_log b.semantic_log
  pub events : Prefix a.events b.events
  pub evidence : Prefix a.evidence b.evidence
  pub claims : Prefix a.claims b.claims
  pub claim_relations : Prefix a.claim_relations b.claim_relations
  pub memory_lifecycle_events : Prefix a.memory_lifecycle_events b.memory_lifecycle_events
  pub agents : Prefix a.agents b.agents

pub Appended-trans : {a b c : Db} → Appended a b → Appended b c → Appended a c
Appended-trans f g = record {
  semantic_log = LogGrows-trans f.semantic_log g.semantic_log;
  events = Prefix-trans f.events g.events;
  evidence = Prefix-trans f.evidence g.evidence;
  claims = Prefix-trans f.claims g.claims;
  claim_relations = Prefix-trans f.claim_relations g.claim_relations;
  memory_lifecycle_events = Prefix-trans f.memory_lifecycle_events g.memory_lifecycle_events;
  agents = Prefix-trans f.agents g.agents;
}

pub Appended-of :
    {a b : Db}
    → LogGrows a.semantic_log b.semantic_log
    → Prefix a.events b.events
    → Prefix a.evidence b.evidence
    → Prefix a.claims b.claims
    → Prefix a.claim_relations b.claim_relations
    → Prefix a.memory_lifecycle_events b.memory_lifecycle_events
    → Prefix a.agents b.agents
    → Appended a b
Appended-of l e v c r m g = record {
  semantic_log = l;
  events = e;
  evidence = v;
  claims = c;
  claim_relations = r;
  memory_lifecycle_events = m;
  agents = g;
}

pub Appended-refl : (a : Db) → Appended a a
Appended-refl a =
    Appended-of LogGrows-refl Prefix-refl Prefix-refl Prefix-refl Prefix-refl Prefix-refl
      Prefix-refl

LogGrows-snoc :
    (xs : List LogEntry) (e : LogEntry) → max_seq xs < e.seq → LogGrows xs (xs ++ e ∷ [])
LogGrows-snoc xs e h = record { entries = e ∷ []; appended = refl; above = (h, tt) }

pub Appended-ok : {a b c : Db} → ok b ≡ ok c → Appended a b → Appended a c
Appended-ok {a} e u = subst (Appended a) (ok-inj e) u

pub Appended-log :
    (kind : LogKind) (i : ℕ) (t : DateTime) (db : Db) {db' : Db}
    → log kind i t db ≡ ok db'
    → Appended db db'
unfolding frontier
Appended-log kind i t db h =
    let (_, e) = log-eq-ok kind i t db h in
    let written : Appended db (logged kind i t db) =
      Appended-of (LogGrows-snoc db.semantic_log _ (omega arith)) Prefix-refl Prefix-refl
        Prefix-refl Prefix-refl Prefix-refl Prefix-refl in
    Appended-ok e written

Appended-apply_state :
    (uuid_text : ℕ → String) (e : MemoryLifecycleEvent) (before after : MemoryLifecycle) (db : Db)
    → Appended db (apply_state uuid_text e before after db)
unfolding apply_state
Appended-apply_state uuid_text e before after db = elim (Bool-cases (same_lifecycle after before)) [
  | inl same ↦ rw same (Appended-refl db)
  | inr moved ↦ rw moved (
      Appended-of LogGrows-refl Prefix-refl Prefix-refl Prefix-refl Prefix-refl Prefix-refl
        Prefix-refl)
]

pub Appended-record_memory_event_in_tx :
    (uuid_text : ℕ → String) (e : MemoryLifecycleEvent) (update_state : Bool) (db : Db) {db' : Db}
    → record_memory_event_in_tx uuid_text e update_state db ≡ ok db'
    → Appended db db'
unfolding record_memory_event_in_tx
Appended-record_memory_event_in_tx uuid_text e update_state db h =
    let (entry, _, h1) =
      >>=-eq-ok
        (or_raise (memory_by_id db.memory_entries e.memory_entry_id)
          (value_error "unknown memory entry"))
        _ h in
    let (after, _, h2) = >>=-eq-ok (next_state update_state entry.lifecycle e.event_kind) _ h1 in
    let (db1, inserted, h3) = >>=-eq-ok (insert_memory_event e db) _ h2 in
    let (db2, noted, h4) = >>=-eq-ok (log memory_lifecycle_event e.id e.occurred_at db1) _ h3 in
    let with_event = Appended-ok (insert_memory_event-eq-ok e db inserted) (
      Appended-of LogGrows-refl Prefix-refl Prefix-refl Prefix-refl Prefix-refl
        (Prefix-snoc db.memory_lifecycle_events e) Prefix-refl) in
    let noted' = Appended-log memory_lifecycle_event e.id e.occurred_at db1 noted in
    Appended-ok h4 (
      Appended-trans with_event
        (Appended-trans noted' (Appended-apply_state uuid_text e entry.lifecycle after db2)))
