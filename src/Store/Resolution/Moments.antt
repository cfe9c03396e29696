-- ===== src/Store/Resolution/Moments.antt =====
-- The timeline of a key, when a claim and a relation join the log, and its replay.
use mathlib.Core.Path.{ap₂}
use mathlib.Core.List.{append_assoc, append-nil, map-append}
use sarmady.Prelude.{
  ℕ, suc, ◌<◌, ◌≡◌, refl, sym, ap, ◌∙◌, Bool, true, false, Option, none, List, [], ◌∷◌, ◌++◌,
  String, map, arith, any_of, is_some, nat_eq, string_eq, ◌==◌, ◌&&◌, eq_self, find-snoc_hit,
  find-passes, any_of-append, All-append, Option-cases, Bool-cases, inl, inr, if◌then◌else◌,
}
use sarmady.Outcome.{Outcome, ok, err, ◌>>=◌}
use sarmady.Time.{DateTime}
use sarmady.Epistemic.{Claim, ClaimRelation}
use sarmady.Store.{
  LogKind, LogEntry, claim, claim_relation, is_entry, max_seq, claim_by_id, relation_by_id,
}
use sarmady.Store.Resolution.{
  claim_row, claim_rows, relation_row, relation_rows, in_rows, Moment, admitted, related,
  sort_moments, claim_moment, relation_moment, Lineage, revise, replay,
}
use sarmady.Store.Resolution.Rows.{
  claim_rows-append, claim_rows_other, claim_rows_unlogged, relation_rows-append,
  relation_rows_other, relation_rows_unlogged, relation_rows_new_claim, Untouched,
}
use sarmady.Store.Resolution.Sorting.{Before, sort_moments_latest}

-- Replaying a longer timeline is replaying its parts in turn.
pub replay-append :
    (state : Lineage) (a b : List (ℕ × Moment))
    → replay state (a ++ b) ≡ (replay state a >>= λ state'. replay state' b)
unfolding replay
replay-append state [] b = refl
replay-append state (m ∷ a) b = go (revise state m.1) (λ state'. replay-append state' a b)
  where
    go :
        (r : Outcome Lineage)
        → ((state' : Lineage)
            → replay state' (a ++ b) ≡ (replay state' a >>= λ state''. replay state'' b))
        → (r >>= λ state'. replay state' (a ++ b))
          ≡ ((r >>= λ state'. replay state' a) >>= λ state''. replay state'' b)
    go (ok state') ih = ih state'
    go (err e) ih = refl

-- A claim of the rows is a claim of the table.
pub in_rows-claim_by_id :
    (claims : List Claim) (s p : String) (known : Option ℕ) (log : List LogEntry) (i : ℕ)
    → in_rows i (claim_rows claims s p known log) ≡ true
    → is_some (claim_by_id claims i) ≡ true
unfolding claim_rows
in_rows-claim_by_id claims s p known [] i h = cc
in_rows-claim_by_id claims s p known (e ∷ log) i h =
    elim (Option-cases (claim_by_id claims e.ref_id)) [
      | inl absent ↦ ground (arith, in_rows-claim_by_id claims s p known log i)
      | inr (c, found) ↦ ground (
        arith,
        in_rows-claim_by_id claims s p known log i,
        find-passes (λ (x : Claim). x.id == e.ref_id) claims c found,
        any_of-append (λ (row : Claim × ℕ). row.0.id == i) (claim_row claims s p known e)
            (claim_rows claims s p known log),
      )
    ]

claim_row-Before :
    (claims : List Claim) (s p : String) (known : Option ℕ) (e : LogEntry) (n : ℕ)
    → e.seq < n
    → Before n (map claim_moment (claim_row claims s p known e))
claim_row-Before claims s p known e n h = elim (Option-cases (claim_by_id claims e.ref_id)) [
  | inl absent ↦ ground arith
  | inr (c, found) ↦ ground arith
]

claim_rows-Before :
    (claims : List Claim) (s p : String) (known : Option ℕ) (log : List LogEntry) (n : ℕ)
    → max_seq log < n
    → Before n (map claim_moment (claim_rows claims s p known log))
unfolding claim_rows
claim_rows-Before claims s p known [] n h = tt
claim_rows-Before claims s p known (e ∷ log) n h = rw map-append (
    All-append (λ (m : ℕ × Moment). m.0 < n) (map claim_moment (claim_row claims s p known e)) _
      (claim_row-Before claims s p known e n (ground arith))
      (claim_rows-Before claims s p known log n (ground arith)))

relation_row-Before :
    (relations : List ClaimRelation) (rows : List (Claim × ℕ)) (known : Option ℕ) (e : LogEntry)
    (n : ℕ)
    → e.seq < n
    → Before n (map relation_moment (relation_row relations rows known e))
relation_row-Before relations rows known e n h =
    elim (Option-cases (relation_by_id relations e.ref_id)) [
      | inl absent ↦ ground arith
      | inr (r, found) ↦ ground arith
    ]

relation_rows-Before :
    (relations : List ClaimRelation) (rows : List (Claim × ℕ)) (known : Option ℕ)
    (log : List LogEntry) (n : ℕ)
    → max_seq log < n
    → Before n (map relation_moment (relation_rows relations rows known log))
unfolding relation_rows
relation_rows-Before relations rows known [] n h = tt
relation_rows-Before relations rows known (e ∷ log) n h = rw map-append (
    All-append (λ (m : ℕ × Moment). m.0 < n)
      (map relation_moment (relation_row relations rows known e)) _
      (relation_row-Before relations rows known e n (ground arith))
      (relation_rows-Before relations rows known log n (ground arith)))

-- The timeline of a key over the tables, with nothing hidden by `known_at`.
abbrev pub rows_of : List Claim → List LogEntry → String → String → List (Claim × ℕ)
rows_of claims log s p = claim_rows claims s p none log

abbrev pub moments :
    List Claim → List ClaimRelation → List LogEntry → String → String → List (ℕ × Moment)
moments claims relations log s p = sort_moments (
    map claim_moment (rows_of claims log s p)
    ++ map relation_moment (relation_rows relations (rows_of claims log s p) none log))

abbrev pub next_entry : List LogEntry → LogKind → ℕ → DateTime → LogEntry
next_entry log kind i t = record {
  seq = suc (max_seq log);
  kind = kind;
  ref_id = i;
  recorded_at = t;
}

abbrev pub is_key : Claim → String → String → Bool
is_key c s p = c.subject == s && c.predicate == p

module _ (claims : List Claim) (relations : List ClaimRelation) (log : List LogEntry) (c : Claim)
    (t : DateTime) (new : claim_by_id claims c.id ≡ none)
    (unlogged : any_of (is_entry claim c.id) log ≡ false)
    (untouched : Untouched relations c.id) where
  abbrev claims' : List Claim
  claims' = claims ++ c ∷ []

  abbrev log' : List LogEntry
  log' = log ++ next_entry log claim c.id t ∷ []

  new_row :
      (s p : String)
      → claim_row claims' s p none (next_entry log claim c.id t)
        ≡ (if is_key c s p then (c, suc (max_seq log)) ∷ [] else [])
  new_row s p =
      ground (arith, find-snoc_hit (λ (x : Claim). x.id == c.id) claims c (eq_self c.id) new)

  -- The rows gain the claim, if the key is its own.
  pub rows_of-claim :
      (s p : String)
      → rows_of claims' log' s p
        ≡ rows_of claims log s p ++ (if is_key c s p then (c, suc (max_seq log)) ∷ [] else [])
  unfolding claim_rows
  rows_of-claim s p =
      claim_rows-append claims' s p none log _
      ∙ ap₂ ◌++◌ (claim_rows_unlogged claims s p none c log unlogged) (append-nil _ ∙ new_row s p)

  relation_rows_same :
      (s p : String)
      → relation_rows relations (rows_of claims' log' s p) none log'
        ≡ relation_rows relations (rows_of claims log s p) none log
  relation_rows_same s p = rw (rows_of-claim s p) (
      rw (relation_rows_other relations _ none log (next_entry log claim c.id t) refl)
        (elim (Bool-cases (is_key c s p)) [
          | inl own ↦ rw own (
              relation_rows_new_claim relations (rows_of claims log s p) none c (suc (max_seq log))
                log untouched)
          | inr foreign ↦ rw foreign (rw append-nil refl)
        ]))

  -- The timeline gains the admission as its last moment, if the key is the claim's own.
  pub moments_claim_own :
      (s p : String)
      → is_key c s p ≡ true
      → moments claims' relations log' s p
        ≡ moments claims relations log s p ++ (suc (max_seq log), admitted c.id) ∷ []
  moments_claim_own s p h =
      ap sort_moments (
        rw (relation_rows_same s p, rows_of-claim s p, h, map-append)
          (append_assoc (map claim_moment (rows_of claims log s p)) _ _))
      ∙ sort_moments_latest (suc (max_seq log), admitted c.id)
          (map claim_moment (rows_of claims log s p))
          (map relation_moment (relation_rows relations (rows_of claims log s p) none log))
          (claim_rows-Before claims s p none log (suc (max_seq log)) (omega arith))
          (relation_rows-Before relations (rows_of claims log s p) none log (suc (max_seq log))
            (omega arith))

  pub moments_claim_other :
      (s p : String)
      → is_key c s p ≡ false
      → moments claims' relations log' s p ≡ moments claims relations log s p
  moments_claim_other s p h = rw (relation_rows_same s p, rows_of-claim s p, h) (rw append-nil refl)

module _ (claims : List Claim) (relations : List ClaimRelation) (log : List LogEntry)
    (r : ClaimRelation) (t : DateTime) (new : relation_by_id relations r.id ≡ none)
    (unlogged : any_of (is_entry claim_relation r.id) log ≡ false) where
  abbrev entry : LogEntry
  entry = next_entry log claim_relation r.id t

  abbrev relations' : List ClaimRelation
  relations' = relations ++ r ∷ []

  abbrev joins : String → String → Bool
  joins s p =
      in_rows r.source_claim_id (rows_of claims log s p)
      && in_rows r.target_claim_id (rows_of claims log s p)

  pub rows_of-relation :
      (s p : String) → rows_of claims (log ++ entry ∷ []) s p ≡ rows_of claims log s p
  rows_of-relation s p = claim_rows_other claims s p none log entry refl

  new_relation_row :
      (s p : String)
      → relation_row relations' (rows_of claims log s p) none entry
        ≡ (if joins s p then (r, suc (max_seq log)) ∷ [] else [])
  new_relation_row s p =
      ground
        (arith, find-snoc_hit (λ (x : ClaimRelation). x.id == r.id) relations r (eq_self r.id) new)

  relation_rows_new :
      (s p : String)
      → relation_rows relations' (rows_of claims (log ++ entry ∷ []) s p) none (log ++ entry ∷ [])
        ≡ relation_rows relations (rows_of claims log s p) none log
          ++ (if joins s p then (r, suc (max_seq log)) ∷ [] else [])
  unfolding relation_rows
  relation_rows_new s p = rw (rows_of-relation s p) (
      relation_rows-append relations' (rows_of claims log s p) none log (entry ∷ [])
      ∙ ap₂ ◌++◌ (relation_rows_unlogged relations (rows_of claims log s p) none r log unlogged)
          (append-nil _ ∙ new_relation_row s p))

  -- The timeline gains the relation as its last moment, if both ends are claims of the key.
  pub moments_relation_joined :
      (s p : String)
      → joins s p ≡ true
      → moments claims relations' (log ++ entry ∷ []) s p
        ≡ moments claims relations log s p ++ (suc (max_seq log), related r) ∷ []
  moments_relation_joined s p h =
      ap sort_moments (
        rw (relation_rows_new s p, rows_of-relation s p, h, map-append)
          (sym (append_assoc (map claim_moment (rows_of claims log s p)) _ _)))
      ∙ sort_moments_latest (suc (max_seq log), related r)
          (map claim_moment (rows_of claims log s p)
            ++ map relation_moment (relation_rows relations (rows_of claims log s p) none log))
          []
          (All-append (λ (m : ℕ × Moment). m.0 < suc (max_seq log)) _ _
            (claim_rows-Before claims s p none log (suc (max_seq log)) (omega arith))
            (relation_rows-Before relations (rows_of claims log s p) none log (suc (max_seq log))
              (omega arith)))
          tt
      ∙ rw append-nil refl

  pub moments_relation_apart :
      (s p : String)
      → joins s p ≡ false
      → moments claims relations' (log ++ entry ∷ []) s p ≡ moments claims relations log s p
  moments_relation_apart s p h =
      rw (relation_rows_new s p, rows_of-relation s p, h) (rw append-nil refl)
