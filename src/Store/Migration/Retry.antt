-- ===== src/Store/Migration/Retry.antt =====
-- The migration of src/sarmady/storage/sqlite/schema.py run again, and the projections that it found.
use mathlib.Core.Path.{subst}
use sarmady.Prelude.{
  ℕ, ◌≡◌, refl, sym, ap, ◌∙◌, String, Bool, true, false, not, List, [], ◌∷◌, ◌++◌, map, ◌==◌, elem,
  ltb, nat_eq, string_eq, is_some, All, find-All, arith, Bool-cases, inl, inr, eq_self,
}
use sarmady.Outcome.{
  Exception, Outcome-cases, ok, err, key_error, or_raise, or_raise-eq-ok, ok-inj, >>=-eq-ok,
  raise_if-eq-ok,
}
use sarmady.Cognition.{CognitiveRequest}
use sarmady.Store.{
  Db, ProjectionRow, frontier, unproven_dependency, make_stale, projection_by_id, agent_by_id,
}
use sarmady.Host.{Host}
use sarmady.Store.Cognitive.{projection_is_stale, create_cognitive_request}
use sarmady.Store.Migration.{
  backfill_memory_created_events, with_unproven, backfill_projection_lineage, migrate,
}

-- The row after the migration of the lineage.
abbrev pub migrated_row : ℕ → ProjectionRow → ProjectionRow
migrated_row at row =
    make_stale (λ r. true) "schema-v6-unproven-lineage-migration" at (with_unproven row)

elem_last : (k : String) (xs : List String) → elem k (xs ++ k ∷ []) ≡ true
elem_last k [] = rw (eq_self k) refl
elem_last k (x ∷ xs) = ground (arith, elem_last k xs)

with_unproven_depends :
    (row : ProjectionRow) → elem unproven_dependency (with_unproven row).dependencies ≡ true
with_unproven_depends row = elim (Bool-cases (elem unproven_dependency row.dependencies)) [
  | inl there ↦ rw there there
  | inr absent ↦ rw absent (elem_last unproven_dependency row.dependencies)
]

module _ (reason : String) (at : ℕ) (row : ProjectionRow) where
  make_stale_all : (make_stale (λ r. true) reason at row).stale ≡ true
  make_stale_all = elim (Bool-cases row.stale) [ inl old ↦ rw old refl | inr fresh ↦ rw fresh refl ]

  make_stale-dependencies : (make_stale (λ r. true) reason at row).dependencies ≡ row.dependencies
  make_stale-dependencies = elim (Bool-cases row.stale) [
    | inl old ↦ rw old refl
    | inr fresh ↦ rw fresh refl
  ]

migrated_row_unproven :
    (at : ℕ) (row : ProjectionRow)
    → elem unproven_dependency (migrated_row at row).dependencies ≡ true
migrated_row_unproven at row =
    subst (λ ds. elem unproven_dependency ds ≡ true)
      (sym (make_stale-dependencies "schema-v6-unproven-lineage-migration" at (with_unproven row)))
      (with_unproven_depends row)

migrated_row_stale : (at : ℕ) (row : ProjectionRow) → (migrated_row at row).stale ≡ true
migrated_row_stale at row =
    make_stale_all "schema-v6-unproven-lineage-migration" at (with_unproven row)

-- A row that is stale and depends on everything is not changed.
migrated_row_settled :
    (at : ℕ) (row : ProjectionRow)
    → row.stale ≡ true
    → elem unproven_dependency row.dependencies ≡ true
    → migrated_row at row ≡ row
migrated_row_settled at row stale depends = rw (depends, stale) refl

pub migrated_rows :
    (at at' : ℕ) (rows : List ProjectionRow)
    → map (migrated_row at') (map (migrated_row at) rows) ≡ map (migrated_row at) rows
migrated_rows at at' [] = refl
migrated_rows at at' (row ∷ rows) =
    ap (λ r. r ∷ map (migrated_row at') (map (migrated_row at) rows))
      (migrated_row_settled at' (migrated_row at row) (migrated_row_stale at row)
        (migrated_row_unproven at row))
    ∙ ap (λ l. migrated_row at row ∷ l) (migrated_rows at at' rows)

every_row_stale :
    (at : ℕ) (rows : List ProjectionRow)
    → All (λ (r : ProjectionRow). r.stale ≡ true) (map (migrated_row at) rows)
every_row_stale at [] = tt
every_row_stale at (row ∷ rows) = (migrated_row_stale at row, every_row_stale at rows)

-- A store whose projections are all stale.
abbrev StaleAll : Db → Type 0
StaleAll db = All (λ (r : ProjectionRow). r.stale ≡ true) db.context_projections

projection_is_stale-StaleAll :
    (db : Db) (id : ℕ) (b : Bool) → StaleAll db → projection_is_stale db id ≡ ok b → b ≡ true
unfolding projection_is_stale
projection_is_stale-StaleAll db id b all h =
    let (row, found, same) =
      >>=-eq-ok
        (or_raise (projection_by_id db.context_projections id)
          (key_error "unknown context projection"))
        _ h in
    let stale =
      find-All (λ (r : ProjectionRow). r.stale ≡ true)
        (λ (r : ProjectionRow). r.projection.id == id) db.context_projections row all
        (or_raise-eq-ok _ _ found) in
    subst (λ x. x ≡ true) (ok-inj same) stale

refused :
    (host : Host) (r : CognitiveRequest) (db later d : Db)
    → StaleAll db
    → create_cognitive_request host r db later ≡ ok d
    → true ≡ false
unfolding create_cognitive_request
refused host r db later d all h =
    let (_, h1) = raise_if-eq-ok (not (is_some (agent_by_id db.agents r.agent_id))) _ _ h in
    let (_, h2) =
      raise_if-eq-ok
        (not (is_some (projection_by_id db.context_projections r.context_projection_id))) _ _ h1 in
    let (stale, read, h3) = >>=-eq-ok (projection_is_stale db r.context_projection_id) _ h2 in
    let (fresh, _) = raise_if-eq-ok stale _ _ h3 in
    sym (projection_is_stale-StaleAll db r.context_projection_id stale all read) ∙ fresh

migrate-StaleAll :
    (uuid5 : ℕ → ℕ) (version : ℕ) (db migrated : Db)
    → ltb version 6 ≡ true
    → migrate uuid5 version db ≡ ok migrated
    → StaleAll migrated
unfolding migrate backfill_projection_lineage
migrate-StaleAll uuid5 version db migrated old h =
    let (_, h1) = raise_if-eq-ok (ltb 7 version) _ _ h in
    let filled = backfill_memory_created_events uuid5 db in
    subst StaleAll (ok-inj (rw old at h1))
      (every_row_stale (frontier filled) filled.context_projections)

-- No cognitive request is created on a projection that a migration from a version below 6 has found:
-- on the migrated store every call of `create_cognitive_request` raises.
pub create_cognitive_request-migrate :
    (host : Host) (uuid5 : ℕ → ℕ) (version : ℕ) (db migrated : Db) (r : CognitiveRequest)
    (later : Db)
    → ltb version 6 ≡ true
    → migrate uuid5 version db ≡ ok migrated
    → (e : Exception) × (create_cognitive_request host r migrated later ≡ err e)
create_cognitive_request-migrate host uuid5 version db migrated r later old h =
    elim (Outcome-cases (create_cognitive_request host r migrated later)) [
      | inl (d, accepted) ↦
          let wrong =
            refused host r migrated later d (migrate-StaleAll uuid5 version db migrated old h)
              accepted in
          cc
      | inr (e, raised) ↦ (e, raised)
    ]
