-- ===== src/Store/Projection/Freshness.antt =====
-- What a registration of src/sarmady/storage/sqlite/projection_store.py that reports a fresh
-- projection has shown, and which rows a commit leaves stale.
use Prim.Native.String.{◌++◌ as append}
use sarmady.Prelude.{
  ltb, String, ◌≡◌, refl, sym, ap, ◌∙◌, inl, inr, Bool, true, false, not, Option, none, some, List,
  [], ◌∷◌, ◌==◌, ◌&&◌, elem, any_of, is_some, nat_eq, string_eq, eq_self, In, arith, find-snoc_hit,
}
use sarmady.Outcome.{ok, value_error, or_raise, >>=-eq-ok, raise_if-eq-ok, ok-inj, or-false}
use sarmady.Host.{Host}
use sarmady.Context.{ContextRequest, ContextProjection, check_request}
use sarmady.Store.{
  Db, ProjectionRow, frontier, unproven_dependency, projection_by_id, request_by_id,
}
use sarmady.Store.Capture.{Capture}
use sarmady.Store.Projection.{
  Lineage, all_supported, lineage_of, validate_context_projection_refs, keys_changed_since,
}
use sarmady.Store.Projection.Registration.{
  same_request, keep_request, stale_already, projection_row, insert_projection, write_projection,
  register_context_projection,
}

keep_request-projections :
    (r : ContextRequest) (db : Db)
    → (keep_request r db).context_projections ≡ db.context_projections
unfolding keep_request
keep_request-projections r db = ground arith

not_some {ℓ} : {A : Type ℓ} (o : Option A) → is_some o ≡ false → o ≡ none
not_some none h = refl
not_some (some a) h = cc

insert_projection-eq-ok :
    (row : ProjectionRow) (db : Db) {db' : Db}
    → insert_projection row db ≡ ok db'
    → projection_by_id db'.context_projections row.projection.id ≡ some row
unfolding insert_projection
insert_projection-eq-ok row db h =
    let (fresh, written) =
      raise_if-eq-ok (is_some (projection_by_id db.context_projections row.projection.id)) _ _ h in
    ap (λ (q : Db). projection_by_id q.context_projections row.projection.id) (sym (ok-inj written))
    ∙ find-snoc_hit (λ v. v.projection.id == row.projection.id) db.context_projections row
        (eq_self row.projection.id) (not_some _ fresh)

-- What the transaction wrote.
pub record Registered (host : Host) (p : ContextProjection) (l : Lineage) (db db' : Db)
    (stale : Bool) : Type 0 where
  pub stored :
      projection_by_id db'.context_projections p.id ≡ some (projection_row p l stale (frontier db))
  pub not_ahead : ltb (frontier db) p.canonical_frontier ≡ false
  pub current : (not l.proven && ltb p.canonical_frontier (frontier db)) ≡ false
  pub flag : stale ≡ stale_already host db p l

write_projection-Registered :
    (host : Host) (p : ContextProjection) (r : ContextRequest) (l : Lineage) (db db' : Db)
    (stale : Bool)
    → write_projection host p r l db ≡ ok (db', stale)
    → Registered host p l db db' stale
unfolding write_projection
write_projection-Registered host p r l db db' stale h =
    let (not_ahead, h1) = raise_if-eq-ok (ltb (frontier db) p.canonical_frontier) _ _ h in
    let (current, h2) =
      raise_if-eq-ok (not l.proven && ltb p.canonical_frontier (frontier db)) _ _ h1 in
    let (_, _, h3) = >>=-eq-ok (validate_context_projection_refs db p) _ h2 in
    let (persisted, _, h4) =
      >>=-eq-ok
        (or_raise (request_by_id (keep_request r db).context_requests r.id)
          (value_error "context request id is already bound to different semantics"))
        _ h3 in
    let (_, h5) = raise_if-eq-ok (not (same_request persisted r)) _ _ h4 in
    let flag = stale_already host db p l in
    let (db2, inserted, h6) =
      >>=-eq-ok (insert_projection (projection_row p l flag (frontier db)) (keep_request r db)) _
        h5 in
    let result = ok-inj h6 in
    let same_flag = ap (λ (q : Db × Bool). q.1) result in
    let same_db = ap (λ (q : Db × Bool). q.0) result in
    record {
      stored =
          ap (λ (q : Db). projection_by_id q.context_projections p.id) (sym same_db)
          ∙ insert_projection-eq-ok (projection_row p l flag (frontier db)) (keep_request r db)
              inserted
          ∙ ap (λ b. some (projection_row p l b (frontier db))) same_flag;
      not_ahead = not_ahead;
      current = current;
      flag = sym same_flag;
    }

any_of-In {ℓ} :
    {A : Type ℓ} (test : A → Bool) (xs : List A) (a : A)
    → any_of test xs ≡ false
    → In a xs
    → test a ≡ false
any_of-In test [] a h found = elim found.lower [ ]
any_of-In test (x ∷ xs) a h (inl same) = ap test same ∙ ground arith
any_of-In test (x ∷ xs) a h (inr found) = any_of-In test xs a (ground arith) found

unproven_without_capture :
    (p : ContextProjection) (declared : List String) (l : Lineage)
    → lineage_of p declared none ≡ ok l
    → l.proven ≡ false
unfolding lineage_of
unproven_without_capture p declared l h = ap (λ (q : Lineage). q.proven) (sym (ok-inj h))

not_behind :
    (proven behind : Bool) → (not proven && behind) ≡ false → proven ≡ false → behind ≡ false
not_behind true behind h e = cc
not_behind false behind h e = h

not_stale_already :
    (host : Host) (db : Db) (p : ContextProjection) (l : Lineage) (key : String)
    → stale_already host db p l ≡ false
    → In key l.dependencies
    → elem key (keys_changed_since host.uuid_text db p.canonical_frontier db.semantic_log) ≡ false
unfolding stale_already
not_stale_already host db p l key h there =
    any_of-In
      (λ k. elem k (keys_changed_since host.uuid_text db p.canonical_frontier db.semantic_log))
      l.dependencies key
      (or-false (elem unproven_dependency l.dependencies && ltb p.canonical_frontier (frontier db))
        _ h).1
      there

-- A registration that reports a fresh projection has stored it as not stale, at a frontier that is
-- not ahead of the log's and, without a capture, is not behind it; no dependency that was stored
-- for it is among the keys that the log changes after that frontier.
pub register_context_projection_fresh :
    (host : Host) (p : ContextProjection) (r : ContextRequest) (declared : List String)
    (capture : Option Capture) (db db' : Db)
    → register_context_projection host p r declared capture db ≡ ok (db', false)
    → (row : ProjectionRow) × (projection_by_id db'.context_projections p.id ≡ some row)
      × (row.projection ≡ p)
      × (row.stale ≡ false)
      × (ltb (frontier db) p.canonical_frontier ≡ false)
      × (capture ≡ none → ltb p.canonical_frontier (frontier db) ≡ false)
      × ((key : String)
          → In key row.dependencies
          → elem key (keys_changed_since host.uuid_text db p.canonical_frontier db.semantic_log)
            ≡ false)
unfolding register_context_projection
register_context_projection_fresh host p r declared capture db db' h =
    let (_, h1) = raise_if-eq-ok (not (p.request_id == r.id)) _ _ h in
    let (r', _, h2) = >>=-eq-ok (check_request r) _ h1 in
    let (_, h3) =
      raise_if-eq-ok (not (p.snapshot_id == append "sqlite:" (host.int_text p.canonical_frontier)))
        _ _ h2 in
    let (_, h4) = raise_if-eq-ok (not (all_supported p.items)) _ _ h3 in
    let (l, lineage, h5) = >>=-eq-ok (lineage_of p declared capture) _ h4 in
    let written = write_projection-Registered host p r' l db db' false h5 in
    (
      projection_row p l false (frontier db),
      written.stored,
      refl,
      refl,
      written.not_ahead,
      λ none_given. not_behind l.proven _ written.current (
          unproven_without_capture p declared l
            (ap (lineage_of p declared) (sym none_given) ∙ lineage)),
      λ key there. not_stale_already host db p l key (sym written.flag) there,
    )
