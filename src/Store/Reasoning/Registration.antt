-- ===== src/Store/Reasoning/Registration.antt =====
-- Registration and reading of a policy in src/sarmady/storage/sqlite/reasoning_store.py.
use mathlib.Core.Path.{subst}
use sarmady.Prelude.{
  String, ◌≡◌, refl, sym, ap, ◌∙◌, Bool, true, false, not, Option, none, some, [], ◌∷◌, ◌++◌, ◌==◌,
  ◌&&◌, ◌⊎◌, inl, inr, eq_self, eq_of_test, find-snoc_some, find-snoc_hit, string_eq, nat_eq,
  list_eq, option_eq, pair_eq, any_of, map,
}
use sarmady.Outcome.{ok, ok-inj, >>=-eq-ok, raise_if-eq-ok}
use sarmady.Time.{DateTime, is_aware}
use sarmady.Host.{Host}
use sarmady.Cognition.{ReasoningPolicy}
use sarmady.Cognition.Reasoning.{check_policy, fingerprint}
use sarmady.Store.{Db, PolicyRow}
use sarmady.Store.{policy_by_id}
use sarmady.Store.Reasoning.{
  lower_if, canonical_policy, same_terms, same_policy, equivalent_modulo_digest_case,
  check_requirements, policy_from_row, insert_policy, reuse_policy, register_canonical,
  register_reasoning_policy, reasoning_policy, mode_code, requirement_pair,
}
use sarmady.Store.Reasoning.Rows.{
  check_policy-eq-ok, lower_if-canonical, policy_row, policy_from_row-policy_row, same_terms_self,
}

abbrev pub with_policy : Host → ReasoningPolicy → DateTime → Db → Db
with_policy host p t db = record db {
  reasoning_policies = db.reasoning_policies ++ policy_row host p t ∷ [];
}

-- What a registration that was accepted has done: its policy in canonical form is new and written, or
-- its identifier is taken and the stored row was found to agree.
abbrev pub Accepted : Host → ReasoningPolicy → DateTime → Db → Db × ReasoningPolicy → Type 0
Accepted host q t db r =
    ((policy_by_id db.reasoning_policies q.id ≡ none) × (ok (with_policy host q t db, q) ≡ ok r))
    ⊎ ((row : PolicyRow) × (policy_by_id db.reasoning_policies q.id ≡ some row)
        × (reuse_policy host q row db ≡ ok r))

insert_policy-eq-ok :
    (host : Host) (q : ReasoningPolicy) (t : DateTime) (db : Db) {r : Db × ReasoningPolicy}
    → insert_policy host q t db ≡ ok r
    → ok (with_policy host q t db, q) ≡ ok r
unfolding insert_policy
insert_policy-eq-ok host q t db h =
    let (_, h1) =
      raise_if-eq-ok
        (any_of (λ (r : PolicyRow). r.fingerprint == fingerprint host q) db.reasoning_policies) _ _
        h in
    h1

Accepted-register_canonical :
    (host : Host) (q : ReasoningPolicy) (t : DateTime) (db : Db) (found : Option PolicyRow)
    (r : Db × ReasoningPolicy)
    → policy_by_id db.reasoning_policies q.id ≡ found
    → register_canonical host q t found db ≡ ok r
    → Accepted host q t db r
unfolding register_canonical
Accepted-register_canonical host q t db none r e h = inl (e, insert_policy-eq-ok host q t db h)
Accepted-register_canonical host q t db (some row) r e h = inr (row, e, h)

pub register_reasoning_policy-eq-ok :
    (host : Host) (policy : ReasoningPolicy) (t : DateTime) (db : Db) (r : Db × ReasoningPolicy)
    → register_reasoning_policy host policy t db ≡ ok r
    → (q : ReasoningPolicy) × (canonical_policy host policy ≡ ok q) × Accepted host q t db r
unfolding register_reasoning_policy
register_reasoning_policy-eq-ok host policy t db r h =
    let (_, h1) = raise_if-eq-ok (not (is_aware t)) _ _ h in
    let (q, canonical, h2) = >>=-eq-ok (canonical_policy host policy) _ h1 in
    (q, canonical, Accepted-register_canonical host q t db _ r refl h2)

-- The canonical form of a policy: its constructor accepts it, and it differs at most in the case of
-- the digest.
canonical_policy-eq-ok :
    (host : Host) (policy : ReasoningPolicy) {q : ReasoningPolicy}
    → canonical_policy host policy ≡ ok q
    → (q ≡ record policy { source_sha256 = lower_if host policy.source_sha256 })
      × (check_policy host q ≡ ok q)
      × (lower_if host q.source_sha256 ≡ q.source_sha256)
unfolding canonical_policy
canonical_policy-eq-ok host policy {q} h =
    let given = record policy { source_sha256 = lower_if host policy.source_sha256 } in
    let (same, canonical) = check_policy-eq-ok host given h in
    (
      sym same,
      subst (λ w. check_policy host w ≡ ok q) same h,
      subst (λ (w : ReasoningPolicy). lower_if host w.source_sha256 ≡ w.source_sha256) same
          (lower_if-canonical host (lower_if host policy.source_sha256) canonical),
    )

agreed :
    (a b c d : Bool)
    → (not ((a && b) && c) && not (a && d)) ≡ false
    → (a ≡ true) × ((b ≡ true) ⊎ (d ≡ true))
agreed false b c d h = cc
agreed true true c d h = (refl, inl refl)
agreed true false c true h = (refl, inr refl)
agreed true false c false h = cc

reuse_policy-eq-ok :
    (host : Host) (q : ReasoningPolicy) (row : PolicyRow) (db : Db) {r : Db × ReasoningPolicy}
    → reuse_policy host q row db ≡ ok r
    → (p : ReasoningPolicy) × (policy_from_row host row ≡ ok p)
      × (same_terms p q ≡ true)
      × (((p.source_sha256 == q.source_sha256) ≡ true)
          ⊎ ((lower_if host p.source_sha256 == lower_if host q.source_sha256) ≡ true))
      × (ok (db, p) ≡ ok r)
unfolding reuse_policy equivalent_modulo_digest_case
reuse_policy-eq-ok host q row db h =
    let (p, read, h1) = >>=-eq-ok (policy_from_row host row) _ h in
    let (agrees, h2) =
      raise_if-eq-ok
        (not (same_policy p q && row.fingerprint == fingerprint host q)
          && not (equivalent_modulo_digest_case host p q))
        _ _ h1 in
    let (terms, digests) =
      agreed (same_terms p q) (p.source_sha256 == q.source_sha256)
        (row.fingerprint == fingerprint host q)
        (lower_if host p.source_sha256 == lower_if host q.source_sha256) agrees in
    (p, read, terms, digests, h2)

first_of : (a b c d e f : Bool) → (a && b && c && d && e && f) ≡ true → a ≡ true
first_of true b c d e f h = refl
first_of false b c d e f h = cc

same_terms-id : (p q : ReasoningPolicy) → same_terms p q ≡ true → p.id ≡ q.id
same_terms-id p q h = eq_of_test p.id q.id (
    first_of (p.id == q.id) (p.version == q.version) (mode_code p.mode == mode_code q.mode)
      (p.stages == q.stages)
      (map requirement_pair p.requirements == map requirement_pair q.requirements)
      (p.source_ref == q.source_ref) h)

read_back :
    (host : Host) (db : Db) (id : String) (row : PolicyRow) (p : ReasoningPolicy)
    → policy_by_id db.reasoning_policies id ≡ some row
    → policy_from_row host row ≡ ok p
    → reasoning_policy host db id ≡ ok (some p)
unfolding reasoning_policy
read_back host db id row p found read = rw (found, read) refl

module _ (host : Host) (q : ReasoningPolicy) (t : DateTime) (db : Db) where
  inserted-found :
      policy_by_id db.reasoning_policies q.id ≡ none
      → policy_by_id (with_policy host q t db).reasoning_policies q.id ≡ some (policy_row host q t)
  inserted-found absent =
      find-snoc_hit (λ (r : PolicyRow). r.policy.id == q.id) db.reasoning_policies
        (policy_row host q t) (eq_self q.id) absent

-- The stored policy is read back under its identifier.
abbrev Readable : Host → Db × ReasoningPolicy → Type 0
Readable host r = reasoning_policy host r.0 r.1.id ≡ ok (some r.1)

abbrev SameDigest : Host → ReasoningPolicy → ReasoningPolicy → Type 0
SameDigest host p q = lower_if host p.source_sha256 ≡ lower_if host q.source_sha256

-- The policy that a registration returns, against the canonical form `q` of the one it was given.
abbrev Agrees : Host → ReasoningPolicy → Db × ReasoningPolicy → Type 0
Agrees host q r = Readable host r × (same_terms r.1 q ≡ true) × SameDigest host r.1 q

Accepted-Agrees :
    (host : Host) (q : ReasoningPolicy) (t : DateTime) (db : Db) (r : Db × ReasoningPolicy)
    → check_policy host q ≡ ok q
    → check_requirements host q.requirements ≡ ok q.requirements
    → Accepted host q t db r
    → Agrees host q r
Accepted-Agrees host q t db r checked requirements (inl (absent, written)) =
    subst (Agrees host q) (ok-inj written) (
      read_back host (with_policy host q t db) q.id (policy_row host q t) q
          (inserted-found host q t db absent)
          (policy_from_row-policy_row host q t checked requirements),
      same_terms_self q,
      refl,
    )
Accepted-Agrees host q t db r checked requirements (inr (row, found, reused)) =
    let (p, read, terms, digests, same) = reuse_policy-eq-ok host q row db reused in
    let digest : SameDigest host p q = elim digests [
      | inl e ↦ ap (lower_if host) (eq_of_test p.source_sha256 q.source_sha256 e)
      | inr e ↦ eq_of_test (lower_if host p.source_sha256) (lower_if host q.source_sha256) e
    ] in
    let readable = read_back host db q.id row p found read in
    subst (Agrees host q) (ok-inj same) (rw (same_terms-id p q terms) readable, terms, digest)

-- A policy that a registration accepted is read back under its identifier, verified by its
-- fingerprint, and it is the given policy up to the case of the hexadecimal digest. The requirements
-- of the given policy are ones that their constructor accepts.
pub register_reasoning_policy-read :
    (host : Host) (policy p : ReasoningPolicy) (t : DateTime) (db db' : Db)
    → check_requirements host policy.requirements ≡ ok policy.requirements
    → register_reasoning_policy host policy t db ≡ ok (db', p)
    → (reasoning_policy host db' p.id ≡ ok (some p))
      × (equivalent_modulo_digest_case host p policy ≡ true)
unfolding equivalent_modulo_digest_case
register_reasoning_policy-read host policy p t db db' requirements h =
    let (q, canonical, accepted) = register_reasoning_policy-eq-ok host policy t db (db', p) h in
    let (form, checked, lowered) = canonical_policy-eq-ok host policy canonical in
    let (readable, terms, digest) =
      Accepted-Agrees host q t db (db', p) checked
        (subst (λ (w : ReasoningPolicy). check_requirements host w.requirements ≡ ok w.requirements)
          (sym form) requirements)
        accepted in
    let terms' : same_terms p policy ≡ true =
      subst (λ (w : ReasoningPolicy). same_terms p w ≡ true) form terms in
    let digest' : SameDigest host p policy =
      digest ∙ lowered ∙ ap (λ (w : ReasoningPolicy). w.source_sha256) form in
    (readable, rw (terms', digest', eq_self (lower_if host policy.source_sha256)) refl)

reuse_policy-db :
    (host : Host) (q : ReasoningPolicy) (row : PolicyRow) (db db' : Db) (p : ReasoningPolicy)
    → reuse_policy host q row db ≡ ok (db', p)
    → db ≡ db'
reuse_policy-db host q row db db' p h =
    let (_, _, _, _, same) = reuse_policy-eq-ok host q row db h in
    ap (λ (r : Db × ReasoningPolicy). r.0) (ok-inj same)

reuse_policy_self :
    (host : Host) (q : ReasoningPolicy) (t : DateTime) (db : Db)
    → policy_from_row host (policy_row host q t) ≡ ok q
    → reuse_policy host q (policy_row host q t) db ≡ ok (db, q)
unfolding reuse_policy
reuse_policy_self host q t db read =
    rw (read, same_terms_self q, eq_self q.source_sha256, eq_self (fingerprint host q)) refl

register-found :
    (host : Host) (policy q : ReasoningPolicy) (row : PolicyRow) (t : DateTime) (db : Db)
    (r : Db × ReasoningPolicy)
    → is_aware t ≡ true
    → canonical_policy host policy ≡ ok q
    → policy_by_id db.reasoning_policies q.id ≡ some row
    → reuse_policy host q row db ≡ ok r
    → register_reasoning_policy host policy t db ≡ ok r
unfolding register_reasoning_policy register_canonical
register-found host policy q row t db r aware canonical found reused =
    rw (aware, canonical, found) reused

abbrev Again : Host → ReasoningPolicy → DateTime → Db × ReasoningPolicy → Type 0
Again host policy t r = register_reasoning_policy host policy t r.0 ≡ ok r

-- Registering the same policy again, at any later time, changes nothing and returns the same. The
-- requirements of the policy are ones that their constructor accepts.
pub register_reasoning_policy-again :
    (host : Host) (policy p : ReasoningPolicy) (t later : DateTime) (db db' : Db)
    → check_requirements host policy.requirements ≡ ok policy.requirements
    → is_aware later ≡ true
    → register_reasoning_policy host policy t db ≡ ok (db', p)
    → register_reasoning_policy host policy later db' ≡ ok (db', p)
register_reasoning_policy-again host policy p t later db db' requirements aware h =
    let (q, canonical, accepted) = register_reasoning_policy-eq-ok host policy t db (db', p) h in
    let (form, checked, _) = canonical_policy-eq-ok host policy canonical in
    let requirements' =
      subst (λ (w : ReasoningPolicy). check_requirements host w.requirements ≡ ok w.requirements)
        (sym form) requirements in
    elim accepted [
      | inl (absent, written) ↦ subst (Again host policy later) (ok-inj written) (
          register-found host policy q (policy_row host q t) later (with_policy host q t db)
            (with_policy host q t db, q) aware canonical (inserted-found host q t db absent)
            (reuse_policy_self host q t (with_policy host q t db)
              (policy_from_row-policy_row host q t checked requirements')))
      | inr (row, found, reused) ↦
          let same = reuse_policy-db host q row db db' p reused in
          register-found host policy q row later db' (db', p) aware canonical
            (subst (λ (d : Db). policy_by_id d.reasoning_policies q.id ≡ some row) same found)
            (subst (λ d. reuse_policy host q row d ≡ ok (db', p)) same reused)
    ]

-- A row stays the row of its identifier through every registration.
pub register_reasoning_policy-kept :
    (host : Host) (policy p : ReasoningPolicy) (t : DateTime) (db db' : Db) (id : String)
    (row : PolicyRow)
    → register_reasoning_policy host policy t db ≡ ok (db', p)
    → policy_by_id db.reasoning_policies id ≡ some row
    → policy_by_id db'.reasoning_policies id ≡ some row
register_reasoning_policy-kept host policy p t db db' id row h found =
    let (q, _, accepted) = register_reasoning_policy-eq-ok host policy t db (db', p) h in
    elim accepted [
      | inl (_, written) ↦
          subst (λ (r : Db × ReasoningPolicy). policy_by_id r.0.reasoning_policies id ≡ some row)
            (ok-inj written)
            (find-snoc_some (λ (v : PolicyRow). v.policy.id == id) db.reasoning_policies
              (policy_row host q t) row found)
      | inr (other, _, reused) ↦
          subst (λ (d : Db). policy_by_id d.reasoning_policies id ≡ some row)
            (reuse_policy-db host q other db db' p reused) found
    ]
