-- ===== src/Observation/Heads.antt =====
-- The current claim after `observe_claim` of src/sarmady/epistemic/service.py.
use mathlib.Core.Path.{subst}
use sarmady.Prelude.{
  ℕ, String, ◌≡◌, refl, sym, ap, ◌∙◌, Bool, true, false, not, Option, none, some, ◌==◌, ◌&&◌, ◌||◌,
  nat_eq, string_eq, pair_eq, if◌then◌else◌, is_some,
}
use sarmady.Outcome.{ok, ok-inj, >>=-eq-ok, raise_if-eq-ok}
use sarmady.Time.{DateTime, before, require_aware, require_aware_if}
use sarmady.Memory.{check_entry}
use sarmady.Epistemic.{
  Claim, ClaimRelation, ClaimRelationKind, check_event, check_evidence, check_claim, check_relation,
}
use sarmady.Store.{Db}
use sarmady.Store.Resolution.{is_head_moving}
use sarmady.Store.ClaimHeads.{lookup_head, claim_key}
use sarmady.Store.Epistemic.Checks.{Bundle, current_claim, starts_later}
use sarmady.Store.Epistemic.Inserts.{moves_head}
use sarmady.Store.Epistemic.{commit_claim_bundle}
use sarmady.Store.HeadMoves.{
  head_after, lookup_head-commit_claim_bundle, check_claim-same, check_relation-same,
}
use sarmady.Observation.{
  Observed, Fresh, recorded_or, not_supersedes, chosen_kind, observed_event, observed_evidence,
  observed_claim, observed_memory, observed_relation, observed_bundle, observe_claim,
}

abbrev pub moving_kind : Option ClaimRelationKind → Bool
moving_kind none = false
moving_kind (some kind) = is_head_moving kind

-- Whether an observation is to replace what is current: it supersedes, or its relation corrects or
-- supersedes, or nothing is current.
abbrev pub replaces : Option Claim → Observed → Bool
replaces current o = not (is_some current) || (o.supersede_current || moving_kind o.relation_kind)

chosen_kind-moving :
    (sup : Bool) (kind : Option ClaimRelationKind) {chosen : Option ClaimRelationKind}
    → chosen_kind sup kind ≡ ok chosen
    → moving_kind chosen ≡ (sup || moving_kind kind)
unfolding chosen_kind
chosen_kind-moving false kind h = ap moving_kind (sym (ok-inj h))
chosen_kind-moving true kind h =
    let (_, h1) = raise_if-eq-ok (not_supersedes kind) _ _ h in ap moving_kind (sym (ok-inj h1))

observed_relation-moves :
    (current : Option Claim) (kind : Option ClaimRelationKind) (ids : Fresh) (t : DateTime)
    (c : Claim) (relation : Option ClaimRelation)
    → observed_relation current kind ids t c ≡ ok relation
    → moves_head current relation ≡ (not (is_some current) || moving_kind kind)
observed_relation-moves none kind ids t c relation h =
    subst (λ r. moves_head none r ≡ true) (ok-inj h) refl
observed_relation-moves (some old) none ids t c relation h = cc
observed_relation-moves (some old) (some kind) ids t c relation h =
    let (r, checked, e) = >>=-eq-ok (check_relation _) _ h in
    subst (λ r. moves_head (some old) r ≡ is_head_moving kind) (ok-inj e)
      (ap (λ (r : ClaimRelation). is_head_moving r.kind) (check_relation-same _ checked))

-- What the bundle of an observation is about.
abbrev About : Observed → Fresh → Option ClaimRelationKind → Option Claim → Bundle → Type 0
About o ids kind current b =
    (b.claim.id ≡ ids.claim)
    × (claim_key b.claim ≡ (o.subject, o.predicate))
    × (moves_head current b.relation ≡ (not (is_some current) || moving_kind kind))

observed_bundle-About :
    (o : Observed) (ids : Fresh) (t : DateTime) (kind : Option ClaimRelationKind)
    (current : Option Claim) {b : Bundle}
    → observed_bundle o ids t kind current ≡ ok b
    → About o ids kind current b
unfolding observed_bundle
observed_bundle-About o ids t kind current h =
    let (event, _, h1) = >>=-eq-ok (check_event (observed_event o ids t)) _ h in
    let (evidence, _, h2) = >>=-eq-ok (check_evidence (observed_evidence o ids event)) _ h1 in
    let (c, checked, h3) = >>=-eq-ok (check_claim (observed_claim o ids t evidence)) _ h2 in
    let (memory, _, h4) = >>=-eq-ok (check_entry (observed_memory ids t c)) _ h3 in
    let (relation, related, h5) = >>=-eq-ok (observed_relation current kind ids t c) _ h4 in
    let (id, key) = check_claim-same (observed_claim o ids t evidence) checked in
    subst (About o ids kind current) (ok-inj h5)
      (id, key, observed_relation-moves current kind ids t c relation related)

-- After an accepted observation the returned claim is of the observed subject and predicate, and the
-- head of that key is the returned claim if nothing was current, or the caller superseded, or the
-- relation corrects or supersedes; otherwise it is what it was, as is the head of every other key.
pub lookup_head-observe_claim :
    (uuid_text : ℕ → String) (o : Observed) (ids : Fresh) (db db' : Db) (c : Claim)
    (k : String × String)
    → observe_claim uuid_text o ids db ≡ ok (db', c)
    → (claim_key c ≡ (o.subject, o.predicate))
      × (lookup_head db'.claim_heads k ≡ (
          if replaces (current_claim db o.subject o.predicate) o && (o.subject, o.predicate) == k
          then some c.id
          else lookup_head db.claim_heads k))
unfolding observe_claim
lookup_head-observe_claim uuid_text o ids db db' c k h =
    let (_, _, h1) = >>=-eq-ok (require_aware o.observed_at) _ h in
    let t = recorded_or o.recorded_at o.observed_at in
    let (_, _, h2) = >>=-eq-ok (require_aware t) _ h1 in
    let (_, h3) = raise_if-eq-ok (before t o.observed_at) _ _ h2 in
    let (_, _, h4) = >>=-eq-ok (require_aware_if o.valid_from) _ h3 in
    let (_, _, h5) = >>=-eq-ok (require_aware_if o.valid_to) _ h4 in
    let (kind, chosen, h6) = >>=-eq-ok (chosen_kind o.supersede_current o.relation_kind) _ h5 in
    let current = current_claim db o.subject o.predicate in
    let (_, h7) = raise_if-eq-ok (not (is_some current) && is_some kind) _ _ h6 in
    let (_, h8) = raise_if-eq-ok (is_some current && not (is_some kind)) _ _ h7 in
    let (_, h9) = raise_if-eq-ok (starts_later o.valid_from t) _ _ h8 in
    let (b, built, h10) = >>=-eq-ok (observed_bundle o ids t kind current) _ h9 in
    let (d, committed, h11) =
      >>=-eq-ok (commit_claim_bundle uuid_text ids.memory_event b db) _ h10 in
    let (id, key, moves) = observed_bundle-About o ids t kind current built in
    let moved : moves_head current b.relation ≡ replaces current o =
      moves ∙ ap (λ m. not (is_some current) || m) (chosen_kind-moving _ o.relation_kind chosen) in
    let after =
      lookup_head-commit_claim_bundle uuid_text ids.memory_event b db d k committed
      ∙ ap (λ own. head_after db own b.claim.id b.relation k) key
      ∙ ap
          (λ m.
            if m && (o.subject, o.predicate) == k
            then some b.claim.id
            else lookup_head db.claim_heads k)
          moved in
    subst
      (λ (r : Db × Claim).
        (claim_key r.1 ≡ (o.subject, o.predicate))
        × (lookup_head r.0.claim_heads k ≡ (
            if replaces (current_claim db o.subject o.predicate) o && (o.subject, o.predicate) == k
            then some r.1.id
            else lookup_head db.claim_heads k)))
      (ok-inj h11) (key, after)
