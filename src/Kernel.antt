-- ===== src/Kernel.antt =====
-- src/sarmady/kernel/authority.py and action.py: approvals, and the retry of an action's effect.
pub mod Identity
use sarmady.Prelude.{
  ℕ, String, ◌≡◌, refl, sym, ap, ◌∙◌, Bool-cases, inl, inr, ◌≤◌, Bool, true, false, not, Option,
  none, some, ◌==◌, string_eq, eq_of_test, arith, if◌then◌else◌,
}
use sarmady.Outcome.{Outcome, ok, ◌>>=◌, ◌>>◌, >>=-eq-ok, raise_if-eq-ok, not-false, ok-inj}
use sarmady.Time.{
  DateTime, before, comparable, same_awareness, same_awareness_trans, require_comparable,
}
use sarmady.Values.{Value, freeze_value}

pub record Approval : Type 0 where
  pub id : ℕ
  pub principal_id : ℕ
  pub action_fingerprint : String
  pub approved_at : DateTime
  pub expires_at : Option DateTime

-- `expires_at is not None and now > expires_at`
unfoldable pub is_expired : Option DateTime → DateTime → Outcome Bool
is_expired none now = ok false
is_expired (some stop) now = do require_comparable now stop; ok (before stop now)

unfoldable pub approval_authorizes : Approval → String → DateTime → Outcome Bool
approval_authorizes a action_fingerprint now =
    if not (a.action_fingerprint == action_fingerprint)
    then ok false
    else (do expired ← is_expired a.expires_at now; ok (not expired))

pub data EffectStatus : Type 0 where
  unconfirmed provider_acknowledged unknown_effect confirmed no_effect reversed : EffectStatus

pub record Effect : Type 0 where
  pub id : ℕ
  pub action_intent_id : ℕ
  pub status : EffectStatus
  pub updated_at : DateTime

unfoldable pub effect_allows_automatic_retry : Effect → Bool
effect_allows_automatic_retry e = elim e.status [ no_effect ↦ true | _ ↦ false ]

pub record ActionIntent : Type 0 where
  pub id : ℕ
  pub principal_id : ℕ
  pub capability : String
  pub fingerprint : String
  pub parameters : Value
  pub proposed_at : DateTime

unfoldable pub new_intent : ActionIntent → Outcome ActionIntent
new_intent i = do frozen ← freeze_value i.parameters; ok (record i { parameters = frozen })

-- The time is not after the end, which an approval need not have.
abbrev pub NotAfter : Option DateTime → DateTime → Type 0
NotAfter none now = Unit
NotAfter (some stop) now = now.instant ≤ stop.instant

NotAfter-is_expired :
    (stop : Option DateTime) (now earlier : DateTime)
    → is_expired stop now ≡ ok false
    → earlier.instant ≤ now.instant
    → comparable earlier now ≡ true
    → NotAfter stop now × (is_expired stop earlier ≡ ok false)
unfolding is_expired require_comparable
NotAfter-is_expired none now earlier h le same = (tt, refl)
NotAfter-is_expired (some stop) now earlier h le same =
    let (known, after) = raise_if-eq-ok (not (comparable now stop)) _ _ h in
    let known' =
      same_awareness_trans earlier.offset now.offset stop.offset same (not-false _ known) in
    let later : before stop now ≡ false = ok-inj after in
    (ground (arith, later), rw known' (ap ok (ground (arith, later, le))))

matches :
    (a : Approval) (fingerprint : String) (now : DateTime)
    → approval_authorizes a fingerprint now ≡ ok true
    → ((a.action_fingerprint == fingerprint) ≡ true)
      × ((is_expired a.expires_at now >>= λ expired. ok (not expired)) ≡ ok true)
unfolding approval_authorizes
matches a fingerprint now h = elim (Bool-cases (a.action_fingerprint == fingerprint)) [
  | inl same ↦ (same, rw same at h)
  | inr other ↦ let wrong = rw other at h in cc
]

not-true : (b : Bool) → not b ≡ true → b ≡ false
not-true true h = sym h
not-true false h = refl

-- What an approval authorizes at a time has the approval's fingerprint, the time is not after the
-- approval's expiry, and the approval authorizes it at every earlier time that is aware or naive as
-- the time is, without raising.
pub approval_authorizes_earlier :
    (a : Approval) (fingerprint : String) (now earlier : DateTime)
    → approval_authorizes a fingerprint now ≡ ok true
    → earlier.instant ≤ now.instant
    → comparable earlier now ≡ true
    → (a.action_fingerprint ≡ fingerprint)
      × NotAfter a.expires_at now
      × (approval_authorizes a fingerprint earlier ≡ ok true)
unfolding approval_authorizes
approval_authorizes_earlier a fingerprint now earlier h le same =
    let (known, h1) = matches a fingerprint now h in
    let (expired, computed, h2) = >>=-eq-ok (is_expired a.expires_at now) _ h1 in
    let unexpired = not-true expired (ok-inj h2) in
    let (bound, unexpired') =
      NotAfter-is_expired a.expires_at now earlier (computed ∙ ap ok unexpired) le same in
    (eq_of_test a.action_fingerprint fingerprint known, bound, rw (known, unexpired') refl)
