-- ===== src/Time.antt =====
-- `datetime` values. Aware values are compared by their instant, whatever their offset; a naive
-- value has no offset, and stands for a wall-clock reading that has no instant of its own.
use sarmady.Prelude.{
  ℕ, ◌≡◌, refl, Bool, true, false, not, Option, none, some, ltb, is_some, ◌&&◌, ◌==◌, nat_eq,
  string_eq,
}
use sarmady.Outcome.{Outcome, ok, value_error, type_error, raise_if}

-- `offset` codes `utcoffset()`, `none` for a naive value.
pub record DateTime : Type 0 where
  pub instant : ℕ
  pub offset : Option ℕ

abbrev pub is_aware : DateTime → Bool
is_aware t = is_some t.offset

-- `<` of two values that are comparable
abbrev pub before : DateTime → DateTime → Bool
before a b = ltb a.instant b.instant

abbrev pub same_awareness : Option ℕ → Option ℕ → Bool
same_awareness none none = true
same_awareness (some a) (some b) = true
same_awareness _ _ = false

pub same_awareness_trans :
    (a b c : Option ℕ)
    → same_awareness a b ≡ true
    → same_awareness b c ≡ true
    → same_awareness a c ≡ true
same_awareness_trans none none none f g = refl
same_awareness_trans none none (some c) f g = g
same_awareness_trans none (some b) c f g = cc
same_awareness_trans (some a) none c f g = cc
same_awareness_trans (some a) (some b) none f g = g
same_awareness_trans (some a) (some b) (some c) f g = refl

-- Python orders two aware values, or two naive ones; to order others is a `TypeError`.
abbrev pub comparable : DateTime → DateTime → Bool
comparable a b = same_awareness a.offset b.offset

unfoldable pub require_comparable : DateTime → DateTime → Outcome (Unit {0})
require_comparable a b =
    raise_if (not (comparable a b))
      (type_error "can't compare offset-naive and offset-aware datetimes")

-- The two times compare, and the first is not before the second.
abbrev pub NotBefore : DateTime → DateTime → Type 0
NotBefore a b = (comparable a b ≡ true) × (before a b ≡ false)

pub NotBefore-require_comparable : (a b : DateTime) → NotBefore a b → require_comparable a b ≡ ok tt
unfolding require_comparable
NotBefore-require_comparable a b h = rw h.0 refl

-- `==`, which is false of an aware and a naive value
abbrev pub same_time : DateTime → DateTime → Bool
same_time a b = comparable a b && a.instant == b.instant

unfoldable pub require_aware : DateTime → Outcome (Unit {0})
require_aware t = raise_if (not (is_aware t)) (value_error "must be timezone-aware")

-- the same check on an optional field
unfoldable pub require_aware_if : Option DateTime → Outcome (Unit {0})
unfolding require_aware
require_aware_if none = ok tt
require_aware_if (some t) = require_aware t
