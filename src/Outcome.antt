-- ===== src/Outcome.antt =====
-- Calls that may raise: the exception's type and its message, without the values that the source
-- puts into the message. `other_error` has the name of any other class.
use sarmady.Prelude.{
  ◌⊎◌, inl, inr, String, ◌≡◌, refl, Bool, true, false, not, ◌||◌, Option, none, some,
}

pub data Exception : Type 0 where
  value_error type_error runtime_error integrity_error canonical_integrity key_error :
      String → Exception
  other_error : String → String → Exception

-- None of Python's: a loop of the model has used up its fuel.
abbrev pub out_of_fuel : Exception
out_of_fuel = other_error "OutOfFuel" ""

pub data Outcome {ℓ} (A : Type ℓ) : Type ℓ where
  ok : A → Outcome A
  err : Exception → Outcome A

infixl 5 ◌>>=◌ ◌>>◌
abbrev pub ◌>>=◌ {ℓ κ} : {A : Type ℓ} {B : Type κ} → Outcome A → (A → Outcome B) → Outcome B
ok x >>= k = k x
err e >>= k = err e

abbrev pub ◌>>◌ {ℓ} : {B : Type ℓ} → Outcome (Unit {0}) → Outcome B → Outcome B
m >> k = m >>= λ _. k

-- `if c: raise e`
abbrev pub raise_if : Bool → Exception → Outcome (Unit {0})
raise_if true e = err e
raise_if false e = ok tt

abbrev pub or_raise {ℓ} : {A : Type ℓ} → Option A → Exception → Outcome A
or_raise none e = err e
or_raise (some a) e = ok a

module _ {ℓ κ} {A : Type ℓ} {B : Type κ} where
  -- What a successful chain says of its first call.
  pub >>=-eq-ok :
      (call : Outcome A) (rest : A → Outcome B) {result : B}
      → (call >>= rest) ≡ ok result
      → (x : A) × (call ≡ ok x) × (rest x ≡ ok result)
  >>=-eq-ok (ok x) rest h = (x, refl, h)
  >>=-eq-ok (err e) rest h = cc

module _ {κ} {B : Type κ} where
  -- What a successful chain says of a guard that it passed.
  pub raise_if-eq-ok :
      (t : Bool) (e : Exception) (m : Outcome B) {b : B}
      → (raise_if t e >> m) ≡ ok b
      → (t ≡ false) × (m ≡ ok b)
  raise_if-eq-ok true e m h = cc
  raise_if-eq-ok false e m h = (refl, h)

pub Outcome-cases {ℓ} :
    {A : Type ℓ} (m : Outcome A) → ((a : A) × (m ≡ ok a)) ⊎ ((e : Exception) × (m ≡ err e))
Outcome-cases (ok a) = inl (a, refl)
Outcome-cases (err e) = inr (e, refl)

-- What an accepted guard of two alternatives says.
pub or-false : (x y : Bool) → (x || y) ≡ false → (x ≡ false) × (y ≡ false)
or-false true y h = cc
or-false false y h = (refl, h)

pub ok-inj {ℓ} : {A : Type ℓ} {a b : A} → ok a ≡ ok b → a ≡ b
ok-inj h = cc

pub or_raise-eq-ok {ℓ} :
    {A : Type ℓ} (o : Option A) (e : Exception) {a : A} → or_raise o e ≡ ok a → o ≡ some a
or_raise-eq-ok none e h = cc
or_raise-eq-ok (some b) e h = cc

-- What a guard of a negated test that was passed says.
pub not-false : (b : Bool) → not b ≡ false → b ≡ true
not-false true h = refl
not-false false h = cc
