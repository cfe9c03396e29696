-- ===== src/Prelude/Lists.antt =====
-- Lists over the native numbers, searches, and predicates on every element.
use Prim.Native.Nat.{ℕ, zero, suc, ◌+◌}
use mathlib.Core.Path.{subst, ◌≡◌, refl, sym, ap, ◌∙◌}
use mathlib.Core.Logic.{◌⊎◌, inl, inr, Lift}
use mathlib.Core.Bool.{Bool, true, false}
use mathlib.Core.List.{List, [], ◌∷◌, ◌++◌}
use mathlib.Core.Option.{Option, none, some}
use native.Mathlib.Omega.{arith}
use sarmady.Prelude.Tests.{if◌then◌else◌}

module _ {ℓ} {A : Type ℓ} where
  abbrev pub length : List A → ℕ
  length [] = 0
  length (x ∷ xs) = suc (length xs)

  abbrev pub take : ℕ → List A → List A
  take zero xs = []
  take (suc n) [] = []
  take (suc n) (x ∷ xs) = x ∷ take n xs

  pub length-append : (xs ys : List A) → length (xs ++ ys) ≡ length xs + length ys
  length-append [] ys = omega arith
  length-append (x ∷ xs) ys = omega (arith, length-append xs ys)

  -- The first row that passes a test: `SELECT … WHERE …` with `fetchone()`.
  abbrev pub find : (A → Bool) → List A → Option A
  find p [] = none
  find p (x ∷ xs) = if p x then some x else find p xs

  -- `[x for x in xs if p(x)]`
  abbrev pub select : (A → Bool) → List A → List A
  select p [] = []
  select p (x ∷ xs) = let rest = select p xs in if p x then x ∷ rest else rest

  abbrev pub any_of : (A → Bool) → List A → Bool
  any_of p [] = false
  any_of p (x ∷ xs) = if p x then true else any_of p xs

  abbrev pub All {κ} : (A → Type κ) → List A → Type κ
  All P [] = Unit
  All P (x ∷ xs) = P x × All P xs

  pub All-append {κ} :
      (P : A → Type κ) (front back : List A) → All P front → All P back → All P (front ++ back)
  All-append P [] back f b = b
  All-append P (x ∷ front) back f b = (f.0, All-append P front back f.1 b)

module _ {ℓ} {A : Type ℓ} (p : A → Bool) where
  pub find-snoc_miss : (xs : List A) (y : A) → p y ≡ false → find p (xs ++ y ∷ []) ≡ find p xs
  find-snoc_miss [] y h = rw h
  find-snoc_miss (x ∷ xs) y h = ground (arith, find-snoc_miss xs y h)

  pub find-snoc_hit :
      (xs : List A) (y : A) → p y ≡ true → find p xs ≡ none → find p (xs ++ y ∷ []) ≡ some y
  find-snoc_hit [] y h e = rw h
  find-snoc_hit (x ∷ xs) y h e = ground (arith, find-snoc_hit xs y h)

  pub find-snoc_some : (xs : List A) (y a : A) → find p xs ≡ some a → find p (xs ++ y ∷ []) ≡ some a
  find-snoc_some [] y a e = cc
  find-snoc_some (x ∷ xs) y a e = ground (arith, find-snoc_some xs y a)

  -- What a search finds passes its test.
  pub find-passes : (xs : List A) (a : A) → find p xs ≡ some a → p a ≡ true
  find-passes [] a e = cc
  find-passes (x ∷ xs) a e = ground (arith, find-passes xs a)

  pub any_of-append :
      (xs ys : List A) → any_of p (xs ++ ys) ≡ (if any_of p xs then true else any_of p ys)
  any_of-append [] ys = refl
  any_of-append (x ∷ xs) ys = ground (arith, any_of-append xs ys)

module _ {ℓ} {A : Type ℓ} where
  pub some-inj : {a b : A} → some a ≡ some b → a ≡ b
  some-inj h = cc

  -- `a` is one of the elements.
  abbrev pub In : A → List A → Type ℓ
  In a [] = Lift ⊥
  In a (x ∷ xs) = (a ≡ x) ⊎ In a xs

  In-select_cons :
      (p : A → Bool) (x : A) (xs rest : List A) (a : A) (b : Bool)
      → p x ≡ b
      → (In a rest → In a xs × (p a ≡ true))
      → In a (if b then x ∷ rest else rest)
      → In a (x ∷ xs) × (p a ≡ true)
  In-select_cons p x xs rest a true e k (inl same) = (inl same, ap p same ∙ e)
  In-select_cons p x xs rest a true e k (inr h) = let found = k h in (inr found.0, found.1)
  In-select_cons p x xs rest a false e k h = let found = k h in (inr found.0, found.1)

  pub In-select : (p : A → Bool) (xs : List A) (a : A) → In a (select p xs) → In a xs × (p a ≡ true)
  In-select p [] a h = elim h.lower [ ]
  In-select p (x ∷ xs) a h = In-select_cons p x xs (select p xs) a (p x) refl (In-select p xs a) h

  In-cons :
      (x : A) (rest : List A) (a : A) (b : Bool)
      → In a rest ⊎ ((a ≡ x) × (b ≡ true))
      → In a (if b then x ∷ rest else rest)
  In-cons x rest a true (inl h) = inr h
  In-cons x rest a true (inr h) = inl h.0
  In-cons x rest a false (inl h) = h
  In-cons x rest a false (inr h) = cc

  pub select-In : (p : A → Bool) (xs : List A) (a : A) → In a xs → p a ≡ true → In a (select p xs)
  select-In p [] a h e = h
  select-In p (x ∷ xs) a (inl same) e =
      In-cons x (select p xs) a (p x) (inr (same, ap p (sym same) ∙ e))
  select-In p (x ∷ xs) a (inr h) e = In-cons x (select p xs) a (p x) (inl (select-In p xs a h e))

  In-find_cons :
      (p : A → Bool) (x : A) (xs : List A) (a : A) (b : Bool)
      → (find p xs ≡ some a → In a xs)
      → (if b then some x else find p xs) ≡ some a
      → In a (x ∷ xs)
  In-find_cons p x xs a true k h = inl (some-inj (sym h))
  In-find_cons p x xs a false k h = inr (k h)

  pub In-find : (p : A → Bool) (xs : List A) (a : A) → find p xs ≡ some a → In a xs
  In-find p [] a h = cc
  In-find p (x ∷ xs) a h = In-find_cons p x xs a (p x) (In-find p xs a) h

module _ {ℓ κ} {A : Type ℓ} (P : A → Type κ) (p : A → Bool) where
  find_cons-All :
      (x : A) (xs : List A) (a : A) (b : Bool)
      → P x
      → (find p xs ≡ some a → P a)
      → (if b then some x else find p xs) ≡ some a
      → P a
  find_cons-All x xs a true h k e = subst P (some-inj e) h
  find_cons-All x xs a false h k e = k e

  -- What holds of every row holds of the one that is found.
  pub find-All : (xs : List A) (a : A) → All P xs → find p xs ≡ some a → P a
  find-All [] a h e = cc
  find-All (x ∷ xs) a h e = find_cons-All x xs a (p x) h.0 (find-All xs a h.1) e

pub All-map {ℓ κ} :
    {A : Type ℓ} {P Q : A → Type κ} (xs : List A) → ((a : A) → P a → Q a) → All P xs → All Q xs
All-map [] f h = tt
All-map (x ∷ xs) f h = (f x h.0, All-map xs f h.1)
