-- ===== src/Compiler/Walk.antt =====
-- The reads of the compilers of src/sarmady/context/compiler.py and coverage.py cover what their
-- projections refer to.
use sarmady.Prelude.{
  All-map, ℕ, String, ◌≡◌, refl, ap, ◌∙◌, inl, inr, true, List, [], ◌∷◌, ◌++◌, map, ◌||◌, Eq, elem,
  nat_eq, string_eq, pair_eq, All, All-append, Bool-cases, eq_self, arith,
}
use sarmady.Context.{ContextItem}
use sarmady.Store.Capture.{Ref, Capture, reads, depends}
use sarmady.Compiler.{Draft, add_item}

module _ {ℓ} {A : Type ℓ} ⦃e : Eq A⦄ where
  pub elem-append_left : (a : A) (xs ys : List A) → elem a xs ≡ true → elem a (xs ++ ys) ≡ true
  elem-append_left a [] ys h = cc
  elem-append_left a (x ∷ xs) ys h = ground (arith, elem-append_left a xs ys)

  pub elem-append_right : (a : A) (xs ys : List A) → elem a ys ≡ true → elem a (xs ++ ys) ≡ true
  elem-append_right a [] ys h = h
  elem-append_right a (x ∷ xs) ys h = ground (arith, elem-append_right a xs ys)

  pub elem-head : (a : A) (xs : List A) → elem a (a ∷ xs) ≡ true
  elem-head a xs = rw (eq_self a) refl

abbrev pub read_ids : List Ref → List ℕ
read_ids rs = map (λ (r : Ref). r.1) rs

pub read_ids-append : (xs ys : List Ref) → read_ids (xs ++ ys) ≡ read_ids xs ++ read_ids ys
read_ids-append [] ys = refl
read_ids-append (x ∷ xs) ys = ap (λ l. x.1 ∷ l) (read_ids-append xs ys)

-- The second capture is the first after more reads.
pub record Grows (c c' : Capture) : Type 0 where
  pub frontier : c'.frontier ≡ c.frontier
  pub consumed : c'.consumed ≡ c.consumed
  pub refs : (r : Ref) → elem r c.read_refs ≡ true → elem r c'.read_refs ≡ true
  pub ids : (p : ℕ) → elem p (read_ids c.read_refs) ≡ true → elem p (read_ids c'.read_refs) ≡ true

pub Grows-refl : (c : Capture) → Grows c c
Grows-refl c = record { frontier = refl; consumed = refl; refs = λ r h. h; ids = λ p h. h }

pub Grows-trans : {a b c : Capture} → Grows a b → Grows b c → Grows a c
Grows-trans g h = record {
  frontier = h.frontier ∙ g.frontier;
  consumed = h.consumed ∙ g.consumed;
  refs = λ r e. h.refs r (g.refs r e);
  ids = λ p e. h.ids p (g.ids p e);
}

pub Grows-reads : (refs : List Ref) (c : Capture) → Grows c (reads refs c)
Grows-reads refs c = record {
  frontier = refl;
  consumed = refl;
  refs = λ r h. elem-append_left r c.read_refs refs h;
  ids = λ p h.
      rw (read_ids-append c.read_refs refs)
        (elem-append_left p (read_ids c.read_refs) (read_ids refs) h);
}

pub Grows-depends : (key : String) (c : Capture) → Grows c (depends key c)
Grows-depends key c = record { frontier = refl; consumed = refl; refs = λ r h. h; ids = λ p h. h }

-- An item whose reference is read, and whose provenance is read or pending.
abbrev pub ItemRead : Capture → List ℕ → ContextItem → Type 0
ItemRead c pending i =
    (elem (i.ref_type, i.ref_id) c.read_refs ≡ true)
    × All (λ p. (elem p (read_ids c.read_refs) || elem p pending) ≡ true) i.provenance_refs

-- What a draft refers to has been read, up to the pending evidence.
abbrev pub DraftRead : Capture → List ℕ → Draft → Type 0
DraftRead c pending d =
    All (ItemRead c pending) d.items × All (λ id. elem id (read_ids c.read_refs) ≡ true) d.omitted

-- More reads, and what was pending read.
module _ {c c' : Capture} (g : Grows c c') (before after : List ℕ)
    (settled : (p : ℕ)
      → elem p before ≡ true
      → (elem p (read_ids c'.read_refs) || elem p after) ≡ true) where
  provided :
      (p : ℕ)
      → (elem p (read_ids c.read_refs) || elem p before) ≡ true
      → (elem p (read_ids c'.read_refs) || elem p after) ≡ true
  provided p h = ground (arith, g.ids p, settled p)

  pub DraftRead-Grows : (d : Draft) → DraftRead c before d → DraftRead c' after d
  DraftRead-Grows d (items, omitted) = (
    All-map d.items
        (λ i (r, ps). (g.refs (i.ref_type, i.ref_id) r, All-map i.provenance_refs provided ps))
        items,
    All-map d.omitted g.ids omitted,
  )

pub DraftRead-add_item :
    (c : Capture) (pending : List ℕ) (i : ContextItem) (d : Draft)
    → ItemRead c pending i
    → DraftRead c pending d
    → DraftRead c pending (add_item i d)
unfolding add_item
DraftRead-add_item c pending i d read (items, omitted) =
    elim (Bool-cases (elem (i.ref_type, i.ref_id) d.seen)) [
      | inl old ↦ rw old (items, omitted)
      | inr new ↦
          rw new (All-append (ItemRead c pending) d.items (i ∷ []) items (read, tt), omitted)
    ]
