-- ===== src/Values.antt =====
-- src/sarmady/values.py: freezing and thawing of JSON-like values.
-- One type holds every Python value that the two functions can meet. A mapping is the list of its
-- items in order; `other` stands for an object of any other class.
pub mod RoundTrip
use sarmady.Prelude.{ℕ, ℤ, String, Bool, true, false}
use sarmady.Outcome.{Outcome, ok, err, type_error, value_error, ◌>>=◌, ◌>>◌}

pub data Key : Type 0 where
  text : String → Key
  not_text : ℕ → Key

-- `float` has whether it is finite, and a code of the value.
mutual
  pub data Value : Type 0 where
    null : Value
    str : String → Value
    int : ℤ → Value
    bool : Bool → Value
    float : Bool → ℕ → Value
    mapping : Fields → Value
    list : Items → Value
    tuple : Items → Value
    other : ℕ → Value

  pub data Items : Type 0 where
    nil : Items
    cons : Value → Items → Items

  pub data Fields : Type 0 where
    end : Fields
    field : Key → Value → Fields → Fields

abbrev pub key_text : Key → Outcome Key
key_text (text s) = ok (text s)
key_text (not_text n) = err (type_error "semantic mapping keys must be strings")

abbrev pub freeze_float : Bool → ℕ → Outcome Value
freeze_float true n = ok (float true n)
freeze_float false n = err (value_error "semantic float values must be finite")

-- `freeze_value`; at a mapping, `FrozenMapping.__new__`.
unfoldable mutual
  pub freeze_value : Value → Outcome Value
  freeze_value null = ok null
  freeze_value (str s) = ok (str s)
  freeze_value (int n) = ok (int n)
  freeze_value (bool b) = ok (bool b)
  freeze_value (float finite n) = freeze_float finite n
  freeze_value (mapping fs) = do frozen ← freeze_fields fs; ok (mapping frozen)
  freeze_value (list xs) = do frozen ← freeze_items xs; ok (tuple frozen)
  freeze_value (tuple xs) = do frozen ← freeze_items xs; ok (tuple frozen)
  freeze_value (other n) = err (type_error "semantic value must be JSON-compatible")

  pub freeze_items : Items → Outcome Items
  freeze_items nil = ok nil
  freeze_items (cons x xs) = do x' ← freeze_value x; xs' ← freeze_items xs; ok (cons x' xs')

  pub freeze_fields : Fields → Outcome Fields
  freeze_fields end = ok end
  freeze_fields (field k v fs) = do
    k' ← key_text k
    v' ← freeze_value v
    fs' ← freeze_fields fs
    ok (field k' v' fs')

unfoldable mutual
  pub thaw_value : Value → Outcome Value
  thaw_value null = ok null
  thaw_value (str s) = ok (str s)
  thaw_value (int n) = ok (int n)
  thaw_value (bool b) = ok (bool b)
  thaw_value (float finite n) = ok (float finite n)
  thaw_value (mapping fs) = do thawed ← thaw_fields fs; ok (mapping thawed)
  thaw_value (list xs) = err (type_error "semantic value is not JSON-compatible")
  thaw_value (tuple xs) = do thawed ← thaw_items xs; ok (list thawed)
  thaw_value (other n) = err (type_error "semantic value is not JSON-compatible")

  pub thaw_items : Items → Outcome Items
  thaw_items nil = ok nil
  thaw_items (cons x xs) = do x' ← thaw_value x; xs' ← thaw_items xs; ok (cons x' xs')

  pub thaw_fields : Fields → Outcome Fields
  thaw_fields end = ok end
  thaw_fields (field k v fs) = do v' ← thaw_value v; fs' ← thaw_fields fs; ok (field k v' fs')
