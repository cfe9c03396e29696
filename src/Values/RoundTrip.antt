-- ===== src/Values/RoundTrip.antt =====
-- Freezing detaches a value once and for all, and thawing undoes it up to freezing again.
use sarmady.Prelude.{◌≡◌, true, false, arith}
use sarmady.Outcome.{ok, >>=-eq-ok}
use sarmady.Values.{
  text, not_text, Value, null, str, int, bool, float, mapping, list, tuple, other, Items, nil, cons,
  Fields, end, field, freeze_value, freeze_items, freeze_fields, thaw_value, thaw_items,
  thaw_fields,
}

-- `w` thaws to a value that freezes to `w` again.
abbrev pub Thaws : Value → Type 0
Thaws w = (u : Value) × (thaw_value w ≡ ok u) × (freeze_value u ≡ ok w)

abbrev pub ThawsItems : Items → Type 0
ThawsItems w = (u : Items) × (thaw_items w ≡ ok u) × (freeze_items u ≡ ok w)

abbrev pub ThawsFields : Fields → Type 0
ThawsFields w = (u : Fields) × (thaw_fields w ≡ ok u) × (freeze_fields u ≡ ok w)

mutual
  unfolding freeze_value freeze_items freeze_fields thaw_value thaw_items thaw_fields

  thaws : (v w : Value) → freeze_value v ≡ ok w → Thaws w
  thaws null w h = (null, ground arith, ground arith)
  thaws (str s) w h = (str s, ground arith, ground arith)
  thaws (int n) w h = (int n, ground arith, ground arith)
  thaws (bool b) w h = (bool b, ground arith, ground arith)
  thaws (float true n) w h = (float true n, ground arith, ground arith)
  thaws (float false n) w h = cc
  thaws (mapping fs) w h =
      let (frozen, e, d) = >>=-eq-ok (freeze_fields fs) _ h in
      let (u, t, f) = thaws_fields fs frozen e in (mapping u, ground arith, ground arith)
  thaws (list xs) w h =
      let (frozen, e, d) = >>=-eq-ok (freeze_items xs) _ h in
      let (u, t, f) = thaws_items xs frozen e in (list u, ground arith, ground arith)
  thaws (tuple xs) w h =
      let (frozen, e, d) = >>=-eq-ok (freeze_items xs) _ h in
      let (u, t, f) = thaws_items xs frozen e in (list u, ground arith, ground arith)
  thaws (other n) w h = cc

  thaws_items : (v w : Items) → freeze_items v ≡ ok w → ThawsItems w
  thaws_items nil w h = (nil, ground arith, ground arith)
  thaws_items (cons x xs) w h =
      let (x', ex, h1) = >>=-eq-ok (freeze_value x) _ h in
      let (xs', exs, h2) = >>=-eq-ok (freeze_items xs) _ h1 in
      let (u, t, f) = thaws x x' ex in
      let (us, ts, fs) = thaws_items xs xs' exs in (cons u us, ground arith, ground arith)

  thaws_fields : (v w : Fields) → freeze_fields v ≡ ok w → ThawsFields w
  thaws_fields end w h = (end, ground arith, ground arith)
  thaws_fields (field (text k) x xs) w h =
      let (x', ex, h1) = >>=-eq-ok (freeze_value x) _ h in
      let (xs', exs, h2) = >>=-eq-ok (freeze_fields xs) _ h1 in
      let (u, t, f) = thaws x x' ex in
      let (us, ts, fs) = thaws_fields xs xs' exs in
      (field (text k) u us, ground arith, ground arith)
  thaws_fields (field (not_text k) x xs) w h = cc

-- A value that freezes to `w` leaves `w` thawable, and what it thaws to freezes to `w` again.
pub thaw-freeze :
    (v w : Value)
    → freeze_value v ≡ ok w
    → (u : Value) × (thaw_value w ≡ ok u) × (freeze_value u ≡ ok w)
thaw-freeze v w h = thaws v w h

mutual
  unfolding freeze_value freeze_items freeze_fields

  again : (v w : Value) → freeze_value v ≡ ok w → freeze_value w ≡ ok w
  again null w h = ground arith
  again (str s) w h = ground arith
  again (int n) w h = ground arith
  again (bool b) w h = ground arith
  again (float true n) w h = ground arith
  again (float false n) w h = cc
  again (mapping fs) w h =
      let (frozen, e, d) = >>=-eq-ok (freeze_fields fs) _ h in
      ground (arith, again_fields fs frozen e)
  again (list xs) w h =
      let (frozen, e, d) = >>=-eq-ok (freeze_items xs) _ h in
      ground (arith, again_items xs frozen e)
  again (tuple xs) w h =
      let (frozen, e, d) = >>=-eq-ok (freeze_items xs) _ h in
      ground (arith, again_items xs frozen e)
  again (other n) w h = cc

  again_items : (v w : Items) → freeze_items v ≡ ok w → freeze_items w ≡ ok w
  again_items nil w h = ground arith
  again_items (cons x xs) w h =
      let (x', ex, h1) = >>=-eq-ok (freeze_value x) _ h in
      let (xs', exs, h2) = >>=-eq-ok (freeze_items xs) _ h1 in
      ground (arith, again x x' ex, again_items xs xs' exs)

  again_fields : (v w : Fields) → freeze_fields v ≡ ok w → freeze_fields w ≡ ok w
  again_fields end w h = ground arith
  again_fields (field (text k) x xs) w h =
      let (x', ex, h1) = >>=-eq-ok (freeze_value x) _ h in
      let (xs', exs, h2) = >>=-eq-ok (freeze_fields xs) _ h1 in
      ground (arith, again x x' ex, again_fields xs xs' exs)
  again_fields (field (not_text k) x xs) w h = cc

-- Freezing a frozen value changes nothing.
pub freeze_idem : (v w : Value) → freeze_value v ≡ ok w → freeze_value w ≡ ok w
freeze_idem v w h = again v w h
