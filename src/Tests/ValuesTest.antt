-- ===== src/Tests/ValuesTest.antt =====
-- Values, and an approval.
use sarmady.Prelude.{pos, ◌≡◌, refl, true, none, some, arith, string_eq}
use sarmady.Outcome.{ok, err}
use sarmady.Values.{
  Value, int, str, list, tuple, mapping, cons, nil, field, end, text, freeze_value, freeze_items,
  freeze_fields, thaw_value,
}
use sarmady.Values.RoundTrip.{thaw-freeze, freeze_idem}
use sarmady.Kernel.{Approval, NotAfter, approval_authorizes, approval_authorizes_earlier}
use sarmady.Tests.Samples.{at}

abbrev thawed : Value
thawed = mapping (field (text "ids") (list (cons (int (pos 1)) (cons (str "a") nil))) end)

abbrev frozen : Value
frozen = mapping (field (text "ids") (tuple (cons (int (pos 1)) (cons (str "a") nil))) end)

freezes : freeze_value thawed ≡ ok frozen
unfolding freeze_value freeze_items freeze_fields
freezes = refl

thaw-freeze_example : (u : Value) × (thaw_value frozen ≡ ok u) × (freeze_value u ≡ ok frozen)
thaw-freeze_example = thaw-freeze thawed frozen freezes

freeze_idem_example : freeze_value frozen ≡ ok frozen
freeze_idem_example = freeze_idem thawed frozen freezes

abbrev approval : Approval
approval = record {
  id = 1;
  principal_id = 2;
  action_fingerprint = "f";
  approved_at = at 1;
  expires_at = some (at 9);
}

authorized : approval_authorizes approval "f" (at 9) ≡ ok true
unfolding approval_authorizes sarmady.Kernel.is_expired sarmady.Time.require_comparable
authorized = refl

approval_authorizes_earlier_example :
    (approval.action_fingerprint ≡ "f")
    × NotAfter (some (at 9)) (at 9)
    × (approval_authorizes approval "f" (at 4) ≡ ok true)
approval_authorizes_earlier_example =
    approval_authorizes_earlier approval "f" (at 9) (at 4) authorized (omega arith) refl

-- A naive time is not compared with an aware expiry.
naive_time :
    approval_authorizes approval "f" (record { instant = 4; offset = none })
    ≡ err (sarmady.Outcome.type_error "can't compare offset-naive and offset-aware datetimes")
unfolding approval_authorizes sarmady.Kernel.is_expired sarmady.Time.require_comparable
naive_time = refl
