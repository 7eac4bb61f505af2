-- ===== src/Payments/Open.antt =====
-- `Open` and `OpenKeyedIn` of internal/payments/open.go, and `StartPayment` of payments.go.
use Prim.Native.String.{String}
use bealhouse.Prelude.{ℕ, Bool, not, ◌&&◌, ◌||◌, none, some, if◌then◌else◌}
use bealhouse.Prelude.Int.{ℤ, pos, leb_ℤ}
use bealhouse.Prelude.Int64.{◌-!◌}
use bealhouse.Prelude.Text.{normalise, is_blank}
use bealhouse.Pricing.{charge_at_booking}
use bealhouse.Db.Schema.{Kind, deposit, full, balance}
use bealhouse.Db.Session.{
  Action, Outcome, ok, err, pure, raise, raise_if, booking_not_found, not_payable, nothing_to_pay,
  stripe_id_required, ◌>>=◌, ◌>>◌,
}
use bealhouse.Db.Bookings.{
  PaymentRow, is_pending, is_confirmed, is_null, get_booking_for_payment, mark_payment_started,
}
use bealhouse.Payments.Charge.{snapshot}
use bealhouse.Payments.Gateway.{Gateway, Intent, IntentRequest}

pub record Opened : Type 0 where
  pub code : String
  pub intent_id : String
  pub client_secret : String
  pub amount_cents : ℤ

unfoldable pub start_payment : ℕ → String → Action (Unit {0})
start_payment booking_id intent_id = do
  raise_if (is_blank intent_id) stripe_id_required
  mark_payment_started booking_id intent_id

abbrev pub is_payable : PaymentRow → Bool
is_payable b = is_pending b.status || (is_confirmed b.status && is_null b.balance_charge_at)

abbrev pub amount_due : PaymentRow → ℤ
amount_due b = charge_at_booking (snapshot b) (is_null b.balance_charge_at) -! b.amount_paid_cents

abbrev pub kind_due : PaymentRow → Kind
kind_due b =
    if is_confirmed b.status then balance else if is_null b.balance_charge_at then full else deposit

abbrev pub intent_for : PaymentRow → Bool → IntentRequest
intent_for b moto = record {
  booking_code = b.code;
  amount_cents = amount_due b;
  guest_email = b.guest_email;
  guest_name = b.guest_name;
  kind = kind_due b;
  save_card = not (is_null b.balance_charge_at);
  moto = moto;
}

unfoldable pub with_intent : PaymentRow → Outcome Intent → Action Opened
with_intent b (err e) = raise e
with_intent b (ok intent) = do
  start_payment b.id intent.id
  pure (record {
    code = b.code;
    intent_id = intent.id;
    client_secret = intent.client_secret;
    amount_cents = amount_due b;
  })

module _ (gw : Gateway) where
  unfoldable pub open_found : Bool → PaymentRow → Action Opened
  open_found moto b = do
    raise_if (not (is_payable b)) not_payable
    raise_if (leb_ℤ (amount_due b) (pos 0)) nothing_to_pay
    with_intent b (gw.create_intent (intent_for b moto))

  -- `open`, which `Open` calls with false and `OpenKeyedIn` with true.
  unfoldable pub open_payment : String → Bool → Action Opened
  open_payment code moto = do
    found ← get_booking_for_payment (normalise code)
    elim found [ none ↦ raise booking_not_found | some b ↦ open_found moto b ]
