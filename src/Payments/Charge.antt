-- ===== src/Payments/Charge.antt =====
-- The values of internal/payments/payments.go, and its checks that touch no table but
-- `stripe_events`.
use Prim.Native.String.{String}
use bealhouse.Prelude.{ℕ, Bool, false, if◌then◌else◌, ◌==◌}
use bealhouse.Prelude.Int.{ℤ, pos, ltb_ℤ, leb_ℤ}
use bealhouse.Prelude.Int64.{◌+!◌, ◌-!◌}
use bealhouse.Prelude.Text.{is_blank, trim_space}
use bealhouse.Pricing.{Quote, charge_at_booking}
use bealhouse.Db.Schema.{Kind, deposit, full, balance, refund, other}
use bealhouse.Db.Session.{
  Action, Outcome, ok, err, pure, ◌>>=◌, stripe_id_required, amount_not_positive, kind_unknown,
}
use bealhouse.Db.Bookings.{PaymentRow, is_null}
use bealhouse.Db.Payments.{record_stripe_event, is_kind}

-- `ManageURL` is left out: it only adds a link to the confirmation.
pub record Charge : Type 0 where
  pub booking_code : String
  pub stripe_id : String
  pub event_id : String
  pub event_type : String
  pub kind : Kind
  pub amount_cents : ℤ
  pub customer_id : String
  pub payment_method_id : String
  pub owner_email : String

pub data Decision : Type 0 where
  confirmed already_applied refund_due underpaid : Decision

pub record Result : Type 0 where
  pub outcome : Decision
  pub booking_id : ℕ
  pub code : String
  pub refund_cents : ℤ
  pub shortfall_cents : ℤ

-- `Charge.validate`
unfoldable pub validate : Charge → Outcome (Unit {0})
unfolding is_blank
validate c =
    if is_blank c.stripe_id
    then err stripe_id_required
    else if leb_ℤ c.amount_cents (pos 0)
    then err amount_not_positive
    else if is_kind c.kind
    then ok tt
    else err kind_unknown

-- The text of a kind.
abbrev pub kind_text : Kind → String
kind_text deposit = "deposit"
kind_text full = "full"
kind_text balance = "balance"
kind_text refund = "refund"
kind_text (other s) = s

abbrev pub event_type_of : Charge → String
event_type_of c = if is_blank c.event_type then kind_text c.kind else trim_space c.event_type

-- `noteEvent`: whether the delivery was seen before.
unfoldable pub note_event : Charge → Action Bool
note_event c =
    if is_blank c.event_id
    then pure false
    else (do inserted ← record_stripe_event c.event_id (event_type_of c); pure (inserted == 0))

-- The quote of a booking's snapshot, for what is due at booking.
abbrev pub snapshot : PaymentRow → Quote
snapshot b = record {
  nights = 0;
  room_subtotal_cents = pos 0;
  taxable_cents = pos 0;
  tax_cents = pos 0;
  tax_rate_percent = "";
  total_cents = b.total_cents;
  deposit_cents = b.deposit_cents;
  balance_cents = b.balance_due_cents;
}

-- How much of what booking required is still missing after this payment.
unfoldable pub shortfall : PaymentRow → ℤ → ℤ
unfolding charge_at_booking
shortfall b just_paid =
    let due = charge_at_booking (snapshot b) (is_null b.balance_charge_at) in
    let collected = b.amount_paid_cents +! just_paid in
    if ltb_ℤ collected due then due -! collected else pos 0
