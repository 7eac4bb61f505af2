-- ===== src/Payments/Cancel.antt =====
-- `Cancel` of internal/payments/cancel.go, and `RefundFor` of payments.go, which quotes it.
use Prim.Native.String.{String}
use bealhouse.Prelude.{ℕ, Bool, not, none, some, if◌then◌else◌}
use bealhouse.Prelude.Int.{ℤ, pos, ltb_ℤ}
use bealhouse.Prelude.Text.{normalise}
use bealhouse.Civil.{Date, before}
use bealhouse.Pricing.{retained, refund, is_late_cancellation}
use bealhouse.Db.Schema.{Settings}
use bealhouse.Db.Session.{
  Action, pure, raise, raise_if, booking_not_found, not_cancellable, stay_underway, ◌>>=◌, ◌>>◌,
}
use bealhouse.Db.Occupancy.{release_booking_occupancy}
use bealhouse.Db.Bookings.{
  PaymentRow, is_confirmed, get_booking_for_payment, get_settings, cancel_booking,
}
use bealhouse.Payments.Charge.{snapshot}
use bealhouse.Payments.Letters.{queue_refund, cancellation_mail}
use bealhouse.Payments.Record.{with_booking}

pub record Cancellation : Type 0 where
  pub booking_id : ℕ
  pub code : String
  pub late : Bool
  pub retained_cents : ℤ
  pub refund_cents : ℤ

-- What the policy of `s` returns on a cancellation of `b` on a day.
abbrev pub refund_on : Date → Settings → PaymentRow → ℤ
refund_on on s b =
    refund (snapshot b) b.amount_paid_cents (is_late_cancellation on b.checkin)
      s.refund_processing_rate_scaled

abbrev pub retained_on : Date → Settings → PaymentRow → ℤ
retained_on on s b =
    retained (snapshot b) b.amount_paid_cents (is_late_cancellation on b.checkin)
      s.refund_processing_rate_scaled

abbrev pub cancellation : Date → Settings → PaymentRow → Cancellation
cancellation on s b = record {
  booking_id = b.id;
  code = b.code;
  late = is_late_cancellation on b.checkin;
  retained_cents = retained_on on s b;
  refund_cents = refund_on on s b;
}

unfoldable pub queue_any_refund : PaymentRow → ℤ → Action (Unit {0})
queue_any_refund b amount = if ltb_ℤ (pos 0) amount then queue_refund b.code amount else pure tt

unfoldable pub cancel_found : Date → PaymentRow → Action Cancellation
cancel_found on b = do
  raise_if (not (is_confirmed b.status)) not_cancellable
  raise_if (not (before on b.checkin)) stay_underway
  s ← get_settings
  release_booking_occupancy b.id
  cancel_booking b.id
  queue_any_refund b (refund_on on s b)
  cancellation_mail b (refund_on on s b)
  pure (cancellation on s b)

unfoldable pub cancel : String → Date → Action Cancellation
cancel code on = with_booking code (cancel_found on)

pub record RefundQuote : Type 0 where
  pub booking_id : ℕ
  pub code : String
  pub paid_cents : ℤ
  pub late : Bool
  pub retained_cents : ℤ
  pub refund_cents : ℤ

unfoldable pub quote_refund : Date → PaymentRow → Action RefundQuote
quote_refund on b = do
  s ← get_settings
  pure (record {
    booking_id = b.id;
    code = b.code;
    paid_cents = b.amount_paid_cents;
    late = is_late_cancellation on b.checkin;
    retained_cents = retained_on on s b;
    refund_cents = refund_on on s b;
  })

-- `RefundFor`
unfoldable pub refund_for : String → Date → Action RefundQuote
refund_for code on = do
  found ← get_booking_for_payment (normalise code)
  elim found [ none ↦ raise booking_not_found | some b ↦ quote_refund on b ]
