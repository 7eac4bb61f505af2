-- ===== src/Payments/Letters.antt =====
-- The mail that internal/payments/confirmation.go and refund.go queue, and the refund job.
use Prim.Native.String.{String, ◌++◌}
use text.Mathlib.Text.{◌==◌ as str_eq}
use bealhouse.Prelude.{none, if◌then◌else◌}
use bealhouse.Prelude.Int.{ℤ}
use bealhouse.Prelude.Int64.{◌-!◌}
use bealhouse.Db.Schema.{refund_of}
use bealhouse.Db.Session.{Action, pure, ◌>>◌}
use bealhouse.Db.Bookings.{PaymentRow, list_booking_rooms}
use bealhouse.Jobs.Enqueue.{enqueue}
use bealhouse.Mail
use bealhouse.Payments.Charge.{Charge}

abbrev pub refund_job_kind : String
refund_job_kind = "payment.refund"

-- `QueueRefund`; an amount of 0 means everything collected.
unfoldable pub queue_refund : String → ℤ → Action (Unit {0})
queue_refund code amount_cents = do
  enqueue (record {
    kind = refund_job_kind;
    run_at = none;
    payload = refund_of code amount_cents;
    unique_key = refund_job_kind ++ ":" ++ code;
  })
  pure tt

abbrev pub letter : String → String → PaymentRow → ℤ → Action (Unit {0})
letter to template b amount =
    Mail.queue
      (record { recipient = to; template = template; code = b.code; amount_cents = amount })

unfoldable pub owner_notification : PaymentRow → Charge → Action (Unit {0})
owner_notification b c =
    if str_eq c.owner_email ""
    then pure tt
    else letter c.owner_email "owner_notification" b c.amount_cents

-- `confirmationMail`: to the guest, to the owners' phones, and to the owner's address if one is set.
unfoldable pub confirmation_mail : PaymentRow → Charge → Action (Unit {0})
confirmation_mail b c = do
  list_booking_rooms b.id
  letter b.guest_email "booking_confirmation" b c.amount_cents
  Mail.queue_push "New booking" b.code
  owner_notification b c

unfoldable pub balance_receipt : PaymentRow → Charge → Action (Unit {0})
balance_receipt b c = letter b.guest_email "balance_receipt" b c.amount_cents

unfoldable pub balance_failed : PaymentRow → Action (Unit {0})
balance_failed b = letter b.guest_email "balance_failed" b (b.total_cents -! b.amount_paid_cents)

unfoldable pub cancellation_mail : PaymentRow → ℤ → Action (Unit {0})
cancellation_mail b refunded = letter b.guest_email "cancellation_refund" b refunded
