-- ===== src/Payments/Record.antt =====
-- `RecordCharge`, `RecordFailure` and `RecordRefund` of internal/payments/payments.go, each in its
-- transaction. Every early `return` with a nil error stands right behind a `Commit`, which
-- `transaction` makes.
use Prim.Native.String.{String}
use bealhouse.Prelude.{Bool, true, false, not, ◌||◌, none, some, if◌then◌else◌}
use bealhouse.Prelude.Int.{ℤ, pos, ltb_ℤ}
use bealhouse.Prelude.Int64.{◌+!◌}
use bealhouse.Prelude.Text.{normalise}
use bealhouse.Db.Schema.{Kind, deposit, full, balance, refund, other, Settled, succeeded, failed}
use bealhouse.Db.Session.{
  Action, Outcome, ok, err, pure, raise, transaction, booking_not_found, ◌>>=◌, ◌>>◌,
}
use bealhouse.Db.Occupancy.{release_booking_occupancy}
use bealhouse.Db.Payments.{record_payment}
use bealhouse.Db.Bookings.{
  PaymentRow, is_confirmed, is_cancelled, get_booking_for_payment, add_payment_to_booking,
  save_booking_card, confirm_booking, cancel_booking, mark_balance_charge_failed,
}
use bealhouse.Payments.Charge.{
  Charge, Decision, confirmed, already_applied, refund_due, underpaid, Result, validate, note_event,
  shortfall,
}
use bealhouse.Payments.Letters.{
  queue_refund, confirmation_mail, balance_receipt, balance_failed, cancellation_mail,
}
use bealhouse.Payments.Rooms.{secure_room}
use text.Mathlib.Text.{◌==◌ as str_eq}

abbrev pub is_balance : Kind → Bool
is_balance balance = true
is_balance deposit = false
is_balance full = false
is_balance refund = false
is_balance (other s) = false

abbrev pub result : Decision → PaymentRow → ℤ → ℤ → Result
result outcome b refund_cents shortfall_cents = record {
  outcome = outcome;
  booking_id = b.id;
  code = b.code;
  refund_cents = refund_cents;
  shortfall_cents = shortfall_cents;
}

abbrev pub plain : Decision → PaymentRow → Result
plain outcome b = result outcome b (pos 0) (pos 0)

-- `validate`, then the body in a transaction.
abbrev pub checked : {A : Type 0} → Outcome (Unit {0}) → Action A → Action A
checked (ok _) body = body
checked (err e) body = raise e

-- The ledger row; a row that is there already ends the work. `work` is what the three functions do
-- with a payment that is new.
unfoldable pub post :
    Charge → Kind → Settled → (PaymentRow → Action Result) → PaymentRow → Action Result
post c kind status work found = do
  recorded ← record_payment (record {
    booking_id = found.id;
    stripe_id = c.stripe_id;
    kind = kind;
    amount_cents = c.amount_cents;
    status = status;
  })
  elim recorded [ none ↦ pure (plain already_applied found) | some id ↦ work found ]

-- The delivery's id comes first.
unfoldable pub intake :
    Charge → Kind → Settled → (PaymentRow → Action Result) → PaymentRow → Action Result
intake c kind status work found = do
  seen ← note_event c
  if seen then pure (plain already_applied found) else post c kind status work found

unfoldable pub with_booking : {A : Type 0} → String → (PaymentRow → Action A) → Action A
with_booking code work = transaction (do
  found ← get_booking_for_payment (normalise code)
  elim found [ none ↦ raise booking_not_found | some b ↦ work b ])

-- `refundDue`
unfoldable pub return_payment : PaymentRow → ℤ → Action Result
return_payment b just_paid = do
  release_booking_occupancy b.id
  cancel_booking b.id
  let owed = b.amount_paid_cents +! just_paid
  queue_refund b.code (pos 0)
  cancellation_mail b owed
  pure (result refund_due b owed (pos 0))

unfoldable pub confirmation_letter : PaymentRow → Charge → Action (Unit {0})
confirmation_letter b c =
    if not (is_confirmed b.status)
    then confirmation_mail b c
    else if is_balance c.kind
    then balance_receipt b c
    else pure tt

unfoldable pub confirm : PaymentRow → Charge → Action Result
confirm b c = do confirm_booking b.id; confirmation_letter b c; pure (plain confirmed b)

unfoldable pub settle : PaymentRow → Charge → Action Result
settle b c = do
  secured ← secure_room b
  if not secured || is_cancelled b.status then return_payment b c.amount_cents else confirm b c

unfoldable pub save_card : PaymentRow → Charge → Action (Unit {0})
save_card b c =
    if str_eq c.customer_id "" || str_eq c.payment_method_id ""
    then pure tt
    else save_booking_card b.id c.customer_id c.payment_method_id

-- What `RecordCharge` does with a payment that is new.
unfoldable pub collect : Charge → PaymentRow → Action Result
collect c b = do
  add_payment_to_booking b.id c.amount_cents
  save_card b c
  let short = shortfall b c.amount_cents
  if ltb_ℤ (pos 0) short then pure (result underpaid b (pos 0) short) else settle b c

-- `RecordCharge`
unfoldable pub record_charge : Charge → Action Result
record_charge c =
    checked (validate c) (with_booking c.booking_code (intake c c.kind succeeded (collect c)))

-- What `RecordFailure` does with a failure that is new.
unfoldable pub note_failure : Charge → PaymentRow → Action Result
note_failure c b =
    if is_balance c.kind
    then (do mark_balance_charge_failed b.id; balance_failed b; pure (plain already_applied b))
    else pure (plain already_applied b)

-- `RecordFailure`
unfoldable pub record_failure : Charge → Action Result
record_failure c =
    checked (validate c) (with_booking c.booking_code (intake c c.kind failed (note_failure c)))

-- What `RecordRefund` does with a refund that is new.
unfoldable pub note_refund : Charge → PaymentRow → Action Result
note_refund c b = do
  release_booking_occupancy b.id
  cancel_booking b.id
  pure (result refund_due b c.amount_cents (pos 0))

-- `RecordRefund`
unfoldable pub record_refund : Charge → Action Result
record_refund c =
    checked (validate c) (with_booking c.booking_code (intake c refund succeeded (note_refund c)))
