-- ===== src/Payments/Refunding.antt =====
-- The refund job: `Refund` and `collectedPayments` of internal/payments/refund.go.
use Prim.Native.String.{String}
use bealhouse.Prelude.{Bool, true, false, List, [], ◌∷◌, none, some, if◌then◌else◌}
use bealhouse.Prelude.Int.{ℤ}
use bealhouse.Prelude.Text.{normalise}
use bealhouse.Db.Schema.{Kind, deposit, full, balance, refund, other, Payment}
use bealhouse.Db.Session.{
  Action, Outcome, ok, err, pure, raise, round_trip, booking_not_found, ◌>>=◌, ◌>>◌,
}
use bealhouse.Db.Payments.{is_succeeded, list_payments_for_booking}
use bealhouse.Db.Bookings.{PaymentRow, get_booking_for_payment}
use bealhouse.Payments.Charge.{Charge}
use bealhouse.Payments.Gateway.{Gateway}
use bealhouse.Payments.Ledger.{Collected, Ledger, allocate}
use bealhouse.Payments.Record.{record_refund}

abbrev pub is_refund : Kind → Bool
is_refund refund = true
is_refund deposit = false
is_refund full = false
is_refund balance = false
is_refund (other s) = false

abbrev pub with_refund : Payment → Ledger → Ledger
with_refund p l = record l { already_refunded = p.amount_cents ∷ l.already_refunded }

abbrev pub with_charge : Payment → Ledger → Ledger
with_charge p l = record l {
  charges = record { stripe_id = p.stripe_id; amount_cents = p.amount_cents } ∷ l.charges;
}

-- The loop over the rows: what succeeded is a refund or a charge.
unfoldable pub ledger_of : List Payment → Ledger
ledger_of [] = record { charges = []; already_refunded = [] }
ledger_of (p ∷ ps) =
    let rest = ledger_of ps in
    if is_succeeded p.status
    then (if is_refund p.kind then with_refund p rest else with_charge p rest)
    else rest

unfoldable pub read_ledger : PaymentRow → Action Ledger
read_ledger b = do rows ← list_payments_for_booking b.id; pure (ledger_of rows)

-- `collectedPayments`: the transaction only reads, and its rollback changes nothing.
unfoldable pub collected_payments : String → Action Ledger
collected_payments code = do
  round_trip
  found ← get_booking_for_payment (normalise code)
  elim found [ none ↦ raise booking_not_found | some b ↦ read_ledger b ]

abbrev pub refund_charge : String → String → Collected → Charge
refund_charge code refund_id part = record {
  booking_code = code;
  stripe_id = refund_id;
  event_id = "";
  event_type = "";
  kind = refund;
  amount_cents = part.amount_cents;
  customer_id = "";
  payment_method_id = "";
  owner_email = "";
}

unfoldable pub record_sent : String → Collected → Outcome String → Action (Unit {0})
record_sent code part (err e) = raise e
record_sent code part (ok refund_id) = do record_refund (refund_charge code refund_id part); pure tt

module _ (gw : Gateway) where
  unfoldable pub send_parts : String → List Collected → Action (Unit {0})
  send_parts code [] = pure tt
  send_parts code (part ∷ parts) =
      let rest = send_parts code parts in
      do
        record_sent code part (
            gw.refund (record {
              booking_code = code;
              intent_id = part.stripe_id;
              amount_cents = part.amount_cents;
            }))
        rest

  -- `Refund`
  unfoldable pub send_refund : String → ℤ → Action (Unit {0})
  send_refund code target_cents = do
    l ← collected_payments code
    send_parts code (allocate l target_cents)
