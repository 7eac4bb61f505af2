-- ===== src/Db/Payments.antt =====
-- The statements of internal/db/gen/payments.sql.go on `payments` and `stripe_events`.
use Prim.Native.String.{String}
use text.Mathlib.Text.{◌==◌ as str_eq}
use bealhouse.Prelude.{
  ℕ, ◌+◌, Bool, true, false, not, Option, none, some, ◌&&◌, List, [], ◌∷◌, ◌++◌, keep, any, ◌==◌,
  if◌then◌else◌,
}
use bealhouse.Prelude.Int.{ℤ, pos, ltb_ℤ}
use bealhouse.Db.Schema.{
  Kind, deposit, full, balance, refund, other, Settled, succeeded, failed, Payment, Store,
}
use bealhouse.Db.Session.{
  Action, Outcome, ok, err, check_violation, foreign_key_violation, statement, query,
}

abbrev pub is_succeeded : Settled → Bool
is_succeeded succeeded = true
is_succeeded failed = false

abbrev pub same_settled : Settled → Settled → Bool
same_settled succeeded s = is_succeeded s
same_settled failed succeeded = false
same_settled failed failed = true

-- `kind IN ('deposit', 'full', 'balance', 'refund')`
abbrev pub is_kind : Kind → Bool
is_kind (other _) = false
is_kind deposit = true
is_kind full = true
is_kind balance = true
is_kind refund = true

-- The unique index on (stripe_id, status).
abbrev pub same_payment : String → Settled → Payment → Bool
same_payment stripe_id status p = str_eq p.stripe_id stripe_id && same_settled p.status status

pub record RecordPaymentParams : Type 0 where
  pub booking_id : ℕ
  pub stripe_id : String
  pub kind : Kind
  pub amount_cents : ℤ
  pub status : Settled

abbrev pub payment_of : ℕ → RecordPaymentParams → Payment
payment_of id arg = record {
  id = id;
  booking_id = arg.booking_id;
  stripe_id = arg.stripe_id;
  kind = arg.kind;
  amount_cents = arg.amount_cents;
  status = arg.status;
}

-- The CHECKs of the table.
abbrev pub is_payment : RecordPaymentParams → Bool
is_payment arg = is_kind arg.kind && ltb_ℤ (pos 0) arg.amount_cents

-- `ON CONFLICT (stripe_id, status) DO NOTHING RETURNING id`: a conflict returns no row. The CHECKs
-- come first, and the reference to the booking last.
abbrev pub insert_payment : RecordPaymentParams → Store → Outcome (Option ℕ) × Store
insert_payment arg d =
    if not (is_payment arg)
    then (err check_violation, d)
    else if any (same_payment arg.stripe_id arg.status) d.payments
    then (ok none, d)
    else if not (any (λ b. b.id == arg.booking_id) d.bookings)
    then (err foreign_key_violation, d)
    else (
      ok (some d.next_id),
      record d {
        next_id = d.next_id + 1;
        payments = d.payments ++ (payment_of d.next_id arg ∷ []);
      },
    )

-- `RecordPayment`; `none` is pgx.ErrNoRows.
unfoldable pub record_payment : RecordPaymentParams → Action (Option ℕ)
record_payment arg = statement (insert_payment arg)

-- `ListPaymentsForBooking`, `ORDER BY created_at, id`: the table is in that order.
unfoldable pub list_payments_for_booking : ℕ → Action (List Payment)
list_payments_for_booking id = query (λ d. keep (λ p. p.booking_id == id) d.payments)

abbrev pub insert_event : String → String → Store → Outcome ℕ × Store
insert_event id type d =
    if any (λ e. str_eq e.0 id) d.stripe_events
    then (ok 0, d)
    else (ok 1, record d { stripe_events = (id, type) ∷ d.stripe_events })

-- `RecordStripeEvent`, with the number of rows inserted.
unfoldable pub record_stripe_event : String → String → Action ℕ
record_stripe_event id type = statement (insert_event id type)
