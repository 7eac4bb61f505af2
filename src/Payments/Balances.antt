-- ===== src/Payments/Balances.antt =====
-- The scheduled charge of balances, and the warning a day before it: internal/payments/balance.go,
-- with `DueForBalanceCharge` and `DueForBalanceWarning` of payments.go.
use Prim.Native.String.{String, ◌++◌}
use text.Mathlib.Text.{◌==◌ as str_eq}
use bealhouse.Prelude.{
  ℕ, ◌+◌, Bool, true, false, ◌||◌, List, [], ◌∷◌, Option, none, some, if◌then◌else◌,
}
use bealhouse.Prelude.Int.{ℤ, pos}
use bealhouse.Prelude.Int64.{◌-!◌}
use bealhouse.Civil.{Date, add_days}
use bealhouse.Db.Schema.{balance, Guest, Booking}
use bealhouse.Db.Session.{
  Action, Outcome, ok, err, Error, pure, raise, no_rows, transaction, query, ◌>>=◌, ◌>>◌,
}
use bealhouse.Db.Bookings.{
  PaymentRow, find_guest, get_booking_for_payment, list_due_for_balance_charge,
  list_to_warn_about_balance, mark_balance_charge_failed, mark_balance_warned,
}
use bealhouse.Mail
use bealhouse.Payments.Charge.{Charge}
use bealhouse.Payments.Gateway.{Gateway, Reply, charged, declined, failure}
use bealhouse.Payments.Letters.{balance_failed}
use bealhouse.Payments.Record.{record_charge, record_failure}

pub record Due : Type 0 where
  pub booking_id : ℕ
  pub code : String
  pub amount_cents : ℤ
  pub guest_email : String
  pub customer_id : String
  pub payment_method_id : String

abbrev pub due_of : Booking → Guest → Due
due_of b g = record {
  booking_id = b.id;
  code = b.code;
  amount_cents = b.total_cents -! b.amount_paid_cents;
  guest_email = g.email;
  customer_id = b.stripe_customer_id;
  payment_method_id = b.stripe_payment_method_id;
}

abbrev pub with_guest : Option Guest → Booking → List Due → List Due
with_guest none b ds = ds
with_guest (some g) b ds = due_of b g ∷ ds

-- The rows with their guests, and the amounts.
unfoldable pub dues : List Guest → List Booking → List Due
dues gs [] = []
dues gs (b ∷ bs) = with_guest (find_guest b.guest_id gs) b (dues gs bs)

unfoldable pub list_guests : Action (List Guest)
list_guests = query (λ d. d.guests)

-- `JOIN guests` of the two queries, whose rows `rows` are.
unfoldable pub joined : Action (List Booking) → Action (List Due)
joined rows = do gs ← list_guests; bs ← rows; pure (dues gs bs)

-- The counter and the failures of a loop over the bookings; a failure does not end the loop.
abbrev pub tally : Outcome Bool → ℕ × List Error → ℕ × List Error
tally (ok true) (n, es) = (n + 1, es)
tally (ok false) (n, es) = (n, es)
tally (err e) (n, es) = (n, e ∷ es)

unfoldable pub for_each : (Due → Action Bool) → List Due → ℕ × List Error → Action (ℕ × List Error)
for_each work [] t s = (ok t, s)
for_each work (d ∷ ds) t s = let (r, s') = work d s in for_each work ds (tally r t) s'

-- `warnOne`
unfoldable pub warn_one : Due → Action Bool
warn_one d = transaction (do
  Mail.queue (record {
    recipient = d.guest_email;
    template = "balance_warning";
    code = d.code;
    amount_cents = d.amount_cents;
  })
  mark_balance_warned d.booking_id
  pure true)

-- `WarnBalances`: the day after is `warningLeadDays`.
unfoldable pub warn_balances : Date → Action (ℕ × List Error)
warn_balances on = do
  ds ← joined (list_to_warn_about_balance (add_days on (pos 1)))
  for_each warn_one ds (0, [])

unfoldable pub flag_found : PaymentRow → Action Bool
flag_found b = do mark_balance_charge_failed b.id; balance_failed b; pure false

-- `flagUncollectable`
unfoldable pub flag_uncollectable : Due → Action Bool
flag_uncollectable d = transaction (do
  found ← get_booking_for_payment d.code
  elim found [ none ↦ raise no_rows | some b ↦ flag_found b ])

abbrev pub balance_charge : Due → String → Charge
balance_charge d stripe_id = record {
  booking_code = d.code;
  stripe_id = stripe_id;
  event_id = "";
  event_type = "";
  kind = balance;
  amount_cents = d.amount_cents;
  customer_id = "";
  payment_method_id = "";
  owner_email = "";
}

-- A processor that names no intent leaves the booking's own id.
abbrev pub declined_id : Due → String → String
declined_id d intent_id = if str_eq intent_id "" then "declined:" ++ d.code else intent_id

unfoldable pub record_reply : Due → Reply → Action Bool
record_reply d (charged intent) = do record_charge (balance_charge d intent.id); pure true
record_reply d (declined intent_id) = do
  record_failure (balance_charge d (declined_id d intent_id))
  pure false
record_reply d (failure e) = raise e

module _ (gw : Gateway) where
  -- `chargeOne`: whether the money was taken.
  unfoldable pub charge_one : Due → Action Bool
  charge_one d =
      if str_eq d.customer_id "" || str_eq d.payment_method_id ""
      then flag_uncollectable d
      else record_reply d (
          gw.charge_off_session (record {
            booking_code = d.code;
            amount_cents = d.amount_cents;
            customer_id = d.customer_id;
            payment_method_id = d.payment_method_id;
          }))

  -- `ChargeBalances`
  unfoldable pub charge_balances : Date → Action (ℕ × List Error)
  charge_balances on = do
    ds ← joined (list_due_for_balance_charge on)
    for_each charge_one ds (0, [])
