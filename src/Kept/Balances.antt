-- ===== src/Kept/Balances.antt =====
-- The scheduled work on balances, the refund job, the opening of a payment and the sweep keep what
-- the statements keep.
use Prim.Native.String.{String}
use bealhouse.Prelude.{ℕ, refl, Bool, true, false, List, [], ◌∷◌, Option, none, some}
use bealhouse.Prelude.Int.{ℤ}
use bealhouse.Civil.{Date}
use bealhouse.Db.Schema.{Store, Booking}
use bealhouse.Db.Session.{Action, Outcome, ok, err, Error, raise, no_rows, booking_not_found}
use bealhouse.Db.Keeps.{
  Keeps, Keeps-bind, Keeps-pure, Keeps-raise, Keeps-query, Keeps-round_trip, Keeps-transaction,
  Keeps-if,
}
use bealhouse.Db.Bookings.{PaymentRow}
use bealhouse.Booking.Sweeper.{sweep}
use bealhouse.Payments.Gateway.{Gateway, Intent, Reply, charged, declined, failure}
use bealhouse.Payments.Ledger.{Collected}
use bealhouse.Payments.Refunding.{
  read_ledger, collected_payments, record_sent, send_parts, send_refund,
}
use bealhouse.Payments.Open.{start_payment, with_intent, open_found, open_payment}
use bealhouse.Payments.Balances.{
  Due, list_guests, joined, tally, for_each, warn_one, warn_balances, flag_found,
  flag_uncollectable, record_reply, charge_one, charge_balances,
}
use bealhouse.Kept.Interface.{
  IsKept, IsRecorded, find-Keeps, payments-Keeps, due-Keeps, to_warn-Keeps, reading_rules,
}
use bealhouse.Kept.Payments.{queue-Keeps, balance_failed-Keeps}

for_each-Keeps :
    {P : Store → Type 0} (work : Due → Action Bool) (ds : List Due) (t : ℕ × List Error)
    → ((d : Due) → Keeps P (work d))
    → Keeps P (for_each work ds t)
unfolding for_each
for_each-Keeps work [] t kw = record { at = λ s h. h }
for_each-Keeps work (d ∷ ds) t kw = record {
  at = λ s h. (for_each-Keeps work ds (tally (work d s).0 t) kw).at (work d s).1 ((kw d).at s h);
}

-- A row that is looked for, and the error where there is none.
found-Keeps :
    {A : Type 0} {P : Store → Type 0} (e : Error) (work : PaymentRow → Action A)
    → ((b : PaymentRow) → Keeps P (work b))
    → (found : Option PaymentRow)
    → Keeps P (elim found as (λ _. Action A) [ none ↦ raise e | some b ↦ work b ])
found-Keeps e work kw none = Keeps-raise e
found-Keeps e work kw (some b) = kw b

module _ {P : Store → Type 0} (k : IsKept P) (r : IsRecorded P) where
  guests-Keeps : Keeps P list_guests
  unfolding list_guests
  guests-Keeps = Keeps-query _

  joined-Keeps : (rows : Action (List Booking)) → Keeps P rows → Keeps P (joined rows)
  unfolding joined
  joined-Keeps rows kr = Keeps-bind _ _ guests-Keeps (λ gs. Keeps-bind _ _ kr (λ bs. Keeps-pure _))

  warn_one-Keeps : (d : Due) → Keeps P (warn_one d)
  unfolding warn_one
  warn_one-Keeps d = Keeps-transaction _ (
      Keeps-bind _ _ (queue-Keeps k.queues _)
        (λ _. Keeps-bind _ _ (k.warns _) (λ _. Keeps-pure true)))

  pub warn_balances-Keeps : (on : Date) → Keeps P (warn_balances on)
  unfolding warn_balances
  warn_balances-Keeps on =
      Keeps-bind _ _ (joined-Keeps _ (to_warn-Keeps _)) (λ ds. for_each-Keeps _ ds _ warn_one-Keeps)

  flag_found-Keeps : (b : PaymentRow) → Keeps P (flag_found b)
  unfolding flag_found
  flag_found-Keeps b =
      Keeps-bind _ _ (k.flags _)
        (λ _. Keeps-bind _ _ (balance_failed-Keeps k.queues b) (λ _. Keeps-pure false))

  flag_uncollectable-Keeps : (d : Due) → Keeps P (flag_uncollectable d)
  unfolding flag_uncollectable
  flag_uncollectable-Keeps d =
      Keeps-transaction _ (Keeps-bind _ _ (find-Keeps _) (found-Keeps no_rows _ flag_found-Keeps))

  record_reply-Keeps : (d : Due) (a : Reply) → Keeps P (record_reply d a)
  unfolding record_reply
  record_reply-Keeps d (charged intent) = Keeps-bind _ _ (r.charges _ refl) (λ _. Keeps-pure true)
  record_reply-Keeps d (declined id) = Keeps-bind _ _ (r.failures _) (λ _. Keeps-pure false)
  record_reply-Keeps d (failure e) = Keeps-raise e

  charge_one-Keeps : (gw : Gateway) (d : Due) → Keeps P (charge_one gw d)
  unfolding charge_one
  charge_one-Keeps gw d = Keeps-if _ _ _ (flag_uncollectable-Keeps d) (record_reply-Keeps d _)

  pub charge_balances-Keeps : (gw : Gateway) (on : Date) → Keeps P (charge_balances gw on)
  unfolding charge_balances
  charge_balances-Keeps gw on =
      Keeps-bind _ _ (joined-Keeps _ (due-Keeps _))
        (λ ds. for_each-Keeps _ ds _ (charge_one-Keeps gw))

  read_ledger-Keeps : (b : PaymentRow) → Keeps P (read_ledger b)
  unfolding read_ledger
  read_ledger-Keeps b = Keeps-bind _ _ (payments-Keeps _) (λ _. Keeps-pure _)

  collected_payments-Keeps : (code : String) → Keeps P (collected_payments code)
  unfolding collected_payments
  collected_payments-Keeps code =
      Keeps-bind _ _ Keeps-round_trip
        (λ _. Keeps-bind _ _ (find-Keeps _) (found-Keeps booking_not_found _ read_ledger-Keeps))

  record_sent-Keeps :
      (code : String) (part : Collected) (a : Outcome String) → Keeps P (record_sent code part a)
  unfolding record_sent
  record_sent-Keeps code part (ok id) = Keeps-bind _ _ (r.refunds _) (λ _. Keeps-pure tt)
  record_sent-Keeps code part (err e) = Keeps-raise e

  send_parts-Keeps :
      (gw : Gateway) (code : String) (parts : List Collected) → Keeps P (send_parts gw code parts)
  unfolding send_parts
  send_parts-Keeps gw code [] = Keeps-pure tt
  send_parts-Keeps gw code (part ∷ parts) =
      Keeps-bind _ _ (record_sent-Keeps code part _) (λ _. send_parts-Keeps gw code parts)

  pub send_refund-Keeps : (gw : Gateway) (code : String) (x : ℤ) → Keeps P (send_refund gw code x)
  unfolding send_refund
  send_refund-Keeps gw code x =
      Keeps-bind _ _ (collected_payments-Keeps code) (λ l. send_parts-Keeps gw code _)

  start_payment-Keeps : (id : ℕ) (intent : String) → Keeps P (start_payment id intent)
  unfolding start_payment
  start_payment-Keeps id intent = search (reading_rules, k.starts)

  with_intent-Keeps : (b : PaymentRow) (a : Outcome Intent) → Keeps P (with_intent b a)
  unfolding with_intent
  with_intent-Keeps b (ok intent) = Keeps-bind _ _ (start_payment-Keeps _ _) (λ _. Keeps-pure _)
  with_intent-Keeps b (err e) = Keeps-raise e

  open_found-Keeps : (gw : Gateway) (moto : Bool) (b : PaymentRow) → Keeps P (open_found gw moto b)
  unfolding open_found
  open_found-Keeps gw moto b = search (reading_rules, with_intent-Keeps)

  pub open_payment-Keeps :
      (gw : Gateway) (code : String) (moto : Bool) → Keeps P (open_payment gw code moto)
  unfolding open_payment
  open_payment-Keeps gw code moto =
      Keeps-bind _ _ (find-Keeps _) (found-Keeps booking_not_found _ (open_found-Keeps gw moto))

  pub sweep-Keeps : Keeps P sweep
  unfolding sweep
  sweep-Keeps =
      Keeps-bind _ _ k.sweeps (λ holds. Keeps-bind _ _ k.expires (λ expired. Keeps-pure _))
