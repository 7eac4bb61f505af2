-- ===== src/Invariant/Paid.antt =====
-- The operations of internal/payments leave every booking with what it has paid.
use Prim.Native.String.{String}
use bealhouse.Prelude.{
  ℕ, ◌≡◌, refl, ap, Bool, true, false, not, ◌&&◌, List, Option, none, some, any, map, ◌==◌, arith,
  if◌then◌else◌,
}
use mathlib.Core.Path.{subst}
use bealhouse.Prelude.Int.{ℤ, pos, ◌+ℤ◌, ltb_ℤ}
use bealhouse.Db.Schema
use bealhouse.Db.Schema.{Store, Booking, Payment, Kind, refund, Settled, failed, succeeded}
use bealhouse.Db.Session.{Action, pure, ◌>>◌}
use bealhouse.Db.Keeps.{Keeps, Returns, Ensures, Keeps-statement, Keeps-exec, Keeps-pure}
use bealhouse.Db.Ensures.{Ensures-statement, Ensures-keeps, Ensures-bind, Ensures-if}
use bealhouse.Db.Occupancy.{
  create_occupancy, insert_occupancy, CreateOccupancyParams, promote_hold_to_booking,
  release_booking_occupancy, sweep_expired_holds,
}
use bealhouse.Db.Payments.{
  RecordPaymentParams, record_payment, insert_payment, payment_of, record_stripe_event,
  insert_event, is_succeeded,
}
use bealhouse.Db.Bookings.{
  PaymentRow, add_payment_to_booking, add_payment, add_paid, is_amount, update_booking,
  save_booking_card, confirm_booking, cancel_booking, mark_payment_started,
  mark_balance_charge_failed, mark_balance_warned, expire_abandoned_bookings, is_abandoned, expire,
}
use bealhouse.Db.Departures.{mark_checkout_email_sent}
use bealhouse.Db.Subscriptions.{touch_push_subscription, delete_push_subscription}
use bealhouse.Db.Queue.{
  EnqueueJobParams, enqueue_job, insert_job, claim_job, claim, delete_job, reschedule_job,
}
use bealhouse.Payments.Charge.{Charge, Result, already_applied, underpaid, shortfall, validate}
use bealhouse.Payments.Record.{
  collect, save_card, settle, post, intake, record_charge, plain, result,
}
use bealhouse.Payments.Refunding.{is_refund}
use bealhouse.Kept.Interface.{IsKept, IsRecorded, reading_rules}
use bealhouse.Kept.Payments.{
  settle-Keeps, note_event-Keeps, checked-Keeps, with_booking-ensured, record_failure-Keeps,
  record_refund-Keeps,
}
use bealhouse.Invariant.Money.{
  IsPaid, Owes, Recorded, Settles, Owing, credit, paid-Settles, insert_payment-Recorded,
  insert_payment-IsPaid, All-patch, All-map,
}

-- A change of a booking that is not its id or its money.
abbrev IsBystander : (Booking → Booking) → Type 0
IsBystander f = (b : Booking) → ((f b).id ≡ b.id) × ((f b).amount_paid_cents ≡ b.amount_paid_cents)

bystander-Settles :
    (ps : List Payment) (f : Booking → Booking) (b : Booking)
    → IsBystander f
    → Settles ps b
    → Settles ps (f b)
bystander-Settles ps f b k h = rw ((k b).0, (k b).1) h

update-IsPaid :
    (id : ℕ) (f : Booking → Booking) (d : Store)
    → IsBystander f
    → IsPaid d
    → IsPaid (update_booking id f d)
update-IsPaid id f d k h =
    All-patch (Settles d.payments) (Settles d.payments) id f d.bookings
      (λ b hb. go b (b.id == id) hb) h
  where
    go : (b : Booking) (c : Bool) → Settles d.payments b → Settles d.payments (if c then f b else b)
    go b true hb = bystander-Settles d.payments f b k hb
    go b false hb = hb

expire-IsPaid :
    (d : Store)
    → IsPaid d
    → IsPaid (record d { bookings = map (expire (is_abandoned d)) d.bookings })
expire-IsPaid d h =
    All-map (Settles d.payments) (Settles d.payments) _ d.bookings
      (λ b hb. go b (is_abandoned d b) hb) h
  where
    go :
        (b : Booking) (c : Bool)
        → Settles d.payments b
        → Settles d.payments (if c then record b { status = Schema.expired } else b)
    go b true hb = hb
    go b false hb = hb

-- The two tables that `IsPaid` is about.
abbrev pub money : Store → List Booking × List Payment
money d = (d.bookings, d.payments)

pub money-IsPaid : (d e : Store) → money e ≡ money d → IsPaid d → IsPaid e
money-IsPaid d e k h = rw (ap (λ m. m.0) k, ap (λ m. m.1) k) h

money-insert_occupancy :
    (arg : CreateOccupancyParams) (d : Store) → money (insert_occupancy arg d).1 ≡ money d
money-insert_occupancy arg d = ground arith

money-insert_event : (id type : String) (d : Store) → money (insert_event id type d).1 ≡ money d
money-insert_event id type d = ground arith

money-insert_job : (arg : EnqueueJobParams) (d : Store) → money (insert_job arg d).1 ≡ money d
money-insert_job arg d = ground arith

money-claim : (lease : ℕ) (d : Store) → money (claim lease d).1 ≡ money d
money-claim lease d = ground arith

pub paid-IsKept : IsKept IsPaid
unfolding create_occupancy promote_hold_to_booking release_booking_occupancy sweep_expired_holds
    record_stripe_event save_booking_card confirm_booking cancel_booking mark_payment_started
    mark_balance_charge_failed mark_balance_warned touch_push_subscription delete_push_subscription
    mark_checkout_email_sent expire_abandoned_bookings enqueue_job claim_job delete_job
    reschedule_job
paid-IsKept = record {
  claims = λ arg.
      Keeps-statement _
        (λ d. money-IsPaid d (insert_occupancy arg d).1 (money-insert_occupancy arg d));
  promotes = λ id. Keeps-statement _ (λ d h. h);
  releases = λ id. Keeps-statement _ (λ d h. h);
  sweeps = Keeps-statement _ (λ d h. h);
  notes = λ id type.
      Keeps-statement _
        (λ d. money-IsPaid d (insert_event id type d).1 (money-insert_event id type d));
  saves = λ id customer method. Keeps-exec _ (λ d. update-IsPaid id _ d (λ b. (refl, refl)));
  confirms = λ id. Keeps-exec _ (λ d. update-IsPaid id _ d (λ b. (refl, refl)));
  cancels = λ id. Keeps-exec _ (λ d. update-IsPaid id _ d (λ b. (refl, refl)));
  starts = λ id intent. Keeps-exec _ (λ d. update-IsPaid id _ d (λ b. (refl, refl)));
  flags = λ id. Keeps-exec _ (λ d. update-IsPaid id _ d (λ b. (refl, refl)));
  warns = λ id. Keeps-exec _ (λ d. update-IsPaid id _ d (λ b. (refl, refl)));
  departs = λ id. Keeps-exec _ (λ d. update-IsPaid id _ d (λ b. (refl, refl)));
  stamps = λ endpoint. Keeps-exec _ (λ d h. h);
  forgets = λ endpoint. Keeps-exec _ (λ d h. h);
  expires = Keeps-statement _ expire-IsPaid;
  queues =
      λ arg. Keeps-statement _ (λ d. money-IsPaid d (insert_job arg d).1 (money-insert_job arg d));
  leases = λ lease. Keeps-statement _ (λ d. money-IsPaid d (claim lease d).1 (money-claim lease d));
  drops = λ id. Keeps-exec _ (λ d h. h);
  delays = λ id delay reason. Keeps-exec _ (λ d h. h);
}

-- What is owed is paid, or the addition fails and with it the transaction.
add_payment_settles :
    (id : ℕ) (x : ℤ) → Ensures (Owes id x) (add_payment_to_booking id x) (λ done. IsPaid)
unfolding add_payment_to_booking
add_payment_settles id x = Ensures-statement _ _ (λ d h. go d h _ refl)
  where
    go :
        (d : Store)
        → Owes id x d
        → (over : Bool)
        → any (λ b. b.id == id && not (is_amount (b.amount_paid_cents +ℤ x))) d.bookings ≡ over
        → Returns (λ done. IsPaid) (add_payment id x d).0 (add_payment id x d).1
    go d h true ho = rw ho tt
    go d h false ho = rw ho (
        All-patch (Owing id x d.payments) (Settles d.payments) id (add_paid x) d.bookings
          (paid-Settles id x d.payments) h)

card_kept :
    (c : Charge) (b : PaymentRow)
    → Keeps IsPaid (do
      save_card b c
      let short = shortfall b c.amount_cents
      if ltb_ℤ (pos 0) short then pure (result underpaid b (pos 0) short) else settle b c)
unfolding save_card
card_kept c b = search (reading_rules, paid-IsKept.saves, settle-Keeps paid-IsKept) depth 9

collect-Ensures :
    (c : Charge) (b : PaymentRow) → Ensures (Owes b.id c.amount_cents) (collect c b) (λ r. IsPaid)
unfolding collect
collect-Ensures c b =
    Ensures-bind _ _ (λ done. IsPaid) _ (add_payment_settles b.id c.amount_cents)
      (λ _. Ensures-keeps _ (card_kept c b))

-- A charge that has succeeded is credited in full.
credit_of_charge :
    (id row : ℕ) (c : Charge)
    → is_refund c.kind ≡ false
    → credit (
        payment_of row (record {
          booking_id = id;
          stripe_id = c.stripe_id;
          kind = c.kind;
          amount_cents = c.amount_cents;
          status = succeeded;
        }))
      ≡ c.amount_cents
credit_of_charge id row c h = rw h refl

abbrev row_for : ℕ → Charge → RecordPaymentParams
row_for id c = record {
  booking_id = id;
  stripe_id = c.stripe_id;
  kind = c.kind;
  amount_cents = c.amount_cents;
  status = succeeded;
}

record_payment_owes :
    (id : ℕ) (c : Charge)
    → is_refund c.kind ≡ false
    → Ensures IsPaid (record_payment (row_for id c)) (Recorded id c.amount_cents)
unfolding record_payment
record_payment_owes id c hc = Ensures-statement _ _ (λ d h.
    subst
      (λ x.
        Returns (Recorded id x) (insert_payment (row_for id c) d).0
          (insert_payment (row_for id c) d).1)
      (credit_of_charge id d.next_id c hc) (insert_payment-Recorded (row_for id c) d h))

post-Ensures :
    (c : Charge) (b : PaymentRow)
    → is_refund c.kind ≡ false
    → Ensures IsPaid (post c c.kind succeeded (collect c) b) (λ r. IsPaid)
unfolding post
post-Ensures c b hc =
    Ensures-bind _ _ (Recorded b.id c.amount_cents) _ (record_payment_owes b.id c hc) go
  where
    go :
        (recorded : Option ℕ)
        → Ensures
            (Recorded b.id c.amount_cents recorded)
            (elim recorded as (λ _. Action Result) [
              | none ↦ pure (plain already_applied b)
              | some id ↦ collect c b
            ])
            (λ r. IsPaid)
    go none = Ensures-keeps _ (Keeps-pure _)
    go (some id) = collect-Ensures c b

intake-Ensures :
    (c : Charge) (b : PaymentRow)
    → is_refund c.kind ≡ false
    → Ensures IsPaid (intake c c.kind succeeded (collect c) b) (λ r. IsPaid)
unfolding intake
intake-Ensures c b hc =
    Ensures-bind _ _ (λ seen. IsPaid) _ (Ensures-keeps _ (note_event-Keeps paid-IsKept c))
      (λ seen. Ensures-if seen _ _ _ (Ensures-keeps _ (Keeps-pure _)) (post-Ensures c b hc))

record_charge-IsPaid : (c : Charge) → is_refund c.kind ≡ false → Keeps IsPaid (record_charge c)
unfolding record_charge
record_charge-IsPaid c hc =
    checked-Keeps (validate c) _ (with_booking-ensured _ _ (λ b. intake-Ensures c b hc))

-- A row without credit.
uncredited :
    (kind : Kind) (status : Settled)
    → ((x : ℤ) → (if is_succeeded status && not (is_refund kind) then x else pos 0) ≡ pos 0)
    → (arg : RecordPaymentParams) → arg.kind ≡ kind
    → arg.status ≡ status
    → Keeps IsPaid (record_payment arg)
unfolding record_payment
uncredited kind status hz arg hk hs =
    Keeps-statement _ (λ d h. insert_payment-IsPaid arg d (rw (hk, hs) (hz arg.amount_cents)) h)

pub paid-IsRecorded : IsRecorded IsPaid
paid-IsRecorded = record {
  charges = record_charge-IsPaid;
  failures = record_failure-Keeps paid-IsKept (λ c. uncredited c.kind failed (λ x. refl));
  refunds = record_refund-Keeps paid-IsKept (uncredited refund succeeded (λ x. refl));
}
