-- ===== src/System/Invariants.antt =====
-- Every store that the program reaches is sound, whatever fails on the way.
use bealhouse.Prelude.{ℕ, ◌≤◌, ◌≡◌, refl, false, List, All}
use bealhouse.Civil.{Date}
use bealhouse.Db.Schema.{Store, Payload, nothing, refund_of, mail, notification}
use bealhouse.Db.Session.{Error, Session}
use bealhouse.Db.Keeps.{Keeps, Keeps-bind, Keeps-pure, Keeps-raise}
use bealhouse.Payments.Refunding.{is_refund}
use bealhouse.Kept.Payments.{cancel-Keeps}
use bealhouse.Kept.Balances.{
  warn_balances-Keeps, charge_balances-Keeps, send_refund-Keeps, open_payment-Keeps, sweep-Keeps,
}
use bealhouse.Kept.Bookings.{create_booking-Keeps}
use bealhouse.Kept.Push.{handler-Keeps}
use bealhouse.Kept.Checkout.{send_checkout_emails-Keeps}
use bealhouse.Kept.Console.{
  cancel_stay-Keeps, refund_stay-Keeps, request_payment-Keeps, block_room-Keeps, unblock-Keeps,
  manual_booking-Keeps, collect_by_card-Keeps,
}
use bealhouse.Kept.Jobs.{Handled, once-Keeps, ensure_periodic-Keeps}
use bealhouse.Invariant.Exclusive.{claims_on, claims_on_le_one}
use bealhouse.Invariant.Money.{collected}
use bealhouse.Invariant.Sound.{IsSound, IsSound-IsKept, IsSound-IsRecorded, IsSound-IsBooked}
use bealhouse.System.{
  World, Incoming, first_half, whole, rest, kind_of, report_of, report, sweep_job, checkout_job,
  warn_job, charge_job, refund_job, delivery_job, kinds, Operation, books, writes_down, opens,
  collects, pays, fails, returns, cancels, owner_cancels, owner_refunds, requests, blocks, unblocks,
  registers, works, perform, order_request, IsInitial, Reach, begins, acts, passes, edits,
}

incoming : (k : Incoming) → is_refund (kind_of k) ≡ false
incoming first_half = refl
incoming whole = refl
incoming rest = refl

report-Keeps : (P : Store → Type 0) (t : ℕ × List Error) → Keeps P (report t)
unfolding report
report-Keeps P t = record { at = λ s h. h }

module _ (w : World) where
  sweep_job-IsSound : (p : Payload) → Keeps IsSound (sweep_job w p)
  unfolding sweep_job
  sweep_job-IsSound p =
      Keeps-bind _ _ (sweep-Keeps IsSound-IsKept IsSound-IsRecorded) (λ _. Keeps-pure tt)

  checkout_job-IsSound : (p : Payload) → Keeps IsSound (checkout_job w p)
  unfolding checkout_job
  checkout_job-IsSound p =
      Keeps-bind _ _ (send_checkout_emails-Keeps IsSound-IsKept _) (report-Keeps IsSound)

  warn_job-IsSound : (p : Payload) → Keeps IsSound (warn_job w p)
  unfolding warn_job
  warn_job-IsSound p =
      Keeps-bind _ _ (warn_balances-Keeps IsSound-IsKept IsSound-IsRecorded _)
        (report-Keeps IsSound)

  charge_job-IsSound : (p : Payload) → Keeps IsSound (charge_job w p)
  unfolding charge_job
  charge_job-IsSound p =
      Keeps-bind _ _ (charge_balances-Keeps IsSound-IsKept IsSound-IsRecorded _ _)
        (report-Keeps IsSound)

  refund_job-IsSound : (p : Payload) → Keeps IsSound (refund_job w p)
  unfolding refund_job
  refund_job-IsSound nothing = Keeps-raise _
  refund_job-IsSound (refund_of code amount) =
      send_refund-Keeps IsSound-IsKept IsSound-IsRecorded _ code amount
  refund_job-IsSound (mail recipient template code amount) = Keeps-raise _
  refund_job-IsSound (notification title tag) = Keeps-raise _

  delivery_job-IsSound : (p : Payload) → Keeps IsSound (delivery_job w p)
  unfolding delivery_job
  delivery_job-IsSound p = record { at = λ s h. h }

  kinds-IsSound : Handled IsSound (kinds w)
  kinds-IsSound = (
    sweep_job-IsSound,
    (
      checkout_job-IsSound,
      (
        warn_job-IsSound,
        (
          charge_job-IsSound,
          (refund_job-IsSound, (delivery_job-IsSound, (handler-Keeps IsSound-IsKept w.notify, tt))),
        ),
      ),
    ),
  )

  perform-IsSound : (o : Operation) (s : Session) → IsSound s.db → IsSound (perform w o s).db
  unfolding perform
  perform-IsSound (books clock random o) s =
      (create_booking-Keeps IsSound-IsKept IsSound-IsBooked clock w.today random (order_request o)
          (λ code. Keeps-pure tt)).at
        s
  perform-IsSound (writes_down clock random m) s =
      (manual_booking-Keeps IsSound-IsKept IsSound-IsBooked clock w.today random w.owner_email m).at
        s
  perform-IsSound (opens code moto) s =
      (open_payment-Keeps IsSound-IsKept IsSound-IsRecorded w.gateway code moto).at s
  perform-IsSound (collects code) s =
      (collect_by_card-Keeps IsSound-IsKept IsSound-IsRecorded w.gateway code).at s
  perform-IsSound (pays k c) s = (IsSound-IsRecorded.charges (report_of k c) (incoming k)).at s
  perform-IsSound (fails c) s = (IsSound-IsRecorded.failures c).at s
  perform-IsSound (returns c) s = (IsSound-IsRecorded.refunds c).at s
  perform-IsSound (cancels code) s = (cancel-Keeps IsSound-IsKept code w.today).at s
  perform-IsSound (owner_cancels code) s = (cancel_stay-Keeps IsSound-IsKept code w.today).at s
  perform-IsSound (owner_refunds code amount) s =
      (refund_stay-Keeps IsSound-IsKept code amount).at s
  perform-IsSound (requests code) s = (request_payment-Keeps IsSound-IsKept code).at s
  perform-IsSound (blocks b) s = (block_room-Keeps IsSound-IsKept b).at s
  perform-IsSound (unblocks id) s = (unblock-Keeps IsSound-IsKept IsSound-IsBooked id).at s
  perform-IsSound registers s = (ensure_periodic-Keeps IsSound-IsKept (kinds w)).at s
  perform-IsSound (works jitter) s =
      (once-Keeps IsSound-IsKept (kinds w) w.describe jitter kinds-IsSound).at s

initial-IsSound : (d : Store) → IsInitial d → IsSound d
initial-IsSound d h = record {
  safe = rw h.no_claims tt;
  paid = rw h.no_bookings tt;
  fresh = record { payments = rw h.no_payments tt; bookings = rw h.no_bookings tt };
}

pub Reach-IsSound : {d : Store} → Reach d → IsSound d
Reach-IsSound {d} (begins h) = initial-IsSound d h
Reach-IsSound (acts w o s r) = perform-IsSound w o s (Reach-IsSound r)
Reach-IsSound (passes t r) =
    let h = Reach-IsSound r in
    record {
      safe = h.safe;
      paid = h.paid;
      fresh = record { payments = h.fresh.payments; bookings = h.fresh.bookings };
    }
Reach-IsSound (edits settings rooms rates r) =
    let h = Reach-IsSound r in
    record {
      safe = h.safe;
      paid = h.paid;
      fresh = record { payments = h.fresh.payments; bookings = h.fresh.bookings };
    }

-- In a store that the program reaches, a room has one claim at most on any night, be it a booking, a
-- hold or a block: nothing is sold twice, whatever operations came in whatever order, and whichever of
-- their statements failed.
pub never_sold_twice :
    (d : Store) → Reach d → (room : ℕ) (night : Date) → claims_on room night d.occupancy ≤ 1
never_sold_twice d r room night = claims_on_le_one room night d.occupancy (Reach-IsSound r).safe

-- In a store that the program reaches, what each booking has paid is the sum of the charges of its
-- ledger that succeeded: no crash or failed statement separates the two.
pub paid_is_collected :
    (d : Store) → Reach d → All (λ b. b.amount_paid_cents ≡ collected b.id d.payments) d.bookings
paid_is_collected d r = (Reach-IsSound r).paid
