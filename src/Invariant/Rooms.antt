-- ===== src/Invariant/Rooms.antt =====
-- No statement of internal/db/gen leaves two claims on the same room that overlap.
use Prim.Native.String.{String}
use bealhouse.Prelude.{ℕ, ◌≡◌, refl, Bool, true, false, any, arith}
use bealhouse.Prelude.Int.{ℤ}
use bealhouse.Db.Schema.{Store}
use bealhouse.Db.Keeps.{Keeps-statement, Keeps-exec}
use bealhouse.Db.Occupancy.{
  CreateOccupancyParams, create_occupancy, insert_occupancy, overlaps, row_of, is_row, is_referring,
  promote_hold_to_booking, release_booking_occupancy, sweep_expired_holds,
}
use bealhouse.Db.Payments.{
  RecordPaymentParams, record_payment, insert_payment, record_stripe_event, insert_event,
}
use bealhouse.Db.Bookings.{
  add_payment_to_booking, add_payment, save_booking_card, confirm_booking, cancel_booking,
  mark_payment_started, mark_balance_charge_failed, mark_balance_warned, expire_abandoned_bookings,
}
use bealhouse.Db.Departures.{mark_checkout_email_sent}
use bealhouse.Db.Subscriptions.{touch_push_subscription, delete_push_subscription}
use bealhouse.Db.Queue.{
  EnqueueJobParams, enqueue_job, insert_job, claim_job, claim, delete_job, reschedule_job,
}
use bealhouse.Kept.Interface.{IsKept, IsPosted}
use bealhouse.Invariant.Exclusive.{IsExclusive, keep-IsExclusive, map-promote-IsExclusive}

abbrev pub IsSafe : Store → Type 0
IsSafe d = IsExclusive d.occupancy

-- The insertion, by what its two checks say.
inserted :
    (arg : CreateOccupancyParams) (d : Store) (row free known : Bool)
    → is_row (row_of d.next_id arg) ≡ row
    → any (overlaps (row_of d.next_id arg)) d.occupancy ≡ free
    → is_referring arg d ≡ known
    → IsSafe d
    → IsSafe (insert_occupancy arg d).1
inserted arg d false free known hr hf hk h = rw hr h
inserted arg d true true known hr hf hk h = rw (hr, hf) h
inserted arg d true false false hr hf hk h = rw (hr, hf, hk) h
inserted arg d true false true hr hf hk h = rw (hr, hf, hk) (hr, hf, h)

insert_occupancy-IsSafe :
    (arg : CreateOccupancyParams) (d : Store) → IsSafe d → IsSafe (insert_occupancy arg d).1
insert_occupancy-IsSafe arg d h = inserted arg d _ _ _ refl refl refl h

-- A statement that may refuse or skip, and that writes another table.
insert_payment_occupancy :
    (arg : RecordPaymentParams) (d : Store) → (insert_payment arg d).1.occupancy ≡ d.occupancy
insert_payment_occupancy arg d = ground arith

insert_event_occupancy :
    (id type : String) (d : Store) → (insert_event id type d).1.occupancy ≡ d.occupancy
insert_event_occupancy id type d = ground arith

add_payment_occupancy :
    (id : ℕ) (x : ℤ) (d : Store) → (add_payment id x d).1.occupancy ≡ d.occupancy
add_payment_occupancy id x d = ground arith

insert_job_occupancy :
    (arg : EnqueueJobParams) (d : Store) → (insert_job arg d).1.occupancy ≡ d.occupancy
insert_job_occupancy arg d = ground arith

claim_occupancy : (lease : ℕ) (d : Store) → (claim lease d).1.occupancy ≡ d.occupancy
claim_occupancy lease d = ground arith

pub rooms-IsKept : IsKept IsSafe
unfolding create_occupancy promote_hold_to_booking release_booking_occupancy sweep_expired_holds
    record_stripe_event save_booking_card confirm_booking cancel_booking mark_payment_started
    mark_balance_charge_failed mark_balance_warned touch_push_subscription delete_push_subscription
    mark_checkout_email_sent expire_abandoned_bookings enqueue_job claim_job delete_job
    reschedule_job
rooms-IsKept = record {
  claims = λ arg. Keeps-statement _ (insert_occupancy-IsSafe arg);
  promotes = λ id. Keeps-statement _ (λ d h. map-promote-IsExclusive id d.occupancy h);
  releases = λ id. Keeps-statement _ (λ d h. keep-IsExclusive _ d.occupancy h);
  sweeps = Keeps-statement _ (λ d h. keep-IsExclusive _ d.occupancy h);
  notes = λ id type. Keeps-statement _ (λ d h. rw (insert_event_occupancy id type d) h);
  saves = λ id customer method. Keeps-exec _ (λ d h. h);
  confirms = λ id. Keeps-exec _ (λ d h. h);
  cancels = λ id. Keeps-exec _ (λ d h. h);
  starts = λ id intent. Keeps-exec _ (λ d h. h);
  flags = λ id. Keeps-exec _ (λ d h. h);
  warns = λ id. Keeps-exec _ (λ d h. h);
  departs = λ id. Keeps-exec _ (λ d h. h);
  stamps = λ endpoint. Keeps-exec _ (λ d h. h);
  forgets = λ endpoint. Keeps-exec _ (λ d h. h);
  expires = Keeps-statement _ (λ d h. h);
  queues = λ arg. Keeps-statement _ (λ d h. rw (insert_job_occupancy arg d) h);
  leases = λ lease. Keeps-statement _ (λ d h. rw (claim_occupancy lease d) h);
  drops = λ id. Keeps-exec _ (λ d h. h);
  delays = λ id delay reason. Keeps-exec _ (λ d h. h);
}

pub rooms-IsPosted : IsPosted IsSafe
unfolding record_payment add_payment_to_booking
rooms-IsPosted = record {
  posts = λ arg. Keeps-statement _ (λ d h. rw (insert_payment_occupancy arg d) h);
  adds = λ id x. Keeps-statement _ (λ d h. rw (add_payment_occupancy id x d) h);
}
