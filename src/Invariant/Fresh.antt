-- ===== src/Invariant/Fresh.antt =====
-- The ids that bookings have, and that payments name, have been given out by the sequence already: so
-- a new booking has no payments.
use Prim.Native.String.{String}
use bealhouse.Prelude.{
  ℕ, ◌≡◌, refl, ap, ◌+◌, Bool, true, false, List, [], ◌∷◌, ◌++◌, any, map, All, ltb, leb, ◌==◌,
  arith, if◌then◌else◌,
}
use bealhouse.Db.Schema
use bealhouse.Db.Schema.{Store, Booking, Payment, BookingRoom}
use bealhouse.Db.Keeps.{Keeps-statement, Keeps-exec}
use bealhouse.Db.Occupancy.{
  create_occupancy, insert_occupancy, CreateOccupancyParams, promote_hold_to_booking,
  release_booking_occupancy, sweep_expired_holds,
}
use bealhouse.Db.Payments.{record_stripe_event, insert_event}
use bealhouse.Db.Bookings.{
  update_booking, save_booking_card, confirm_booking, cancel_booking, mark_payment_started,
  mark_balance_charge_failed, mark_balance_warned, expire_abandoned_bookings, is_abandoned, expire,
}
use bealhouse.Db.Departures.{mark_checkout_email_sent}
use bealhouse.Db.Subscriptions.{touch_push_subscription, delete_push_subscription}
use bealhouse.Db.Queue.{
  EnqueueJobParams, enqueue_job, insert_job, claim_job, claim, delete_job, reschedule_job,
}
use bealhouse.Db.Reservations.{put_guest, insert_booking_room}
use bealhouse.Kept.Interface.{IsKept}
use bealhouse.Invariant.Money.{All-imp, All-patch, All-map}

abbrev pub Below : ℕ → ℕ → Type 0
Below n id = ltb id n ≡ true

pub record IsFresh (d : Store) : Type 0 where
  pub payments : All (λ p. Below d.next_id p.booking_id) d.payments
  pub bookings : All (λ b. Below d.next_id b.id) d.bookings

Below-le : (n m id : ℕ) → leb n m ≡ true → Below n id → Below m id
Below-le n m id h k = ground arith

-- What is left of a statement on other tables: the two tables, and a sequence that only grows.
abbrev pub shown : Store → List Booking × List Payment
shown d = (d.bookings, d.payments)

pub grown :
    (d e : Store) → shown e ≡ shown d → leb d.next_id e.next_id ≡ true → IsFresh d → IsFresh e
grown d e k l h = record {
  payments = rw (ap (λ m. m.1) k) (
      All-imp (λ p. Below d.next_id p.booking_id) (λ p. Below e.next_id p.booking_id) d.payments
        (λ p hp. Below-le d.next_id e.next_id p.booking_id l hp) h.payments);
  bookings = rw (ap (λ m. m.0) k) (
      All-imp (λ b. Below d.next_id b.id) (λ b. Below e.next_id b.id) d.bookings
        (λ b hb. Below-le d.next_id e.next_id b.id l hb) h.bookings);
}

shown-insert_occupancy :
    (arg : CreateOccupancyParams) (d : Store) → shown (insert_occupancy arg d).1 ≡ shown d
shown-insert_occupancy arg d = ground arith

insert_occupancy_next :
    (arg : CreateOccupancyParams) (d : Store)
    → leb d.next_id (insert_occupancy arg d).1.next_id ≡ true
insert_occupancy_next arg d = ground arith

shown-insert_job : (arg : EnqueueJobParams) (d : Store) → shown (insert_job arg d).1 ≡ shown d
shown-insert_job arg d = ground arith

insert_job_next :
    (arg : EnqueueJobParams) (d : Store) → leb d.next_id (insert_job arg d).1.next_id ≡ true
insert_job_next arg d = ground arith

shown-insert_event : (id type : String) (d : Store) → shown (insert_event id type d).1 ≡ shown d
shown-insert_event id type d = ground arith

insert_event_next :
    (id type : String) (d : Store) → leb d.next_id (insert_event id type d).1.next_id ≡ true
insert_event_next id type d = ground arith

shown-claim : (lease : ℕ) (d : Store) → shown (claim lease d).1 ≡ shown d
shown-claim lease d = ground arith

claim_next : (lease : ℕ) (d : Store) → leb d.next_id (claim lease d).1.next_id ≡ true
claim_next lease d = ground arith

pub shown-put_guest :
    (email name phone : String) (d : Store) → shown (put_guest email name phone d).1 ≡ shown d
shown-put_guest email name phone d = ground arith

pub put_guest_next :
    (email name phone : String) (d : Store)
    → leb d.next_id (put_guest email name phone d).1.next_id ≡ true
put_guest_next email name phone d = ground arith

pub shown-insert_booking_room :
    (r : BookingRoom) (d : Store) → shown (insert_booking_room r d).1 ≡ shown d
shown-insert_booking_room r d = ground arith

pub booking_room_next :
    (r : BookingRoom) (d : Store) → leb d.next_id (insert_booking_room r d).1.next_id ≡ true
booking_room_next r d = ground arith

-- A change of a booking that is not its id.
abbrev SameId : (Booking → Booking) → Type 0
SameId f = (b : Booking) → (f b).id ≡ b.id

abbrev Given : ℕ → Booking → Type 0
Given n b = Below n b.id

pub update-IsFresh :
    (id : ℕ) (f : Booking → Booking) (d : Store)
    → SameId f
    → IsFresh d
    → IsFresh (update_booking id f d)
update-IsFresh id f d k h = record {
  payments = h.payments;
  bookings =
      All-patch (Given d.next_id) (Given d.next_id) id f d.bookings (λ b hb. go b (b.id == id) hb)
        h.bookings;
}
  where
    go : (b : Booking) (c : Bool) → Given d.next_id b → Given d.next_id (if c then f b else b)
    go b true hb = rw (k b) hb
    go b false hb = hb

expire-IsFresh :
    (d : Store)
    → IsFresh d
    → IsFresh (record d { bookings = map (expire (is_abandoned d)) d.bookings })
expire-IsFresh d h = record {
  payments = h.payments;
  bookings =
      All-map (Given d.next_id) (Given d.next_id) _ d.bookings (λ b hb. go b (is_abandoned d b) hb)
        h.bookings;
}
  where
    go :
        (b : Booking) (c : Bool)
        → Given d.next_id b
        → Given d.next_id (if c then record b { status = Schema.expired } else b)
    go b true hb = hb
    go b false hb = hb

pub fresh-IsKept : IsKept IsFresh
unfolding create_occupancy promote_hold_to_booking release_booking_occupancy sweep_expired_holds
    record_stripe_event save_booking_card confirm_booking cancel_booking mark_payment_started
    mark_balance_charge_failed mark_balance_warned touch_push_subscription delete_push_subscription
    mark_checkout_email_sent expire_abandoned_bookings enqueue_job claim_job delete_job
    reschedule_job
fresh-IsKept = record {
  claims = λ arg. Keeps-statement _ (λ d.
      grown d (insert_occupancy arg d).1 (shown-insert_occupancy arg d)
        (insert_occupancy_next arg d));
  promotes =
      λ id. Keeps-statement _ (λ d h. record { payments = h.payments; bookings = h.bookings });
  releases =
      λ id. Keeps-statement _ (λ d h. record { payments = h.payments; bookings = h.bookings });
  sweeps = Keeps-statement _ (λ d h. record { payments = h.payments; bookings = h.bookings });
  notes = λ id type. Keeps-statement _ (λ d.
      grown d (insert_event id type d).1 (shown-insert_event id type d)
        (insert_event_next id type d));
  saves = λ id customer method. Keeps-exec _ (λ d. update-IsFresh id _ d (λ b. refl));
  confirms = λ id. Keeps-exec _ (λ d. update-IsFresh id _ d (λ b. refl));
  cancels = λ id. Keeps-exec _ (λ d. update-IsFresh id _ d (λ b. refl));
  starts = λ id intent. Keeps-exec _ (λ d. update-IsFresh id _ d (λ b. refl));
  flags = λ id. Keeps-exec _ (λ d. update-IsFresh id _ d (λ b. refl));
  warns = λ id. Keeps-exec _ (λ d. update-IsFresh id _ d (λ b. refl));
  departs = λ id. Keeps-exec _ (λ d. update-IsFresh id _ d (λ b. refl));
  stamps =
      λ endpoint. Keeps-exec _ (λ d h. record { payments = h.payments; bookings = h.bookings });
  forgets =
      λ endpoint. Keeps-exec _ (λ d h. record { payments = h.payments; bookings = h.bookings });
  expires = Keeps-statement _ expire-IsFresh;
  queues = λ arg.
      Keeps-statement _
        (λ d. grown d (insert_job arg d).1 (shown-insert_job arg d) (insert_job_next arg d));
  leases = λ lease.
      Keeps-statement _ (λ d. grown d (claim lease d).1 (shown-claim lease d) (claim_next lease d));
  drops = λ id. Keeps-exec _ (λ d h. record { payments = h.payments; bookings = h.bookings });
  delays = λ id delay reason.
      Keeps-exec _ (λ d h. record { payments = h.payments; bookings = h.bookings });
}

-- A booking that is there has an id that was given out.
pub known-Below :
    (n id : ℕ) (bs : List Booking)
    → any (λ b. b.id == id) bs ≡ true
    → All (λ b. Below n b.id) bs
    → Below n id
known-Below n id [] k h = absurd (cc)
known-Below n id (b ∷ bs) k (hb, hs) = ground (arith, known-Below n id bs)

pub All-append :
    {A : Type 0} (P : A → Type 0) (xs : List A) (x : A) → All P xs → P x → All P (xs ++ (x ∷ []))
All-append P [] x h hx = (hx, tt)
All-append P (y ∷ xs) x (hy, hs) hx = (hy, All-append P xs x hs hx)

-- The sequence steps.
pub stepped : (d : Store) → IsFresh d → IsFresh (record d { next_id = d.next_id + 1 })
stepped d h = grown d (record d { next_id = d.next_id + 1 }) refl (ground arith) h
