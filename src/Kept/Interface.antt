-- ===== src/Kept/Interface.antt =====
-- The statements that write, as the interface between an invariant and the operations: an invariant
-- supplies the record once, and the operations' lemmas take it.
use Prim.Native.String.{String}
use bealhouse.Prelude.{ℕ, ◌≡◌, false}
use bealhouse.Prelude.Int.{ℤ}
use bealhouse.Db.Schema.{Store, BookingRoom}
use bealhouse.Db.Keeps.{Keeps, Keeps-query, keeps_rules}
use bealhouse.Db.Occupancy.{
  CreateOccupancyParams, create_occupancy, promote_hold_to_booking, release_booking_occupancy,
  sweep_expired_holds, count_booking_occupancy, delete_block,
}
use bealhouse.Db.Payments.{
  RecordPaymentParams, record_payment, record_stripe_event, list_payments_for_booking,
}
use bealhouse.Db.Bookings.{
  add_payment_to_booking, save_booking_card, confirm_booking, cancel_booking, mark_payment_started,
  mark_balance_charge_failed, mark_balance_warned, expire_abandoned_bookings,
  get_booking_for_payment, get_booking_by_code, list_booking_rooms, get_settings,
  list_due_for_balance_charge, list_to_warn_about_balance,
}
use bealhouse.Db.Departures.{mark_checkout_email_sent}
use bealhouse.Db.Subscriptions.{touch_push_subscription, delete_push_subscription}
use bealhouse.Db.Queue.{EnqueueJobParams, enqueue_job, claim_job, delete_job, reschedule_job}
use bealhouse.Db.Availability.{search_availability}
use bealhouse.Db.Reservations.{
  CreateBookingParams, create_booking, create_booking_room, upsert_guest,
}
use bealhouse.Civil.{Date}
use bealhouse.Payments.Charge.{Charge}
use bealhouse.Payments.Record.{record_charge, record_failure, record_refund}
use bealhouse.Payments.Refunding.{is_refund}

pub record IsKept (P : Store → Type 0) : Type 0 where
  pub claims : (arg : CreateOccupancyParams) → Keeps P (create_occupancy arg)
  pub promotes : (id : ℕ) → Keeps P (promote_hold_to_booking id)
  pub releases : (id : ℕ) → Keeps P (release_booking_occupancy id)
  pub sweeps : Keeps P sweep_expired_holds
  pub notes : (id type : String) → Keeps P (record_stripe_event id type)
  pub saves : (id : ℕ) (customer method : String) → Keeps P (save_booking_card id customer method)
  pub confirms : (id : ℕ) → Keeps P (confirm_booking id)
  pub cancels : (id : ℕ) → Keeps P (cancel_booking id)
  pub starts : (id : ℕ) (intent : String) → Keeps P (mark_payment_started id intent)
  pub flags : (id : ℕ) → Keeps P (mark_balance_charge_failed id)
  pub warns : (id : ℕ) → Keeps P (mark_balance_warned id)
  pub departs : (id : ℕ) → Keeps P (mark_checkout_email_sent id)
  pub stamps : (endpoint : String) → Keeps P (touch_push_subscription endpoint)
  pub forgets : (endpoint : String) → Keeps P (delete_push_subscription endpoint)
  pub expires : Keeps P expire_abandoned_bookings
  pub queues : (arg : EnqueueJobParams) → Keeps P (enqueue_job arg)
  pub leases : (lease : ℕ) → Keeps P (claim_job lease)
  pub drops : (id : ℕ) → Keeps P (delete_job id)
  pub delays : (id delay : ℕ) (reason : String) → Keeps P (reschedule_job id delay reason)

-- The two statements that move money.
pub record IsPosted (P : Store → Type 0) : Type 0 where
  pub posts : (arg : RecordPaymentParams) → Keeps P (record_payment arg)
  pub adds : (id : ℕ) (x : ℤ) → Keeps P (add_payment_to_booking id x)

-- The three operations that do, where a charge is not filed as a refund.
pub record IsRecorded (P : Store → Type 0) : Type 0 where
  pub charges : (c : Charge) → is_refund c.kind ≡ false → Keeps P (record_charge c)
  pub failures : (c : Charge) → Keeps P (record_failure c)
  pub refunds : (c : Charge) → Keeps P (record_refund c)

-- The statements that write down a booking, and the one that takes a block away.
pub record IsBooked (P : Store → Type 0) : Type 0 where
  pub upserts : (email name phone : String) → Keeps P (upsert_guest email name phone)
  pub books : (arg : CreateBookingParams) → Keeps P (create_booking arg)
  pub assigns : (r : BookingRoom) → Keeps P (create_booking_room r)
  pub unblocks : (id : ℕ) → Keeps P (delete_block id)

-- What only reads keeps everything.
module _ {P : Store → Type 0} where
  pub count-Keeps : (id : ℕ) → Keeps P (count_booking_occupancy id)
  unfolding count_booking_occupancy
  count-Keeps id = Keeps-query _

  pub find-Keeps : (code : String) → Keeps P (get_booking_for_payment code)
  unfolding get_booking_for_payment
  find-Keeps code = Keeps-query _

  pub find_by_code-Keeps : (code : String) → Keeps P (get_booking_by_code code)
  unfolding get_booking_by_code
  find_by_code-Keeps code = Keeps-query _

  pub search-Keeps :
      (checkin checkout : Date) (guests : ℤ) → Keeps P (search_availability checkin checkout guests)
  unfolding search_availability
  search-Keeps checkin checkout guests = Keeps-query _

  pub rooms-Keeps : (id : ℕ) → Keeps P (list_booking_rooms id)
  unfolding list_booking_rooms
  rooms-Keeps id = Keeps-query _

  pub payments-Keeps : (id : ℕ) → Keeps P (list_payments_for_booking id)
  unfolding list_payments_for_booking
  payments-Keeps id = Keeps-query _

  pub settings-Keeps : Keeps P get_settings
  unfolding get_settings
  settings-Keeps = Keeps-query _

  pub due-Keeps : (on : Date) → Keeps P (list_due_for_balance_charge on)
  unfolding list_due_for_balance_charge
  due-Keeps on = Keeps-query _

  pub to_warn-Keeps : (on : Date) → Keeps P (list_to_warn_about_balance on)
  unfolding list_to_warn_about_balance
  to_warn-Keeps on = Keeps-query _

pub ruleset reading_rules = (
  keeps_rules, count-Keeps, find-Keeps, find_by_code-Keeps, search-Keeps, rooms-Keeps,
  payments-Keeps, settings-Keeps, due-Keeps, to_warn-Keeps,
)
