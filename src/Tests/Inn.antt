-- ===== src/Tests/Inn.antt =====
-- A small inn: one room, one guest, one booking.
use bealhouse.Prelude.{List, [], ◌∷◌, none, some}
use bealhouse.Prelude.Int.{pos}
use bealhouse.Db.Schema.{
  Store, Booking, Occupancy, Payment, Room, Settings, Status, booking, hold, block, deposit,
  succeeded,
}
use bealhouse.Db.Session.{
  Session, pure, raise, raise_if, ◌>>=◌, statement, query, exec, round_trip, enclosed, transaction,
}
use bealhouse.Db.Occupancy.{
  create_occupancy, promote_hold_to_booking, count_booking_occupancy, release_booking_occupancy,
  sweep_expired_holds,
}
use bealhouse.Db.Payments.{record_payment, record_stripe_event}
use bealhouse.Db.Bookings.{
  get_booking_for_payment, get_settings, list_booking_rooms, in_room_order, place_room,
  add_payment_to_booking, save_booking_card, confirm_booking, cancel_booking,
  expire_abandoned_bookings,
}
use bealhouse.Db.Reservations.{create_booking}
use bealhouse.Db.Queue.{enqueue_job}
use bealhouse.Occupancy
use bealhouse.Jobs.Enqueue.{enqueue}
use bealhouse.Mail
use bealhouse.Payments.Charge.{Charge, validate, note_event, shortfall}
use bealhouse.Payments.Letters.{
  queue_refund, owner_notification, confirmation_mail, balance_receipt, cancellation_mail,
}
use bealhouse.Payments.Rooms.{
  after_claim, attempt, claim_rooms, reclaim, held_or_reclaimed, secure_room,
}
use bealhouse.Payments.Record.{
  post, intake, with_booking, return_payment, confirmation_letter, confirm, settle, save_card,
  collect, record_charge, note_refund, record_refund,
}
use bealhouse.Payments.Cancel.{queue_any_refund, cancel_found, cancel}
use bealhouse.Pricing.{refund, retained, penalty, processing_fee, ceil_scaled, is_late_cancellation}
use bealhouse.Prelude.Int.{◌+ℤ◌, ◌-ℤ◌, ◌*ℤ◌, ◌/ℤ◌}
use bealhouse.Prelude.Int64.{◌+!◌, ◌-!◌, ◌*!◌, ◌/!◌, wrap64}
use bealhouse.Prelude.Text.{normalise, is_blank}
use bealhouse.Civil.{add_days}
use bealhouse.Booking.Sweeper.{sweep}

abbrev pub inn_settings : Settings
inn_settings = record {
  max_stay_nights = pos 28;
  tax_rate_scaled = pos 8500;
  refund_processing_rate_scaled = pos 3000;
  hold_ttl_minutes = 15;
  payment_grace_minutes = 30;
}

abbrev pub stay : Status → Booking
stay status = record {
  id = 2;
  code = "BH-AAAAAA";
  guest_id = 1;
  status = status;
  checkin = pos 20_100;
  checkout = pos 20_102;
  guests = pos 2;
  room_subtotal_cents = pos 40_000;
  tax_cents = pos 3400;
  tax_rate_scaled = pos 8500;
  total_cents = pos 43_400;
  deposit_cents = pos 21_700;
  balance_due_cents = pos 21_700;
  amount_paid_cents = pos 0;
  balance_charge_at = some (pos 20_093);
  stripe_customer_id = "";
  stripe_payment_method_id = "";
  payment_intent_id = "";
  payment_started_at = none;
  balance_charge_failed_at = none;
  balance_warned_at = none;
  checkout_email_sent_at = none;
  policies_accepted_at = none;
}

abbrev pub room : Room
room = record { id = 1; slug = "one"; name = "One"; max_occupancy = pos 2; sort_order = pos 1 }

abbrev pub empty_inn : Store
empty_inn = record {
  next_id = 5;
  now = 1000;
  settings = inn_settings;
  rooms = room ∷ [];
  rate_calendar =
      record { room_id = 1; date = pos 20_100; price_cents = pos 20_000; min_stay = pos 1 }
      ∷ record { room_id = 1; date = pos 20_101; price_cents = pos 20_000; min_stay = pos 1 }
      ∷ [];
  guests = record { id = 1; email = "ann@example.com"; name = "Ann"; phone = "6035551234" } ∷ [];
  bookings = [];
  booking_rooms = [];
  occupancy = [];
  payments = [];
  stripe_events = [];
  jobs = [];
  accounts = record {
    users = [];
    passkeys = [];
    sessions = [];
    enrollments = [];
    ceremonies = [];
    subscriptions = [];
  };
}

abbrev pub claim_by : Occupancy
claim_by = record {
  id = 3;
  room_id = 1;
  checkin = pos 20_100;
  checkout = pos 20_102;
  kind = booking;
  source = "direct";
  booking_id = some 2;
  expires_at = none;
}

abbrev pub held : Occupancy
held = record claim_by { kind = hold; expires_at = some 900 }

abbrev pub blocked : Occupancy
blocked = record claim_by { kind = block; booking_id = none }

-- The booking with its room, and claims on the room.
abbrev pub inn : Status → List Occupancy → Store
inn status os = record empty_inn {
  bookings = stay status ∷ [];
  booking_rooms =
      record {
        booking_id = 2;
        room_id = 1;
        checkin = pos 20_100;
        checkout = pos 20_102;
        nightly_prices = pos 20_000 ∷ pos 20_000 ∷ [];
      }
      ∷ [];
  occupancy = os;
}

abbrev pub deposit_row : Payment
deposit_row = record {
  id = 4;
  booking_id = 2;
  stripe_id = "pi_1";
  kind = deposit;
  amount_cents = pos 21_700;
  status = succeeded;
}

abbrev pub calm : Store → Session
calm d = record { db = d; fate = [] }

abbrev pub charge : Charge
charge = record {
  booking_code = "bh-aaaaaa";
  stripe_id = "pi_1";
  event_id = "evt_1";
  event_type = "payment_intent.succeeded";
  kind = deposit;
  amount_cents = pos 21_700;
  customer_id = "cus_1";
  payment_method_id = "pm_1";
  owner_email = "";
}

-- Everything that a run of the payments unfolds.
unfoldable pub paying : Charge → Session → Session
unfolding ◌>>=◌ pure raise raise_if statement query exec round_trip enclosed transaction
    create_occupancy promote_hold_to_booking count_booking_occupancy release_booking_occupancy
    sweep_expired_holds record_payment record_stripe_event get_booking_for_payment get_settings
    list_booking_rooms in_room_order place_room add_payment_to_booking save_booking_card
    confirm_booking cancel_booking expire_abandoned_bookings enqueue_job Occupancy.create
    Occupancy.translate enqueue Mail.queue Mail.queue_push validate note_event shortfall
    queue_refund owner_notification confirmation_mail balance_receipt cancellation_mail after_claim
    attempt claim_rooms reclaim held_or_reclaimed secure_room post intake with_booking
    return_payment confirmation_letter confirm settle save_card collect record_charge note_refund
    record_refund queue_any_refund cancel_found cancel refund retained penalty processing_fee
    ceil_scaled is_late_cancellation ◌+ℤ◌ ◌-ℤ◌ ◌*ℤ◌ ◌/ℤ◌ ◌+!◌ ◌-!◌ ◌*!◌ ◌/!◌ wrap64 normalise
    is_blank add_days sweep create_booking
paying c s = (record_charge c s).1
