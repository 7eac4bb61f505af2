-- ===== src/Booking/Create.antt =====
-- `Create` of internal/booking/booking.go: a room that a guest has chosen becomes a booking that
-- holds it.
use Prim.Native.String.{String}
use text.Mathlib.Text.{◌==◌ as str_eq}
use bealhouse.Prelude.{
  ℕ, zero, suc, ◌+◌, ◌*◌, Bool, true, false, not, ◌&&◌, ◌||◌, List, [], ◌∷◌, Option, none, some,
  if◌then◌else◌,
}
use bealhouse.Prelude.Int.{ℤ, pos, eqb_ℤ}
use bealhouse.Prelude.Text.{trim_space}
use bealhouse.Prelude.Int64.{wrap32}
use bealhouse.Civil
use bealhouse.Civil.{Date}
use bealhouse.Pricing.{Quote, is_short_notice, balance_charge_date, charge_at_booking}
use bealhouse.Db.Schema.{Instant, Status, booking, hold, Settings, BookingRoom}
use bealhouse.Db.Session.{
  Action, ok, err, Error, fault, in_failed_transaction, unique_violation, pure, raise, raise_if,
  ◌>>=◌, ◌>>◌, room_unavailable, price_changed,
}
use bealhouse.Db.Bookings.{get_settings}
use bealhouse.Db.Occupancy.{CreateOccupancyParams}
use bealhouse.Db.Reservations.{
  CreateBookingParams, create_booking, create_booking_room, upsert_guest,
}
use bealhouse.Availability
use bealhouse.Availability.{Room, search_rooms, checked}
use bealhouse.Occupancy
use bealhouse.Occupancy.{claiming}
use bealhouse.Booking.Request.{Request, validate, status, new_code}

abbrev pub code_attempts : ℕ
code_attempts = 3

abbrev pub params : Request → Room → Settings → ℕ → Option Date → String → CreateBookingParams
params req room s guest_id charge_at booking_code = record {
  code = booking_code;
  guest_id = guest_id;
  status = status req;
  checkin = req.checkin;
  checkout = req.checkout;
  guests = wrap32 req.guests;
  room_subtotal_cents = room.quote.room_subtotal_cents;
  tax_cents = room.quote.tax_cents;
  tax_rate_scaled = s.tax_rate_scaled;
  total_cents = room.quote.total_cents;
  deposit_cents = room.quote.deposit_cents;
  balance_due_cents = room.quote.balance_cents;
  balance_charge_at = charge_at;
  policies_accepted = req.accepted_policies;
}

-- A statement of a transaction in which one has failed is refused, with 25P02.
abbrev pub unless_aborted : {A : Type 0} → Bool → Action A → Action A
unless_aborted aborted m = if aborted then raise (fault in_failed_transaction) else m

-- `isDuplicateCode`: 23505.
abbrev pub is_duplicate_code : Error → Bool
is_duplicate_code unique_violation = true
is_duplicate_code e = false

-- The loop of `insertBooking`, with the bytes that the random source gives to each attempt. Nothing
-- but a code that is taken calls for another attempt.
unfoldable pub insert_booking :
    (String → CreateBookingParams) → (ℕ → List ℕ) → ℕ → Bool → Action (String × ℕ)
insert_booking arg random zero aborted s = (err unique_violation, s)
insert_booking arg random (suc n) aborted s =
    let (r, s') = unless_aborted aborted (create_booking (arg (new_code (random n)))) s in
    elim r [
      | ok id ↦ (ok (new_code (random n), id), s')
      | err e ↦ if is_duplicate_code e then insert_booking arg random n true s' else (err e, s')
    ]

-- `pick`
abbrev pub pick : String → List Room → Option Room
pick slug [] = none
pick slug (r ∷ rs) = let rest = pick slug rs in if str_eq r.slug slug then some r else rest

-- The claim that the booking makes on its room. `clock` is time.Now().
abbrev pub claim_of : Request → Room → Settings → Instant → ℕ → CreateOccupancyParams
claim_of req room s clock booking_id = record {
  room_id = room.id;
  checkin = req.checkin;
  checkout = req.checkout;
  kind = if req.manual then booking else hold;
  source = "direct";
  booking_id = some booking_id;
  expires_at = if req.manual then none else some (clock + s.hold_ttl_minutes * 60);
}

abbrev pub room_of : Request → Room → ℕ → BookingRoom
room_of req room booking_id = record {
  booking_id = booking_id;
  room_id = room.id;
  checkin = req.checkin;
  checkout = req.checkout;
  nightly_prices = room.nightly_cents;
}

-- The booking as the response shows it.
pub record Booked : Type 0 where
  pub code : String
  pub status : Status
  pub checkin : Date
  pub checkout : Date
  pub nights : ℤ
  pub guests : ℤ
  pub room_slug : String
  pub nightly_cents : List ℤ
  pub quote : Quote
  pub charge_now_cents : ℤ
  pub balance_charge_on : Option Date
  pub hold_expires_at : Option Instant

module _ (clock : Instant) (today : Date) where
  -- `chargeAt`
  abbrev pub charge_at : Request → Option Date
  charge_at req =
      if not (is_short_notice today req.checkin) && not req.manual
      then some (balance_charge_date req.checkin)
      else none

  -- `view`
  unfoldable pub view : Request → Room → Settings → String → Booked
  view req room s code =
      let short_notice = is_short_notice today req.checkin in
      record {
        code = code;
        status = status req;
        checkin = req.checkin;
        checkout = req.checkout;
        nights = Civil.nights req.checkin req.checkout;
        guests = req.guests;
        room_slug = room.slug;
        nightly_cents = room.nightly_cents;
        quote = room.quote;
        charge_now_cents = if req.manual then pos 0 else charge_at_booking room.quote short_notice;
        balance_charge_on =
            if req.manual || short_notice then none else some (balance_charge_date req.checkin);
        hold_expires_at = if req.manual then none else some (clock + s.hold_ttl_minutes * 60);
      }

  -- What follows once the room is picked.
  unfoldable pub book : (ℕ → List ℕ) → Request → Settings → Room → Action Booked
  book random req s room = do
    raise_if
        (not (eqb_ℤ req.expected_total_cents (pos 0))
          && not (eqb_ℤ req.expected_total_cents room.quote.total_cents))
        price_changed
    guest_id ←
        upsert_guest (trim_space req.guest.email) (trim_space req.guest.name)
          (trim_space req.guest.phone)
    made ← insert_booking (params req room s guest_id (charge_at req)) random code_attempts false
    create_booking_room (room_of req room made.1)
    Occupancy.create (claim_of req room s clock made.1)
    req.after_create made.0
    pure (view req room s made.0)

  abbrev pub book_picked : (ℕ → List ℕ) → Request → Settings → Option Room → Action Booked
  book_picked random req s none = raise room_unavailable
  book_picked random req s (some room) = book random req s room

  abbrev pub stay_of : Request → Availability.Request
  stay_of req = record { checkin = req.checkin; checkout = req.checkout; guests = req.guests }

  unfoldable pub search_and_book : (ℕ → List ℕ) → Request → Action Booked
  search_and_book random req = do
    s ← get_settings
    found ← search_rooms today (stay_of req)
    book_picked random req s (pick req.room_slug found)

  -- `Create`; `random` gives the bytes of a code to each attempt.
  unfoldable pub create : (ℕ → List ℕ) → Request → Action Booked
  create random req = checked (validate req) (claiming (search_and_book random req))
