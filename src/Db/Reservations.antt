-- ===== src/Db/Reservations.antt =====
-- The statements of internal/db/gen/bookings.sql.go that write down a new booking, under the
-- constraints of migrations/00007_bookings.sql.
use Prim.Native.Char.{code}
use Prim.Native.String.{String}
use text.Mathlib.Text.{◌==◌ as str_eq}
use bealhouse.Prelude.{
  ℕ, ◌+◌, Bool, true, false, not, ◌&&◌, List, [], ◌∷◌, ◌++◌, Option, none, some, length, any, ◌==◌,
  if◌then◌else◌,
}
use bealhouse.Prelude.Int.{ℤ, pos, ◌+ℤ◌, ◌-ℤ◌, ltb_ℤ, leb_ℤ, eqb_ℤ}
use bealhouse.Prelude.Text.{to_lower}
use bealhouse.Civil.{Date}
use bealhouse.Db.Schema.{Status, Guest, Booking, BookingRoom, Store}
use bealhouse.Db.Session.{
  Action, Outcome, ok, err, unique_violation, check_violation, foreign_key_violation, statement,
}

-- `lower(email)`, the key of a guest.
abbrev pub same_guest : String → Guest → Bool
same_guest email g = str_eq (to_lower g.email) (to_lower email)

abbrev pub guest_with : String → List Guest → Option Guest
guest_with email [] = none
guest_with email (g ∷ gs) =
    let rest = guest_with email gs in if same_guest email g then some g else rest

abbrev pub refresh : String → String → String → List Guest → List Guest
refresh email name phone [] = []
refresh email name phone (g ∷ gs) =
    (if same_guest email g then record g { email = email; name = name; phone = phone } else g)
    ∷ refresh email name phone gs

-- `email LIKE '%_@_%'`: an @ that is neither first nor last.
abbrev pub is_email : String → Bool
is_email String.[] = false
is_email (String.◌∷◌ c s) = inner_at s
  where
    inner_at : String → Bool
    inner_at String.[] = false
    inner_at (String.◌∷◌ a rest) =
        let more = inner_at rest in if code a == 64 && not (str_eq rest "") then true else more

abbrev pub put_guest : String → String → String → Store → Outcome ℕ × Store
put_guest email name phone d =
    if not (is_email email) then (err check_violation, d) else elim (guest_with email d.guests) [
      | none ↦ (
        ok d.next_id,
        record d {
          next_id = d.next_id + 1;
          guests = record { id = d.next_id; email = email; name = name; phone = phone } ∷ d.guests;
        },
      )
      | some g ↦ (ok g.id, record d { guests = refresh email name phone d.guests })
    ]

-- `UpsertGuest`
unfoldable pub upsert_guest : String → String → String → Action ℕ
upsert_guest email name phone = statement (put_guest email name phone)

pub record CreateBookingParams : Type 0 where
  pub code : String
  pub guest_id : ℕ
  pub status : Status
  pub checkin : Date
  pub checkout : Date
  pub guests : ℤ
  pub room_subtotal_cents : ℤ
  pub tax_cents : ℤ
  pub tax_rate_scaled : ℤ
  pub total_cents : ℤ
  pub deposit_cents : ℤ
  pub balance_due_cents : ℤ
  pub balance_charge_at : Option Date
  pub policies_accepted : Bool

-- The CHECKs; the pet fee is 0.
abbrev pub is_reconciled : CreateBookingParams → Bool
is_reconciled arg =
    eqb_ℤ arg.total_cents (arg.room_subtotal_cents +ℤ arg.tax_cents)
    && eqb_ℤ (arg.deposit_cents +ℤ arg.balance_due_cents) arg.total_cents

abbrev pub is_not_negative : ℤ → Bool
is_not_negative z = leb_ℤ (pos 0) z

abbrev pub is_booking : CreateBookingParams → Bool
is_booking arg =
    is_reconciled arg
    && ltb_ℤ (pos 0) arg.guests
    && ltb_ℤ arg.checkin arg.checkout
    && is_not_negative arg.room_subtotal_cents
    && is_not_negative arg.tax_cents
    && is_not_negative arg.tax_rate_scaled
    && ltb_ℤ arg.tax_rate_scaled (pos 100_000)
    && is_not_negative arg.total_cents
    && is_not_negative arg.deposit_cents
    && is_not_negative arg.balance_due_cents

abbrev pub booking_of : ℕ → ℕ → CreateBookingParams → Booking
booking_of id now arg = record {
  id = id;
  code = arg.code;
  guest_id = arg.guest_id;
  status = arg.status;
  checkin = arg.checkin;
  checkout = arg.checkout;
  guests = arg.guests;
  room_subtotal_cents = arg.room_subtotal_cents;
  tax_cents = arg.tax_cents;
  tax_rate_scaled = arg.tax_rate_scaled;
  total_cents = arg.total_cents;
  deposit_cents = arg.deposit_cents;
  balance_due_cents = arg.balance_due_cents;
  amount_paid_cents = pos 0;
  balance_charge_at = arg.balance_charge_at;
  stripe_customer_id = "";
  stripe_payment_method_id = "";
  payment_intent_id = "";
  payment_started_at = none;
  balance_charge_failed_at = none;
  balance_warned_at = none;
  checkout_email_sent_at = none;
  policies_accepted_at = if arg.policies_accepted then some now else none;
}

abbrev pub insert_booking_row : CreateBookingParams → Store → Outcome ℕ × Store
insert_booking_row arg d =
    if not (is_booking arg)
    then (err check_violation, d)
    else if any (λ b. str_eq b.code arg.code) d.bookings
    then (err unique_violation, d)
    else if not (any (λ g. g.id == arg.guest_id) d.guests)
    then (err foreign_key_violation, d)
    else (
      ok d.next_id,
      record d { next_id = d.next_id + 1; bookings = booking_of d.next_id d.now arg ∷ d.bookings },
    )

-- `CreateBooking`
unfoldable pub create_booking : CreateBookingParams → Action ℕ
create_booking arg = statement (insert_booking_row arg)

-- The CHECKs of `booking_rooms`: one price for each night.
abbrev pub is_booking_room : BookingRoom → Bool
is_booking_room r =
    ltb_ℤ r.checkin r.checkout && eqb_ℤ (pos (length r.nightly_prices)) (r.checkout -ℤ r.checkin)

abbrev pub same_booking_room : BookingRoom → BookingRoom → Bool
same_booking_room r x = x.booking_id == r.booking_id && x.room_id == r.room_id

abbrev pub insert_booking_room : BookingRoom → Store → Outcome (Unit {0}) × Store
insert_booking_room r d =
    if not (is_booking_room r)
    then (err check_violation, d)
    else if any (same_booking_room r) d.booking_rooms
    then (err unique_violation, d)
    else if not (any (λ b. b.id == r.booking_id) d.bookings && any (λ x. x.id == r.room_id) d.rooms)
    then (err foreign_key_violation, d)
    else (ok tt, record d { booking_rooms = d.booking_rooms ++ (r ∷ []) })

-- `CreateBookingRoom`
unfoldable pub create_booking_room : BookingRoom → Action (Unit {0})
create_booking_room r = statement (insert_booking_room r)
