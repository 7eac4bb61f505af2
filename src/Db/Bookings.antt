-- ===== src/Db/Bookings.antt =====
-- The statements on `bookings`, `booking_rooms` and `guests`: internal/db/gen/bookings.sql.go and
-- payments.sql.go.
use Prim.Native.String.{String}
use text.Mathlib.Text.{◌==◌ as str_eq}
use bealhouse.Prelude.{
  ℕ, ◌+◌, ◌*◌, Bool, true, false, not, ◌&&◌, ◌||◌, List, [], ◌∷◌, Option, none, some, length, keep,
  any, map, leb, ◌==◌, if◌then◌else◌,
}
use bealhouse.Prelude.Int.{ℤ, pos, ◌+ℤ◌, ltb_ℤ, leb_ℤ}
use bealhouse.Prelude.Int64.{two63}
use bealhouse.Civil.{Date}
use bealhouse.Db.Schema.{
  Instant, Status, pending, confirmed, cancelled, expired, Guest, Booking, BookingRoom, Room,
  Occupancy, Settings, Store,
}
use bealhouse.Db.Session.{Action, Outcome, ok, err, out_of_range, statement, query, exec}
use bealhouse.Db.Occupancy.{is_hold, is_for}

abbrev pub is_pending : Status → Bool
is_pending pending = true
is_pending confirmed = false
is_pending cancelled = false
is_pending expired = false

abbrev pub is_confirmed : Status → Bool
is_confirmed confirmed = true
is_confirmed pending = false
is_confirmed cancelled = false
is_confirmed expired = false

abbrev pub is_cancelled : Status → Bool
is_cancelled cancelled = true
is_cancelled pending = false
is_cancelled confirmed = false
is_cancelled expired = false

abbrev pub is_null {ℓ} : {A : Type ℓ} → Option A → Bool
is_null none = true
is_null (some a) = false

-- `UPDATE bookings SET … WHERE id = $1`
abbrev pub patch : ℕ → (Booking → Booking) → List Booking → List Booking
patch id f [] = []
patch id f (b ∷ bs) = (if b.id == id then f b else b) ∷ patch id f bs

abbrev pub find_booking : String → List Booking → Option Booking
find_booking code [] = none
find_booking code (b ∷ bs) =
    let rest = find_booking code bs in if str_eq b.code code then some b else rest

abbrev pub get_booking : ℕ → List Booking → Option Booking
get_booking id [] = none
get_booking id (b ∷ bs) = let rest = get_booking id bs in if b.id == id then some b else rest

abbrev pub find_guest : ℕ → List Guest → Option Guest
find_guest id [] = none
find_guest id (g ∷ gs) = let rest = find_guest id gs in if g.id == id then some g else rest

-- GetBookingForPaymentRow
pub record PaymentRow : Type 0 where
  pub id : ℕ
  pub code : String
  pub status : Status
  pub checkin : Date
  pub checkout : Date
  pub total_cents : ℤ
  pub deposit_cents : ℤ
  pub balance_due_cents : ℤ
  pub amount_paid_cents : ℤ
  pub balance_charge_at : Option Date
  pub guest_email : String
  pub guest_name : String

abbrev pub payment_row : Booking → Guest → PaymentRow
payment_row b g = record {
  id = b.id;
  code = b.code;
  status = b.status;
  checkin = b.checkin;
  checkout = b.checkout;
  total_cents = b.total_cents;
  deposit_cents = b.deposit_cents;
  balance_due_cents = b.balance_due_cents;
  amount_paid_cents = b.amount_paid_cents;
  balance_charge_at = b.balance_charge_at;
  guest_email = g.email;
  guest_name = g.name;
}

abbrev pub join_guest : List Guest → Option Booking → Option PaymentRow
join_guest gs none = none
join_guest gs (some b) = elim (find_guest b.guest_id gs) [
  | none ↦ none
  | some g ↦ some (payment_row b g)
]

-- `GetBookingForPayment`; `none` is pgx.ErrNoRows.
unfoldable pub get_booking_for_payment : String → Action (Option PaymentRow)
get_booking_for_payment code = query (λ d. join_guest d.guests (find_booking code d.bookings))

-- `GetBookingByCode`, with the columns that the console's refund reads.
unfoldable pub get_booking_by_code : String → Action (Option PaymentRow)
get_booking_by_code code = query (λ d. join_guest d.guests (find_booking code d.bookings))

-- `GetSettings`
unfoldable pub get_settings : Action Settings
get_settings = query (λ d. d.settings)

-- `ORDER BY r.sort_order`
abbrev pub order_of : ℕ → List Room → ℤ
order_of id [] = pos 0
order_of id (r ∷ rs) = let rest = order_of id rs in if r.id == id then r.sort_order else rest

unfoldable pub place_room : List Room → BookingRoom → List BookingRoom → List BookingRoom
place_room rs r [] = r ∷ []
place_room rs r (x ∷ xs) =
    let rest = place_room rs r xs in
    if leb_ℤ (order_of r.room_id rs) (order_of x.room_id rs) then r ∷ x ∷ xs else x ∷ rest

unfoldable pub in_room_order : List Room → List BookingRoom → List BookingRoom
in_room_order rs [] = []
in_room_order rs (r ∷ xs) = place_room rs r (in_room_order rs xs)

-- `ListBookingRooms`, with `JOIN rooms` and the columns that the callers use.
unfoldable pub list_booking_rooms : ℕ → Action (List BookingRoom)
list_booking_rooms id = query (λ d.
    in_room_order d.rooms
      (keep (λ r. r.booking_id == id && any (λ x. x.id == r.room_id) d.rooms) d.booking_rooms))

abbrev pub update_booking : ℕ → (Booking → Booking) → Store → Store
update_booking id f d = record d { bookings = patch id f d.bookings }

-- `amount_paid_cents >= 0`, in a bigint
abbrev pub is_amount : ℤ → Bool
is_amount z = leb_ℤ (pos 0) z && ltb_ℤ z (pos two63)

abbrev pub add_paid : ℤ → Booking → Booking
add_paid amount b = record b { amount_paid_cents = b.amount_paid_cents +ℤ amount }

abbrev pub add_payment : ℕ → ℤ → Store → Outcome (Unit {0}) × Store
add_payment id amount d =
    if any (λ b. b.id == id && not (is_amount (b.amount_paid_cents +ℤ amount))) d.bookings
    then (err out_of_range, d)
    else (ok tt, update_booking id (add_paid amount) d)

-- `AddPaymentToBooking`: Postgres adds exactly, or refuses.
unfoldable pub add_payment_to_booking : ℕ → ℤ → Action (Unit {0})
add_payment_to_booking id amount = statement (add_payment id amount)

-- `SaveBookingCard`
unfoldable pub save_booking_card : ℕ → String → String → Action (Unit {0})
save_booking_card id customer method = exec (
    update_booking id
      (λ b. record b { stripe_customer_id = customer; stripe_payment_method_id = method }))

abbrev pub with_status : Status → Booking → Booking
with_status s b = record b { status = s }

-- `ConfirmBooking`
unfoldable pub confirm_booking : ℕ → Action (Unit {0})
confirm_booking id = exec (update_booking id (with_status confirmed))

-- `CancelBooking`
unfoldable pub cancel_booking : ℕ → Action (Unit {0})
cancel_booking id = exec (update_booking id (with_status cancelled))

-- `StartPayment`
unfoldable pub mark_payment_started : ℕ → String → Action (Unit {0})
mark_payment_started id intent = exec (λ d.
    update_booking id
      (λ b. record b { payment_intent_id = intent; payment_started_at = some d.now }) d)

-- `MarkBalanceChargeFailed`
unfoldable pub mark_balance_charge_failed : ℕ → Action (Unit {0})
mark_balance_charge_failed id =
    exec (λ d. update_booking id (λ b. record b { balance_charge_failed_at = some d.now }) d)

-- `MarkBalanceWarned`
unfoldable pub mark_balance_warned : ℕ → Action (Unit {0})
mark_balance_warned id =
    exec (λ d. update_booking id (λ b. record b { balance_warned_at = some d.now }) d)

-- A booking has no hold left.
abbrev pub is_unheld : ℕ → List Occupancy → Bool
is_unheld id os = not (any (λ o. is_for id o && is_hold o.kind) os)

-- The grace period of a payment that was started, if one was, is over.
abbrev pub is_overdue : Instant → ℕ → Option Instant → Bool
is_overdue now grace none = true
is_overdue now grace (some t) = leb (t + grace * 60) now

abbrev pub is_abandoned : Store → Booking → Bool
is_abandoned d b =
    is_pending b.status
    && is_unheld b.id d.occupancy
    && is_overdue d.now d.settings.payment_grace_minutes b.payment_started_at

abbrev pub expire : (Booking → Bool) → Booking → Booking
expire p b = if p b then record b { status = expired } else b

-- `ExpireAbandonedBookings`, with the number of rows that it changed.
unfoldable pub expire_abandoned_bookings : Action ℕ
expire_abandoned_bookings = statement (λ d. (
  ok (length (keep (is_abandoned d) d.bookings)),
  record d { bookings = map (expire (is_abandoned d)) d.bookings },
))

-- What `ListBookingsDueForBalanceCharge` and `ListBookingsToWarnAboutBalance` both ask for.
abbrev pub owes_balance : Date → Booking → Bool
owes_balance on b =
    is_confirmed b.status
    && elim b.balance_charge_at [ none ↦ false | some day ↦ leb_ℤ day on ]
    && ltb_ℤ b.amount_paid_cents b.total_cents
    && is_null b.balance_charge_failed_at

-- `ORDER BY balance_charge_at, id`; NULL does not stand among the rows.
abbrev pub charge_day : Booking → ℤ
charge_day b = elim b.balance_charge_at [ none ↦ pos 0 | some day ↦ day ]

abbrev pub comes_first : Booking → Booking → Bool
comes_first a b =
    ltb_ℤ (charge_day a) (charge_day b) || (leb_ℤ (charge_day a) (charge_day b) && leb a.id b.id)

unfoldable pub place : Booking → List Booking → List Booking
place b [] = b ∷ []
place b (c ∷ cs) = let rest = place b cs in if comes_first b c then b ∷ c ∷ cs else c ∷ rest

unfoldable pub by_charge_day : List Booking → List Booking
by_charge_day [] = []
by_charge_day (b ∷ bs) = place b (by_charge_day bs)

-- `ListBookingsDueForBalanceCharge`
unfoldable pub list_due_for_balance_charge : Date → Action (List Booking)
list_due_for_balance_charge on = query (λ d. by_charge_day (keep (owes_balance on) d.bookings))

-- `ListBookingsToWarnAboutBalance`
unfoldable pub list_to_warn_about_balance : Date → Action (List Booking)
list_to_warn_about_balance on =
    query
      (λ d. by_charge_day (keep (λ b. owes_balance on b && is_null b.balance_warned_at) d.bookings))
