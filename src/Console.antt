-- ===== src/Console.antt =====
-- What the owners do in internal/console/bookings.go, calendar.go and content.go. A date has been read from its
-- text already (`parseDay`), and every `badf` is `bad_request`.
pub mod Blocks
pub mod Notices
use Prim.Native.String.{String}
use bealhouse.Prelude.{ℕ, Bool, true, false, not, ◌||◌, List, Option, none, some, if◌then◌else◌}
use bealhouse.Prelude.Int.{ℤ, pos, ltb_ℤ, leb_ℤ}
use bealhouse.Prelude.Int64.{◌+!◌, ◌-!◌}
use bealhouse.Prelude.Text.{normalise, trim_space}
use bealhouse.Civil.{Date}
use bealhouse.Db.Schema.{Instant, deposit}
use bealhouse.Db.Session.{
  Action, Outcome, ok, err, Error, pure, raise, raise_if, transaction, ◌>>=◌, ◌>>◌, bad_request,
  not_found, booking_not_found, not_cancellable, stay_underway, not_payable, nothing_to_pay,
  gateway_disabled, room_unavailable, room_taken, guest_name_required, guest_email_required,
  guest_phone_required,
}
use bealhouse.Db.Bookings.{
  PaymentRow, is_confirmed, is_null, get_booking_for_payment, get_booking_by_code,
  list_booking_rooms,
}
use bealhouse.Payments.Cancel.{Cancellation, cancel}
use bealhouse.Payments.Charge.{Charge}
use bealhouse.Payments.Gateway.{Gateway}
use bealhouse.Payments.Letters.{queue_refund, confirmation_mail, letter}
use bealhouse.Payments.Open.{Opened, open_payment}
use bealhouse.Booking.Create
use bealhouse.Booking.Create.{Booked}
use bealhouse.Booking.Request.{Guest}
use bealhouse.Booking.Request

-- An operation, with its errors told in the console's words.
unfoldable pub relabel : {A : Type 0} → (Error → Error) → Action A → Action A
relabel f m s = let (r, s') = m s in (elim r [ ok a ↦ ok a | err e ↦ err (f e) ], s')

abbrev pub cancel_error : Error → Error
cancel_error booking_not_found = not_found
cancel_error not_cancellable = bad_request
cancel_error stay_underway = bad_request
cancel_error e = e

pub record RefundQuote : Type 0 where
  pub paid_cents : ℤ
  pub retained_cents : ℤ
  pub refund_cents : ℤ
  pub late : Bool

abbrev pub quote_of : Cancellation → RefundQuote
quote_of done = record {
  paid_cents = done.retained_cents +! done.refund_cents;
  retained_cents = done.retained_cents;
  refund_cents = done.refund_cents;
  late = done.late;
}

-- `Ops.Cancel`
unfoldable pub cancel_stay : String → Date → Action RefundQuote
cancel_stay code on = do done ← relabel cancel_error (cancel code on); pure (quote_of done)

-- A row that has to be there.
abbrev pub or_not_found : {A : Type 0} → Option PaymentRow → (PaymentRow → Action A) → Action A
or_not_found none work = raise not_found
or_not_found (some b) work = work b

unfoldable pub queue_owed : String → ℤ → PaymentRow → Action (Unit {0})
queue_owed code amount_cents b = do
  raise_if (ltb_ℤ b.amount_paid_cents amount_cents) bad_request
  queue_refund code amount_cents

-- `Ops.Refund`: money back, "without cancelling anything".
unfoldable pub refund_stay : String → ℤ → Action (Unit {0})
refund_stay code amount_cents = do
  raise_if (leb_ℤ amount_cents (pos 0)) bad_request
  found ← get_booking_by_code (normalise code)
  or_not_found found (queue_owed (normalise code) amount_cents)

abbrev pub card_error : Error → Error
card_error booking_not_found = not_found
card_error not_payable = bad_request
card_error nothing_to_pay = bad_request
card_error gateway_disabled = bad_request
card_error e = e

-- `Ops.CollectByCard`, without the publishable key.
unfoldable pub collect_by_card : Gateway → String → Action Opened
collect_by_card gw code = relabel card_error (open_payment gw (normalise code) true)

abbrev pub outstanding : PaymentRow → ℤ
outstanding b = b.total_cents -! b.amount_paid_cents

unfoldable pub request_found : PaymentRow → Action (Unit {0})
request_found b = do
  raise_if (not (is_confirmed b.status)) bad_request
  raise_if (leb_ℤ (outstanding b) (pos 0)) bad_request
  raise_if (not (is_null b.balance_charge_at)) bad_request
  list_booking_rooms b.id
  letter b.guest_email "payment_request" b (outstanding b)

-- `queuePaymentRequest`
unfoldable pub queue_payment_request : String → Action (Unit {0})
queue_payment_request code = do
  found ← get_booking_for_payment code
  or_not_found found request_found

-- `Ops.RequestPayment`
unfoldable pub request_payment : String → Action (Unit {0})
request_payment code = transaction (queue_payment_request (normalise code))

-- `SettleOffline`, `SettleByLink` and `SettleByCard`
pub data Settlement : Type 0 where
  offline by_link by_card : Settlement

pub record ManualBooking : Type 0 where
  pub room_slug : String
  pub checkin : Date
  pub checkout : Date
  pub guests : ℤ
  pub name : String
  pub email : String
  pub phone : String
  -- `none` is a text that names no way of paying; an empty one is `offline`
  pub payment : Option Settlement

-- The charge that a confirmation without a payment goes with.
abbrev pub no_charge : String → Charge
no_charge owner_email = record {
  booking_code = "";
  stripe_id = "";
  event_id = "";
  event_type = "";
  kind = deposit;
  amount_cents = pos 0;
  customer_id = "";
  payment_method_id = "";
  owner_email = owner_email;
}

abbrev pub or_no_booking : Option PaymentRow → (PaymentRow → Action (Unit {0})) → Action (Unit {0})
or_no_booking none work = raise booking_not_found
or_no_booking (some b) work = work b

-- `QueueConfirmation` of internal/payments/confirmation.go, for nothing paid.
unfoldable pub queue_confirmation : String → String → Action (Unit {0})
queue_confirmation code owner_email = do
  found ← get_booking_for_payment (normalise code)
  or_no_booking found (λ b. confirmation_mail b (no_charge owner_email))

abbrev pub is_by_link : Settlement → Bool
is_by_link by_link = true
is_by_link offline = false
is_by_link by_card = false

-- The hook of `CreateBooking`.
unfoldable pub after_create : String → Settlement → String → Action (Unit {0})
after_create owner_email payment code = do
  queue_confirmation code owner_email
  if is_by_link payment then queue_payment_request code else pure tt

abbrev pub request_of : String → ManualBooking → Settlement → Request.Request
request_of owner_email m payment = record {
  room_slug = trim_space m.room_slug;
  checkin = m.checkin;
  checkout = m.checkout;
  guests = m.guests;
  guest = record {
    name = trim_space m.name;
    email = trim_space m.email;
    phone = trim_space m.phone;
  };
  expected_total_cents = pos 0;
  manual = true;
  accepted_policies = true;
  after_create = after_create owner_email payment;
}

abbrev pub create_error : Error → Error
create_error room_unavailable = bad_request
create_error room_taken = bad_request
create_error guest_name_required = bad_request
create_error guest_email_required = bad_request
create_error guest_phone_required = bad_request
create_error e = e

module _ (clock : Instant) (today : Date) (random : ℕ → List ℕ) (owner_email : String) where
  abbrev pub write_down : ManualBooking → Option Settlement → Action Booked
  write_down m none = raise bad_request
  write_down m (some payment) =
      relabel create_error (Create.create clock today random (request_of owner_email m payment))

  -- `Ops.CreateBooking`
  unfoldable pub create_booking : ManualBooking → Action Booked
  create_booking m = do raise_if (ltb_ℤ m.guests (pos 1)) bad_request; write_down m m.payment
