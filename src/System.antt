-- ===== src/System.antt =====
-- The program at work: the handlers that cmd/server/main.go registers, the operations that its users,
-- its processor and its runner call, and the stores that any sequence of them reaches, whichever
-- statements fail on the way.
pub mod Invariants
use Prim.Native.String.{String}
use bealhouse.Prelude.{ℕ, ◌≡◌, ◌+◌, Bool, false, List, [], ◌∷◌, Option, none, some, if◌then◌else◌}
use bealhouse.Prelude.Int.{ℤ, pos}
use bealhouse.Civil.{Date}
use bealhouse.Db.Schema.{
  Store, Payload, nothing, refund_of, mail, notification, Instant, Settings, Room, NightRate, Kind,
  deposit, full, balance,
}
use bealhouse.Db.Session.{
  Action, Outcome, ok, err, Error, Session, pure, raise, ◌>>=◌, ◌>>◌, payload_unreadable,
}
use bealhouse.Push.{Sender, handler}
use bealhouse.Jobs.Runner.{Registration, Kinds, once, ensure_periodic}
use bealhouse.Mail
use bealhouse.Payments.Charge.{Charge}
use bealhouse.Payments.Gateway.{Gateway}
use bealhouse.Payments.Letters.{refund_job_kind}
use bealhouse.Payments.Record.{record_charge, record_failure, record_refund}
use bealhouse.Payments.Cancel.{cancel}
use bealhouse.Payments.Refunding.{send_refund}
use bealhouse.Payments.Open.{open_payment}
use bealhouse.Payments.Balances.{warn_balances, charge_balances}
use bealhouse.Booking.Sweeper.{sweep}
use bealhouse.Booking.Checkout.{checkout_job_kind, send_checkout_emails}
use bealhouse.Booking.Request
use bealhouse.Booking.Request.{Guest}
use bealhouse.Booking.Create
use bealhouse.Console
use bealhouse.Console.{ManualBooking, cancel_stay, refund_stay, collect_by_card, request_payment}
use bealhouse.Console.Blocks.{NewBlock, block_room, unblock}

-- `errors.Join`: no failure is no error.
abbrev pub first_failure : List Error → Outcome (Unit {0})
first_failure [] = ok tt
first_failure (e ∷ es) = err e

unfoldable pub report : ℕ × List Error → Action (Unit {0})
report (n, es) s = (first_failure es, s)

-- What is outside: the day, the processor, the services that deliver mail and notifications, and the
-- address of the owner.
pub record World : Type 0 where
  pub today : Date
  pub gateway : Gateway
  pub deliver : Payload → Outcome (Unit {0})
  pub notify : Sender
  pub describe : Error → String
  pub owner_email : String

module _ (w : World) where
  -- `SweepJob`
  unfoldable pub sweep_job : Payload → Action (Unit {0})
  sweep_job p = do sweep; pure tt

  -- `CheckoutJob`
  unfoldable pub checkout_job : Payload → Action (Unit {0})
  checkout_job p = do t ← send_checkout_emails w.today; report t

  -- `WarnJob`
  unfoldable pub warn_job : Payload → Action (Unit {0})
  warn_job p = do t ← warn_balances w.today; report t

  -- `ChargeJob`
  unfoldable pub charge_job : Payload → Action (Unit {0})
  charge_job p = do t ← charge_balances w.gateway w.today; report t

  -- `RefundJob`
  unfoldable pub refund_job : Payload → Action (Unit {0})
  refund_job nothing = raise payload_unreadable
  refund_job (refund_of code amount_cents) = send_refund w.gateway code amount_cents
  refund_job (mail recipient template code amount_cents) = raise payload_unreadable
  refund_job (notification title tag) = raise payload_unreadable

  unfoldable pub delivery_job : Payload → Action (Unit {0})
  delivery_job p s = (w.deliver p, s)

  -- The table of the runner; repeats are in milliseconds.
  abbrev pub kinds : Kinds
  kinds =
      ("hold.sweep", record { run = sweep_job; repeat = 60_000 })
      ∷ (checkout_job_kind, record { run = checkout_job; repeat = 900_000 })
      ∷ ("balance.warn", record { run = warn_job; repeat = 3_600_000 })
      ∷ ("balance.charge", record { run = charge_job; repeat = 3_600_000 })
      ∷ (refund_job_kind, record { run = refund_job; repeat = 0 })
      ∷ (Mail.job_kind, record { run = delivery_job; repeat = 0 })
      ∷ (Mail.push_job_kind, record { run = handler w.notify; repeat = 0 })
      ∷ []

-- A booking as the website asks for one: no hook, and not written down by an owner.
pub record Order : Type 0 where
  pub room_slug : String
  pub checkin : Date
  pub checkout : Date
  pub guests : ℤ
  pub guest : Guest
  pub expected_total_cents : ℤ
  pub accepted_policies : Bool

abbrev pub order_request : Order → Request.Request
order_request o = record {
  room_slug = o.room_slug;
  checkin = o.checkin;
  checkout = o.checkout;
  guests = o.guests;
  guest = o.guest;
  expected_total_cents = o.expected_total_cents;
  manual = false;
  accepted_policies = o.accepted_policies;
  after_create = λ code. pure tt;
}

-- The kinds that a payment is opened with (`kind_due` of Payments.Open), and the balance's.
pub data Incoming : Type 0 where
  first_half whole rest : Incoming

abbrev pub kind_of : Incoming → Kind
kind_of first_half = deposit
kind_of whole = full
kind_of rest = balance

-- A report of money in, of one of those kinds.
abbrev pub report_of : Incoming → Charge → Charge
report_of k c = record c { kind = kind_of k }

pub data Operation : Type 0 where
  books : Instant → (ℕ → List ℕ) → Order → Operation
  writes_down : Instant → (ℕ → List ℕ) → ManualBooking → Operation
  opens : String → Bool → Operation
  collects : String → Operation
  pays : Incoming → Charge → Operation
  fails : Charge → Operation
  returns : Charge → Operation
  cancels : String → Operation
  owner_cancels : String → Operation
  owner_refunds : String → ℤ → Operation
  requests : String → Operation
  blocks : NewBlock → Operation
  unblocks : ℕ → Operation
  registers : Operation
  works : ℕ → Operation

-- What an operation leaves, in a world.
unfoldable pub perform : World → Operation → Session → Session
perform w (books clock random o) s = (Create.create clock w.today random (order_request o) s).1
perform w (writes_down clock random m) s =
    (Console.create_booking clock w.today random w.owner_email m s).1
perform w (opens code moto) s = (open_payment w.gateway code moto s).1
perform w (collects code) s = (collect_by_card w.gateway code s).1
perform w (pays k c) s = (record_charge (report_of k c) s).1
perform w (fails c) s = (record_failure c s).1
perform w (returns c) s = (record_refund c s).1
perform w (cancels code) s = (cancel code w.today s).1
perform w (owner_cancels code) s = (cancel_stay code w.today s).1
perform w (owner_refunds code amount) s = (refund_stay code amount s).1
perform w (requests code) s = (request_payment code s).1
perform w (blocks b) s = (block_room b s).1
perform w (unblocks id) s = (unblock id s).1
perform w registers s = (ensure_periodic (kinds w) s).1
perform w (works jitter) s = (once (kinds w) w.describe jitter s).1

-- No booking, payment or claim yet.
pub record IsInitial (d : Store) : Type 0 where
  pub no_bookings : d.bookings ≡ []
  pub no_payments : d.payments ≡ []
  pub no_claims : d.occupancy ≡ []

-- The stores that the program reaches. The owners may edit the settings, the rooms and the rates at
-- any time, and time passes.
pub data Reach : Store → Type 0 where
  begins : {d : Store} → IsInitial d → Reach d
  acts : (w : World) (o : Operation) (s : Session) → Reach s.db → Reach (perform w o s).db
  passes : {d : Store} (t : ℕ) → Reach d → Reach (record d { now = d.now + t })
  edits :
      {d : Store} (settings : Settings) (rooms : List Room) (rates : List NightRate)
      → Reach d
      → Reach (record d { settings = settings; rooms = rooms; rate_calendar = rates })
