-- ===== src/Kept/Payments.antt =====
-- The operations of internal/payments, and the mail and claims under them, keep what the statements
-- keep.
use Prim.Native.String.{String}
use bealhouse.Prelude.{ℕ, ◌≡◌, refl, Bool, true, false, List, [], ◌∷◌, Option, none, some}
use bealhouse.Prelude.Int.{ℤ}
use bealhouse.Civil.{Date}
use bealhouse.Db.Schema.{Store, BookingRoom, Kind, refund, Settled, succeeded, failed}
use bealhouse.Db.Session.{
  Action, Outcome, ok, err, Session, pure, raise, round_trip, booking_not_found,
}
use bealhouse.Db.Keeps.{
  Ensures, Keeps, Keeps-if, Keeps-bind, Keeps-pure, Keeps-round_trip, Keeps-transaction,
  Keeps-raise,
}
use bealhouse.Db.Ensures.{Ensures-keeps, Ensures-bind, Keeps-ensured}
use bealhouse.Db.Payments.{RecordPaymentParams, record_payment}
use bealhouse.Db.Occupancy.{CreateOccupancyParams}
use bealhouse.Db.Bookings.{PaymentRow}
use bealhouse.Db.Queue.{EnqueueJobParams, enqueue_job}
use bealhouse.Occupancy.{create}
use bealhouse.Jobs.Enqueue
use bealhouse.Mail
use bealhouse.Payments.Charge.{Charge, Result, already_applied, note_event, validate}
use bealhouse.Payments.Letters.{
  queue_refund, owner_notification, confirmation_mail, balance_receipt, balance_failed,
  cancellation_mail,
}
use bealhouse.Payments.Rooms.{
  attempt, after_claim, claim_of, claim_rooms, reclaim, held_or_reclaimed, secure_room,
}
use bealhouse.Payments.Record.{
  plain, checked, post, intake, with_booking, return_payment, confirmation_letter, confirm, settle,
  save_card, collect, record_charge, note_failure, record_failure, note_refund, record_refund,
}
use bealhouse.Payments.Cancel.{queue_any_refund, cancel_found, cancel}
use bealhouse.Kept.Interface.{IsKept, IsPosted, IsRecorded, find-Keeps, reading_rules}

module _ {P : Store → Type 0} where
  pub with_booking-ensured :
      {A : Type 0} (code : String) (work : PaymentRow → Action A)
      → ((b : PaymentRow) → Ensures P (work b) (λ a. P))
      → Keeps P (with_booking code work)
  unfolding with_booking
  with_booking-ensured {A} code work kw =
      Keeps-ensured _ (Ensures-bind _ _ (λ found. P) _ (Ensures-keeps _ (find-Keeps _)) go)
    where
      go :
          (found : Option PaymentRow)
          → Ensures P
              (elim found as (λ _. Action A) [ none ↦ raise booking_not_found | some b ↦ work b ])
              (λ a. P)
      go none = Ensures-keeps _ (Keeps-raise _)
      go (some b) = kw b

  pub checked-Keeps :
      {A : Type 0} (v : Outcome (Unit {0})) (m : Action A) → Keeps P m → Keeps P (checked v m)
  checked-Keeps (ok _) m km = km
  checked-Keeps (err e) m km = Keeps-raise e

-- Mail, notifications and refunds only queue.
module _ {P : Store → Type 0} (q : (arg : EnqueueJobParams) → Keeps P (enqueue_job arg)) where
  pub enqueue-Keeps : (j : Enqueue.Job) → Keeps P (Enqueue.enqueue j)
  unfolding Enqueue.enqueue
  enqueue-Keeps j = search (reading_rules, q)

  pub queue-Keeps : (e : Mail.Envelope) → Keeps P (Mail.queue e)
  unfolding Mail.queue
  queue-Keeps e = search (reading_rules, enqueue-Keeps) depth 9

  queue_push-Keeps : (title tag : String) → Keeps P (Mail.queue_push title tag)
  unfolding Mail.queue_push
  queue_push-Keeps title tag = search (reading_rules, enqueue-Keeps) depth 9

  pub queue_refund-Keeps : (code : String) (x : ℤ) → Keeps P (queue_refund code x)
  unfolding queue_refund
  queue_refund-Keeps code x = search (reading_rules, enqueue-Keeps)

  owner_notification-Keeps : (b : PaymentRow) (c : Charge) → Keeps P (owner_notification b c)
  unfolding owner_notification
  owner_notification-Keeps b c = search (reading_rules, queue-Keeps)

  pub confirmation_mail-Keeps : (b : PaymentRow) (c : Charge) → Keeps P (confirmation_mail b c)
  unfolding confirmation_mail
  confirmation_mail-Keeps b c =
      search (reading_rules, queue-Keeps, queue_push-Keeps, owner_notification-Keeps) depth 9

  balance_receipt-Keeps : (b : PaymentRow) (c : Charge) → Keeps P (balance_receipt b c)
  unfolding balance_receipt
  balance_receipt-Keeps b c = queue-Keeps _

  pub balance_failed-Keeps : (b : PaymentRow) → Keeps P (balance_failed b)
  unfolding balance_failed
  balance_failed-Keeps b = queue-Keeps _

  pub cancellation_mail-Keeps : (b : PaymentRow) (x : ℤ) → Keeps P (cancellation_mail b x)
  unfolding cancellation_mail
  cancellation_mail-Keeps b x = queue-Keeps _

module _ {P : Store → Type 0} (k : IsKept P) where
  -- Claims, with the savepoint.
  pub create-Keeps : (arg : CreateOccupancyParams) → Keeps P (create arg)
  unfolding create
  create-Keeps arg = record { at = λ s h. (k.claims arg).at s h }

  after_claim-Keeps :
      (r : Outcome ℕ) (d : Store) (s : Session) → P s.db → P d → P (after_claim r d s).1.db
  unfolding after_claim
  after_claim-Keeps (ok id) d s h k =
      (Keeps-bind {P = P} round_trip _ Keeps-round_trip (λ _. Keeps-pure true)).at s h
  after_claim-Keeps (err e) d s h k = k

  attempt-Keeps : (b : PaymentRow) (room : BookingRoom) → Keeps P (attempt b room)
  unfolding attempt
  attempt-Keeps b room = record {
    at = λ s h.
        after_claim-Keeps (create (claim_of b room) s).0 s.db (create (claim_of b room) s).1
          ((create-Keeps (claim_of b room)).at s h) h;
  }

  claim_rooms-Keeps : (b : PaymentRow) (rooms : List BookingRoom) → Keeps P (claim_rooms b rooms)
  unfolding claim_rooms
  claim_rooms-Keeps b [] = search reading_rules
  claim_rooms-Keeps b (room ∷ rooms) = Keeps-bind round_trip _ Keeps-round_trip (λ _.
      Keeps-bind _ _ (attempt-Keeps b room)
        (λ claimed. Keeps-if claimed _ _ (claim_rooms-Keeps b rooms) (Keeps-pure false)))

  reclaim_from :
      (b : PaymentRow) (rooms : List BookingRoom)
      → Keeps P (elim rooms as (λ _. Action Bool) [
        | [] ↦ pure false
        | room ∷ more ↦ claim_rooms b (room ∷ more)
      ])
  reclaim_from b [] = search reading_rules
  reclaim_from b (room ∷ more) = claim_rooms-Keeps b (room ∷ more)

  reclaim-Keeps : (b : PaymentRow) → Keeps P (reclaim b)
  unfolding reclaim
  reclaim-Keeps b = search (reading_rules, reclaim_from)

  held_or_reclaimed-Keeps : (b : PaymentRow) → Keeps P (held_or_reclaimed b)
  unfolding held_or_reclaimed
  held_or_reclaimed-Keeps b = search (reading_rules, reclaim-Keeps)

  secure_room-Keeps : (b : PaymentRow) → Keeps P (secure_room b)
  unfolding secure_room
  secure_room-Keeps b = search (reading_rules, k.promotes, held_or_reclaimed-Keeps)

  with_booking-Keeps :
      {A : Type 0} (code : String) (work : PaymentRow → Action A)
      → ((b : PaymentRow) → Keeps P (work b))
      → Keeps P (with_booking code work)
  unfolding with_booking
  with_booking-Keeps {A} code work kw = Keeps-transaction _ (Keeps-bind _ _ (find-Keeps _) go)
    where
      go :
          (found : Option PaymentRow)
          → Keeps P
              (elim found as (λ _. Action A) [ none ↦ raise booking_not_found | some b ↦ work b ])
      go none = Keeps-raise _
      go (some b) = kw b

  pub note_event-Keeps : (c : Charge) → Keeps P (note_event c)
  unfolding note_event
  note_event-Keeps c = search (reading_rules, k.notes)

  -- Rows of a kind, in a state, may be inserted.
  abbrev pub Posts : Kind → Settled → Type 0
  Posts kind status =
      (arg : RecordPaymentParams)
      → arg.kind ≡ kind
      → arg.status ≡ status
      → Keeps P (record_payment arg)

  post-Keeps :
      (c : Charge) (kind : Kind) (status : Settled) (work : PaymentRow → Action Result)
      (b : PaymentRow)
      → Posts kind status
      → Keeps P (work b)
      → Keeps P (post c kind status work b)
  unfolding post
  post-Keeps c kind status work b p kw = Keeps-bind _ _ (p _ refl refl) go
    where
      go :
          (recorded : Option ℕ)
          → Keeps P (elim recorded as (λ _. Action Result) [
            | none ↦ pure (plain already_applied b)
            | some id ↦ work b
          ])
      go none = Keeps-pure _
      go (some id) = kw

  intake-Keeps :
      (c : Charge) (kind : Kind) (status : Settled) (work : PaymentRow → Action Result)
      (b : PaymentRow)
      → Posts kind status
      → Keeps P (work b)
      → Keeps P (intake c kind status work b)
  unfolding intake
  intake-Keeps c kind status work b p kw =
      Keeps-bind _ _ (note_event-Keeps c)
        (λ seen. Keeps-if seen _ _ (Keeps-pure _) (post-Keeps c kind status work b p kw))

  return_payment-Keeps : (b : PaymentRow) (x : ℤ) → Keeps P (return_payment b x)
  unfolding return_payment
  return_payment-Keeps b x =
      search
        (
          reading_rules,
          k.releases,
          k.cancels,
          queue_refund-Keeps k.queues,
          cancellation_mail-Keeps k.queues,
        )
        depth 12

  confirm-Keeps : (b : PaymentRow) (c : Charge) → Keeps P (confirm b c)
  unfolding confirm confirmation_letter
  confirm-Keeps b c =
      search
        (
          reading_rules,
          k.confirms,
          confirmation_mail-Keeps k.queues,
          balance_receipt-Keeps k.queues,
        )
        depth 9

  pub settle-Keeps : (b : PaymentRow) (c : Charge) → Keeps P (settle b c)
  unfolding settle
  settle-Keeps b c = search (reading_rules, secure_room-Keeps, return_payment-Keeps, confirm-Keeps)

  collect-Keeps : (p : IsPosted P) (c : Charge) (b : PaymentRow) → Keeps P (collect c b)
  unfolding collect save_card
  collect-Keeps p c b = search (reading_rules, p.adds, k.saves, settle-Keeps) depth 9

  record_charge-Keeps : (p : IsPosted P) (c : Charge) → Keeps P (record_charge c)
  unfolding record_charge
  record_charge-Keeps p c = checked-Keeps (validate c) _ (
      with_booking-Keeps _ _
        (λ b. intake-Keeps c _ _ _ b (λ arg _ _. p.posts arg) (collect-Keeps p c b)))

  note_failure-Keeps : (c : Charge) (b : PaymentRow) → Keeps P (note_failure c b)
  unfolding note_failure
  note_failure-Keeps c b = search (reading_rules, k.flags, balance_failed-Keeps k.queues) depth 9

  pub record_failure-Keeps :
      ((c : Charge) → Posts c.kind failed) → (c : Charge) → Keeps P (record_failure c)
  unfolding record_failure
  record_failure-Keeps p c =
      checked-Keeps (validate c) _
        (with_booking-Keeps _ _ (λ b. intake-Keeps c _ _ _ b (p c) (note_failure-Keeps c b)))

  note_refund-Keeps : (c : Charge) (b : PaymentRow) → Keeps P (note_refund c b)
  unfolding note_refund
  note_refund-Keeps c b = search (reading_rules, k.releases, k.cancels) depth 9

  pub record_refund-Keeps : Posts refund succeeded → (c : Charge) → Keeps P (record_refund c)
  unfolding record_refund
  record_refund-Keeps p c =
      checked-Keeps (validate c) _
        (with_booking-Keeps _ _ (λ b. intake-Keeps c _ _ _ b p (note_refund-Keeps c b)))

  pub recorded : IsPosted P → IsRecorded P
  recorded p = record {
    charges = λ c h. record_charge-Keeps p c;
    failures = record_failure-Keeps (λ c arg _ _. p.posts arg);
    refunds = record_refund-Keeps (λ arg _ _. p.posts arg);
  }

  cancel_found-Keeps : (on : Date) (b : PaymentRow) → Keeps P (cancel_found on b)
  unfolding cancel_found queue_any_refund
  cancel_found-Keeps on b =
      search
        (
          reading_rules,
          k.releases,
          k.cancels,
          queue_refund-Keeps k.queues,
          cancellation_mail-Keeps k.queues,
        )
        depth 16

  pub cancel-Keeps : (code : String) (on : Date) → Keeps P (cancel code on)
  unfolding cancel
  cancel-Keeps code on = with_booking-Keeps code _ (cancel_found-Keeps on)
