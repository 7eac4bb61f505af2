-- ===== src/Kept/Console.antt =====
-- The owners' operations keep what the statements keep.
use Prim.Native.String.{String}
use bealhouse.Prelude.{ℕ, true, List, Option, none, some}
use bealhouse.Prelude.Int.{ℤ}
use bealhouse.Civil.{Date}
use bealhouse.Db.Schema.{Store, Instant}
use bealhouse.Db.Session.{Action, Error}
use bealhouse.Db.Keeps.{
  Keeps, Keeps-bind, Keeps-pure, Keeps-raise, Keeps-raise_if, Keeps-if, Keeps-transaction,
}
use bealhouse.Db.Bookings.{PaymentRow}
use bealhouse.Console.{
  Settlement, ManualBooking, relabel, cancel_stay, or_not_found, queue_owed, refund_stay,
  collect_by_card, request_found, queue_payment_request, request_payment, or_no_booking,
  queue_confirmation, after_create, write_down, create_booking, request_of,
}
use bealhouse.Console.Blocks.{NewBlock, claim_block, block_claim, block_room, unblock}
use bealhouse.Payments.Gateway.{Gateway}
use bealhouse.Kept.Interface.{
  IsKept, IsBooked, IsRecorded, find-Keeps, find_by_code-Keeps, rooms-Keeps,
}
use bealhouse.Kept.Payments.{
  create-Keeps, cancel-Keeps, queue_refund-Keeps, confirmation_mail-Keeps, queue-Keeps,
}
use bealhouse.Kept.Balances.{open_payment-Keeps}
use bealhouse.Kept.Bookings.{create_booking-Keeps}

module _ {P : Store → Type 0} where
  relabel-Keeps :
      {A : Type 0} (f : Error → Error) (m : Action A) → Keeps P m → Keeps P (relabel f m)
  unfolding relabel
  relabel-Keeps f m km = record { at = λ s h. km.at s h }

  or_not_found-Keeps :
      {A : Type 0} (found : Option PaymentRow) (work : PaymentRow → Action A)
      → ((b : PaymentRow) → Keeps P (work b))
      → Keeps P (or_not_found found work)
  or_not_found-Keeps none work kw = Keeps-raise _
  or_not_found-Keeps (some b) work kw = kw b

  or_no_booking-Keeps :
      (found : Option PaymentRow) (work : PaymentRow → Action (Unit {0}))
      → ((b : PaymentRow) → Keeps P (work b))
      → Keeps P (or_no_booking found work)
  or_no_booking-Keeps none work kw = Keeps-raise _
  or_no_booking-Keeps (some b) work kw = kw b

module _ {P : Store → Type 0} (k : IsKept P) where
  pub cancel_stay-Keeps : (code : String) (on : Date) → Keeps P (cancel_stay code on)
  unfolding cancel_stay
  cancel_stay-Keeps code on =
      Keeps-bind _ _ (relabel-Keeps _ _ (cancel-Keeps k code on)) (λ done. Keeps-pure _)

  queue_owed-Keeps : (code : String) (x : ℤ) (b : PaymentRow) → Keeps P (queue_owed code x b)
  unfolding queue_owed
  queue_owed-Keeps code x b =
      Keeps-bind _ _ (Keeps-raise_if _ _) (λ _. queue_refund-Keeps k.queues code x)

  pub refund_stay-Keeps : (code : String) (x : ℤ) → Keeps P (refund_stay code x)
  unfolding refund_stay
  refund_stay-Keeps code x = Keeps-bind _ _ (Keeps-raise_if _ _) (λ _.
      Keeps-bind _ _ (find_by_code-Keeps _)
        (λ found. or_not_found-Keeps found _ (queue_owed-Keeps _ x)))

  request_found-Keeps : (b : PaymentRow) → Keeps P (request_found b)
  unfolding request_found
  request_found-Keeps b = Keeps-bind _ _ (Keeps-raise_if _ _) (λ _.
      Keeps-bind _ _ (Keeps-raise_if _ _) (λ _.
        Keeps-bind _ _ (Keeps-raise_if _ _)
          (λ _. Keeps-bind _ _ (rooms-Keeps _) (λ _. queue-Keeps k.queues _))))

  queue_payment_request-Keeps : (code : String) → Keeps P (queue_payment_request code)
  unfolding queue_payment_request
  queue_payment_request-Keeps code =
      Keeps-bind _ _ (find-Keeps _) (λ found. or_not_found-Keeps found _ request_found-Keeps)

  pub request_payment-Keeps : (code : String) → Keeps P (request_payment code)
  unfolding request_payment
  request_payment-Keeps code = Keeps-transaction _ (queue_payment_request-Keeps _)

  queue_confirmation-Keeps : (code owner : String) → Keeps P (queue_confirmation code owner)
  unfolding queue_confirmation
  queue_confirmation-Keeps code owner =
      Keeps-bind _ _ (find-Keeps _)
        (λ found. or_no_booking-Keeps found _ (λ b. confirmation_mail-Keeps k.queues b _))

  after_create-Keeps :
      (owner : String) (payment : Settlement) (code : String)
      → Keeps P (after_create owner payment code)
  unfolding after_create
  after_create-Keeps owner payment code =
      Keeps-bind _ _ (queue_confirmation-Keeps code owner)
        (λ _. Keeps-if _ _ _ (queue_payment_request-Keeps code) (Keeps-pure tt))

  claim_block-Keeps : (b : NewBlock) → Keeps P (claim_block b)
  unfolding claim_block
  claim_block-Keeps b = record { at = λ s h. (create-Keeps k (block_claim b)).at s h }

  pub block_room-Keeps : (b : NewBlock) → Keeps P (block_room b)
  unfolding block_room
  block_room-Keeps b =
      Keeps-bind _ _ (Keeps-raise_if _ _)
        (λ _. Keeps-bind _ _ (Keeps-raise_if _ _) (λ _. claim_block-Keeps b))

  module _ (w : IsBooked P) where
    pub unblock-Keeps : (id : ℕ) → Keeps P (unblock id)
    unfolding unblock
    unblock-Keeps id = Keeps-bind _ _ (w.unblocks id) (λ n. Keeps-raise_if _ _)

    write_down-Keeps :
        (clock : Instant) (today : Date) (random : ℕ → List ℕ) (owner : String) (m : ManualBooking)
        (payment : Option Settlement)
        → Keeps P (write_down clock today random owner m payment)
    write_down-Keeps clock today random owner m none = Keeps-raise _
    write_down-Keeps clock today random owner m (some payment) = relabel-Keeps _ _ (
        create_booking-Keeps k w clock today random (request_of owner m payment)
          (after_create-Keeps owner payment))

    pub manual_booking-Keeps :
        (clock : Instant) (today : Date) (random : ℕ → List ℕ) (owner : String) (m : ManualBooking)
        → Keeps P (create_booking clock today random owner m)
    unfolding create_booking
    manual_booking-Keeps clock today random owner m =
        Keeps-bind _ _ (Keeps-raise_if _ _)
          (λ _. write_down-Keeps clock today random owner m m.payment)

  pub collect_by_card-Keeps :
      (r : IsRecorded P) (gw : Gateway) (code : String) → Keeps P (collect_by_card gw code)
  unfolding collect_by_card
  collect_by_card-Keeps r gw code = relabel-Keeps _ _ (open_payment-Keeps k r gw _ true)
