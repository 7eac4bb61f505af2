-- ===== src/Payments/Replay.antt =====
-- A report that was taken in before: what a second delivery of it does.
use Prim.Native.String.{String}
use text.Mathlib.Text.{◌==◌ as str_eq}
use bealhouse.Prelude.{ℕ, ◌≡◌, refl, Bool, true, false, List, Option, none, some, any}
use bealhouse.Prelude.Text.{is_blank}
use bealhouse.Db.Schema.{Store, Booking, Occupancy, Payment, Job, Settled, succeeded, Kind, refund}
use bealhouse.Db.Session.{Action, Session, pure}
use bealhouse.Db.Keeps.{Keeps, Returns, Ensures, Keeps-bind, Keeps-pure, Keeps-statement, Keeps-if}
use bealhouse.Db.Ensures.{Ensures-keeps, Ensures-bind, Ensures-if, Ensures-statement}
use bealhouse.Db.Payments.{
  RecordPaymentParams, record_payment, insert_payment, is_payment, same_payment,
  record_stripe_event, insert_event,
}
use bealhouse.Db.Bookings.{PaymentRow}
use bealhouse.Payments.Charge.{Charge, Result, already_applied, note_event, event_type_of, validate}
use bealhouse.Payments.Record.{
  plain, post, intake, collect, record_charge, note_refund, record_refund,
}
use bealhouse.Kept.Payments.{with_booking-ensured, checked-Keeps}

-- Everything that a payment changes: the bookings with their rooms, the claims, the ledger, the queue.
abbrev pub world : Store → List Booking × List Occupancy × List Payment × List Job
world d = (d.bookings, d.occupancy, d.payments, d.jobs)

-- The ledger has the row, and nothing has changed since.
record IsReplay (id : String) (status : Settled) (before : Store) (d : Store) : Type 0 where
  posted : any (same_payment id status) d.payments ≡ true
  same : world d ≡ world before

module _ (before : Store) (c : Charge) (status : Settled) where
  event-IsReplay :
      (id type : String) (d : Store)
      → IsReplay c.stripe_id status before d
      → IsReplay c.stripe_id status before (insert_event id type d).1
  event-IsReplay id type d h = go _ refl
    where
      go :
          (seen : Bool)
          → any (λ e. str_eq e.0 id) d.stripe_events ≡ seen
          → IsReplay c.stripe_id status before (insert_event id type d).1
      go true e = rw e h
      go false e = rw e (record { posted = h.posted; same = h.same })

  note_event-IsReplay : Keeps (IsReplay c.stripe_id status before) (note_event c)
  unfolding note_event record_stripe_event
  note_event-IsReplay = Keeps-if (is_blank c.event_id) _ _ (Keeps-pure _) (
      Keeps-bind _ _ (Keeps-statement _ (event-IsReplay c.event_id (event_type_of c)))
        (λ n. Keeps-pure _))

  abbrev Repeated : Option ℕ → Store → Type 0
  Repeated none d = IsReplay c.stripe_id status before d
  Repeated (some id) d = ⊥

  abbrev row_for : Kind → ℕ → RecordPaymentParams
  row_for kind id = record {
    booking_id = id;
    stripe_id = c.stripe_id;
    kind = kind;
    amount_cents = c.amount_cents;
    status = status;
  }

  repeated :
      (kind : Kind) (id : ℕ) (d : Store)
      → IsReplay c.stripe_id status before d
      → Returns Repeated
          (insert_payment (row_for kind id) d).0
          (insert_payment (row_for kind id) d).1
  repeated kind id d h = go _ refl
    where
      go :
          (valid : Bool)
          → is_payment (row_for kind id) ≡ valid
          → Returns Repeated
              (insert_payment (row_for kind id) d).0
              (insert_payment (row_for kind id) d).1
      go false e = rw e tt
      go true e = rw (e, h.posted) h

  post-IsReplay :
      (kind : Kind) (work : PaymentRow → Action Result) (b : PaymentRow)
      → Ensures
          (IsReplay c.stripe_id status before)
          (post c kind status work b)
          (λ r. IsReplay c.stripe_id status before)
  unfolding post record_payment
  post-IsReplay kind work b =
      Ensures-bind _ _ Repeated _ (Ensures-statement _ _ (repeated kind b.id)) go
    where
      go :
          (recorded : Option ℕ)
          → Ensures
              (Repeated recorded)
              (elim recorded as (λ _. Action Result) [
                | none ↦ pure (plain already_applied b)
                | some id ↦ work b
              ])
              (λ r. IsReplay c.stripe_id status before)
      go none = Ensures-keeps _ (Keeps-pure _)
      go (some id) = record { at = λ s h. absurd h }

  intake-IsReplay :
      (kind : Kind) (work : PaymentRow → Action Result) (b : PaymentRow)
      → Ensures
          (IsReplay c.stripe_id status before)
          (intake c kind status work b)
          (λ r. IsReplay c.stripe_id status before)
  unfolding intake
  intake-IsReplay kind work b =
      Ensures-bind _ _ (λ seen. IsReplay c.stripe_id status before) _
        (Ensures-keeps _ note_event-IsReplay)
        (λ seen. Ensures-if seen _ _ _ (Ensures-keeps _ (Keeps-pure _)) (post-IsReplay kind work b))

record_charge-IsReplay :
    (before : Store) (c : Charge) → Keeps (IsReplay c.stripe_id succeeded before) (record_charge c)
unfolding record_charge
record_charge-IsReplay before c =
    checked-Keeps (validate c) _
      (with_booking-ensured _ _ (intake-IsReplay before c succeeded c.kind (collect c)))

record_refund-IsReplay :
    (before : Store) (c : Charge) → Keeps (IsReplay c.stripe_id succeeded before) (record_refund c)
unfolding record_refund
record_refund-IsReplay before c =
    checked-Keeps (validate c) _
      (with_booking-ensured _ _ (intake-IsReplay before c succeeded refund (note_refund c)))

-- A successful charge whose id the ledger has already is taken once: reporting it again, whatever the
-- rest of the report says, changes no booking, no claim, no ledger row and no job.
pub charged_once :
    (c : Charge) (s : Session)
    → any (same_payment c.stripe_id succeeded) s.db.payments ≡ true
    → world (record_charge c s).1.db ≡ world s.db
charged_once c s h =
    ((record_charge-IsReplay s.db c).at s (record { posted = h; same = refl })).same

-- The same for a refund: it cancels and releases once.
pub refunded_once :
    (c : Charge) (s : Session)
    → any (same_payment c.stripe_id succeeded) s.db.payments ≡ true
    → world (record_refund c s).1.db ≡ world s.db
refunded_once c s h =
    ((record_refund-IsReplay s.db c).at s (record { posted = h; same = refl })).same
