-- ===== src/Kept/Checkout.antt =====
-- The mail of the departure's morning keeps what the statements keep.
use bealhouse.Prelude.{ℕ, List, [], ◌∷◌}
use bealhouse.Civil.{Date}
use bealhouse.Db.Schema.{Store}
use bealhouse.Db.Session.{Error}
use bealhouse.Db.Keeps.{Keeps, Keeps-bind, Keeps-pure, Keeps-query, Keeps-transaction}
use bealhouse.Db.Departures.{DepartureRow, list_bookings_due_for_checkout_email}
use bealhouse.Booking.Checkout.{remind_one, tally, remind_each, remind_all, send_checkout_emails}
use bealhouse.Kept.Interface.{IsKept, rooms-Keeps, settings-Keeps}
use bealhouse.Kept.Payments.{queue-Keeps}

module _ {P : Store → Type 0} (k : IsKept P) where
  remind_one-Keeps : (d : DepartureRow) → Keeps P (remind_one d)
  unfolding remind_one
  remind_one-Keeps d = Keeps-transaction _ (
      Keeps-bind _ _ (rooms-Keeps d.id)
        (λ rooms. Keeps-bind _ _ (queue-Keeps k.queues _) (λ _. k.departs d.id)))

  remind_each-Keeps : (ds : List DepartureRow) (t : ℕ × List Error) → Keeps P (remind_each ds t)
  unfolding remind_each
  remind_each-Keeps [] t = record { at = λ s h. h }
  remind_each-Keeps (d ∷ ds) t = record {
    at = λ s h.
        (remind_each-Keeps ds (tally (remind_one d s).0 t)).at (remind_one d s).1
          ((remind_one-Keeps d).at s h);
  }

  remind_all-Keeps : (ds : List DepartureRow) → Keeps P (remind_all ds)
  unfolding remind_all
  remind_all-Keeps [] = Keeps-pure _
  remind_all-Keeps (d ∷ ds) =
      Keeps-bind _ _ settings-Keeps (λ settings. remind_each-Keeps (d ∷ ds) _)

  pub send_checkout_emails-Keeps : (on : Date) → Keeps P (send_checkout_emails on)
  unfolding send_checkout_emails list_bookings_due_for_checkout_email
  send_checkout_emails-Keeps on = Keeps-bind _ _ (Keeps-query _) remind_all-Keeps
