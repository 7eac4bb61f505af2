-- ===== src/Booking/Checkout.antt =====
-- The mail of the departure's morning: internal/booking/checkout.go. The names of the rooms and the
-- time of check-out are read and not kept, as the other fields of a mail are.
use Prim.Native.String.{String}
use bealhouse.Prelude.{ℕ, ◌+◌, List, [], ◌∷◌}
use bealhouse.Prelude.Int.{pos}
use bealhouse.Civil.{Date}
use bealhouse.Db.Session.{Action, Outcome, ok, err, Error, pure, transaction, ◌>>=◌, ◌>>◌}
use bealhouse.Db.Bookings.{get_settings, list_booking_rooms}
use bealhouse.Db.Departures.{
  DepartureRow, list_bookings_due_for_checkout_email, mark_checkout_email_sent,
}
use bealhouse.Mail

abbrev pub checkout_job_kind : String
checkout_job_kind = "checkout.remind"

abbrev pub reminder : DepartureRow → Mail.Envelope
reminder d = record {
  recipient = d.guest_email;
  template = "checkout_reminder";
  code = d.code;
  amount_cents = pos 0;
}

-- `remindOne`: the mail and the note that it was sent, together.
unfoldable pub remind_one : DepartureRow → Action (Unit {0})
remind_one d =
    transaction (do list_booking_rooms d.id; Mail.queue (reminder d); mark_checkout_email_sent d.id)

-- The counter and the failures of the loop; a failure does not end it.
abbrev pub tally : Outcome (Unit {0}) → ℕ × List Error → ℕ × List Error
tally (ok _) (sent, failures) = (sent + 1, failures)
tally (err e) (sent, failures) = (sent, e ∷ failures)

unfoldable pub remind_each : List DepartureRow → ℕ × List Error → Action (ℕ × List Error)
remind_each [] t s = (ok t, s)
remind_each (d ∷ ds) t s = let (r, s') = remind_one d s in remind_each ds (tally r t) s'

-- What follows the list: nothing, if nobody leaves.
unfoldable pub remind_all : List DepartureRow → Action (ℕ × List Error)
remind_all [] = pure (0, [])
remind_all (d ∷ ds) = do get_settings; remind_each (d ∷ ds) (0, [])

-- `SendCheckoutEmails`
unfoldable pub send_checkout_emails : Date → Action (ℕ × List Error)
send_checkout_emails on = do due ← list_bookings_due_for_checkout_email on; remind_all due
