-- ===== src/Tests/Departures.antt =====
-- The mail of the departure's morning, to the one guest of the inn.
use bealhouse.Prelude.{◌≡◌, ◌≢◌, refl, All, keep, [], ◌∷◌}
use bealhouse.Prelude.Int.{pos}
use bealhouse.Prelude.Text.{is_blank}
use bealhouse.Db.Schema.{Store, confirmed}
use bealhouse.Db.Session.{
  ok, pure, raise_if, statement, query, exec, round_trip, enclosed, transaction, ◌>>=◌,
}
use bealhouse.Db.Bookings.{list_booking_rooms}
use bealhouse.Db.Queue.{enqueue_job}
use bealhouse.Db.Departures.{DepartureRow, leaves, place_row, departures, mark_checkout_email_sent}
use bealhouse.Jobs.Enqueue.{enqueue}
use bealhouse.Mail
use bealhouse.Booking.Checkout.{remind_one}
use bealhouse.Booking.Reminded.{IsQueued, written_once}
use bealhouse.Tests.Inn.{empty_inn, stay, calm}

abbrev leaving_inn : Store
leaving_inn = record empty_inn { bookings = stay confirmed ∷ [] }

abbrev leaving : DepartureRow
leaving = record {
  id = 2;
  code = "BH-AAAAAA";
  checkin = pos 20_100;
  checkout = pos 20_102;
  guest_email = "ann@example.com";
  guest_name = "Ann";
}

is_due :
    departures leaving_inn.guests (keep (leaves (pos 20_102)) leaving_inn.bookings) ≡ leaving ∷ []
unfolding departures place_row
is_due = refl

reminded : (remind_one leaving (calm leaving_inn)).0 ≡ ok tt
unfolding remind_one list_booking_rooms Mail.queue is_blank enqueue enqueue_job
    mark_checkout_email_sent raise_if statement query exec round_trip enclosed transaction pure
    ◌>>=◌
reminded = refl

written_once_example :
    IsQueued leaving (remind_one leaving (calm leaving_inn)).1.db
    × All
        (λ q. q.id ≢ leaving.id)
        (departures leaving_inn.guests
          (keep (leaves (pos 20_102)) (remind_one leaving (calm leaving_inn)).1.db.bookings))
written_once_example =
    written_once leaving (calm leaving_inn) reminded (pos 20_102) leaving_inn.guests
