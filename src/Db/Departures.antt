-- ===== src/Db/Departures.antt =====
-- The statements of internal/db/gen/bookings.sql.go on the mail of the departure's morning.
use Prim.Native.String.{String}
use bealhouse.Prelude.{ℕ, ◌&&◌, Bool, List, [], ◌∷◌, Option, none, some, keep, leb, if◌then◌else◌}
use bealhouse.Prelude.Int.{eqb_ℤ}
use bealhouse.Civil.{Date}
use bealhouse.Db.Schema.{Booking, Guest}
use bealhouse.Db.Session.{Action, query, exec}
use bealhouse.Db.Bookings.{find_guest, is_confirmed, is_null, update_booking}

-- ListBookingsDueForCheckoutEmailRow
pub record DepartureRow : Type 0 where
  pub id : ℕ
  pub code : String
  pub checkin : Date
  pub checkout : Date
  pub guest_email : String
  pub guest_name : String

abbrev pub leaves : Date → Booking → Bool
leaves on b = is_confirmed b.status && eqb_ℤ b.checkout on && is_null b.checkout_email_sent_at

-- `ORDER BY b.id`
unfoldable pub place_row : DepartureRow → List DepartureRow → List DepartureRow
place_row r [] = r ∷ []
place_row r (x ∷ xs) = let rest = place_row r xs in if leb r.id x.id then r ∷ x ∷ xs else x ∷ rest

abbrev pub with_guest : Option Guest → Booking → List DepartureRow → List DepartureRow
with_guest none b rows = rows
with_guest (some g) b rows =
    place_row
      (record {
        id = b.id;
        code = b.code;
        checkin = b.checkin;
        checkout = b.checkout;
        guest_email = g.email;
        guest_name = g.name;
      })
      rows

-- `JOIN guests`, in the order of the ids.
unfoldable pub departures : List Guest → List Booking → List DepartureRow
departures gs [] = []
departures gs (b ∷ bs) = with_guest (find_guest b.guest_id gs) b (departures gs bs)

-- `ListBookingsDueForCheckoutEmail`
unfoldable pub list_bookings_due_for_checkout_email : Date → Action (List DepartureRow)
list_bookings_due_for_checkout_email on =
    query (λ d. departures d.guests (keep (leaves on) d.bookings))

-- `MarkCheckoutEmailSent`
unfoldable pub mark_checkout_email_sent : ℕ → Action (Unit {0})
mark_checkout_email_sent id =
    exec (λ d. update_booking id (λ b. record b { checkout_email_sent_at = some d.now }) d)
