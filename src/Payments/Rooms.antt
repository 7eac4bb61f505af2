-- ===== src/Payments/Rooms.antt =====
-- `secureRoom` of internal/payments/payments.go.
use bealhouse.Prelude.{ℕ, Bool, true, false, List, [], ◌∷◌, some, none, ltb, if◌then◌else◌}
use bealhouse.Db.Schema.{booking, BookingRoom, Store}
use bealhouse.Db.Session.{
  Action, Outcome, ok, err, Error, room_taken, pure, round_trip, ◌>>=◌, ◌>>◌,
}
use bealhouse.Db.Occupancy.{CreateOccupancyParams, promote_hold_to_booking, count_booking_occupancy}
use bealhouse.Db.Bookings.{PaymentRow, list_booking_rooms}
use bealhouse.Occupancy.{create}

-- A room that somebody else has is an answer; any other error ends the work.
abbrev pub refused : Error → Outcome Bool
refused room_taken = ok false
refused e = err e

abbrev pub claim_of : PaymentRow → BookingRoom → CreateOccupancyParams
claim_of b room = record {
  room_id = room.room_id;
  checkin = room.checkin;
  checkout = room.checkout;
  kind = booking;
  source = "direct";
  booking_id = some b.id;
  expires_at = none;
}

-- RELEASE after a claim, and ROLLBACK TO SAVEPOINT after a failed one.
unfoldable pub after_claim : Outcome ℕ → Store → Action Bool
after_claim (ok id) before s = (do round_trip; pure true) s
after_claim (err e) before s = (refused e, record s { db = before })

-- The claim inside its savepoint.
unfoldable pub attempt : PaymentRow → BookingRoom → Action Bool
attempt b room s = let (r, s') = create (claim_of b room) s in after_claim r s.db s'

unfoldable pub claim_rooms : PaymentRow → List BookingRoom → Action Bool
claim_rooms b [] = pure true
claim_rooms b (room ∷ rooms) =
    let others = claim_rooms b rooms in
    do round_trip; claimed ← attempt b room; if claimed then others else pure false

-- Nothing remains of the hold: take the rooms back, if the booking has any.
unfoldable pub reclaim : PaymentRow → Action Bool
reclaim b = do
  rooms ← list_booking_rooms b.id
  elim rooms [ [] ↦ pure false | room ∷ more ↦ claim_rooms b (room ∷ more) ]

-- The hold is gone, but a booking that is confirmed may still occupy its rooms.
unfoldable pub held_or_reclaimed : PaymentRow → Action Bool
held_or_reclaimed b = do
  held ← count_booking_occupancy b.id
  if ltb 0 held then pure true else reclaim b

unfoldable pub secure_room : PaymentRow → Action Bool
secure_room b = do
  promoted ← promote_hold_to_booking b.id
  if ltb 0 promoted then pure true else held_or_reclaimed b
