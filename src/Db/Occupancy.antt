-- ===== src/Db/Occupancy.antt =====
-- The statements of internal/db/gen/occupancy.sql.go, and those of payments.sql.go on the same
-- table, under the constraints of migrations/00005_occupancy.sql.
use Prim.Native.String.{String}
use bealhouse.Prelude.{
  ℕ, ◌+◌, Bool, true, false, not, ◌&&◌, ◌∷◌, Option, none, some, length, keep, any, map, leb, ◌==◌,
  if◌then◌else◌,
}
use bealhouse.Prelude.Int.{ltb_ℤ}
use bealhouse.Civil.{Date}
use bealhouse.Db.Schema.{Instant, Claim, booking, hold, block, Occupancy, Store}
use bealhouse.Db.Session.{
  Action, Outcome, ok, err, check_violation, exclusion_violation, foreign_key_violation, statement,
  query,
}

abbrev pub is_hold : Claim → Bool
is_hold hold = true
is_hold booking = false
is_hold block = false

abbrev pub is_block : Claim → Bool
is_block block = true
is_block booking = false
is_block hold = false

-- `booking_id = $1`; NULL is equal to nothing.
abbrev pub is_for : ℕ → Occupancy → Bool
is_for id o = elim o.booking_id [ none ↦ false | some b ↦ b == id ]

-- `expires_at <= now()`
abbrev pub is_lapsed : Instant → Occupancy → Bool
is_lapsed now o = elim o.expires_at [ none ↦ false | some t ↦ leb t now ]

-- `room_id WITH =, during WITH &&`
abbrev pub overlaps : Occupancy → Occupancy → Bool
overlaps a b = a.room_id == b.room_id && ltb_ℤ a.checkin b.checkout && ltb_ℤ b.checkin a.checkout

abbrev pub expires : Option Instant → Bool
expires none = false
expires (some t) = true

-- The CHECKs of the table: the span is not empty, and holds and nothing else expire.
abbrev pub is_row : Occupancy → Bool
is_row o =
    ltb_ℤ o.checkin o.checkout
    && (if is_hold o.kind then expires o.expires_at else not (expires o.expires_at))

pub record CreateOccupancyParams : Type 0 where
  pub room_id : ℕ
  pub checkin : Date
  pub checkout : Date
  pub kind : Claim
  pub source : String
  pub booking_id : Option ℕ
  pub expires_at : Option Instant

abbrev pub row_of : ℕ → CreateOccupancyParams → Occupancy
row_of id arg = record {
  id = id;
  room_id = arg.room_id;
  checkin = arg.checkin;
  checkout = arg.checkout;
  kind = arg.kind;
  source = arg.source;
  booking_id = arg.booking_id;
  expires_at = arg.expires_at;
}

-- The room is one, and so is the booking, if it names one.
abbrev pub is_referring : CreateOccupancyParams → Store → Bool
is_referring arg d =
    any (λ r. r.id == arg.room_id) d.rooms
    && elim arg.booking_id [ none ↦ true | some id ↦ any (λ b. b.id == id) d.bookings ]

abbrev pub insert_occupancy : CreateOccupancyParams → Store → Outcome ℕ × Store
insert_occupancy arg d =
    let row = row_of d.next_id arg in
    if not (is_row row)
    then (err check_violation, d)
    else if any (overlaps row) d.occupancy
    then (err exclusion_violation, d)
    else if not (is_referring arg d)
    then (err foreign_key_violation, d)
    else (ok d.next_id, record d { next_id = d.next_id + 1; occupancy = row ∷ d.occupancy })

-- `CreateOccupancy`; the advisory lock only orders the claims that wait for one another.
unfoldable pub create_occupancy : CreateOccupancyParams → Action ℕ
create_occupancy arg = statement (insert_occupancy arg)

abbrev pub promote : ℕ → Occupancy → Occupancy
promote id o =
    if is_for id o && is_hold o.kind then record o { kind = booking; expires_at = none } else o

-- `PromoteHoldToBooking`, with the number of rows that it changed.
unfoldable pub promote_hold_to_booking : ℕ → Action ℕ
promote_hold_to_booking id = statement (λ d. (
  ok (length (keep (λ o. is_for id o && is_hold o.kind) d.occupancy)),
  record d { occupancy = map (promote id) d.occupancy },
))

-- `CountBookingOccupancy`
unfoldable pub count_booking_occupancy : ℕ → Action ℕ
count_booking_occupancy id = query (λ d. length (keep (is_for id) d.occupancy))

-- `ReleaseBookingOccupancy`
unfoldable pub release_booking_occupancy : ℕ → Action ℕ
release_booking_occupancy id = statement (λ d. (
  ok (length (keep (is_for id) d.occupancy)),
  record d { occupancy = keep (λ o. not (is_for id o)) d.occupancy },
))

-- `DeleteOccupancy`
unfoldable pub delete_occupancy : ℕ → Action ℕ
delete_occupancy id = statement (λ d. (
  ok (length (keep (λ o. o.id == id) d.occupancy)),
  record d { occupancy = keep (λ o. not (o.id == id)) d.occupancy },
))

-- `DeleteBlock` of console.sql.go
unfoldable pub delete_block : ℕ → Action ℕ
delete_block id = statement (λ d. (
  ok (length (keep (λ o. o.id == id && is_block o.kind) d.occupancy)),
  record d { occupancy = keep (λ o. not (o.id == id && is_block o.kind)) d.occupancy },
))

-- `SweepExpiredHolds`
unfoldable pub sweep_expired_holds : Action ℕ
sweep_expired_holds = statement (λ d. (
  ok (length (keep (λ o. is_hold o.kind && is_lapsed d.now o) d.occupancy)),
  record d { occupancy = keep (λ o. not (is_hold o.kind && is_lapsed d.now o)) d.occupancy },
))
