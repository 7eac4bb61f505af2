-- ===== src/Availability/Offers.antt =====
-- The search against the claims: `SearchAvailability` of internal/db/gen/availability.sql.go and the exclusion
-- constraint that `CreateOccupancy` of occupancy.sql.go meets.
use bealhouse.Prelude.{
  ℕ, ◌≤◌, ◌≡◌, refl, ap, ◌∙◌, Bool, true, false, not, ◌&&◌, List, [], ◌∷◌, All, any, keep, count,
  arith,
}
use bealhouse.Prelude.Int.{ℤ, pos, leb_ℤ}
use bealhouse.Civil.{Date, add_days}
use bealhouse.Db.Schema.{Store, Room, Occupancy}
use bealhouse.Db.Session.{Outcome, err, exclusion_violation}
use bealhouse.Db.Occupancy.{CreateOccupancyParams, overlaps, row_of, is_row, insert_occupancy}
use bealhouse.Db.Availability.{is_offered, meets, prices}
use bealhouse.Availability.Spans.{IsRanged, on_night}
use bealhouse.Availability.Nightly.{
  every, is_free_night, is_priced_night, free_nights, offered_by_night,
}

-- Postgres's refusal of a claim because of another one.
abbrev pub is_refused : {A : Type 0} → Outcome A → Bool
is_refused (err exclusion_violation) = true
is_refused r = false

meets_iff_overlaps :
    (n : ℕ) (arg : CreateOccupancyParams) (o : Occupancy)
    → overlaps (row_of n arg) o ≡ meets arg.room_id arg.checkin arg.checkout o
meets_iff_overlaps n arg o = ground arith

any-overlaps :
    (n : ℕ) (arg : CreateOccupancyParams) (os : List Occupancy)
    → any (overlaps (row_of n arg)) os ≡ any (meets arg.room_id arg.checkin arg.checkout) os
any-overlaps n arg [] = refl
any-overlaps n arg (o ∷ os) = rw (meets_iff_overlaps n arg o, any-overlaps n arg os) refl

refused_iff_overlaps :
    (arg : CreateOccupancyParams) (d : Store)
    → is_row (row_of d.next_id arg) ≡ true
    → is_refused (insert_occupancy arg d).0
      ≡ any (meets arg.room_id arg.checkin arg.checkout) d.occupancy
refused_iff_overlaps arg d h = ground (arith, any-overlaps d.next_id arg d.occupancy)

free_claim :
    (r : Room) (arg : CreateOccupancyParams) (d : Store) (n : ℕ)
    → 1 ≤ n
    → arg.room_id ≡ r.id
    → arg.checkout ≡ add_days arg.checkin (pos n)
    → is_row (row_of d.next_id arg) ≡ true
    → All IsRanged d.occupancy
    → not (is_refused (insert_occupancy arg d).0)
      ≡ every (is_free_night r arg.checkin d.occupancy) n
free_claim r arg d n k same_room same_end row ranged =
    ap not (refused_iff_overlaps arg d row)
    ∙ rw (same_room, same_end) (free_nights r arg.checkin d.occupancy n k ranged)

-- The search and the constraint agree: a room is offered for a stay exactly if the room is large
-- enough, every night has its price, the arrival's night asks for no longer a stay, and a claim of any
-- kind on the room for these nights, made at the same time, is not refused because of another claim.
-- The claim is a row that the table's CHECKs admit; the calendar of rates has a night of a room once,
-- and no claim is of no nights.
pub offered_iff_claimable :
    (r : Room) (arg : CreateOccupancyParams) (guests : ℤ) (d : Store) (n : ℕ)
    → 1 ≤ n
    → arg.room_id ≡ r.id
    → arg.checkout ≡ add_days arg.checkin (pos n)
    → is_row (row_of d.next_id arg) ≡ true
    → ((date : Date) → count (on_night r arg.checkin date) d.rate_calendar ≤ 1)
    → All IsRanged d.occupancy
    → is_offered arg.checkin arg.checkout guests d.occupancy r
        (keep (prices r.id arg.checkin arg.checkout) d.rate_calendar)
      ≡ (leb_ℤ guests r.max_occupancy
          && not (is_refused (insert_occupancy arg d).0)
          && every (is_priced_night r arg.checkin d.rate_calendar) n
          && any
              (λ c. on_night r arg.checkin arg.checkin c && leb_ℤ c.min_stay (pos n))
              d.rate_calendar)
offered_iff_claimable r arg guests d n k same_room same_end row key ranged =
    rw (free_claim r arg d n k same_room same_end row ranged, same_end)
      (offered_by_night r arg.checkin guests d.occupancy d.rate_calendar n k key ranged)
