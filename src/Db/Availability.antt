-- ===== src/Db/Availability.antt =====
-- The search of internal/db/gen/availability.sql.go.
use bealhouse.Prelude.{
  ℕ, Bool, false, not, ◌&&◌, List, [], ◌∷◌, Option, none, some, length, keep, any, map, ◌==◌,
  if◌then◌else◌,
}
use bealhouse.Prelude.Int.{ℤ, pos, ◌-ℤ◌, ltb_ℤ, leb_ℤ, eqb_ℤ}
use bealhouse.Civil.{Date}
use bealhouse.Db.Schema.{Occupancy, Room, NightRate, Store}
use bealhouse.Db.Session.{Action, query}

-- `during && daterange(checkin, checkout, '[)')` on a room.
abbrev pub meets : ℕ → Date → Date → Occupancy → Bool
meets room checkin checkout o =
    o.room_id == room && ltb_ℤ o.checkin checkout && ltb_ℤ checkin o.checkout

-- `JOIN rate_calendar`: the priced nights of a stay.
abbrev pub prices : ℕ → Date → Date → NightRate → Bool
prices room checkin checkout c = c.room_id == room && leb_ℤ checkin c.date && ltb_ℤ c.date checkout

-- `array_agg(… ORDER BY c.date)`
unfoldable pub insert_by_date : NightRate → List NightRate → List NightRate
insert_by_date c [] = c ∷ []
insert_by_date c (x ∷ xs) =
    let rest = insert_by_date c xs in if leb_ℤ c.date x.date then c ∷ x ∷ xs else x ∷ rest

unfoldable pub by_date : List NightRate → List NightRate
by_date [] = []
by_date (c ∷ cs) = insert_by_date c (by_date cs)

-- `max(c.min_stay) FILTER (WHERE c.date = checkin)`; `none` is NULL.
abbrev pub longest : Option ℤ → Option ℤ → Option ℤ
longest none b = b
longest (some x) none = some x
longest (some x) (some y) = if ltb_ℤ x y then some y else some x

unfoldable pub arrival_stay : Date → List NightRate → Option ℤ
arrival_stay checkin [] = none
arrival_stay checkin (c ∷ cs) =
    let rest = arrival_stay checkin cs in
    if eqb_ℤ c.date checkin then longest (some c.min_stay) rest else rest

-- A comparison with NULL is not true.
abbrev pub at_least : ℤ → Option ℤ → Bool
at_least nights none = false
at_least nights (some stay) = leb_ℤ stay nights

abbrev pub count_of : List NightRate → ℤ
count_of cs = pos (length cs)

-- `WHERE` and `HAVING`, on the room and its priced nights.
abbrev pub is_offered : Date → Date → ℤ → List Occupancy → Room → List NightRate → Bool
is_offered checkin checkout guests os r cs =
    leb_ℤ guests r.max_occupancy
    && not (any (meets r.id checkin checkout) os)
    && eqb_ℤ (count_of cs) (checkout -ℤ checkin)
    && at_least (checkout -ℤ checkin) (arrival_stay checkin cs)

-- SearchAvailabilityRow; what only describes a room is left out.
pub record OfferRow : Type 0 where
  pub room : Room
  pub nightly_prices : List ℤ

abbrev pub offer_row : Room → List NightRate → OfferRow
offer_row r cs = record { room = r; nightly_prices = map (λ c. c.price_cents) (by_date cs) }

-- `GROUP BY r.id`: a group is a room with a priced night at least.
unfoldable pub offers : Date → Date → ℤ → Store → List Room → List OfferRow
offers checkin checkout guests d [] = []
offers checkin checkout guests d (r ∷ rs) =
    let nights = keep (prices r.id checkin checkout) d.rate_calendar in
    let rest = offers checkin checkout guests d rs in
    if is_offered checkin checkout guests d.occupancy r nights
    then offer_row r nights ∷ rest
    else rest

-- `ORDER BY r.sort_order`
unfoldable pub insert_by_order : Room → List Room → List Room
insert_by_order r [] = r ∷ []
insert_by_order r (x ∷ xs) =
    let rest = insert_by_order r xs in
    if leb_ℤ r.sort_order x.sort_order then r ∷ x ∷ xs else x ∷ rest

unfoldable pub by_order : List Room → List Room
by_order [] = []
by_order (r ∷ rs) = insert_by_order r (by_order rs)

-- `SearchAvailability`
unfoldable pub search_availability : Date → Date → ℤ → Action (List OfferRow)
search_availability checkin checkout guests =
    query (λ d. offers checkin checkout guests d (by_order d.rooms))
