-- ===== src/Db/Nights.antt =====
-- The nights on sale: `ListSellableNights` of internal/db/gen/availability.sql.go.
use Prim.Native.String.{String}
use bealhouse.Prelude.{
  ℕ, Bool, not, ◌&&◌, ◌||◌, List, [], ◌∷◌, ◌++◌, keep, any, map, leb, ◌==◌, if◌then◌else◌,
}
use bealhouse.Prelude.Int.{ℤ, ltb_ℤ, leb_ℤ, eqb_ℤ}
use bealhouse.Civil.{Date}
use bealhouse.Db.Schema.{Occupancy, Room, NightRate, Store}
use bealhouse.Db.Session.{Action, query}
use bealhouse.Db.Availability.{by_date}

-- `o.during @> c.date`
abbrev pub covers : NightRate → Occupancy → Bool
covers c o = o.room_id == c.room_id && leb_ℤ o.checkin c.date && ltb_ℤ c.date o.checkout

abbrev pub is_sellable : Date → Date → ℤ → List Occupancy → Room → NightRate → Bool
is_sellable from to guests os r c =
    c.room_id == r.id
    && leb_ℤ from c.date
    && ltb_ℤ c.date to
    && leb_ℤ guests r.max_occupancy
    && not (any (covers c) os)

-- ListSellableNightsRow
pub record SellableNight : Type 0 where
  pub room_id : ℕ
  pub slug : String
  pub date : Date
  pub min_stay : ℤ

abbrev pub sellable_night : Room → NightRate → SellableNight
sellable_night r c = record {
  room_id = c.room_id;
  slug = r.slug;
  date = c.date;
  min_stay = c.min_stay;
}

-- `ORDER BY r.sort_order, c.room_id, c.date`, where a room stands for its nights.
abbrev pub is_ahead : Room → Room → Bool
is_ahead r x = ltb_ℤ r.sort_order x.sort_order || (eqb_ℤ r.sort_order x.sort_order && leb r.id x.id)

unfoldable pub insert_ahead : Room → List Room → List Room
insert_ahead r [] = r ∷ []
insert_ahead r (x ∷ xs) =
    let rest = insert_ahead r xs in if is_ahead r x then r ∷ x ∷ xs else x ∷ rest

unfoldable pub in_order : List Room → List Room
in_order [] = []
in_order (r ∷ rs) = insert_ahead r (in_order rs)

unfoldable pub sellable_nights : Date → Date → ℤ → Store → List Room → List SellableNight
sellable_nights from to guests d [] = []
sellable_nights from to guests d (r ∷ rs) =
    map (sellable_night r)
      (by_date (keep (is_sellable from to guests d.occupancy r) d.rate_calendar))
    ++ sellable_nights from to guests d rs

-- `ListSellableNights`
unfoldable pub list_sellable_nights : Date → Date → ℤ → Action (List SellableNight)
list_sellable_nights from to guests =
    query (λ d. sellable_nights from to guests d (in_order d.rooms))
