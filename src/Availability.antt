-- ===== src/Availability.antt =====
-- `Search` of internal/availability/availability.go: which rooms can be sold for a stay, priced. What
-- only describes a room (its beds, photographs and amenities) is read and not kept.
pub mod Calendar
pub mod Offers
pub mod Arrival
pub mod Spans
pub mod Nightly
pub mod Answers
pub mod Picker
pub mod Agreement
pub mod Runs
pub mod Stitched
use Prim.Native.String.{String}
use bealhouse.Prelude.{ℕ, Bool, not, ◌&&◌, List, [], ◌∷◌, map, if◌then◌else◌}
use bealhouse.Prelude.Int.{ℤ, pos, ltb_ℤ}
use bealhouse.Prelude.Int64.{wrap32}
use bealhouse.Civil.{Date, nights, before, after}
use bealhouse.Pricing.{Quote, compute}
use bealhouse.Db.Schema.{Settings}
use bealhouse.Db.Session.{
  Action, Outcome, ok, err, pure, raise, round_trip, ◌>>=◌, ◌>>◌, checkout_not_after_checkin,
  checkin_in_past, guests_out_of_range, stay_too_long,
}
use bealhouse.Db.Bookings.{get_settings}
use bealhouse.Db.Availability.{OfferRow, search_availability}

pub record Request : Type 0 where
  pub checkin : Date
  pub checkout : Date
  pub guests : ℤ

-- One sellable result, priced.
pub record Room : Type 0 where
  pub id : ℕ
  pub slug : String
  pub name : String
  pub max_occupancy : ℤ
  pub nightly_cents : List ℤ
  pub quote : Quote

-- `civil.Today()` is an argument.
unfoldable pub validate : Date → Request → ℤ → Outcome (Unit {0})
validate today req max_stay_nights =
    if not (after req.checkout req.checkin)
    then err checkout_not_after_checkin
    else if before req.checkin today
    then err checkin_in_past
    else if ltb_ℤ req.guests (pos 1)
    then err guests_out_of_range
    else if ltb_ℤ (pos 0) max_stay_nights && ltb_ℤ max_stay_nights (nights req.checkin req.checkout)
    then err stay_too_long
    else ok tt

abbrev pub priced : Settings → OfferRow → Room
priced s row = record {
  id = row.room.id;
  slug = row.room.slug;
  name = row.room.name;
  max_occupancy = row.room.max_occupancy;
  nightly_cents = row.nightly_prices;
  quote = compute (record { nightly_cents = row.nightly_prices; tax_rate = s.tax_rate_scaled });
}

-- `bedsByRoom` and `photosByRoom`: a query each, if there is a room.
unfoldable pub read_content : List OfferRow → Action (Unit {0})
read_content [] = pure tt
read_content (row ∷ rows) = do round_trip; round_trip

unfoldable pub search_valid : Settings → Request → Action (List Room)
search_valid s req = do
  rows ← search_availability req.checkin req.checkout (wrap32 req.guests)
  read_content rows
  pure (map (priced s) rows)

abbrev pub checked {ℓ} : {A : Type 0} → {E : Type ℓ} → Outcome E → Action A → Action A
checked (ok _) body = body
checked (err e) body = raise e

-- `Search`
unfoldable pub search_rooms : Date → Request → Action (List Room)
search_rooms today req = do
  s ← get_settings
  checked (validate today req s.max_stay_nights) (search_valid s req)
