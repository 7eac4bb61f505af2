-- ===== src/Availability/Calendar.antt =====
-- The calendar of the date picker: internal/availability/calendar.go. Dates stay dates, where the
-- source formats them for JSON.
use Prim.Native.String.{String}
use text.Mathlib.Text.{◌==◌ as str_eq}
use bealhouse.Prelude.{
  ℕ, Bool, true, not, ◌||◌, List, [], ◌∷◌, ◌++◌, Option, none, some, if◌then◌else◌,
}
use bealhouse.Prelude.Int.{ℤ, pos, ltb_ℤ, eqb_ℤ}
use bealhouse.Prelude.Int64.{wrap32}
use bealhouse.Civil.{Date, add_days, before, after}
use bealhouse.Civil.Months.{add_months}
use bealhouse.Db.Session.{Action, pure, ◌>>=◌}
use bealhouse.Db.Bookings.{get_settings}
use bealhouse.Db.Nights.{SellableNight, list_sellable_nights}

abbrev pub default_calendar_months : ℕ
default_calendar_months = 12

-- rates.HorizonMonths
abbrev pub horizon_months : ℕ
horizon_months = 24

-- `none` is the zero time, of a request that does not say.
pub record CalendarRequest : Type 0 where
  pub from : Option Date
  pub to : Option Date
  pub guests : ℤ

-- An unbroken run of sellable nights in one room.
pub record Span : Type 0 where
  pub start : Date
  pub min_stays : List ℤ

pub record RoomSpans : Type 0 where
  pub slug : String
  pub spans : List Span

pub record Calendar : Type 0 where
  pub from : Date
  pub to : Date
  pub guests : ℤ
  pub rooms : List RoomSpans
  pub max_stay_nights : ℤ

-- `x := &xs[len(xs)-1]`, and what is done to it.
unfoldable pub at_last : {A : Type 0} → (A → A) → List A → List A
at_last f [] = []
at_last f (x ∷ []) = f x ∷ []
at_last f (x ∷ y ∷ ys) = x ∷ at_last f (y ∷ ys)

-- `roomIdx < 0 || out[roomIdx].Slug != row.Slug`, where `roomIdx` is the last.
unfoldable pub is_new_room : String → List RoomSpans → Bool
is_new_room slug [] = true
is_new_room slug (x ∷ []) = not (str_eq x.slug slug)
is_new_room slug (x ∷ y ∷ ys) = is_new_room slug (y ∷ ys)

abbrev pub open_room : Bool → String → List RoomSpans → List RoomSpans
open_room new_room slug out =
    if new_room then out ++ (record { slug = slug; spans = [] } ∷ []) else out

abbrev pub open_run : Bool → Date → List Span → List Span
open_run new_run night spans =
    if new_run then spans ++ (record { start = night; min_stays = [] } ∷ []) else spans

abbrev pub add_stay : ℤ → Span → Span
add_stay stay x = record x { min_stays = x.min_stays ++ (stay ∷ []) }

abbrev pub append_night : Bool → Bool → SellableNight → List RoomSpans → List RoomSpans
append_night new_room new_run row out =
    at_last
      (λ room. record room {
        spans = at_last (add_stay row.min_stay) (open_run new_run row.date room.spans);
      })
      (open_room new_room row.slug out)

-- The body of the loop of `group`.
unfoldable pub stitch : List RoomSpans → Date → SellableNight → List RoomSpans
stitch out prev row =
    let new_room = is_new_room row.slug out in
    append_night new_room (new_room || not (eqb_ℤ row.date (add_days prev (pos 1)))) row out

unfoldable pub group_from : List RoomSpans → Date → List SellableNight → List RoomSpans
group_from out prev [] = out
group_from out prev (row ∷ rows) = group_from (stitch out prev row) row.date rows

-- `group`: `prev` is read when there is a room only.
unfoldable pub group : List SellableNight → List RoomSpans
group rows = group_from [] (pos 0) rows

abbrev pub or_zero : Option Date → Date → Date
or_zero none other = other
or_zero (some d) other = d

abbrev pub from_today : Option Date → Date → Date
from_today none today = today
from_today (some d) today = if before d today then today else d

abbrev pub not_empty : Date → Date → Date
not_empty from to = if not (after to from) then add_days from (pos 1) else to

unfoldable pub clamp : Option Date → Option Date → Date → Date × Date
clamp from to today =
    let start = from_today from today in
    let horizon = add_months today horizon_months in
    let wanted = or_zero to (add_months start default_calendar_months) in
    let held = if after wanted horizon then horizon else wanted in (start, not_empty start held)

-- `Spans`, where `civil.Today()` is an argument.
unfoldable pub spans : Date → CalendarRequest → Action Calendar
spans today req = do
  let window = clamp req.from req.to today
  let guests = if ltb_ℤ req.guests (pos 1) then pos 1 else req.guests
  settings ← get_settings
  rows ← list_sellable_nights window.0 window.1 (wrap32 guests)
  pure (record {
    from = window.0;
    to = window.1;
    guests = guests;
    rooms = group rows;
    max_stay_nights = settings.max_stay_nights;
  })
