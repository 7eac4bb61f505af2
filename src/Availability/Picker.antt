-- ===== src/Availability/Picker.antt =====
-- The calendar of internal/availability/calendar.go against the search of availability.go: what the one
-- shows and what the other offers.
use bealhouse.Prelude.{
  ℕ, ◌≤◌, ◌<◌, ◌≡◌, refl, sym, ap, ◌∙◌, Bool, true, false, not, ◌&&◌, List, [], All, any, count,
  arith, ◌==◌,
}
use bealhouse.Prelude.Int.{ℤ, pos, negsuc, leb_ℤ, ltb_ℤ, eqb_ℤ, +ℤ_parts, eq_of_parts}
use bealhouse.Prelude.Int64.{two31, wrap32, wrap32_pos}
use bealhouse.Prelude.Counts.{any-imply, any-some}
use bealhouse.Civil.{Date, add_days, before, after, nights}
use bealhouse.Db.Schema.{Store, Settings, Occupancy, NightRate}
use bealhouse.Db.Schema
use bealhouse.Db.Session.{ok}
use bealhouse.Db.Availability.{by_order}
use bealhouse.Db.Nights.{covers, is_sellable}
use bealhouse.Availability.{validate, search_rooms}
use bealhouse.Availability.Answers.{IsAmong, has_room, listed, ordered, search-calm}
use bealhouse.Availability.Spans.{IsRanged, on_night, night_of, is_taken, length_of_stay}
use bealhouse.Availability.Nightly.{
  every, every-all, is_free_night, is_priced_night, offered_by_night,
}

fits :
    (guests most : ℤ)
    → ltb_ℤ guests (pos 1) ≡ false
    → leb_ℤ guests most ≡ true
    → ltb_ℤ most (pos two31) ≡ true
    → wrap32 guests ≡ guests
fits (pos k) most one large small = wrap32_pos k (ground arith)
fits (negsuc k) most one large small = absurd (ground arith)

module _ (r : Schema.Room) (checkin : Date) where
  module _ (from to : Date) (guests : ℤ) (os : List Occupancy) where
    -- A night that the calendar shows.
    abbrev pub on_sale : ℕ → NightRate → Bool
    on_sale i c = is_sellable from to guests os r c && eqb_ℤ c.date (night_of r checkin i)

    shown-priced :
        (i : ℕ) (c : NightRate)
        → on_sale i c ≡ true
        → on_night r checkin (night_of r checkin i) c ≡ true
    shown-priced i c h = ground arith

    shown-untaken :
        (i : ℕ) (c : NightRate)
        → on_sale i c ≡ true
        → any (is_taken r checkin (night_of r checkin i)) os ≡ false
    shown-untaken i c h =
        sym (same_day (ground arith) (eq_of_parts c.date (night_of r checkin i) (ground arith)))
        ∙ ground arith
      where
        same_day :
            c.room_id ≡ r.id
            → c.date ≡ night_of r checkin i
            → any (covers c) os ≡ any (is_taken r checkin (night_of r checkin i)) os
        same_day e f =
            ap
              (λ m.
                any (λ o. o.room_id == m && leb_ℤ o.checkin c.date && ltb_ℤ c.date o.checkout) os)
              e
            ∙ ap (λ d. any (is_taken r checkin d) os) f

    shown-arrives :
        (stay : ℤ) (c : NightRate)
        → (on_sale 0 c && leb_ℤ c.min_stay stay) ≡ true
        → (on_night r checkin checkin c && leb_ℤ c.min_stay stay) ≡ true
    unfolding add_days
    shown-arrives stay c h = ground (arith, +ℤ_parts checkin (pos 0))

    shown-large : (i : ℕ) (c : NightRate) → on_sale i c ≡ true → leb_ℤ guests r.max_occupancy ≡ true
    shown-large i c h = ground arith

ends_later : (checkin : Date) (n : ℕ) → 1 ≤ n → after (add_days checkin (pos n)) checkin ≡ true
unfolding add_days
ends_later checkin n k = ground (arith, +ℤ_parts checkin (pos n))

pub takes :
    (today checkin : Date) (guests most : ℤ) (n : ℕ)
    → 1 ≤ n
    → before checkin today ≡ false
    → ltb_ℤ guests (pos 1) ≡ false
    → (ltb_ℤ (pos 0) most && ltb_ℤ most (pos n)) ≡ false
    → validate today
        (record { checkin = checkin; checkout = add_days checkin (pos n); guests = guests })
        most
      ≡ ok tt
unfolding validate nights
takes today checkin guests most n k not_past one short =
    rw (ends_later checkin n k, not_past, one, length_of_stay checkin n, short) refl

-- What the calendar shows can be booked: if every night of a stay is shown for a room and the stay is
-- no shorter than the minimum shown on its first night, a search for the stay that meets no failing
-- statement answers with the room. The stay begins today or later and is no longer than the longest
-- stay that the settings allow; there is a guest at least. The room is a row of the table, whose
-- column for its size is a 32-bit integer; the calendar of rates has a night of a room once, and no
-- claim is of no nights.
pub shown_is_offered :
    (r : Schema.Room) (today checkin from to : Date) (guests : ℤ) (d : Store) (n : ℕ)
    → IsAmong r d.rooms
    → ltb_ℤ r.max_occupancy (pos two31) ≡ true
    → 1 ≤ n
    → before checkin today ≡ false
    → ltb_ℤ guests (pos 1) ≡ false
    → (ltb_ℤ (pos 0) d.settings.max_stay_nights && ltb_ℤ d.settings.max_stay_nights (pos n)) ≡ false
    → ((date : Date) → count (on_night r checkin date) d.rate_calendar ≤ 1)
    → All IsRanged d.occupancy
    → ((i : ℕ)
        → i < n
        → any (on_sale r checkin from to guests d.occupancy i) d.rate_calendar ≡ true)
    → any
        (λ c. on_sale r checkin from to guests d.occupancy 0 c && leb_ℤ c.min_stay (pos n))
        d.rate_calendar
      ≡ true
    → has_room r.id
        (search_rooms today
          (record { checkin = checkin; checkout = add_days checkin (pos n); guests = guests })
          (record { db = d; fate = [] })).0
      ≡ true
shown_is_offered r today checkin from to guests d n among column k not_past one short key ranged
      shown arrives =
    rw
      (
        search-calm today checkin (add_days checkin (pos n)) guests d
            (takes today checkin guests d.settings.max_stay_nights n k not_past one short),
        fits guests r.max_occupancy one large column,
      )
      (listed checkin (add_days checkin (pos n)) guests d r (by_order d.rooms)
        (ordered r d.rooms among)
        (offered_by_night r checkin guests d.occupancy d.rate_calendar n k key ranged
          ∙ rw (large, free, has_price, arrival) refl))
  where
    large : leb_ℤ guests r.max_occupancy ≡ true
    large =
        let (c, h) =
          any-some (on_sale r checkin from to guests d.occupancy 0) d.rate_calendar (shown 0 k) in
        shown-large r checkin from to guests d.occupancy 0 c h

    free : every (is_free_night r checkin d.occupancy) n ≡ true
    free = every-all _ n (λ i h.
        let (c, e) =
          any-some (on_sale r checkin from to guests d.occupancy i) d.rate_calendar (shown i h) in
        ap not (shown-untaken r checkin from to guests d.occupancy i c e))

    has_price : every (is_priced_night r checkin d.rate_calendar) n ≡ true
    has_price = every-all _ n (λ i h.
        any-imply _ _ (shown-priced r checkin from to guests d.occupancy i) d.rate_calendar
          (shown i h))

    arrival :
        any (λ c. on_night r checkin checkin c && leb_ℤ c.min_stay (pos n)) d.rate_calendar ≡ true
    arrival =
        any-imply _ _ (shown-arrives r checkin from to guests d.occupancy (pos n)) d.rate_calendar
          arrives
