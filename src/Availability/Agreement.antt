-- ===== src/Availability/Agreement.antt =====
-- The calendar of internal/availability/calendar.go and the search of availability.go say the same.
use bealhouse.Prelude.{
  ℕ, ◌≤◌, ◌<◌, ◌≡◌, refl, sym, ap, ◌∙◌, Bool, true, false, ◌&&◌, List, [], All, any, keep, count,
  map, arith, ◌==◌,
}
use bealhouse.Prelude.Int.{ℤ, pos, negsuc, leb_ℤ, ltb_ℤ, +ℤ_parts, eq_of_parts}
use bealhouse.Prelude.Int64.{two31, wrap32, wrap32_pos}
use bealhouse.Prelude.Counts.{any-imply}
use bealhouse.Civil.{Date, add_days, before}
use bealhouse.Db.Schema.{Store, Occupancy, NightRate}
use bealhouse.Db.Schema
use bealhouse.Db.Availability.{prices, offers, is_offered, by_order}
use bealhouse.Db.Nights.{covers}
use bealhouse.Availability.{priced, search_rooms}
use bealhouse.Availability.Answers.{
  IsAmong, IsOnly, has_room, listed_only, ordered-IsOnly, search-calm,
}
use bealhouse.Availability.Spans.{IsRanged, on_night, night_of, is_taken}
use bealhouse.Availability.Nightly.{
  every, every-at, every-all, same_test, is_free_night, is_priced_night, offered_by_night,
}
use bealhouse.Availability.Picker.{on_sale, takes, shown_is_offered}

both : {a b : Bool} → a ≡ true → b ≡ true → (a && b) ≡ true
both e f = rw (e, f) refl

and_left : (a b : Bool) → (a && b) ≡ true → a ≡ true
and_left true b e = refl
and_left false b e = e

and_right : (a b : Bool) → (a && b) ≡ true → b ≡ true
and_right true b e = e
and_right false b e = cc

fits_32 :
    (guests : ℤ)
    → ltb_ℤ guests (pos 1) ≡ false
    → ltb_ℤ guests (pos two31) ≡ true
    → wrap32 guests ≡ guests
fits_32 (pos k) one small = wrap32_pos k (ground arith)
fits_32 (negsuc k) one small = absurd (ground arith)

module _ (r : Schema.Room) (checkin from to : Date) (guests : ℤ) (os : List Occupancy) where
  -- What a night has to be for the calendar to show it, but for its price.
  abbrev in_reach : ℕ → Bool
  in_reach i =
      leb_ℤ from (night_of r checkin i)
      && ltb_ℤ (night_of r checkin i) to
      && leb_ℤ guests r.max_occupancy
      && is_free_night r checkin os i

  covers_night :
      (i : ℕ) (c : NightRate)
      → on_night r checkin (night_of r checkin i) c ≡ true
      → any (covers c) os ≡ any (is_taken r checkin (night_of r checkin i)) os
  covers_night i c h =
      same_day (ground arith) (eq_of_parts c.date (night_of r checkin i) (ground arith))
    where
      same_day :
          c.room_id ≡ r.id
          → c.date ≡ night_of r checkin i
          → any (covers c) os ≡ any (is_taken r checkin (night_of r checkin i)) os
      same_day e f =
          ap
            (λ m. any (λ o. o.room_id == m && leb_ℤ o.checkin c.date && ltb_ℤ c.date o.checkout) os)
            e
          ∙ ap (λ d. any (is_taken r checkin d) os) f

  -- A price makes a night that is in reach a night on sale.
  on_sale-night :
      (i : ℕ) (c : NightRate)
      → in_reach i ≡ true
      → on_night r checkin (night_of r checkin i) c ≡ true
      → on_sale r checkin from to guests os i c ≡ true
  on_sale-night i c h k = ground (arith, covers_night i c k)

  in_window :
      (n i : ℕ)
      → i < n
      → leb_ℤ from checkin ≡ true
      → leb_ℤ (night_of r checkin n) to ≡ true
      → (leb_ℤ from (night_of r checkin i) && ltb_ℤ (night_of r checkin i) to) ≡ true
  unfolding add_days
  in_window n i h f t = ground (arith, +ℤ_parts checkin (pos n), +ℤ_parts checkin (pos i))

  first_night :
      (c : NightRate)
      → on_night r checkin checkin c ≡ true
      → on_night r checkin (night_of r checkin 0) c ≡ true
  unfolding add_days
  first_night c h = ground (arith, +ℤ_parts checkin (pos 0))

  module _ (cal : List NightRate) (n : ℕ) (k : 1 ≤ n) (begins : leb_ℤ from checkin ≡ true)
      (ends : leb_ℤ (night_of r checkin n) to ≡ true) (large : leb_ℤ guests r.max_occupancy ≡ true)
      (free : every (is_free_night r checkin os) n ≡ true) where
    reached : (i : ℕ) → i < n → in_reach i ≡ true
    reached i h = ground (
      arith,
      in_window n i h begins ends,
      large,
      every-at (is_free_night r checkin os) n i free h,
    )

    all_shown :
        every (is_priced_night r checkin cal) n ≡ true
        → every (λ i. any (on_sale r checkin from to guests os i) cal) n ≡ true
    all_shown priced_all = every-all _ n (λ i h.
        any-imply _ _ (λ c. on_sale-night i c (reached i h)) cal
          (every-at (is_priced_night r checkin cal) n i priced_all h))

    arrival_shown :
        any (λ c. on_night r checkin checkin c && leb_ℤ c.min_stay (pos n)) cal ≡ true
        → any (λ c. on_sale r checkin from to guests os 0 c && leb_ℤ c.min_stay (pos n)) cal ≡ true
    arrival_shown h =
        any-imply _ _
          (λ c e.
            both (on_sale-night 0 c (reached 0 k) (first_night c (and_left _ _ e)))
              (and_right _ _ e))
          cal h

-- The calendar and the search agree: a search for a stay that meets no failing statement answers with a
-- room exactly if the calendar, over a window that holds the stay, shows every night of it and a
-- minimum on the first that is no longer. The stay begins today or later, has a night or more and is no
-- longer than the longest stay that the settings allow; there is a guest at least, and the numbers of
-- guests fit 32 bits. The room is a row of the table and no other has its id; the calendar of rates has
-- a night of a room once, and no claim is of no nights.
pub calendar_agrees :
    (r : Schema.Room) (today checkin from to : Date) (guests : ℤ) (d : Store) (n : ℕ)
    → IsAmong r d.rooms
    → All (IsOnly r) d.rooms
    → ltb_ℤ r.max_occupancy (pos two31) ≡ true
    → ltb_ℤ guests (pos two31) ≡ true
    → 1 ≤ n
    → before checkin today ≡ false
    → ltb_ℤ guests (pos 1) ≡ false
    → (ltb_ℤ (pos 0) d.settings.max_stay_nights && ltb_ℤ d.settings.max_stay_nights (pos n)) ≡ false
    → leb_ℤ from checkin ≡ true
    → leb_ℤ (add_days checkin (pos n)) to ≡ true
    → ((date : Date) → count (on_night r checkin date) d.rate_calendar ≤ 1)
    → All IsRanged d.occupancy
    → has_room r.id
        (search_rooms today
          (record { checkin = checkin; checkout = add_days checkin (pos n); guests = guests })
          (record { db = d; fate = [] })).0
      ≡ (every (λ i. any (on_sale r checkin from to guests d.occupancy i) d.rate_calendar) n
          && any
              (λ c. on_sale r checkin from to guests d.occupancy 0 c && leb_ℤ c.min_stay (pos n))
              d.rate_calendar)
calendar_agrees r today checkin from to guests d n among only column small k not_past one short
      begins ends key ranged =
    same_test _ _ shows answers
  where
    answer : Bool
    answer =
        has_room r.id
          (search_rooms today
            (record { checkin = checkin; checkout = add_days checkin (pos n); guests = guests })
            (record { db = d; fate = [] })).0

    nights_shown : Bool
    nights_shown =
        every (λ i. any (on_sale r checkin from to guests d.occupancy i) d.rate_calendar) n

    arrival : Bool
    arrival =
        any (λ c. on_sale r checkin from to guests d.occupancy 0 c && leb_ℤ c.min_stay (pos n))
          d.rate_calendar

    offered :
        answer ≡ true
        → is_offered checkin
            (add_days checkin (pos n))
            guests
            d.occupancy
            r
            (keep (prices r.id checkin (add_days checkin (pos n))) d.rate_calendar)
          ≡ true
    offered h =
        listed_only checkin (add_days checkin (pos n)) guests d r (by_order d.rooms)
          (ordered-IsOnly r d.rooms only)
          (ap
              (λ g.
                any (λ x. x.id == r.id)
                  (map (priced d.settings)
                    (offers checkin (add_days checkin (pos n)) g d (by_order d.rooms))))
              (sym (fits_32 guests one small))
            ∙ ap (has_room r.id) (
                sym (
                  search-calm today checkin (add_days checkin (pos n)) guests d
                    (takes today checkin guests d.settings.max_stay_nights n k not_past one short)))
            ∙ h)

    parts :
        (a b c e : Bool)
        → (a && b && c && e) ≡ true
        → (a ≡ true) × (b ≡ true) × (c ≡ true) × (e ≡ true)
    parts a b c e h = (ground arith, ground arith, ground arith, ground arith)

    shows : answer ≡ true → (nights_shown && arrival) ≡ true
    shows h =
        let (large, free, has_price, arrives) = parts _ _ _ _ (
          sym (offered_by_night r checkin guests d.occupancy d.rate_calendar n k key ranged)
          ∙ offered h) in
        rw
          (
            all_shown r checkin from to guests d.occupancy d.rate_calendar n k begins ends large
                free has_price,
            arrival_shown r checkin from to guests d.occupancy d.rate_calendar n k begins ends large
                free arrives,
          )
          refl

    answers : (nights_shown && arrival) ≡ true → answer ≡ true
    answers h =
        shown_is_offered r today checkin from to guests d n among column k not_past one short key
          ranged
          (λ i m.
            every-at (λ j. any (on_sale r checkin from to guests d.occupancy j) d.rate_calendar) n i
              (and_left nights_shown arrival h) m)
          (and_right nights_shown arrival h)
