-- ===== src/Tests/Stays.antt =====
-- The theorems on the calendar, at a stay of two nights, and on the links to a booking.
use bealhouse.Prelude.{
  inl, not, none, ℕ, zero, suc, ◌<◌, ◌≤◌, ◌≡◌, refl, Bool, true, ◌&&◌, [], ◌∷◌, some, map, any,
  count, keep, arith, List,
}
use bealhouse.Prelude.Int.{pos, leb_ℤ, ◌+ℤ◌}
use Prim.Native.String.{String, ◌++◌}
use bealhouse.Prelude.Text.{normalise}
use bealhouse.Booking.Link.{sign, valid}
use bealhouse.Booking.Signed.{sign_then_valid}
use bealhouse.Civil.{Date, add_days}
use bealhouse.Db.Schema.{NightRate, block, confirmed}
use bealhouse.Db.Availability.{prices, is_offered}
use bealhouse.Db.Nights.{SellableNight}
use bealhouse.Availability.Calendar.{group, group_from, stitch, at_last, is_new_room}
use bealhouse.Availability.Runs.{night, all_nights, IsMaximal}
use bealhouse.Availability.Stitched.{group_faithful}
use bealhouse.Db.Occupancy.{CreateOccupancyParams, insert_occupancy}
use bealhouse.Availability.{search_rooms}
use bealhouse.Availability.Spans.{on_night}
use bealhouse.Availability.Nightly.{every, is_free_night, is_priced_night, offered_by_night}
use bealhouse.Availability.Offers.{is_refused, offered_iff_claimable}
use bealhouse.Availability.Answers.{has_room}
use bealhouse.Availability.Picker.{on_sale, shown_is_offered}
use bealhouse.Availability.Agreement.{calendar_agrees}
use bealhouse.Tests.Inn.{empty_inn, inn, claim_by, calm, room}

-- Two nights, a gap, and a night of another room.
abbrev four_nights : List SellableNight
four_nights =
    record { room_id = 1; slug = "one"; date = pos 20_100; min_stay = pos 2 }
    ∷ record { room_id = 1; slug = "one"; date = pos 20_101; min_stay = pos 1 }
    ∷ record { room_id = 1; slug = "one"; date = pos 20_103; min_stay = pos 1 }
    ∷ record { room_id = 2; slug = "two"; date = pos 20_104; min_stay = pos 3 }
    ∷ []

four_grouped :
    group four_nights
    ≡ record {
      slug = "one";
      spans =
          record { start = pos 20_100; min_stays = pos 2 ∷ pos 1 ∷ [] }
          ∷ record { start = pos 20_103; min_stays = pos 1 ∷ [] }
          ∷ [];
    }
      ∷ record { slug = "two"; spans = record { start = pos 20_104; min_stays = pos 3 ∷ [] } ∷ [] }
      ∷ []
unfolding group group_from stitch at_last is_new_room add_days ◌+ℤ◌
four_grouped = refl

group_faithful_example :
    (all_nights (group four_nights) ≡ map night four_nights) × IsMaximal (group four_nights)
group_faithful_example = group_faithful four_nights

one_price : (date : Date) → count (on_night room (pos 20_100) date) empty_inn.rate_calendar ≤ 1
one_price date = ground arith

abbrev is_shown : ℕ → NightRate → Bool
is_shown = on_sale room (pos 20_100) (pos 20_000) (pos 20_200) (pos 2) []

both_shown : (i : ℕ) → i < 2 → any (is_shown i) empty_inn.rate_calendar ≡ true
unfolding add_days ◌+ℤ◌
both_shown zero h = refl
both_shown (suc zero) h = refl
both_shown (suc (suc i)) h = absurd (omega arith)

may_arrive : any (λ c. is_shown 0 c && leb_ℤ c.min_stay (pos 2)) empty_inn.rate_calendar ≡ true
unfolding add_days ◌+ℤ◌
may_arrive = refl

shown_is_offered_example :
    has_room 1
      (search_rooms
        (pos 20_000)
        (record { checkin = pos 20_100; checkout = add_days (pos 20_100) (pos 2); guests = pos 2 })
        (calm empty_inn)).0
    ≡ true
shown_is_offered_example =
    shown_is_offered room (pos 20_000) (pos 20_100) (pos 20_000) (pos 20_200) (pos 2) empty_inn 2
      (inl refl) refl (omega arith) refl refl refl one_price tt both_shown may_arrive

calendar_agrees_example :
    has_room 1
      (search_rooms
        (pos 20_000)
        (record { checkin = pos 20_100; checkout = add_days (pos 20_100) (pos 2); guests = pos 2 })
        (calm empty_inn)).0
    ≡ (every (λ i. any (is_shown i) empty_inn.rate_calendar) 2
        && any (λ c. is_shown 0 c && leb_ℤ c.min_stay (pos 2)) empty_inn.rate_calendar)
unfolding add_days ◌+ℤ◌
calendar_agrees_example =
    calendar_agrees room (pos 20_000) (pos 20_100) (pos 20_000) (pos 20_200) (pos 2) empty_inn 2
      (inl refl) ((λ e. refl), tt) refl refl (omega arith) refl refl refl refl refl one_price tt

offered_by_night_example :
    is_offered
      (pos 20_100)
      (add_days (pos 20_100) (pos 2))
      (pos 2)
      []
      room
      (keep (prices room.id (pos 20_100) (add_days (pos 20_100) (pos 2))) empty_inn.rate_calendar)
    ≡ (leb_ℤ (pos 2) room.max_occupancy
        && every (is_free_night room (pos 20_100) []) 2
        && every (is_priced_night room (pos 20_100) empty_inn.rate_calendar) 2
        && any
            (λ c. on_night room (pos 20_100) (pos 20_100) c && leb_ℤ c.min_stay (pos 2))
            empty_inn.rate_calendar)
offered_by_night_example =
    offered_by_night room (pos 20_100) (pos 2) [] empty_inn.rate_calendar 2 (omega arith) one_price
      tt

-- The owners block the nights of a stay.
abbrev new_claim : CreateOccupancyParams
new_claim = record {
  room_id = 1;
  checkin = pos 20_100;
  checkout = pos 20_102;
  kind = block;
  source = "direct";
  booking_id = none;
  expires_at = none;
}

offered_iff_claimable_example :
    is_offered
      (pos 20_100)
      (pos 20_102)
      (pos 2)
      (claim_by ∷ [])
      room
      (keep (prices room.id (pos 20_100) (pos 20_102)) empty_inn.rate_calendar)
    ≡ (leb_ℤ (pos 2) room.max_occupancy
        && not (is_refused (insert_occupancy new_claim (inn confirmed (claim_by ∷ []))).0)
        && every (is_priced_night room (pos 20_100) empty_inn.rate_calendar) 2
        && any
            (λ c. on_night room (pos 20_100) (pos 20_100) c && leb_ℤ c.min_stay (pos 2))
            empty_inn.rate_calendar)
unfolding add_days ◌+ℤ◌
offered_iff_claimable_example =
    offered_iff_claimable room new_claim (pos 2) (inn confirmed (claim_by ∷ [])) 2 (omega arith)
      refl refl refl one_price (omega arith, tt)

-- A hash that only its own key and message have.
abbrev tagged : String → String → String
tagged key message = key ++ message

sign_then_valid_example :
    valid tagged
      (some "secret")
      " bh-aaaaaa "
      (sign tagged (some "secret") "BH-AAAAAA" 1_790_000_000)
      1_780_000_000
    ≡ true
unfolding normalise
sign_then_valid_example =
    sign_then_valid tagged "secret" "BH-AAAAAA" " bh-aaaaaa " 1_790_000_000 1_780_000_000
      (omega arith) refl
