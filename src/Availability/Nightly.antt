-- ===== src/Availability/Nightly.antt =====
-- The search of internal/db/gen/availability.sql.go, told night by night.
use bealhouse.Prelude.{
  ℕ, zero, suc, ◌+◌, ◌≤◌, ◌<◌, ◌≡◌, refl, sym, ap, Bool, true, false, not, ◌&&◌, List, All, any,
  keep, count, length, arith, ◌==◌,
}
use bealhouse.Prelude.Int.{ℤ, pos, ◌-ℤ◌, leb_ℤ, eqb_ℤ, +ℤ_parts}
use bealhouse.Civil.{Date, add_days}
use bealhouse.Db.Schema.{Occupancy, Room, NightRate}
use bealhouse.Db.Availability.{meets, prices, arrival_stay, at_least, is_offered}
use bealhouse.Prelude.Counts.{
  count-either, count-never, any-imply, only, length-keep, All-kept, any-keep, any-count, any-kept,
}
use bealhouse.Prelude.Rows.{All-imply}
use bealhouse.Availability.Arrival.{arrival_stay-within, at_least-arrival}
use bealhouse.Availability.Spans.{
  IsRanged, on_night, night_of, is_taken, next_night, not_twice, no_night, priced_nights, untaken,
  length_of_stay,
}

-- All of the numbers below one.
abbrev pub every : (ℕ → Bool) → ℕ → Bool
every p zero = true
every p (suc n) = let rest = every p n in rest && p n

pub every-at : (p : ℕ → Bool) (n i : ℕ) → every p n ≡ true → i < n → p i ≡ true
every-at p zero i h k = absurd (omega arith)
every-at p (suc n) i h k = go (i == n) refl (every-at p n i)
  where
    go : (b : Bool) → (i == n) ≡ b → (every p n ≡ true → i < n → p i ≡ true) → p i ≡ true
    go true e below = let f : i ≡ n = ground arith in rw f (ground arith)
    go false e below = below (ground arith) (ground arith)

pub every-all : (p : ℕ → Bool) (n : ℕ) → ((i : ℕ) → i < n → p i ≡ true) → every p n ≡ true
every-all p zero h = refl
every-all p (suc n) h = rw (every-all p n (λ i k. h i (omega arith)), h n (omega arith)) refl

pub same_test : (a b : Bool) → (a ≡ true → b ≡ true) → (b ≡ true → a ≡ true) → a ≡ b
same_test true b f g = sym (f refl)
same_test false true f g = g refl
same_test false false f g = refl

-- A claim that does not meet a stay has none of its nights.
module _ (r : Room) (checkin : Date) where
  taken_night :
      (n i : ℕ) (o : Occupancy)
      → i < n
      → is_taken r checkin (night_of r checkin i) o ≡ true
      → meets r.id checkin (night_of r checkin n) o ≡ true
  unfolding add_days
  taken_night n i o k h = ground (arith, +ℤ_parts checkin (pos n), +ℤ_parts checkin (pos i))

  abbrev pub is_free_night : List Occupancy → ℕ → Bool
  is_free_night os i = not (any (is_taken r checkin (night_of r checkin i)) os)

  pub free_nights :
      (os : List Occupancy) (n : ℕ)
      → 1 ≤ n
      → All IsRanged os
      → not (any (meets r.id checkin (night_of r checkin n)) os) ≡ every (is_free_night os) n
  free_nights os n k ranged =
      same_test _ _
        (λ h. every-all (is_free_night os) n (λ i m. ground (
          arith,
          any-imply (is_taken r checkin (night_of r checkin i))
              (meets r.id checkin (night_of r checkin n)) (λ o. taken_night n i o m) os,
        )))
        (λ h. ap not (
          untaken r checkin n os k ranged
            (λ i m. ground (arith, every-at (is_free_night os) n i h m))))

  abbrev pub is_priced_night : List NightRate → ℕ → Bool
  is_priced_night cal i = any (on_night r checkin (night_of r checkin i)) cal

  module _ (cal : List NightRate)
      (key : (date : Date) → count (on_night r checkin date) cal ≤ 1) where
    one_more :
        (n : ℕ)
        → count (prices r.id checkin (night_of r checkin (suc n))) cal
          ≡ count (prices r.id checkin (night_of r checkin n)) cal
            + count (on_night r checkin (night_of r checkin n)) cal
    one_more n =
        count-either (prices r.id checkin (night_of r checkin (suc n)))
          (prices r.id checkin (night_of r checkin n)) (on_night r checkin (night_of r checkin n))
          (next_night r checkin n) (not_twice r checkin n) cal

    no_more : (n : ℕ) → count (prices r.id checkin (night_of r checkin n)) cal ≤ n
    no_more zero =
        omega
          (arith, count-never (prices r.id checkin (night_of r checkin 0)) (no_night r checkin) cal)
    no_more (suc n) = omega (arith, one_more n, key (night_of r checkin n), no_more n)

    all_priced :
        (n : ℕ)
        → count (prices r.id checkin (night_of r checkin n)) cal ≡ n
        → every (is_priced_night cal) n ≡ true
    all_priced zero h = refl
    all_priced (suc n) h =
        rw
          (
            all_priced n (omega (arith, one_more n, key (night_of r checkin n), no_more n)),
            any-count (on_night r checkin (night_of r checkin n)) cal
                (omega (arith, one_more n, no_more n)),
          )
          refl

    priced_count :
        (n : ℕ)
        → eqb_ℤ
            (pos (length (keep (prices r.id checkin (night_of r checkin n)) cal)))
            (night_of r checkin n -ℤ checkin)
          ≡ every (is_priced_night cal) n
    priced_count n =
        rw (length_of_stay checkin n, length-keep (prices r.id checkin (night_of r checkin n)) cal)
          (same_test _ _ (λ h. all_priced n (ground arith))
            (λ h. ground (
              arith,
              priced_nights r checkin cal n key (λ i m. every-at (is_priced_night cal) n i h m),
            )))

    arrival_night :
        (n : ℕ)
        → 1 ≤ n
        → (c : NightRate) → (on_night r checkin checkin c && leb_ℤ c.min_stay (pos n)) ≡ true
        → (prices r.id checkin (night_of r checkin n) c && eqb_ℤ c.date checkin) ≡ true
    unfolding add_days
    arrival_night n k c h = ground (arith, +ℤ_parts checkin (pos n))

    same_arrival :
        (n : ℕ)
        → 1 ≤ n
        → at_least
            (night_of r checkin n -ℤ checkin)
            (arrival_stay checkin (keep (prices r.id checkin (night_of r checkin n)) cal))
          ≡ any (λ c. on_night r checkin checkin c && leb_ℤ c.min_stay (pos n)) cal
    same_arrival n k = rw (length_of_stay checkin n) (same_test _ _ opens opened)
      where
        of_stay : NightRate → Bool
        of_stay = prices r.id checkin (night_of r checkin n)

        opens :
            at_least (pos n) (arrival_stay checkin (keep of_stay cal)) ≡ true
            → any (λ c. on_night r checkin checkin c && leb_ℤ c.min_stay (pos n)) cal ≡ true
        opens h =
            any-imply _ _ (λ c e. ground arith) cal
              (any-kept of_stay (λ c. eqb_ℤ c.date checkin && leb_ℤ c.min_stay (pos n)) cal
                (at_least-arrival checkin (pos n) (keep of_stay cal) h))

        opened :
            any (λ c. on_night r checkin checkin c && leb_ℤ c.min_stay (pos n)) cal ≡ true
            → at_least (pos n) (arrival_stay checkin (keep of_stay cal)) ≡ true
        opened h =
            (arrival_stay-within checkin (pos n) (keep of_stay cal) (
                All-kept _ of_stay cal (
                  All-imply _ _ cal (λ c m p e. m (ground arith))
                    (only (on_night r checkin checkin) (λ c. leb_ℤ c.min_stay (pos n)) cal
                      (key checkin) h)))).1
              (any-keep of_stay (λ c. eqb_ℤ c.date checkin) cal
                (any-imply _ _ (arrival_night n k) cal h))

-- The search is right night by night: it offers a room for a stay of one night or more exactly if the
-- room is large enough, no claim has any of the nights, every night has its price, and the arrival's
-- night asks for no longer a stay. The calendar of rates has a night of a room once, and no claim is of
-- no nights.
pub offered_by_night :
    (r : Room) (checkin : Date) (guests : ℤ) (os : List Occupancy) (cal : List NightRate) (n : ℕ)
    → 1 ≤ n
    → ((date : Date) → count (on_night r checkin date) cal ≤ 1)
    → All IsRanged os
    → is_offered checkin
        (add_days checkin (pos n))
        guests
        os
        r
        (keep (prices r.id checkin (add_days checkin (pos n))) cal)
      ≡ (leb_ℤ guests r.max_occupancy
          && every (is_free_night r checkin os) n
          && every (is_priced_night r checkin cal) n
          && any (λ c. on_night r checkin checkin c && leb_ℤ c.min_stay (pos n)) cal)
offered_by_night r checkin guests os cal n k key ranged =
    rw
      (
        sym (free_nights r checkin os n k ranged),
        sym (priced_count r checkin cal key n),
        sym (same_arrival r checkin cal key n k),
      )
      refl
