-- ===== src/Availability/Spans.antt =====
-- A stay as the nights of it: what the statements of internal/db/gen/availability.sql.go ask of a span of
-- dates, and of a night.
use bealhouse.Prelude.{
  ℕ, zero, suc, ◌≤◌, ◌<◌, ◌≡◌, ◌⊎◌, inl, inr, refl, ◌||◌, ◌&&◌, Bool, true, false, List, [], ◌∷◌,
  All, any, count, arith, if◌then◌else◌, ◌==◌,
}
use bealhouse.Prelude.Int.{
  ℤ, pos, negsuc, pos_part, neg_part, ◌-ℤ◌, ◌+ℤ◌, ◌<ℤ◌, leb_ℤ, ltb_ℤ, eqb_ℤ, +ℤ_parts, -ℤ_parts,
  eq_of_parts,
}
use bealhouse.Civil.{Date, add_days}
use bealhouse.Db.Schema.{Occupancy, Room, NightRate}
use bealhouse.Db.Availability.{meets, prices}
use bealhouse.Prelude.Counts.{count-either, count-any, count-never}

-- The constraint `occupancy_span_not_empty`.
abbrev pub IsRanged : Occupancy → Type 0
IsRanged o = o.checkin <ℤ o.checkout

one_sided : (z : ℤ) → (pos_part z ≡ 0) ⊎ (neg_part z ≡ 0)
one_sided (pos n) = inr refl
one_sided (negsuc n) = inl refl

module _ (r : Room) (checkin : Date) where
  abbrev pub on_night : Date → NightRate → Bool
  on_night date c = c.room_id == r.id && eqb_ℤ c.date date

  abbrev pub night_of : ℕ → Date
  night_of i = add_days checkin (pos i)

  pub next_night :
      (n : ℕ) (c : NightRate)
      → prices r.id checkin (night_of (suc n)) c
        ≡ (prices r.id checkin (night_of n) c || on_night (night_of n) c)
  unfolding add_days
  next_night n c = ground (arith, +ℤ_parts checkin (pos n), +ℤ_parts checkin (pos (suc n)))

  pub not_twice :
      (n : ℕ) (c : NightRate)
      → (prices r.id checkin (night_of n) c && on_night (night_of n) c) ≡ false
  unfolding add_days
  not_twice n c = ground arith

  pub no_night : (c : NightRate) → prices r.id checkin (night_of 0) c ≡ false
  unfolding add_days
  no_night c = ground (arith, +ℤ_parts checkin (pos 0))

  -- One price for each night, if every night has one and none has two.
  pub priced_nights :
      (cs : List NightRate) (n : ℕ)
      → ((date : Date) → count (on_night date) cs ≤ 1)
      → ((i : ℕ) → i < n → any (on_night (night_of i)) cs ≡ true)
      → count (prices r.id checkin (night_of n)) cs ≡ n
  priced_nights cs zero key shown = count-never (prices r.id checkin (night_of 0)) no_night cs
  priced_nights cs (suc n) key shown = omega (
    arith,
    count-either (prices r.id checkin (night_of (suc n))) (prices r.id checkin (night_of n))
        (on_night (night_of n)) (next_night n) (not_twice n) cs,
    key (night_of n),
    count-any (on_night (night_of n)) cs (shown n (omega arith)),
    priced_nights cs n key (λ i h. shown i (omega arith)),
  )

  abbrev pub is_taken : Date → Occupancy → Bool
  is_taken date o = o.room_id == r.id && leb_ℤ o.checkin date && ltb_ℤ date o.checkout

  -- A claim that meets a stay has one of its nights.
  common_night :
      (n : ℕ) (o : Occupancy)
      → 1 ≤ n
      → IsRanged o
      → meets r.id checkin (night_of n) o ≡ true
      → (i : ℕ) × (i < n) × (is_taken (night_of i) o ≡ true)
  unfolding add_days
  common_night n o some_night ranged h =
      let i = pos_part (o.checkin -ℤ checkin) in
      let start = -ℤ_parts o.checkin checkin in
      (
        i,
        ground (arith, start, one_sided (o.checkin -ℤ checkin), +ℤ_parts checkin (pos n)),
        ground (
          arith,
          start,
          one_sided (o.checkin -ℤ checkin),
          +ℤ_parts checkin (pos n),
          +ℤ_parts checkin (pos i),
        ),
      )

  pub untaken :
      (n : ℕ) (os : List Occupancy)
      → 1 ≤ n
      → All IsRanged os
      → ((i : ℕ) → i < n → any (is_taken (night_of i)) os ≡ false)
      → any (meets r.id checkin (night_of n)) os ≡ false
  untaken n [] k ranged free = refl
  untaken n (o ∷ os) k (h, hs) free =
      go (meets r.id checkin (night_of n) o) refl
        (untaken n os k hs (λ i m. ground (arith, free i m)))
    where
      go :
          (b : Bool)
          → meets r.id checkin (night_of n) o ≡ b
          → any (meets r.id checkin (night_of n)) os ≡ false
          → (if b then true else any (meets r.id checkin (night_of n)) os) ≡ false
      go false e rest = rest
      go true e rest =
          let (i, m, t) = common_night n o k h e in absurd (ground (arith, free i m, t))

pub length_of_stay : (checkin : Date) (n : ℕ) → add_days checkin (pos n) -ℤ checkin ≡ pos n
unfolding add_days
length_of_stay checkin n =
    eq_of_parts (checkin +ℤ pos n -ℤ checkin) (pos n)
      (omega (arith, +ℤ_parts checkin (pos n), -ℤ_parts (checkin +ℤ pos n) checkin))
