-- ===== src/Availability/Answers.antt =====
-- What a search of internal/availability/availability.go answers with, when no statement fails.
use bealhouse.Prelude.{
  ℕ, ◌≡◌, ◌⊎◌, inl, inr, refl, ap, Bool, true, false, List, [], ◌∷◌, All, any, keep, map, arith,
  if◌then◌else◌, ◌==◌,
}
use bealhouse.Prelude.Int.{ℤ, leb_ℤ}
use mathlib.Core.Path.{subst}
use bealhouse.Prelude.Int64.{wrap32}
use bealhouse.Civil.{Date}
use bealhouse.Db.Schema.{Store, Settings, Occupancy, NightRate}
use bealhouse.Db.Schema
use bealhouse.Db.Session.{Outcome, ok, err, pure, query, statement, exec, round_trip, ◌>>=◌}
use bealhouse.Db.Bookings.{get_settings}
use bealhouse.Db.Availability.{
  OfferRow, prices, offer_row, offers, is_offered, insert_by_order, by_order, search_availability,
}
use bealhouse.Availability.{Room, priced, validate, read_content, search_valid, search_rooms}

-- A room is among the rows.
abbrev pub IsAmong : Schema.Room → List Schema.Room → Type 0
IsAmong r [] = ⊥
IsAmong r (x ∷ xs) = (x ≡ r) ⊎ IsAmong r xs

placed :
    (r x : Schema.Room) (xs : List Schema.Room)
    → IsAmong r (x ∷ xs)
    → IsAmong r (insert_by_order x xs)
unfolding insert_by_order
placed r x [] h = h
placed r x (y ∷ ys) h = go (leb_ℤ x.sort_order y.sort_order) h (placed r x ys)
  where
    go :
        (b : Bool)
        → IsAmong r (x ∷ y ∷ ys)
        → (IsAmong r (x ∷ ys) → IsAmong r (insert_by_order x ys))
        → IsAmong r (if b then x ∷ y ∷ ys else y ∷ insert_by_order x ys)
    go true k more = k
    go false (inl e) more = inr (more (inl e))
    go false (inr (inl e)) more = inl e
    go false (inr (inr k)) more = inr (more (inr k))

pub ordered : (r : Schema.Room) (rs : List Schema.Room) → IsAmong r rs → IsAmong r (by_order rs)
unfolding by_order
ordered r [] h = absurd h
ordered r (x ∷ xs) (inl e) = placed r x (by_order xs) (inl e)
ordered r (x ∷ xs) (inr h) = placed r x (by_order xs) (inr (ordered r xs h))

-- The room is among those that a search answers with.
abbrev pub has_room : ℕ → Outcome (List Room) → Bool
has_room id (ok rooms) = any (λ x. x.id == id) rooms
has_room id (err e) = false

pub listed :
    (checkin checkout : Date) (guests : ℤ) (d : Store) (r : Schema.Room) (rs : List Schema.Room)
    → IsAmong r rs
    → is_offered checkin checkout guests d.occupancy r
        (keep (prices r.id checkin checkout) d.rate_calendar)
      ≡ true
    → any (λ x. x.id == r.id) (map (priced d.settings) (offers checkin checkout guests d rs)) ≡ true
unfolding offers
listed checkin checkout guests d r [] among h = absurd among
listed checkin checkout guests d r (x ∷ xs) among h =
    go (is_offered checkin checkout guests d.occupancy x (of_room x)) refl among
      (λ k. listed checkin checkout guests d r xs k h)
  where
    of_room : Schema.Room → List NightRate
    of_room y = keep (prices y.id checkin checkout) d.rate_calendar

    answer : List OfferRow → Bool
    answer rows = any (λ y. y.id == r.id) (map (priced d.settings) rows)

    go :
        (b : Bool)
        → is_offered checkin checkout guests d.occupancy x (of_room x) ≡ b
        → (x ≡ r) ⊎ IsAmong r xs
        → (IsAmong r xs → answer (offers checkin checkout guests d xs) ≡ true)
        → answer (
            if b
            then offer_row x (of_room x) ∷ offers checkin checkout guests d xs
            else offers checkin checkout guests d xs)
          ≡ true
    go true e (inl f) more = ground (arith, ap (λ y. y.id) f)
    go true e (inr k) more = ground (arith, more k)
    go false e (inl f) more = absurd (cc)
    go false e (inr k) more = more k

read_content-calm :
    (rows : List OfferRow) (d : Store)
    → read_content rows (record { db = d; fate = [] }) ≡ (ok tt, record { db = d; fate = [] })
unfolding read_content ◌>>=◌ pure round_trip exec statement
read_content-calm [] d = refl
read_content-calm (row ∷ rows) d = refl

-- A search that nothing stops answers with the rooms that are offered.
pub search-calm :
    (today checkin checkout : Date) (guests : ℤ) (d : Store)
    → validate today
        (record { checkin = checkin; checkout = checkout; guests = guests })
        d.settings.max_stay_nights
      ≡ ok tt
    → (search_rooms today
        (record { checkin = checkin; checkout = checkout; guests = guests })
        (record { db = d; fate = [] })).0
      ≡ ok (map (priced d.settings) (offers checkin checkout (wrap32 guests) d (by_order d.rooms)))
unfolding search_rooms search_valid get_settings search_availability ◌>>=◌ pure query statement
    read_content offers by_order
search-calm today checkin checkout guests d h =
    rw (h, read_content-calm (offers checkin checkout (wrap32 guests) d (by_order d.rooms)) d) refl

-- No other row has the id of the room.
abbrev pub IsOnly : Schema.Room → Schema.Room → Type 0
IsOnly r x = (x.id == r.id) ≡ true → x ≡ r

placed-IsOnly :
    (r x : Schema.Room) (xs : List Schema.Room)
    → IsOnly r x
    → All (IsOnly r) xs
    → All (IsOnly r) (insert_by_order x xs)
unfolding insert_by_order
placed-IsOnly r x [] h hs = (h, tt)
placed-IsOnly r x (y ∷ ys) h (k, ks) =
    go (leb_ℤ x.sort_order y.sort_order) (placed-IsOnly r x ys h ks)
  where
    go :
        (b : Bool)
        → All (IsOnly r) (insert_by_order x ys)
        → All (IsOnly r) (if b then x ∷ y ∷ ys else y ∷ insert_by_order x ys)
    go true rest = (h, (k, ks))
    go false rest = (k, rest)

pub ordered-IsOnly :
    (r : Schema.Room) (rs : List Schema.Room) → All (IsOnly r) rs → All (IsOnly r) (by_order rs)
unfolding by_order
ordered-IsOnly r [] h = tt
ordered-IsOnly r (x ∷ xs) (h, hs) = placed-IsOnly r x (by_order xs) h (ordered-IsOnly r xs hs)

-- What is listed under the id of the room is the room.
pub listed_only :
    (checkin checkout : Date) (guests : ℤ) (d : Store) (r : Schema.Room) (rs : List Schema.Room)
    → All (IsOnly r) rs
    → any (λ x. x.id == r.id) (map (priced d.settings) (offers checkin checkout guests d rs)) ≡ true
    → is_offered checkin checkout guests d.occupancy r
        (keep (prices r.id checkin checkout) d.rate_calendar)
      ≡ true
unfolding offers
listed_only checkin checkout guests d r [] only h = absurd (ground arith)
listed_only checkin checkout guests d r (x ∷ xs) (o, os) h =
    go (offered x) refl (x.id == r.id) refl (listed_only checkin checkout guests d r xs os) h
  where
    of_room : Schema.Room → List NightRate
    of_room y = keep (prices y.id checkin checkout) d.rate_calendar

    offered : Schema.Room → Bool
    offered y = is_offered checkin checkout guests d.occupancy y (of_room y)

    answer : List OfferRow → Bool
    answer rows = any (λ y. y.id == r.id) (map (priced d.settings) rows)

    go :
        (b : Bool)
        → offered x ≡ b
        → (c : Bool) → (x.id == r.id) ≡ c
        → (answer (offers checkin checkout guests d xs) ≡ true → offered r ≡ true)
        → answer (
            if b
            then offer_row x (of_room x) ∷ offers checkin checkout guests d xs
            else offers checkin checkout guests d xs)
          ≡ true
        → offered r ≡ true
    go true e true f more k = subst (λ y. offered y ≡ true) (o f) e
    go true e false f more k = more (ground (arith, f))
    go false e c f more k = more k
