-- ===== src/Availability/Arrival.antt =====
-- The minimum stay on arrival, as `SearchAvailability` of internal/db/gen/availability.sql.go reads it.
use bealhouse.Prelude.{
  ◌≡◌, refl, Bool, true, false, List, [], ◌∷◌, Option, none, some, All, any, ◌&&◌, arith,
  if◌then◌else◌,
}
use bealhouse.Prelude.Int.{ℤ, leb_ℤ, ltb_ℤ, eqb_ℤ}
use bealhouse.Civil.{Date}
use bealhouse.Db.Schema.{NightRate}
use bealhouse.Db.Availability.{longest, arrival_stay, at_least}

-- The arrival's minimum stay, as the search reads it.
abbrev pub within : ℤ → Option ℤ → Bool
within stay none = true
within stay (some m) = leb_ℤ m stay

at_least-within : (stay : ℤ) (o : Option ℤ) → at_least stay o ≡ true → within stay o ≡ true
at_least-within stay none h = refl
at_least-within stay (some m) h = h

longest-within :
    (stay m : ℤ) (o : Option ℤ)
    → leb_ℤ m stay ≡ true
    → within stay o ≡ true
    → at_least stay (longest (some m) o) ≡ true
longest-within stay m none h k = h
longest-within stay m (some n) h k = go (ltb_ℤ m n)
  where
    go : (b : Bool) → at_least stay (if b then some n else some m) ≡ true
    go true = k
    go false = h

pub arrival_stay-within :
    (checkin : Date) (stay : ℤ) (cs : List NightRate)
    → All (λ c. eqb_ℤ c.date checkin ≡ true → leb_ℤ c.min_stay stay ≡ true) cs
    → (within stay (arrival_stay checkin cs) ≡ true)
      × (any (λ c. eqb_ℤ c.date checkin) cs ≡ true → at_least stay (arrival_stay checkin cs) ≡ true)
unfolding arrival_stay
arrival_stay-within checkin stay [] h = (refl, λ e. absurd (ground arith))
arrival_stay-within checkin stay (c ∷ cs) (h, hs) =
    go (eqb_ℤ c.date checkin) h (arrival_stay-within checkin stay cs hs)
  where
    go :
        (b : Bool)
        → (b ≡ true → leb_ℤ c.min_stay stay ≡ true)
        → (within stay (arrival_stay checkin cs) ≡ true)
          × (any (λ x. eqb_ℤ x.date checkin) cs ≡ true
              → at_least stay (arrival_stay checkin cs) ≡ true)
        → (within stay (
              if b
              then longest (some c.min_stay) (arrival_stay checkin cs)
              else arrival_stay checkin cs)
            ≡ true)
          × ((if b then true else any (λ x. eqb_ℤ x.date checkin) cs) ≡ true
              → at_least stay (
                  if b
                  then longest (some c.min_stay) (arrival_stay checkin cs)
                  else arrival_stay checkin cs)
                ≡ true)
    go false e rest = rest
    go true e rest =
        let short = longest-within stay c.min_stay (arrival_stay checkin cs) (e refl) rest.0 in
        (
          at_least-within stay (longest (some c.min_stay) (arrival_stay checkin cs)) short,
          λ f. short,
        )

longest-at_least :
    (stay m : ℤ) (o : Option ℤ) → at_least stay (longest (some m) o) ≡ true → leb_ℤ m stay ≡ true
longest-at_least stay m none h = h
longest-at_least stay m (some n) h = go (ltb_ℤ m n) refl
  where
    go : (b : Bool) → ltb_ℤ m n ≡ b → leb_ℤ m stay ≡ true
    go true e = ground arith
    go false e = ground arith

pub at_least-arrival :
    (checkin : Date) (stay : ℤ) (cs : List NightRate)
    → at_least stay (arrival_stay checkin cs) ≡ true
    → any (λ c. eqb_ℤ c.date checkin && leb_ℤ c.min_stay stay) cs ≡ true
unfolding arrival_stay
at_least-arrival checkin stay [] h = absurd (ground arith)
at_least-arrival checkin stay (c ∷ cs) h =
    go (eqb_ℤ c.date checkin) refl (at_least-arrival checkin stay cs) h
  where
    go :
        (b : Bool)
        → eqb_ℤ c.date checkin ≡ b
        → (at_least stay (arrival_stay checkin cs) ≡ true
            → any (λ x. eqb_ℤ x.date checkin && leb_ℤ x.min_stay stay) cs ≡ true)
        → at_least stay (
            if b
            then longest (some c.min_stay) (arrival_stay checkin cs)
            else arrival_stay checkin cs)
          ≡ true
        → any (λ x. eqb_ℤ x.date checkin && leb_ℤ x.min_stay stay) (c ∷ cs) ≡ true
    go true e more k = ground (arith, longest-at_least stay c.min_stay (arrival_stay checkin cs) k)
    go false e more k = ground (arith, more k)
