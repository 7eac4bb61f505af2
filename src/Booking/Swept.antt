-- ===== src/Booking/Swept.antt =====
-- What a sweep of internal/booking/sweeper.go leaves, told from the tables before it.
use bealhouse.Prelude.{
  ℕ, ◌+◌, ◌*◌, ◌≡◌, refl, ap, Bool, true, false, not, ◌&&◌, ◌||◌, List, [], ◌∷◌, Option, none, some,
  any, keep, map, ltb, leb, arith, if◌then◌else◌,
}
use bealhouse.Db.Schema.{
  Store, Occupancy, Booking, Instant, Claim, hold, booking, block, Status, pending, confirmed,
  cancelled, expired,
}
use bealhouse.Db.Session.{ok, Session}
use bealhouse.Db.Keeps.{Ensures, Keeps-pure}
use bealhouse.Db.Ensures.{Ensures-keeps, Ensures-bind, Ensures-statement, ensured}
use bealhouse.Db.Occupancy.{is_hold, is_for, is_lapsed, sweep_expired_holds}
use bealhouse.Db.Bookings.{
  is_pending, is_abandoned, is_unheld, is_overdue, expire, expire_abandoned_bookings,
}
use bealhouse.Booking.Sweeper.{sweep}

-- A claim has the room for now: only a hold whose time has come has it no more.
abbrev pub stands : Instant → Claim → Option Instant → Bool
stands now hold (some t) = ltb now t
stands now hold none = true
stands now booking t = true
stands now block t = true

-- A hold that a guest still has the time to pay for.
abbrev pub holds_for : Instant → ℕ → Occupancy → Bool
holds_for now id o = is_for id o && is_hold o.kind && stands now o.kind o.expires_at

-- A payment that was started, and whose time of grace is not over.
abbrev pub is_paying : Instant → ℕ → Option Instant → Bool
is_paying now grace none = false
is_paying now grace (some t) = ltb now (t + grace * 60)

-- What becomes of a booking that is pending: it is given up unless its guest holds the room or pays.
abbrev pub swept_status : Bool → Status → Status
swept_status wanted pending = if wanted then pending else expired
swept_status wanted confirmed = confirmed
swept_status wanted cancelled = cancelled
swept_status wanted expired = expired

abbrev pub is_wanted : Store → Booking → Bool
is_wanted d b =
    any (holds_for d.now b.id) d.occupancy
    || is_paying d.now d.settings.payment_grace_minutes b.payment_started_at

abbrev pub swept : Store → Booking → Booking
swept d b = record b { status = swept_status (is_wanted d b) b.status }

-- The tables after a sweep of `before`.
pub record IsSwept (before : Store) (d : Store) : Type 0 where
  pub claims : d.occupancy ≡ keep (λ o. stands before.now o.kind o.expires_at) before.occupancy
  pub bookings : d.bookings ≡ map (swept before) before.bookings

stands_iff :
    (now : Instant) (o : Occupancy)
    → not (is_hold o.kind && is_lapsed now o) ≡ stands now o.kind o.expires_at
stands_iff now o = go o.kind o.expires_at
  where
    go :
        (k : Claim) (t : Option Instant)
        → not (is_hold k && elim t [ none ↦ false | some x ↦ leb x now ]) ≡ stands now k t
    go hold none = refl
    go hold (some t) = ground arith
    go booking t = refl
    go block t = refl

keep-same :
    {A : Type 0} (p q : A → Bool) → ((x : A) → p x ≡ q x) → (xs : List A) → keep p xs ≡ keep q xs
keep-same p q h [] = refl
keep-same p q h (x ∷ xs) = rw (h x, keep-same p q h xs) refl

any-keep_same :
    {A : Type 0} (p q s : A → Bool)
    → ((x : A) → (p x && q x) ≡ s x)
    → (xs : List A) → any p (keep q xs) ≡ any s xs
any-keep_same p q s h [] = refl
any-keep_same p q s h (x ∷ xs) = go (q x) refl (any-keep_same p q s h xs)
  where
    go :
        (b : Bool)
        → q x ≡ b
        → any p (keep q xs) ≡ any s xs
        → any p (if b then x ∷ keep q xs else keep q xs) ≡ any s (x ∷ xs)
    go true e k = ground (arith, h x)
    go false e k = ground (arith, h x)

map-same : {A : Type 0} (f g : A → A) → ((x : A) → f x ≡ g x) → (xs : List A) → map f xs ≡ map g xs
map-same f g h [] = refl
map-same f g h (x ∷ xs) = rw (h x, map-same f g h xs) refl

-- The store between the two statements.
abbrev without_lapsed : Store → Store
without_lapsed d = record d {
  occupancy = keep (λ o. not (is_hold o.kind && is_lapsed d.now o)) d.occupancy;
}

is_unheld-wanted :
    (d : Store) (id : ℕ)
    → is_unheld id (without_lapsed d).occupancy ≡ not (any (holds_for d.now id) d.occupancy)
is_unheld-wanted d id = ap not (
    any-keep_same (λ o. is_for id o && is_hold o.kind) _ (holds_for d.now id)
      (λ o. ground (arith, stands_iff d.now o)) d.occupancy)

is_overdue-paying :
    (now : Instant) (grace : ℕ) (t : Option Instant)
    → is_overdue now grace t ≡ not (is_paying now grace t)
is_overdue-paying now grace none = refl
is_overdue-paying now grace (some t) = ground arith

given_up :
    (before : Store) (b : Booking)
    → expire (is_abandoned (without_lapsed before)) b ≡ swept before b
given_up before b =
    rw
      (
        is_unheld-wanted before b.id,
        is_overdue-paying before.now before.settings.payment_grace_minutes b.payment_started_at,
      )
      (go b.status (any (holds_for before.now b.id) before.occupancy)
        (is_paying before.now before.settings.payment_grace_minutes b.payment_started_at))
  where
    go :
        (s : Status) (h p : Bool)
        → (if is_pending s && not h && not p
            then record b { status = expired }
            else record b { status = s })
          ≡ record b { status = swept_status (h || p) s }
    go pending true p = refl
    go pending false true = refl
    go pending false false = refl
    go confirmed h p = refl
    go cancelled h p = refl
    go expired h p = refl

sweep-Ensures : (before : Store) → Ensures (λ d. d ≡ before) sweep (λ r. IsSwept before)
unfolding sweep sweep_expired_holds expire_abandoned_bookings
sweep-Ensures before =
    Ensures-bind _ _ (λ n d. d ≡ without_lapsed before) _
      (Ensures-statement _ _ (λ d h. ap without_lapsed h))
      (λ n.
        Ensures-bind _ _ (λ m. IsSwept before) _
          (Ensures-statement _ _ (λ d h. rw h (record {
            claims = keep-same _ _ (stands_iff before.now) before.occupancy;
            bookings = map-same _ _ (given_up before) before.bookings;
          })))
          (λ m. Ensures-keeps _ (Keeps-pure _)))

-- After a sweep that succeeds, the claims are those of before but the holds whose time had come, and
-- of the bookings the pending ones are expired for which nobody held the room any more or was still
-- in the time of grace of a payment; every other booking is as it was.
pub sweep_frees : (s : Session) (r : ℕ × ℕ) → (sweep s).0 ≡ ok r → IsSwept s.db (sweep s).1.db
sweep_frees s r h = ensured (sweep-Ensures s.db) s r refl h
