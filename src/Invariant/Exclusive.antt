-- ===== src/Invariant/Exclusive.antt =====
-- Lists of claims of which no two overlap: what the exclusion constraint of
-- migrations/00005_occupancy.sql says, and what it means for a room and a night.
use bealhouse.Prelude.{
  ℕ, ◌≤◌, ◌≡◌, refl, Bool, true, false, ◌&&◌, List, [], ◌∷◌, map, length, keep, any, ◌==◌, arith,
  if◌then◌else◌,
}
use bealhouse.Prelude.Int.{ltb_ℤ, leb_ℤ}
use bealhouse.Civil.{Date}
use bealhouse.Db.Schema.{Occupancy}
use bealhouse.Db.Occupancy.{overlaps, is_row, promote}

abbrev pub IsExclusive : List Occupancy → Type 0
IsExclusive [] = Unit
IsExclusive (o ∷ os) = (is_row o ≡ true) × (any (overlaps o) os ≡ false) × IsExclusive os

any-keep :
    {A : Type 0} (q p : A → Bool) (xs : List A) → any q xs ≡ false → any q (keep p xs) ≡ false
any-keep q p [] h = refl
any-keep q p (x ∷ xs) h = ground (arith, any-keep q p xs)

pub keep-IsExclusive :
    (p : Occupancy → Bool) (os : List Occupancy) → IsExclusive os → IsExclusive (keep p os)
keep-IsExclusive p [] h = tt
keep-IsExclusive p (o ∷ os) (row, free, rest) = kept (p o) (keep-IsExclusive p os rest)
  where
    kept :
        (b : Bool) → IsExclusive (keep p os) → IsExclusive (if b then o ∷ keep p os else keep p os)
    kept true h = (row, any-keep (overlaps o) p os free, h)
    kept false h = h

overlaps-promote : (id : ℕ) (a b : Occupancy) → overlaps a (promote id b) ≡ overlaps a b
overlaps-promote id a b = ground arith

promote-is_row : (id : ℕ) (o : Occupancy) → is_row o ≡ true → is_row (promote id o) ≡ true
promote-is_row id o h = ground arith

overlaps-promoted : (id : ℕ) (a b : Occupancy) → overlaps (promote id a) b ≡ overlaps a b
overlaps-promoted id a b = ground arith

any-promote :
    (id : ℕ) (o : Occupancy) (os : List Occupancy)
    → any (overlaps o) os ≡ false
    → any (overlaps (promote id o)) (map (promote id) os) ≡ false
any-promote id o [] h = refl
any-promote id o (p ∷ os) h =
    ground
      (arith, overlaps-promoted id o (promote id p), overlaps-promote id o p, any-promote id o os)

pub map-promote-IsExclusive :
    (id : ℕ) (os : List Occupancy) → IsExclusive os → IsExclusive (map (promote id) os)
map-promote-IsExclusive id [] h = tt
map-promote-IsExclusive id (o ∷ os) (row, free, rest) =
    (promote-is_row id o row, any-promote id o os free, map-promote-IsExclusive id os rest)

-- A claim on a room for the night that begins on a day.
abbrev pub covers : ℕ → Date → Occupancy → Bool
covers room night o = o.room_id == room && leb_ℤ o.checkin night && ltb_ℤ night o.checkout

abbrev pub claims_on : ℕ → Date → List Occupancy → ℕ
claims_on room night os = length (keep (covers room night) os)

covers_overlap :
    (room : ℕ) (night : Date) (a b : Occupancy)
    → covers room night a ≡ true
    → covers room night b ≡ true
    → overlaps a b ≡ true
covers_overlap room night a b ha hb = ground arith

claims_beside :
    (room : ℕ) (night : Date) (o : Occupancy) (os : List Occupancy)
    → covers room night o ≡ true
    → any (overlaps o) os ≡ false
    → claims_on room night os ≡ 0
claims_beside room night o [] ho free = refl
claims_beside room night o (p ∷ os) ho free =
    ground (arith, covers_overlap room night o p ho, claims_beside room night o os ho)

pub claims_on_le_one :
    (room : ℕ) (night : Date) (os : List Occupancy) → IsExclusive os → claims_on room night os ≤ 1
claims_on_le_one room night [] h = omega arith
claims_on_le_one room night (o ∷ os) (row, free, rest) =
    ground (arith, claims_beside room night o os, claims_on_le_one room night os rest)
