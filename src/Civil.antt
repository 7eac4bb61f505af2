-- ===== src/Civil.antt =====
-- internal/civil/civil.go: the inn's calendar. A civil date is midnight UTC of its day in the
-- source; here it is the number of that day, counted from the Unix epoch, negative before it.
pub mod Months
use bealhouse.Prelude.{Bool}
use bealhouse.Prelude.Int.{ℤ, ◌+ℤ◌, ◌-ℤ◌, ltb_ℤ}

abbrev pub Date : Type 0
Date = ℤ

-- `AddDays`, which is `d.AddDate(0, 0, n)`.
unfoldable pub add_days : Date → ℤ → Date
add_days d n = d +ℤ n

-- `Nights`: between two midnights UTC the hours are a multiple of 24.
unfoldable pub nights : Date → Date → ℤ
nights checkin checkout = checkout -ℤ checkin

-- `time.Time.Before` and `After` on civil dates.
abbrev pub before : Date → Date → Bool
before a b = ltb_ℤ a b

abbrev pub after : Date → Date → Bool
after a b = ltb_ℤ b a
