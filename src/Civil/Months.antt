-- ===== src/Civil/Months.antt =====
-- `AddMonths` of internal/civil/civil.go, which is `AddDate` of Go's time package: the day of the
-- month is kept, and what it exceeds the month by runs into the next. Months are counted from March,
-- the first of the year 0, so that February ends a year.
use bealhouse.Prelude.{ℕ, ◌+◌, ◌-◌, ◌*◌, ◌/◌, ◌%◌, ◌≡◌, refl}
use bealhouse.Prelude.Int.{pos, negsuc, ◌-ℤ◌}
use bealhouse.Civil.{Date}

-- The days from 1 March of the year 0 to the Unix epoch.
abbrev epoch : ℕ
epoch = 719_468

-- The years of a 400-year cycle that a day of it comes after.
abbrev year_of_cycle : ℕ → ℕ
year_of_cycle day = (day - day / 1460 + day / 36_524 - day / 146_096) / 365

-- The day of a cycle that a year starts with, and that of a year that a month starts with.
abbrev year_start : ℕ → ℕ
year_start year = 365 * year + year / 4 - year / 100

abbrev month_start : ℕ → ℕ
month_start month = (153 * month + 2) / 5

-- The months before a day, and its place in its month, from 0.
unfoldable pub month_and_day : ℕ → ℕ × ℕ
month_and_day days =
    let day = days % 146_097 in
    let year = year_of_cycle day in
    let of_year = day - year_start year in
    let month = (5 * of_year + 2) / 153 in
    (12 * (400 * (days / 146_097) + year) + month, of_year - month_start month)

unfoldable pub first_of : ℕ → ℕ
first_of months =
    let year = months / 12 in
    146_097 * (year / 400) + year_start (year % 400) + month_start (months % 12)

-- The days since 1 March of the year 0, of a date that is not earlier.
abbrev since : Date → ℕ
since (pos n) = n + epoch
since (negsuc n) = epoch - (n + 1)

-- `AddMonths`
unfoldable pub add_months : Date → ℕ → Date
unfolding month_and_day first_of
add_months d n =
    let (months, day) = month_and_day (since d) in pos (first_of (months + n) + day) -ℤ pos epoch

-- 31 January 2026 and a month is 3 March; 29 February 2024 and a year is 1 March 2025.
overflowing : add_months (pos 20_484) 1 ≡ pos 20_515
unfolding add_months month_and_day first_of ◌-ℤ◌
overflowing = refl

leap_day : add_months (pos 19_782) 12 ≡ pos 20_148
unfolding add_months month_and_day first_of ◌-ℤ◌
leap_day = refl
