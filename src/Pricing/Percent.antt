-- ===== src/Pricing/Percent.antt =====
-- `Rate.Percent` of internal/pricing/pricing.go, with what it uses of strconv, fmt and strings.
use Prim.Native.Char.{code}
use Prim.Native.String.{String, ◌++◌}
use text.Mathlib.Text.{◌==◌ as str_eq}
use bealhouse.Prelude.{ℕ, zero, suc, ◌/◌, ◌%◌, ◌≡◌, refl, ◌&&◌, ltb, ◌==◌, if◌then◌else◌}
use bealhouse.Prelude.Int.{ℤ, pos, negsuc, sub_ℕ, pos_part, neg_part, eqb_ℤ, ◌/ℤ◌}

digit : ℕ → String
digit d =
    if d == 0
    then "0"
    else if d == 1
    then "1"
    else if d == 2
    then "2"
    else if d == 3
    then "3"
    else if d == 4
    then "4"
    else if d == 5
    then "5"
    else if d == 6
    then "6"
    else if d == 7
    then "7"
    else if d == 8
    then "8"
    else "9"

-- The decimal digits of a number below 10 ^ fuel, in front of a text.
digits_before : ℕ → ℕ → String → String
unfolding digit
digits_before zero n out = out
digits_before (suc fuel) n out =
    let more = digits_before fuel (n / 10) (digit (n % 10) ++ out) in
    if ltb n 10 then digit n ++ out else more

-- `strconv.FormatInt` in base 10: an int64 has at most 19 digits.
unfoldable pub format_int : ℤ → String
unfolding digits_before
format_int (pos n) = digits_before 19 n ""
format_int (negsuc n) = "-" ++ digits_before 19 (suc n) ""

-- `fmt.Sprintf("%03d", n)` at -1000 < n < 1000: the sign takes one of the three places.
pad3 : ℤ → String
unfolding digit
pad3 (pos n) = digit (n / 100) ++ digit (n / 10 % 10) ++ digit (n % 10)
pad3 (negsuc n) =
    let m = suc n in
    let tail = digit (m / 10 % 10) ++ digit (m % 10) in
    if ltb m 100 then "-" ++ tail else "-" ++ digit (m / 100) ++ tail

-- `strings.TrimRight(s, "0")`
trim_zeros : String → String
trim_zeros String.[] = String.[]
trim_zeros (String.◌∷◌ c s) =
    let rest = trim_zeros s in if str_eq rest "" && code c == b'0' then "" else String.◌∷◌ c rest

-- Go's remainder has the sign of the dividend.
rem_ℤ : ℤ → ℕ → ℤ
rem_ℤ a d = sub_ℕ (pos_part a % d) (neg_part a % d)

unfoldable pub percent : ℤ → String
unfolding format_int pad3 trim_zeros rem_ℤ ◌/ℤ◌
percent r =
    let whole = format_int (r /ℤ 1000) in
    if eqb_ℤ (rem_ℤ r 1000) (pos 0) then whole else whole ++ "." ++ trim_zeros (pad3 (rem_ℤ r 1000))

percent_readme : percent (pos 8500) ≡ "8.5"
unfolding percent
percent_readme = refl

percent_whole : percent (pos 3000) ≡ "3"
unfolding percent
percent_whole = refl

percent_small : percent (pos 7) ≡ "0.007"
unfolding percent
percent_small = refl

percent_negative : percent (negsuc 2049) ≡ "-2.-5"
unfolding percent
percent_negative = refl
