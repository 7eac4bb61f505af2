-- ===== src/Booking/Link.antt =====
-- The signed links to a booking: internal/booking/link.go, with `FormatInt` and `ParseInt` of Go's
-- strconv in base 36 and `Cut` of its strings package. The keyed hash and base64 are a parameter.
use Prim.Native.Char.{Char, code}
use Prim.Native.String.{String, ◌++◌}
use text.Mathlib.Text.{◌==◌ as str_eq}
use bealhouse.Prelude.{
  ℕ, zero, suc, ◌+◌, ◌-◌, ◌*◌, ◌/◌, ◌%◌, ◌^◌, Bool, false, ◌&&◌, ◌||◌, Option, none, some, ltb, leb,
  ◌==◌, if◌then◌else◌,
}
use bealhouse.Prelude.Int.{ℤ, pos, negsuc, ltb_ℤ}
use bealhouse.Prelude.Text.{normalise, trim_slashes}
use bealhouse.Db.Schema.{Instant}

-- The letter at a place, in a text of single letters.
char_at : Char → String → ℕ → Char
char_at other String.[] n = other
char_at other (String.◌∷◌ c s) zero = c
char_at other (String.◌∷◌ c s) (suc n) = char_at other s n

unfoldable pub digit : ℕ → Char
unfolding char_at
digit d = char_at "0" "0123456789abcdefghijklmnopqrstuvwxyz" d

-- The digits of a number go before those that are there; 13 digits are enough for 64 bits.
unfoldable pub format_bits : ℕ → ℕ → String → String
format_bits zero n s = s
format_bits (suc fuel) n s =
    let more = format_bits fuel (n / 36) (String.◌∷◌ (digit (n % 36)) s) in
    if ltb n 36 then String.◌∷◌ (digit n) s else more

-- `strconv.FormatInt(n, 36)`, of a time that is not before 1970.
unfoldable pub format_int : ℕ → String
format_int n = format_bits 13 n ""

abbrev pub digit_value : Char → Option ℕ
digit_value c =
    let k = code c in
    if leb 48 k && leb k 57
    then some (k - 48)
    else if leb 97 k && leb k 122
    then some (k - 87)
    else if leb 65 k && leb k 90
    then some (k - 55)
    else none

abbrev pub and_then {ℓ κ} : {A : Type ℓ} {B : Type κ} → Option A → (A → Option B) → Option B
and_then none f = none
and_then (some a) f = f a

unfoldable pub parse_digits : ℕ → String → Option ℕ
parse_digits n String.[] = some n
parse_digits n (String.◌∷◌ c s) = and_then (digit_value c) (λ d. parse_digits (36 * n + d) s)

-- `ParseUint`: no digits are an error.
unfoldable pub parse_magnitude : String → Option ℕ
parse_magnitude String.[] = none
parse_magnitude (String.◌∷◌ c s) = parse_digits 0 (String.◌∷◌ c s)

abbrev pub positive : Option ℕ → Option ℤ
positive m = and_then m (λ n. if ltb n (2 ^ 63) then some (pos n) else none)

abbrev pub negated : ℕ → ℤ
negated zero = pos 0
negated (suc n) = negsuc n

abbrev pub negative : Option ℕ → Option ℤ
negative m = and_then m (λ n. if leb n (2 ^ 63) then some (negated n) else none)

-- `strconv.ParseInt(s, 36, 64)`; `none` is an error.
unfoldable pub parse_int : String → Option ℤ
parse_int String.[] = none
parse_int (String.◌∷◌ c s) =
    if code c == 45
    then negative (parse_magnitude s)
    else if code c == 43
    then positive (parse_magnitude s)
    else positive (parse_magnitude (String.◌∷◌ c s))

abbrev pub before_dot : Char → Option (String × String) → Option (String × String)
before_dot c none = none
before_dot c (some (a, b)) = some (String.◌∷◌ c a, b)

-- `strings.Cut(s, ".")`
unfoldable pub cut : String → Option (String × String)
cut String.[] = none
cut (String.◌∷◌ c s) = let rest = cut s in if code c == 46 then some ("", s) else before_dot c rest

-- An expiry that does not parse, and a signature that does not hold, are refused.
abbrev pub timely : Instant → Option ℤ → Bool → Bool
timely now none holds = false
timely now (some seconds) holds = holds && ltb_ℤ (pos now) seconds

-- crypto/hmac over SHA-256, in base64, of a key and a message.
module _ (hmac : String → String → String) where
  -- `Links`, and `NewLinks`, which is nil for an empty secret.
  abbrev pub Links : Type 0
  Links = Option String

  unfoldable pub new_links : String → Links
  new_links secret = if str_eq secret "" then none else some secret

  unfoldable pub mac : String → String → String → String
  mac secret code exp = hmac secret (normalise code ++ ("\0" ++ exp))

  -- `Sign`
  unfoldable pub sign : Links → String → Instant → String
  sign none code expires = ""
  sign (some secret) code expires =
      let exp = format_int expires in exp ++ ("." ++ mac secret code exp)

  abbrev pub checked : String → String → Instant → Option (String × String) → Bool
  checked secret code now none = false
  checked secret code now (some (exp, signature)) =
      timely now (parse_int exp) (str_eq signature (mac secret code exp))

  -- `Valid`
  unfoldable pub valid : Links → String → String → Instant → Bool
  valid none code token now = false
  valid (some secret) code token now = checked secret code now (cut token)

  -- `URL`
  unfoldable pub url : Links → String → String → Instant → String
  url links site_url code expires =
      let token = sign links code expires in
      if str_eq token "" || str_eq site_url ""
      then ""
      else trim_slashes site_url ++ ("/booking/" ++ (code ++ ("?t=" ++ token)))
