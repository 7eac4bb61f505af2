-- ===== src/Booking/Signed.antt =====
-- What `Valid` of internal/booking/link.go makes of the tokens of `Sign`.
use Prim.Native.Char.{Char, code}
use Prim.Native.String.{String, ◌++◌}
use text.Mathlib.Text.{◌==◌ as str_eq}
use text.Mathlib.TextEquality.{eq_iff}
use text.Mathlib.TextLemmas.{cons-append, nil-append}
use bealhouse.Prelude.{
  ℕ, zero, suc, ◌+◌, ◌*◌, ◌/◌, ◌%◌, ◌^◌, ◌≤◌, ◌<◌, ◌≡◌, refl, sym, ap, ◌∙◌, Bool, true, false, not,
  ◌&&◌, Option, none, some, ltb, ◌==◌, lt→ltb, ==_iff, arith, if◌then◌else◌,
}
use bealhouse.Prelude.Int.{pos}
use bealhouse.Prelude.Text.{normalise}
use bealhouse.Db.Schema.{Instant}
use bealhouse.Booking.Link.{
  digit, format_bits, format_int, digit_value, parse_digits, parse_magnitude, positive, parse_int,
  cut, before_dot, mac, sign, checked, timely, valid,
}

is_value : ℕ → Option ℕ → Bool
is_value d none = false
is_value d (some k) = k == d

-- The letter of a digit has its value, and is no dot and no sign.
is_plain : ℕ → Bool
is_plain d =
    is_value d (digit_value (digit d))
    && not (code (digit d) == 46)
    && not (code (digit d) == 45)
    && not (code (digit d) == 43)

all_plain : ℕ → Bool
all_plain zero = true
all_plain (suc d) = is_plain d && all_plain d

digits_plain : all_plain 36 ≡ true
unfolding all_plain is_plain is_value digit
digits_plain = refl

plain_below : (n d : ℕ) → d < n → all_plain n ≡ true → is_plain d ≡ true
unfolding all_plain
plain_below zero d h k = absurd (omega arith)
plain_below (suc n) d h k = go (d == n) refl (plain_below n d)
  where
    go :
        (b : Bool)
        → (d == n) ≡ b
        → (d < n → all_plain n ≡ true → is_plain d ≡ true)
        → is_plain d ≡ true
    go true e more = rw ((==_iff d n).0 e) (ground arith)
    go false e more = more (ground arith) (ground arith)

plain : (d : ℕ) → d < 36 → is_plain d ≡ true
plain d h = plain_below 36 d h digits_plain

digit_value-digit : (d : ℕ) → d < 36 → digit_value (digit d) ≡ some d
unfolding is_plain is_value
digit_value-digit d h = go (digit_value (digit d)) (ground (arith, plain d h))
  where
    go : (o : Option ℕ) → is_value d o ≡ true → o ≡ some d
    go none e = absurd (ground arith)
    go (some k) e = ap some ((==_iff k d).0 e)

no_dot : (d : ℕ) → d < 36 → (code (digit d) == 46) ≡ false
unfolding is_plain
no_dot d h = ground (arith, plain d h)

bound : ℕ → ℕ
bound zero = 1
bound (suc fuel) = 36 * bound fuel

-- Thirteen digits hold what 64 bits do.
enough : 2 ^ 63 ≤ bound 13
unfolding bound
enough = omega arith

step_digits :
    (n d : ℕ) (s : String)
    → d < 36
    → parse_digits n (String.◌∷◌ (digit d) s) ≡ parse_digits (36 * n + d) s
unfolding parse_digits
step_digits n d s h = rw (digit_value-digit d h) refl

parse_digits-format_bits :
    (fuel n : ℕ) (s : String)
    → n < bound fuel
    → parse_digits 0 (format_bits fuel n s) ≡ parse_digits n s
unfolding bound format_bits
parse_digits-format_bits zero n s h = ap (λ m. parse_digits m s) (omega arith)
parse_digits-format_bits (suc fuel) n s h =
    go (ltb n 36) refl
      (parse_digits-format_bits fuel (n / 36) (String.◌∷◌ (digit (n % 36)) s) (omega arith))
  where
    less : String
    less = format_bits fuel (n / 36) (String.◌∷◌ (digit (n % 36)) s)

    go :
        (b : Bool)
        → ltb n 36 ≡ b
        → parse_digits 0 less ≡ parse_digits (n / 36) (String.◌∷◌ (digit (n % 36)) s)
        → parse_digits 0 (if b then String.◌∷◌ (digit n) s else less) ≡ parse_digits n s
    go true e rest = step_digits 0 n s (ground arith) ∙ ap (λ m. parse_digits m s) (omega arith)
    go false e rest =
        rest
        ∙ step_digits (n / 36) (n % 36) s (omega arith)
        ∙ ap (λ m. parse_digits m s) (omega arith)

leading :
    (fuel n : ℕ) (s : String)
    → n < bound (suc fuel)
    → (d : ℕ) × (d < 36) × (t : String) × (format_bits (suc fuel) n s ≡ String.◌∷◌ (digit d) t)
unfolding bound format_bits
leading zero n s h = (n, omega arith, s, rw (lt→ltb n 36 (omega arith)) refl)
leading (suc fuel) n s h =
    go (ltb n 36) refl (leading fuel (n / 36) (String.◌∷◌ (digit (n % 36)) s) (omega arith))
  where
    less : String
    less = format_bits (suc fuel) (n / 36) (String.◌∷◌ (digit (n % 36)) s)

    go :
        (b : Bool)
        → ltb n 36 ≡ b
        → (d : ℕ) × (d < 36) × (t : String) × (less ≡ String.◌∷◌ (digit d) t)
        → (d : ℕ) × (d < 36)
          × (t : String) × ((if b then String.◌∷◌ (digit n) s else less) ≡ String.◌∷◌ (digit d) t)
    go true e rest = (n, ground arith, s, refl)
    go false e rest = rest

parse_int-leading :
    (d : ℕ) (t : String)
    → d < 36
    → parse_int (String.◌∷◌ (digit d) t) ≡ positive (parse_digits 0 (String.◌∷◌ (digit d) t))
unfolding parse_int parse_magnitude is_plain
parse_int-leading d t h =
    let no_minus : (code (digit d) == 45) ≡ false = ground (arith, plain d h) in
    let no_plus : (code (digit d) == 43) ≡ false = ground (arith, plain d h) in
    rw (no_minus, no_plus) refl

-- `ParseInt` reads what `FormatInt` wrote.
parse_int-format_int : (n : ℕ) → n < 2 ^ 63 → parse_int (format_int n) ≡ some (pos n)
unfolding format_int parse_digits
parse_int-format_int n h =
    let fits : n < bound 13 = omega (arith, enough) in
    let (d, k, t, e) = leading 12 n "" fits in
    ap parse_int e
    ∙ parse_int-leading d t k
    ∙ ap (λ s. positive (parse_digits 0 s)) (sym e)
    ∙ ap positive (parse_digits-format_bits 13 n "" fits)
    ∙ rw (lt→ltb n (2 ^ 63) h) refl

dot : (m : String) → "." ++ m ≡ String.◌∷◌ "." m
dot m = cons-append "." "" m ∙ ap (λ t. String.◌∷◌ "." t) (nil-append m)

before_dot-none : (c : Char) (o : Option (String × String)) → before_dot c o ≡ none → o ≡ none
before_dot-none c none h = refl
before_dot-none c (some (a, b)) h = absurd (ground arith)

cut-append : (s m : String) → cut s ≡ none → cut (s ++ ("." ++ m)) ≡ some (s, m)
unfolding cut
cut-append String.[] m h = ap cut (nil-append ("." ++ m) ∙ dot m)
cut-append (String.◌∷◌ c s) m h =
    ap cut (cons-append c s ("." ++ m)) ∙ go (code c == 46) h (cut-append s m)
  where
    go :
        (b : Bool)
        → (if b then some ("", s) else before_dot c (cut s)) ≡ none
        → (cut s ≡ none → cut (s ++ ("." ++ m)) ≡ some (s, m))
        → (if b then some ("", s ++ ("." ++ m)) else before_dot c (cut (s ++ ("." ++ m))))
          ≡ some (String.◌∷◌ c s, m)
    go true e more = absurd (ground arith)
    go false e more = rw (more (before_dot-none c (cut s) e)) refl

cut-digit : (d : ℕ) (s : String) → d < 36 → cut s ≡ none → cut (String.◌∷◌ (digit d) s) ≡ none
unfolding cut
cut-digit d s h k = rw (no_dot d h, k) refl

cut-format_bits : (fuel n : ℕ) (s : String) → cut s ≡ none → cut (format_bits fuel n s) ≡ none
unfolding format_bits
cut-format_bits zero n s k = k
cut-format_bits (suc fuel) n s k = go (ltb n 36) refl (
    cut-format_bits fuel (n / 36) (String.◌∷◌ (digit (n % 36)) s)
      (cut-digit (n % 36) s (omega arith) k))
  where
    less : String
    less = format_bits fuel (n / 36) (String.◌∷◌ (digit (n % 36)) s)

    go :
        (b : Bool)
        → ltb n 36 ≡ b
        → cut less ≡ none
        → cut (if b then String.◌∷◌ (digit n) s else less) ≡ none
    go true e rest = cut-digit n s (ground arith) k
    go false e rest = rest

cut-format_int : (n : ℕ) → cut (format_int n) ≡ none
unfolding format_int cut
cut-format_int n = cut-format_bits 13 n "" refl

-- A link that was signed for a booking is valid for it, however its code is typed, exactly until it
-- expires, if the expiry fits 64 bits.
pub sign_then_valid :
    (hmac : String → String → String) (secret booking_code typed : String) (expires now : Instant)
    → expires < 2 ^ 63
    → normalise typed ≡ normalise booking_code
    → valid hmac (some secret) typed (sign hmac (some secret) booking_code expires) now
      ≡ ltb now expires
unfolding valid sign mac
sign_then_valid hmac secret booking_code typed expires now h same =
    ap (checked hmac secret typed now)
      (cut-append exp (mac hmac secret booking_code exp) (cut-format_int expires))
    ∙ ap (λ t. timely now t (str_eq (mac hmac secret booking_code exp) (mac hmac secret typed exp)))
        (parse_int-format_int expires h)
    ∙ rw
        ((eq_iff (mac hmac secret booking_code exp) (mac hmac secret typed exp)).1
          (ap (λ k. hmac secret (k ++ ("\0" ++ exp))) (sym same)))
        (ground arith)
  where
    exp : String
    exp = format_int expires
