-- ===== src/Prelude/Text.antt =====
-- What the program uses of Go's strings package, over native strings.
use Prim.Native.Nat.{ℕ, ◌+◌}
use Prim.Native.Char.{Char, code}
use Prim.Native.String.{String}
use mathlib.Core.Path.{◌≡◌, refl}
use mathlib.Core.Bool.{Bool, true, false, ◌&&◌, ◌||◌}
use text.Mathlib.Text.{◌==◌ as str_eq}
use bealhouse.Prelude.Tests.{leb, ◌==◌, if◌then◌else◌}

-- unicode.IsSpace
pub is_space : ℕ → Bool
is_space c =
    (leb 9 c && leb c 13)
    || (c == 32)
    || (c == 0x85)
    || (c == 0xa0)
    || (c == 0x1680)
    || (leb 0x2000 c && leb c 0x200a)
    || (c == 0x2028)
    || (c == 0x2029)
    || (c == 0x202f)
    || (c == 0x205f)
    || (c == 0x3000)

trim_left : String → String
trim_left String.[] = String.[]
trim_left (String.◌∷◌ c s) =
    let rest = trim_left s in if is_space (code c) then rest else String.◌∷◌ c s

trim_right : String → String
trim_right String.[] = String.[]
trim_right (String.◌∷◌ c s) =
    let rest = trim_right s in if str_eq rest "" && is_space (code c) then "" else String.◌∷◌ c rest

-- strings.TrimSpace
unfoldable pub trim_space : String → String
unfolding is_space trim_left trim_right
trim_space s = trim_right (trim_left s)

-- `strings.TrimRight(s, "/")`
unfoldable pub trim_slashes : String → String
trim_slashes String.[] = String.[]
trim_slashes (String.◌∷◌ c s) =
    let rest = trim_slashes s in if str_eq rest "" && (code c == 47) then "" else String.◌∷◌ c rest

-- The number of characters that pass a test.
unfoldable pub count_chars : (ℕ → Bool) → String → ℕ
count_chars p String.[] = 0
count_chars p (String.◌∷◌ c s) = let rest = count_chars p s in if p (code c) then rest + 1 else rest

trimmed : trim_space "  BH-2 3  " ≡ "BH-2 3"
unfolding trim_space
trimmed = refl

upper_in : String → String → Char → Char
upper_in (String.◌∷◌ l ls) (String.◌∷◌ u us) c =
    let rest = upper_in ls us c in if code c == code l then u else rest
upper_in _ _ c = c

-- strings.ToUpper on ASCII letters; other characters stay, which for the codes of this program,
-- all ASCII, is the same thing.
unfoldable pub to_upper : String → String
unfolding upper_in
to_upper String.[] = String.[]
to_upper (String.◌∷◌ c s) =
    String.◌∷◌ (upper_in "abcdefghijklmnopqrstuvwxyz" "ABCDEFGHIJKLMNOPQRSTUVWXYZ" c) (to_upper s)

-- lower() of Postgres, on ASCII letters.
unfoldable pub to_lower : String → String
unfolding upper_in
to_lower String.[] = String.[]
to_lower (String.◌∷◌ c s) =
    String.◌∷◌ (upper_in "ABCDEFGHIJKLMNOPQRSTUVWXYZ" "abcdefghijklmnopqrstuvwxyz" c) (to_lower s)

-- strings.Contains(s, "@")
unfoldable pub contains_at : String → Bool
contains_at String.[] = false
contains_at (String.◌∷◌ c s) = let rest = contains_at s in if code c == 64 then true else rest

-- strings.HasPrefix(s, "@")
unfoldable pub starts_at : String → Bool
starts_at String.[] = false
starts_at (String.◌∷◌ c s) = code c == 64

-- strings.HasSuffix(s, "@")
unfoldable pub ends_at : String → Bool
ends_at String.[] = false
ends_at (String.◌∷◌ c s) = let rest = ends_at s in if str_eq s "" then code c == 64 else rest

-- A booking code as it is looked up: strings.ToUpper(strings.TrimSpace(code)).
unfoldable pub normalise : String → String
unfolding to_upper trim_space
normalise code = to_upper (trim_space code)

-- strings.TrimSpace(s) == ""
unfoldable pub is_blank : String → Bool
unfolding trim_space
is_blank s = str_eq (trim_space s) ""

normalised : normalise " bh-2aq3z9 " ≡ "BH-2AQ3Z9"
unfolding normalise
normalised = refl
