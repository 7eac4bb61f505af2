-- ===== src/Prelude/Int64.antt =====
-- Go's int64: an integer that is brought back into [-2^63, 2^63) after every operation; and the
-- conversion to int32.
use Prim.Native.Nat.{ℕ, ◌+◌, ◌-◌, ◌*◌, ◌/◌, ◌%◌, ◌≤◌, ◌<◌}
use mathlib.Core.Path.{◌≡◌}
use native.Mathlib.Omega.{arith}
use bealhouse.Prelude.Tests.{ltb, if◌then◌else◌}
use bealhouse.Prelude.Int.{ℤ, pos, negsuc, ◌+ℤ◌, ◌-ℤ◌, ◌*ℤ◌, ◌/ℤ◌}

abbrev pub two63 : ℕ
two63 = 9_223_372_036_854_775_808

abbrev pub two64 : ℕ
two64 = 18_446_744_073_709_551_616

-- The signed reading of a 64-bit pattern.
from_word : ℕ → ℤ
from_word w = if ltb w two63 then pos w else negsuc (two64 - w - 1)

unfoldable pub wrap64 : ℤ → ℤ
unfolding from_word
wrap64 (pos n) = from_word (n % two64)
wrap64 (negsuc n) = from_word (two64 - 1 - n % two64)

abbrev pub two31 : ℕ
two31 = 2_147_483_648

abbrev two32 : ℕ
two32 = 4_294_967_296

from_word32 : ℕ → ℤ
from_word32 w = if ltb w two31 then pos w else negsuc (two32 - w - 1)

-- `int32(n)`: the low 32 bits, read with their sign.
unfoldable pub wrap32 : ℤ → ℤ
unfolding from_word32
wrap32 (pos n) = from_word32 (n % two32)
wrap32 (negsuc n) = from_word32 (two32 - 1 - n % two32)

infixl 65 ◌+!◌ ◌-!◌
infixl 70 ◌*!◌ ◌/!◌
unfoldable pub ◌+!◌ : ℤ → ℤ → ℤ
a +! b = wrap64 (a +ℤ b)

unfoldable pub ◌-!◌ : ℤ → ℤ → ℤ
a -! b = wrap64 (a -ℤ b)

unfoldable pub ◌*!◌ : ℤ → ℤ → ℤ
a *! b = wrap64 (a *ℤ b)

unfoldable pub ◌/!◌ : ℤ → ℕ → ℤ
a /! d = wrap64 (a /ℤ d)

pub wrap64_pos : (n : ℕ) → n < two63 → wrap64 (pos n) ≡ pos n
unfolding wrap64
wrap64_pos n h = ground arith

pub wrap64_neg : (n : ℕ) → n < two63 → wrap64 (negsuc n) ≡ negsuc n
unfolding wrap64
wrap64_neg n h = ground arith

pub wrap32_pos : (n : ℕ) → n < two31 → wrap32 (pos n) ≡ pos n
unfolding wrap32
wrap32_pos n h = ground arith

+ℤ_pos : (a b : ℕ) → pos a +ℤ pos b ≡ pos (a + b)
unfolding ◌+ℤ◌
+ℤ_pos a b = ground arith

*ℤ_pos : (a b : ℕ) → pos a *ℤ pos b ≡ pos (a * b)
unfolding ◌*ℤ◌
*ℤ_pos a b = ground arith

/ℤ_pos : (a d : ℕ) → pos a /ℤ d ≡ pos (a / d)
unfolding ◌/ℤ◌
/ℤ_pos a d = let e : 0 / d ≡ 0 = omega arith in rw e (ground arith)

-ℤ_pos : (a b : ℕ) → b ≤ a → pos a -ℤ pos b ≡ pos (a - b)
unfolding ◌-ℤ◌
-ℤ_pos a b h = ground arith

-ℤ_neg : (a b : ℕ) → a < b → pos a -ℤ pos b ≡ negsuc (b - a - 1)
unfolding ◌-ℤ◌
-ℤ_neg a b h = ground arith

-- In range the operations on amounts that are not negative are the exact ones.
pub +!_pos : (a b : ℕ) → a + b < two63 → pos a +! pos b ≡ pos (a + b)
unfolding ◌+!◌
+!_pos a b h = rw +ℤ_pos (wrap64_pos (a + b) h)

pub *!_pos : (a b : ℕ) → a * b < two63 → pos a *! pos b ≡ pos (a * b)
unfolding ◌*!◌
*!_pos a b h = rw *ℤ_pos (wrap64_pos (a * b) h)

pub /!_pos : (a d : ℕ) → a / d < two63 → pos a /! d ≡ pos (a / d)
unfolding ◌/!◌
/!_pos a d h = rw /ℤ_pos (wrap64_pos (a / d) h)

pub -!_pos : (a b : ℕ) → b ≤ a → a < two63 → pos a -! pos b ≡ pos (a - b)
unfolding ◌-!◌
-!_pos a b h p = rw (-ℤ_pos a b h) (wrap64_pos (a - b) (omega arith))

pub -!_neg : (a b : ℕ) → a < b → b < two63 → pos a -! pos b ≡ negsuc (b - a - 1)
unfolding ◌-!◌
-!_neg a b h p = rw (-ℤ_neg a b h) (wrap64_neg (b - a - 1) (omega arith))
