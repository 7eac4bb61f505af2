-- ===== src/RateLimit.antt =====
-- The token buckets of internal/httpx/ratelimit.go. Times and durations are in nanoseconds, and a
-- difference of times that would be negative is 0, which its uses do not tell apart.
pub mod Worth
pub mod Bound
use Prim.Native.String.{String}
use text.Mathlib.Text.{◌==◌ as str_eq}
use bealhouse.Prelude.{
  ℕ, ◌+◌, ◌-◌, ◌*◌, ◌/◌, min, Bool, true, false, List, [], ◌∷◌, Option, none, some, ltb, ◌==◌,
  if◌then◌else◌,
}

-- An hour.
abbrev pub idle_bucket_ttl : ℕ
idle_bucket_ttl = 3_600_000_000_000

pub record Bucket : Type 0 where
  pub tokens : ℕ
  pub seen : ℕ

pub record Limiter : Type 0 where
  pub interval : ℕ
  pub burst : ℕ
  pub buckets : String → Option Bucket
  pub swept : ℕ

-- `newLimiter`, at a time.
abbrev pub new_limiter : ℕ → ℕ → ℕ → Limiter
new_limiter interval burst now = record {
  interval = interval;
  burst = burst;
  buckets = λ key. none;
  swept = now;
}

abbrev pub drop_idle : ℕ → Option Bucket → Option Bucket
drop_idle now none = none
drop_idle now (some b) = if ltb idle_bucket_ttl (now - b.seen) then none else some b

-- `limiter.sweep`
abbrev pub sweep : ℕ → Limiter → Limiter
sweep now l =
    if ltb (now - l.swept) idle_bucket_ttl
    then l
    else record l { buckets = λ key. drop_idle now (l.buckets key); swept = now }

-- A new caller starts full.
abbrev pub bucket_for : ℕ → ℕ → Option Bucket → Bucket
bucket_for burst now none = record { tokens = burst; seen = now }
bucket_for burst now (some b) = b

abbrev pub credit : ℕ → ℕ → ℕ → Bucket → Bucket
credit interval burst earned b =
    if ltb 0 earned
    then record { tokens = min (b.tokens + earned) burst; seen = b.seen + earned * interval }
    else b

abbrev pub not_ahead : ℕ → Bucket → Bucket
not_ahead now b = if ltb now b.seen then record b { seen = now } else b

-- The refill for the time that has passed.
abbrev pub refill : ℕ → ℕ → ℕ → Bucket → Bucket
refill interval burst now b = not_ahead now (credit interval burst ((now - b.seen) / interval) b)

abbrev pub has_token : Bucket → Bool
has_token b = ltb 0 b.tokens

abbrev pub take_token : Bucket → Bucket
take_token b = if has_token b then record b { tokens = b.tokens - 1 } else b

abbrev pub put : String → Bucket → (String → Option Bucket) → String → Option Bucket
put key b buckets other = if str_eq other key then some b else buckets other

-- The bucket that a request is charged to, refilled.
abbrev pub charged : String → ℕ → Limiter → Bucket
charged key now l =
    refill l.interval l.burst now (bucket_for l.burst now ((sweep now l).buckets key))

-- `limiter.allow`
unfoldable pub allow : String → ℕ → Limiter → Bool × Limiter
allow key now l =
    let b = charged key now l in
    (has_token b, record (sweep now l) { buckets = put key (take_token b) (sweep now l).buckets })
