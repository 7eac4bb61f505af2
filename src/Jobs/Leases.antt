-- ===== src/Jobs/Leases.antt =====
-- The waits of a failed job: `backoff` of internal/jobs/jobs.go.
use native.Mathlib.Nat.{pow-suc}
use bealhouse.Prelude.{
  ℕ, zero, suc, ◌≡◌, ◌≤◌, ◌<◌, sym, ◌∙◌, ◌+◌, ◌*◌, ◌/◌, ◌^◌, ltb, arith, if◌then◌else◌,
}
use bealhouse.Jobs.Runner.{backoff, backoff_cap, whole_seconds}

pow_pos : (n : ℕ) → 2 ≤ 2 ^ suc n
pow_pos zero = omega arith
pow_pos (suc n) = rw (pow-suc 2 (suc n)) (omega (arith, pow_pos n))

-- The wait before the jitter, in seconds, for a power `p` of 2.
abbrev seconds : ℕ → ℕ → ℕ
seconds tries p = if ltb tries 32 then (if ltb (p * 1000) backoff_cap then p else 3600) else 3600

abbrev tries : ℕ → ℕ
tries n = if ltb n 1 then 1 else n

tries-suc : (n : ℕ) → tries (suc n) ≡ suc n
tries-suc n = ground arith

two_le : (n : ℕ) → 2 ≤ 2 ^ tries n
two_le zero = pow_pos 0
two_le (suc n) = rw (tries-suc n) (pow_pos n)

capped :
    (t p jitter : ℕ)
    → (if ltb t 32
          then (if ltb (p * 1000) backoff_cap then p * 1000 else backoff_cap)
          else backoff_cap)
        + jitter
      ≡ seconds t p * 1000 + jitter
capped t p jitter = ground arith

backoff-seconds :
    (attempts jitter : ℕ)
    → backoff attempts jitter ≡ seconds (tries attempts) (2 ^ tries attempts) * 1000 + jitter
unfolding backoff
backoff-seconds attempts jitter = capped (tries attempts) (2 ^ tries attempts) jitter

seconds_bounds : (t p : ℕ) → 2 ≤ p → (2 ≤ seconds t p) × (seconds t p ≤ 3600)
seconds_bounds t p h = (ground arith, ground arith)

whole : (k jitter : ℕ) → jitter < 1000 → (k * 1000 + jitter) / 1000 ≡ k
whole k jitter h = omega arith

-- Whatever the number of attempts and the jitter below a second, a failed job waits from two seconds to
-- an hour.
pub backoff_bounds :
    (attempts jitter : ℕ)
    → jitter < 1000
    → (2 ≤ whole_seconds (backoff attempts jitter))
      × (whole_seconds (backoff attempts jitter) ≤ 3600)
backoff_bounds attempts jitter h =
    rw
      (
        backoff-seconds attempts jitter,
        whole (seconds (tries attempts) (2 ^ tries attempts)) jitter h,
      )
      (seconds_bounds (tries attempts) (2 ^ tries attempts) (two_le attempts))

-- The jitter, below a second, is lost: the wait is stored in whole seconds, and is the same for every
-- jitter.
pub jitter_is_lost :
    (attempts jitter : ℕ)
    → jitter < 1000
    → whole_seconds (backoff attempts jitter) ≡ whole_seconds (backoff attempts 0)
jitter_is_lost attempts jitter h =
    rw (backoff-seconds attempts jitter, backoff-seconds attempts 0)
      (whole (seconds (tries attempts) (2 ^ tries attempts)) jitter h
        ∙ sym (whole (seconds (tries attempts) (2 ^ tries attempts)) 0 (omega arith)))
