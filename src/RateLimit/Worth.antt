-- ===== src/RateLimit/Worth.antt =====
-- What a bucket of internal/httpx/ratelimit.go holds, counted in time, and what a request takes.
use Prim.Native.String.{String}
use mathlib.Core.Path.{subst}
use native.Mathlib.Nat.{add-mul, div-mul-le_self, le_refl, le_trans, mul-le-mul_right}
use text.Mathlib.Text.{◌==◌ as str_eq}
use text.Mathlib.TextEquality.{eq_iff}
use bealhouse.Prelude.{
  ℕ, zero, suc, ◌&&◌, ◌+◌, ◌-◌, ◌*◌, ◌/◌, ◌≤◌, ◌≡◌, refl, min, Bool, true, false, Option, none,
  some, ltb, arith, if◌then◌else◌,
}
use bealhouse.RateLimit.{
  Bucket, Limiter, idle_bucket_ttl, drop_idle, sweep, bucket_for, credit, not_ahead, refill,
  has_token, take_token, charged, allow,
}

-- What a bucket is worth at a time, in time: its tokens, and the part of the next one.
abbrev pub worth : ℕ → ℕ → Bucket → ℕ
worth interval now b = b.tokens * interval + (now - b.seen)

credit-worth :
    (interval burst earned now : ℕ) (b : Bucket)
    → earned * interval ≤ now - b.seen
    → min (b.tokens + earned) burst * interval ≤ b.tokens * interval + earned * interval
    → worth interval now (credit interval burst earned b) ≤ worth interval now b
credit-worth interval burst earned now b h m = ground arith

not_ahead-worth :
    (interval now : ℕ) (b : Bucket) → worth interval now (not_ahead now b) ≤ worth interval now b
not_ahead-worth interval now b = ground arith

drop_idle-worth :
    (interval burst now : ℕ) (o : Option Bucket)
    → burst * interval ≤ idle_bucket_ttl
    → worth interval now (bucket_for burst now (drop_idle now o))
      ≤ worth interval now (bucket_for burst now o)
drop_idle-worth interval burst now none p = ground arith
drop_idle-worth interval burst now (some b) p = ground arith

last_token :
    (interval n : ℕ)
    → (if ltb 0 n then interval + (n - 1) * interval else n * interval) ≡ n * interval
last_token interval zero = refl
last_token interval (suc n) = ground arith

take_token-worth :
    (interval now : ℕ) (b : Bucket)
    → (if has_token b then interval else 0) + worth interval now (take_token b)
      ≤ worth interval now b
take_token-worth interval now b = let one = last_token interval b.tokens in ground arith

pub bucket_for-worth :
    (interval burst : ℕ) {t now : ℕ} (o : Option Bucket)
    → t ≤ now
    → worth interval now (bucket_for burst now o)
      ≤ worth interval t (bucket_for burst t o) + (now - t)
bucket_for-worth interval burst none p = ground arith
bucket_for-worth interval burst (some b) p = ground arith

sweep-interval : (now : ℕ) (l : Limiter) → (sweep now l).interval ≡ l.interval
sweep-interval now l = ground arith

sweep-burst : (now : ℕ) (l : Limiter) → (sweep now l).burst ≡ l.burst
sweep-burst now l = ground arith

refill-worth :
    (interval burst now : ℕ) (b : Bucket)
    → worth interval now (refill interval burst now b) ≤ worth interval now b
refill-worth interval burst now b =
    let e = (now - b.seen) / interval in
    let full = credit interval burst e b in
    let capped =
      mul-le-mul_right {m = min (b.tokens + e) burst} {n = b.tokens + e} interval (omega arith) in
    let split = add-mul b.tokens e interval in
    let credited =
      credit-worth interval burst e now b (div-mul-le_self (now - b.seen) interval) (omega arith) in
    let settled = not_ahead-worth interval now full in le_trans settled credited

-- What a caller can still have granted at a time, in time.
abbrev pub held : ℕ → ℕ → String → ℕ → Limiter → ℕ
held interval burst key now l = worth interval now (bucket_for burst now (l.buckets key))

sweep-held :
    (interval burst : ℕ) (key : String) (now : ℕ) (l : Limiter)
    → burst * interval ≤ idle_bucket_ttl
    → held interval burst key now (sweep now l) ≤ held interval burst key now l
sweep-held interval burst key now l p =
    elim (ltb (now - l.swept) idle_bucket_ttl)
      as (λ x.
        held interval burst key now (
          if x
          then l
          else record l { buckets = λ other. drop_idle now (l.buckets other); swept = now })
        ≤ held interval burst key now l) [
          | true ↦ le_refl _
          | false ↦ drop_idle-worth interval burst now (l.buckets key) p
        ]

charged-held :
    (key : String) (now : ℕ) (l : Limiter)
    → l.burst * l.interval ≤ idle_bucket_ttl
    → (if has_token (charged key now l) then l.interval else 0)
        + worth l.interval now (take_token (charged key now l))
      ≤ held l.interval l.burst key now l
charged-held key now l p = le_trans (take_token-worth l.interval now (charged key now l)) (
    le_trans
      (refill-worth l.interval l.burst now (bucket_for l.burst now ((sweep now l).buckets key)))
      (sweep-held l.interval l.burst key now l p))

abbrev pub cost : Bool → ℕ → ℕ
cost granted interval = if granted then interval else 0

allow-held :
    (key asker : String) (now : ℕ) (l : Limiter)
    → l.burst * l.interval ≤ idle_bucket_ttl
    → cost (str_eq key asker && (allow asker now l).0) l.interval
        + held l.interval l.burst key now (allow asker now l).1
      ≤ held l.interval l.burst key now l
unfolding allow
allow-held key asker now l p = by_asker (str_eq key asker) refl
  where
    Charged : Bool → Type 0
    Charged same =
        cost (same && has_token (charged asker now l)) l.interval
          + worth l.interval now (
              bucket_for l.burst now (
                if same
                then some (take_token (charged asker now l))
                else (sweep now l).buckets key))
        ≤ held l.interval l.burst key now l

    own : key ≡ asker → Charged true
    own e =
        subst
          (λ k.
            cost (has_token (charged k now l)) l.interval
              + worth l.interval now (take_token (charged k now l))
            ≤ held l.interval l.burst key now l)
          e (charged-held key now l p)

    by_asker : (same : Bool) → str_eq key asker ≡ same → Charged same
    by_asker true e = own ((eq_iff key asker).0 e)
    by_asker false e = let kept = sweep-held l.interval l.burst key now l p in omega arith

pub allow-held_at :
    (interval burst : ℕ) (key asker : String) (now : ℕ) (l : Limiter)
    → l.interval ≡ interval
    → l.burst ≡ burst
    → burst * interval ≤ idle_bucket_ttl
    → cost (str_eq key asker && (allow asker now l).0) interval
        + held interval burst key now (allow asker now l).1
      ≤ held interval burst key now l
allow-held_at interval burst key asker now l e f =
    subst
      (λ i.
        burst * i ≤ idle_bucket_ttl
        → cost (str_eq key asker && (allow asker now l).0) i
            + held i burst key now (allow asker now l).1
          ≤ held i burst key now l)
      e
      (subst
        (λ b.
          b * l.interval ≤ idle_bucket_ttl
          → cost (str_eq key asker && (allow asker now l).0) l.interval
              + held l.interval b key now (allow asker now l).1
            ≤ held l.interval b key now l)
        f (allow-held key asker now l))

pub allow-interval :
    (asker : String) (now : ℕ) (l : Limiter) → (allow asker now l).1.interval ≡ l.interval
unfolding allow
allow-interval asker now l = sweep-interval now l

pub allow-burst : (asker : String) (now : ℕ) (l : Limiter) → (allow asker now l).1.burst ≡ l.burst
unfolding allow
allow-burst asker now l = sweep-burst now l
