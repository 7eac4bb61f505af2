-- ===== src/RateLimit/Bound.antt =====
-- How many requests the limiter of internal/httpx/ratelimit.go grants to a caller.
use Prim.Native.String.{String}
use native.Mathlib.Nat.{le_refl, le_trans}
use text.Mathlib.Text.{◌==◌ as str_eq}
use bealhouse.Prelude.{
  ℕ, suc, ◌+◌, ◌-◌, ◌*◌, ◌≤◌, ◌≡◌, refl, ◌∙◌, Bool, true, false, ◌&&◌, List, [], ◌∷◌, arith,
  if◌then◌else◌,
}
use bealhouse.RateLimit.{Limiter, idle_bucket_ttl, new_limiter, allow}
use bealhouse.RateLimit.Worth.{
  held, cost, bucket_for-worth, allow-held_at, allow-interval, allow-burst,
}

-- How many of a run of requests, each of a caller at a time, are granted to one caller.
unfoldable pub granted : String → List (String × ℕ) → Limiter → ℕ
granted key [] l = 0
granted key ((asker, now) ∷ rs) l =
    let rest = granted key rs (allow asker now l).1 in
    if str_eq key asker && (allow asker now l).0 then suc rest else rest

unfoldable pub InOrder : ℕ → List (String × ℕ) → Type 0
InOrder t [] = Unit
InOrder t ((asker, now) ∷ rs) = (t ≤ now) × InOrder now rs

unfoldable pub last_at : ℕ → List (String × ℕ) → ℕ
last_at t [] = t
last_at t ((asker, now) ∷ rs) = last_at now rs

last_at_lem : (t : ℕ) (rs : List (String × ℕ)) → InOrder t rs → t ≤ last_at t rs
unfolding InOrder last_at
last_at_lem t [] o = le_refl t
last_at_lem t ((asker, now) ∷ rs) o = le_trans o.0 (last_at_lem now rs o.1)

more-cost :
    (b : Bool) (n interval : ℕ)
    → (if b then suc n else n) * interval ≡ cost b interval + n * interval
more-cost true n interval = ground arith
more-cost false n interval = ground arith

granted-held :
    (interval burst : ℕ) (key : String) (t : ℕ) (rs : List (String × ℕ)) (l : Limiter)
    → l.interval ≡ interval
    → l.burst ≡ burst
    → burst * interval ≤ idle_bucket_ttl
    → InOrder t rs
    → granted key rs l * interval ≤ held interval burst key t l + (last_at t rs - t)
unfolding InOrder granted last_at
granted-held interval burst key t [] l e f p o = ground arith
granted-held interval burst key t ((asker, now) ∷ rs) l e f p o =
    let l1 = (allow asker now l).1 in
    let count =
      more-cost (str_eq key asker && (allow asker now l).0) (granted key rs l1) interval in
    let rest =
      granted-held interval burst key now rs l1 (allow-interval asker now l ∙ e)
        (allow-burst asker now l ∙ f) p o.1 in
    let paid = allow-held_at interval burst key asker now l e f p in
    let waited = bucket_for-worth interval burst (l.buckets key) o.0 in
    let onward = last_at_lem now rs o.1 in let later = o.0 in omega arith

-- From a new limiter, of a burst that refills within the time that an idle bucket is kept, on any
-- run of requests of any callers in order of time, the requests that one caller has granted, each
-- at the price of the time of a token, come to no more than the burst and the time that has passed:
-- neither the sweep of idle buckets nor requests inside an interval refill for free.
pub granted_bounded :
    (interval burst start : ℕ) (key : String) (rs : List (String × ℕ))
    → burst * interval ≤ idle_bucket_ttl
    → InOrder start rs
    → granted key rs (new_limiter interval burst start) * interval
      ≤ burst * interval + (last_at start rs - start)
granted_bounded interval burst start key rs p o =
    let bound =
      granted-held interval burst key start rs (new_limiter interval burst start) refl refl p o in
    omega arith
