-- ===== src/Pricing/Exact.antt =====
-- The amounts of internal/pricing/pricing.go on prices and rates in the inn's range, where no
-- int64 overflows: the wrapping arithmetic is then the arithmetic of the whole numbers.
use native.Mathlib.Nat.{mul-le-mul}
use bealhouse.Prelude.{
  ℕ, ◌+◌, ◌-◌, ◌*◌, ◌/◌, ◌≤◌, ◌<◌, ◌≡◌, ap, ◌∙◌, List, [], ◌∷◌, map, arith, sum,
}
use bealhouse.Prelude.Int.{pos}
use bealhouse.Prelude.Int64.{two63, +!_pos, -!_pos, *!_pos, /!_pos}
use bealhouse.Pricing.{Quote, rate_scale, tax, ceil_scaled, half_rounded_up, add_nights, compute}

-- Ten thousand million dollars: above any stay, and far below 2^63 once it is multiplied by a rate.
abbrev pub cent_limit : ℕ
cent_limit = 1_000_000_000_000

pub scaled-le :
    (s r : ℕ) → s ≤ cent_limit * 3 → r ≤ rate_scale → s * r ≤ cent_limit * 3 * rate_scale
scaled-le s r h k = mul-le-mul h k

pub add_nights_exact :
    (acc : ℕ) (ns : List ℕ)
    → acc + sum ns < two63
    → add_nights (pos acc) (map pos ns) ≡ pos (acc + sum ns)
unfolding add_nights
add_nights_exact acc [] h = ap pos (omega arith)
add_nights_exact acc (n ∷ ns) h =
    rw (+!_pos acc n (omega arith), add_nights)
      (add_nights_exact (acc + n) ns (omega arith) ∙ ap pos (omega arith))

pub tax_exact :
    (s r : ℕ) → s * r + 50_000 < two63 → tax (pos s) (pos r) ≡ pos ((s * r + 50_000) / rate_scale)
unfolding tax
tax_exact s r h =
    rw (*!_pos s r (omega arith))
      (rw (+!_pos (s * r) 50_000 h) (/!_pos (s * r + 50_000) rate_scale (omega arith)))

pub ceil_scaled_exact :
    (s r : ℕ)
    → s * r + rate_scale < two63
    → ceil_scaled (pos s) (pos r) ≡ pos ((s * r + rate_scale - 1) / rate_scale)
unfolding ceil_scaled
ceil_scaled_exact s r h = rw (*!_pos s r (omega arith)) (
    rw (+!_pos (s * r) rate_scale h) (
      rw (-!_pos (s * r + rate_scale) 1 (omega arith) h)
        (/!_pos (s * r + rate_scale - 1) rate_scale (omega arith))))

pub half_exact : (n : ℕ) → n + 1 < two63 → half_rounded_up (pos n) ≡ pos ((n + 1) / 2)
unfolding half_rounded_up
half_exact n h = rw (+!_pos n 1 h) (/!_pos (n + 1) 2 (omega arith))

-- What `compute` returns, as whole numbers.
pub record IsExact (s r : ℕ) (q : Quote) : Type 0 where
  pub taxes : ℕ
  pub deposit : ℕ
  pub balance : ℕ
  pub subtotal_eq : q.room_subtotal_cents ≡ pos s
  pub taxable_eq : q.taxable_cents ≡ pos s
  pub tax_eq : q.tax_cents ≡ pos taxes
  pub total_eq : q.total_cents ≡ pos (s + taxes)
  pub deposit_eq : q.deposit_cents ≡ pos deposit
  pub balance_eq : q.balance_cents ≡ pos balance
  -- the tax is the whole cent nearest to the exact one, a tie going up
  pub tax_below : taxes * rate_scale ≤ s * r + 50_000
  pub tax_above : s * r < taxes * rate_scale + 50_000
  -- no cent is lost, and the odd one is in the deposit
  pub reconciles : deposit + balance ≡ s + taxes
  pub deposit_larger : balance ≤ deposit
  pub by_one_cent : deposit ≤ balance + 1

-- A quote over prices in the inn's range: the subtotal is the sum of the nights, the tax is the
-- whole cent nearest to subtotal times rate with ties up, the total is subtotal and tax, deposit
-- and balance add up to the total, and the deposit is the larger half by one cent at most.
pub compute-IsExact :
    (ns : List ℕ) (r : ℕ)
    → sum ns ≤ cent_limit
    → r ≤ rate_scale
    → IsExact (sum ns) r (compute (record { nightly_cents = map pos ns; tax_rate = pos r }))
unfolding compute
compute-IsExact ns r h k =
    let s : ℕ = sum ns in
    let t : ℕ = (s * r + 50_000) / rate_scale in
    let bound : s * r ≤ cent_limit * 3 * rate_scale = scaled-le s r (omega arith) k in
    let es : add_nights (pos 0) (map pos ns) ≡ pos s =
      add_nights_exact 0 ns (omega arith) ∙ ap pos (omega arith) in
    let et : tax (pos s) (pos r) ≡ pos t = tax_exact s r (omega (arith, bound)) in
    let eh : half_rounded_up (pos (s + t)) ≡ pos ((s + t + 1) / 2) =
      half_exact (s + t) (omega (arith, bound)) in
    record {
      taxes = t;
      deposit = (s + t + 1) / 2;
      balance = s + t - (s + t + 1) / 2;
      subtotal_eq = es;
      taxable_eq = es;
      tax_eq = rw es et;
      total_eq = rw es (rw et (+!_pos s t (omega (arith, bound))));
      deposit_eq = rw es (rw et (rw (+!_pos s t (omega (arith, bound))) eh));
      balance_eq = rw es (
          rw et (
            rw (+!_pos s t (omega (arith, bound)))
              (rw eh (-!_pos (s + t) ((s + t + 1) / 2) (omega arith) (omega (arith, bound))))));
      tax_below = omega arith;
      tax_above = omega arith;
      reconciles = omega arith;
      deposit_larger = omega arith;
      by_one_cent = omega arith;
    }
