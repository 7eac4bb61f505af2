-- ===== src/Pricing/Refunds.antt =====
-- What a cancellation keeps and what it returns, in whole cents.
use native.Mathlib.Decide.{dec_lt}
use native.Mathlib.Nat.{mul-le-mul_left}
use bealhouse.Prelude.{
  ℕ, ◌+◌, ◌-◌, ◌*◌, ◌/◌, ◌≤◌, ◌<◌, max, ◌≡◌, ◌∙◌, ap, sym, Bool, true, List, map, arith, sum,
  if◌then◌else◌,
}
use bealhouse.Prelude.Int.{pos, ltb_ℤ}
use bealhouse.Prelude.Int64.{two63, ◌-!◌, -!_pos, -!_neg}
use bealhouse.Pricing.{Quote, rate_scale, processing_fee, retained, refund, compute}
use bealhouse.Pricing.Exact.{cent_limit, scaled-le, ceil_scaled_exact, IsExact, compute-IsExact}

-- The processor's cut of an amount, rounded up.
abbrev pub fee_of : ℕ → ℕ → ℕ
fee_of paid rate = (paid * rate + rate_scale - 1) / rate_scale

-- What the inn keeps: the larger of the forfeited deposit and the processor's cut.
abbrev pub kept : ℕ → Bool → ℕ → ℕ → ℕ
kept deposit late paid rate = max (if late then deposit else 0) (fee_of paid rate)

processing_fee_exact :
    (paid rate : ℕ)
    → paid ≤ cent_limit * 3
    → rate ≤ rate_scale
    → processing_fee (pos paid) (pos rate) ≡ pos (fee_of paid rate)
unfolding processing_fee
processing_fee_exact paid rate h k =
    grind (arith, scaled-le paid rate h k, ceil_scaled_exact paid rate)

fee_of-le : (paid rate : ℕ) → rate ≤ rate_scale → fee_of paid rate ≤ paid
fee_of-le paid rate h = grind arith

-- At half the amount or less, the processor's cut does not exceed the half rounded up.
fee_of-le_half : (paid rate : ℕ) → rate ≤ 50_000 → fee_of paid rate ≤ (paid + 1) / 2
fee_of-le_half paid rate h =
    let e : paid * rate ≤ paid * 50_000 = mul-le-mul_left paid h in omega arith

-- A difference that is held at nothing.
floored :
    (a b : ℕ)
    → a < two63
    → b < two63
    → (if ltb_ℤ (pos a -! pos b) (pos 0) then pos 0 else pos a -! pos b) ≡ pos (a - b)
floored a b h k = elim (dec_lt a b) [
  | yes p ↦ rw (-!_neg a b p k) (ground arith)
  | no p ↦ rw (-!_pos a b (omega arith) h) (ground arith)
]

module _ (q : Quote) (deposit paid rate : ℕ) (late : Bool)
    (deposit_eq : q.deposit_cents ≡ pos deposit) (paid_fits : paid ≤ cent_limit * 3)
    (rate_fits : rate ≤ rate_scale) where
  pub retained_exact : retained q (pos paid) late (pos rate) ≡ pos (kept deposit late paid rate)
  unfolding retained
  retained_exact =
      rw (processing_fee_exact paid rate paid_fits rate_fits, deposit_eq) (ground arith)

  -- For a quote with a deposit that is not negative, and an amount collected and a rate in the
  -- inn's range: the refund is what was collected less the larger of the forfeited deposit (on a
  -- late cancellation) and the processor's cut rounded up, and nothing where that is more.
  pub refund_exact :
      deposit < two63
      → refund q (pos paid) late (pos rate) ≡ pos (paid - kept deposit late paid rate)
  unfolding refund
  refund_exact fits = rw retained_exact (
      floored paid (kept deposit late paid rate) (omega arith)
        (ground (arith, fee_of-le paid rate rate_fits)))

late_of_exact :
    (s r p : ℕ) (q : Quote)
    → IsExact s r q
    → s ≤ cent_limit
    → r ≤ rate_scale
    → p ≤ 50_000
    → (refund q q.total_cents true (pos p) ≡ q.balance_cents)
      × (refund q q.deposit_cents true (pos p) ≡ pos 0)
late_of_exact s r p q e h k l =
    let small : s * r ≤ s * rate_scale = mul-le-mul_left s k in
    let half : fee_of (s + e.taxes) p ≤ (s + e.taxes + 1) / 2 = fee_of-le_half (s + e.taxes) p l in
    (
      ap (λ z. refund q z true (pos p)) e.total_eq
          ∙ refund_exact q e.deposit (s + e.taxes) p true e.deposit_eq (omega arith) (omega arith)
              (omega arith)
          ∙ ap pos (omega arith)
          ∙ sym e.balance_eq,
      ap (λ z. refund q z true (pos p)) e.deposit_eq
          ∙ refund_exact q e.deposit e.deposit p true e.deposit_eq (omega arith) (omega arith)
              (omega arith)
          ∙ ap pos (omega arith),
    )

-- A late cancellation of a stay that `compute` priced, at a processing rate of at most one half:
-- where everything was collected the refund is exactly the balance, and where only the deposit
-- was collected it is nothing.
pub late_cancellation :
    (ns : List ℕ) (r p : ℕ)
    → sum ns ≤ cent_limit
    → r ≤ rate_scale
    → p ≤ 50_000
    → let q = compute (record { nightly_cents = map pos ns; tax_rate = pos r }) in
      (refund q q.total_cents true (pos p) ≡ q.balance_cents)
      × (refund q q.deposit_cents true (pos p) ≡ pos 0)
late_cancellation ns r p h k l =
    late_of_exact (sum ns) r p (compute (record { nightly_cents = map pos ns; tax_rate = pos r }))
      (compute-IsExact ns r h k) h k l
