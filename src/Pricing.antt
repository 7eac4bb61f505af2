-- ===== src/Pricing.antt =====
-- internal/pricing/pricing.go: from nightly rates to the amounts that a guest is charged.
-- Amounts are int64 cents, so every operation on them is the wrapping one of `Prelude.Int64`.
pub mod Percent
pub mod Exact
pub mod Windows
pub mod Refunds
use Prim.Native.String.{String}
use Percent.{percent}
use bealhouse.Prelude.{ℕ, Bool, true, false, ◌||◌, List, [], ◌∷◌, length, if◌then◌else◌}
use bealhouse.Prelude.Int.{ℤ, pos, ◌-ℤ◌, ltb_ℤ, leb_ℤ}
use bealhouse.Prelude.Int64.{◌+!◌, ◌-!◌, ◌*!◌, ◌/!◌}
use bealhouse.Civil.{Date, add_days, before}

-- A tax rate in hundred-thousandths: 8.5% is 8500.
abbrev pub Rate : Type 0
Rate = ℤ

abbrev pub rate_scale : ℕ
rate_scale = 100_000

abbrev pub balance_lead_days : ℕ
balance_lead_days = 7

abbrev pub short_notice_days : ℕ
short_notice_days = 8

unfoldable pub is_short_notice : Date → Date → Bool
unfolding add_days
is_short_notice today checkin = before checkin (add_days today (pos short_notice_days))

unfoldable pub is_late_cancellation : Date → Date → Bool
unfolding add_days
is_late_cancellation on checkin = before checkin (add_days on (pos balance_lead_days))

unfoldable pub balance_charge_date : Date → Date
unfolding add_days ◌-ℤ◌
balance_charge_date checkin = add_days checkin (pos 0 -ℤ pos balance_lead_days)

pub record Input : Type 0 where
  pub nightly_cents : List ℤ
  pub tax_rate : Rate

pub record Quote : Type 0 where
  pub nights : ℕ
  pub room_subtotal_cents : ℤ
  pub taxable_cents : ℤ
  pub tax_cents : ℤ
  pub tax_rate_percent : String
  pub total_cents : ℤ
  pub deposit_cents : ℤ
  pub balance_cents : ℤ

-- Half up.
unfoldable pub tax : ℤ → Rate → ℤ
tax base_cents rate = (base_cents *! rate +! pos 50_000) /! rate_scale

unfoldable pub ceil_scaled : ℤ → Rate → ℤ
ceil_scaled base_cents rate = (base_cents *! rate +! pos rate_scale -! pos 1) /! rate_scale

unfoldable pub half_rounded_up : ℤ → ℤ
half_rounded_up n = (n +! pos 1) /! 2

-- The loop over the nights.
unfoldable pub add_nights : ℤ → List ℤ → ℤ
add_nights acc [] = acc
add_nights acc (n ∷ ns) = add_nights (acc +! n) ns

unfoldable pub compute : Input → Quote
unfolding add_nights tax half_rounded_up
compute i =
    let subtotal = add_nights (pos 0) i.nightly_cents in
    let taxes = tax subtotal i.tax_rate in
    let total = subtotal +! taxes in
    let deposit = half_rounded_up total in
    record {
      nights = length i.nightly_cents;
      room_subtotal_cents = subtotal;
      taxable_cents = subtotal;
      tax_cents = taxes;
      tax_rate_percent = percent i.tax_rate;
      total_cents = total;
      deposit_cents = deposit;
      balance_cents = total -! deposit;
    }

unfoldable pub charge_at_booking : Quote → Bool → ℤ
charge_at_booking q short_notice = if short_notice then q.total_cents else q.deposit_cents

unfoldable pub penalty : Quote → Bool → ℤ
penalty q late = if late then q.deposit_cents else pos 0

unfoldable pub processing_fee : ℤ → Rate → ℤ
processing_fee paid_cents rate =
    if leb_ℤ paid_cents (pos 0) || leb_ℤ rate (pos 0) then pos 0 else ceil_scaled paid_cents rate

unfoldable pub retained : Quote → ℤ → Bool → Rate → ℤ
unfolding penalty
retained q paid_cents late processing =
    let fee = processing_fee paid_cents processing in
    if ltb_ℤ (penalty q late) fee then fee else penalty q late

unfoldable pub refund : Quote → ℤ → Bool → Rate → ℤ
refund q paid_cents late processing =
    let rest = paid_cents -! retained q paid_cents late processing in
    if ltb_ℤ rest (pos 0) then pos 0 else rest
