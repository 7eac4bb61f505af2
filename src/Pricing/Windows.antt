-- ===== src/Pricing/Windows.antt =====
-- The two windows of internal/pricing/pricing.go before an arrival, and the day of the balance
-- charge between them.
use bealhouse.Prelude.{◌≡◌, ◌↔◌, true, false, arith}
use bealhouse.Prelude.Int.{ℤ, pos, negsuc, ◌≤ℤ◌, ◌<ℤ◌, +ℤ_parts, ltb_ℤ}
use bealhouse.Civil.{Date}
use bealhouse.Pricing.{is_short_notice, is_late_cancellation, balance_charge_date}

ltb_ℤ_iff : (a b : ℤ) → ((ltb_ℤ a b ≡ true) ↔ (a <ℤ b)) × ((ltb_ℤ a b ≡ false) ↔ (b ≤ℤ a))
ltb_ℤ_iff a b = ground arith

-- A cancellation is in time exactly up to the day of the balance charge, that day included.
pub in_time_iff :
    (on checkin : Date)
    → (is_late_cancellation on checkin ≡ false) ↔ (on ≤ℤ balance_charge_date checkin)
unfolding is_late_cancellation balance_charge_date
in_time_iff on checkin = ground (arith, +ℤ_parts on (pos 7), +ℤ_parts checkin (negsuc 6))

-- A booking is short notice exactly when its balance charge day is not after the day it is made:
-- then and only then is there no later day left for the scheduled charge.
pub short_notice_iff :
    (today checkin : Date)
    → (is_short_notice today checkin ≡ true) ↔ (balance_charge_date checkin ≤ℤ today)
unfolding is_short_notice balance_charge_date
short_notice_iff today checkin = ground (arith, +ℤ_parts today (pos 8), +ℤ_parts checkin (negsuc 6))
