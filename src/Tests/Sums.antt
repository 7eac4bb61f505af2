-- ===== src/Tests/Sums.antt =====
-- The theorems on amounts, waits and codes, at concrete values.
use Prim.Native.String.{String}
use bealhouse.Prelude.{ℕ, ◌*◌, ◌≡◌, ◌≤◌, ◌↔◌, refl, true, false, none, List, [], ◌∷◌, map, arith}
use bealhouse.Prelude.Int.{pos, ◌≤ℤ◌}
use bealhouse.Pricing.{
  Quote, compute, refund, is_late_cancellation, is_short_notice, balance_charge_date,
}
use bealhouse.Pricing.Exact.{IsExact, compute-IsExact}
use bealhouse.Pricing.Refunds.{refund_exact, late_cancellation}
use bealhouse.Pricing.Windows.{in_time_iff, short_notice_iff}
use bealhouse.Payments.Ledger.{Collected, allocate}
use bealhouse.Payments.Allocation.{
  paid, sent, IsFunded, fresh, allocate_fresh, allocate_resumes, allocate_drops_equal_refund,
}
use bealhouse.Jobs.Runner.{whole_seconds, backoff}
use bealhouse.Jobs.Leases.{backoff_bounds, jitter_is_lost}
use bealhouse.Db.Schema.{pending}
use bealhouse.Db.Session.{err, fault, in_failed_transaction}
use bealhouse.Db.Reservations.{CreateBookingParams}
use bealhouse.Booking.Create.{insert_booking}
use bealhouse.Booking.Refusals.{collision_is_final}
use bealhouse.RateLimit.{new_limiter, allow}
use bealhouse.RateLimit.Bound.{granted, InOrder, last_at, granted_bounded}
use bealhouse.Tests.Inn.{inn, calm, paying}

-- Three nights at 8.5%.
abbrev nights : List ℕ
nights = 20_000 ∷ 20_000 ∷ 25_050 ∷ []

abbrev quote : Quote
quote = compute (record { nightly_cents = map pos nights; tax_rate = pos 8500 })

compute-IsExact_example : IsExact 65_050 8500 quote
compute-IsExact_example = compute-IsExact nights 8500 (omega arith) (omega arith)

abbrev plain_quote : Quote
plain_quote = record {
  nights = 2;
  room_subtotal_cents = pos 40_000;
  taxable_cents = pos 40_000;
  tax_cents = pos 3400;
  tax_rate_percent = "8.5";
  total_cents = pos 43_400;
  deposit_cents = pos 21_700;
  balance_cents = pos 21_700;
}

refund_exact_example : refund plain_quote (pos 43_400) true (pos 3000) ≡ pos 21_700
refund_exact_example =
    refund_exact plain_quote 21_700 43_400 3000 true refl (omega arith) (omega arith) (omega arith)

late_cancellation_example :
    (refund quote quote.total_cents true (pos 3000) ≡ quote.balance_cents)
    × (refund quote quote.deposit_cents true (pos 3000) ≡ pos 0)
late_cancellation_example =
    late_cancellation nights 8500 3000 (omega arith) (omega arith) (omega arith)

in_time_iff_example :
    (is_late_cancellation (pos 20_093) (pos 20_100) ≡ false)
    ↔ (pos 20_093 ≤ℤ balance_charge_date (pos 20_100))
in_time_iff_example = in_time_iff (pos 20_093) (pos 20_100)

short_notice_iff_example :
    (is_short_notice (pos 20_093) (pos 20_100) ≡ true)
    ↔ (balance_charge_date (pos 20_100) ≤ℤ pos 20_093)
short_notice_iff_example = short_notice_iff (pos 20_093) (pos 20_100)

-- A deposit and a balance.
abbrev two_payments : List (String × ℕ)
two_payments = ("pi_1", 21_700) ∷ ("pi_2", 21_700) ∷ []

allocate_fresh_example :
    (sent (allocate (fresh two_payments) (pos 30_000)) ≡ 30_000)
    × IsFunded (allocate (fresh two_payments) (pos 30_000)) two_payments
allocate_fresh_example = allocate_fresh 30_000 two_payments (omega arith) (omega arith)

abbrev first_part : Collected
first_part = record { stripe_id = "pi_1"; amount_cents = pos 21_700 }

abbrev second_part : Collected
second_part = record { stripe_id = "pi_2"; amount_cents = pos 8300 }

allocate_resumes_example :
    allocate
      (record { charges = map paid two_payments; already_refunded = pos 21_700 ∷ [] })
      (pos 30_000)
    ≡ second_part ∷ []
unfolding paying allocate
allocate_resumes_example =
    allocate_resumes (map paid two_payments) (first_part ∷ []) (second_part ∷ []) (pos 30_000) refl

allocate_drops_equal_refund_example :
    allocate
      (record { charges = map paid two_payments; already_refunded = pos 5000 ∷ [] })
      (pos 5000)
    ≡ []
allocate_drops_equal_refund_example =
    allocate_drops_equal_refund 5000 ("pi_1", 21_700) (("pi_2", 21_700) ∷ []) (pos 5000 ∷ [])
      (omega arith) (omega arith) (omega arith) refl

backoff_bounds_example :
    (2 ≤ whole_seconds (backoff 3 999)) × (whole_seconds (backoff 3 999) ≤ 3600)
backoff_bounds_example = backoff_bounds 3 999 (omega arith)

jitter_is_lost_example : whole_seconds (backoff 3 999) ≡ whole_seconds (backoff 3 0)
jitter_is_lost_example = jitter_is_lost 3 999 (omega arith)

abbrev again : String → CreateBookingParams
again code = record {
  code = "BH-AAAAAA";
  guest_id = 1;
  status = pending;
  checkin = pos 20_100;
  checkout = pos 20_102;
  guests = pos 2;
  room_subtotal_cents = pos 40_000;
  tax_cents = pos 3400;
  tax_rate_scaled = pos 8500;
  total_cents = pos 43_400;
  deposit_cents = pos 21_700;
  balance_due_cents = pos 21_700;
  balance_charge_at = none;
  policies_accepted = true;
}

collision_is_final_example :
    (insert_booking again (λ n. n ∷ []) 3 false (calm (inn pending []))).0
    ≡ err (fault in_failed_transaction)
unfolding paying
collision_is_final_example = collision_is_final again (λ n. n ∷ []) 1 (calm (inn pending [])) refl

-- Two callers of the limiter of bookings. The first asks seven times, the last time after more than
-- an hour.
abbrev asked : List (String × ℕ)
asked =
    ("a", 0)
    ∷ ("a", 1)
    ∷ ("b", 2)
    ∷ ("a", 3)
    ∷ ("a", 4)
    ∷ ("a", 5)
    ∷ ("a", 6)
    ∷ ("a", 3_700_000_000_000)
    ∷ []

granted-asked : granted "a" asked (new_limiter 360_000_000_000 5 0) ≡ 6
unfolding granted allow
granted-asked = refl

granted_bounded_example :
    granted "a" asked (new_limiter 360_000_000_000 5 0) * 360_000_000_000 ≤ 5_500_000_000_000
unfolding InOrder last_at
granted_bounded_example =
    granted_bounded 360_000_000_000 5 0 "a" asked (ground arith) (ground arith)
