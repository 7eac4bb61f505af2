-- ===== src/Tests/Runs.antt =====
-- The theorems on stores and runs, at the small inn.
use bealhouse.Prelude.{◌≡◌, ◌≤◌, ◌⊎◌, refl, true, false, [], ◌∷◌, none, some, All, arith}
use bealhouse.Prelude.Int.{pos}
use bealhouse.Db.Schema.{Store, pending, confirmed, Job, nothing}
use bealhouse.Db.Session
use bealhouse.Db.Session.{
  Session, Error, Outcome, ok, err, pure, raise, transaction, enclosed, round_trip, exec, ◌>>=◌,
  statement, fault, deadlock_detected, lost, in_failed_transaction, unique_violation,
  exclusion_violation, no_recipient,
}
use bealhouse.Db.Keeps.{Keeps-raise}
use bealhouse.Db.Queue.{first_due, claim, claim_job}
use bealhouse.Payments.Charge.{refund_due}
use bealhouse.Payments.Record.{record_charge, record_refund}
use bealhouse.Payments.Cancel.{cancel}
use bealhouse.Payments.Gateway.{failure}
use bealhouse.Payments.Replay.{world, charged_once, refunded_once}
use bealhouse.Payments.Gone.{IsGone, cancelled-IsGone}
use bealhouse.Payments.Returned.{late_payment_is_gone}
use bealhouse.Booking.Sweeper.{sweep}
use bealhouse.Booking.Swept.{IsSwept, sweep_frees}
use bealhouse.Jobs.Runner.{Kinds, once}
use bealhouse.Kept.Delivery.{HasJob, IsDelivered, not_lost}
use bealhouse.Jobs.Exclusion.{IsOther, here, claims, lease_excludes}
use bealhouse.Invariant.Exclusive.{claims_on}
use bealhouse.Invariant.Money.{collected}
use bealhouse.Console.Blocks.{NewBlock}
use bealhouse.System.{
  World, Order, first_half, Operation, books, blocks, pays, perform, Reach, begins, acts,
}
use bealhouse.System.Invariants.{never_sold_twice, paid_is_collected}
use bealhouse.Push.{delivered}
use bealhouse.Tests.Inn.{
  empty_inn, inn, stay, held, blocked, claim_by, deposit_row, calm, charge, paying,
}

abbrev quiet : World
quiet = record {
  today = pos 20_000;
  gateway = record {
    create_intent = λ r. err Session.gateway_failed;
    charge_off_session = λ r. failure Session.gateway_failed;
    refund = λ r. err Session.gateway_failed;
  };
  deliver = λ p. ok tt;
  notify = λ a title tag. delivered;
  describe = λ e. "";
  owner_email = "";
}

abbrev new_block : NewBlock
new_block = record { room_id = 1; checkin = pos 20_100; checkout = pos 20_102 }

opened : Reach empty_inn
opened = begins (record { no_bookings = refl; no_payments = refl; no_claims = refl })

abbrev after_block : Session
after_block = perform quiet (blocks new_block) (calm empty_inn)

-- Two blocks for the same nights, the second with a statement that fails.
abbrev after_blocks : Session
after_blocks =
    perform quiet (blocks new_block) (record { db = after_block.db; fate = some lost ∷ [] })

reached : Reach after_blocks.db
reached = acts quiet (blocks new_block) _ (acts quiet (blocks new_block) (calm empty_inn) opened)

never_sold_twice_example : claims_on 1 (pos 20_100) after_blocks.db.occupancy ≤ 1
never_sold_twice_example = never_sold_twice after_blocks.db reached 1 (pos 20_100)

abbrev order : Order
order = record {
  room_slug = "one";
  checkin = pos 20_100;
  checkout = pos 20_102;
  guests = pos 2;
  guest = record { name = "Bo"; email = "bo@example.com"; phone = "603-555-9876" };
  expected_total_cents = pos 43_400;
  accepted_policies = true;
}

-- A booking from the website, its deposit, and the same report again.
abbrev booked : Session
booked = perform quiet (books 1000 (λ n. 0 ∷ 1 ∷ 2 ∷ 3 ∷ 4 ∷ 5 ∷ []) order) (calm empty_inn)

abbrev payment : Operation
payment = pays first_half (record charge { booking_code = "BH-234567" })

abbrev paid_twice : Session
paid_twice = perform quiet payment (perform quiet payment booked)

reached_paid : Reach paid_twice.db
reached_paid = acts quiet payment _ (
    acts quiet payment _
      (acts quiet (books 1000 (λ n. 0 ∷ 1 ∷ 2 ∷ 3 ∷ 4 ∷ 5 ∷ []) order) (calm empty_inn) opened))

paid_is_collected_example :
    All (λ b. b.amount_paid_cents ≡ collected b.id paid_twice.db.payments) paid_twice.db.bookings
paid_is_collected_example = paid_is_collected paid_twice.db reached_paid

abbrev paid_inn : Store
paid_inn = record (inn confirmed (claim_by ∷ [])) {
  payments = deposit_row ∷ [];
  bookings = record (stay confirmed) { amount_paid_cents = pos 21_700 } ∷ [];
}

charged_once_example : world (record_charge charge (calm paid_inn)).1.db ≡ world paid_inn
charged_once_example = charged_once charge (calm paid_inn) refl

refunded_once_example : world (record_refund charge (calm paid_inn)).1.db ≡ world paid_inn
refunded_once_example = refunded_once charge (calm paid_inn) refl

late_payment_is_gone_example :
    IsGone 2 (record_charge charge (calm (inn pending (blocked ∷ [])))).1.db
unfolding paying
late_payment_is_gone_example =
    late_payment_is_gone charge (calm (inn pending (blocked ∷ [])))
      (record {
        outcome = refund_due;
        booking_id = 2;
        code = "BH-AAAAAA";
        refund_cents = pos 21_700;
        shortfall_cents = pos 0;
      })
      refl

cancelled-IsGone_example : IsGone 2 (cancel "BH-AAAAAA" (pos 20_000) (calm paid_inn)).1.db
unfolding paying
cancelled-IsGone_example =
    cancelled-IsGone "BH-AAAAAA" (pos 20_000) (calm paid_inn)
      (record {
        booking_id = 2;
        code = "BH-AAAAAA";
        late = false;
        retained_cents = pos 651;
        refund_cents = pos 21_049;
      })
      refl

sweep_frees_example :
    IsSwept (inn pending (held ∷ [])) (sweep (calm (inn pending (held ∷ [])))).1.db
unfolding paying
sweep_frees_example = sweep_frees (calm (inn pending (held ∷ []))) (1, 1) refl

abbrev job : Job
job = record {
  id = 9;
  kind = "email.send";
  run_at = 900;
  payload = nothing;
  attempts = 0;
  last_error = "";
  unique_key = none;
}

abbrev queued_inn : Store
queued_inn = record empty_inn { next_id = 10; jobs = job ∷ [] }

-- Another runner claims while the first is busy, in vain.
abbrev claimed_inn : Store
claimed_inn = (claim_job 300 (calm (claim 300 queued_inn).1)).1.db

lease_excludes_example : IsOther 9 (first_due claimed_inn.now claimed_inn.jobs)
unfolding first_due claim_job statement
lease_excludes_example =
    lease_excludes 300 queued_inn job claimed_inn refl (omega arith)
      (claims 300 (calm (claim 300 queued_inn).1) here) (omega arith)

-- A handler of "email.send" that always fails.
abbrev broken : Kinds
broken = ("email.send", record { run = λ p. raise no_recipient; repeat = 0 }) ∷ []

not_lost_example :
    HasJob 9 (once broken (λ e. "") 500 (calm queued_inn)).1.db
    ⊎ IsDelivered broken 9 (calm queued_inn)
not_lost_example =
    not_lost broken (λ e. "") 500 9 (calm queued_inn) ((λ p. Keeps-raise no_recipient), tt) refl
