-- ===== src/Payments/Returned.antt =====
-- Money that has to go back: what `RecordCharge` and `RecordRefund` leave when they say so.
use mathlib.Core.Path.{subst}
use bealhouse.Prelude.{ℕ, ◌≡◌, Option, none, some}
use bealhouse.Prelude.Int.{ℤ, pos}
use bealhouse.Db.Schema.{Store, Kind, Settled}
use bealhouse.Db.Session.{Action, Outcome, ok, err, Session, pure}
use bealhouse.Db.Keeps.{Returns, Ensures}
use bealhouse.Db.Ensures.{Ensures-keeps, Ensures-bind, Ensures-if, Ensures-pure, Ensures-raise}
use bealhouse.Db.Bookings.{PaymentRow}
use bealhouse.Payments.Charge.{
  Charge, Decision, confirmed, already_applied, refund_due, underpaid, Result, validate,
}
use bealhouse.Payments.Record.{
  checked, plain, result, post, intake, collect, settle, confirm, return_payment, record_charge,
}
use bealhouse.Payments.Gone.{
  IsGone, IsReleased, release_ensures, cancel_ensures, queues-IsGone, unit_kept,
  with_booking-Ensures,
}
use bealhouse.Kept.Payments.{queue_refund-Keeps, cancellation_mail-Keeps}

-- A result that says "refund due" has let go of the booking that it names.
abbrev pub LetsGo : Decision → ℕ → Store → Type 0
LetsGo refund_due id d = IsGone id d
LetsGo confirmed id d = Unit
LetsGo already_applied id d = Unit
LetsGo underpaid id d = Unit

abbrev SettledBy : Result → Store → Type 0
SettledBy r d = LetsGo r.outcome r.booking_id d

free : {A : Type 0} (m : Action A) → Ensures (λ d. Unit) m (λ x d. Unit)
free m = Ensures-keeps _ (unit_kept m)

return_payment-Ensures :
    (b : PaymentRow) (x : ℤ) → Ensures (λ d. Unit) (return_payment b x) SettledBy
unfolding return_payment
return_payment-Ensures b x =
    Ensures-bind _ _ (λ n. IsReleased b.id) _ (release_ensures b.id)
      (λ n.
        Ensures-bind _ _ (λ done. IsGone b.id) _ (cancel_ensures b.id)
          (λ _.
            Ensures-bind _ _ (λ done. IsGone b.id) _
              (Ensures-keeps _ (queue_refund-Keeps (queues-IsGone b.id) _ _))
              (λ _.
                Ensures-bind _ _ (λ done. IsGone b.id) _
                  (Ensures-keeps _ (cancellation_mail-Keeps (queues-IsGone b.id) b _))
                  (λ _. Ensures-pure SettledBy _))))

pure-plain : (b : PaymentRow) → Ensures (λ d. Unit) (pure (plain already_applied b)) SettledBy
unfolding pure
pure-plain b = record { at = λ s h. tt }

pure_confirmed : (b : PaymentRow) → Ensures (λ d. Unit) (pure (plain confirmed b)) SettledBy
unfolding pure
pure_confirmed b = record { at = λ s h. tt }

pure_short :
    (b : PaymentRow) (x : ℤ) → Ensures (λ d. Unit) (pure (result underpaid b (pos 0) x)) SettledBy
unfolding pure
pure_short b x = record { at = λ s h. tt }

settle-Ensures : (b : PaymentRow) (c : Charge) → Ensures (λ d. Unit) (settle b c) SettledBy
unfolding settle confirm
settle-Ensures b c =
    Ensures-bind _ _ (λ x d. Unit) _ (free _)
      (λ secured. Ensures-if _ _ _ _ (return_payment-Ensures b c.amount_cents) (
        Ensures-bind _ _ (λ x d. Unit) _ (free _)
          (λ _. Ensures-bind _ _ (λ x d. Unit) _ (free _) (λ _. pure_confirmed b))))

collect-Ensures : (c : Charge) (b : PaymentRow) → Ensures (λ d. Unit) (collect c b) SettledBy
unfolding collect
collect-Ensures c b =
    Ensures-bind _ _ (λ x d. Unit) _ (free _)
      (λ _.
        Ensures-bind _ _ (λ x d. Unit) _ (free _)
          (λ _. Ensures-if _ _ _ _ (pure_short b _) (settle-Ensures b c)))

intake-Ensures :
    (c : Charge) (kind : Kind) (status : Settled) (work : PaymentRow → Action Result)
    (b : PaymentRow)
    → Ensures (λ d. Unit) (work b) SettledBy
    → Ensures (λ d. Unit) (intake c kind status work b) SettledBy
unfolding intake post
intake-Ensures c kind status work b kw =
    Ensures-bind _ _ (λ x d. Unit) _ (free _)
      (λ seen. Ensures-if seen _ _ _ (pure-plain b) (Ensures-bind _ _ (λ x d. Unit) _ (free _) go))
  where
    go :
        (recorded : Option ℕ)
        → Ensures
            (λ d. Unit)
            (elim recorded as (λ _. Action Result) [
              | none ↦ pure (plain already_applied b)
              | some id ↦ work b
            ])
            SettledBy
    go none = pure-plain b
    go (some id) = kw

checked-Ensures :
    (v : Outcome (Unit {0})) (m : Action Result)
    → Ensures (λ d. Unit) m SettledBy
    → Ensures (λ d. Unit) (checked v m) SettledBy
checked-Ensures (ok _) m km = km
checked-Ensures (err e) m km = Ensures-raise e SettledBy

record_charge-Ensures : (c : Charge) → Ensures (λ d. Unit) (record_charge c) SettledBy
unfolding record_charge
record_charge-Ensures c =
    checked-Ensures (validate c) _
      (with_booking-Ensures _ _ SettledBy (λ b. intake-Ensures c _ _ _ b (collect-Ensures c b)))

-- When `RecordCharge` answers that a refund is due, the booking that the money was for is cancelled, and
-- no room is kept for it.
pub late_payment_is_gone :
    (c : Charge) (s : Session) (r : Result)
    → (record_charge c s).0 ≡ ok r
    → LetsGo r.outcome r.booking_id (record_charge c s).1.db
late_payment_is_gone c s r h =
    let k : Returns SettledBy (record_charge c s).0 (record_charge c s).1.db =
      (record_charge-Ensures c).at s tt in
    subst (λ o. Returns SettledBy o (record_charge c s).1.db) h k
