-- ===== src/Payments/Gone.antt =====
-- What a cancellation and a refund of internal/payments leave behind.
use Prim.Native.String.{String}
use bealhouse.Prelude.{
  ℕ, ◌≡◌, refl, Bool, true, false, not, ◌||◌, List, [], ◌∷◌, Option, none, some, any, All, keep,
  ◌==◌, if◌then◌else◌,
}
use mathlib.Core.Path.{subst}
use bealhouse.Civil.{Date}
use bealhouse.Db.Schema.{Store, Booking, Occupancy, cancelled}
use bealhouse.Db.Session.{Action, ok, Session, raise, exec, booking_not_found}
use bealhouse.Db.Keeps.{Keeps, Returns, Ensures, Keeps-pure, Keeps-statement, Keeps-if}
use bealhouse.Db.Ensures.{
  Ensures-keeps, Ensures-bind, Ensures-statement, Ensures-transaction, Ensures-pure, Ensures-raise,
}
use bealhouse.Db.Occupancy.{is_for, release_booking_occupancy}
use bealhouse.Db.Bookings.{PaymentRow, is_cancelled, with_status, patch, cancel_booking}
use bealhouse.Db.Queue
use bealhouse.Db.Queue.{EnqueueJobParams, enqueue_job, insert_job}
use bealhouse.Payments.Record.{with_booking}
use bealhouse.Payments.Cancel.{Cancellation, cancellation, queue_any_refund, cancel_found, cancel}
use bealhouse.Kept.Payments.{queue_refund-Keeps, cancellation_mail-Keeps}

-- Nothing has a claim for the booking.
abbrev pub IsReleased : ℕ → Store → Type 0
IsReleased id d = any (is_for id) d.occupancy ≡ false

-- No room is kept for the booking, and it is cancelled.
pub record IsGone (id : ℕ) (d : Store) : Type 0 where
  pub released : IsReleased id d
  pub called_off : All (λ b. (not (b.id == id) || is_cancelled b.status) ≡ true) d.bookings

abbrev Off : ℕ → Booking → Type 0
Off id b = (not (b.id == id) || is_cancelled b.status) ≡ true

any-keep-not :
    (id : ℕ) (os : List Occupancy) → any (is_for id) (keep (λ o. not (is_for id o)) os) ≡ false
any-keep-not id [] = refl
any-keep-not id (o ∷ os) = go (is_for id o) refl (any-keep-not id os)
  where
    go :
        (b : Bool)
        → is_for id o ≡ b
        → any (is_for id) (keep (λ o. not (is_for id o)) os) ≡ false
        → any (is_for id) (
            if not b
            then o ∷ keep (λ o. not (is_for id o)) os
            else keep (λ o. not (is_for id o)) os)
          ≡ false
    go true e rest = rest
    go false e rest = rw (e, rest) refl

patched-Off : (id : ℕ) (bs : List Booking) → All (Off id) (patch id (with_status cancelled) bs)
patched-Off id [] = tt
patched-Off id (b ∷ bs) = (go (b.id == id) refl, patched-Off id bs)
  where
    go : (c : Bool) → (b.id == id) ≡ c → Off id (if c then with_status cancelled b else b)
    go true e = rw e refl
    go false e = rw e refl

pub release_ensures :
    (id : ℕ) → Ensures (λ d. Unit) (release_booking_occupancy id) (λ n. IsReleased id)
unfolding release_booking_occupancy
release_ensures id = Ensures-statement _ _ (λ d h. any-keep-not id d.occupancy)

pub cancel_ensures : (id : ℕ) → Ensures (IsReleased id) (cancel_booking id) (λ done. IsGone id)
unfolding cancel_booking exec
cancel_ensures id =
    Ensures-statement _ _ (λ d h. record { released = h; called_off = patched-Off id d.bookings })

pub queues-IsGone : (id : ℕ) (arg : EnqueueJobParams) → Keeps (IsGone id) (enqueue_job arg)
unfolding enqueue_job
queues-IsGone id arg = Keeps-statement _ (λ d h. go d h _ refl)
  where
    go :
        (d : Store)
        → IsGone id d
        → (seen : Bool) → any (Queue.same_key arg.unique_key) d.jobs ≡ seen
        → IsGone id (insert_job arg d).1
    go d h true e = rw e h
    go d h false e = rw e (record { released = h.released; called_off = h.called_off })

-- The booking that a result names.
abbrev Called : (Cancellation → Store → Type 0)
Called r d = IsGone r.booking_id d

pub unit_kept : {A : Type 0} (m : Action A) → Keeps (λ d. Unit) m
unit_kept m = record { at = λ s h. tt }

cancel_found-Ensures : (on : Date) (b : PaymentRow) → Ensures (λ d. Unit) (cancel_found on b) Called
unfolding cancel_found queue_any_refund
cancel_found-Ensures on b =
    Ensures-bind _ _ (λ x d. Unit) _ (Ensures-keeps _ (unit_kept _))
      (λ _.
        Ensures-bind _ _ (λ x d. Unit) _ (Ensures-keeps _ (unit_kept _))
          (λ _.
            Ensures-bind _ _ (λ x d. Unit) _ (Ensures-keeps _ (unit_kept _))
              (λ s.
                Ensures-bind _ _ (λ n. IsReleased b.id) _ (release_ensures b.id)
                  (λ n.
                    Ensures-bind _ _ (λ done. IsGone b.id) _ (cancel_ensures b.id)
                      (λ _.
                        Ensures-bind _ _ (λ x. IsGone b.id) _
                          (Ensures-keeps _ (
                            Keeps-if _ _ _ (queue_refund-Keeps (queues-IsGone b.id) _ _)
                              (Keeps-pure tt)))
                          (λ _.
                            Ensures-bind _ _ (λ x. IsGone b.id) _
                              (Ensures-keeps _ (cancellation_mail-Keeps (queues-IsGone b.id) b _))
                              (λ _. Ensures-pure Called (cancellation on s b))))))))

pub with_booking-Ensures :
    {A : Type 0} (code : String) (work : PaymentRow → Action A) (Q : A → Store → Type 0)
    → ((b : PaymentRow) → Ensures (λ d. Unit) (work b) Q)
    → Ensures (λ d. Unit) (with_booking code work) Q
unfolding with_booking
with_booking-Ensures {A} code work Q kw =
    Ensures-transaction _ Q (Ensures-bind _ _ (λ x d. Unit) Q (Ensures-keeps _ (unit_kept _)) go)
  where
    go :
        (found : Option PaymentRow)
        → Ensures
            (λ d. Unit)
            (elim found as (λ _. Action A) [ none ↦ raise booking_not_found | some b ↦ work b ])
            Q
    go none = Ensures-raise _ Q
    go (some b) = kw b

cancel-Ensures : (code : String) (on : Date) → Ensures (λ d. Unit) (cancel code on) Called
unfolding cancel
cancel-Ensures code on = with_booking-Ensures code _ Called (cancel_found-Ensures on)

-- A cancellation that succeeds leaves its booking cancelled, and no room kept for it: no booking, hold
-- or block names it any more.
pub cancelled-IsGone :
    (code : String) (on : Date) (s : Session) (r : Cancellation)
    → (cancel code on s).0 ≡ ok r
    → IsGone r.booking_id (cancel code on s).1.db
cancelled-IsGone code on s r h =
    let k : Returns Called (cancel code on s).0 (cancel code on s).1.db =
      (cancel-Ensures code on).at s tt in
    subst (λ o. Returns Called o (cancel code on s).1.db) h k
