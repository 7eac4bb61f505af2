-- ===== src/Booking/Refusals.antt =====
-- `insertBooking` of internal/booking/booking.go, inside its transaction.
use Prim.Native.String.{String}
use bealhouse.Prelude.{ℕ, suc, ◌≡◌, refl, false, List}
use bealhouse.Db.Session.{err, Session, fault, in_failed_transaction, unique_violation, raise}
use bealhouse.Db.Reservations.{CreateBookingParams, create_booking}
use bealhouse.Booking.Request.{new_code}
use bealhouse.Booking.Create.{insert_booking}

-- A code that is taken ends `insertBooking` with an error of the transaction, for all its attempts: the
-- statement that failed has aborted the transaction, so no other code is ever tried. `n` attempts are
-- left after the next one.
pub collision_is_final :
    (arg : String → CreateBookingParams) (random : ℕ → List ℕ) (n : ℕ) (s : Session)
    → (create_booking (arg (new_code (random (suc n)))) s).0 ≡ err unique_violation
    → (insert_booking arg random (suc (suc n)) false s).0 ≡ err (fault in_failed_transaction)
unfolding insert_booking raise
collision_is_final arg random n s h = rw (h, insert_booking) refl
