-- ===== src/Booking/Sweeper.antt =====
-- `Sweep` of internal/booking/sweeper.go.
use bealhouse.Prelude.{ℕ}
use bealhouse.Db.Session.{Action, pure, ◌>>=◌}
use bealhouse.Db.Occupancy.{sweep_expired_holds}
use bealhouse.Db.Bookings.{expire_abandoned_bookings}

-- Lapsed holds first, so that the bookings that they were for count as abandoned.
unfoldable pub sweep : Action (ℕ × ℕ)
sweep = do holds ← sweep_expired_holds; expired ← expire_abandoned_bookings; pure (holds, expired)
