-- ===== src/Occupancy.antt =====
-- internal/occupancy/occupancy.go: a claim on a room, and what a failed claim means.
use bealhouse.Prelude.{ℕ}
use bealhouse.Db.Session.{
  Action, Outcome, ok, err, Error, exclusion_violation, fault, deadlock_detected,
  in_failed_transaction, room_taken, deadlocked, aborted, enclosed, committed,
}
use bealhouse.Db.Occupancy.{CreateOccupancyParams, create_occupancy}

-- `Translate`
unfoldable pub translate : Error → Error
translate exclusion_violation = room_taken
translate (fault deadlock_detected) = deadlocked
translate (fault in_failed_transaction) = aborted
translate e = e

abbrev pub translated {ℓ} : {A : Type ℓ} → Outcome A → Outcome A
translated (ok a) = ok a
translated (err e) = err (translate e)

-- `Create`
unfoldable pub create : CreateOccupancyParams → Action ℕ
create arg s = let (r, s') = create_occupancy arg s in (translated r, s')

-- A transaction whose `Commit` is translated too, as `Create` of internal/booking has it.
unfoldable pub claiming : {A : Type 0} → Action A → Action A
claiming body s =
    let (r, s') = enclosed body s in
    elim r [
      | ok a ↦ let (q, t) = committed a s.db s'.fate s'.db in (translated q, t)
      | err e ↦ (err e, record s' { db = s.db })
    ]
