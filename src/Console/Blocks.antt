-- ===== src/Console/Blocks.antt =====
-- `Block` and `Unblock` of internal/console/calendar.go.
use bealhouse.Prelude.{ℕ, not, none, ◌==◌}
use bealhouse.Civil.{Date, after}
use bealhouse.Db.Schema.{block}
use bealhouse.Db.Session.{
  Action, Outcome, ok, err, Error, raise_if, ◌>>=◌, ◌>>◌, bad_request, not_found, room_taken,
}
use bealhouse.Db.Occupancy.{CreateOccupancyParams, delete_block}
use bealhouse.Occupancy.{create}

-- The reason is left out: it is only shown.
pub record NewBlock : Type 0 where
  pub room_id : ℕ
  pub checkin : Date
  pub checkout : Date

abbrev pub block_claim : NewBlock → CreateOccupancyParams
block_claim b = record {
  room_id = b.room_id;
  checkin = b.checkin;
  checkout = b.checkout;
  kind = block;
  source = "direct";
  booking_id = none;
  expires_at = none;
}

abbrev pub block_error : Error → Error
block_error room_taken = bad_request
block_error e = e

abbrev pub blocked : Outcome ℕ → Outcome ℕ
blocked (ok id) = ok id
blocked (err e) = err (block_error e)

unfoldable pub claim_block : NewBlock → Action ℕ
claim_block b s = let (r, s') = create (block_claim b) s in (blocked r, s')

-- `Ops.Block`
unfoldable pub block_room : NewBlock → Action ℕ
block_room b = do
  raise_if (not (after b.checkout b.checkin)) bad_request
  raise_if (b.room_id == 0) bad_request
  claim_block b

-- `Ops.Unblock`
unfoldable pub unblock : ℕ → Action (Unit {0})
unblock id = do n ← delete_block id; raise_if (n == 0) not_found
