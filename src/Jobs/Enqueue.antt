-- ===== src/Jobs/Enqueue.antt =====
-- `Enqueue` of internal/jobs/jobs.go.
use Prim.Native.String.{String}
use text.Mathlib.Text.{◌==◌ as str_eq}
use bealhouse.Prelude.{Bool, Option, none, some, ltb, if◌then◌else◌}
use bealhouse.Db.Schema.{Instant, Payload}
use bealhouse.Db.Session.{Action, pure, ◌>>=◌}
use bealhouse.Db.Queue.{enqueue_job}

-- `none` is the zero time: as soon as possible.
pub record Job : Type 0 where
  pub kind : String
  pub run_at : Option Instant
  pub payload : Payload
  pub unique_key : String

abbrev pub key_of : String → Option String
key_of k = if str_eq k "" then none else some k

-- Reports whether the job was added.
unfoldable pub enqueue : Job → Action Bool
enqueue j = do
  added ← enqueue_job (record {
    kind = j.kind;
    run_at = j.run_at;
    payload = j.payload;
    unique_key = key_of j.unique_key;
  })
  pure (ltb 0 added)
