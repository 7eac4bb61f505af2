-- ===== src/Jobs/Runner.antt =====
-- The runner of internal/jobs/jobs.go. Durations are in milliseconds where the source has a
-- fraction of a second, and in whole seconds where a statement takes them.
use Prim.Native.String.{String, ◌++◌}
use text.Mathlib.Text.{◌==◌ as str_eq}
use bealhouse.Prelude.{
  ℕ, zero, suc, ◌+◌, ◌*◌, ◌/◌, ◌^◌, Bool, true, false, List, [], ◌∷◌, Option, none, some, ltb, ◌==◌,
  if◌then◌else◌,
}
use bealhouse.Db.Schema.{Payload, nothing, Job}
use bealhouse.Db.Session.{Action, Outcome, ok, err, Error, Session, pure, ◌>>=◌, ◌>>◌}
use bealhouse.Db.Queue.{claim_job, delete_job, reschedule_job}
use bealhouse.Jobs.Enqueue.{enqueue}

abbrev pub lease : ℕ
lease = 300

abbrev pub backoff_cap : ℕ
backoff_cap = 3_600_000

-- A handler runs outside of the runner's statements. A panic is an error, as `run` makes it.
pub record Registration : Type 0 where
  pub run : Payload → Action (Unit {0})
  -- in milliseconds; 0 is one-shot work
  pub repeat : ℕ

abbrev pub Kinds : Type 0
Kinds = List (String × Registration)

abbrev pub registered : String → Kinds → Option Registration
registered kind [] = none
registered kind ((k, r) ∷ rest) =
    let later = registered kind rest in if str_eq k kind then some r else later

-- `1<<attempts` seconds, capped; `jitter` is the `rand.IntN(1000)` milliseconds.
unfoldable pub backoff : ℕ → ℕ → ℕ
backoff attempts jitter =
    let tries = if ltb attempts 1 then 1 else attempts in
    let doubled = 2 ^ tries * 1000 in
    (if ltb tries 32
      then (if ltb doubled backoff_cap then doubled else backoff_cap)
      else backoff_cap)
    + jitter

-- `int32(delay.Seconds())`
abbrev pub whole_seconds : ℕ → ℕ
whole_seconds milliseconds = milliseconds / 1000

unfoldable pub fail : ℕ → ℕ → String → Action (Unit {0})
fail id delay reason = reschedule_job id (whole_seconds delay) reason

-- What follows a handler that has succeeded.
unfoldable pub settle_job : Registration → Job → Action Bool
settle_job reg job =
    if ltb 0 reg.repeat
    then (do reschedule_job job.id (whole_seconds reg.repeat) ""; pure true)
    else (do delete_job job.id; pure true)

-- `describe` is the text of an error, which only the row's `last_error` shows.
module _ (kinds : Kinds) (describe : Error → String) where
  -- What follows a handler, by how it has ended.
  unfoldable pub conclude : ℕ → Registration → Job → Outcome (Unit {0}) → Action Bool
  conclude jitter reg job (ok done) = settle_job reg job
  conclude jitter reg job (err e) = do
    fail job.id (backoff job.attempts jitter) (describe e)
    pure true

  unfoldable pub run_job : ℕ → Registration → Job → Action Bool
  run_job jitter reg job s = let (r, s') = reg.run job.payload s in conclude jitter reg job r s'

  unfoldable pub dispatch : ℕ → Option Job → Action Bool
  dispatch jitter none = pure false
  dispatch jitter (some job) = elim (registered job.kind kinds) [
    | none ↦ do fail job.id backoff_cap ("no handler registered for " ++ job.kind); pure true
    | some reg ↦ run_job jitter reg job
  ]

  -- Claims and runs a single job, and reports whether there was one.
  unfoldable pub once : ℕ → Action Bool
  once jitter = do job ← claim_job lease; dispatch jitter job

  -- `drain`, with fuel, and a jitter for each round; the context is not cancelled.
  unfoldable pub drain : ℕ → (ℕ → ℕ) → Session → Session
  drain zero jitter s = s
  drain (suc fuel) jitter s =
      let (r, s') = once (jitter fuel) s in
      elim r [ ok true ↦ drain fuel jitter s' | ok false ↦ s' | err e ↦ s' ]

-- One row for every periodic kind.
unfoldable pub ensure_periodic : Kinds → Action (Unit {0})
ensure_periodic [] = pure tt
ensure_periodic ((kind, reg) ∷ rest) =
    let more = ensure_periodic rest in
    if reg.repeat == 0 then more else (do
      enqueue (record { kind = kind; run_at = none; payload = nothing; unique_key = kind })
      more)
