-- ===== src/Db/Queue.antt =====
-- The statements of internal/db/gen/jobs.sql.go.
use Prim.Native.String.{String}
use text.Mathlib.Text.{◌==◌ as str_eq}
use bealhouse.Prelude.{
  ℕ, ◌+◌, Bool, false, not, List, [], ◌∷◌, ◌++◌, Option, none, some, keep, any, leb, ◌==◌,
  if◌then◌else◌,
}
use bealhouse.Db.Schema.{Instant, Payload, Job, Store}
use bealhouse.Db.Session.{Action, Outcome, ok, statement, exec}

-- The unique index on `unique_key`, where it is not NULL.
abbrev pub same_key : Option String → Job → Bool
same_key none j = false
same_key (some k) j = elim j.unique_key [ none ↦ false | some l ↦ str_eq l k ]

pub record EnqueueJobParams : Type 0 where
  pub kind : String
  pub run_at : Option Instant
  pub payload : Payload
  pub unique_key : Option String

-- `coalesce(run_at, now())`
abbrev pub due_at : Option Instant → Instant → Instant
due_at none now = now
due_at (some t) now = t

abbrev pub job_of : ℕ → Instant → EnqueueJobParams → Job
job_of id now arg = record {
  id = id;
  kind = arg.kind;
  run_at = due_at arg.run_at now;
  payload = arg.payload;
  attempts = 0;
  last_error = "";
  unique_key = arg.unique_key;
}

abbrev pub insert_job : EnqueueJobParams → Store → Outcome ℕ × Store
insert_job arg d = if any (same_key arg.unique_key) d.jobs then (ok 0, d) else (
  ok 1,
  record d { next_id = d.next_id + 1; jobs = d.jobs ++ (job_of d.next_id d.now arg ∷ []) },
)

-- `EnqueueJob`, with the number of rows inserted.
unfoldable pub enqueue_job : EnqueueJobParams → Action ℕ
enqueue_job arg = statement (insert_job arg)

-- `WHERE run_at <= now() ORDER BY run_at LIMIT 1`: of rows that are equally early the first stands.
abbrev pub earlier : Job → Option Job → Option Job
earlier j none = some j
earlier j (some k) = if leb j.run_at k.run_at then some j else some k

unfoldable pub first_due : Instant → List Job → Option Job
first_due now [] = none
first_due now (j ∷ js) =
    let rest = first_due now js in if leb j.run_at now then earlier j rest else rest

abbrev pub patch_job : ℕ → (Job → Job) → List Job → List Job
patch_job id f [] = []
patch_job id f (j ∷ js) = (if j.id == id then f j else j) ∷ patch_job id f js

abbrev pub claimed : ℕ → Instant → Job → Job
claimed lease now j = record j { run_at = now + lease; attempts = j.attempts + 1 }

abbrev pub claim : ℕ → Store → Outcome (Option Job) × Store
claim lease d = elim (first_due d.now d.jobs) [
  | none ↦ (ok none, d)
  | some j ↦ (
    ok (some (claimed lease d.now j)),
    record d { jobs = patch_job j.id (claimed lease d.now) d.jobs },
  )
]

-- `ClaimJob`; `none` is pgx.ErrNoRows.
unfoldable pub claim_job : ℕ → Action (Option Job)
claim_job lease = statement (claim lease)

-- `DeleteJob`
unfoldable pub delete_job : ℕ → Action (Unit {0})
delete_job id = exec (λ d. record d { jobs = keep (λ j. not (j.id == id)) d.jobs })

abbrev pub rescheduled : ℕ → String → Instant → Job → Job
rescheduled delay reason now j = record j { run_at = now + delay; last_error = reason }

-- `RescheduleJob`
unfoldable pub reschedule_job : ℕ → ℕ → String → Action (Unit {0})
reschedule_job id delay reason =
    exec (λ d. record d { jobs = patch_job id (rescheduled delay reason d.now) d.jobs })
