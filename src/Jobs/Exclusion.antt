-- ===== src/Jobs/Exclusion.antt =====
-- What the queue of internal/jobs/jobs.go promises about leases.
use Prim.Native.String.{String}
use bealhouse.Prelude.{
  ℕ, ◌≡◌, ◌≤◌, ◌<◌, refl, ◌+◌, Bool, true, false, List, [], ◌∷◌, ◌++◌, Option, none, some, keep,
  any, All, ltb, leb, ◌==◌, arith, if◌then◌else◌,
}
use bealhouse.Db.Schema.{Instant, Job, Store}
use bealhouse.Db.Session.{Session}
use bealhouse.Db.Keeps.{Keeps, Keeps-statement, Keeps-exec}
use bealhouse.Db.Queue.{
  first_due, earlier, patch_job, claimed, claim, claim_job, delete_job, reschedule_job, rescheduled,
  EnqueueJobParams, enqueue_job, same_key, job_of, insert_job,
}

abbrev pub IsOther : ℕ → Option Job → Type 0
IsOther id none = Unit
IsOther id (some j) = (j.id == id) ≡ false

-- What befalls the queue while a runner is busy with the job `id`: other runners claim, put in jobs,
-- and conclude jobs that are not this one, each with statements that may fail; time passes and other
-- tables change.
pub data Meanwhile (id : ℕ) (d : Store) : Store → Type 0 where
  here : Meanwhile id d d
  claims : (lease : ℕ) (s : Session) → Meanwhile id d s.db → Meanwhile id d (claim_job lease s).1.db
  enqueues :
      (arg : EnqueueJobParams) (s : Session)
      → Meanwhile id d s.db
      → Meanwhile id d (enqueue_job arg s).1.db
  deletes :
      (other : ℕ) (s : Session)
      → (other == id) ≡ false
      → Meanwhile id d s.db
      → Meanwhile id d (delete_job other s).1.db
  reschedules :
      (other delay : ℕ) (reason : String) (s : Session)
      → (other == id) ≡ false
      → Meanwhile id d s.db
      → Meanwhile id d (reschedule_job other delay reason s).1.db
  elsewhere :
      {e f : Store} → e.jobs ≡ f.jobs → e.next_id ≤ f.next_id → Meanwhile id d e → Meanwhile id d f

-- The row of the job is not due before `until`.
abbrev Waits : ℕ → Instant → Job → Type 0
Waits id until j = (j.id == id) ≡ true → until ≤ j.run_at

abbrev IsLeased : ℕ → Instant → Store → Type 0
IsLeased id until d = All (Waits id until) d.jobs × (id < d.next_id)

earlier-IsOther :
    (id : ℕ) (j : Job) (rest : Option Job)
    → (j.id == id) ≡ false
    → IsOther id rest
    → IsOther id (earlier j rest)
earlier-IsOther id j none h k = h
earlier-IsOther id j (some x) h k = go (leb j.run_at x.run_at)
  where
    go : (b : Bool) → IsOther id (if b then some j else some x)
    go true = h
    go false = k

first_due-IsOther :
    (id : ℕ) (until now : Instant) (js : List Job)
    → now < until
    → All (Waits id until) js
    → IsOther id (first_due now js)
unfolding first_due
first_due-IsOther id until now [] hl h = tt
first_due-IsOther id until now (j ∷ js) hl (h, hs) =
    go (leb j.run_at now) refl (first_due-IsOther id until now js hl hs)
  where
    not_it : leb j.run_at now ≡ true → (b : Bool) → (j.id == id) ≡ b → (j.id == id) ≡ false
    not_it e false k = k
    not_it e true k = absurd (ground (arith, h k))

    go :
        (b : Bool)
        → leb j.run_at now ≡ b
        → IsOther id (first_due now js)
        → IsOther id (if b then earlier j (first_due now js) else first_due now js)
    go true e k = earlier-IsOther id j (first_due now js) (not_it e (j.id == id) refl) k
    go false e k = k

-- A row that is changed keeps waiting if the job's own is due no earlier.
patched :
    (id other : ℕ) (until : Instant) (f : Job → Job) (js : List Job)
    → ((j : Job) → (f j).id ≡ j.id)
    → ((j : Job) → other ≡ id → until ≤ (f j).run_at)
    → All (Waits id until) js
    → All (Waits id until) (patch_job other f js)
patched id other until f [] same later h = tt
patched id other until f (j ∷ js) same later (h, hs) =
    (go (j.id == other) refl, patched id other until f js same later hs)
  where
    go : (b : Bool) → (j.id == other) ≡ b → Waits id until (if b then f j else j)
    go true e k = later j (ground (arith, same j))
    go false e k = h k

claim-IsLeased :
    (id lease : ℕ) (until : Instant) (d : Store)
    → IsLeased id until d
    → IsLeased id until (claim lease d).1
claim-IsLeased id lease until d (h, fresh) = go (first_due d.now d.jobs) refl
  where
    late :
        (j : Job)
        → (IsOther id (some j) → ⊥)
        → (b : Bool) → ltb d.now until ≡ b
        → first_due d.now d.jobs ≡ some j
        → until ≤ d.now + lease
    late j same true e f =
        absurd (same (rw f at (first_due-IsOther id until d.now d.jobs (ground arith) h)))
    late j same false e f = ground arith

    go : (o : Option Job) → first_due d.now d.jobs ≡ o → IsLeased id until (claim lease d).1
    go none e = rw (e, claim) (h, fresh)
    go (some j) e =
        rw (e, claim)
          (
            patched id j.id until (claimed lease d.now) d.jobs (λ x. refl)
                (λ x k. late j (λ n. absurd (ground arith)) _ refl e) h,
            fresh,
          )

leased-claim :
    (lease id : ℕ) (now : Instant) (js : List Job)
    → All (Waits id (now + lease)) (patch_job id (claimed lease now) js)
leased-claim lease id now [] = tt
leased-claim lease id now (j ∷ js) = (go (j.id == id) refl, leased-claim lease id now js)
  where
    go :
        (b : Bool)
        → (j.id == id) ≡ b
        → Waits id (now + lease) (if b then claimed lease now j else j)
    go true e k = omega arith
    go false e k = absurd (ground arith)

appended :
    (id : ℕ) (until : Instant) (j : Job) (js : List Job)
    → (j.id == id) ≡ false
    → All (Waits id until) js
    → All (Waits id until) (js ++ (j ∷ []))
appended id until j [] e h = ((λ k. absurd (ground arith)), tt)
appended id until j (x ∷ xs) e (h, hs) = (h, appended id until j xs e hs)

kept :
    (id : ℕ) (until : Instant) (p : Job → Bool) (js : List Job)
    → All (Waits id until) js
    → All (Waits id until) (keep p js)
kept id until p [] h = tt
kept id until p (j ∷ js) (h, hs) = go (p j) (kept id until p js hs)
  where
    go :
        (b : Bool)
        → All (Waits id until) (keep p js)
        → All (Waits id until) (if b then j ∷ keep p js else keep p js)
    go true k = (h, k)
    go false k = k

insert_job-IsLeased :
    (id : ℕ) (until : Instant) (arg : EnqueueJobParams) (d : Store)
    → IsLeased id until d
    → IsLeased id until (insert_job arg d).1
insert_job-IsLeased id until arg d (h, fresh) = go (any (same_key arg.unique_key) d.jobs) refl
  where
    go :
        (b : Bool)
        → any (same_key arg.unique_key) d.jobs ≡ b
        → IsLeased id until (insert_job arg d).1
    go true e = rw (e, insert_job) (h, fresh)
    go false e =
        rw (e, insert_job)
          (appended id until (job_of d.next_id d.now arg) d.jobs (ground arith) h, omega arith)

module _ (id : ℕ) (until : Instant) where
  claim_job-Keeps : (lease : ℕ) → Keeps (IsLeased id until) (claim_job lease)
  unfolding claim_job
  claim_job-Keeps lease = Keeps-statement (claim lease) (λ d h. claim-IsLeased id lease until d h)

  enqueue_job-Keeps : (arg : EnqueueJobParams) → Keeps (IsLeased id until) (enqueue_job arg)
  unfolding enqueue_job
  enqueue_job-Keeps arg =
      Keeps-statement (insert_job arg) (λ d h. insert_job-IsLeased id until arg d h)

  delete_job-Keeps : (other : ℕ) → Keeps (IsLeased id until) (delete_job other)
  unfolding delete_job
  delete_job-Keeps other = Keeps-exec _ (λ d h. (kept id until _ d.jobs h.0, h.1))

  reschedule_job-Keeps :
      (other delay : ℕ) (reason : String)
      → (other == id) ≡ false
      → Keeps (IsLeased id until) (reschedule_job other delay reason)
  unfolding reschedule_job
  reschedule_job-Keeps other delay reason e = Keeps-exec _ (λ d h. (
    patched id other until (rescheduled delay reason d.now) d.jobs (λ j. refl)
        (λ j k. absurd (ground arith)) h.0,
    h.1,
  ))

  meanwhile-IsLeased : {d e : Store} → Meanwhile id d e → IsLeased id until d → IsLeased id until e
  meanwhile-IsLeased here h = h
  meanwhile-IsLeased (claims lease s m) h = (claim_job-Keeps lease).at s (meanwhile-IsLeased m h)
  meanwhile-IsLeased (enqueues arg s m) h = (enqueue_job-Keeps arg).at s (meanwhile-IsLeased m h)
  meanwhile-IsLeased (deletes other s n m) h =
      (delete_job-Keeps other).at s (meanwhile-IsLeased m h)
  meanwhile-IsLeased (reschedules other delay reason s n m) h =
      (reschedule_job-Keeps other delay reason n).at s (meanwhile-IsLeased m h)
  meanwhile-IsLeased (elsewhere {e} {f} same more m) h =
      let (k, fresh) = meanwhile-IsLeased m h in (rw same at k, omega arith)

-- A job that a claim hands out is handed out to nobody else before its lease is over, as long as its
-- own runner has neither deleted nor rescheduled it: whatever claims, new jobs and conclusions of
-- other jobs come in between, in whatever order and with whichever statements failing, what is due
-- next is another job. The job's id is one that the table's sequence has given.
pub lease_excludes :
    (lease : ℕ) (d : Store) (j : Job) (e : Store)
    → first_due d.now d.jobs ≡ some j
    → j.id < d.next_id
    → Meanwhile j.id (claim lease d).1 e
    → e.now < d.now + lease
    → IsOther j.id (first_due e.now e.jobs)
lease_excludes lease d j e h fresh m hl =
    first_due-IsOther j.id (d.now + lease) e.now e.jobs hl
      (meanwhile-IsLeased j.id (d.now + lease) m (claimed_first h)).0
  where
    claimed_first :
        first_due d.now d.jobs ≡ some j → IsLeased j.id (d.now + lease) (claim lease d).1
    claimed_first f = rw (f, claim) (leased-claim lease j.id d.now d.jobs, fresh)
