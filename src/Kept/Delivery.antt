-- ===== src/Kept/Delivery.antt =====
-- What a round of the runner of internal/jobs/jobs.go does to the row of a job.
use Prim.Native.String.{String, ◌++◌}
use bealhouse.Prelude.{
  ℕ, ◌≡◌, refl, ◌⊎◌, inl, inr, Bool, true, false, not, List, [], ◌∷◌, Option, none, some, any, keep,
  ◌==◌, arith, if◌then◌else◌,
}
use bealhouse.Db.Schema.{Store, Job}
use bealhouse.Db.Session.{Action, Outcome, ok, err, Error, Session, pure, succeeded, ◌>>=◌, ◌>>◌}
use bealhouse.Db.Keeps.{Keeps, Keeps-bind, Keeps-pure, Keeps-if, Keeps-exec, Keeps-statement}
use bealhouse.Db.Queue.{
  claim, claimed, claim_job, delete_job, reschedule_job, rescheduled, patch_job, first_due,
}
use bealhouse.Jobs.Runner.{
  Registration, Kinds, lease, registered, backoff_cap, fail, settle_job, conclude, run_job,
  dispatch, once,
}
use bealhouse.Kept.Jobs.{Handled, Kept, registered-Kept}

-- A row of the id is in the queue.
abbrev pub HasJob : ℕ → Store → Type 0
HasJob id d = any (λ j. j.id == id) d.jobs ≡ true

-- The id of the head is found, or an id is found in the rest.
found_here : (b x : Bool) → b ≡ true → (if b then true else x) ≡ true
found_here b x e = rw e refl

patch_job-any :
    (id k : ℕ) (f : Job → Job) (js : List Job)
    → ((j : Job) → (f j).id ≡ j.id)
    → any (λ j. j.id == id) (patch_job k f js) ≡ any (λ j. j.id == id) js
patch_job-any id k f [] same = refl
patch_job-any id k f (j ∷ js) same = go (j.id == k) (patch_job-any id k f js same)
  where
    go :
        (b : Bool)
        → any (λ j. j.id == id) (patch_job k f js) ≡ any (λ j. j.id == id) js
        → any (λ j. j.id == id) ((if b then f j else j) ∷ patch_job k f js)
          ≡ any (λ j. j.id == id) (j ∷ js)
    go true rest = rw (same j, rest) refl
    go false rest = rw rest refl

keep-any :
    (id k : ℕ) (js : List Job)
    → (k == id) ≡ false
    → any (λ j. j.id == id) js ≡ true
    → any (λ j. j.id == id) (keep (λ j. not (j.id == k)) js) ≡ true
keep-any id k [] other h = h
keep-any id k (j ∷ js) other h = go (j.id == k) refl (j.id == id) refl h (keep-any id k js other)
  where
    rest : List Job
    rest = keep (λ j. not (j.id == k)) js

    go :
        (gone : Bool)
        → (j.id == k) ≡ gone
        → (found : Bool) → (j.id == id) ≡ found
        → (if found then true else any (λ j. j.id == id) js) ≡ true
        → (any (λ j. j.id == id) js ≡ true → any (λ j. j.id == id) rest ≡ true)
        → any (λ j. j.id == id) (if not gone then j ∷ rest else rest) ≡ true
    go true e true f p again = absurd (ground arith)
    go true e false f p again = again p
    go false e true f p again = found_here (j.id == id) _ f
    go false e false f p again = rw f (again p)

claim-HasJob : (id : ℕ) (d : Store) → HasJob id d → HasJob id (claim lease d).1
claim-HasJob id d h = go (first_due d.now d.jobs)
  where
    go :
        (o : Option Job)
        → HasJob id
            (elim o as (λ x. Outcome (Option Job) × Store) [
              | none ↦ (ok none, d)
              | some j ↦ (
                ok (some (claimed lease d.now j)),
                record d { jobs = patch_job j.id (claimed lease d.now) d.jobs },
              )
            ]).1
    go none = h
    go (some j) = rw (patch_job-any id j.id (claimed lease d.now) d.jobs (λ j. refl)) h

claim_job-Keeps : (id : ℕ) → Keeps (HasJob id) (claim_job lease)
unfolding claim_job
claim_job-Keeps id = Keeps-statement _ (claim-HasJob id)

reschedule_job-Keeps :
    (id k delay : ℕ) (reason : String) → Keeps (HasJob id) (reschedule_job k delay reason)
unfolding reschedule_job
reschedule_job-Keeps id k delay reason =
    Keeps-exec _
      (λ d h. rw (patch_job-any id k (rescheduled delay reason d.now) d.jobs (λ j. refl)) h)

delete_job-Keeps : (id k : ℕ) → (k == id) ≡ false → Keeps (HasJob id) (delete_job k)
unfolding delete_job
delete_job-Keeps id k other = Keeps-exec _ (λ d h. keep-any id k d.jobs other h)

module _ (kinds : Kinds) where
  -- The handler of a job succeeds, at a session.
  abbrev Handles : Option Registration → Job → Session → Type 0
  Handles none job t = ⊥
  Handles (some reg) job t = succeeded (reg.run job.payload t).0 ≡ true

  -- What a claim handed out is the job of the id, and its handler succeeds.
  abbrev Delivers : ℕ → Outcome (Option Job) → Session → Type 0
  Delivers id (ok (some job)) t =
      ((job.id == id) ≡ true) × Handles (registered job.kind kinds) job t
  Delivers id (ok none) t = ⊥
  Delivers id (err e) t = ⊥

  abbrev pub IsDelivered : ℕ → Session → Type 0
  IsDelivered id s = Delivers id (claim_job lease s).0 (claim_job lease s).1

module _ (kinds : Kinds) (describe : Error → String) where
  failed-Keeps :
      (id k delay : ℕ) (reason : String) → Keeps (HasJob id) (do fail k delay reason; pure true)
  unfolding fail
  failed-Keeps id k delay reason =
      Keeps-bind _ _ (reschedule_job-Keeps id k _ reason) (λ _. Keeps-pure true)

  settle_job-Keeps :
      (id : ℕ) (reg : Registration) (job : Job)
      → (job.id == id) ≡ false
      → Keeps (HasJob id) (settle_job reg job)
  unfolding settle_job
  settle_job-Keeps id reg job other =
      Keeps-if _ _ _ (Keeps-bind _ _ (reschedule_job-Keeps id _ _ _) (λ _. Keeps-pure true))
        (Keeps-bind _ _ (delete_job-Keeps id job.id other) (λ _. Keeps-pure true))

  concluded :
      (jitter id : ℕ) (reg : Registration) (job : Job) (r : Outcome (Unit {0})) (t : Session)
      → HasJob id t.db
      → HasJob id (conclude kinds describe jitter reg job r t).1.db
        ⊎ (((job.id == id) ≡ true) × (succeeded r ≡ true))
  unfolding conclude
  concluded jitter id reg job (err e) t h = inl ((failed-Keeps id _ _ _).at t h)
  concluded jitter id reg job (ok done) t h = go (job.id == id) refl
    where
      go :
          (b : Bool)
          → (job.id == id) ≡ b
          → HasJob id (settle_job reg job t).1.db ⊎ (((job.id == id) ≡ true) × (true ≡ true))
      go true e = inr (e, refl)
      go false e = inl ((settle_job-Keeps id reg job e).at t h)

  dispatched :
      (jitter id : ℕ) (job : Job) (found : Option Registration) (t : Session)
      → Kept (HasJob id) found
      → HasJob id t.db
      → HasJob id
          (elim found as (λ _. Action Bool) [
            | none ↦ do
              fail job.id backoff_cap ("no handler registered for " ++ job.kind)
              pure true
            | some reg ↦ run_job kinds describe jitter reg job
          ]
            t).1.db
        ⊎ (((job.id == id) ≡ true) × Handles kinds found job t)
  unfolding run_job
  dispatched jitter id job none t kept h = inl ((failed-Keeps id _ _ _).at t h)
  dispatched jitter id job (some reg) t kept h =
      concluded jitter id reg job (reg.run job.payload t).0 (reg.run job.payload t).1
        ((kept job.payload).at t h)

  claimed_then :
      (jitter id : ℕ) (r : Outcome (Option Job)) (t : Session)
      → Handled (HasJob id) kinds
      → HasJob id t.db
      → HasJob id
          (elim r as (λ _. Outcome Bool × Session) [
            | ok a ↦ dispatch kinds describe jitter a t
            | err e ↦ (err e, t)
          ]).1.db
        ⊎ Delivers kinds id r t
  unfolding dispatch pure
  claimed_then jitter id (err e) t handled h = inl h
  claimed_then jitter id (ok none) t handled h = inl h
  claimed_then jitter id (ok (some job)) t handled h =
      dispatched jitter id job (registered job.kind kinds) t
        (registered-Kept (HasJob id) job.kind kinds handled) h

  -- Where no handler takes the job's row out of the queue itself, and whichever statements of a round
  -- of the runner fail, a job that is in the queue before the round is there after it, or the round
  -- has claimed that job and its handler has succeeded.
  pub not_lost :
      (jitter id : ℕ) (s : Session)
      → Handled (HasJob id) kinds
      → HasJob id s.db
      → HasJob id (once kinds describe jitter s).1.db ⊎ IsDelivered kinds id s
  unfolding once ◌>>=◌
  not_lost jitter id s handled h =
      claimed_then jitter id (claim_job lease s).0 (claim_job lease s).1 handled
        ((claim_job-Keeps id).at s h)
