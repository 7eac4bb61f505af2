-- ===== src/Kept/Jobs.antt =====
-- The runner keeps what the statements and the handlers keep.
use Prim.Native.String.{String, ◌++◌}
use text.Mathlib.Text.{◌==◌ as str_eq}
use bealhouse.Prelude.{ℕ, zero, suc, Bool, true, false, [], ◌∷◌, Option, none, some, if◌then◌else◌}
use bealhouse.Db.Schema.{Store, Payload, Job}
use bealhouse.Db.Session.{Action, Outcome, ok, err, Error, Session, pure, ◌>>◌}
use bealhouse.Db.Keeps.{Keeps, Keeps-bind, Keeps-pure, Keeps-if}
use bealhouse.Jobs.Runner.{
  Registration, Kinds, lease, registered, backoff_cap, fail, settle_job, conclude, run_job,
  dispatch, once, drain, ensure_periodic,
}
use bealhouse.Kept.Interface.{IsKept}
use bealhouse.Kept.Payments.{enqueue-Keeps}

module _ (P : Store → Type 0) where
  -- Every handler of the table keeps `P`.
  abbrev pub Handled : Kinds → Type 0
  Handled [] = Unit
  Handled ((kind, reg) ∷ kinds) = ((p : Payload) → Keeps P (reg.run p)) × Handled kinds

  abbrev pub Kept : Option Registration → Type 0
  Kept none = Unit
  Kept (some reg) = (p : Payload) → Keeps P (reg.run p)

  if-Kept : (b : Bool) (x y : Option Registration) → Kept x → Kept y → Kept (if b then x else y)
  if-Kept true x y hx hy = hx
  if-Kept false x y hx hy = hy

  pub registered-Kept :
      (kind : String) (kinds : Kinds) → Handled kinds → Kept (registered kind kinds)
  registered-Kept kind [] h = tt
  registered-Kept kind ((k, r) ∷ kinds) (hr, hs) =
      if-Kept (str_eq k kind) (some r) (registered kind kinds) hr (registered-Kept kind kinds hs)

module _ {P : Store → Type 0} (k : IsKept P) where
  settle_job-Keeps : (reg : Registration) (job : Job) → Keeps P (settle_job reg job)
  unfolding settle_job
  settle_job-Keeps reg job =
      Keeps-if _ _ _ (Keeps-bind _ _ (k.delays _ _ _) (λ _. Keeps-pure true))
        (Keeps-bind _ _ (k.drops _) (λ _. Keeps-pure true))

  fail-Keeps : (id delay : ℕ) (reason : String) → Keeps P (fail id delay reason)
  unfolding fail
  fail-Keeps id delay reason = k.delays _ _ _

  failed-Keeps : (id delay : ℕ) (reason : String) → Keeps P (do fail id delay reason; pure true)
  failed-Keeps id delay reason = Keeps-bind _ _ (fail-Keeps id delay reason) (λ _. Keeps-pure true)

  module _ (kinds : Kinds) (describe : Error → String) where
    conclude-Keeps :
        (jitter : ℕ) (reg : Registration) (job : Job) (r : Outcome (Unit {0}))
        → Keeps P (conclude kinds describe jitter reg job r)
    unfolding conclude
    conclude-Keeps jitter reg job (ok done) = settle_job-Keeps reg job
    conclude-Keeps jitter reg job (err e) = failed-Keeps _ _ _

    run_job-Keeps :
        (jitter : ℕ) (reg : Registration) (job : Job)
        → ((p : Payload) → Keeps P (reg.run p))
        → Keeps P (run_job kinds describe jitter reg job)
    unfolding run_job
    run_job-Keeps jitter reg job kr = record {
      at = λ s h.
          (conclude-Keeps jitter reg job (reg.run job.payload s).0).at (reg.run job.payload s).1
            ((kr job.payload).at s h);
    }

    dispatched-Keeps :
        (jitter : ℕ) (job : Job) (found : Option Registration)
        → Kept P found
        → Keeps P (elim found as (λ _. Action Bool) [
          | none ↦ do fail job.id backoff_cap ("no handler registered for " ++ job.kind); pure true
          | some reg ↦ run_job kinds describe jitter reg job
        ])
    dispatched-Keeps jitter job none kr = failed-Keeps _ _ _
    dispatched-Keeps jitter job (some reg) kr = run_job-Keeps jitter reg job kr

    dispatch-Keeps :
        (jitter : ℕ) (job : Option Job)
        → Handled P kinds
        → Keeps P (dispatch kinds describe jitter job)
    unfolding dispatch
    dispatch-Keeps jitter none h = Keeps-pure false
    dispatch-Keeps jitter (some job) h =
        dispatched-Keeps jitter job (registered job.kind kinds) (registered-Kept P job.kind kinds h)

    pub once-Keeps : (jitter : ℕ) → Handled P kinds → Keeps P (once kinds describe jitter)
    unfolding once
    once-Keeps jitter h = Keeps-bind _ _ (k.leases lease) (λ job. dispatch-Keeps jitter job h)

    pub drain-Keeps :
        (fuel : ℕ) (jitter : ℕ → ℕ) (s : Session)
        → Handled P kinds
        → P s.db
        → P (drain kinds describe fuel jitter s).db
    unfolding drain
    drain-Keeps zero jitter s h p = p
    drain-Keeps (suc fuel) jitter s h p =
        go (once kinds describe (jitter fuel) s).0 (once kinds describe (jitter fuel) s).1
          ((once-Keeps (jitter fuel) h).at s p) (λ s' q. drain-Keeps fuel jitter s' h q)
      where
        go :
            (r : Outcome Bool) (s' : Session)
            → P s'.db
            → ((t : Session) → P t.db → P (drain kinds describe fuel jitter t).db)
            → P
                (elim r as (λ _. Session) [
                  | ok true ↦ drain kinds describe fuel jitter s'
                  | ok false ↦ s'
                  | err e ↦ s'
                ]).db
        go (ok true) s' q again = again s' q
        go (ok false) s' q again = q
        go (err e) s' q again = q

  pub ensure_periodic-Keeps : (kinds : Kinds) → Keeps P (ensure_periodic kinds)
  unfolding ensure_periodic
  ensure_periodic-Keeps [] = Keeps-pure tt
  ensure_periodic-Keeps ((kind, reg) ∷ rest) =
      Keeps-if _ _ _ (ensure_periodic-Keeps rest)
        (Keeps-bind _ _ (enqueue-Keeps k.queues _) (λ _. ensure_periodic-Keeps rest))
