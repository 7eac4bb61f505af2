-- ===== src/Db/Session.antt =====
-- A connection: statements in a transaction, and the errors of internal/occupancy,
-- internal/payments and internal/booking. `fmt.Errorf` with %w keeps what `errors.Is` sees, so a
-- wrapped error is the error.
use bealhouse.Prelude.{Bool, true, false, List, [], ◌∷◌, Option, none, some, if◌then◌else◌}
use bealhouse.Db.Schema.{Store}

-- What can befall any statement: 40P01, 25P02, or anything else (a lost connection, a timeout); a
-- COMMIT can also be done by the server without an answer.
pub data Fault : Type 0 where
  deadlock_detected in_failed_transaction lost unanswered : Fault

pub data Error : Type 0 where
  -- Postgres: 23P01, 23505, 23514, 23503, 22003, and no row where there was to be one
  exclusion_violation unique_violation check_violation foreign_key_violation : Error
  out_of_range no_rows : Error
  fault : Fault → Error
  -- internal/occupancy
  room_taken : Error
  deadlocked aborted : Error
  -- internal/payments
  booking_not_found amount_not_positive kind_unknown stripe_id_required : Error
  not_cancellable stay_underway not_payable nothing_to_pay : Error
  gateway_disabled gateway_failed : Error
  -- internal/booking and internal/availability
  room_unavailable price_changed guest_name_required guest_email_required : Error
  guest_phone_required guest_details_too_long policies_not_accepted : Error
  checkout_not_after_checkin checkin_in_past guests_out_of_range stay_too_long : Error
  -- internal/email and internal/push
  no_recipient no_template no_title : Error
  -- internal/jobs: a payload that does not decode
  payload_unreadable : Error
  -- internal/console: a refusal with a reason for the owner, and a row that is not there
  bad_request not_found : Error
  -- internal/admin: the refusals, a passkey library that refuses, and a row that does not decode
  denied last_passkey not_configured not_an_origin : Error
  webauthn_failed undecodable : Error

pub data Outcome {ℓ} (A : Type ℓ) : Type ℓ where
  ok : A → Outcome A
  err : Error → Outcome A

-- `fate` says which of the coming statements fail, and how; past its end all go well.
pub record Session : Type 0 where
  pub db : Store
  pub fate : List (Option Fault)

abbrev pub Action : Type 0 → Type 0
Action A = Session → Outcome A × Session

module _ {A : Type 0} where
  unfoldable pub pure : A → Action A
  pure a s = (ok a, s)

  unfoldable pub raise : Error → Action A
  raise e s = (err e, s)

  -- A statement reads and writes the tables; when it fails it has written nothing.
  abbrev pub settle : Outcome A × Store → List (Option Fault) → Outcome A × Session
  settle r rest = (r.0, record { db = r.1; fate = rest })

  abbrev strike : List (Option Fault) → (Store → Outcome A × Store) → Store → Outcome A × Session
  strike [] f d = settle (f d) []
  strike (none ∷ rest) f d = settle (f d) rest
  strike (some e ∷ rest) f d = (err (fault e), record { db = d; fate = rest })

  unfoldable pub statement : (Store → Outcome A × Store) → Action A
  statement f s = strike s.fate f s.db

  -- SELECT
  unfoldable pub query : (Store → A) → Action A
  query f = statement (λ d. (ok (f d), d))

-- UPDATE, DELETE or INSERT that nothing but a fault stops.
unfoldable pub exec : (Store → Store) → Action (Unit {0})
exec f = statement (λ d. (ok tt, f d))

infixl 5 ◌>>=◌ ◌>>◌
unfoldable pub ◌>>=◌ : {A B : Type 0} → Action A → (A → Action B) → Action B
◌>>=◌ m f s = let (r, s') = m s in elim r [ ok a ↦ f a s' | err e ↦ (err e, s') ]

abbrev pub ◌>>◌ : {A B : Type 0} → Action A → Action B → Action B
m >> k = m >>= λ _. k

unfoldable pub raise_if : Bool → Error → Action (Unit {0})
raise_if c e s = (if c then err e else ok tt, s)

-- BEGIN, SAVEPOINT and RELEASE: round trips that write nothing.
unfoldable pub round_trip : Action (Unit {0})
round_trip = exec (λ d. d)

abbrev pub succeeded {ℓ} : {A : Type ℓ} → Outcome A → Bool
succeeded (ok a) = true
succeeded (err e) = false

-- What a COMMIT makes of the tables `d` of a transaction that began with `before`.
abbrev pub committed : {A : Type 0} → A → Store → List (Option Fault) → Store → Outcome A × Session
committed a before [] d = (ok a, record { db = d; fate = [] })
committed a before (none ∷ rest) d = (ok a, record { db = d; fate = rest })
committed a before (some unanswered ∷ rest) d =
    (err (fault unanswered), record { db = d; fate = rest })
committed a before (some e ∷ rest) d = (err (fault e), record { db = before; fate = rest })

unfoldable pub enclosed : {A : Type 0} → Action A → Action A
enclosed body = round_trip >> body

-- A body between `Begin` and `Commit`, with the deferred `Rollback`: the tables are as they were
-- unless the body has succeeded and the server has done the commit.
unfoldable pub transaction : {A : Type 0} → Action A → Action A
transaction body s =
    let (r, s') = enclosed body s in
    elim r [ ok a ↦ committed a s.db s'.fate s'.db | err e ↦ (err e, record s' { db = s.db }) ]

-- The constraints of an INSERT, each with the error that a row outside of it is refused with.
unfoldable pub constrained :
    {A : Type 0} → List (Bool × Error) → Store → Outcome A × Store → Outcome A × Store
constrained [] d done = done
constrained ((b, e) ∷ more) d done =
    let rest = constrained more d done in if b then (err e, d) else rest
