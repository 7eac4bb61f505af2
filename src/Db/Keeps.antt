-- ===== src/Db/Keeps.antt =====
-- What holds of the tables after an action, one rule for each way to build one.
use bealhouse.Prelude.{Bool, true, false, List, [], ◌∷◌, Option, none, some, if◌then◌else◌}
use bealhouse.Db.Schema.{Store}
use bealhouse.Db.Session.{
  Fault, deadlock_detected, in_failed_transaction, lost, unanswered, Outcome, ok, err, Error,
  Session, Action, pure, raise, raise_if, statement, query, exec, round_trip, committed, enclosed,
  transaction, ◌>>=◌,
}

-- `m` keeps `P`, however it ends.
pub record Keeps {A : Type 0} (P : Store → Type 0) (m : Action A) : Type 0 where
  pub at : (s : Session) → P s.db → P (m s).1.db

-- What a success leaves.
abbrev pub Returns : {A : Type 0} → (A → Store → Type 0) → Outcome A → Store → Type 0
Returns Q (ok a) d = Q a d
Returns Q (err e) d = Unit

-- From a store with `P`, a success of `m` leaves `Q` of its value.
pub record Ensures {A : Type 0} (P : Store → Type 0) (m : Action A) (Q : A → Store → Type 0)
    : Type 0 where
  pub at : (s : Session) → P s.db → Returns Q (m s).0 (m s).1.db

module _ {A : Type 0} {P : Store → Type 0} where
  pub Keeps-pure : (a : A) → Keeps P (pure a)
  unfolding pure
  Keeps-pure a = record { at = λ s h. h }

  pub Keeps-raise : (e : Error) → Keeps P (raise {A = A} e)
  unfolding raise
  Keeps-raise e = record { at = λ s h. h }

  pub Keeps-if : (b : Bool) (m n : Action A) → Keeps P m → Keeps P n → Keeps P (if b then m else n)
  Keeps-if true m n km kn = km
  Keeps-if false m n km kn = kn

strike_keeps :
    {A : Type 0} (P : Store → Type 0) (fate : List (Option Fault)) (f : Store → Outcome A × Store)
    (d : Store)
    → P d
    → P (f d).1
    → P (statement f (record { db = d; fate = fate })).1.db
unfolding statement
strike_keeps P [] f d h k = k
strike_keeps P (none ∷ rest) f d h k = k
strike_keeps P (some e ∷ rest) f d h k = h

module _ {A : Type 0} {P : Store → Type 0} where
  pub Keeps-statement :
      (f : Store → Outcome A × Store) → ((d : Store) → P d → P (f d).1) → Keeps P (statement f)
  Keeps-statement f k = record { at = λ s h. strike_keeps P s.fate f s.db h (k s.db h) }

  pub Keeps-query : (f : Store → A) → Keeps P (query f)
  unfolding query
  Keeps-query f = Keeps-statement _ (λ d h. h)

module _ {P : Store → Type 0} where
  pub Keeps-exec : (f : Store → Store) → ((d : Store) → P d → P (f d)) → Keeps P (exec f)
  unfolding exec
  Keeps-exec f k = Keeps-statement _ k

  pub Keeps-round_trip : Keeps P round_trip
  unfolding round_trip
  Keeps-round_trip = Keeps-exec _ (λ d h. h)

  pub Keeps-raise_if : (b : Bool) (e : Error) → Keeps P (raise_if b e)
  unfolding raise_if
  Keeps-raise_if b e = record { at = λ s h. h }

-- How the second action goes on from the end of the first.
abbrev resume : {A B : Type 0} → (A → Action B) → Outcome A → Session → Outcome B × Session
resume next r t = elim r [ ok a ↦ next a t | err e ↦ (err e, t) ]

module _ {A B : Type 0} {P : Store → Type 0} where
  resumed :
      (next : A → Action B) (r : Outcome A) (t : Session)
      → ((a : A) → Keeps P (next a))
      → P t.db
      → P (resume next r t).1.db
  resumed next (ok a) t each h = (each a).at t h
  resumed next (err e) t each h = h

  pub Keeps-bind :
      (first : Action A) (next : A → Action B)
      → Keeps P first
      → ((a : A) → Keeps P (next a))
      → Keeps P (first >>= next)
  unfolding ◌>>=◌
  Keeps-bind first next kept each = record {
    at = λ s h. resumed next (first s).0 (first s).1 each (kept.at s h);
  }

committed-keeps :
    {A : Type 0} (P : Store → Type 0) (a : A) (before : Store) (fate : List (Option Fault))
    (d : Store)
    → P before
    → P d
    → P (committed a before fate d).1.db
committed-keeps P a before [] d h k = k
committed-keeps P a before (none ∷ rest) d h k = k
committed-keeps P a before (some unanswered ∷ rest) d h k = k
committed-keeps P a before (some deadlock_detected ∷ rest) d h k = h
committed-keeps P a before (some in_failed_transaction ∷ rest) d h k = h
committed-keeps P a before (some lost ∷ rest) d h k = h

-- How a transaction ends, by how its body has.
abbrev pub ended : {A : Type 0} → Store → Outcome A → Session → Outcome A × Session
ended before r t = elim r [
  | ok a ↦ committed a before t.fate t.db
  | err e ↦ (err e, record t { db = before })
]

-- What is kept from the beginning, and made good by a body that succeeds.
pub ended-keeps :
    {A : Type 0} (P : Store → Type 0) (r : Outcome A) (t : Session) (before : Store)
    → P before
    → Returns (λ a. P) r t.db
    → P (ended before r t).1.db
ended-keeps P (ok a) t before h k = committed-keeps P a before t.fate t.db h k
ended-keeps P (err e) t before h k = h

kept_return :
    {A : Type 0} (P : Store → Type 0) (r : Outcome A) (d : Store) → P d → Returns (λ a. P) r d
kept_return P (ok a) d h = h
kept_return P (err e) d h = tt

module _ {A : Type 0} {P : Store → Type 0} where
  Keeps-enclosed : (m : Action A) → Keeps P m → Keeps P (enclosed m)
  unfolding enclosed
  Keeps-enclosed m km = Keeps-bind round_trip _ Keeps-round_trip (λ _. km)

  pub Keeps-transaction : (m : Action A) → Keeps P m → Keeps P (transaction m)
  unfolding transaction
  Keeps-transaction m km = record {
    at = λ s h.
        ended-keeps P (enclosed m s).0 (enclosed m s).1 s.db h
          (kept_return P (enclosed m s).0 (enclosed m s).1.db ((Keeps-enclosed m km).at s h));
  }

pub ruleset keeps_rules = (
  Keeps-pure, Keeps-raise, Keeps-raise_if, Keeps-if, Keeps-query, Keeps-round_trip, Keeps-bind,
  Keeps-transaction,
)

-- Two properties that are each kept are kept together.
pub Keeps-both :
    {A : Type 0} (P Q : Store → Type 0) (m : Action A)
    → Keeps P m
    → Keeps Q m
    → Keeps (λ d. P d × Q d) m
Keeps-both P Q m kp kq = record { at = λ s h. (kp.at s h.0, kq.at s h.1) }
