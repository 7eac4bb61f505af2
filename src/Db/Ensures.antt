-- ===== src/Db/Ensures.antt =====
-- What a success leaves: the rules of `Ensures`, for work that is only right when all of it is done.
use mathlib.Core.Path.{subst}
use bealhouse.Prelude.{
  ◌≡◌, refl, Bool, true, false, List, [], ◌∷◌, Option, none, some, if◌then◌else◌,
}
use bealhouse.Db.Schema.{Store}
use bealhouse.Db.Session.{
  Fault, deadlock_detected, in_failed_transaction, lost, unanswered, committed, Error, Outcome, ok,
  err, Session, Action, pure, raise, statement, query, raise_if, round_trip, succeeded, enclosed,
  transaction, ◌>>=◌,
}
use bealhouse.Db.Keeps.{ended, ended-keeps, Keeps, Keeps-round_trip, Returns, Ensures}

returned :
    {A : Type 0} (P : Store → Type 0) (r : Outcome A) (d : Store) → P d → Returns (λ a. P) r d
returned P (ok a) d h = h
returned P (err e) d h = tt

module _ {A : Type 0} {P : Store → Type 0} where
  pub Ensures-keeps : (m : Action A) → Keeps P m → Ensures P m (λ a. P)
  Ensures-keeps m km = record { at = λ s h. returned P (m s).0 (m s).1.db (km.at s h) }

  pub Ensures-if :
      (b : Bool) (m n : Action A) (Q : A → Store → Type 0)
      → Ensures P m Q
      → Ensures P n Q
      → Ensures P (if b then m else n) Q
  Ensures-if true m n Q km kn = km
  Ensures-if false m n Q km kn = kn

struck :
    {A : Type 0} (Q : A → Store → Type 0) (fate : List (Option Fault))
    (f : Store → Outcome A × Store) (d : Store)
    → Returns Q (f d).0 (f d).1
    → Returns Q
        (statement f (record { db = d; fate = fate })).0
        (statement f (record { db = d; fate = fate })).1.db
unfolding statement
struck Q [] f d k = k
struck Q (none ∷ rest) f d k = k
struck Q (some e ∷ rest) f d k = tt

module _ {A : Type 0} {P : Store → Type 0} where
  pub Ensures-statement :
      (f : Store → Outcome A × Store) (Q : A → Store → Type 0)
      → ((d : Store) → P d → Returns Q (f d).0 (f d).1)
      → Ensures P (statement f) Q
  Ensures-statement f Q k = record { at = λ s h. struck Q s.fate f s.db (k s.db h) }

  -- What is read is what is there.
  pub Ensures-query : (f : Store → A) → Ensures P (query f) (λ a d. P d × (a ≡ f d))
  unfolding query
  Ensures-query f = Ensures-statement _ _ (λ d h. (h, refl))

module _ {A B : Type 0} {P : Store → Type 0} where
  pub Ensures-bind :
      (m : Action A) (f : A → Action B) (Q : A → Store → Type 0) (R : B → Store → Type 0)
      → Ensures P m Q
      → ((a : A) → Ensures (Q a) (f a) R)
      → Ensures P (m >>= f) R
  unfolding ◌>>=◌
  Ensures-bind m f Q R km kf = record { at = λ s h. let (r, s') = m s in go r s' (km.at s h) }
    where
      go :
          (r : Outcome A) (s' : Session)
          → Returns Q r s'.db
          → Returns R
              (elim r as (λ _. Outcome B × Session) [ ok a ↦ f a s' | err e ↦ (err e, s') ]).0
              (elim r as (λ _. Outcome B × Session) [ ok a ↦ f a s' | err e ↦ (err e, s') ]).1.db
      go (ok a) s' h = (kf a).at s' h
      go (err e) s' h = tt

module _ {A : Type 0} {P : Store → Type 0} where
  Ensures-enclosed :
      (m : Action A) (Q : A → Store → Type 0) → Ensures P m Q → Ensures P (enclosed m) Q
  unfolding enclosed
  Ensures-enclosed m Q km =
      Ensures-bind round_trip _ (λ x. P) Q (Ensures-keeps _ Keeps-round_trip) (λ _. km)

  -- What a transaction leaves if its body succeeds, and what was there already if not.
  pub transaction-leaves :
      {Q : Store → Type 0} (m : Action A)
      → ((d : Store) → P d → Q d)
      → Ensures P m (λ a. Q)
      → (s : Session) → P s.db
      → Q (transaction m s).1.db
  unfolding transaction
  transaction-leaves {Q} m already km s h =
      ended-keeps Q (enclosed m s).0 (enclosed m s).1 s.db (already s.db h)
        ((Ensures-enclosed m (λ a. Q) km).at s h)

  -- A transaction keeps what its body makes good again.
  pub Keeps-ensured : (m : Action A) → Ensures P m (λ a. P) → Keeps P (transaction m)
  unfolding transaction
  Keeps-ensured m km = record {
    at = λ s h.
        ended-keeps P (enclosed m s).0 (enclosed m s).1 s.db h
          ((Ensures-enclosed m (λ a. P) km).at s h);
  }

ended-Returns :
    {A : Type 0} (Q : A → Store → Type 0) (r : Outcome A) (t : Session) (before : Store)
    → Returns Q r t.db
    → Returns Q (ended before r t).0 (ended before r t).1.db
ended-Returns {A} Q (ok a) t before h = go t.fate
  where
    go :
        (fate : List (Option Fault))
        → Returns Q (committed a before fate t.db).0 (committed a before fate t.db).1.db
    go [] = h
    go (none ∷ rest) = h
    go (some unanswered ∷ rest) = tt
    go (some deadlock_detected ∷ rest) = tt
    go (some in_failed_transaction ∷ rest) = tt
    go (some lost ∷ rest) = tt
ended-Returns Q (err e) t before h = tt

module _ {A : Type 0} where
  pub Ensures-pure : (Q : A → Store → Type 0) (a : A) → Ensures (Q a) (pure a) Q
  unfolding pure
  Ensures-pure Q a = record { at = λ s h. h }

  pub Ensures-raise :
      {P : Store → Type 0} (e : Error) (Q : A → Store → Type 0) → Ensures P (raise e) Q
  unfolding raise
  Ensures-raise e Q = record { at = λ s h. tt }

module _ {A : Type 0} {P : Store → Type 0} where
  -- What the body of a transaction leaves, the transaction leaves.
  pub Ensures-transaction :
      (m : Action A) (Q : A → Store → Type 0) → Ensures P m Q → Ensures P (transaction m) Q
  unfolding transaction
  Ensures-transaction m Q km = record {
    at = λ s h.
        ended-Returns Q (enclosed m s).0 (enclosed m s).1 s.db ((Ensures-enclosed m Q km).at s h);
  }

-- What a success leaves can be less than what is known of it.
pub Ensures-imply :
    {A : Type 0} {P : Store → Type 0} (m : Action A) (Q R : A → Store → Type 0)
    → ((a : A) (d : Store) → Q a d → R a d)
    → Ensures P m Q
    → Ensures P m R
Ensures-imply {A} m Q R k km = record { at = λ s h. go (m s).0 (m s).1.db (km.at s h) }
  where
    go : (r : Outcome A) (d : Store) → Returns Q r d → Returns R r d
    go (ok a) d h = k a d h
    go (err e) d h = tt

-- A guard that passes.
pub Ensures-raise_if :
    {P : Store → Type 0} (b : Bool) (e : Error) (Q : Unit {0} → Store → Type 0)
    → (b ≡ false → (d : Store) → P d → Q tt d)
    → Ensures P (raise_if b e) Q
unfolding raise_if
Ensures-raise_if {P} b e Q k = record { at = λ s h. go b (λ f. k f s.db h) }
  where
    go : (x : Bool) {d : Store} → (x ≡ false → Q tt d) → Returns Q (if x then err e else ok tt) d
    go true m = tt
    go false m = m refl

-- Whatever there is or is not.
pub Ensures-any : {A : Type 0} {P : Store → Type 0} (m : Action A) → Ensures P m (λ a d. Unit)
Ensures-any {A} m = record { at = λ s h. go (m s).0 (m s).1.db }
  where
    go : (r : Outcome A) (d : Store) → Returns (λ a e. Unit) r d
    go (ok a) d = tt
    go (err e) d = tt

-- What holds of a success that is known.
pub ensured :
    {A : Type 0} {P : Store → Type 0} {m : Action A} {Q : A → Store → Type 0}
    → Ensures P m Q
    → (s : Session) (a : A) → P s.db
    → (m s).0 ≡ ok a
    → Q a (m s).1.db
ensured {A} {P} {m} {Q} k s a h e = subst (λ r. Returns Q r (m s).1.db) e (k.at s h)

-- Work that cannot succeed.
pub refused :
    {A : Type 0} {P : Store → Type 0} {m : Action A}
    → Ensures P m (λ a d. ⊥)
    → (s : Session) → P s.db
    → succeeded (m s).0 ≡ false
refused {A} {P} {m} k s h = go (m s).0 (m s).1.db (k.at s h)
  where
    go : (r : Outcome A) (d : Store) → Returns (λ a e. ⊥) r d → succeeded r ≡ false
    go (ok a) d h = absurd h
    go (err e) d h = refl
