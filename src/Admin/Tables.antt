-- ===== src/Admin/Tables.antt =====
-- What the inserting statements on the accounts leave: the store as it was, or one with a row that
-- the constraints have passed.
use Prim.Native.String.{String}
use bealhouse.Prelude.{
  ◌≡◌, refl, Bool, true, false, List, [], ◌∷◌, Option, none, some, All, first, amend, if◌then◌else◌,
}
use bealhouse.Db.Schema.{Store, UserEnrollment}
use bealhouse.Db.Session.{Outcome, ok, err, Error, constrained, statement}
use bealhouse.Db.Keeps.{Keeps, Keeps-statement, Returns}
use bealhouse.Db.Accounts.{put_enrollments}
use bealhouse.Db.Enrollments.{claim_row, is_claimable}

abbrev pub Passes : List (Bool × Error) → Type 0
Passes cs = All (λ c. c.0 ≡ false) cs

module _ {A : Type 0} where
  pub constrained-cases :
      (P : Outcome A → Store → Type 0) (cs : List (Bool × Error)) (d : Store)
      (done : Outcome A × Store)
      → ((e : Error) → P (err e) d)
      → (Passes cs → P done.0 done.1)
      → P (constrained cs d done).0 (constrained cs d done).1
  unfolding constrained
  constrained-cases P [] d done h k = k tt
  constrained-cases P ((b, e) ∷ cs) d done h k = go b refl (constrained-cases P cs d done h)
    where
      go :
          (x : Bool)
          → b ≡ x
          → ((Passes cs → P done.0 done.1) → P (constrained cs d done).0 (constrained cs d done).1)
          → P
              (if x then (err e, d) else constrained cs d done).0
              (if x then (err e, d) else constrained cs d done).1
      go true q rest = h e
      go false q rest = rest (λ ps. k (q, ps))

  -- A constrained statement keeps what the row that passes keeps.
  pub Keeps-constrained :
      (P : Store → Type 0) (cs : Store → List (Bool × Error)) (done : Store → Outcome A × Store)
      → ((d : Store) → Passes (cs d) → P d → P (done d).1)
      → Keeps P (statement (λ d. constrained (cs d) d (done d)))
  Keeps-constrained P cs done k =
      Keeps-statement _
        (λ d h. constrained-cases (λ r. P) (cs d) d (done d) (λ e. h) (λ ps. k d ps h))

  pub Returns-constrained :
      (Q : A → Store → Type 0) (cs : List (Bool × Error)) (d : Store) (done : Outcome A × Store)
      → (Passes cs → Returns Q done.0 done.1)
      → Returns Q (constrained cs d done).0 (constrained cs d done).1
  Returns-constrained Q cs d done k = constrained-cases (Returns Q) cs d done (λ e. tt) k

abbrev pub spent_at : Store → UserEnrollment → UserEnrollment
spent_at d e = record e { used_at = some d.now }

pub claim_row-cases :
    (P : Outcome (Option UserEnrollment) → Store → Type 0) (hash : String) (d : Store)
    → P (ok none) d
    → ((e : UserEnrollment)
        → P (ok (some (spent_at d e))) (
            put_enrollments
              (amend (is_claimable hash d.now) (spent_at d) d.accounts.enrollments)
              d))
    → P (claim_row hash d).0 (claim_row hash d).1
claim_row-cases P hash d h k = go (first (is_claimable hash d.now) d.accounts.enrollments)
  where
    result : Option UserEnrollment → Outcome (Option UserEnrollment) × Store
    result o = elim o [
      | none ↦ (ok none, d)
      | some e ↦ (
        ok (some (spent_at d e)),
        put_enrollments (amend (is_claimable hash d.now) (spent_at d) d.accounts.enrollments) d,
      )
    ]

    go : (o : Option UserEnrollment) → P (result o).0 (result o).1
    go none = h
    go (some e) = k e
