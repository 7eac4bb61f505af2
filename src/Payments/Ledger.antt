-- ===== src/Payments/Ledger.antt =====
-- The ledger of internal/payments/refund.go: what was collected on a booking, what went back, and
-- how a refund is divided over the payments.
use Prim.Native.String.{String}
use bealhouse.Prelude.{ℕ, zero, suc, List, [], ◌∷◌, Option, none, some, if◌then◌else◌}
use bealhouse.Prelude.Int.{ℤ, pos, ltb_ℤ, leb_ℤ, eqb_ℤ}
use bealhouse.Prelude.Int64.{◌+!◌, ◌-!◌}

pub record Collected : Type 0 where
  pub stripe_id : String
  pub amount_cents : ℤ

pub record Ledger : Type 0 where
  pub charges : List Collected
  pub already_refunded : List ℤ

-- `targetCents += c.AmountCents` over the charges.
unfoldable pub add_charges : ℤ → List Collected → ℤ
add_charges target [] = target
add_charges target (c ∷ cs) = add_charges (target +! c.amount_cents) cs

abbrev pub part_of : ℤ → Collected → ℤ
part_of remaining c = if ltb_ℤ remaining c.amount_cents then remaining else c.amount_cents

-- The loop that fills `parts`, with its `break`.
unfoldable pub slices : ℤ → List Collected → List Collected
slices remaining [] = []
slices remaining (c ∷ cs) =
    let part = part_of remaining c in
    let rest = slices (remaining -! part) cs in
    if leb_ℤ remaining (pos 0) then [] else record c { amount_cents = part } ∷ rest

abbrev pub shift : Option ℕ → Option ℕ
shift none = none
shift (some i) = some (suc i)

-- `none` is -1.
unfoldable pub index_of : List ℤ → ℤ → Option ℕ
index_of [] want = none
index_of (a ∷ amounts) want =
    let later = index_of amounts want in if eqb_ℤ a want then some 0 else shift later

-- `append(done[:i], done[i+1:]...)`
unfoldable pub delete_at : List ℤ → ℕ → List ℤ
delete_at [] i = []
delete_at (a ∷ done) zero = done
delete_at (a ∷ done) (suc i) = a ∷ delete_at done i

-- The loop that skips the parts already sent.
unfoldable pub unsent : List ℤ → List Collected → List Collected
unsent done [] = []
unsent done (p ∷ ps) = elim (index_of done p.amount_cents) [
  | none ↦ p ∷ unsent done ps
  | some i ↦ unsent (delete_at done i) ps
]

unfoldable pub allocate : Ledger → ℤ → List Collected
unfolding add_charges slices unsent index_of delete_at
allocate l target_cents =
    let target =
      if leb_ℤ target_cents (pos 0) then add_charges target_cents l.charges else target_cents in
    unsent l.already_refunded (slices target l.charges)
