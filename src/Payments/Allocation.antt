-- ===== src/Payments/Allocation.antt =====
-- How `ledger.allocate` (internal/payments/refund.go) divides a refund, over charges that are
-- positive, as the ledger's CHECK makes them, and that fit an int64 together.
use Prim.Native.String.{String}
use bealhouse.Prelude.{
  ℕ, zero, suc, ◌+◌, ◌-◌, ◌≤◌, ◌<◌, min, ◌≡◌, ◌∙◌, refl, sym, ap, true, false, List, [], ◌∷◌, ◌++◌,
  map, some, inl, inr, arith, All, any, sum, ◌==◌, if◌then◌else◌, Bool-cases,
}
use bealhouse.Prelude.Int.{ℤ, pos, pos_part, eqb_ℤ, leb_ℤ}
use bealhouse.Prelude.Int64.{two63, +!_pos, -!_pos}
use bealhouse.Payments.Ledger.{
  Collected, Ledger, add_charges, part_of, slices, index_of, delete_at, unsent, allocate,
}

-- A charge of a whole number of cents.
abbrev pub paid : String × ℕ → Collected
paid c = record { stripe_id = c.0; amount_cents = pos c.1 }

abbrev pub cents : Collected → ℕ
cents c = pos_part c.amount_cents

abbrev pub total : List (String × ℕ) → ℕ
total [] = 0
total (c ∷ cs) = c.1 + total cs

abbrev pub sent : List Collected → ℕ
sent ps = sum (map cents ps)

abbrev pub amounts : List Collected → List ℤ
amounts ps = map (λ c. c.amount_cents) ps

-- Each part goes against its own payment, in ledger order, and takes no more than that took.
abbrev pub IsFunded : List Collected → List (String × ℕ) → Type 0
IsFunded [] cs = Unit
IsFunded (p ∷ ps) [] = ⊥
IsFunded (p ∷ ps) (c ∷ cs) = (p.stripe_id ≡ c.0) × (0 < cents p) × (cents p ≤ c.1) × IsFunded ps cs

abbrev pub IsPositive : List (String × ℕ) → Type 0
IsPositive cs = All (λ c. 0 < c.1) cs

add_charges_exact :
    (t : ℕ) (cs : List (String × ℕ))
    → t + total cs < two63
    → add_charges (pos t) (map paid cs) ≡ pos (t + total cs)
unfolding add_charges
add_charges_exact t [] h = ap pos (omega arith)
add_charges_exact t (c ∷ cs) h =
    rw (+!_pos t c.1 (omega arith), add_charges)
      (add_charges_exact (t + c.1) cs (omega arith) ∙ ap pos (omega arith))

part_of_exact : (t : ℕ) (c : String × ℕ) → part_of (pos t) (paid c) ≡ pos (min t c.1)
part_of_exact t c = ground arith

not_exhausted : (t : ℕ) → 0 < t → leb_ℤ (pos t) (pos 0) ≡ false
not_exhausted t p = ground arith

slices_step :
    (t : ℕ) (c : String × ℕ) (cs : List (String × ℕ))
    → 0 < t
    → t < two63
    → slices (pos t) (map paid (c ∷ cs))
      ≡ paid (c.0, min t c.1) ∷ slices (pos (t - min t c.1)) (map paid cs)
unfolding slices
slices_step t c cs p h =
    rw (part_of_exact t c, -!_pos t (min t c.1) (omega arith) h, not_exhausted t p, slices)

slices_none : (cs : List (String × ℕ)) → slices (pos 0) (map paid cs) ≡ []
unfolding slices
slices_none [] = refl
slices_none (c ∷ cs) = refl

slices_lem :
    (t : ℕ) (cs : List (String × ℕ))
    → t < two63
    → IsPositive cs
    → (sent (slices (pos t) (map paid cs)) ≡ min t (total cs))
      × IsFunded (slices (pos t) (map paid cs)) cs
slices_lem zero cs h p = rw (slices_none cs) (omega arith)
slices_lem (suc t) [] h p = unfold slices in omega arith
slices_lem (suc t) (c ∷ cs) h p = rw (slices_step (suc t) c cs (omega arith) h) (
    let (later, funded) = slices_lem (suc t - min (suc t) c.1) cs (omega arith) p.1 in
    (omega arith, (refl, omega arith, omega arith, funded)))

unsent_none : (ps : List Collected) → unsent [] ps ≡ ps
unfolding unsent index_of
unsent_none [] = refl
unsent_none (p ∷ ps) = ap (λ r. p ∷ r) (unsent_none ps)

unsent_resumes : (ps rest : List Collected) → unsent (amounts ps) (ps ++ rest) ≡ rest
unfolding unsent index_of delete_at
unsent_resumes [] rest = unsent_none rest
unsent_resumes (p ∷ ps) rest =
    let same : eqb_ℤ p.amount_cents p.amount_cents ≡ true = ground arith in
    rw (same, unsent) (unsent_resumes ps rest)

abbrev pub fresh : List (String × ℕ) → Ledger
fresh cs = record { charges = map paid cs; already_refunded = [] }

-- The first refund of a booking whose charges are positive and fit an int64 together: the parts
-- add up to the smaller of the target and all that was collected, or to all of it where the
-- target is zero, and every part goes against its own payment, in ledger order, and takes a
-- positive amount that is no more than the payment's.
pub allocate_fresh :
    (t : ℕ) (cs : List (String × ℕ))
    → IsPositive cs
    → t + total cs < two63
    → let parts = allocate (fresh cs) (pos t) in
      (sent parts ≡ (if t == 0 then total cs else min t (total cs))) × IsFunded parts cs
unfolding allocate
allocate_fresh zero cs p h = rw (add_charges_exact 0 cs h) (
    rw (unsent_none (slices (pos (0 + total cs)) (map paid cs)))
      (let (s, f) = slices_lem (0 + total cs) cs (omega arith) p in (omega arith, f)))
allocate_fresh (suc t) cs p h =
    rw (not_exhausted (suc t) (omega arith), unsent_none (slices (pos (suc t)) (map paid cs)))
      (let (s, f) = slices_lem (suc t) cs (omega arith) p in (ground arith, f))

-- A refund job that stopped after any number of its parts, and runs again with those recorded,
-- asks for exactly the parts that are left, in their order.
pub allocate_resumes :
    (charges ps rest : List Collected) (target : ℤ)
    → allocate (record { charges = charges; already_refunded = [] }) target ≡ ps ++ rest
    → allocate (record { charges = charges; already_refunded = amounts ps }) target ≡ rest
unfolding allocate
allocate_resumes charges ps rest target h =
    rw (sym (unsent_none _) ∙ h, allocate) (unsent_resumes ps rest)

index_of_found :
    (done : List ℤ) (t : ℤ)
    → any (λ a. eqb_ℤ a t) done ≡ true
    → (i : ℕ) × (index_of done t ≡ some i)
unfolding index_of
index_of_found [] t h = absurd (cc)
index_of_found (a ∷ done) t h = elim (Bool-cases (eqb_ℤ a t)) [
  | inl same ↦ (0, rw same)
  | inr other ↦
      let (i, e) = index_of_found done t (rw other at h) in (suc i, rw (other, e, index_of))
]

-- Any earlier refund of the same amount makes a new one a no-op: where the first payment covers
-- the target and the ledger already holds a refund of exactly that amount, for whatever reason it
-- was sent, nothing is sent.
pub allocate_drops_equal_refund :
    (t : ℕ) (c : String × ℕ) (cs : List (String × ℕ)) (done : List ℤ)
    → 0 < t
    → t ≤ c.1
    → t < two63
    → any (λ a. eqb_ℤ a (pos t)) done ≡ true
    → allocate (record { charges = map paid (c ∷ cs); already_refunded = done }) (pos t) ≡ []
unfolding allocate
allocate_drops_equal_refund t c cs done p le h found =
    let (i, e) = index_of_found done (pos t) found in
    let all : min t c.1 ≡ t = omega arith in
    let gone : t - min t c.1 ≡ 0 = omega arith in
    rw (not_exhausted t p, slices_step t c cs p h, all, e, unsent) (rw (gone, slices_none cs))
