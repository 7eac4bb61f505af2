-- ===== src/Invariant/Money.antt =====
-- What a booking has paid, against the rows of its payments: no statement but the two that move
-- money changes the one or the other.
use bealhouse.Prelude.{
  ℕ, ◌≡◌, refl, sym, ap, ◌∙◌, Bool, true, false, not, ◌&&◌, List, [], ◌∷◌, ◌++◌, Option, none, some,
  any, map, All, ◌==◌, if◌then◌else◌,
}
use bealhouse.Prelude.Int.{ℤ, pos, ◌+ℤ◌, int_laws}
use bealhouse.Db.Schema.{Store, Booking, Payment}
use bealhouse.Db.Keeps.{Returns}
use bealhouse.Db.Payments.{
  RecordPaymentParams, insert_payment, payment_of, is_payment, same_payment, is_succeeded,
}
use bealhouse.Db.Bookings.{add_paid, patch}
use bealhouse.Payments.Refunding.{is_refund}

-- What a row collects: a succeeded charge its amount, anything else nothing.
abbrev pub credit : Payment → ℤ
credit p = if is_succeeded p.status && not (is_refund p.kind) then p.amount_cents else pos 0

abbrev pub credit_to : ℕ → Payment → ℤ
credit_to id p = if id == p.booking_id then credit p else pos 0

abbrev pub collected : ℕ → List Payment → ℤ
collected id [] = pos 0
collected id (p ∷ ps) = credit_to id p +ℤ collected id ps

-- Every booking's `amount_paid_cents` is the sum of its succeeded charges.
abbrev pub IsPaid : Store → Type 0
IsPaid d = All (λ b. b.amount_paid_cents ≡ collected b.id d.payments) d.bookings

-- As `IsPaid`, but for an amount of one booking that is on the ledger and not yet on the booking.
abbrev pub Owes : ℕ → ℤ → Store → Type 0
Owes id x d =
    All (λ b. b.amount_paid_cents +ℤ (if b.id == id then x else pos 0) ≡ collected b.id d.payments)
      d.bookings

+ℤ_assoc : (a b c : ℤ) → (a +ℤ b) +ℤ c ≡ a +ℤ (b +ℤ c)
+ℤ_assoc a b c = grind int_laws

+ℤ_comm : (a b : ℤ) → a +ℤ b ≡ b +ℤ a
+ℤ_comm a b = grind int_laws

pub +ℤ_zero : (a : ℤ) → a +ℤ pos 0 ≡ a
+ℤ_zero a = grind int_laws

zero_+ℤ : (a : ℤ) → pos 0 +ℤ a ≡ a
zero_+ℤ a = grind int_laws

collected-append :
    (id : ℕ) (ps : List Payment) (p : Payment)
    → collected id (ps ++ (p ∷ [])) ≡ collected id ps +ℤ credit_to id p
collected-append id [] p = +ℤ_comm (credit_to id p) (pos 0)
collected-append id (q ∷ ps) p =
    rw (collected-append id ps p)
      (sym (+ℤ_assoc (credit_to id q) (collected id ps) (credit_to id p)))

pub All-map :
    {A : Type 0} (P Q : A → Type 0) (f : A → A) (xs : List A)
    → ((a : A) → P a → Q (f a))
    → All P xs
    → All Q (map f xs)
All-map P Q f [] k h = tt
All-map P Q f (x ∷ xs) k (hx, hs) = (k x hx, All-map P Q f xs k hs)

pub All-imp :
    {A : Type 0} (P Q : A → Type 0) (xs : List A) → ((a : A) → P a → Q a) → All P xs → All Q xs
All-imp P Q [] k h = tt
All-imp P Q (x ∷ xs) k (hx, hs) = (k x hx, All-imp P Q xs k hs)

pub All-patch :
    (P Q : Booking → Type 0) (id : ℕ) (f : Booking → Booking) (bs : List Booking)
    → ((b : Booking) → P b → Q (if b.id == id then f b else b))
    → All P bs
    → All Q (patch id f bs)
All-patch P Q id f [] k h = tt
All-patch P Q id f (b ∷ bs) k (hb, hs) = (k b hb, All-patch P Q id f bs k hs)

-- One booking, and the rows of its payments.
abbrev pub Settles : List Payment → Booking → Type 0
Settles ps b = b.amount_paid_cents ≡ collected b.id ps

abbrev pub Owing : ℕ → ℤ → List Payment → Booking → Type 0
Owing id x ps b = b.amount_paid_cents +ℤ (if b.id == id then x else pos 0) ≡ collected b.id ps

-- A row of `x` for the booking `id` is put down.
row_of-Owing :
    (ps : List Payment) (p : Payment) (b : Booking)
    → Settles ps b
    → Owing p.booking_id (credit p) (ps ++ (p ∷ [])) b
row_of-Owing ps p b h = ap (λ z. z +ℤ credit_to b.id p) h ∙ sym (collected-append b.id ps p)

credit_to_zero : (id : ℕ) (p : Payment) → credit p ≡ pos 0 → credit_to id p ≡ pos 0
credit_to_zero id p h = go (id == p.booking_id)
  where
    go : (c : Bool) → (if c then credit p else pos 0) ≡ pos 0
    go true = h
    go false = refl

row-Settles :
    (ps : List Payment) (p : Payment) (b : Booking)
    → credit p ≡ pos 0
    → Settles ps b
    → Settles (ps ++ (p ∷ [])) b
row-Settles ps p b hp h =
    h
    ∙ sym (+ℤ_zero (collected b.id ps))
    ∙ ap (λ z. collected b.id ps +ℤ z) (sym (credit_to_zero b.id p hp))
    ∙ sym (collected-append b.id ps p)

pub paid-Settles :
    (id : ℕ) (x : ℤ) (ps : List Payment) (b : Booking)
    → Owing id x ps b
    → Settles ps (if b.id == id then add_paid x b else b)
paid-Settles id x ps b h = go (b.id == id) h
  where
    go :
        (c : Bool)
        → b.amount_paid_cents +ℤ (if c then x else pos 0) ≡ collected b.id ps
        → Settles ps (if c then add_paid x b else b)
    go true e = e
    go false e = sym (+ℤ_zero b.amount_paid_cents) ∙ e

-- `RecordPayment`: a new row is owed, a row that is there already is not.
abbrev pub Recorded : ℕ → ℤ → Option ℕ → Store → Type 0
Recorded id x none d = IsPaid d
Recorded id x (some row) d = Owes id x d

pub insert_payment-Recorded :
    (arg : RecordPaymentParams) (d : Store)
    → IsPaid d
    → Returns
        (Recorded arg.booking_id (credit (payment_of d.next_id arg)))
        (insert_payment arg d).0
        (insert_payment arg d).1
insert_payment-Recorded arg d h = go _ _ _ refl refl refl
  where
    go :
        (valid dup known : Bool)
        → is_payment arg ≡ valid
        → any (same_payment arg.stripe_id arg.status) d.payments ≡ dup
        → any (λ b. b.id == arg.booking_id) d.bookings ≡ known
        → Returns
            (Recorded arg.booking_id (credit (payment_of d.next_id arg)))
            (insert_payment arg d).0
            (insert_payment arg d).1
    go false dup known hv hd hk = rw hv tt
    go true true known hv hd hk = rw (hv, hd) h
    go true false false hv hd hk = rw (hv, hd, hk) tt
    go true false true hv hd hk =
        rw (hv, hd, hk)
          (All-imp _ _ d.bookings (row_of-Owing d.payments (payment_of d.next_id arg)) h)

pub insert_payment-IsPaid :
    (arg : RecordPaymentParams) (d : Store)
    → credit (payment_of d.next_id arg) ≡ pos 0
    → IsPaid d
    → IsPaid (insert_payment arg d).1
insert_payment-IsPaid arg d hz h = go _ _ _ refl refl refl
  where
    go :
        (valid dup known : Bool)
        → is_payment arg ≡ valid
        → any (same_payment arg.stripe_id arg.status) d.payments ≡ dup
        → any (λ b. b.id == arg.booking_id) d.bookings ≡ known
        → IsPaid (insert_payment arg d).1
    go false dup known hv hd hk = rw hv h
    go true true known hv hd hk = rw (hv, hd) h
    go true false false hv hd hk = rw (hv, hd, hk) h
    go true false true hv hd hk =
        rw (hv, hd, hk)
          (All-imp _ _ d.bookings (λ b. row-Settles d.payments (payment_of d.next_id arg) b hz) h)
