-- ===== src/Prelude/Counts.antt =====
-- The rows that pass a test, counted and looked for.
use Prim.Native.Nat.{suc, ◌+◌, ◌≤◌}
use mathlib.Core.Path.{◌≡◌, refl, ap}
use mathlib.Core.Bool.{Bool, true, false, ◌&&◌, ◌||◌}
use mathlib.Core.List.{List, [], ◌∷◌}
use native.Mathlib.Omega.{arith}
use bealhouse.Prelude.Tests.{if◌then◌else◌}
use bealhouse.Prelude.Lists.{length, keep, any, count, All}

pub count-either :
    {A : Type 0} (p q s : A → Bool)
    → ((x : A) → p x ≡ (q x || s x))
    → ((x : A) → (q x && s x) ≡ false)
    → (xs : List A) → count p xs ≡ count q xs + count s xs
count-either p q s h k [] = omega arith
count-either p q s h k (x ∷ xs) = ground (arith, h x, k x, count-either p q s h k xs)

pub count-any : {A : Type 0} (p : A → Bool) (xs : List A) → any p xs ≡ true → 1 ≤ count p xs
count-any p [] h = absurd (ground arith)
count-any p (x ∷ xs) h = go (p x) refl (count-any p xs)
  where
    go :
        (b : Bool)
        → p x ≡ b
        → (any p xs ≡ true → 1 ≤ count p xs)
        → 1 ≤ (if b then suc (count p xs) else count p xs)
    go true e more = omega arith
    go false e more = more (rw e at h)

pub count-never :
    {A : Type 0} (p : A → Bool) → ((x : A) → p x ≡ false) → (xs : List A) → count p xs ≡ 0
count-never p h [] = refl
count-never p h (x ∷ xs) = rw (h x) (count-never p h xs)

pub any-imply :
    {A : Type 0} (p q : A → Bool)
    → ((x : A) → p x ≡ true → q x ≡ true)
    → (xs : List A) → any p xs ≡ true
    → any q xs ≡ true
any-imply p q h [] e = e
any-imply p q h (x ∷ xs) e = ground (arith, h x, any-imply p q h xs)

pub any-some : {A : Type 0} (p : A → Bool) (xs : List A) → any p xs ≡ true → (x : A) × (p x ≡ true)
any-some p [] h = absurd (ground arith)
any-some {A} p (x ∷ xs) h = go (p x) refl (any-some p xs)
  where
    go : (b : Bool) → p x ≡ b → (any p xs ≡ true → (y : A) × (p y ≡ true)) → (y : A) × (p y ≡ true)
    go true e more = (x, e)
    go false e more = more (rw e at h)

unmet :
    {A : Type 0} (p s : A → Bool) (xs : List A)
    → count p xs ≡ 0
    → All (λ x. p x ≡ true → s x ≡ true) xs
unmet p s [] k = tt
unmet p s (x ∷ xs) k = ((λ g. ground arith), unmet p s xs (ground arith))

-- If one element at most passes a test, what one that passes it is, all are.
pub only :
    {A : Type 0} (p s : A → Bool) (xs : List A)
    → count p xs ≤ 1
    → any (λ x. p x && s x) xs ≡ true
    → All (λ x. p x ≡ true → s x ≡ true) xs
only p s [] k h = tt
only p s (x ∷ xs) k h = go (p x) refl (s x) refl (only p s xs)
  where
    go :
        (b : Bool)
        → p x ≡ b
        → (c : Bool) → s x ≡ c
        → (count p xs ≤ 1 → any (λ y. p y && s y) xs ≡ true → All (λ y. p y ≡ true → s y ≡ true) xs)
        → All (λ y. p y ≡ true → s y ≡ true) (x ∷ xs)
    go false e c f more = ((λ g. ground arith), more (ground arith) (ground arith))
    go true e true f more = ((λ g. f), unmet p s xs (ground arith))
    go true e false f more = absurd (
        ground (
          arith,
          count-any p xs (any-imply (λ y. p y && s y) p (λ y g. ground arith) xs (ground arith)),
        ))

pub length-keep : {A : Type 0} (p : A → Bool) (xs : List A) → length (keep p xs) ≡ count p xs
length-keep p [] = refl
length-keep p (x ∷ xs) = go (p x) (length-keep p xs)
  where
    go :
        (b : Bool)
        → length (keep p xs) ≡ count p xs
        → length (if b then x ∷ keep p xs else keep p xs)
          ≡ (if b then suc (count p xs) else count p xs)
    go true e = ap suc e
    go false e = e

pub All-kept {κ} :
    {A : Type 0} (Q : A → Type κ) (p : A → Bool) (xs : List A)
    → All (λ x. p x ≡ true → Q x) xs
    → All Q (keep p xs)
All-kept Q p [] h = tt
All-kept Q p (x ∷ xs) (h, hs) = go (p x) h (All-kept Q p xs hs)
  where
    go :
        (b : Bool)
        → (b ≡ true → Q x)
        → All Q (keep p xs)
        → All Q (if b then x ∷ keep p xs else keep p xs)
    go true e rest = (e refl, rest)
    go false e rest = rest

pub any-keep :
    {A : Type 0} (p q : A → Bool) (xs : List A)
    → any (λ x. p x && q x) xs ≡ true
    → any q (keep p xs) ≡ true
any-keep p q [] h = h
any-keep p q (x ∷ xs) h = go (p x) refl (any-keep p q xs)
  where
    go :
        (b : Bool)
        → p x ≡ b
        → (any (λ y. p y && q y) xs ≡ true → any q (keep p xs) ≡ true)
        → any q (if b then x ∷ keep p xs else keep p xs) ≡ true
    go true e more = ground (arith, more)
    go false e more = more (ground arith)

pub any-count : {A : Type 0} (p : A → Bool) (xs : List A) → 1 ≤ count p xs → any p xs ≡ true
any-count p [] h = absurd (omega arith)
any-count p (x ∷ xs) h = go (p x) refl (any-count p xs)
  where
    go :
        (b : Bool)
        → p x ≡ b
        → (1 ≤ count p xs → any p xs ≡ true)
        → (if b then true else any p xs) ≡ true
    go true e more = refl
    go false e more = more (ground arith)

pub any-kept :
    {A : Type 0} (p q : A → Bool) (xs : List A)
    → any q (keep p xs) ≡ true
    → any (λ x. p x && q x) xs ≡ true
any-kept p q [] h = h
any-kept p q (x ∷ xs) h = go (p x) refl (any-kept p q xs)
  where
    go :
        (b : Bool)
        → p x ≡ b
        → (any q (keep p xs) ≡ true → any (λ y. p y && q y) xs ≡ true)
        → any (λ y. p y && q y) (x ∷ xs) ≡ true
    go true e more = ground (arith, more)
    go false e more = ground (arith, more)
