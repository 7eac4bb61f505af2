-- ===== src/Prelude/Rows.antt =====
-- Tables as lists: what holds of all rows, and counts of rows, under INSERT, UPDATE and DELETE.
use Prim.Native.Nat.{◌+◌, ◌≤◌}
use mathlib.Core.Path.{◌≡◌, refl}
use mathlib.Core.Bool.{Bool, true, false, not, ◌&&◌}
use mathlib.Core.Option.{none, some}
use mathlib.Core.List.{List, [], ◌∷◌, ◌++◌}
use native.Mathlib.Omega.{arith}
use bealhouse.Prelude.Tests.{if◌then◌else◌}
use bealhouse.Prelude.Lists.{keep, any, first, amend, count, All}

module _ {ℓ} {A : Type ℓ} where
  pub All-append {κ} : (Q : A → Type κ) (xs ys : List A) → All Q xs → All Q ys → All Q (xs ++ ys)
  All-append Q [] ys h k = k
  All-append Q (x ∷ xs) ys (hx, hs) k = (hx, All-append Q xs ys hs k)

  pub All-keep {κ} : (Q : A → Type κ) (p : A → Bool) (xs : List A) → All Q xs → All Q (keep p xs)
  All-keep Q p [] h = tt
  All-keep Q p (x ∷ xs) (hx, hs) = go (p x) (All-keep Q p xs hs)
    where
      go : (b : Bool) → All Q (keep p xs) → All Q (if b then x ∷ keep p xs else keep p xs)
      go true r = (hx, r)
      go false r = r

  -- A row that passes the test is changed, and any other stands.
  pub All-amend {κ ν} :
      (P : A → Type κ) (Q : A → Type ν) (p : A → Bool) (f : A → A) (xs : List A)
      → ((x : A) → P x → p x ≡ true → Q (f x))
      → ((x : A) → P x → p x ≡ false → Q x)
      → All P xs
      → All Q (amend p f xs)
  All-amend P Q p f [] hit miss h = tt
  All-amend P Q p f (x ∷ xs) hit miss (hx, hs) =
      (go (p x) (hit x hx) (miss x hx), All-amend P Q p f xs hit miss hs)
    where
      go : (b : Bool) → (b ≡ true → Q (f x)) → (b ≡ false → Q x) → Q (if b then f x else x)
      go true a m = a refl
      go false a m = m refl

  pub All-imply {κ ν} :
      (P : A → Type κ) (Q : A → Type ν) (xs : List A) → ((x : A) → P x → Q x) → All P xs → All Q xs
  All-imply P Q [] k h = tt
  All-imply P Q (x ∷ xs) k (hx, hs) = (k x hx, All-imply P Q xs k hs)

  -- The rows that a deletion leaves.
  pub All-rest {κ ν} :
      (P : A → Type κ) (Q : A → Type ν) (p : A → Bool) (xs : List A)
      → ((x : A) → P x → p x ≡ false → Q x)
      → All P xs
      → All Q (keep (λ x. not (p x)) xs)
  All-rest P Q p [] k h = tt
  All-rest P Q p (x ∷ xs) k (hx, hs) = go (p x) (k x hx) (All-rest P Q p xs k hs)
    where
      left : List A
      left = keep (λ y. not (p y)) xs

      go : (b : Bool) → (b ≡ false → Q x) → All Q left → All Q (if not b then x ∷ left else left)
      go true m r = r
      go false m r = (m refl, r)

  pub All-any : (p : A → Bool) (xs : List A) → any p xs ≡ false → All (λ x. p x ≡ false) xs
  All-any p [] h = tt
  All-any p (x ∷ xs) h = go (p x) refl h (All-any p xs)
    where
      go :
          (b : Bool)
          → p x ≡ b
          → (if b then true else any p xs) ≡ false
          → (any p xs ≡ false → All (λ y. p y ≡ false) xs)
          → All (λ y. p y ≡ false) (x ∷ xs)
      go true e k r = cc
      go false e k r = (e, r k)

  pub first-none : (p : A → Bool) (xs : List A) → All (λ x. p x ≡ false) xs → first p xs ≡ none
  first-none p [] h = refl
  first-none p (x ∷ xs) (hx, hs) = rw hx (first-none p xs hs)

  -- The first row that passes is the new one, where no old one does.
  pub first-append :
      (p : A → Bool) (xs : List A) (y : A)
      → All (λ x. p x ≡ false) xs
      → p y ≡ true
      → first p (xs ++ (y ∷ [])) ≡ some y
  first-append p [] y h hy = rw hy refl
  first-append p (x ∷ xs) y (hx, hs) hy = rw hx (first-append p xs y hs hy)

  pub All-All {κ} : (Q : A → Type κ) (xs : List A) → ((x : A) → Q x) → All Q xs
  All-All Q [] k = tt
  All-All Q (x ∷ xs) k = (k x, All-All Q xs k)

  pub count-append : (p : A → Bool) (xs ys : List A) → count p (xs ++ ys) ≡ count p xs + count p ys
  count-append p [] ys = omega arith
  count-append p (x ∷ xs) ys = ground (arith, count-append p xs ys)

  -- A deletion takes away the rows that pass both tests.
  pub count-rest :
      (p q : A → Bool) (xs : List A)
      → count p (keep (λ x. not (q x)) xs) + count (λ x. p x && q x) xs ≡ count p xs
  count-rest p q [] = omega arith
  count-rest p q (x ∷ xs) = ground (arith, count-rest p q xs)

  pub count-le :
      (p q : A → Bool) (xs : List A) → ((x : A) → p x ≡ true → q x ≡ true) → count p xs ≤ count q xs
  count-le p q [] k = omega arith
  count-le p q (x ∷ xs) k = ground (arith, count-le p q xs k, k x)

  pub count-amend :
      (p q : A → Bool) (f : A → A) (xs : List A)
      → ((x : A) → p (f x) ≡ p x)
      → count p (amend q f xs) ≡ count p xs
  count-amend p q f [] k = refl
  count-amend p q f (x ∷ xs) k = ground (arith, count-amend p q f xs k, k x)

  pub count-none : (p : A → Bool) (xs : List A) → any p xs ≡ false → count p xs ≡ 0
  count-none p [] h = refl
  count-none p (x ∷ xs) h = ground (arith, count-none p xs)
