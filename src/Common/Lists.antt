-- ===== src/Common/Lists.antt =====
-- Lists over the native numbers: the library's functions under the library's names.
use Prim.Native.Nat.{ℕ, zero, suc, ◌+◌, ◌≤◌}
use mathlib.Core.Path.{◌≡◌, refl}
use mathlib.Core.Bool.{Bool, true, ◌&&◌}
use mathlib.Core.Option.{Option, none, some}
use mathlib.Core.List.{List, [], ◌∷◌, ◌++◌}
use native.Mathlib.Omega.{arith}
use shuosc_network_server_ba.Common.Tests.{if◌then◌else◌}

module _ {ℓ} {A : Type ℓ} where
  abbrev pub length : List A → ℕ
  length [] = 0
  length (x ∷ xs) = suc (length xs)

  abbrev pub take : ℕ → List A → List A
  take zero xs = []
  take (suc n) [] = []
  take (suc n) (x ∷ xs) = x ∷ take n xs

  abbrev pub drop : ℕ → List A → List A
  drop zero xs = xs
  drop (suc n) [] = []
  drop (suc n) (x ∷ xs) = drop n xs

  -- The rows that pass a test, in order.
  abbrev pub select : (A → Bool) → List A → List A
  select p [] = []
  select p (x ∷ xs) = let rest = select p xs in if p x then x ∷ rest else rest

  -- The first row that passes a test.
  abbrev pub first : (A → Bool) → List A → Option A
  first p [] = none
  first p (x ∷ xs) = if p x then some x else first p xs

  -- How many rows pass a test.
  abbrev pub count : (A → Bool) → List A → ℕ
  count p [] = 0
  count p (x ∷ xs) = if p x then suc (count p xs) else count p xs

  -- A predicate of every element.
  abbrev pub All {κ} : (A → Type κ) → List A → Type κ
  All P [] = Unit {κ}
  All P (x ∷ xs) = P x × All P xs

  pub length-append : (xs ys : List A) → length (xs ++ ys) ≡ length xs + length ys
  length-append [] ys = omega arith
  length-append (x ∷ xs) ys = omega (arith, length-append xs ys)

  pub length-select-le : (p : A → Bool) (xs : List A) → length (select p xs) ≤ length xs
  length-select-le p [] = omega arith
  length-select-le p (x ∷ xs) = ground (arith, length-select-le p xs)

  pub length-select : (p : A → Bool) (xs : List A) → length (select p xs) ≡ count p xs
  length-select p [] = refl
  length-select p (x ∷ xs) = ground (arith, length-select p xs)

  pub first-holds : (p : A → Bool) (xs : List A) (x : A) → first p xs ≡ some x → p x ≡ true
  first-holds p [] x e = ground arith
  first-holds p (y ∷ ys) x e = ground (arith, first-holds p ys x)

  pub count-append : (p : A → Bool) (xs ys : List A) → count p (xs ++ ys) ≡ count p xs + count p ys
  count-append p [] ys = omega arith
  count-append p (x ∷ xs) ys = ground (arith, count-append p xs ys)

  pub first-count :
      (p q : A → Bool) (xs : List A) (x : A) → first p xs ≡ some x → q x ≡ true → 1 ≤ count q xs
  first-count p q [] x e h = ground arith
  first-count p q (y ∷ ys) x e h = ground (arith, first-count p q ys x)

  -- A row that passes a test of at most one row is the first to pass it.
  pub first_unique :
      (p q : A → Bool) (xs : List A) (x : A)
      → count q xs ≤ 1
      → first p xs ≡ some x
      → q x ≡ true
      → first q xs ≡ some x
  first_unique p q [] x u e h = ground arith
  first_unique p q (y ∷ ys) x u e h = ground (arith, first_unique p q ys x, first-count p q ys x)

  -- The first of the rows that another test selects.
  pub first-select :
      (p q : A → Bool) (xs : List A) (x : A)
      → first p (select q xs) ≡ some x
      → (p x ≡ true) × (q x ≡ true) × (first (λ y. p y && q y) xs ≡ some x)
  first-select p q [] x e = ground arith
  first-select p q (y ∷ ys) x e = ground (arith, first-select p q ys x)

  pub first-none : (p : A → Bool) (xs : List A) → first p xs ≡ none → count p xs ≡ 0
  first-none p [] e = refl
  first-none p (x ∷ xs) e = ground (arith, first-none p xs)
