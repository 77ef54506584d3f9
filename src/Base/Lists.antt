-- ===== src/Base/Lists.antt =====
-- Lists: Boolean filters, counts and membership, as the program's loops and queries use them.
use Prim.Native.Nat.{ℕ, suc, ◌+◌, ◌≤◌}
use mathlib.Core.Path.{◌≡◌, refl}
use mathlib.Core.Bool.{Bool, true, false, not, ◌&&◌, ◌||◌}
use mathlib.Core.List.{List, [], ◌∷◌, ◌++◌}
use native.Mathlib.Omega.{arith}
use cafe_discovery.Base.Tests.{if◌then◌else◌, ◌==◌}

module _ {ℓ} {A : Type ℓ} where
  abbrev pub length : List A → ℕ
  length [] = 0
  length (x ∷ xs) = suc (length xs)

  -- The elements that pass a test, in order.
  abbrev pub select : (A → Bool) → List A → List A
  select p [] = []
  select p (x ∷ xs) = if p x then x ∷ select p xs else select p xs

  -- How many elements pass a test.
  abbrev pub count_if : (A → Bool) → List A → ℕ
  count_if p [] = 0
  count_if p (x ∷ xs) = (if p x then 1 else 0) + count_if p xs

  abbrev pub any_of : (A → Bool) → List A → Bool
  any_of p [] = false
  any_of p (x ∷ xs) = p x || any_of p xs

  abbrev pub all_of : (A → Bool) → List A → Bool
  all_of p [] = true
  all_of p (x ∷ xs) = p x && all_of p xs

  abbrev pub is_nil : List A → Bool
  is_nil [] = true
  is_nil (x ∷ xs) = false

  pub length-append : (xs ys : List A) → length (xs ++ ys) ≡ length xs + length ys
  length-append [] ys = omega arith
  length-append (x ∷ xs) ys = omega (arith, length-append xs ys)

  pub count_if-append :
      (p : A → Bool) (xs ys : List A) → count_if p (xs ++ ys) ≡ count_if p xs + count_if p ys
  count_if-append p [] ys = omega arith
  count_if-append p (x ∷ xs) ys = omega (arith, count_if-append p xs ys)

  pub count_if-select-le : (p q : A → Bool) (xs : List A) → count_if p (select q xs) ≤ count_if p xs
  count_if-select-le p q [] = omega arith
  count_if-select-le p q (x ∷ xs) = ground (arith, count_if-select-le p q xs)

  pub any_of-append :
      (p : A → Bool) (xs ys : List A) → any_of p (xs ++ ys) ≡ (any_of p xs || any_of p ys)
  any_of-append p [] ys = refl
  any_of-append p (x ∷ xs) ys = ground (arith, any_of-append p xs ys)

  -- A test that no element passes keeps nothing back.
  pub select-not-append :
      (p : A → Bool) (xs : List A) (x : A)
      → any_of p xs ≡ false
      → p x ≡ true
      → select (λ y. not (p y)) (xs ++ x ∷ []) ≡ xs
  select-not-append p [] x h e = ground arith
  select-not-append p (y ∷ xs) x h e = ground (arith, select-not-append p xs x)

  pub select-not_none :
      (p : A → Bool) (xs : List A) → any_of p xs ≡ false → select (λ y. not (p y)) xs ≡ xs
  select-not_none p [] h = refl
  select-not_none p (y ∷ xs) h = ground (arith, select-not_none p xs)

  pub any_of-select :
      (p q : A → Bool) (xs : List A) → any_of p (select q xs) ≡ any_of (λ x. q x && p x) xs
  any_of-select p q [] = refl
  any_of-select p q (x ∷ xs) = ground (arith, any_of-select p q xs)

abbrev pub mem : ℕ → List ℕ → Bool
mem a [] = false
mem a (x ∷ xs) = (x == a) || mem a xs
