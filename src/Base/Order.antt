-- ===== src/Base/Order.antt =====
-- Sorting by insertion, for ORDER BY and for sort.Slice: it keeps every element as often.
use Prim.Native.Nat.{suc, ◌+◌}
use mathlib.Core.Path.{◌≡◌, refl}
use mathlib.Core.Bool.{Bool, ◌&&◌}
use mathlib.Core.List.{List, [], ◌∷◌}
use native.Mathlib.Omega.{arith}
use cafe_discovery.Base.Tests.{if◌then◌else◌}
use cafe_discovery.Base.Lists.{count_if, all_of, length}

module _ {A : Type 0} where
  -- Into a sorted list, for the test whether the first argument comes before the second one.
  unfoldable pub place : (A → A → Bool) → A → List A → List A
  place before x [] = x ∷ []
  place before x (y ∷ ys) = if before y x then y ∷ place before x ys else x ∷ y ∷ ys

  unfoldable pub order_by : (A → A → Bool) → List A → List A
  order_by before [] = []
  order_by before (x ∷ xs) = place before x (order_by before xs)

module _ {A : Type 0} (before : A → A → Bool) where
  count_if-place :
      (p : A → Bool) (x : A) (xs : List A)
      → count_if p (place before x xs) ≡ (if p x then 1 else 0) + count_if p xs
  unfolding place
  count_if-place p x [] = refl
  count_if-place p x (y ∷ ys) = ground (arith, count_if-place p x ys)

  pub count_if-order_by :
      (p : A → Bool) (xs : List A) → count_if p (order_by before xs) ≡ count_if p xs
  unfolding order_by
  count_if-order_by p [] = refl
  count_if-order_by p (x ∷ xs) =
      ground (arith, count_if-place p x (order_by before xs), count_if-order_by p xs)

  length-place : (x : A) (xs : List A) → length (place before x xs) ≡ suc (length xs)
  unfolding place
  length-place x [] = refl
  length-place x (y ∷ ys) = ground (arith, length-place x ys)

  pub length-order_by : (xs : List A) → length (order_by before xs) ≡ length xs
  unfolding order_by
  length-order_by [] = refl
  length-order_by (x ∷ xs) = ground (arith, length-place x (order_by before xs), length-order_by xs)

  all_of-place :
      (p : A → Bool) (x : A) (xs : List A) → all_of p (place before x xs) ≡ (p x && all_of p xs)
  unfolding place
  all_of-place p x [] = refl
  all_of-place p x (y ∷ ys) = ground (arith, all_of-place p x ys)

  pub all_of-order_by : (p : A → Bool) (xs : List A) → all_of p (order_by before xs) ≡ all_of p xs
  unfolding order_by
  all_of-order_by p [] = refl
  all_of-order_by p (x ∷ xs) =
      ground (arith, all_of-place p x (order_by before xs), all_of-order_by p xs)
