-- ===== src/Base/Maps.antt =====
-- A Go map keyed by an identifier, as an association list with one entry for a key.
use Prim.Native.Nat.{ℕ}
use mathlib.Core.Path.{◌≡◌}
use mathlib.Core.Bool.{Bool, true, false}
use mathlib.Core.Option.{Option, none, some}
use mathlib.Core.List.{List, [], ◌∷◌}
use native.Mathlib.Omega.{arith}
use cafe_discovery.Base.Tests.{if◌then◌else◌, ◌==◌}

module _ {ℓ} {V : Type ℓ} where
  unfoldable pub lookup : ℕ → List (ℕ × V) → Option V
  lookup key [] = none
  lookup key ((found, value) ∷ rest) = if found == key then some value else lookup key rest

  unfoldable pub insert : ℕ → V → List (ℕ × V) → List (ℕ × V)
  insert key value [] = (key, value) ∷ []
  insert key value ((found, old) ∷ rest) =
      if found == key then (key, value) ∷ rest else (found, old) ∷ insert key value rest

  -- `delete` on every key that passes the test.
  unfoldable pub drop_keys : (ℕ → Bool) → List (ℕ × V) → List (ℕ × V)
  drop_keys p [] = []
  drop_keys p ((j, v) ∷ m) = if p j then drop_keys p m else (j, v) ∷ drop_keys p m

  abbrev pub erase : ℕ → List (ℕ × V) → List (ℕ × V)
  erase k = drop_keys (λ j. j == k)

  abbrev pub has_key : ℕ → List (ℕ × V) → Bool
  has_key k m = elim (lookup k m) [ none ↦ false | some v ↦ true ]

  pub lookup-insert :
      (key other : ℕ) (value : V) (entries : List (ℕ × V))
      → lookup other (insert key value entries)
        ≡ (if other == key then some value else lookup other entries)
  unfolding insert lookup
  lookup-insert key other value ((found, old) ∷ rest) =
      ground (arith, lookup-insert key other value rest)
  lookup-insert key other value [] = ground arith

  pub lookup-drop_keys :
      (p : ℕ → Bool) (k : ℕ) (m : List (ℕ × V))
      → lookup k (drop_keys p m) ≡ (if p k then none else lookup k m)
  unfolding lookup drop_keys
  lookup-drop_keys p k [] = ground arith
  lookup-drop_keys p k ((j, v) ∷ m) = ground (arith, lookup-drop_keys p k m)
