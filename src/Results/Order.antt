-- ===== src/Results/Order.antt =====
-- What ORDER BY does to a list of rows: no row stands before a newer one.
use cafe_discovery.Base.{ℕ, ◌≤◌, List, [], ◌∷◌, arith, place, order_by}
use cafe_discovery.Results.{Entity, newest_first}

module _ {T : Type 0} (e : Entity T) where
  -- No row is newer than the given instant, and each is at least as new as the one after it.
  abbrev pub IsNewestFirst : List T → Type 0
  IsNewestFirst [] = Unit {0}
  IsNewestFirst (x ∷ []) = Unit {0}
  IsNewestFirst (x ∷ y ∷ ys) = (e.created_at y ≤ e.created_at x) × IsNewestFirst (y ∷ ys)

  place-IsNewestFirst :
      (rank : T → ℕ) (x : T) (xs : List T)
      → IsNewestFirst xs
      → IsNewestFirst (place (newest_first e rank) x xs)
  unfolding place
  place-IsNewestFirst rank x [] s = tt
  place-IsNewestFirst rank x (y ∷ []) s = ground arith
  place-IsNewestFirst rank x (y ∷ z ∷ zs) s =
      ground (arith, place-IsNewestFirst rank x (z ∷ zs) s.1)

  pub order_by-IsNewestFirst :
      (rank : T → ℕ) (xs : List T) → IsNewestFirst (order_by (newest_first e rank) xs)
  unfolding order_by
  order_by-IsNewestFirst rank [] = tt
  order_by-IsNewestFirst rank (x ∷ xs) =
      place-IsNewestFirst rank x (order_by (newest_first e rank) xs)
        (order_by-IsNewestFirst rank xs)
