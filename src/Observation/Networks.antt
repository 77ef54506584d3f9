-- ===== src/Observation/Networks.antt =====
-- The chain ids of an observation: strictly ascending, and exactly those of the scan's networks.
use cafe_discovery.Base.{
  ℕ, suc, ◌<◌, ◌≤◌, true, false, ◌||◌, ◌≡◌, refl, ◌↔◌, inl, inr, Option, some, List, [], ◌∷◌, arith,
  ltb, ◌==◌, ==_iff, mem, place, order_by, Text, Option-cases, Bool-cases,
}
use cafe_discovery.Chains.Ids.{StandsFor}
use cafe_discovery.Observation.Export.{seen_ids, resolve_chain_ids}

abbrev pub IsAscending : List ℕ → Type 0
IsAscending [] = Unit {0}
IsAscending (x ∷ []) = Unit {0}
IsAscending (x ∷ y ∷ ys) = (x < y) × IsAscending (y ∷ ys)

mem-place : (a x : ℕ) (xs : List ℕ) → mem a (place ltb x xs) ≡ (x == a || mem a xs)
unfolding place
mem-place a x [] = refl
mem-place a x (y ∷ ys) = ground (arith, mem-place a x ys)

mem-order_by : (a : ℕ) (xs : List ℕ) → mem a (order_by ltb xs) ≡ mem a xs
unfolding order_by
mem-order_by a [] = refl
mem-order_by a (x ∷ xs) = ground (arith, mem-place a x (order_by ltb xs), mem-order_by a xs)

place-IsAscending :
    (x : ℕ) (xs : List ℕ) → mem x xs ≡ false → IsAscending xs → IsAscending (place ltb x xs)
unfolding place
place-IsAscending x [] m s = tt
place-IsAscending x (y ∷ []) m s = ground (arith, ==_iff y x)
place-IsAscending x (y ∷ z ∷ zs) m s =
    ground (arith, ==_iff y x, ==_iff z x, place-IsAscending x (z ∷ zs))

module _ (by_name : Text → Option ℕ) where
  seen-IsAscending : (networks : List Text) → IsAscending (order_by ltb (seen_ids by_name networks))
  unfolding seen_ids order_by
  seen-IsAscending [] = tt
  seen-IsAscending (n ∷ networks) =
      let seen = seen_ids by_name networks in
      elim (Option-cases (by_name n)) [
        | inl e ↦
            let same : seen_ids by_name (n ∷ networks) ≡ seen = rw (e, seen_ids) refl in
            rw (same) (seen-IsAscending networks)
        | inr (id, e) ↦ elim (Bool-cases (id == 0 || mem id seen)) [
          | inl s ↦
              let same : seen_ids by_name (n ∷ networks) ≡ seen = rw (e, s, seen_ids) refl in
              rw (same) (seen-IsAscending networks)
          | inr s ↦
              let same : seen_ids by_name (n ∷ networks) ≡ id ∷ seen = rw (e, s, seen_ids) refl in
              let fresh : mem id (order_by ltb seen) ≡ false =
                ground (arith, s, mem-order_by id seen) in
              rw (same) (place-IsAscending id (order_by ltb seen) fresh (seen-IsAscending networks))
        ]
      ]

  seen-StandsFor :
      (networks : List Text) (id : ℕ)
      → (mem id (seen_ids by_name networks) ≡ true) ↔ ((suc 0 ≤ id) × StandsFor by_name networks id)
  unfolding seen_ids
  seen-StandsFor [] id = ground arith
  seen-StandsFor (n ∷ networks) id = elim (Option-cases (by_name n)) [
    | inl e ↦ ground (arith, e, seen-StandsFor networks id)
    | inr (found, e) ↦ ground (arith, e, seen-StandsFor networks id, ==_iff found id)
  ]

  -- The chain ids of the event for a scan are strictly ascending, and a number is one of them
  -- exactly if it is positive and the configuration gives it to one of the scan's networks.
  pub resolve-StandsFor :
      (networks : List Text) (id : ℕ)
      → IsAscending (resolve_chain_ids networks (some by_name))
        × ((mem id (resolve_chain_ids networks (some by_name)) ≡ true)
            ↔ ((suc 0 ≤ id) × StandsFor by_name networks id))
  unfolding resolve_chain_ids
  resolve-StandsFor networks id = (
    seen-IsAscending networks,
    rw (mem-order_by id (seen_ids by_name networks)) (seen-StandsFor networks id),
  )
