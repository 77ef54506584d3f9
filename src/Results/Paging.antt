-- ===== src/Results/Paging.antt =====
-- A client that asks for page after page gets every row that matches exactly once, the newest first.
use native.Mathlib.Numerals.{unary_clauses}
use cafe_discovery.Base.{
  ℕ, zero, suc, ◌+◌, ◌≤◌, Bool, false, ◌≡◌, refl, ap, List, [], ◌∷◌, ◌++◌, arith, leb,
  if◌then◌else◌, select, count_if, length, Option, none, some, Result, ok, err, ◌<◌, Bool-cases,
  inl, inr, order_by, count_if-order_by, length-order_by,
}
use cafe_discovery.Results.{
  Entity, Table, find_rows, count_rows, RepositoryError, Faults, take, skip, live, newest_first,
  list_page,
}
use cafe_discovery.Results.Order.{IsNewestFirst, order_by-IsNewestFirst}

module _ {A : Type 0} where
  take-skip : (n : ℕ) (xs : List A) → take n xs ++ skip n xs ≡ xs
  take-skip zero xs = refl
  take-skip (suc n) [] = refl
  take-skip (suc n) (x ∷ xs) = ap (λ r. x ∷ r) (take-skip n xs)

  next_page : (n k : ℕ) (xs : List A) → take n (skip k xs) ++ skip (k + n) xs ≡ skip k xs
  next_page n zero xs = let e : 0 + n ≡ n = omega arith in rw e (take-skip n xs)
  next_page zero (suc k) [] = simp unary_clauses refl
  next_page (suc n) (suc k) [] = simp unary_clauses refl
  next_page n (suc k) (x ∷ xs) =
      let e : suc k + n ≡ suc (k + n) = omega arith in rw e (next_page n k xs)

  skip_all : (k : ℕ) (xs : List A) → length xs ≤ k → skip k xs ≡ []
  skip_all zero [] h = refl
  skip_all zero (x ∷ xs) h = absurd (omega (arith, h))
  skip_all (suc k) [] h = refl
  skip_all (suc k) (x ∷ xs) h = skip_all k xs (omega (arith, h))

module _ {T : Type 0} (e : Entity T) where
  -- A page in front of the pages after it.
  abbrev in_front : List T → Result RepositoryError (List T) → Result RepositoryError (List T)
  in_front page (ok items) = ok (page ++ items)
  in_front page (err x) = err x

  -- The requests of a client: the pages from an offset on, until the offset has reached the total.
  -- None when the requests have run out before.
  unfoldable pub collect :
      ℕ → Faults → (T → Bool) → ℕ → ℕ → Table T → Option (Result RepositoryError (List T))
  collect zero faults p limit offset t = none
  collect (suc fuel) faults p limit offset t =
      let rest = collect fuel faults p limit (offset + limit) t in
      elim (list_page e faults p limit offset t) [
        | err x ↦ some (err x)
        | ok page ↦
            if leb page.1 offset
            then some (ok [])
            else elim rest [ none ↦ none | some tail ↦ some (in_front page.0 tail) ]
      ]

  abbrev pub matching : (T → Bool) → Table T → List T
  matching p t = order_by (newest_first e e.id) (select p (live t))

  collect_from :
      (fuel : ℕ) (faults : Faults) (p : T → Bool) (limit offset : ℕ) (t : Table T)
      → faults count_rows ≡ false
      → faults find_rows ≡ false
      → 1 ≤ limit
      → length (select p (live t)) < offset + fuel
      → 1 ≤ fuel
      → collect fuel faults p limit offset t ≡ some (ok (skip offset (matching p t)))
  unfolding collect list_page
  collect_from zero faults p limit offset t c f l h n = absurd (omega (arith, n))
  collect_from (suc fuel) faults p limit offset t c f l h n =
      elim (Bool-cases (leb (length (select p (live t))) offset)) [
        | inl done ↦
            let nothing =
              skip_all offset (matching p t)
                (ground (arith, length-order_by (newest_first e e.id) (select p (live t)))) in
            rw (c, f, done, nothing, collect) refl
        | inr more ↦
            let rest =
              collect_from fuel faults p limit (offset + limit) t c f l (omega (arith, h, l))
                (ground (arith, h, more)) in
            rw (c, f, more, rest, collect)
              (ap (λ items. some (ok items)) (next_page limit offset (matching p t)))
      ]

  -- Where the queries do not fail, a client that requests pages of at least one row until the offset has
  -- reached the total is done after at most one request more than there are matching rows. It
  -- then has the undeleted rows that match, each as often as the table has it and none before a
  -- newer one.
  pub collect_lem :
      (faults : Faults) (p q : T → Bool) (limit : ℕ) (t : Table T)
      → faults count_rows ≡ false
      → faults find_rows ≡ false
      → 1 ≤ limit
      → (items : List T) × (collect (suc (length (select p (live t)))) faults p limit 0 t
          ≡ some (ok items))
        × IsNewestFirst e items
        × (count_if q items ≡ count_if q (select p (live t)))
  collect_lem faults p q limit t c f l = (
    matching p t,
    collect_from _ faults p limit 0 t c f l (omega arith) (omega arith),
    order_by-IsNewestFirst e e.id (select p (live t)),
    count_if-order_by (newest_first e e.id) q (select p (live t)),
  )
