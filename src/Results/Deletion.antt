-- ===== src/Results/Deletion.antt =====
-- The deletion of an owner's scan: it removes exactly the row that the owner's lookup finds.
use cafe_discovery.Base.{
  ℕ, Bool, true, false, not, ◌&&◌, ◌≡◌, refl, ◌⊎◌, inl, inr, Option, none, some, List, [], ◌∷◌,
  arith, ltb, ◌==◌, ==_iff, select, any_of, ok, Bool-cases, order_by, place,
}
use cafe_discovery.Results.{
  Entity, Table, find_rows, delete_rows, Faults, live, first_of, delete_where, find_one,
  delete_rows_where, owned_by,
}
use cafe_discovery.Results.Tls.{
  TlsResult, tls_entity, owned_tls, find_owned_user_tls_scan_by_id, delete_owned_user_tls_scan,
}

module _ {T : Type 0} where
  pub live-delete_where :
      (p : T → Bool) (t : Table T) → live (delete_where p t) ≡ select (λ x. not (p x)) (live t)
  live-delete_where p [] = refl
  live-delete_where p (r ∷ t) = ground (arith, live-delete_where p t)

  select-select :
      (p q : T → Bool) (xs : List T) → select p (select q xs) ≡ select (λ x. q x && p x) xs
  select-select p q [] = refl
  select-select p q (x ∷ xs) = ground (arith, select-select p q xs)

  pub select_gone : (p : T → Bool) (xs : List T) → select p (select (λ x. not (p x)) xs) ≡ []
  select_gone p [] = refl
  select_gone p (x ∷ xs) = ground (arith, select_gone p xs)

  pub select_kept :
      (p q : T → Bool) (xs : List T)
      → any_of (λ x. p x && q x) xs ≡ false
      → select q (select (λ x. not (p x)) xs) ≡ select q xs
  select_kept p q [] h = refl
  select_kept p q (x ∷ xs) h = ground (arith, select_kept p q xs)

  -- Whether any row matches shows in the first one of the ordered matches.
  place-some :
      (before : T → T → Bool) (x : T) (xs : List T)
      → (y : T) × (first_of (place before x xs) ≡ some y)
  unfolding place
  place-some before x [] = (x, refl)
  place-some before x (y ∷ ys) = elim (Bool-cases (before y x)) [
    | inl e ↦ (y, rw (e) refl)
    | inr e ↦ (x, rw (e) refl)
  ]

  found_iff :
      (before : T → T → Bool) (p : T → Bool) (xs : List T)
      → ((any_of p xs ≡ true) × (y : T) × (first_of (order_by before (select p xs)) ≡ some y))
        ⊎ ((any_of p xs ≡ false) × (select p xs ≡ []))
  unfolding order_by
  found_iff before p [] = inr (refl, refl)
  found_iff before p (x ∷ xs) = elim (Bool-cases (p x)) [
    | inl e ↦
        let (y, f) = place-some before x (order_by before (select p xs)) in
        inl (ground (arith, e), y, rw (e, order_by) f)
    | inr e ↦ elim (found_iff before p xs) [
      | inl (a, y, f) ↦ inl (ground (arith, e, a), y, rw (e) f)
      | inr (a, f) ↦ inr (ground (arith, e, a), rw (e) f)
    ]
  ]

  module _ (e : Entity T) where
    -- The rows that a deletion by a test leaves, and what a lookup by the same test finds afterwards.
    pub delete-find :
        (faults : Faults) (p : T → Bool) (t : Table T)
        → faults delete_rows ≡ false
        → faults find_rows ≡ false
        → (find_one e faults p (delete_rows_where e faults p t).0 ≡ ok none)
          × ((((delete_rows_where e faults p t).1 ≡ ok true)
                × ((y : T) × (find_one e faults p t ≡ ok (some y))))
              ⊎ (((delete_rows_where e faults p t).1 ≡ ok false)
                  × (find_one e faults p t ≡ ok none)))
    unfolding find_one delete_rows_where order_by
    delete-find faults p t d f =
        let gone = live-delete_where p t in
        (
          rw (d, f, gone, select_gone p (live t)) refl,
          elim (found_iff (λ x y. ltb (e.id x) (e.id y)) p (live t)) [
            | inl (a, y, g) ↦ inl (rw (d, a) refl, (y, rw (f, g) refl))
            | inr (a, g) ↦ inr (rw (d, a) refl, rw (f, g) refl)
          ],
        )

owner_differs :
    (o : Option ℕ) (u v : ℕ) → (u == v) ≡ false → owned_by o u ≡ true → owned_by o v ≡ false
owner_differs none u v n h = refl
owner_differs (some w) u v n h = ground (arith, ==_iff w u, ==_iff w v, ==_iff u v)

none_shared :
    (p q : TlsResult → Bool) (xs : List TlsResult)
    → ((x : TlsResult) → (p x && q x) ≡ false)
    → any_of (λ x. p x && q x) xs ≡ false
none_shared p q [] h = refl
none_shared p q (x ∷ xs) h = ground (arith, h x, none_shared p q xs h)

kept_lem :
    (faults : Faults) (user scan : ℕ) (t : Table TlsResult) (q : TlsResult → Bool)
    → ((x : TlsResult) → (owned_tls user scan x && q x) ≡ false)
    → faults delete_rows ≡ false
    → select q (live (delete_owned_user_tls_scan faults user scan t).0) ≡ select q (live t)
unfolding delete_owned_user_tls_scan delete_rows_where
kept_lem faults user scan t q none_of d =
    let p = owned_tls user scan in
    rw (d, live-delete_where p t) (select_kept p q (live t) (none_shared p q (live t) none_of))

-- Where the database does not fail, a user's deletion of a TLS scan answers whether the user's lookup
-- found the scan before, and that lookup finds nothing afterwards. The rows of the shared
-- catalogue, those of every other user and those with another identifier are as before.
pub delete-confined :
    (faults : Faults) (user other scan : ℕ) (t : Table TlsResult)
    → faults delete_rows ≡ false
    → faults find_rows ≡ false
    → (user == other) ≡ false
    → (find_owned_user_tls_scan_by_id faults user scan
          (delete_owned_user_tls_scan faults user scan t).0
        ≡ ok none)
      × ((((delete_owned_user_tls_scan faults user scan t).1 ≡ ok true)
            × ((y : TlsResult) × (find_owned_user_tls_scan_by_id faults user scan t ≡ ok (some y))))
          ⊎ (((delete_owned_user_tls_scan faults user scan t).1 ≡ ok false)
              × (find_owned_user_tls_scan_by_id faults user scan t ≡ ok none)))
      × (select (λ e. e.is_default) (live (delete_owned_user_tls_scan faults user scan t).0)
          ≡ select (λ e. e.is_default) (live t))
      × (select
            (λ e. owned_by e.user_id other)
            (live (delete_owned_user_tls_scan faults user scan t).0)
          ≡ select (λ e. owned_by e.user_id other) (live t))
      × (select (λ e. not (e.id == scan)) (live (delete_owned_user_tls_scan faults user scan t).0)
          ≡ select (λ e. not (e.id == scan)) (live t))
unfolding find_owned_user_tls_scan_by_id delete_owned_user_tls_scan
delete-confined faults user other scan t d f n =
    let (gone, answer) = delete-find tls_entity faults (owned_tls user scan) t d f in
    (
      gone,
      answer,
      kept_lem faults user scan t (λ e. e.is_default) (λ x. ground arith) d,
      kept_lem faults user scan t (λ e. owned_by e.user_id other)
          (λ x. ground (arith, owner_differs x.user_id user other n)) d,
      kept_lem faults user scan t (λ e. not (e.id == scan)) (λ x. ground arith) d,
    )
