-- ===== src/Results/Adapter/Latest.antt =====
-- The page of `latest=true` has the newest completed scan of the owner's address.
use cafe_discovery.Base.{
  ℕ, ◌≤◌, Bool, true, false, not, ◌&&◌, ◌||◌, ◌≡◌, refl, sym, ap, ◌∙◌, ◌⊎◌, inl, inr, Option, none,
  some, List, [], ◌∷◌, arith, ◌==◌, leb, select, all_of, Text, ok, Bool-cases, order_by,
  all_of-order_by,
}
use cafe_discovery.Chains.{Blockchain}
use cafe_discovery.Scans.{WalletScan, WalletQuery, WalletPage}
use cafe_discovery.Results.{Table, find_rows, Faults, live, newest_first}
use cafe_discovery.Results.Order.{IsNewestFirst, order_by-IsNewestFirst}
use cafe_discovery.Results.Wallets.{wallet_entity, same_address, list_owner_wallet_scans_by_address}
use cafe_discovery.Results.Adapter.{
  wallet_entity_is_completed, first_where, chain_filter, page_limit, latest_page,
  list_from_repository,
}

-- Where a row passes the test, it is no newer than the given one.
abbrev pub no_newer : (WalletScan → Bool) → WalletScan → WalletScan → Bool
no_newer p e x = not (p x) || leb x.created_at e.created_at

older_rest :
    (p : WalletScan → Bool) (e x : WalletScan) (xs : List WalletScan)
    → x.created_at ≤ e.created_at
    → IsNewestFirst wallet_entity (x ∷ xs)
    → all_of (no_newer p e) (x ∷ xs) ≡ true
older_rest p e x [] h s = ground arith
older_rest p e x (y ∷ ys) h s = ground (arith, older_rest p e y ys (omega (arith, h, s.0)) s.1)

tail-IsNewestFirst :
    (x : WalletScan) (xs : List WalletScan)
    → IsNewestFirst wallet_entity (x ∷ xs)
    → IsNewestFirst wallet_entity xs
tail-IsNewestFirst x [] s = tt
tail-IsNewestFirst x (y ∷ ys) s = s.1

first_newest :
    (p q : WalletScan → Bool) (xs : List WalletScan)
    → IsNewestFirst wallet_entity xs
    → all_of q xs ≡ true
    → ((first_where p xs ≡ none) × (all_of (λ x. not (p x)) xs ≡ true))
      ⊎ ((e : WalletScan) × (first_where p xs ≡ some e)
          × (p e ≡ true)
          × (q e ≡ true)
          × (all_of (no_newer p e) xs ≡ true))
first_newest p q [] s a = inl (refl, refl)
first_newest p q (x ∷ xs) s a = elim (Bool-cases (p x)) [
  | inl h ↦ inr (x, ground (arith, h), h, ground arith, older_rest p x x xs (omega arith) s)
  | inr h ↦ elim (first_newest p q xs (tail-IsNewestFirst x xs s) (ground arith)) [
    | inl (f, n) ↦ inl (ground (arith, h, f), ground (arith, h, n))
    | inr (e, f, pe, qe, n) ↦ inr (e, ground (arith, h, f), pe, qe, ground (arith, h, n))
  ]
]

all_of-select :
    (p q : WalletScan → Bool) (xs : List WalletScan)
    → all_of p (select q xs) ≡ all_of (λ x. not (q x) || p x) xs
all_of-select p q [] = refl
all_of-select p q (x ∷ xs) = ground (arith, all_of-select p q xs)

all_of_self :
    (q : WalletScan → Bool) (xs : List WalletScan) → all_of (λ x. not (q x) || q x) xs ≡ true
all_of_self q [] = refl
all_of_self q (x ∷ xs) = ground (arith, all_of_self q xs)

module _ (unmarshal : Text → Option (List Text)) (cfg : Option (List Blockchain))
    (faults : Faults) where
  -- The rows among which `latest=true` chooses: the owner's, of the address.
  abbrev pub of_address : ℕ → Text → WalletScan → Bool
  of_address user address e = (e.user_id == user) && same_address address e

  -- The test for them: completed, and on the chain that the query names.
  abbrev pub qualifies : WalletQuery → WalletScan → Bool
  qualifies query e =
      wallet_entity_is_completed e && chain_filter unmarshal cfg faults query.chain_id e

  abbrev pub page_with : WalletQuery → List WalletScan → ℕ → WalletPage
  page_with query items total = record {
    items = items;
    total = total;
    limit = page_limit unmarshal cfg faults query;
    offset = query.offset;
  }

  latest-rows :
      (user : ℕ) (address : Text) (query : WalletQuery) (t : Table WalletScan)
      → query.address ≡ some address
      → query.latest ≡ true
      → faults find_rows ≡ false
      → list_from_repository unmarshal cfg faults user query t
        ≡ ok (
            latest_page unmarshal cfg faults query (
              order_by
                (newest_first wallet_entity wallet_entity.id)
                (select (of_address user address) (live t))))
  unfolding list_from_repository list_owner_wallet_scans_by_address
  latest-rows user address query t a l f = ground (arith, a, l, f)

  latest-page :
      (query : WalletQuery) (xs : List WalletScan) (found : Option WalletScan)
      → first_where (qualifies query) xs ≡ found
      → latest_page unmarshal cfg faults query xs
        ≡ (elim found [ none ↦ page_with query [] 0 | some e ↦ page_with query (e ∷ []) 1 ])
  unfolding latest_page
  latest-page query xs found g = rw (g, latest_page) refl

  -- A query for the latest scan of an address, where the database does not fail: either no
  -- undeleted scan of that owner and address is completed on the queried chain, and the page is
  -- empty; or the page is one such scan, and no other such scan is newer.
  pub latest_lem :
      (user : ℕ) (address : Text) (query : WalletQuery) (t : Table WalletScan)
      → query.address ≡ some address
      → query.latest ≡ true
      → faults find_rows ≡ false
      → ((list_from_repository unmarshal cfg faults user query t ≡ ok (page_with query [] 0))
          × (all_of (λ x. not (of_address user address x) || not (qualifies query x)) (live t)
              ≡ true))
        ⊎ ((e : WalletScan) × (list_from_repository unmarshal cfg faults user query t
              ≡ ok (page_with query (e ∷ []) 1))
            × (qualifies query e ≡ true)
            × (of_address user address e ≡ true)
            × (all_of
                  (λ x. not (of_address user address x) || no_newer (qualifies query) e x)
                  (live t)
                ≡ true))
  latest_lem user address query t a l f =
      let before = newest_first wallet_entity wallet_entity.id in
      let p = qualifies query in
      let q = of_address user address in
      let own = select q (live t) in
      let bridge : (r : WalletScan → Bool)
          → all_of r (order_by before own) ≡ all_of (λ x. not (q x) || r x) (live t) =
        λ r. all_of-order_by before r own ∙ all_of-select r q (live t) in
      elim (first_newest p q (order_by before own)
        (order_by-IsNewestFirst wallet_entity wallet_entity.id own)
        (bridge q ∙ all_of_self q (live t))) [
          | inl (g, n) ↦ inl (
            latest-rows user address query t a l f ∙ ap ok (latest-page query _ none g),
            rw (sym (bridge (λ x. not (p x)))) n,
          )
          | inr (e, g, pe, qe, n) ↦ inr (
            e,
            latest-rows user address query t a l f ∙ ap ok (latest-page query _ (some e) g),
            pe,
            qe,
            rw (sym (bridge (no_newer p e))) n,
          )
        ]
