-- ===== src/Scans/Listing.antt =====
-- Which queries the wallet list sends, and what it answers.
use cafe_discovery.Base.{
  ℕ, ◌≤◌, ◌<◌, Bool, true, false, not, ◌&&◌, ◌≡◌, ◌≢◌, refl, inl, inr, Option, none, some, List,
  map, arith, is_nil, ℤ, pos, negsuc, trim, Text, ok, err, Result-cases, Option-cases, Bool-cases,
}
use cafe_discovery.Accept.{get_authenticated_user_id}
use cafe_discovery.Address.{validate_and_normalize_address}
use cafe_discovery.Address.Canonical.{is_canonical, accepted_canonical}
use cafe_discovery.Chains.{Blockchain, parse_positive, parse_int64}
use cafe_discovery.Scans.{
  StoreError, unavailable, other, WalletQuery, WalletPage, Handler, WalletItem, wallet_list,
  invalid_request, Answer, reply, respond_store_error,
}
use cafe_discovery.Scans.Query.{
  ListCall, parse_pagination_params, parse_wallet_scans_latest_query, wallet_query,
  wallet_scan_list_item, list_wallet_scans,
}

-- A page has between 1 and 100 items.
pub pagination_bounds :
    (limit offset : Option ℤ)
    → (1 ≤ (parse_pagination_params limit offset).0)
      × ((parse_pagination_params limit offset).0 ≤ 100)
unfolding parse_pagination_params
pagination_bounds none offset = (ground (arith), ground (arith))
pagination_bounds (some (negsuc n)) offset = (ground (arith), ground (arith))
pagination_bounds (some (pos n)) offset = (ground (arith), ground (arith))

-- What holds of an optional part of a query.
abbrev pub Given : {A : Type 0} → (A → Type 0) → Option A → Type 0
Given p none = Unit {0}
Given p (some a) = p a

pub record IsValidQuery (q : WalletQuery) : Type 0 where
  pub limit_at_least : 1 ≤ q.limit
  pub limit_at_most : q.limit ≤ 100
  pub chain_positive : Given (λ id. 0 < id) q.chain_id
  pub address_canonical : Given (λ a. is_canonical a ≡ true) q.address
  pub addressed : q.address ≡ none → (q.latest ≡ false) × (q.chain_id ≡ none)

parse-positive : (s : Text) (id : ℕ) → parse_positive s ≡ some id → 0 < id
unfolding parse_positive
parse-positive s id h = elim (Option-cases (parse_int64 s)) [
  | inl e ↦ absurd (ground (arith, e, h))
  | inr (pos n, e) ↦ ground (arith, e, h)
  | inr (negsuc n, e) ↦ absurd (ground (arith, e, h))
]

-- The parts of a query that was sent.
abbrev query_of : ListCall → Bool → Option ℕ → Option Text → WalletQuery
query_of call latest chain address = record {
  address = address;
  chain_id = chain;
  latest = latest;
  limit = (parse_pagination_params call.limit call.offset).0;
  offset = (parse_pagination_params call.limit call.offset).1;
}

query_cases :
    (call : ListCall) (q : WalletQuery)
    → wallet_query call ≡ ok q
    → (latest : Bool) × (chain : Option ℕ) × (address : Option Text) × (q
        ≡ query_of call latest chain address)
      × Given (λ id. parse_positive (trim call.chain_id) ≡ some id) chain
      × Given (λ a. validate_and_normalize_address (trim call.address) ≡ ok a) address
      × (address ≡ none → (latest ≡ false) × (chain ≡ none))
unfolding wallet_query
query_cases call q h = elim (Option-cases (parse_wallet_scans_latest_query call.latest)) [
  | inl l ↦ absurd (ground (arith, l, h))
  | inr (latest, l) ↦ elim (Bool-cases (is_nil (trim call.address))) [
    | inl a ↦ elim (Bool-cases (is_nil (trim call.chain_id))) [
      | inr c ↦ absurd (ground (arith, l, a, c, h))
      | inl c ↦ (
        latest,
        none,
        none,
        ground (arith, l, a, c, h),
        tt,
        tt,
        λ _. (ground (arith, l, a, c, h), refl),
      )
    ]
    | inr a ↦ elim (Result-cases (validate_and_normalize_address (trim call.address))) [
      | inr (x, v) ↦ elim (Bool-cases (is_nil (trim call.chain_id))) [
        | inl c ↦ absurd (ground (arith, l, a, c, v, h))
        | inr c ↦
            absurd
              (ground (arith, l, a, c, v, h, Option-cases (parse_positive (trim call.chain_id))))
      ]
      | inl (n, v) ↦ elim (Bool-cases (is_nil (trim call.chain_id))) [
        | inl c ↦ (
          latest,
          none,
          some n,
          ground (arith, l, a, c, v, h),
          tt,
          v,
          λ e. absurd (ground (arith, e)),
        )
        | inr c ↦ elim (Option-cases (parse_positive (trim call.chain_id))) [
          | inl p ↦ absurd (ground (arith, l, a, c, p, v, h))
          | inr (id, p) ↦ (
            latest,
            some id,
            some n,
            ground (arith, l, a, c, p, v, h),
            p,
            v,
            λ e. absurd (ground (arith, e)),
          )
        ]
      ]
    ]
  ]
]

Given-chain :
    (call : ListCall) (chain : Option ℕ)
    → Given (λ id. parse_positive (trim call.chain_id) ≡ some id) chain
    → Given (λ id. 0 < id) chain
Given-chain call none h = tt
Given-chain call (some id) h = parse-positive (trim call.chain_id) id h

Given-address :
    (call : ListCall) (address : Option Text)
    → Given (λ a. validate_and_normalize_address (trim call.address) ≡ ok a) address
    → Given (λ a. is_canonical a ≡ true) address
Given-address call none h = tt
Given-address call (some a) h = (accepted_canonical (trim call.address) a h).0

wallet_query-IsValidQuery :
    (call : ListCall) (q : WalletQuery) → wallet_query call ≡ ok q → IsValidQuery q
wallet_query-IsValidQuery call q h =
    let (latest, chain, address, same, c, a, whole) = query_cases call q h in
    rw same (record {
      limit_at_least = (pagination_bounds call.limit call.offset).0;
      limit_at_most = (pagination_bounds call.limit call.offset).1;
      chain_positive = Given-chain call chain c;
      address_canonical = Given-address call address a;
      addressed = whole;
    })

-- Every refusal of a query is the 400.
query_refusal :
    (call : ListCall) (refusal : Answer)
    → wallet_query call ≡ err refusal
    → refusal ≡ reply 400 invalid_request
unfolding wallet_query
query_refusal call refusal h = elim (Option-cases (parse_wallet_scans_latest_query call.latest)) [
  | inl l ↦ ground (arith, l, h)
  | inr (latest, l) ↦ elim (Bool-cases (latest && is_nil (trim call.address))) [
    | inl a ↦ ground (arith, l, a, h)
    | inr a ↦ elim (Bool-cases (not (is_nil (trim call.chain_id)) && is_nil (trim call.address))) [
      | inl c ↦ ground (arith, l, a, c, h)
      | inr c ↦ elim (Option-cases (parse_positive (trim call.chain_id))) [
        | inl p ↦ ground (
          arith,
          l,
          a,
          c,
          p,
          h,
          Result-cases (validate_and_normalize_address (trim call.address)),
        )
        | inr (id, p) ↦ ground (
          arith,
          l,
          a,
          c,
          p,
          h,
          Result-cases (validate_and_normalize_address (trim call.address)),
        )
      ]
    ]
  ]
]

refusal_no_list :
    (call : ListCall) (refusal : Answer) (status : ℕ) (items : List WalletItem) (t l o : ℕ)
    → wallet_query call ≡ err refusal
    → refusal ≢ reply status (wallet_list items t l o)
refusal_no_list call refusal status items t l o h r =
    absurd (ground (arith, query_refusal call refusal h, r))

error_no_list :
    (x : StoreError) (status : ℕ) (items : List WalletItem) (t l o : ℕ)
    → respond_store_error x ≢ reply status (wallet_list items t l o)
unfolding respond_store_error
error_no_list unavailable status items t l o h = absurd (ground (arith, h))
error_no_list other status items t l o h = absurd (ground (arith, h))

module _ (S : Type 0) (h : Handler S) where
  -- A wallet list is answered only with a page that the store gave for a valid query: a limit from 1
  -- to 100, a positive chain id, an address in its canonical form, and neither `latest` nor a chain id
  -- without an address. Its items are those of the page, one for one and in their order.
  pub list_wallets-IsValidQuery :
      (unmarshal : Text → Option (List Text)) (chains : Option (List Blockchain)) (call : ListCall)
      (s : S) (status : ℕ) (items : List WalletItem) (total limit offset : ℕ)
      → list_wallet_scans S h unmarshal chains call s
        ≡ reply status (wallet_list items total limit offset)
      → (q : WalletQuery) × (page : WalletPage) × IsValidQuery q
        × (h.store.list_wallet_scans
              (get_authenticated_user_id call.write_fails call.locals).0
              (trim call.tenant)
              q
              s
            ≡ ok page)
        × (items ≡ map (wallet_scan_list_item unmarshal chains) page.items)
        × (total ≡ page.total)
  unfolding list_wallet_scans
  list_wallets-IsValidQuery unmarshal chains call s status items total limit offset e =
      let user = (get_authenticated_user_id call.write_fails call.locals).0 in
      elim (Bool-cases (get_authenticated_user_id call.write_fails call.locals).1) [
        | inl w ↦ absurd (ground (arith, w, e))
        | inr w ↦ elim (Result-cases (wallet_query call)) [
          | inr (x, v) ↦
              absurd
                (refusal_no_list call x status items total limit offset v (ground (arith, w, v, e)))
          | inl (q, v) ↦ elim (Bool-cases h.has_read) [
            | inr r ↦ absurd (
                error_no_list unavailable status items total limit offset
                  (ground (arith, w, v, r, e)))
            | inl r ↦ elim (Result-cases (h.store.list_wallet_scans user (trim call.tenant) q s)) [
              | inr (x, g) ↦
                  absurd (
                    error_no_list x status items total limit offset (ground (arith, w, v, r, g, e)))
              | inl (page, g) ↦ (
                q,
                page,
                wallet_query-IsValidQuery call q v,
                g,
                ground (arith, w, v, r, g, e),
                ground (arith, w, v, r, g, e),
              )
            ]
          ]
        ]
      ]
