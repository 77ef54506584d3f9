-- ===== src/Results/Adapter.antt =====
-- internal/handler/scan_read_testsupport.go: RepoScanReadStub, the store of the read handlers on top of the
-- wallet repository, next to a pending store; and the helpers of discovery_v1_scans.go that it uses.
-- It knows no TLS scans. The query is parsed already: a chain id that is no int64 filters nothing.
pub mod Latest
pub mod Laws
use cafe_discovery.Base.{
  ℕ, ◌+◌, ◌-◌, Bool, true, false, not, ◌&&◌, ◌||◌, Option, none, some, List, [], ◌∷◌, ◌==◌, leb,
  if◌then◌else◌, select, length, any_of, Text, codes, text_eq, trim, upper, format_uint, Result, ok,
  err, ◌>>=◌,
}
use cafe_discovery.Scan.{success}
use cafe_discovery.Accept.{PendingRecord}
use cafe_discovery.Chains.{Blockchain, chain_id_by_network, parse_networks}
use cafe_discovery.Scans.{WalletScan, WalletQuery, WalletPage, StoreError, other, ScanStore}
use cafe_discovery.Results.{Table, RepositoryError, Faults, take, skip}
use cafe_discovery.Results.Wallets.{
  find_owned_wallet_scan_by_id, delete_owned_wallet_scan, list_owner_wallet_scans,
  list_owner_wallet_scans_by_address,
}

-- walletEntityIsCompleted
unfoldable pub wallet_entity_is_completed : WalletScan → Bool
wallet_entity_is_completed e = text_eq (upper (trim (codes e.status))) (codes success)

-- walletEntityMatchesChainID
unfoldable pub wallet_entity_matches_chain_id :
    (Text → Option (List Text)) → Option (List Blockchain) → ℕ → WalletScan → Bool
wallet_entity_matches_chain_id unmarshal none want e = false
wallet_entity_matches_chain_id unmarshal (some chains) want e =
    any_of
      (λ n.
        text_eq n (format_uint want)
        || elim (chain_id_by_network chains n) [ none ↦ false | some id ↦ id == want ])
      (parse_networks unmarshal e.networks)

-- paginateWalletScanEntities: the slice from the offset to the offset and the limit, or the end.
unfoldable pub paginate_wallet_scan_entities : List WalletScan → ℕ → ℕ → List WalletScan
paginate_wallet_scan_entities entities limit offset =
    if leb (length entities) offset
    then []
    else let end = offset + limit in
      let stop = if leb (length entities) end then length entities else end in
      take (stop - offset) (skip offset entities)

abbrev pub first_where : (WalletScan → Bool) → List WalletScan → Option WalletScan
first_where p [] = none
first_where p (e ∷ es) = if p e then some e else first_where p es

abbrev pub to_store : {A : Type 0} → Result RepositoryError A → Result StoreError A
to_store (ok a) = ok a
to_store (err e) = err other

-- The pending store's operations that the handlers call.
pub record PendingOps (P : Type 0) : Type 0 where
  pub get : ℕ → Text → ℕ → P → Result StoreError (Option PendingRecord)
  pub delete : ℕ → Text → ℕ → P → P × Result StoreError (Unit {0})
  pub delete_reservation : ℕ → Text → Text → ℕ → P → P

module _ (unmarshal : Text → Option (List Text)) (cfg : Option (List Blockchain))
    (faults : Faults) where
  abbrev pub chain_filter : Option ℕ → WalletScan → Bool
  chain_filter none e = true
  chain_filter (some want) e = wallet_entity_matches_chain_id unmarshal cfg want e

  abbrev pub page_limit : WalletQuery → ℕ
  page_limit query = if query.limit == 0 then 20 else query.limit

  -- The newest completed scan of an address, alone on its page.
  unfoldable pub latest_page : WalletQuery → List WalletScan → WalletPage
  latest_page query all =
      elim (first_where (λ e. wallet_entity_is_completed e && chain_filter query.chain_id e) all) [
        | none ↦ record { items = []; total = 0; limit = page_limit query; offset = query.offset }
        | some e ↦ record {
          items = e ∷ [];
          total = 1;
          limit = page_limit query;
          offset = query.offset;
        }
      ]

  unfoldable pub filtered_page : WalletQuery → ℕ → List WalletScan → WalletPage
  filtered_page query want all =
      let filtered = select (wallet_entity_matches_chain_id unmarshal cfg want) all in
      record {
        items = paginate_wallet_scan_entities filtered (page_limit query) query.offset;
        total = length filtered;
        limit = page_limit query;
        offset = query.offset;
      }

  abbrev pub repository_page : WalletQuery → List WalletScan × ℕ → WalletPage
  repository_page query (items, total) = record {
    items = items;
    total = total;
    limit = page_limit query;
    offset = query.offset;
  }

  abbrev pub map_ok : {E A B : Type 0} → (A → B) → Result E A → Result E B
  map_ok f (ok a) = ok (f a)
  map_ok f (err e) = err e

  -- ListWalletScans
  unfoldable pub list_from_repository :
      ℕ → WalletQuery → Table WalletScan → Result RepositoryError WalletPage
  list_from_repository user query t = elim query.address [
    | none ↦
        map_ok (repository_page query)
          (list_owner_wallet_scans faults user [] (page_limit query) query.offset t)
    | some address ↦
        if query.latest
        then map_ok (latest_page query) (list_owner_wallet_scans_by_address faults user address t)
        else elim query.chain_id [
          | some want ↦
              map_ok (filtered_page query want)
                (list_owner_wallet_scans_by_address faults user address t)
          | none ↦
              map_ok (repository_page query)
                (list_owner_wallet_scans faults user address (page_limit query) query.offset t)
        ]
  ]

  -- RepoScanReadStub as a store: the rows, next to the pending records.
  unfoldable pub repository_store : {P : Type 0} → PendingOps P → ScanStore (Table WalletScan × P)
  repository_store pending = record {
    list_wallet_scans = λ user tenant query s. to_store (list_from_repository user query s.0);
    get_wallet_scan =
        λ user tenant scan s. to_store (find_owned_wallet_scan_by_id faults user scan s.0);
    delete_wallet_scan = λ user tenant scan s.
        let (t, answer) = delete_owned_wallet_scan faults user scan s.0 in
        ((t, s.1), to_store answer);
    list_tls_scans = λ user tenant limit offset s. ok ([], 0);
    list_tls_default_scans = λ user tenant s. ok [];
    get_tls_scan = λ user tenant scan s. ok none;
    delete_tls_scan = λ user tenant scan s. (s, ok false);
    get_pending = λ user tenant scan s. pending.get user tenant scan s.1;
    delete_pending = λ user tenant scan s.
        let (p, answer) = pending.delete user tenant scan s.1 in ((s.0, p), answer);
    delete_reservation = λ user tenant address scan s.
        (s.0, pending.delete_reservation user tenant address scan s.1);
  }
