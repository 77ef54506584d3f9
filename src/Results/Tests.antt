-- ===== src/Results/Tests.antt =====
-- Runs of internal/repository and of the repository store on two users' scans and the catalogue.
use cafe_discovery.Base.{
  ℕ, Bool, true, false, not, ◌≡◌, refl, ◌⊎◌, Option, none, some, List, [], ◌∷◌, arith, ◌==◌, select,
  count_if, all_of, ◌||◌, String, Text, codes, ok, order_by, place,
}
use cafe_discovery.Accept.{PendingRecord}
use cafe_discovery.Scans.{WalletScan, WalletQuery}
use cafe_discovery.Scans.Outputs.{IsScanStore}
use cafe_discovery.Results.{Row, Table, Faults, owned_by, live, list_page}
use cafe_discovery.Results.Order.{IsNewestFirst}
use cafe_discovery.Results.Paging.{collect, collect_lem}
use cafe_discovery.Results.Deletion.{delete-confined}
use cafe_discovery.Results.Wallets.{wallet_entity}
use cafe_discovery.Results.Tls.{
  TlsResult, find_owned_user_tls_scan_by_id, delete_owned_user_tls_scan,
}
use cafe_discovery.Results.Adapter.{PendingOps, list_from_repository, repository_store}
use cafe_discovery.Results.Adapter.Latest.{of_address, qualifies, page_with, no_newer, latest_lem}
use cafe_discovery.Results.Adapter.Laws.{IsPendingOps, repository_store-IsScanStore}

abbrev no_faults : Faults
no_faults q = false

abbrev wallet : ℕ → String → ℕ → Row WalletScan
wallet id status created_at = record {
  entity = record {
    id = id;
    user_id = 7;
    address = codes "0xa";
    networks = [];
    status = status;
    created_at = created_at;
  };
  is_deleted = false;
}

abbrev wallets : Table WalletScan
wallets = wallet 1 "SUCCESS" 10 ∷ wallet 2 "FAILED" 30 ∷ wallet 3 "SUCCESS" 20 ∷ []

abbrev every : WalletScan → Bool
every e = true

collect_lem_example :
    (items : List WalletScan) × (collect wallet_entity 4 no_faults every 2 0 wallets
      ≡ some (ok items))
    × IsNewestFirst wallet_entity items
    × (count_if every items ≡ 3)
collect_lem_example =
    collect_lem wallet_entity no_faults every every 2 wallets refl refl (omega arith)

-- The second page of two rows has the oldest scan.
second_page :
    list_page wallet_entity no_faults every 2 2 wallets
    ≡ ok ((wallet 1 "SUCCESS" 10).entity ∷ [], 3)
unfolding list_page order_by place
second_page = refl

abbrev tls : ℕ → Option ℕ → Bool → Row TlsResult
tls id user is_default = record {
  entity = record {
    id = id;
    user_id = user;
    url = codes "https://a.io";
    is_default = is_default;
    status = "SUCCESS";
    created_at = id;
  };
  is_deleted = false;
}

abbrev tls_scans : Table TlsResult
tls_scans = tls 1 (some 7) false ∷ tls 2 none true ∷ tls 3 (some 8) false ∷ []

abbrev after : Table TlsResult
after = (delete_owned_user_tls_scan no_faults 7 1 tls_scans).0

delete-confined_example :
    (find_owned_user_tls_scan_by_id no_faults 7 1 after ≡ ok none)
    × ((((delete_owned_user_tls_scan no_faults 7 1 tls_scans).1 ≡ ok true)
          × ((y : TlsResult) × (find_owned_user_tls_scan_by_id no_faults 7 1 tls_scans
                ≡ ok (some y))))
        ⊎ (((delete_owned_user_tls_scan no_faults 7 1 tls_scans).1 ≡ ok false)
            × (find_owned_user_tls_scan_by_id no_faults 7 1 tls_scans ≡ ok none)))
    × (select (λ e. e.is_default) (live after) ≡ select (λ e. e.is_default) (live tls_scans))
    × (select (λ e. owned_by e.user_id 8) (live after)
        ≡ select (λ e. owned_by e.user_id 8) (live tls_scans))
    × (select (λ e. not (e.id == 1)) (live after) ≡ select (λ e. not (e.id == 1)) (live tls_scans))
delete-confined_example = delete-confined no_faults 7 8 1 tls_scans refl refl refl

abbrev latest_query : WalletQuery
latest_query = record {
  address = some (codes "0xa");
  chain_id = none;
  latest = true;
  limit = 20;
  offset = 0;
}

abbrev no_names : Text → Option (List Text)
no_names json = none

latest_lem_example :
    ((list_from_repository no_names none no_faults 7 latest_query wallets
        ≡ ok (page_with no_names none no_faults latest_query [] 0))
      × (all_of
            (λ x.
              not (of_address no_names none no_faults 7 (codes "0xa") x)
              || not (qualifies no_names none no_faults latest_query x))
            (live wallets)
          ≡ true))
    ⊎ ((e : WalletScan) × (list_from_repository no_names none no_faults 7 latest_query wallets
          ≡ ok (page_with no_names none no_faults latest_query (e ∷ []) 1))
        × (qualifies no_names none no_faults latest_query e ≡ true)
        × (of_address no_names none no_faults 7 (codes "0xa") e ≡ true)
        × (all_of
              (λ x.
                not (of_address no_names none no_faults 7 (codes "0xa") x)
                || no_newer (qualifies no_names none no_faults latest_query) e x)
              (live wallets)
            ≡ true))
latest_lem_example =
    latest_lem no_names none no_faults 7 (codes "0xa") latest_query wallets refl refl refl

-- A pending store with at most one record.
abbrev one_pending : PendingOps (Option PendingRecord)
one_pending = record {
  get = λ user tenant scan p. ok p;
  delete = λ user tenant scan p. (none, ok tt);
  delete_reservation = λ user tenant address scan p. p;
}

one_pending-IsPendingOps : IsPendingOps (Option PendingRecord) one_pending
one_pending-IsPendingOps = record {
  gone = λ user tenant scan p h. refl;
  released = λ user tenant address scan p h. h;
}

repository_store-IsScanStore_example :
    IsScanStore
      (Table WalletScan × Option PendingRecord)
      (repository_store no_names none no_faults one_pending)
repository_store-IsScanStore_example =
    repository_store-IsScanStore no_names none no_faults one_pending refl one_pending-IsPendingOps
