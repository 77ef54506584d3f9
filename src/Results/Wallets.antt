-- ===== src/Results/Wallets.antt =====
-- internal/repository/scan_result_repository.go: the wallet scans.
use cafe_discovery.Base.{
  ℕ, Bool, not, ◌&&◌, ◌||◌, Option, some, List, ◌==◌, select, is_nil, Text, text_eq, trim, lower, ℤ,
  Result, ok, guard, ◌>>◌, order_by,
}
use cafe_discovery.Scans.{WalletScan}
use cafe_discovery.Results.{
  Entity, Table, find_rows, query_failed, RepositoryError, Faults, live, newest_first, create,
  find_by_user_id, find_by_id, count_by_user_id, list_page, find_one, delete_rows_where,
}

abbrev pub wallet_entity : Entity WalletScan
wallet_entity = record {
  id = λ e. e.id;
  owner = λ e. some e.user_id;
  created_at = λ e. e.created_at;
  with_id = λ id e. record e { id = id };
}

abbrev pub owned_wallet : ℕ → ℕ → WalletScan → Bool
owned_wallet user scan e = (e.id == scan) && (e.user_id == user)

-- `LOWER(address) = ?`
abbrev pub same_address : Text → WalletScan → Bool
same_address address e = text_eq (lower e.address) (lower (trim address))

abbrev pub address_filter : Text → WalletScan → Bool
address_filter address e = is_nil (trim address) || same_address address e

-- Create, FindByUserID, FindByID and CountByUserID are those of the base repository.
unfoldable pub create_wallet_scan :
    Faults → ℕ → WalletScan → Table WalletScan → Result RepositoryError (Table WalletScan)
create_wallet_scan = create wallet_entity

unfoldable pub find_wallet_scans_by_user :
    Faults
    → (WalletScan → ℕ)
    → ℕ
    → ℤ
    → ℤ
    → Table WalletScan
    → Result RepositoryError (List WalletScan)
find_wallet_scans_by_user = find_by_user_id wallet_entity

unfoldable pub find_wallet_scan_by_id :
    Faults → ℕ → Table WalletScan → Result RepositoryError (Option WalletScan)
find_wallet_scan_by_id = find_by_id wallet_entity

unfoldable pub count_wallet_scans_by_user : Faults → ℕ → Table WalletScan → Result RepositoryError ℕ
count_wallet_scans_by_user = count_by_user_id wallet_entity

-- FindOwnedWalletScanByID
unfoldable pub find_owned_wallet_scan_by_id :
    Faults → ℕ → ℕ → Table WalletScan → Result RepositoryError (Option WalletScan)
find_owned_wallet_scan_by_id faults user scan =
    find_one wallet_entity faults (owned_wallet user scan)

-- DeleteOwnedWalletScan
unfoldable pub delete_owned_wallet_scan :
    Faults → ℕ → ℕ → Table WalletScan → Table WalletScan × Result RepositoryError Bool
delete_owned_wallet_scan faults user scan =
    delete_rows_where wallet_entity faults (owned_wallet user scan)

-- ListOwnerWalletScansDiscoveryV1
unfoldable pub list_owner_wallet_scans :
    Faults → ℕ → Text → ℕ → ℕ → Table WalletScan → Result RepositoryError (List WalletScan × ℕ)
list_owner_wallet_scans faults user address limit offset =
    list_page wallet_entity faults (λ e. (e.user_id == user) && address_filter address e) limit
      offset

-- ListOwnerWalletScansByAddress
unfoldable pub list_owner_wallet_scans_by_address :
    Faults → ℕ → Text → Table WalletScan → Result RepositoryError (List WalletScan)
list_owner_wallet_scans_by_address faults user address t =
    guard (not (faults find_rows)) (query_failed find_rows)
    >> ok (
        order_by (newest_first wallet_entity wallet_entity.id)
          (select (λ e. (e.user_id == user) && same_address address e) (live t)))
