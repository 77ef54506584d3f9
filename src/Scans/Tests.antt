-- ===== src/Scans/Tests.antt =====
-- Runs of the scan handlers for user 7, with a store that holds one wallet row and one pending record.
use cafe_discovery.Base.{
  ℕ, Bool, true, false, ◌≡◌, refl, inl, inr, ◌⊎◌, Option, none, some, [], ◌∷◌, map, arith, ◌==◌,
  trim, codes, Result, ok, Bool-cases, trim_left, trim_right, is_space, if◌then◌else◌, pos,
}
use cafe_discovery.Accept.{signed_in, PendingRecord, wallet_family, get_authenticated_user_id}
use cafe_discovery.Chains.Tests.{chains, unmarshal}
use cafe_discovery.Accept.{status_left}
use cafe_discovery.Scans.{
  WalletScan, WalletQuery, WalletPage, StoreError, ScanStore, Handler, Call, reply, scan_not_found,
  wallet_list,
}
use cafe_discovery.Scans.Read.{get_wallet_scan}
use cafe_discovery.Scans.Delete.{
  deleted_answer, unless_referenced, delete_row, clear_wallet_pending, delete_wallet_scan,
}
use cafe_discovery.Scans.Deletion.{Unreferenced, WalletHeld, delete_wallet-Unreferenced}
use cafe_discovery.Scans.Outputs.{IsScanStore, get-delete_not_found}
use cafe_discovery.Scans.Query.{
  ListCall, parse_pagination_params, parse_wallet_scans_latest_query, wallet_query,
  wallet_scan_list_item, list_wallet_scans,
}
use cafe_discovery.Scans.Listing.{IsValidQuery, list_wallets-IsValidQuery}

record Kept : Type 0 where
  row : Option WalletScan
  pending : Option PendingRecord

abbrev row_of : ℕ → Option WalletScan → Option WalletScan
row_of scan none = none
row_of scan (some r) = if r.id == scan then some r else none

abbrev drop_row : ℕ → Option WalletScan → Option WalletScan × Result StoreError Bool
drop_row scan none = (none, ok false)
drop_row scan (some r) = if r.id == scan then (none, ok true) else (some r, ok false)

abbrev pending_of : ℕ → Option PendingRecord → Option PendingRecord
pending_of scan none = none
pending_of scan (some r) = if r.scan_id == scan then some r else none

abbrev drop_pending : ℕ → Option PendingRecord → Option PendingRecord
drop_pending scan none = none
drop_pending scan (some r) = if r.scan_id == scan then none else some r

abbrev page_of : Option WalletScan → WalletPage
page_of none = record { items = []; total = 0; limit = 20; offset = 0 }
page_of (some r) = record { items = r ∷ []; total = 1; limit = 20; offset = 0 }

abbrev store : ScanStore Kept
store = record {
  list_wallet_scans = λ user tenant query s. ok (page_of s.row);
  get_wallet_scan = λ user tenant scan s. ok (row_of scan s.row);
  delete_wallet_scan =
      λ user tenant scan s. (record s { row = (drop_row scan s.row).0 }, (drop_row scan s.row).1);
  list_tls_scans = λ user tenant limit offset s. ok ([], 0);
  list_tls_default_scans = λ user tenant s. ok [];
  get_tls_scan = λ user tenant scan s. ok none;
  delete_tls_scan = λ user tenant scan s. (s, ok false);
  get_pending = λ user tenant scan s. ok (pending_of scan s.pending);
  delete_pending =
      λ user tenant scan s. (record s { pending = drop_pending scan s.pending }, ok tt);
  delete_reservation = λ user tenant address scan s. s;
}

row_dropped :
    (scan : ℕ) (o : Option WalletScan)
    → (drop_row scan o).1 ≡ ok true
    → row_of scan (drop_row scan o).0 ≡ none
row_dropped scan none h = refl
row_dropped scan (some r) h = elim (Bool-cases (r.id == scan)) [
  | inl e ↦ rw (e) refl
  | inr e ↦ absurd (ground (arith, e, h))
]

pending_dropped :
    (scan : ℕ) (o : Option PendingRecord) → pending_of scan (drop_pending scan o) ≡ none
pending_dropped scan none = refl
pending_dropped scan (some r) = elim (Bool-cases (r.scan_id == scan)) [
  | inl e ↦ rw (e) refl
  | inr e ↦ ground (arith, e)
]

store-IsScanStore : IsScanStore Kept store
store-IsScanStore = record {
  row_gone = λ user tenant scan s h. rw (row_dropped scan s.row h) refl;
  pending_gone = λ user tenant scan s h. rw (pending_dropped scan s.pending) refl;
  rows_kept = λ user tenant scan s h. h;
  reservation_rows = λ user tenant address scan s h. h;
  reservation_pending = λ user tenant address scan s h. h;
}

abbrev handler : Handler Kept
handler = record {
  store = store;
  has_read = true;
  has_pending = true;
  policies = some (λ user tenant scan. some false);
}

abbrev finished : WalletScan
finished = record {
  id = 9;
  user_id = 7;
  address = codes "0xa";
  networks = codes "[..]";
  status = "SUCCESS";
  created_at = 5;
}

abbrev held : Kept
held = record {
  row = some finished;
  pending = some (record {
    scan_id = 9;
    user_id = 7;
    family = wallet_family;
    target = codes "0xa";
    created_at = 4;
  });
}

abbrev call : Call
call = record { locals = signed_in 7; write_fails = false; tenant = []; scan_id = some 9 }

abbrev list_call : ListCall
list_call = record {
  locals = signed_in 7;
  write_fails = false;
  tenant = [];
  chain_id = [];
  address = [];
  latest = [];
  limit = some (pos 500);
  offset = none;
  keys = [];
}

deleted : (delete_wallet_scan Kept handler call held).1 ≡ deleted_answer
unfolding delete_wallet_scan unless_referenced delete_row clear_wallet_pending
    get_authenticated_user_id trim trim_left trim_right is_space
deleted = refl

listed :
    list_wallet_scans Kept handler unmarshal (some chains) list_call held
    ≡ reply 200 (wallet_list (wallet_scan_list_item unmarshal (some chains) finished ∷ []) 1 20 0)
unfolding list_wallet_scans wallet_query parse_wallet_scans_latest_query parse_pagination_params
    get_authenticated_user_id status_left trim trim_left trim_right is_space
listed = refl

delete_wallet-Unreferenced_example :
    ((delete_wallet_scan Kept handler call held).0 ≡ held)
    ⊎ ((scan : ℕ) × (some 9 ≡ some scan)
        × WalletHeld Kept handler
            (get_authenticated_user_id false (signed_in 7)).0
            (trim [])
            scan
            held
        × Unreferenced Kept handler
            (get_authenticated_user_id false (signed_in 7)).0
            (trim [])
            scan)
delete_wallet-Unreferenced_example = delete_wallet-Unreferenced Kept handler call held

get-delete_not_found_example :
    get_wallet_scan Kept handler call (delete_wallet_scan Kept handler call held).0 ≡ scan_not_found
get-delete_not_found_example = get-delete_not_found Kept handler store-IsScanStore call held deleted

list_wallets-IsValidQuery_example :
    (q : WalletQuery) × (page : WalletPage) × IsValidQuery q
    × (store.list_wallet_scans (get_authenticated_user_id false (signed_in 7)).0 (trim []) q held
        ≡ ok page)
    × (wallet_scan_list_item unmarshal (some chains) finished ∷ []
        ≡ map (wallet_scan_list_item unmarshal (some chains)) page.items)
    × (1 ≡ page.total)
list_wallets-IsValidQuery_example =
    list_wallets-IsValidQuery Kept handler unmarshal (some chains) list_call held 200
      (wallet_scan_list_item unmarshal (some chains) finished ∷ []) 1 20 0 listed
