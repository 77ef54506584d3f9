-- ===== src/Scans.antt =====
-- internal/handler/discovery_v1_scans.go, discovery_v1_cbom.go, scan_read_errors.go and helpers.go: the
-- reading and the deletion of scans. Both stores are behind cafe-persistence, so their state and
-- operations are parameters (`ScanStore`), and so is the policy check. uuid.Nil is 0; uuid.Parse of
-- the path is part of the call, with none for a text that is no id.
pub mod Read
pub mod Query
pub mod Delete
pub mod Deletion
pub mod Listing
pub mod Outputs
mod Tests
use cafe_discovery.Base.{
  ℕ, Bool, true, false, ◌&&◌, String, Option, none, some, List, [], ◌∷◌, ◌==◌, Text, codes, ℤ, pos,
  negsuc, trim, if◌then◌else◌, Result, ok, err,
}
use cafe_discovery.Scan.{is_terminal}
use cafe_discovery.Accept.{
  LifecycleStatus, wallet_scan_lifecycle_status, Family, wallet_family, tls_family, PendingRecord,
  Locals, get_authenticated_user_id, absent, wrong_type, signed_in,
}

-- ScanResultEntity, as far as the handlers look into it.
pub record WalletScan : Type 0 where
  pub id : ℕ
  pub user_id : ℕ
  pub address : Text
  pub networks : Text
  pub status : String
  pub created_at : ℕ

-- TLSScanResultEntity, likewise.
pub record TlsScan : Type 0 where
  pub id : ℕ
  pub url : Text
  pub is_default : Bool
  pub status : String
  pub created_at : ℕ

-- scanread.ErrUnavailable and scanpending.ErrUnavailable, and any other error.
pub data StoreError : Type 0 where
  unavailable other : StoreError

-- The query of ListWalletScans.
pub record WalletQuery : Type 0 where
  pub address : Option Text
  pub chain_id : Option ℕ
  pub latest : Bool
  pub limit : ℕ
  pub offset : ℕ

pub record WalletPage : Type 0 where
  pub items : List WalletScan
  pub total : ℕ
  pub limit : ℕ
  pub offset : ℕ

-- scanread.Store and the part of scanpending.Store that the handlers call, for an owner and a tenant.
pub record ScanStore (S : Type 0) : Type 0 where
  pub list_wallet_scans : ℕ → Text → WalletQuery → S → Result StoreError WalletPage
  pub get_wallet_scan : ℕ → Text → ℕ → S → Result StoreError (Option WalletScan)
  pub delete_wallet_scan : ℕ → Text → ℕ → S → S × Result StoreError Bool
  pub list_tls_scans : ℕ → Text → ℕ → ℕ → S → Result StoreError (List TlsScan × ℕ)
  pub list_tls_default_scans : ℕ → Text → S → Result StoreError (List TlsScan)
  pub get_tls_scan : ℕ → Text → ℕ → S → Result StoreError (Option TlsScan)
  pub delete_tls_scan : ℕ → Text → ℕ → S → S × Result StoreError Bool
  pub get_pending : ℕ → Text → ℕ → S → Result StoreError (Option PendingRecord)
  pub delete_pending : ℕ → Text → ℕ → S → S × Result StoreError (Unit {0})
  pub delete_reservation : ℕ → Text → Text → ℕ → S → S

-- The fields of the two handlers: whether the clients are configured, and whether a persisted policy
-- refers to a scan (none for a failed check).
pub record Handler (S : Type 0) : Type 0 where
  pub store : ScanStore S
  pub has_read : Bool
  pub has_pending : Bool
  pub policies : Option (ℕ → Text → ℕ → Option Bool)

-- What the routes give to the handlers that name one scan.
pub record Call : Type 0 where
  pub locals : Locals
  pub write_fails : Bool
  pub tenant : Text
  pub scan_id : Option ℕ

-- The items of a list.
pub record WalletItem : Type 0 where
  pub scan_id : ℕ
  pub created_at : ℕ
  pub status : LifecycleStatus
  pub target_address : Text
  pub chain_ids : List ℕ

pub record TlsItem : Type 0 where
  pub scan_id : ℕ
  pub endpoint : Text
  pub created_at : ℕ
  pub status : LifecycleStatus
  pub is_default : Bool

-- The bodies. A detail has the row of its result where the result is attached.
pub data Body : Type 0 where
  wallet_detail : ℕ → LifecycleStatus → Option WalletScan → Body
  tls_detail : ℕ → LifecycleStatus → Bool → Option TlsScan → Body
  pending_detail : ℕ → Body
  wallet_cbom : WalletScan → Body
  tls_cbom : TlsScan → Body
  wallet_list : List WalletItem → ℕ → ℕ → ℕ → Body
  tls_list : List TlsItem → ℕ → ℕ → ℕ → Body
  no_content invalid_request not_found service_unavailable internal_error policy_check_unavailable
        referenced_by_policy write_failed :
      Body

pub record Answer : Type 0 where
  pub status : ℕ
  pub body : Body

abbrev pub reply : ℕ → Body → Answer
reply status body = record { status = status; body = body }

-- The error of c.JSON that a handler returns goes to Fiber's error handler.
abbrev pub write_error : Answer
write_error = reply 500 write_failed

-- The status that requireAuthenticatedUserID leaves: its own 401 comes after the 500 of
-- getUserIDFromContext.
unfoldable pub required_status_left : Locals → ℕ
required_status_left absent = 401
required_status_left wrong_type = 401
required_status_left (signed_in id) = if id == 0 then 401 else 200

-- getUserIDFromContext and requireAuthenticatedUserID: the id and whether an error came back, which is
-- the error of c.JSON.
unfoldable pub require_authenticated_user_id : Bool → Locals → ℕ × Bool
require_authenticated_user_id write_fails absent = (0, write_fails)
require_authenticated_user_id write_fails wrong_type = (0, write_fails)
require_authenticated_user_id write_fails (signed_in id) =
    if id == 0 then (0, write_fails) else (id, false)

-- respondScanReadError and respondScanPendingError
unfoldable pub respond_store_error : StoreError → Answer
respond_store_error unavailable = reply 503 service_unavailable
respond_store_error other = reply 500 internal_error

abbrev pub scan_not_found : Answer
scan_not_found = reply 404 not_found

abbrev pub family_is : Family → Family → Bool
family_is wallet_family f = elim f [ wallet_family ↦ true | tls_family ↦ false ]
family_is tls_family f = elim f [ wallet_family ↦ false | tls_family ↦ true ]

-- `rec.UserID == userID && rec.Family == …`
abbrev pub is_own : ℕ → Family → PendingRecord → Bool
is_own user family rec = (rec.user_id == user) && family_is family rec.family

-- walletScanDetailV1
unfoldable pub wallet_scan_detail : WalletScan → Body
wallet_scan_detail e =
    wallet_detail e.id (wallet_scan_lifecycle_status (codes e.status))
      (if is_terminal e.status then some e else none)

-- tlsScanDetailV1
unfoldable pub tls_scan_detail : TlsScan → Body
tls_scan_detail e =
    tls_detail e.id (wallet_scan_lifecycle_status (codes e.status)) e.is_default
      (if is_terminal e.status then some e else none)
