-- ===== src/Ledger/Queries.antt =====
-- The read side of the ledger repository: counts over the three tables.
use cafe_discovery.Base.{
  ℕ, ◌+◌, Bool, false, not, ◌&&◌, ◌||◌, String, Option, none, some, List, map, ◌==◌, str_eq,
  if◌then◌else◌, select, count_if, any_of, mem, Result, ok, err, guard, ◌>>=◌, ◌>>◌,
}
use cafe_discovery.Scan.{pending, running, success, is_terminal}
use cafe_discovery.Ledger.Tables.{
  UsageEvent, WalletRow, TlsRow, Db, Faults, LedgerError, invalid_kind, refused, count_ledger,
  count_flight, count_visible, count_extra, count_open, list_open,
}

abbrev pub kind_wallet : String
kind_wallet = "wallet"

abbrev pub kind_endpoint : String
kind_endpoint = "endpoint"

-- validateScanUsageKind
unfoldable pub valid_kind : String → Bool
valid_kind kind = str_eq kind kind_wallet || str_eq kind kind_endpoint

-- scanUsageInFlightStatuses
unfoldable pub in_flight_status : String → Bool
in_flight_status s = str_eq s pending || str_eq s running || str_eq s ""

-- `WHERE user_id = ? AND scan_kind = ?` on the ledger.
unfoldable pub usage_of : ℕ → String → UsageEvent → Bool
usage_of user kind e = (e.user_id == user) && str_eq e.scan_kind kind

abbrev pub owned_by : ℕ → Option ℕ → Bool
owned_by user none = false
owned_by user (some u) = u == user

unfoldable pub wallet_in_flight : ℕ → WalletRow → Bool
unfolding in_flight_status
wallet_in_flight user r = not r.is_deleted && (r.user_id == user) && in_flight_status r.status

unfoldable pub tls_in_flight : ℕ → TlsRow → Bool
unfolding in_flight_status
tls_in_flight user r =
    not r.is_deleted && owned_by user r.user_id && not r.is_default && in_flight_status r.status

unfoldable pub ledger_count : Db → ℕ → String → ℕ
unfolding usage_of
ledger_count db user kind = count_if (usage_of user kind) db.events

-- CountSuccessUsage
unfoldable pub count_success_usage : Faults → Db → ℕ → String → Result LedgerError ℕ
unfolding valid_kind ledger_count
count_success_usage faults db user kind = do
  guard (valid_kind kind) invalid_kind
  guard (not (faults count_ledger)) (refused count_ledger)
  ok (ledger_count db user kind)

-- countInFlight
unfoldable pub count_in_flight : Faults → Db → ℕ → String → Result LedgerError ℕ
unfolding wallet_in_flight tls_in_flight
count_in_flight faults db user kind =
    if str_eq kind kind_wallet
    then guard (not (faults count_flight)) (refused count_flight)
      >> ok (count_if (wallet_in_flight user) db.wallets)
    else if str_eq kind kind_endpoint
    then guard (not (faults count_flight)) (refused count_flight)
      >> ok (count_if (tls_in_flight user) db.endpoints)
    else err invalid_kind

-- CountInFlightScans
unfoldable pub count_in_flight_scans : Faults → Db → ℕ → String → Result LedgerError ℕ
unfolding valid_kind count_in_flight
count_in_flight_scans faults db user kind = do
  guard (valid_kind kind) invalid_kind
  count_in_flight faults db user kind

unfoldable pub wallet_visible : ℕ → WalletRow → Bool
wallet_visible user r = not r.is_deleted && (r.user_id == user) && str_eq r.status success

unfoldable pub tls_visible : ℕ → TlsRow → Bool
tls_visible user r =
    not r.is_deleted && owned_by user r.user_id && not r.is_default && str_eq r.status success

-- CountVisibleSuccessScans
unfoldable pub count_visible_success : Faults → Db → ℕ → String → Result LedgerError ℕ
unfolding valid_kind wallet_visible tls_visible
count_visible_success faults db user kind =
    guard (valid_kind kind) invalid_kind
    >> (if str_eq kind kind_wallet
        then guard (not (faults count_visible)) (refused count_visible)
          >> ok (count_if (wallet_visible user) db.wallets)
        else if str_eq kind kind_endpoint
        then guard (not (faults count_visible)) (refused count_visible)
          >> ok (count_if (tls_visible user) db.endpoints)
        else err invalid_kind)

-- `SELECT scan_id FROM scan_usage_events WHERE user_id = ? AND scan_kind = ?`
unfoldable pub ledger_ids : Db → ℕ → String → List ℕ
unfolding usage_of
ledger_ids db user kind = map (λ e. e.scan_id) (select (usage_of user kind) db.events)

-- countInFlightWithoutLedger
unfoldable pub count_in_flight_without_ledger : Faults → Db → ℕ → String → Result LedgerError ℕ
unfolding wallet_in_flight tls_in_flight ledger_ids
count_in_flight_without_ledger faults db user kind =
    if str_eq kind kind_wallet
    then guard (not (faults count_extra)) (refused count_extra)
      >> ok (
          count_if (λ r. wallet_in_flight user r && not (mem r.id (ledger_ids db user kind)))
            db.wallets)
    else if str_eq kind kind_endpoint
    then guard (not (faults count_extra)) (refused count_extra)
      >> ok (
          count_if (λ r. tls_in_flight user r && not (mem r.id (ledger_ids db user kind)))
            db.endpoints)
    else err invalid_kind

-- The identifiers of a result table, soft-deleted rows included.
unfoldable pub present_ids : Db → String → List ℕ
present_ids db kind =
    if str_eq kind kind_wallet then map (λ r. r.id) db.wallets else map (λ r. r.id) db.endpoints

unfoldable pub open_count : Db → ℕ → String → ℕ
unfolding usage_of present_ids
open_count db user kind =
    count_if (λ e. usage_of user kind e && not (mem e.scan_id (present_ids db kind))) db.events

-- countOpenReservations
unfoldable pub count_open_reservations : Faults → Db → ℕ → String → Result LedgerError ℕ
unfolding open_count
count_open_reservations faults db user kind =
    if str_eq kind kind_wallet
    then guard (not (faults count_open)) (refused count_open) >> ok (open_count db user kind)
    else if str_eq kind kind_endpoint
    then guard (not (faults count_open)) (refused count_open) >> ok (open_count db user kind)
    else err invalid_kind

pub record QuotaSnapshot : Type 0 where
  pub ledger : ℕ
  pub extra_in_flight : ℕ
  pub parallel : ℕ

-- loadScanQuotaSnapshot
unfoldable pub load_scan_quota_snapshot :
    Faults → Db → ℕ → String → Result LedgerError QuotaSnapshot
unfolding ledger_count count_in_flight count_in_flight_without_ledger count_open_reservations
load_scan_quota_snapshot faults db user kind = do
  guard (not (faults count_ledger)) (refused count_ledger)
  in_flight ← count_in_flight faults db user kind
  extra ← count_in_flight_without_ledger faults db user kind
  open_rows ← count_open_reservations faults db user kind
  ok (record {
    ledger = ledger_count db user kind;
    extra_in_flight = extra;
    parallel = in_flight + open_rows;
  })

-- A row of a result table that ends its scan: `deleted_at IS NULL AND status IN (…)`.
abbrev pub wallet_ended : ℕ → WalletRow → Bool
wallet_ended scan r = (r.id == scan) && not r.is_deleted && is_terminal r.status

abbrev pub tls_ended : ℕ → TlsRow → Bool
tls_ended scan r = (r.id == scan) && not r.is_deleted && is_terminal r.status

unfoldable pub is_open : Db → UsageEvent → Bool
unfolding is_terminal
is_open db e =
    not (any_of (wallet_ended e.scan_id) db.wallets)
    && not (any_of (tls_ended e.scan_id) db.endpoints)

pub record OpenReservation : Type 0 where
  pub scan_id : ℕ
  pub user_id : ℕ
  pub scan_kind : String
  pub consumed_at : ℕ

abbrev pub open_reservation : UsageEvent → OpenReservation
open_reservation e = record {
  scan_id = e.scan_id;
  user_id = e.user_id;
  scan_kind = e.scan_kind;
  consumed_at = e.consumed_at;
}

-- ListOpenScanReservations
unfoldable pub list_open_scan_reservations : Faults → Db → Result LedgerError (List OpenReservation)
unfolding is_open
list_open_scan_reservations faults db = do
  guard (not (faults list_open)) (refused list_open)
  ok (map open_reservation (select (is_open db) db.events))
