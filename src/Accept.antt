-- ===== src/Accept.antt =====
-- internal/handler/discovery.go: POST /discovery/v1/scan, from the request to the work queue.
-- The pending store is the service cafe-persistence, so its state and operations are parameters, and
-- so are the answers of the two repository queries, of url.Parse and of the policy check. What
-- uuid.New gives is an argument, uuid.Nil is 0, and the work queue is the list of messages published.
pub mod Post
pub mod Paths
pub mod Outcome
pub mod Anonymous
pub mod Tests
use cafe_discovery.Base.{
  ℕ, ◌+◌, Bool, true, false, not, ◌&&◌, ◌||◌, String, Option, none, some, List, [], ◌∷◌, ◌++◌, map,
  ◌==◌, if◌then◌else◌, is_nil, Text, codes, text_eq, trim, lower, upper, has_prefix, ltb, Result,
  ok, err, guard, ◌>>=◌, ◌>>◌,
}
use cafe_discovery.Scan.{plan_limit_key_wallet, plan_limit_key_endpoint}
use cafe_discovery.Ledger.Tables.{Db, Stamp, Faults}
use cafe_discovery.Ledger.Reserve.{release_success_usage}
use cafe_discovery.Plan.{
  Repositories, PlanUsage, PostScanDeny, PostScanResult, reserve_post_scan_quota,
}
use cafe_discovery.Address.{validate_and_normalize_address}

pub data LifecycleStatus : Type 0 where
  requested started completed failed : LifecycleStatus

-- walletScanLifecycleStatusV1
unfoldable pub wallet_scan_lifecycle_status : Text → LifecycleStatus
wallet_scan_lifecycle_status db_status =
    let s = upper (trim db_status) in
    if text_eq s (codes "PENDING") || is_nil s
    then requested
    else if text_eq s (codes "RUNNING")
    then started
    else if text_eq s (codes "SUCCESS")
    then completed
    else if text_eq s (codes "FAILED")
        || text_eq s (codes "TIMEOUT")
        || text_eq s (codes "UNREACHABLE")
    then failed
    else started

-- walletScanEntityIsInFlight, for a row that exists.
unfoldable pub status_in_flight : Text → Bool
status_in_flight s = elim (wallet_scan_lifecycle_status s) [
  | requested ↦ true
  | started ↦ true
  | _ ↦ false
]

pub data Family : Type 0 where
  wallet_family tls_family : Family

-- scanpending.Record. The zero time is 0.
pub record PendingRecord : Type 0 where
  pub scan_id : ℕ
  pub user_id : ℕ
  pub family : Family
  pub target : Text
  pub created_at : ℕ

-- requestv1.Wallet and requestv1.TLS
pub record Message : Type 0 where
  pub scan_id : ℕ
  pub user_id : ℕ
  pub family : Family
  pub target : Text

-- The bodies of the refusals.
pub data Refusal : Type 0 where
  invalid_body both_targets no_target address_required no_scanner address_invalid url_scheme
        url_invalid url_no_host pending_unavailable rows_unreadable scan_in_progress
        cpm_check_unavailable cpm_policy_exists limits_unreadable queue_failed :
      Refusal
  limit_reached : PostScanDeny → Refusal

-- queueScanError
pub data QueueError : Type 0 where
  committed : QueueError
  refuse : ℕ → Refusal → QueueError

-- An acceptance has a status too: c.JSON leaves the one that was set before.
pub data Answer : Type 0 where
  accepted : ℕ → ℕ → Family → Answer
  refused_with : ℕ → Refusal → Answer
  already_written : Answer

-- What c.Locals("user_id") holds.
pub data Locals : Type 0 where
  absent wrong_type : Locals
  signed_in : ℕ → Locals

-- getAuthenticatedUserID, as a user id and an error. The error is the one that c.JSON returns, so
-- there is none where the response could be written.
unfoldable pub get_authenticated_user_id : Bool → Locals → ℕ × Bool
get_authenticated_user_id write_fails absent = (0, write_fails)
get_authenticated_user_id write_fails wrong_type = (0, write_fails)
get_authenticated_user_id write_fails (signed_in id) =
    if id == 0 then (0, write_fails) else (id, false)

-- The status that getAuthenticatedUserID leaves. A later c.JSON without a status keeps it, so it is the
-- status of every answer that sets none.
unfoldable pub status_left : Locals → ℕ
status_left absent = 401
status_left wrong_type = 500
status_left (signed_in id) = if id == 0 then 401 else 200

pub record Url : Type 0 where
  pub host : Text
  pub hostname : Text

pub record Presence : Type 0 where
  pub wallet_up : Bool
  pub tls_up : Bool

-- The two queries on scan_results: a row's status by owner and id, and the statuses of an owner's rows
-- for an address, the newest first. `none` is a failed query.
pub record ScanRows : Type 0 where
  pub find_owned : ℕ → ℕ → Option (Option Text)
  pub by_address : ℕ → Text → Option (List Text)

-- What becomes of a publication: the message is stored, it is stored and its acknowledgement does not
-- arrive, or it is not stored. The last two are errors of the publication.
pub data BrokerAnswer : Type 0 where
  stored unacknowledged not_stored : BrokerAnswer

-- One call of the handler.
pub record Call : Type 0 where
  pub body_bound : Bool
  pub locals : Locals
  pub write_fails : Bool
  pub tenant : Text
  pub address : Text
  pub url : Text
  pub scan_id : ℕ
  pub now : ℕ
  pub stamp : Stamp
  pub faults : Faults
  pub publication : BrokerAnswer

-- reserveScanQuota: the tables after it, or the refusal.
unfoldable pub reserve_scan_quota :
    Option Repositories → Call → Option Db → ℕ → String → Result QueueError (Option Db)
reserve_scan_quota none call ledger user scan_type = ok ledger
reserve_scan_quota (some repos) call none user scan_type = err (refuse 500 limits_unreadable)
reserve_scan_quota (some repos) call (some db) user scan_type =
    elim (reserve_post_scan_quota repos call.faults call.stamp (some db) user call.scan_id
      scan_type) [
        | err e ↦ err (refuse 500 limits_unreadable)
        | ok (out, db') ↦
            if out.accepted then ok (some db') else err (refuse 403 (limit_reached out.reason))
      ]

-- The ledger part of rollbackScanAccept. A release that fails is only logged.
unfoldable pub release_quota : Call → Option Db → Option Db
release_quota call none = none
release_quota call (some db) = elim (release_success_usage call.faults db call.scan_id) [
  | ok db' ↦ some db'
  | err e ↦ some db
]

abbrev pub scan_type_of : Family → String
scan_type_of wallet_family = plan_limit_key_wallet
scan_type_of tls_family = plan_limit_key_endpoint

-- prepareTLSScanQueue, given url.Parse.
unfoldable pub prepare_tls_scan_queue :
    (Text → Option Url) → Option Presence → Call → Result QueueError (ℕ × Text)
prepare_tls_scan_queue parse_url presence call = do
  let (user, unwritten) = get_authenticated_user_id call.write_fails call.locals
  guard (not unwritten) committed
  guard (elim presence [ none ↦ true | some p ↦ p.tls_up ]) (refuse 503 no_scanner)
  guard (has_prefix (codes "https://") call.url || has_prefix (codes "http://") call.url)
      (refuse 400 url_scheme)
  parsed ← elim (parse_url call.url) [ none ↦ err (refuse 400 url_invalid) | some u ↦ ok u ]
  guard (not (is_nil parsed.host)) (refuse 400 url_no_host)
  guard (not (is_nil parsed.hostname)) (refuse 400 url_no_host)
  ok (user, call.url)

-- checkWalletCPMContext
unfoldable pub check_wallet_cpm_context :
    Option (ℕ → Text → Text → Option ℕ) → ℕ → Text → Text → Result QueueError (Unit {0})
check_wallet_cpm_context none user tenant address = err (refuse 503 cpm_check_unavailable)
check_wallet_cpm_context (some policies) user tenant address = elim (policies user tenant address) [
  | none ↦ err (refuse 503 cpm_check_unavailable)
  | some count ↦ if ltb 0 count then err (refuse 409 cpm_policy_exists) else ok tt
]

pub data Reservation : Type 0 where
  blocking stale : Reservation

abbrev same_wallet : ℕ → Text → PendingRecord → Bool
same_wallet user address rec =
    (rec.user_id == user)
    && elim rec.family [ wallet_family ↦ true | tls_family ↦ false ]
    && text_eq (lower rec.target) (lower address)

-- The end of pendingWalletReservationState, for a record without a row.
unfoldable pub unpersisted_reservation : ℕ → Text → PendingRecord → Reservation
unpersisted_reservation user address rec =
    if rec.created_at == 0 then stale else if same_wallet user address rec then blocking else stale

-- pendingWalletReservationState
unfoldable pub pending_wallet_reservation_state :
    Option ScanRows → ℕ → Text → PendingRecord → Result QueueError Reservation
pending_wallet_reservation_state rows user address rec =
    if rec.scan_id == 0 then ok stale else elim rows [
      | none ↦ ok (unpersisted_reservation user address rec)
      | some queries ↦ elim (queries.find_owned user rec.scan_id) [
        | none ↦ err (refuse 500 rows_unreadable)
        | some none ↦ ok (unpersisted_reservation user address rec)
        | some (some status) ↦ ok (if status_in_flight status then blocking else stale)
      ]
    ]

abbrev newest_in_flight : List Text → Bool
newest_in_flight [] = false
newest_in_flight (s ∷ _) = status_in_flight s

-- The end of checkWalletScanInFlight.
unfoldable pub check_rows : Option ScanRows → ℕ → Text → Result QueueError (Unit {0})
check_rows none user address = ok tt
check_rows (some queries) user address = elim (queries.by_address user address) [
  | none ↦ err (refuse 500 rows_unreadable)
  | some statuses ↦ if newest_in_flight statuses then err (refuse 409 scan_in_progress) else ok tt
]
