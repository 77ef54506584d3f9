-- ===== src/Plan.antt =====
-- internal/service/plan.go and the limits of internal/domain/plan.go: what a user's plan allows.
pub mod Limits
pub mod Guarantees
pub mod Store
pub mod Migrations
pub mod Restart
pub mod Tests
use cafe_discovery.Base.{
  ℕ, ◌+◌, Bool, true, false, not, ◌&&◌, ◌||◌, String, Option, none, some, ℤ, pos, negsuc, is_zero,
  is_positive, is_negative, leb_count, ltb_count, sub_ℕ, sub_count, ◌==◌, str_eq, if◌then◌else◌,
  Result, ok, err, guard, ◌>>=◌, ◌>>◌,
}
use cafe_discovery.Scan.{plan_limit_key_wallet, plan_limit_key_endpoint}
use cafe_discovery.Ledger.Tables.{Db, Stamp, Faults, LedgerError}
use cafe_discovery.Ledger.Queries.{
  kind_wallet, kind_endpoint, count_success_usage, count_visible_success, count_in_flight_scans,
}
use cafe_discovery.Ledger.Reserve.{
  Reservation, UsageDeny, allowed, deny_quota, deny_parallel, reserve_scan_usage,
}

-- The columns of domain.Plan that the limits read. Zero stands for no limit.
pub record Plan : Type 0 where
  pub wallet_scan_limit : ℤ
  pub endpoint_scan_limit : ℤ

-- domain.User, as far as the plan lookup reads it.
pub record User : Type 0 where
  pub id : ℕ
  pub plan_id : ℕ

-- The two repositories of PlanService: a lookup fails, or finds a row or none.
pub record Repositories : Type 0 where
  pub find_user : ℕ → Option (Option User)
  pub find_plan : ℕ → Option (Option Plan)

pub data PlanError : Type 0 where
  user_lookup_failed user_not_found plan_lookup_failed plan_not_found not_authenticated
        scan_id_missing ledger_required unknown_scan_type :
      PlanError
  ledger_error : LedgerError → PlanError

abbrev or_fail : {A : Type 0} → Option A → PlanError → Result PlanError A
or_fail none e = err e
or_fail (some a) e = ok a

abbrev pub from_ledger : {A : Type 0} → Result LedgerError A → Result PlanError A
from_ledger (ok a) = ok a
from_ledger (err e) = err (ledger_error e)

-- IsUnlimited
unfoldable pub is_unlimited : Plan → String → Bool
is_unlimited plan scan_type =
    if str_eq scan_type "wallet"
    then is_zero plan.wallet_scan_limit
    else if str_eq scan_type "endpoint"
    then is_zero plan.endpoint_scan_limit
    else false

-- GetUserPlan
unfoldable pub get_user_plan : Repositories → ℕ → Result PlanError Plan
get_user_plan repos user_id = do
  found ← or_fail (repos.find_user user_id) user_lookup_failed
  user ← or_fail found user_not_found
  row ← or_fail (repos.find_plan user.plan_id) plan_lookup_failed
  or_fail row plan_not_found

pub record PlanUsage : Type 0 where
  pub wallet_scans_used : ℕ
  pub endpoint_scans_used : ℕ
  pub wallet_scans_visible : ℕ
  pub endpoint_scans_visible : ℕ
  pub wallet_scans_deleted_by_user : ℤ
  pub endpoint_scans_deleted_by_user : ℤ
  pub wallet_scans_in_flight : ℕ
  pub endpoint_scans_in_flight : ℕ
  pub wallet_scan_limit : ℤ
  pub endpoint_scan_limit : ℤ
  pub wallet_scans_left : ℤ
  pub endpoint_scans_left : ℤ

-- planScansLeft
unfoldable pub plan_scans_left : ℤ → ℕ → Bool → ℤ
plan_scans_left limit successful unlimited =
    if unlimited
    then negsuc 0
    else let left = sub_count limit successful in if is_negative left then pos 0 else left

-- GetPlanUsage. The wallet and the endpoint queries fail independently.
unfoldable pub get_plan_usage :
    Repositories → Faults → Faults → ℕ → Option Db → Result PlanError PlanUsage
get_plan_usage repos faults endpoint_faults user_id ledger = do
  guard (not (user_id == 0)) not_authenticated
  db ← or_fail ledger ledger_required
  plan ← get_user_plan repos user_id
  wallet_used ← from_ledger (count_success_usage faults db user_id kind_wallet)
  wallet_visible ← from_ledger (count_visible_success faults db user_id kind_wallet)
  wallet_in_flight ← from_ledger (count_in_flight_scans faults db user_id kind_wallet)
  endpoint_used ← from_ledger (count_success_usage endpoint_faults db user_id kind_endpoint)
  endpoint_visible ← from_ledger (count_visible_success endpoint_faults db user_id kind_endpoint)
  endpoint_in_flight ← from_ledger (count_in_flight_scans endpoint_faults db user_id kind_endpoint)
  ok (record {
    wallet_scans_used = wallet_used;
    endpoint_scans_used = endpoint_used;
    wallet_scans_visible = wallet_visible;
    endpoint_scans_visible = endpoint_visible;
    wallet_scans_deleted_by_user = sub_ℕ wallet_used wallet_visible;
    endpoint_scans_deleted_by_user = sub_ℕ endpoint_used endpoint_visible;
    wallet_scans_in_flight = wallet_in_flight;
    endpoint_scans_in_flight = endpoint_in_flight;
    wallet_scan_limit = plan.wallet_scan_limit;
    endpoint_scan_limit = plan.endpoint_scan_limit;
    wallet_scans_left =
        plan_scans_left plan.wallet_scan_limit wallet_used
          (is_unlimited plan plan_limit_key_wallet);
    endpoint_scans_left =
        plan_scans_left plan.endpoint_scan_limit endpoint_used
          (is_unlimited plan plan_limit_key_endpoint);
  })

-- A usage with no counts filled in: Go's zero values, and the plan's limits.
abbrev pub empty_usage : Plan → PlanUsage
empty_usage plan = record {
  wallet_scans_used = 0;
  endpoint_scans_used = 0;
  wallet_scans_visible = 0;
  endpoint_scans_visible = 0;
  wallet_scans_deleted_by_user = pos 0;
  endpoint_scans_deleted_by_user = pos 0;
  wallet_scans_in_flight = 0;
  endpoint_scans_in_flight = 0;
  wallet_scan_limit = plan.wallet_scan_limit;
  endpoint_scan_limit = plan.endpoint_scan_limit;
  wallet_scans_left = pos 0;
  endpoint_scans_left = pos 0;
}

-- GetPlanUsageFromCounts
unfoldable pub get_plan_usage_from_counts : Repositories → ℕ → ℕ → ℕ → Result PlanError PlanUsage
unfolding get_user_plan is_unlimited
get_plan_usage_from_counts repos user_id wallet_count endpoint_count = do
  guard (not (user_id == 0)) not_authenticated
  plan ← get_user_plan repos user_id
  let empty = empty_usage plan
  let wallet_left = sub_count plan.wallet_scan_limit wallet_count
  let endpoint_left = sub_count plan.endpoint_scan_limit endpoint_count
  ok (record empty {
    wallet_scans_used = wallet_count;
    endpoint_scans_used = endpoint_count;
    wallet_scans_left =
        if is_unlimited plan plan_limit_key_wallet
        then negsuc 0
        else if is_negative wallet_left
        then pos 0
        else wallet_left;
    endpoint_scans_left =
        if is_unlimited plan plan_limit_key_endpoint
        then negsuc 0
        else if is_negative endpoint_left
        then pos 0
        else endpoint_left;
  })

-- CheckScanLimitFromCounts
unfoldable pub check_scan_limit_from_counts :
    Repositories → ℕ → String → ℕ → ℕ → Result PlanError (Bool × PlanUsage)
unfolding get_plan_usage_from_counts
check_scan_limit_from_counts repos user_id scan_type wallet_count endpoint_count = do
  usage ← get_plan_usage_from_counts repos user_id wallet_count endpoint_count
  if str_eq scan_type plan_limit_key_wallet
      then ok (
        is_zero usage.wallet_scan_limit
            || not (leb_count usage.wallet_scan_limit usage.wallet_scans_used),
        usage,
      )
      else if str_eq scan_type plan_limit_key_endpoint
      then ok (
        is_zero usage.endpoint_scan_limit
            || not (leb_count usage.endpoint_scan_limit usage.endpoint_scans_used),
        usage,
      )
      else err unknown_scan_type

-- planParallelScanCap
unfoldable pub plan_parallel_scan_cap : ℤ → Bool → ℤ
plan_parallel_scan_cap limit unlimited =
    if unlimited || not (is_positive limit)
    then pos 3
    else if ltb_count limit 3
    then limit
    else pos 3

-- scanUsageKindForPlanLimitKey
unfoldable pub scan_usage_kind_for_plan_limit_key : String → Result PlanError String
scan_usage_kind_for_plan_limit_key scan_type =
    if str_eq scan_type plan_limit_key_wallet
    then ok kind_wallet
    else if str_eq scan_type plan_limit_key_endpoint
    then ok kind_endpoint
    else err unknown_scan_type

-- The switch of ReservePostScanQuota on the scan type.
unfoldable pub limit_for : Plan → String → Result PlanError ℤ
limit_for plan scan_type =
    if str_eq scan_type plan_limit_key_wallet
    then ok plan.wallet_scan_limit
    else if str_eq scan_type plan_limit_key_endpoint
    then ok plan.endpoint_scan_limit
    else err unknown_scan_type

pub data PostScanDeny : Type 0 where
  quota_ok quota_denied parallel_denied : PostScanDeny

abbrev shown_in_flight : UsageDeny → Reservation → ℕ
shown_in_flight deny_parallel res = res.parallel_in_flight
shown_in_flight _ res = res.extra_in_flight

-- usageFromReservation
unfoldable pub usage_from_reservation : String → Plan → Reservation → PlanUsage
unfolding plan_scans_left is_unlimited
usage_from_reservation scan_type plan res =
    let flying = shown_in_flight res.deny res in
    let empty = empty_usage plan in
    if str_eq scan_type plan_limit_key_wallet
    then record empty {
      wallet_scans_used = res.ledger_count;
      wallet_scans_in_flight = flying;
      wallet_scans_left =
          plan_scans_left plan.wallet_scan_limit res.ledger_count
            (is_unlimited plan plan_limit_key_wallet);
    }
    else if str_eq scan_type plan_limit_key_endpoint
    then record empty {
      endpoint_scans_used = res.ledger_count;
      endpoint_scans_in_flight = flying;
      endpoint_scans_left =
          plan_scans_left plan.endpoint_scan_limit res.ledger_count
            (is_unlimited plan plan_limit_key_endpoint);
    }
    else empty

pub record PostScanResult : Type 0 where
  pub accepted : Bool
  pub usage : PlanUsage
  pub reason : PostScanDeny

abbrev deny_reason : UsageDeny → PostScanDeny
deny_reason deny_parallel = parallel_denied
deny_reason _ = quota_denied

-- The limit that the ledger gets: none where the plan is unlimited.
abbrev pub quota_limit : Plan → String → ℤ → ℤ
quota_limit plan scan_type limit = if is_unlimited plan scan_type then pos 0 else limit

-- ReservePostScanQuota
unfoldable pub reserve_post_scan_quota :
    Repositories
    → Faults
    → Stamp
    → Option Db
    → ℕ
    → ℕ
    → String
    → Result PlanError (PostScanResult × Db)
reserve_post_scan_quota repos faults stamp ledger user_id scan_id scan_type = do
  guard (not (user_id == 0)) not_authenticated
  guard (not (scan_id == 0)) scan_id_missing
  db ← or_fail ledger ledger_required
  kind ← scan_usage_kind_for_plan_limit_key scan_type
  plan ← get_user_plan repos user_id
  limit ← limit_for plan scan_type
  (res, db') ← from_ledger (
      reserve_scan_usage faults stamp db user_id scan_id kind (quota_limit plan scan_type limit)
        (plan_parallel_scan_cap limit (is_unlimited plan scan_type)))
  let usage = usage_from_reservation scan_type plan res
  if res.reserved
      then ok (record { accepted = true; usage = usage; reason = quota_ok }, db')
      else ok (record { accepted = false; usage = usage; reason = deny_reason res.deny }, db')
