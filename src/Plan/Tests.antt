-- ===== src/Plan/Tests.antt =====
-- Runs of internal/service/plan.go: user 7, whose plan allows two wallet scans and five endpoints.
use cafe_discovery.Base.{
  ◌≤◌, false, true, ◌≡◌, ◌⊎◌, refl, some, [], ◌∷◌, pos, pos_part, is_positive, suc_ℤ, any_of,
  all_of, ok, List,
}
use cafe_discovery.Scan.{plan_limit_key_wallet}
use cafe_discovery.Ledger.Tables.{Db, Stamp, Faults}
use cafe_discovery.Ledger.Queries.{
  kind_wallet, ledger_count, load_scan_quota_snapshot, count_success_usage, count_visible_success,
  count_in_flight_scans,
}
use cafe_discovery.Ledger.Reserve.{has_scan, refusal, record_success_usage, reserve_scan_usage}
use cafe_discovery.Ledger.Snapshot.{snapshot}
use cafe_discovery.Plan.{
  User, Plan, Repositories, PlanUsage, is_unlimited, get_user_plan, plan_scans_left, get_plan_usage,
  check_scan_limit_from_counts, plan_parallel_scan_cap, scan_usage_kind_for_plan_limit_key,
  limit_for, usage_from_reservation, PostScanResult, quota_ok, reserve_post_scan_quota,
}
use cafe_discovery.Plan.Store.{PlanRow, plan_type_premium, active_of}
use cafe_discovery.Plan.Migrations.{run_migrations, premium_plan}
use cafe_discovery.Plan.Restart.{has_plan, run_migrations_twice}
use cafe_discovery.Plan.Restart.{no_faults as no_repository_faults}
use cafe_discovery.Plan.Guarantees.{reserve_post-bounds, accepted_counts_as_deleted}

abbrev basic : Plan
basic = record { wallet_scan_limit = pos 2; endpoint_scan_limit = pos 5 }

abbrev pub repos : Repositories
repos = record {
  find_user = λ id. some (some (record { id = id; plan_id = 1 }));
  find_plan = λ id. some (some basic);
}

abbrev pub no_faults : Faults
no_faults _ = false

abbrev pub stamp : Stamp
stamp = record { fresh_id = 100; now = 5 }

abbrev pub empty : Db
empty = record { events = []; wallets = []; endpoints = [] }

abbrev pub held : Db
held = record {
  events =
      (record { id = 100; user_id = 7; scan_id = 9; scan_kind = kind_wallet; consumed_at = 5 })
      ∷ [];
  wallets = [];
  endpoints = [];
}

-- Two wallet scans left, and five endpoints.
abbrev no_usage : PlanUsage
no_usage = record {
  wallet_scans_used = 0;
  endpoint_scans_used = 0;
  wallet_scans_visible = 0;
  endpoint_scans_visible = 0;
  wallet_scans_deleted_by_user = pos 0;
  endpoint_scans_deleted_by_user = pos 0;
  wallet_scans_in_flight = 0;
  endpoint_scans_in_flight = 0;
  wallet_scan_limit = pos 2;
  endpoint_scan_limit = pos 5;
  wallet_scans_left = pos 2;
  endpoint_scans_left = pos 5;
}

abbrev pub granted : PostScanResult
granted = record {
  accepted = true;
  usage = record no_usage { endpoint_scans_left = pos 0 };
  reason = quota_ok;
}

abbrev held_usage : PlanUsage
held_usage = record no_usage {
  wallet_scans_used = 1;
  wallet_scans_deleted_by_user = pos 1;
  wallet_scans_left = pos 1;
}

basic_found : get_user_plan repos 7 ≡ ok basic
unfolding get_user_plan
basic_found = refl

wallet_limit : limit_for basic plan_limit_key_wallet ≡ ok (pos 2)
unfolding limit_for
wallet_limit = refl

pub post_run :
    reserve_post_scan_quota repos no_faults stamp (some empty) 7 9 plan_limit_key_wallet
    ≡ ok (granted, held)
unfolding reserve_post_scan_quota scan_usage_kind_for_plan_limit_key get_user_plan limit_for
    reserve_scan_usage is_unlimited load_scan_quota_snapshot refusal record_success_usage
    usage_from_reservation plan_parallel_scan_cap
post_run = refl

usage_before : get_plan_usage repos no_faults no_faults 7 (some empty) ≡ ok no_usage
unfolding get_plan_usage get_user_plan count_success_usage count_visible_success
    count_in_flight_scans plan_scans_left is_unlimited
usage_before = refl

usage_after : get_plan_usage repos no_faults no_faults 7 (some held) ≡ ok held_usage
unfolding get_plan_usage get_user_plan count_success_usage count_visible_success
    count_in_flight_scans plan_scans_left is_unlimited
usage_after = refl

legacy_run : check_scan_limit_from_counts repos 7 plan_limit_key_wallet 0 0 ≡ ok (true, no_usage)
unfolding check_scan_limit_from_counts
legacy_run = refl

reserve_post-bounds_example :
    (any_of (has_scan 9) held.events ≡ true)
    × ((snapshot held 7 plan_limit_key_wallet).parallel ≤ 3)
    × ((is_positive (pos 2) ≡ false)
        ⊎ (ledger_count held 7 plan_limit_key_wallet ≤ pos_part (pos 2)))
reserve_post-bounds_example =
    reserve_post-bounds repos no_faults stamp empty held 7 9 plan_limit_key_wallet granted basic
      (pos 2) post_run refl basic_found wallet_limit

accepted_counts_as_deleted_example :
    held_usage.wallet_scans_deleted_by_user ≡ suc_ℤ no_usage.wallet_scans_deleted_by_user
accepted_counts_as_deleted_example =
    accepted_counts_as_deleted repos no_faults no_faults no_faults no_faults stamp empty held 7 9
      granted no_usage held_usage post_run refl refl usage_before usage_after

run_migrations_twice_example :
    (plans : List PlanRow) × (after : List User) × (run_migrations true no_repository_faults
        (1, 2)
        (λ id. false)
        (λ table. true)
        []
        (record { id = 7; plan_id = 0 } ∷ [])
      ≡ ((plans, after), ok tt))
    × (all_of has_plan after ≡ true)
    × (premium_plan.is_active ≡ false)
    × (any_of (active_of plan_type_premium) plans ≡ true)
    × (run_migrations true no_repository_faults (3, 4) (λ id. false) (λ table. true) plans after
        ≡ ((plans, after), ok tt))
run_migrations_twice_example =
    run_migrations_twice (λ table. true) (λ id. false) 1 2 3 4 (record { id = 7; plan_id = 0 } ∷ [])
      (λ table. refl) (λ id. refl) refl refl
