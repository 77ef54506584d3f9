-- ===== src/Plan/Limits.antt =====
-- What the plan arithmetic gives: the parallel cap, the scans left and the legacy check.
use cafe_discovery.Base.{
  ℕ, Bool, true, false, not, String, ◌≡◌, ◌≢◌, ◌↔◌, inl, inr, ◌||◌, ℤ, pos, is_positive, pos_part,
  arith, str_eq, if◌then◌else◌, min, Bool-cases, ok,
}
use cafe_discovery.Scan.{plan_limit_key_wallet}
use cafe_discovery.Plan.{
  Repositories, PlanUsage, plan_parallel_scan_cap, check_scan_limit_from_counts,
}

-- The cap as the comment of the source gives it: min(limit, 3) when limited, else 3.
pub parallel_cap-min :
    (limit : ℤ) (unlimited : Bool)
    → plan_parallel_scan_cap limit unlimited
      ≡ pos (if unlimited || not (is_positive limit) then 3 else min (pos_part limit) 3)
unfolding plan_parallel_scan_cap
parallel_cap-min limit unlimited = ground arith

-- The scans left that a usage shows for a type of scan.
abbrev pub left_for : String → PlanUsage → ℤ
left_for scan_type usage =
    if str_eq scan_type plan_limit_key_wallet
    then usage.wallet_scans_left
    else usage.endpoint_scans_left

check_allows_left :
    (repos : Repositories) (user_id : ℕ) (scan_type : String) (wallet_count endpoint_count : ℕ)
    (can_scan : Bool) (usage : PlanUsage)
    → check_scan_limit_from_counts repos user_id scan_type wallet_count endpoint_count
      ≡ ok (can_scan, usage)
    → can_scan ≡ true
    → left_for scan_type usage ≢ pos 0
unfolding check_scan_limit_from_counts
check_allows_left repos user_id scan_type wallet_count endpoint_count can_scan usage h yes_scan z =
    ground arith

check_refuses_left :
    (repos : Repositories) (user_id : ℕ) (scan_type : String) (wallet_count endpoint_count : ℕ)
    (can_scan : Bool) (usage : PlanUsage)
    → check_scan_limit_from_counts repos user_id scan_type wallet_count endpoint_count
      ≡ ok (can_scan, usage)
    → can_scan ≡ false
    → left_for scan_type usage ≡ pos 0
unfolding check_scan_limit_from_counts
check_refuses_left repos user_id scan_type wallet_count endpoint_count can_scan usage h no_scan =
    ground arith

-- The legacy check lets a user scan exactly when the usage that it returns with its answer shows
-- scans left for that type of scan, and an unlimited plan shows -1. Limits may have either sign.
pub check_scan_limit-left :
    (repos : Repositories) (user_id : ℕ) (scan_type : String) (wallet_count endpoint_count : ℕ)
    (can_scan : Bool) (usage : PlanUsage)
    → check_scan_limit_from_counts repos user_id scan_type wallet_count endpoint_count
      ≡ ok (can_scan, usage)
    → (can_scan ≡ true) ↔ (left_for scan_type usage ≢ pos 0)
check_scan_limit-left repos user_id scan_type wallet_count endpoint_count can_scan usage h = (
  check_allows_left repos user_id scan_type wallet_count endpoint_count can_scan usage h,
  λ left. elim (Bool-cases can_scan) [
    | inl e ↦ e
    | inr e ↦ absurd (
        left (
          check_refuses_left repos user_id scan_type wallet_count endpoint_count can_scan usage h
            e))
  ],
)
