-- ===== src/Plan/Guarantees.antt =====
-- What an accepted POST reservation guarantees, and two places where the plan's figures disagree.
use cafe_discovery.Base.{
  ◌==◌, ℕ, ◌+◌, ◌≤◌, Bool, true, false, String, ◌≡◌, sym, ap, ◌∙◌, ◌⊎◌, inl, inr, some, [], ◌∷◌,
  ◌++◌, ℤ, is_positive, pos_part, sub_ℕ, suc_ℤ, arith, eq_iff, eq_refl, Bool-cases, ok,
  Result-cases, any_of, count_if, count_if-append,
}
use cafe_discovery.Scan.{plan_limit_key_wallet}
use cafe_discovery.Ledger.Tables.{Db, Stamp, Faults}
use cafe_discovery.Ledger.Queries.{
  kind_wallet, wallet_visible, usage_of, ledger_count, count_success_usage, count_visible_success,
}
use cafe_discovery.Ledger.Reserve.{has_scan, usage_event, Reservation, reserve_scan_usage}
use cafe_discovery.Ledger.Snapshot.{snapshot, reserve_cases}
use cafe_discovery.Ledger.Effects.{
  reserve-parallel_le_cap, Reserved-fresh, Reserved-le_limit, Reserved-has_scan,
}
use cafe_discovery.Plan.{
  Plan, Repositories, PlanUsage, is_unlimited, plan_parallel_scan_cap, quota_limit, limit_for,
  scan_usage_kind_for_plan_limit_key, PostScanResult, get_user_plan, get_plan_usage,
  reserve_post_scan_quota,
}
use cafe_discovery.Plan.Limits.{parallel_cap-min}

-- What a POST reservation hands to the ledger: the plan's limit for the type of scan, and the cap.
abbrev pub LedgerCall : Faults → Stamp → Db → ℕ → ℕ → String → Plan → ℤ → Reservation → Db → Type 0
LedgerCall faults stamp db user scan kind plan limit res db' =
    reserve_scan_usage faults stamp db user scan kind (quota_limit plan kind limit)
      (plan_parallel_scan_cap limit (is_unlimited plan kind))
    ≡ ok (res, db')

kind_of_scan_type :
    (scan_type kind : String)
    → scan_usage_kind_for_plan_limit_key scan_type ≡ ok kind
    → kind ≡ scan_type
unfolding scan_usage_kind_for_plan_limit_key
kind_of_scan_type scan_type kind h =
    ground (arith, eq_iff scan_type "wallet", eq_iff scan_type "endpoint")

-- The parts of a POST reservation that returned: a plan, its limit, and the ledger's answer.
pub reserve_post_cases :
    (repos : Repositories) (faults : Faults) (stamp : Stamp) (db db' : Db) (user scan : ℕ)
    (scan_type : String) (out : PostScanResult)
    → reserve_post_scan_quota repos faults stamp (some db) user scan scan_type ≡ ok (out, db')
    → (plan : Plan) × (limit : ℤ) × (res : Reservation) × (get_user_plan repos user ≡ ok plan)
      × (limit_for plan scan_type ≡ ok limit)
      × (res.reserved ≡ out.accepted)
      × LedgerCall faults stamp db user scan scan_type plan limit res db'
unfolding reserve_post_scan_quota
reserve_post_cases repos faults stamp db db' user scan scan_type out h =
    elim (Result-cases (scan_usage_kind_for_plan_limit_key scan_type)) [
      | inr (x, e) ↦ absurd (ground (arith, e))
      | inl (kind, ek) ↦ elim (Result-cases (get_user_plan repos user)) [
        | inr (x, e) ↦ absurd (ground (arith, ek, e))
        | inl (plan, ep) ↦ elim (Result-cases (limit_for plan scan_type)) [
          | inr (x, e) ↦ absurd (ground (arith, ek, ep, e))
          | inl (limit, el) ↦
              let same = kind_of_scan_type scan_type kind ek in
              elim (Result-cases (
                reserve_scan_usage faults stamp db user scan scan_type
                  (quota_limit plan scan_type limit)
                  (plan_parallel_scan_cap limit (is_unlimited plan scan_type)))) [
                    | inr (x, e) ↦ absurd (ground (arith, ek, ep, el, e, same))
                    | inl ((res, db''), er) ↦ (
                      plan,
                      limit,
                      res,
                      ep,
                      el,
                      ground (arith, ek, ep, el, er, same),
                      ground (arith, ek, ep, el, er, same),
                    )
                  ]
        ]
      ]
    ]

pub reserve_post-user :
    (repos : Repositories) (faults : Faults) (stamp : Stamp) (db : Db) (user scan : ℕ)
    (scan_type : String) (r : PostScanResult × Db)
    → reserve_post_scan_quota repos faults stamp (some db) user scan scan_type ≡ ok r
    → (user == 0) ≡ false
unfolding reserve_post_scan_quota
reserve_post-user repos faults stamp db user scan scan_type r h = ground (arith, h)

quota_limit_positive :
    (plan : Plan) (scan_type : String) (limit : ℤ)
    → limit_for plan scan_type ≡ ok limit
    → is_positive limit ≡ true
    → quota_limit plan scan_type limit ≡ limit
unfolding limit_for is_unlimited
quota_limit_positive plan scan_type limit h p = ground arith

cap_positive :
    (limit : ℤ) (unlimited : Bool) → is_positive (plan_parallel_scan_cap limit unlimited) ≡ true
cap_positive limit unlimited = rw (parallel_cap-min limit unlimited) (ground arith)

cap-le : (limit : ℤ) (unlimited : Bool) → pos_part (plan_parallel_scan_cap limit unlimited) ≤ 3
cap-le limit unlimited = rw (parallel_cap-min limit unlimited) (ground arith)

pub ledger_bounds :
    (faults : Faults) (stamp : Stamp) (db db' : Db) (user scan : ℕ) (kind : String) (plan : Plan)
    (limit : ℤ) (res : Reservation)
    → LedgerCall faults stamp db user scan kind plan limit res db'
    → res.reserved ≡ true
    → limit_for plan kind ≡ ok limit
    → (any_of (has_scan scan) db'.events ≡ true)
      × ((snapshot db' user kind).parallel ≤ 3)
      × ((is_positive limit ≡ false) ⊎ (ledger_count db' user kind ≤ pos_part limit))
ledger_bounds faults stamp db db' user scan kind plan limit res call granted hl =
    let cap = plan_parallel_scan_cap limit (is_unlimited plan kind) in
    let quota = quota_limit plan kind limit in
    elim (reserve_cases faults stamp db user scan kind quota cap call) [
      | inr (no_slot, _, _) ↦ absurd (ground (arith, no_slot))
      | inl slot ↦ (
        Reserved-has_scan stamp db db' user scan kind quota cap res slot,
        omega (
          arith,
          cap-le limit (is_unlimited plan kind),
          reserve-parallel_le_cap faults stamp db db' user scan kind quota cap res
              (cap_positive limit (is_unlimited plan kind)) granted call,
        ),
        elim (Bool-cases (is_positive limit)) [
          | inr none_set ↦ inl none_set
          | inl positive ↦
              let same = quota_limit_positive plan kind limit hl positive in
              let fits =
                Reserved-le_limit stamp db db' user scan kind quota cap res slot
                  (rw same positive) in
              inr (rw same at fits)
        ],
      )
    ]

-- When POST accepts a scan, the scan has its ledger row, its owner has at most three scans of that
-- type reserved or in flight, and where the plan's limit is positive the owner's ledger rows of
-- that type do not exceed it.
pub reserve_post-bounds :
    (repos : Repositories) (faults : Faults) (stamp : Stamp) (db db' : Db) (user scan : ℕ)
    (scan_type : String) (out : PostScanResult) (plan : Plan) (limit : ℤ)
    → reserve_post_scan_quota repos faults stamp (some db) user scan scan_type ≡ ok (out, db')
    → out.accepted ≡ true
    → get_user_plan repos user ≡ ok plan
    → limit_for plan scan_type ≡ ok limit
    → (any_of (has_scan scan) db'.events ≡ true)
      × ((snapshot db' user scan_type).parallel ≤ 3)
      × ((is_positive limit ≡ false) ⊎ (ledger_count db' user scan_type ≤ pos_part limit))
reserve_post-bounds repos faults stamp db db' user scan scan_type out plan limit h yes_scan hp hl =
    let (plan', limit', res, ep, el, acc, call) =
      reserve_post_cases repos faults stamp db db' user scan scan_type out h in
    let same : limit' ≡ limit = cc in
    let bounds =
      ledger_bounds faults stamp db db' user scan scan_type plan' limit' res call (acc ∙ yes_scan)
        el in
    (bounds.0, bounds.1, rw same at (bounds.2))

-- The figure of GetPlanUsage for deleted wallet scans, as a difference of two counts.
usage_deleted :
    (repos : Repositories) (faults endpoint_faults : Faults) (user : ℕ) (db : Db) (u : PlanUsage)
    → get_plan_usage repos faults endpoint_faults user (some db) ≡ ok u
    → u.wallet_scans_deleted_by_user
      ≡ sub_ℕ (ledger_count db user kind_wallet) (count_if (wallet_visible user) db.wallets)
unfolding get_plan_usage count_success_usage count_visible_success
usage_deleted repos faults endpoint_faults user db u h = ground arith

sub_ℕ-suc : (a b : ℕ) → sub_ℕ (a + 1) b ≡ suc_ℤ (sub_ℕ a b)
sub_ℕ-suc a b = ground arith

count-appended :
    (db : Db) (stamp : Stamp) (user scan : ℕ) (kind : String)
    → ledger_count
        (record db { events = db.events ++ usage_event stamp user scan kind ∷ [] })
        user
        kind
      ≡ ledger_count db user kind + 1
unfolding ledger_count usage_of
count-appended db stamp user scan kind = ground (
  arith,
  count_if-append (usage_of user kind) db.events (usage_event stamp user scan kind ∷ []),
  eq_refl kind,
)

deleted_step :
    (db db' : Db) (stamp : Stamp) (user scan : ℕ)
    → db' ≡ record db { events = db.events ++ usage_event stamp user scan kind_wallet ∷ [] }
    → sub_ℕ (ledger_count db' user kind_wallet) (count_if (wallet_visible user) db'.wallets)
      ≡ suc_ℤ (sub_ℕ (ledger_count db user kind_wallet) (count_if (wallet_visible user) db.wallets))
deleted_step db db' stamp user scan e =
    rw (e, count-appended db stamp user scan kind_wallet) (sub_ℕ-suc _ _)

-- GetPlanUsage reports one more wallet scan as deleted by the user as soon as a wallet scan that had
-- no ledger row is accepted, although the user has deleted nothing: the figure is the ledger rows
-- less the visible successes, and the ledger row exists from the acceptance on.
pub accepted_counts_as_deleted :
    (repos : Repositories) (faults before after endpoint_faults : Faults) (stamp : Stamp)
    (db db' : Db) (user scan : ℕ) (out : PostScanResult) (u u' : PlanUsage)
    → reserve_post_scan_quota repos faults stamp (some db) user scan plan_limit_key_wallet
      ≡ ok (out, db')
    → out.accepted ≡ true
    → any_of (has_scan scan) db.events ≡ false
    → get_plan_usage repos before endpoint_faults user (some db) ≡ ok u
    → get_plan_usage repos after endpoint_faults user (some db') ≡ ok u'
    → u'.wallet_scans_deleted_by_user ≡ suc_ℤ u.wallet_scans_deleted_by_user
accepted_counts_as_deleted repos faults before after endpoint_faults stamp db db' user scan out u u'
      h yes_scan fresh hu hu' =
    let (plan, limit, res, ep, el, acc, call) =
      reserve_post_cases repos faults stamp db db' user scan plan_limit_key_wallet out h in
    let quota = quota_limit plan plan_limit_key_wallet limit in
    let cap = plan_parallel_scan_cap limit (is_unlimited plan plan_limit_key_wallet) in
    let granted : res.reserved ≡ true = acc ∙ yes_scan in
    elim (reserve_cases faults stamp db user scan plan_limit_key_wallet quota cap call) [
      | inr (no_slot, _, _) ↦ absurd (ground (arith, no_slot, granted))
      | inl slot ↦
          let e = Reserved-fresh stamp db db' user scan kind_wallet quota cap res slot fresh in
          usage_deleted repos after endpoint_faults user db' u' hu'
          ∙ (deleted_step db db' stamp user scan e
              ∙ ap suc_ℤ (sym (usage_deleted repos before endpoint_faults user db u hu)))
    ]
