-- ===== src/Plan/Migrations.antt =====
-- internal/app/migrations.go, and ensurePlanExists and assignPlanToUsersWithoutPlan of
-- internal/app/container.go. AutoMigrate and the check for a table are parameters.
use cafe_discovery.Base.{
  ℕ, Bool, true, false, not, ◌&&◌, String, none, some, List, [], ◌∷◌, ◌==◌, if◌then◌else◌, map, pos,
  Result, ok, err, guard, ◌>>◌,
}
use cafe_discovery.Plan.{User}
use cafe_discovery.Plan.Store.{
  PlanRow, plan_type_free, plan_type_premium, create_plan, find_plan_by_type,
}
use cafe_discovery.Results.{RepositoryError, find_rows}
use cafe_discovery.Results.{Faults as RepositoryFaults}

pub data MigrationError : Type 0 where
  auto_migrate_failed : MigrationError
  plan_creation_failed : String → RepositoryError → MigrationError
  table_missing : String → MigrationError

abbrev pub scan_tables_owned_by_persistence : List String
scan_tables_owned_by_persistence = "scan_results" ∷ "tls_scan_results" ∷ "scan_usage_events" ∷ []

abbrev pub free_plan : PlanRow
free_plan = record {
  id = 0;
  name = "Free Plan";
  plan_type = plan_type_free;
  wallet_scan_limit = pos 5;
  endpoint_scan_limit = pos 5;
  price = 0;
  is_active = true;
}

abbrev pub premium_plan : PlanRow
premium_plan = record {
  id = 0;
  name = "CAFEIN Premium Plan";
  plan_type = plan_type_premium;
  wallet_scan_limit = pos 0;
  endpoint_scan_limit = pos 0;
  price = 2999;
  is_active = false;
}

-- The creation of ensurePlanExists.
unfoldable pub create_missing_plan :
    RepositoryFaults
    → ℕ
    → String
    → PlanRow
    → List PlanRow
    → List PlanRow × Result MigrationError PlanRow
create_missing_plan faults fresh plan_type default plans =
    elim (create_plan faults fresh default plans) [
      | ok (plans', plan) ↦ (plans', ok plan)
      | err e ↦ (plans, err (plan_creation_failed plan_type e))
    ]

-- ensurePlanExists: an error of the lookup is dropped.
unfoldable pub ensure_plan_exists :
    RepositoryFaults
    → ℕ
    → String
    → PlanRow
    → List PlanRow
    → List PlanRow × Result MigrationError PlanRow
ensure_plan_exists faults fresh plan_type default plans =
    elim (find_plan_by_type faults plan_type plans) [
      | ok (some plan) ↦ (plans, ok plan)
      | ok none ↦ create_missing_plan faults fresh plan_type default plans
      | err e ↦ create_missing_plan faults fresh plan_type default plans
    ]

-- assignPlanToUsersWithoutPlan, with the users whose update fails; a nil or NULL plan is 0.
unfoldable pub assign_plan_to_users :
    RepositoryFaults → (ℕ → Bool) → PlanRow → List User → List User
assign_plan_to_users faults update_fails plan users =
    if faults find_rows
    then users
    else map
        (λ u.
          if (u.plan_id == 0) && not (update_fails u.id) then record u { plan_id = plan.id } else u)
        users

-- ensureScanTablesPresent
unfoldable pub ensure_tables : (String → Bool) → List String → Result MigrationError (Unit {0})
ensure_tables has_table [] = ok tt
ensure_tables has_table (table ∷ tables) =
    let rest = ensure_tables has_table tables in
    guard (has_table table) (table_missing table) >> rest

-- runMigrations. The two identifiers are those that uuid.New would give to the plans.
unfoldable pub run_migrations :
    Bool
    → RepositoryFaults
    → ℕ × ℕ
    → (ℕ → Bool)
    → (String → Bool)
    → List PlanRow
    → List User
    → (List PlanRow × List User) × Result MigrationError (Unit {0})
run_migrations migrated faults (free_id, premium_id) update_fails has_table plans users =
    let (with_free, free) = ensure_plan_exists faults free_id plan_type_free free_plan plans in
    let (with_both, premium) =
      ensure_plan_exists faults premium_id plan_type_premium premium_plan with_free in
    if not migrated then ((plans, users), err auto_migrate_failed) else elim free [
      | err e ↦ ((with_free, users), err e)
      | ok plan ↦ elim premium [
        | err e ↦ ((with_both, users), err e)
        | ok other ↦ (
          (with_both, assign_plan_to_users faults update_fails plan users),
          ensure_tables has_table scan_tables_owned_by_persistence,
        )
      ]
    ]
