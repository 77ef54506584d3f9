-- ===== src/Plan/Restart.antt =====
-- The first and the second start: both plans are there, and the second start changes nothing.
use cafe_discovery.Base.{
  ℕ, Bool, true, false, not, ◌≡◌, refl, String, List, [], ◌∷◌, arith, ◌==◌, any_of, all_of,
  order_by, place, ok,
}
use cafe_discovery.Plan.{User}
use cafe_discovery.Plan.Store.{
  PlanRow, plan_type_free, plan_type_premium, active_of, create_plan, find_plan_by_type,
}
use cafe_discovery.Plan.Migrations.{
  free_plan, premium_plan, ensure_plan_exists, create_missing_plan, assign_plan_to_users,
  ensure_tables, run_migrations,
}
use cafe_discovery.Results.{Faults as RepositoryFaults}

abbrev pub no_faults : RepositoryFaults
no_faults q = false

abbrev free_row : ℕ → PlanRow
free_row free_id = record free_plan { id = free_id }

abbrev premium_row : ℕ → PlanRow
premium_row premium_id = record premium_plan { id = premium_id; is_active = true }

abbrev pub has_plan : User → Bool
has_plan u = not (u.plan_id == 0)

module _ (has_table : String → Bool) (update_fails : ℕ → Bool) where
  free_step :
      (free_id : ℕ)
      → ensure_plan_exists no_faults free_id plan_type_free free_plan []
        ≡ (free_row free_id ∷ [], ok (free_row free_id))
  unfolding ensure_plan_exists create_missing_plan create_plan find_plan_by_type order_by
  free_step free_id = refl

  premium_step :
      (free_id premium_id : ℕ)
      → (free_id == premium_id) ≡ false
      → ensure_plan_exists no_faults premium_id plan_type_premium premium_plan
          (free_row free_id ∷ [])
        ≡ (free_row free_id ∷ premium_row premium_id ∷ [], ok (premium_row premium_id))
  unfolding ensure_plan_exists create_missing_plan create_plan find_plan_by_type order_by
  premium_step free_id premium_id apart = ground (arith, apart)

  run_ok :
      (plans : List PlanRow) (users : List User) (with_free with_both : List PlanRow)
      (free other : PlanRow) (free_id premium_id : ℕ)
      → ensure_plan_exists no_faults free_id plan_type_free free_plan plans ≡ (with_free, ok free)
      → ensure_plan_exists no_faults premium_id plan_type_premium premium_plan with_free
        ≡ (with_both, ok other)
      → ((table : String) → has_table table ≡ true)
      → run_migrations true no_faults (free_id, premium_id) update_fails has_table plans users
        ≡ ((with_both, assign_plan_to_users no_faults update_fails free users), ok tt)
  unfolding run_migrations ensure_tables
  run_ok plans users with_free with_both free other free_id premium_id e f h =
      ground (arith, e, f, h "scan_results", h "tls_scan_results", h "scan_usage_events")

  free_again :
      (free_id premium_id next : ℕ)
      → ensure_plan_exists no_faults next plan_type_free free_plan
          (free_row free_id ∷ premium_row premium_id ∷ [])
        ≡ (free_row free_id ∷ premium_row premium_id ∷ [], ok (free_row free_id))
  unfolding ensure_plan_exists create_missing_plan create_plan find_plan_by_type order_by place
  free_again free_id premium_id next = refl

  premium_again :
      (free_id premium_id next : ℕ)
      → ensure_plan_exists no_faults next plan_type_premium premium_plan
          (free_row free_id ∷ premium_row premium_id ∷ [])
        ≡ (free_row free_id ∷ premium_row premium_id ∷ [], ok (premium_row premium_id))
  unfolding ensure_plan_exists create_missing_plan create_plan find_plan_by_type order_by place
  premium_again free_id premium_id next = refl

  every_plan :
      (update : ℕ) (users : List User)
      → (update == 0) ≡ false
      → ((id : ℕ) → update_fails id ≡ false)
      → all_of has_plan (assign_plan_to_users no_faults update_fails (free_row update) users) ≡ true
  unfolding assign_plan_to_users
  every_plan update [] n h = refl
  every_plan update (u ∷ users) n h = ground (arith, every_plan update users n h, h u.id, n)

  assigned_again :
      (plan : PlanRow) (users : List User)
      → all_of has_plan users ≡ true
      → assign_plan_to_users no_faults update_fails plan users ≡ users
  unfolding assign_plan_to_users
  assigned_again plan [] h = refl
  assigned_again plan (u ∷ users) h = ground (arith, h, assigned_again plan users)

  -- On an empty table of plans, where the database does not fail and the scan tables are there, the
  -- first start succeeds, leaves every user with a plan, and stores the premium plan as an active one,
  -- which is offered, although it is created as inactive. Each later start, whatever
  -- identifiers it would give, succeeds and changes nothing.
  pub run_migrations_twice :
      (free_id premium_id free_next premium_next : ℕ) (users : List User)
      → ((table : String) → has_table table ≡ true)
      → ((id : ℕ) → update_fails id ≡ false)
      → (free_id == 0) ≡ false
      → (free_id == premium_id) ≡ false
      → (plans : List PlanRow) × (after : List User) × (run_migrations true no_faults
            (free_id, premium_id)
            update_fails
            has_table
            []
            users
          ≡ ((plans, after), ok tt))
        × (all_of has_plan after ≡ true)
        × (premium_plan.is_active ≡ false)
        × (any_of (active_of plan_type_premium) plans ≡ true)
        × (run_migrations true no_faults
              (free_next, premium_next)
              update_fails
              has_table
              plans
              after
            ≡ ((plans, after), ok tt))
  run_migrations_twice free_id premium_id free_next premium_next users h u n apart =
      let plans : List PlanRow = free_row free_id ∷ premium_row premium_id ∷ [] in
      let after = assign_plan_to_users no_faults update_fails (free_row free_id) users in
      let given = every_plan free_id users n u in
      let again =
        run_ok plans after plans plans (free_row free_id) (premium_row premium_id) free_next
          premium_next (free_again free_id premium_id free_next)
          (premium_again free_id premium_id premium_next) h in
      (
        plans,
        after,
        run_ok [] users (free_row free_id ∷ []) plans (free_row free_id) (premium_row premium_id)
            free_id premium_id (free_step free_id) (premium_step free_id premium_id apart) h,
        given,
        refl,
        refl,
        rw (assigned_again (free_row free_id) after given) at again,
      )
