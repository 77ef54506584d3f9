-- ===== src/Plan/Store.antt =====
-- internal/repository/plan_repository.go, the reads of internal/service/plan.go that use it, and
-- internal/handler/plan.go. No code deletes a plan, so that the soft deletion of plans is left out. What
-- the database stores for an inactive plan when it is created is a parameter: the column has the default
-- true, and GORM may leave out a zero value of such a column.
use cafe_discovery.Base.{
  ℕ, Bool, true, not, ◌&&◌, ◌||◌, String, Option, none, some, List, [], ◌∷◌, ◌++◌, ltb, ◌==◌,
  str_eq, if◌then◌else◌, select, any_of, length, order_by, ℤ, Result, ok, err, guard, ◌>>=◌, ◌>>◌,
}
use cafe_discovery.Accept.{Locals, absent, wrong_type, signed_in}
use cafe_discovery.Ledger.Tables.{Db, Faults as LedgerFaults}
use cafe_discovery.Results.{
  find_rows, insert_row, query_failed, duplicate_id, RepositoryError, first_of, Table,
}
use cafe_discovery.Results.{Faults as RepositoryFaults}
use cafe_discovery.Results.Wallets.{count_wallet_scans_by_user}
use cafe_discovery.Results.Tls.{TlsResult, count_tls_scans_by_user}
use cafe_discovery.Scans.{WalletScan}
use cafe_discovery.Plan.{
  Plan, Repositories, PlanUsage, PlanError, get_user_plan, get_plan_usage,
  check_scan_limit_from_counts,
}

abbrev pub plan_type_free : String
plan_type_free = "FREE"

abbrev pub plan_type_premium : String
plan_type_premium = "PREMIUM"

-- domain.Plan; the price is in cents.
pub record PlanRow : Type 0 where
  pub id : ℕ
  pub name : String
  pub plan_type : String
  pub wallet_scan_limit : ℤ
  pub endpoint_scan_limit : ℤ
  pub price : ℕ
  pub is_active : Bool

abbrev pub has_name : String → PlanRow → Bool
has_name name p = str_eq p.name name

abbrev pub active_of : String → PlanRow → Bool
active_of plan_type p = str_eq p.plan_type plan_type && p.is_active

abbrev pub by_id : PlanRow → PlanRow → Bool
by_id p q = ltb p.id q.id

-- ORDER BY price ASC, with the rank of the database among plans of one price.
abbrev pub by_price : (PlanRow → ℕ) → PlanRow → PlanRow → Bool
by_price rank p q = ltb p.price q.price || (p.price == q.price) && ltb (rank p) (rank q)

module _ (faults : RepositoryFaults) where
  -- Create, with BeforeCreate: the identifier and the name are unique. GORM leaves a zero field with a
  -- default tag to the default, so IsActive is stored as true.
  unfoldable pub create_plan :
      ℕ → PlanRow → List PlanRow → Result RepositoryError (List PlanRow × PlanRow)
  create_plan fresh p plans =
      let row = record p { id = if p.id == 0 then fresh else p.id; is_active = true } in
      guard (not (faults insert_row)) (query_failed insert_row)
      >> guard (not (any_of (λ q. q.id == row.id) plans)) duplicate_id
      >> guard (not (any_of (has_name row.name) plans)) duplicate_id
      >> ok (plans ++ row ∷ [], row)

  -- FindByID
  unfoldable pub find_plan_by_id : ℕ → List PlanRow → Result RepositoryError (Option PlanRow)
  find_plan_by_id id plans =
      guard (not (faults find_rows)) (query_failed find_rows)
      >> ok (first_of (select (λ p. p.id == id) plans))

  -- FindByType
  unfoldable pub find_plan_by_type : String → List PlanRow → Result RepositoryError (Option PlanRow)
  find_plan_by_type plan_type plans =
      guard (not (faults find_rows)) (query_failed find_rows)
      >> ok (first_of (order_by by_id (select (active_of plan_type) plans)))

  -- FindAll
  unfoldable pub find_all_plans :
      (PlanRow → ℕ) → List PlanRow → Result RepositoryError (List PlanRow)
  find_all_plans rank plans =
      guard (not (faults find_rows)) (query_failed find_rows) >> ok (order_by (by_price rank) plans)

  -- FindActive, which is GetAllPlans of the service but for the wording of the error.
  unfoldable pub find_active_plans :
      (PlanRow → ℕ) → List PlanRow → Result RepositoryError (List PlanRow)
  find_active_plans rank plans =
      guard (not (faults find_rows)) (query_failed find_rows)
      >> ok (order_by (by_price rank) (select (λ p. p.is_active) plans))

  unfoldable pub get_all_plans :
      (PlanRow → ℕ) → List PlanRow → Result RepositoryError (List PlanRow)
  get_all_plans = find_active_plans

-- The errors of CheckScanLimit: of a count, or of the check.
pub data LimitError : Type 0 where
  count_failed : RepositoryError → LimitError
  check_failed : PlanError → LimitError

abbrev counted : Option (Result RepositoryError ℕ) → Result LimitError ℕ
counted none = ok 0
counted (some (ok n)) = ok n
counted (some (err e)) = err (count_failed e)

abbrev checked : {A : Type 0} → Result PlanError A → Result LimitError A
checked (ok a) = ok a
checked (err e) = err (check_failed e)

-- CheckScanLimit. A repository is none when it is nil.
unfoldable pub check_scan_limit :
    Repositories
    → ℕ
    → String
    → RepositoryFaults
    → Option (Table WalletScan)
    → RepositoryFaults
    → Option (Table TlsResult)
    → Result LimitError (Bool × PlanUsage)
check_scan_limit repos user_id scan_type wallet_faults wallets tls_faults tls = do
  wallet_count ← counted (elim wallets [
    | none ↦ none
    | some t ↦ some (count_wallet_scans_by_user wallet_faults user_id t)
  ])
  endpoint_count ←
      counted
        (elim tls [ none ↦ none | some t ↦ some (count_tls_scans_by_user tls_faults user_id t) ])
  checked (check_scan_limit_from_counts repos user_id scan_type wallet_count endpoint_count)

-- The bodies of internal/handler/plan.go.
pub data PlanBody : Type 0 where
  plan_body : Plan → PlanBody
  plans_body : List PlanRow → ℕ → PlanBody
  usage_body : PlanUsage → PlanBody
  not_authenticated_body invalid_user_id_body error_body : PlanBody

-- The user of the handlers, or their refusal.
abbrev plan_user : Locals → Result (ℕ × PlanBody) ℕ
plan_user absent = err (401, not_authenticated_body)
plan_user wrong_type = err (500, invalid_user_id_body)
plan_user (signed_in id) = ok id

abbrev or_500 : {E A : Type 0} → (A → PlanBody) → Result E A → ℕ × PlanBody
or_500 body (ok a) = (200, body a)
or_500 body (err e) = (500, error_body)

-- The handlers GetUserPlan, GetAllPlans and GetPlanUsage: a status and a body.
unfoldable pub get_current_plan : Repositories → Locals → ℕ × PlanBody
get_current_plan repos locals = elim (plan_user locals) [
  | err refusal ↦ refusal
  | ok id ↦ or_500 plan_body (get_user_plan repos id)
]

unfoldable pub get_plans : RepositoryFaults → (PlanRow → ℕ) → List PlanRow → ℕ × PlanBody
get_plans faults rank plans =
    or_500 (λ found. plans_body found (length found)) (get_all_plans faults rank plans)

unfoldable pub get_usage :
    Repositories → LedgerFaults → LedgerFaults → Option Db → Locals → ℕ × PlanBody
get_usage repos faults endpoint_faults ledger locals = elim (plan_user locals) [
  | err refusal ↦ refusal
  | ok id ↦ or_500 usage_body (get_plan_usage repos faults endpoint_faults id ledger)
]
