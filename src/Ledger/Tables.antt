-- ===== src/Ledger/Tables.antt =====
-- The three tables of the quota ledger and what uuid.New, time.Now and the database supply.
use cafe_discovery.Base.{ℕ, Bool, String, Option, List}

-- domain.ScanUsageEventEntity: one row for each accepted scan.
pub record UsageEvent : Type 0 where
  pub id : ℕ
  pub user_id : ℕ
  pub scan_id : ℕ
  pub scan_kind : String
  pub consumed_at : ℕ

-- domain.ScanResultEntity: a wallet scan.
pub record WalletRow : Type 0 where
  pub id : ℕ
  pub user_id : ℕ
  pub status : String
  pub is_deleted : Bool

-- domain.TLSScanResultEntity: an endpoint scan. A default endpoint has no owner.
pub record TlsRow : Type 0 where
  pub id : ℕ
  pub user_id : Option ℕ
  pub is_default : Bool
  pub status : String
  pub is_deleted : Bool

pub record Db : Type 0 where
  pub events : List UsageEvent
  pub wallets : List WalletRow
  pub endpoints : List TlsRow

-- The identifier that uuid.New and the instant that time.Now give to one call.
pub record Stamp : Type 0 where
  pub fresh_id : ℕ
  pub now : ℕ

-- The statements of a call that the database can refuse.
pub data Statement : Type 0 where
  lock_quota count_ledger count_flight count_visible count_extra count_open insert_event
        delete_event list_open :
      Statement

abbrev pub Faults : Type 0
Faults = Statement → Bool

pub data LedgerError : Type 0 where
  invalid_kind scan_id_required : LedgerError
  refused : Statement → LedgerError
