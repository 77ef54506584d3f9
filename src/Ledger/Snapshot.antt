-- ===== src/Ledger/Snapshot.antt =====
-- The quota snapshot as plain counts, and the cases of a reservation.
use cafe_discovery.Base.{
  ℕ, ◌+◌, true, false, not, ◌&&◌, String, ◌≡◌, ◌⊎◌, inl, inr, ℤ, arith, str_eq, if◌then◌else◌,
  count_if, mem, ok, Result-cases,
}
use cafe_discovery.Ledger.Tables.{Db, Stamp, Faults}
use cafe_discovery.Ledger.Queries.{
  kind_wallet, wallet_in_flight, tls_in_flight, ledger_count, ledger_ids, open_count,
  count_in_flight, count_in_flight_without_ledger, count_open_reservations, QuotaSnapshot,
  load_scan_quota_snapshot,
}
use cafe_discovery.Ledger.Reserve.{
  usage_event, insert_if_absent, record_success_usage, Reservation, allowed, outcome, refusal,
  reserve_scan_usage,
}

-- Live result rows of the kind's table that are still in flight.
unfoldable pub flight_count : Db → ℕ → String → ℕ
flight_count db user kind =
    if str_eq kind kind_wallet
    then count_if (wallet_in_flight user) db.wallets
    else count_if (tls_in_flight user) db.endpoints

-- Those of them that have no ledger row.
unfoldable pub extra_count : Db → ℕ → String → ℕ
extra_count db user kind =
    if str_eq kind kind_wallet
    then count_if (λ r. wallet_in_flight user r && not (mem r.id (ledger_ids db user kind)))
        db.wallets
    else count_if (λ r. tls_in_flight user r && not (mem r.id (ledger_ids db user kind)))
        db.endpoints

abbrev pub snapshot : Db → ℕ → String → QuotaSnapshot
snapshot db user kind = record {
  ledger = ledger_count db user kind;
  extra_in_flight = extra_count db user kind;
  parallel = flight_count db user kind + open_count db user kind;
}

-- A snapshot that loads is the plain counts.
pub load-snapshot :
    (faults : Faults) (db : Db) (user : ℕ) (kind : String) {snap : QuotaSnapshot}
    → load_scan_quota_snapshot faults db user kind ≡ ok snap
    → snap ≡ snapshot db user kind
unfolding load_scan_quota_snapshot flight_count extra_count count_in_flight
    count_in_flight_without_ledger count_open_reservations
load-snapshot faults db user kind h = ground arith

-- Whether a statement of loadScanQuotaSnapshot is refused does not depend on the tables.
pub load-same :
    (faults : Faults) (db db' : Db) (user : ℕ) (kind : String)
    → snapshot db user kind ≡ snapshot db' user kind
    → load_scan_quota_snapshot faults db user kind ≡ load_scan_quota_snapshot faults db' user kind
unfolding load_scan_quota_snapshot flight_count extra_count count_in_flight
    count_in_flight_without_ledger count_open_reservations
load-same faults db db' user kind h = ground (arith, h)

abbrev pub Reserved : Stamp → Db → ℕ → ℕ → String → ℤ → ℤ → Reservation → Db → Type 0
Reserved stamp db user scan kind limit cap r db' =
    (refusal (snapshot db user kind) limit cap ≡ allowed)
    × (r ≡ outcome true allowed (snapshot db user kind))
    × (db' ≡ record db { events = insert_if_absent (usage_event stamp user scan kind) db.events })

abbrev pub Refused : Db → ℕ → String → ℤ → ℤ → Reservation → Db → Type 0
Refused db user kind limit cap r db' =
    (r.reserved ≡ false) × (r.deny ≡ refusal (snapshot db user kind) limit cap) × (db' ≡ db)

pub reserve_cases :
    (faults : Faults) (stamp : Stamp) (db : Db) (user scan : ℕ) (kind : String) (limit cap : ℤ)
    {r : Reservation} {db' : Db}
    → reserve_scan_usage faults stamp db user scan kind limit cap ≡ ok (r, db')
    → Reserved stamp db user scan kind limit cap r db' ⊎ Refused db user kind limit cap r db'
unfolding reserve_scan_usage record_success_usage
reserve_cases faults stamp db user scan kind limit cap h =
    elim (Result-cases (load_scan_quota_snapshot faults db user kind)) [
      | inl (snap, e) ↦
          let e' : snap ≡ snapshot db user kind = load-snapshot faults db user kind e in
          ground (arith, e, e')
      | inr (x, e) ↦ ground (arith, e)
    ]
