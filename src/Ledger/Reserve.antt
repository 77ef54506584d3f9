-- ===== src/Ledger/Reserve.antt =====
-- The write side of the ledger repository: record, acquire, reserve and release. A transaction
-- that fails leaves the tables as they were, so a failed call returns no new tables.
use cafe_discovery.Base.{
  ℕ, ◌+◌, Bool, true, false, not, ◌&&◌, ◌||◌, String, List, [], ◌∷◌, ◌++◌, ℤ, is_positive,
  leb_count, ◌==◌, if◌then◌else◌, select, any_of, Result, ok, guard, ◌>>=◌, ◌>>◌,
}
use cafe_discovery.Ledger.Tables.{
  UsageEvent, Db, Stamp, Faults, LedgerError, invalid_kind, scan_id_required, refused, lock_quota,
  count_ledger, insert_event, delete_event,
}
use cafe_discovery.Ledger.Queries.{
  valid_kind, ledger_count, QuotaSnapshot, load_scan_quota_snapshot,
}

abbrev pub has_scan : ℕ → UsageEvent → Bool
has_scan scan e = e.scan_id == scan

-- INSERT … ON CONFLICT (scan_id) DO NOTHING
unfoldable pub insert_if_absent : UsageEvent → List UsageEvent → List UsageEvent
insert_if_absent e es = if any_of (has_scan e.scan_id) es then es else es ++ e ∷ []

abbrev pub usage_event : Stamp → ℕ → ℕ → String → UsageEvent
usage_event stamp user scan kind = record {
  id = stamp.fresh_id;
  user_id = user;
  scan_id = scan;
  scan_kind = kind;
  consumed_at = stamp.now;
}

-- RecordSuccessUsage and RecordSuccessUsageInTx
unfoldable pub record_success_usage : Faults → Stamp → Db → ℕ → ℕ → String → Result LedgerError Db
unfolding valid_kind insert_if_absent
record_success_usage faults stamp db user scan kind = do
  guard (valid_kind kind) invalid_kind
  guard (not (faults insert_event)) (refused insert_event)
  ok (record db { events = insert_if_absent (usage_event stamp user scan kind) db.events })

-- TryAcquireSuccessSlotInTx; TryAcquireSuccessSlot wraps it in a transaction that writes nothing.
unfoldable pub try_acquire_success_slot : Faults → Db → ℕ → String → ℤ → Result LedgerError Bool
unfolding valid_kind ledger_count
try_acquire_success_slot faults db user kind limit =
    if not (is_positive limit)
    then ok true
    else guard (valid_kind kind) invalid_kind
      >> (guard (not (faults lock_quota)) (refused lock_quota)
          >> (guard (not (faults count_ledger)) (refused count_ledger)
              >> ok (not (leb_count limit (ledger_count db user kind)))))

-- RecordSuccessUsageIfUnderLimitInTx: one INSERT … SELECT … WHERE (count) < limit.
unfoldable pub record_success_usage_if_under_limit :
    Faults → Stamp → Db → ℕ → ℕ → String → ℤ → Result LedgerError (Bool × Db)
unfolding record_success_usage
record_success_usage_if_under_limit faults stamp db user scan kind limit =
    if not (is_positive limit)
    then (record_success_usage faults stamp db user scan kind >>= λ db'. ok (true, db'))
    else guard (valid_kind kind) invalid_kind
      >> (guard (not (faults insert_event)) (refused insert_event)
          >> ok (
              if leb_count limit (ledger_count db user kind) || any_of (has_scan scan) db.events
              then (false, db)
              else (
                true,
                record db { events = db.events ++ usage_event stamp user scan kind ∷ [] },
              )))

pub data UsageDeny : Type 0 where
  allowed deny_quota deny_parallel : UsageDeny

pub record Reservation : Type 0 where
  pub reserved : Bool
  pub deny : UsageDeny
  pub ledger_count : ℕ
  pub extra_in_flight : ℕ
  pub parallel_in_flight : ℕ

abbrev pub outcome : Bool → UsageDeny → QuotaSnapshot → Reservation
outcome reserved deny snap = record {
  reserved = reserved;
  deny = deny;
  ledger_count = snap.ledger;
  extra_in_flight = snap.extra_in_flight;
  parallel_in_flight = snap.parallel;
}

-- The tests of a reservation, in the source's order: first the quota, then the parallel cap.
unfoldable pub refusal : QuotaSnapshot → ℤ → ℤ → UsageDeny
refusal snap quota_limit parallel_cap =
    if is_positive quota_limit && leb_count quota_limit (snap.ledger + snap.extra_in_flight)
    then deny_quota
    else if is_positive parallel_cap && leb_count parallel_cap snap.parallel
    then deny_parallel
    else allowed

-- ReserveScanUsage. uuid.Nil is 0.
unfoldable pub reserve_scan_usage :
    Faults → Stamp → Db → ℕ → ℕ → String → ℤ → ℤ → Result LedgerError (Reservation × Db)
unfolding valid_kind
reserve_scan_usage faults stamp db user scan kind quota_limit parallel_cap = do
  guard (not (scan == 0)) scan_id_required
  guard (valid_kind kind) invalid_kind
  guard (not (faults lock_quota)) (refused lock_quota)
  snap ← load_scan_quota_snapshot faults db user kind
  elim (refusal snap quota_limit parallel_cap) [
    | deny_quota ↦ ok (outcome false deny_quota snap, db)
    | deny_parallel ↦ ok (outcome false deny_parallel snap, db)
    | allowed ↦ record_success_usage faults stamp db user scan kind >>= λ db'.
        ok (outcome true allowed snap, db')
  ]

-- ReleaseSuccessUsageByScanID
unfoldable pub release_success_usage : Faults → Db → ℕ → Result LedgerError Db
release_success_usage faults db scan = do
  guard (not (faults delete_event)) (refused delete_event)
  ok (record db { events = select (λ e. not (has_scan scan e)) db.events })
