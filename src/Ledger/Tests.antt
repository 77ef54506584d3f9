-- ===== src/Ledger/Tests.antt =====
-- Runs of the ledger: user 7 reserves the wallet scan 9 under a limit of two.
use cafe_discovery.Base.{
  ℕ, false, true, String, ◌≡◌, refl, inr, [], ◌∷◌, ℤ, pos, arith, any_of, mem, ◌&&◌, ok,
}
use cafe_discovery.Ledger.Tables.{UsageEvent, WalletRow, Db, Stamp, Faults}
use cafe_discovery.Ledger.Queries.{
  kind_wallet, usage_of, wallet_in_flight, ledger_count, present_ids, load_scan_quota_snapshot,
}
use cafe_discovery.Ledger.Reserve.{
  has_scan, record_success_usage, Reservation, allowed, refusal, reserve_scan_usage,
}
use cafe_discovery.Ledger.Quota.{
  reserve, Calls, unguarded, here, next, WithinQuota, calls-WithinQuota,
}
use cafe_discovery.Ledger.Handover.{add_wallet_row, handover-load_scan_quota_snapshot}

abbrev no_faults : Faults
no_faults _ = false

abbrev stamp : Stamp
stamp = record { fresh_id = 100; now = 5 }

abbrev empty : Db
empty = record { events = []; wallets = []; endpoints = [] }

abbrev event : UsageEvent
event = record { id = 100; user_id = 7; scan_id = 9; scan_kind = kind_wallet; consumed_at = 5 }

abbrev held : Db
held = record { events = event ∷ []; wallets = []; endpoints = [] }

abbrev two : ℕ → String → ℤ
two _ _ = pos 2

abbrev granted : Reservation
granted = record {
  reserved = true;
  deny = allowed;
  ledger_count = 0;
  extra_in_flight = 0;
  parallel_in_flight = 0;
}

reserve_run :
    reserve_scan_usage no_faults stamp empty 7 9 kind_wallet (pos 2) (pos 2) ≡ ok (granted, held)
unfolding reserve_scan_usage load_scan_quota_snapshot refusal record_success_usage
reserve_run = refl

empty-WithinQuota : WithinQuota two (λ user kind. 0) empty
unfolding ledger_count
empty-WithinQuota user kind = inr (omega arith)

abbrev run : Calls two two empty held
run = next here (reserve no_faults stamp 7 9 kind_wallet reserve_run)

calls-WithinQuota_example : WithinQuota two (unguarded two two run) held
calls-WithinQuota_example = calls-WithinQuota two two empty held run empty-WithinQuota

abbrev row : WalletRow
row = record { id = 9; user_id = 7; status = "RUNNING"; is_deleted = false }

held_has_scan : any_of (λ e. usage_of 7 kind_wallet e && has_scan 9 e) held.events ≡ true
unfolding usage_of
held_has_scan = refl

no_row : mem 9 (present_ids held kind_wallet) ≡ false
unfolding present_ids
no_row = refl

row_in_flight : wallet_in_flight 7 row ≡ true
unfolding wallet_in_flight
row_in_flight = refl

handover-load_scan_quota_snapshot_example :
    load_scan_quota_snapshot no_faults (add_wallet_row row held) 7 kind_wallet
    ≡ load_scan_quota_snapshot no_faults held 7 kind_wallet
handover-load_scan_quota_snapshot_example =
    handover-load_scan_quota_snapshot no_faults held row (refl, tt) held_has_scan no_row
      row_in_flight
