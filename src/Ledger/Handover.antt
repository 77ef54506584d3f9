-- ===== src/Ledger/Handover.antt =====
-- cafe-persistence writes the row of a reserved wallet scan: the quota snapshot must not move.
use cafe_discovery.Base.{
  ℕ, ◌+◌, Bool, true, false, not, ◌&&◌, ◌≡◌, refl, sym, List, [], ◌∷◌, map, arith, ◌==◌, ==_iff,
  select, count_if, any_of, mem, Bool-cases, inl, inr,
}
use cafe_discovery.Ledger.Tables.{UsageEvent, WalletRow, Db, Faults}
use cafe_discovery.Ledger.Queries.{
  kind_wallet, usage_of, wallet_in_flight, ledger_count, ledger_ids, open_count, present_ids,
  load_scan_quota_snapshot,
}
use cafe_discovery.Ledger.Reserve.{has_scan}
use cafe_discovery.Ledger.Snapshot.{snapshot, load-same, flight_count, extra_count}
use cafe_discovery.Ledger.Quota.{UniqueScans}

-- The row that cafe-persistence adds for a scan.
abbrev pub add_wallet_row : WalletRow → Db → Db
add_wallet_row r db = record db { wallets = r ∷ db.wallets }

-- Rows of the ledger that pass `p` and whose scan is not among `ids`.
abbrev absent : (UsageEvent → Bool) → List ℕ → List UsageEvent → ℕ
absent p ids = count_if (λ e. p e && not (mem e.scan_id ids))

absent_other :
    (p : UsageEvent → Bool) (scan : ℕ) (ids : List ℕ) (es : List UsageEvent)
    → any_of (has_scan scan) es ≡ false
    → absent p (scan ∷ ids) es ≡ absent p ids es
absent_other p scan ids [] h = refl
absent_other p scan ids (e ∷ es) h = ground (arith, absent_other p scan ids es)

none_of_both :
    (p q : UsageEvent → Bool) (es : List UsageEvent)
    → any_of q es ≡ false
    → any_of (λ e. p e && q e) es ≡ false
none_of_both p q [] h = refl
none_of_both p q (e ∷ es) h = ground (arith, none_of_both p q es)

-- A scan that becomes present takes exactly one row out of the count.
absent_one :
    (p : UsageEvent → Bool) (scan : ℕ) (ids : List ℕ) (es : List UsageEvent)
    → UniqueScans es
    → any_of (λ e. p e && has_scan scan e) es ≡ true
    → mem scan ids ≡ false
    → absent p (scan ∷ ids) es + 1 ≡ absent p ids es
absent_one p scan ids [] u h m = cc
absent_one p scan ids (e ∷ es) u h m = elim (Bool-cases (has_scan scan e)) [
  | inl hit ↦
      let same : e.scan_id ≡ scan = (==_iff e.scan_id scan).0 hit in
      let rest_none : any_of (has_scan scan) es ≡ false = rw (← same) u.0 in
      let here : p e ≡ true = ground (arith, none_of_both p (has_scan scan) es rest_none) in
      let gone : mem e.scan_id ids ≡ false = rw same m in
      let present : (scan == e.scan_id) ≡ true = (==_iff scan e.scan_id).1 (sym same) in
      let others = absent_other p scan ids es rest_none in
      rw (here, present, gone, others) (omega arith)
  | inr miss ↦ ground (arith, absent_one p scan ids es u.1)
]

ledger_ids-mem :
    (p : UsageEvent → Bool) (scan : ℕ) (es : List UsageEvent)
    → any_of (λ e. p e && has_scan scan e) es ≡ true
    → mem scan (map (λ e. e.scan_id) (select p es)) ≡ true
ledger_ids-mem p scan [] h = cc
ledger_ids-mem p scan (e ∷ es) h = ground (arith, ledger_ids-mem p scan es)

parts-snapshot :
    (db : Db) (r : WalletRow)
    → UniqueScans db.events
    → any_of (λ e. usage_of r.user_id kind_wallet e && has_scan r.id e) db.events ≡ true
    → mem r.id (present_ids db kind_wallet) ≡ false
    → wallet_in_flight r.user_id r ≡ true
    → snapshot (add_wallet_row r db) r.user_id kind_wallet ≡ snapshot db r.user_id kind_wallet
unfolding flight_count extra_count open_count present_ids ledger_count ledger_ids
parts-snapshot db r u reserved fresh flying =
    let p = usage_of r.user_id kind_wallet in
    let one = absent_one p r.id (map (λ x. x.id) db.wallets) db.events u reserved fresh in
    let held = ledger_ids-mem p r.id db.events reserved in ground (arith, one, held, flying)

-- When the in-flight row of a reserved wallet scan is written, and no row had that identifier,
-- loadScanQuotaSnapshot gives its owner what it gave before, the same snapshot or the same error: the
-- scan moves from reserved to in flight and is counted once throughout.
pub handover-load_scan_quota_snapshot :
    (faults : Faults) (db : Db) (r : WalletRow)
    → UniqueScans db.events
    → any_of (λ e. usage_of r.user_id kind_wallet e && has_scan r.id e) db.events ≡ true
    → mem r.id (present_ids db kind_wallet) ≡ false
    → wallet_in_flight r.user_id r ≡ true
    → load_scan_quota_snapshot faults (add_wallet_row r db) r.user_id kind_wallet
      ≡ load_scan_quota_snapshot faults db r.user_id kind_wallet
handover-load_scan_quota_snapshot faults db r u reserved fresh flying =
    load-same faults (add_wallet_row r db) db r.user_id kind_wallet
      (parts-snapshot db r u reserved fresh flying)
