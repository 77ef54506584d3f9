-- ===== src/Results/Adapter/Laws.antt =====
-- The repository store keeps what the read handlers rely on.
use cafe_discovery.Base.{
  ℕ, true, false, ◌≡◌, refl, inl, inr, Option, none, List, arith, Text, ok, Bool-cases, order_by,
}
use cafe_discovery.Chains.{Blockchain}
use cafe_discovery.Scans.{WalletScan}
use cafe_discovery.Scans.Outputs.{IsScanStore}
use cafe_discovery.Results.{
  Table, find_rows, delete_rows, Faults, live, find_one, delete_rows_where,
}
use cafe_discovery.Results.Deletion.{live-delete_where, select_gone}
use cafe_discovery.Results.Wallets.{
  owned_wallet, find_owned_wallet_scan_by_id, delete_owned_wallet_scan,
}
use cafe_discovery.Results.Adapter.{PendingOps, repository_store, to_store}

-- What a pending store promises: what it says it deleted is gone, and a released reservation brings
-- no record back.
pub record IsPendingOps (P : Type 0) (ops : PendingOps P) : Type 0 where
  pub gone :
      (user : ℕ) (tenant : Text) (scan : ℕ) (p : P)
      → (ops.delete user tenant scan p).1 ≡ ok tt
      → ops.get user tenant scan (ops.delete user tenant scan p).0 ≡ ok none
  pub released :
      (user : ℕ) (tenant address : Text) (scan : ℕ) (p : P)
      → ops.get user tenant scan p ≡ ok none
      → ops.get user tenant scan (ops.delete_reservation user tenant address scan p) ≡ ok none

-- A deletion that was answered leaves nothing for the lookup.
row_gone_lem :
    (faults : Faults) (user scan : ℕ) (t : Table WalletScan)
    → faults find_rows ≡ false
    → to_store (delete_owned_wallet_scan faults user scan t).1 ≡ ok true
    → to_store (
        find_owned_wallet_scan_by_id faults user scan
          (delete_owned_wallet_scan faults user scan t).0)
      ≡ ok none
unfolding find_owned_wallet_scan_by_id delete_owned_wallet_scan delete_rows_where find_one order_by
row_gone_lem faults user scan t f h = elim (Bool-cases (faults delete_rows)) [
  | inl d ↦ absurd (ground (arith, d))
  | inr d ↦
      rw
        (
          d,
          f,
          live-delete_where (owned_wallet user scan) t,
          select_gone (owned_wallet user scan) (live t),
        )
        refl
]

-- On a wallet table whose lookups do not fail, and with a pending store that keeps its promises, the
-- repository store keeps those that the deletion handler relies on.
pub repository_store-IsScanStore :
    (unmarshal : Text → Option (List Text)) (cfg : Option (List Blockchain)) (faults : Faults)
    {P : Type 0} (ops : PendingOps P)
    → faults find_rows ≡ false
    → IsPendingOps P ops
    → IsScanStore (Table WalletScan × P) (repository_store unmarshal cfg faults ops)
unfolding repository_store
repository_store-IsScanStore unmarshal cfg faults ops f law = record {
  row_gone = λ user tenant scan s h. row_gone_lem faults user scan s.0 f h;
  pending_gone = λ user tenant scan s h. law.gone user tenant scan s.1 h;
  rows_kept = λ user tenant scan s h. h;
  reservation_rows = λ user tenant address scan s h. h;
  reservation_pending = λ user tenant address scan s h. law.released user tenant address scan s.1 h;
}
