-- ===== src/Scans/Outputs.antt =====
-- What the handlers that name one scan answer, together: here, the detail after a deletion.
pub mod Details
use cafe_discovery.Base.{
  ℕ, Bool, true, false, not, ◌&&◌, ◌||◌, String, ◌≡◌, ◌≢◌, refl, sym, ap, ◌∙◌, ◌⊎◌, inl, inr,
  Option, none, some, List, arith, is_nil, trim, Text, codes, Result, ok, err, Result-cases,
  Option-cases, Bool-cases, str_eq, eq_iff, upper, to_upper, trim_left, trim_right, is_space,
  text_eq,
}
use cafe_discovery.Scan.{is_terminal, is_success, success}
use cafe_discovery.Accept.{
  Family, wallet_family, tls_family, PendingRecord, get_authenticated_user_id, LifecycleStatus,
  completed, failed, wallet_scan_lifecycle_status,
}
use cafe_discovery.Accept.{status_left}
use cafe_discovery.Scans.{
  WalletScan, TlsScan, StoreError, unavailable, other, ScanStore, Handler, Call, Answer, reply,
  respond_store_error, scan_not_found, is_own, wallet_detail, wallet_cbom, wallet_scan_detail,
}
use cafe_discovery.Scans.Delete.{
  deleted_answer, end_answer, clear_wallet_pending, own_pending, unless_referenced, delete_row,
  delete_pending_only, delete_wallet_scan,
}
use cafe_discovery.Scans.Read.{pending_answer, get_wallet_scan, no_cbom, get_wallet_scan_cbom}

-- What cafe-persistence promises: what it says it deleted is gone, and deletions of pending records
-- and reservations bring nothing back.
pub record IsScanStore (S : Type 0) (store : ScanStore S) : Type 0 where
  pub row_gone :
      (user : ℕ) (tenant : Text) (scan : ℕ) (s : S)
      → (store.delete_wallet_scan user tenant scan s).1 ≡ ok true
      → store.get_wallet_scan user tenant scan (store.delete_wallet_scan user tenant scan s).0
        ≡ ok none
  pub pending_gone :
      (user : ℕ) (tenant : Text) (scan : ℕ) (s : S)
      → (store.delete_pending user tenant scan s).1 ≡ ok tt
      → store.get_pending user tenant scan (store.delete_pending user tenant scan s).0 ≡ ok none
  pub rows_kept :
      (user : ℕ) (tenant : Text) (scan : ℕ) (s : S)
      → store.get_wallet_scan user tenant scan s ≡ ok none
      → store.get_wallet_scan user tenant scan (store.delete_pending user tenant scan s).0 ≡ ok none
  pub reservation_rows :
      (user : ℕ) (tenant address : Text) (scan : ℕ) (s : S)
      → store.get_wallet_scan user tenant scan s ≡ ok none
      → store.get_wallet_scan user tenant scan (store.delete_reservation user tenant address scan s)
        ≡ ok none
  pub reservation_pending :
      (user : ℕ) (tenant address : Text) (scan : ℕ) (s : S)
      → store.get_pending user tenant scan s ≡ ok none
      → store.get_pending user tenant scan (store.delete_reservation user tenant address scan s)
        ≡ ok none

module _ (S : Type 0) (h : Handler S) where
  -- The scan is in neither store, or the pending store is not asked.
  record IsGone (user : ℕ) (tenant : Text) (scan : ℕ) (s : S) : Type 0 where
    row : h.store.get_wallet_scan user tenant scan s ≡ ok none
    pending : (h.has_pending ≡ false) ⊎ (h.store.get_pending user tenant scan s ≡ ok none)

  gone-pending_answer :
      (status user : ℕ) (tenant : Text) (scan : ℕ) (s : S)
      → (h.has_pending ≡ false) ⊎ (h.store.get_pending user tenant scan s ≡ ok none)
      → pending_answer S h status user tenant wallet_family scan s ≡ scan_not_found
  unfolding pending_answer
  gone-pending_answer status user tenant scan s (inl e) = rw (e, pending_answer) refl
  gone-pending_answer status user tenant scan s (inr e) = elim (Bool-cases h.has_pending) [
    | inl p ↦ rw (p, e, pending_answer) refl
    | inr p ↦ rw (p, pending_answer) refl
  ]

  get-IsGone :
      (call : Call) (s : S) (scan : ℕ)
      → call.scan_id ≡ some scan
      → (get_authenticated_user_id call.write_fails call.locals).1 ≡ false
      → IsGone (get_authenticated_user_id call.write_fails call.locals).0 (trim call.tenant) scan s
      → get_wallet_scan S h call s ≡ scan_not_found
  unfolding get_wallet_scan
  get-IsGone call s scan a w gone =
      let user = (get_authenticated_user_id call.write_fails call.locals).0 in
      let rest =
        gone-pending_answer (status_left call.locals) user (trim call.tenant) scan s gone.pending in
      elim (Bool-cases h.has_read) [
        | inl r ↦ ground (arith, w, a, r, gone.row, rest)
        | inr r ↦ ground (arith, w, a, r, rest)
      ]

  module _ (law : IsScanStore S h.store) where
    end_deleted :
        (r : S × Result StoreError (Unit {0}))
        → (end_answer S h r).1 ≡ deleted_answer
        → (r.1 ≡ ok tt) × ((end_answer S h r).0 ≡ r.0)
    end_deleted (s, ok _) e = (refl, refl)
    end_deleted (s, err x) e = absurd (ground (arith, e))

    clear-IsGone :
        (user : ℕ) (tenant : Text) (scan : ℕ) (address : Text) (s : S)
        → h.store.get_wallet_scan user tenant scan s ≡ ok none
        → (clear_wallet_pending S h user tenant scan address s).1 ≡ ok tt
        → IsGone user tenant scan (clear_wallet_pending S h user tenant scan address s).0
    unfolding clear_wallet_pending
    clear-IsGone user tenant scan address s row cleared =
        let after = (h.store.delete_pending user tenant scan s).0 in
        elim (Bool-cases h.has_pending) [
          | inr p ↦
              let same : (clear_wallet_pending S h user tenant scan address s).0 ≡ s =
                ground (arith, p) in
              rw (same) (record { row = row; pending = inl p })
          | inl p ↦ elim (Result-cases (h.store.delete_pending user tenant scan s).1) [
            | inr (x, d) ↦ absurd (ground (arith, p, d, cleared))
            | inl (_, d) ↦
                let gone = law.pending_gone user tenant scan s d in
                let kept = law.rows_kept user tenant scan s row in
                elim (Bool-cases (is_nil (trim address))) [
                  | inl b ↦
                      let same : (clear_wallet_pending S h user tenant scan address s).0 ≡ after =
                        ground (arith, p, d, b) in
                      rw (same) (record { row = kept; pending = inr gone })
                  | inr b ↦
                      let same : (clear_wallet_pending S h user tenant scan address s).0
                          ≡ h.store.delete_reservation user tenant (trim address) scan after =
                        ground (arith, p, d, b) in
                      rw (same) (record {
                        row = law.reservation_rows user tenant (trim address) scan after kept;
                        pending =
                            inr
                              (law.reservation_pending user tenant (trim address) scan after gone);
                      })
                ]
          ]
        ]

    -- A 204 comes only at the end of the steps.
    unless_deleted :
        (user : ℕ) (tenant : Text) (scan : ℕ) (s : S) (delete : S × Answer)
        → (unless_referenced S h user tenant scan s delete).1 ≡ deleted_answer
        → unless_referenced S h user tenant scan s delete ≡ delete
    unfolding unless_referenced
    unless_deleted user tenant scan s delete e = elim (Option-cases h.policies) [
      | inl p ↦ absurd (ground (arith, p, e))
      | inr (refers, p) ↦ elim (Option-cases (refers user tenant scan)) [
        | inl f ↦ absurd (ground (arith, p, f, e))
        | inr (true, f) ↦ absurd (ground (arith, p, f, e))
        | inr (false, f) ↦ ground (arith, p, f)
      ]
    ]

    respond_not_204 : (e : StoreError) → respond_store_error e ≢ deleted_answer
    unfolding respond_store_error
    respond_not_204 unavailable e = absurd (ground (arith, e))
    respond_not_204 other e = absurd (ground (arith, e))

    row-IsGone :
        (user : ℕ) (tenant : Text) (scan : ℕ) (address : Text) (s : S)
        → (delete_row S h
            (h.store.delete_wallet_scan user tenant scan s)
            (clear_wallet_pending S h user tenant scan address)).1
          ≡ deleted_answer
        → IsGone user tenant scan
            (delete_row S h
              (h.store.delete_wallet_scan user tenant scan s)
              (clear_wallet_pending S h user tenant scan address)).0
    unfolding delete_row
    row-IsGone user tenant scan address s e =
        let after = (h.store.delete_wallet_scan user tenant scan s).0 in
        elim (Result-cases (h.store.delete_wallet_scan user tenant scan s).1) [
          | inr (x, d) ↦ absurd (respond_not_204 x (ground (arith, d, e)))
          | inl (false, d) ↦ absurd (ground (arith, d, e))
          | inl (true, d) ↦
              let (cleared, same) =
                end_deleted (clear_wallet_pending S h user tenant scan address after)
                  (ground (arith, d, e)) in
              let end : (delete_row S h (h.store.delete_wallet_scan user tenant scan s)
                    (clear_wallet_pending S h user tenant scan address)).0
                  ≡ (clear_wallet_pending S h user tenant scan address after).0 =
                ground (arith, d, same) in
              rw (end) (
                clear-IsGone user tenant scan address after (law.row_gone user tenant scan s d)
                  cleared)
        ]

    pending-IsGone :
        (user : ℕ) (tenant : Text) (scan : ℕ) (s : S)
        → h.store.get_wallet_scan user tenant scan s ≡ ok none
        → (delete_pending_only S h user tenant wallet_family scan s).1 ≡ deleted_answer
        → IsGone user tenant scan (delete_pending_only S h user tenant wallet_family scan s).0
    unfolding delete_pending_only
    pending-IsGone user tenant scan s row e =
        let dropped = end_answer S h (h.store.delete_pending user tenant scan s) in
        elim (Result-cases (own_pending S h user tenant wallet_family scan s)) [
          | inr (x, o) ↦ absurd (ground (arith, o, e))
          | inl (false, o) ↦ absurd (ground (arith, o, e))
          | inl (true, o) ↦
              let passed = unless_deleted user tenant scan s dropped (ground (arith, o, e)) in
              let (cleared, same) =
                end_deleted (h.store.delete_pending user tenant scan s)
                  (ground (arith, o, e, passed)) in
              let end : (delete_pending_only S h user tenant wallet_family scan s).0
                  ≡ (h.store.delete_pending user tenant scan s).0 =
                ground (arith, o, passed, same) in
              rw (end) (record {
                row = law.rows_kept user tenant scan s row;
                pending = inr (law.pending_gone user tenant scan s cleared);
              })
        ]

    deleted-IsGone :
        (call : Call) (s : S)
        → (delete_wallet_scan S h call s).1 ≡ deleted_answer
        → (scan : ℕ) × (call.scan_id ≡ some scan)
          × ((get_authenticated_user_id call.write_fails call.locals).1 ≡ false)
          × IsGone
              (get_authenticated_user_id call.write_fails call.locals).0
              (trim call.tenant)
              scan
              (delete_wallet_scan S h call s).0
    unfolding delete_wallet_scan
    deleted-IsGone call s e =
        let user = (get_authenticated_user_id call.write_fails call.locals).0 in
        let tenant = trim call.tenant in
        elim (Bool-cases (get_authenticated_user_id call.write_fails call.locals).1) [
          | inl w ↦ absurd (ground (arith, w, e))
          | inr w ↦ elim (Option-cases call.scan_id) [
            | inl a ↦ absurd (ground (arith, w, a, e))
            | inr (scan, a) ↦ elim (Bool-cases h.has_read) [
              | inr r ↦ absurd (respond_not_204 unavailable (ground (arith, w, a, r, e)))
              | inl r ↦ elim (Result-cases (h.store.get_wallet_scan user tenant scan s)) [
                | inr (x, g) ↦ absurd (respond_not_204 x (ground (arith, w, a, r, g, e)))
                | inl (none, g) ↦
                    let end : delete_wallet_scan S h call s
                        ≡ delete_pending_only S h user tenant wallet_family scan s =
                      ground (arith, w, a, r, g) in
                    (scan, a, w, rw (end) (pending-IsGone user tenant scan s g (rw end at e)))
                | inl (some row, g) ↦
                    let steps =
                      delete_row S h (h.store.delete_wallet_scan user tenant scan s)
                        (clear_wallet_pending S h user tenant scan row.address) in
                    let start : delete_wallet_scan S h call s
                        ≡ unless_referenced S h user tenant scan s steps =
                      ground (arith, w, a, r, g) in
                    let end = start ∙ unless_deleted user tenant scan s steps (rw start at e) in
                    (scan, a, w, rw (end) (row-IsGone user tenant scan row.address s (rw end at e)))
              ]
            ]
          ]
        ]

    -- After a wallet deletion that answers 204, the same caller's detail request for that scan answers
    -- 404, whether the scan had a row or only a pending record: it does not come back as requested.
    -- The store is assumed to have deleted what it says it deleted.
    pub get-delete_not_found :
        (call : Call) (s : S)
        → (delete_wallet_scan S h call s).1 ≡ deleted_answer
        → get_wallet_scan S h call (delete_wallet_scan S h call s).0 ≡ scan_not_found
    get-delete_not_found call s e =
        let (scan, a, w, gone) = deleted-IsGone call s e in
        get-IsGone call (delete_wallet_scan S h call s).0 scan a w gone
