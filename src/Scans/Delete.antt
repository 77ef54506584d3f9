-- ===== src/Scans/Delete.antt =====
-- internal/handler/discovery_v1_scans.go: the deletion of a scan. A deletion that fails or finds
-- nothing may still have changed the store, so every step gives the state after it.
use cafe_discovery.Base.{
  ℕ, Bool, false, not, none, some, is_nil, trim, if◌then◌else◌, Text, Result, ok, err,
}
use cafe_discovery.Accept.{Family, wallet_family, tls_family, get_authenticated_user_id}
use cafe_discovery.Scans.{
  StoreError, unavailable, Handler, Call, no_content, invalid_request, policy_check_unavailable,
  referenced_by_policy, Answer, reply, write_error, require_authenticated_user_id,
  respond_store_error, scan_not_found, is_own,
}

abbrev pub policies_unknown : Answer
policies_unknown = reply 503 policy_check_unavailable

abbrev pub referenced : Answer
referenced = reply 409 referenced_by_policy

abbrev pub deleted_answer : Answer
deleted_answer = reply 204 no_content

module _ (S : Type 0) (h : Handler S) where
  -- clearPendingV1ScanCorrelation of DiscoveryHandler and of TLSHandler.
  unfoldable pub clear_wallet_pending : ℕ → Text → ℕ → Text → S → S × Result StoreError (Unit {0})
  clear_wallet_pending user tenant scan address s =
      if not h.has_pending
      then (s, ok tt)
      else let (s', cleared) = h.store.delete_pending user tenant scan s in
        elim cleared [
          | err e ↦ (s', err e)
          | ok _ ↦
              if is_nil (trim address)
              then (s', ok tt)
              else (h.store.delete_reservation user tenant (trim address) scan s', ok tt)
        ]

  unfoldable pub clear_tls_pending : ℕ → Text → ℕ → S → S × Result StoreError (Unit {0})
  clear_tls_pending user tenant scan s =
      if not h.has_pending then (s, ok tt) else h.store.delete_pending user tenant scan s

  -- What becomes of the answer where the pending record is dropped last.
  abbrev pub end_answer : S × Result StoreError (Unit {0}) → S × Answer
  end_answer (s, ok _) = (s, deleted_answer)
  end_answer (s, err e) = (s, policies_unknown)

  -- The lookup of a pending record that the deletion makes where it has no row.
  unfoldable pub own_pending : ℕ → Text → Family → ℕ → S → Result StoreError Bool
  own_pending user tenant family scan s =
      if not h.has_pending then ok false else elim (h.store.get_pending user tenant scan s) [
        | err e ↦ err e
        | ok none ↦ ok false
        | ok (some rec) ↦ ok (is_own user family rec)
      ]

  -- The check of the policies before a deletion.
  unfoldable pub unless_referenced : ℕ → Text → ℕ → S → S × Answer → S × Answer
  unless_referenced user tenant scan s delete = elim h.policies [
    | none ↦ (s, policies_unknown)
    | some refers ↦ elim (refers user tenant scan) [
      | none ↦ (s, policies_unknown)
      | some ref ↦ if ref then (s, referenced) else delete
    ]
  ]

  -- The end of both handlers, for a row.
  unfoldable pub delete_row :
      S × Result StoreError Bool → (S → S × Result StoreError (Unit {0})) → S × Answer
  delete_row (s, err e) clear = (s, respond_store_error e)
  delete_row (s, ok deleted) clear = if deleted then end_answer (clear s) else (s, scan_not_found)

  -- The end of both handlers, for a pending record without a row.
  unfoldable pub delete_pending_only : ℕ → Text → Family → ℕ → S → S × Answer
  delete_pending_only user tenant family scan s = elim (own_pending user tenant family scan s) [
    | err e ↦ (s, policies_unknown)
    | ok own ↦
        if own
        then unless_referenced user tenant scan s
            (end_answer (h.store.delete_pending user tenant scan s))
        else (s, scan_not_found)
  ]

  -- DeleteDiscoveryV1WalletScan
  unfoldable pub delete_wallet_scan : Call → S → S × Answer
  delete_wallet_scan call s =
      let (user, unwritten) = get_authenticated_user_id call.write_fails call.locals in
      let tenant = trim call.tenant in
      if unwritten then (s, write_error) else elim call.scan_id [
        | none ↦ (s, reply 400 invalid_request)
        | some scan ↦
            if not h.has_read
            then (s, respond_store_error unavailable)
            else elim (h.store.get_wallet_scan user tenant scan s) [
              | err e ↦ (s, respond_store_error e)
              | ok none ↦ delete_pending_only user tenant wallet_family scan s
              | ok (some row) ↦ unless_referenced user tenant scan s (
                  delete_row (h.store.delete_wallet_scan user tenant scan s)
                    (clear_wallet_pending user tenant scan row.address))
            ]
      ]

  -- DeleteDiscoveryV1TLSScan
  unfoldable pub delete_tls_scan : Call → S → S × Answer
  delete_tls_scan call s =
      let (user, unwritten) = require_authenticated_user_id call.write_fails call.locals in
      let tenant = trim call.tenant in
      if unwritten then (s, write_error) else elim call.scan_id [
        | none ↦ (s, reply 400 invalid_request)
        | some scan ↦
            if not h.has_read
            then (s, respond_store_error unavailable)
            else elim (h.store.get_tls_scan user tenant scan s) [
              | err e ↦ (s, respond_store_error e)
              | ok none ↦ delete_pending_only user tenant tls_family scan s
              | ok (some row) ↦
                  if row.is_default
                  then delete_pending_only user tenant tls_family scan s
                  else unless_referenced user tenant scan s (
                      delete_row (h.store.delete_tls_scan user tenant scan s)
                        (clear_tls_pending user tenant scan))
            ]
      ]
