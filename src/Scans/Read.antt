-- ===== src/Scans/Read.antt =====
-- internal/handler/discovery_v1_scans.go and discovery_v1_cbom.go: the detail of a scan and its CBOM.
use cafe_discovery.Base.{ℕ, not, none, some, trim, if◌then◌else◌, Text, ok, err}
use cafe_discovery.Scan.{is_success}
use cafe_discovery.Accept.{Family, wallet_family, tls_family, get_authenticated_user_id}
use cafe_discovery.Accept.{status_left}
use cafe_discovery.Scans.{
  Handler, Call, pending_detail, wallet_cbom, tls_cbom, invalid_request, Answer, reply, write_error,
  required_status_left, require_authenticated_user_id, respond_store_error, scan_not_found, is_own,
  wallet_scan_detail, tls_scan_detail,
}

module _ (S : Type 0) (h : Handler S) where
  -- The end of the detail handlers, where there is no row.
  unfoldable pub pending_answer : ℕ → ℕ → Text → Family → ℕ → S → Answer
  pending_answer status user tenant family scan s =
      if not h.has_pending then scan_not_found else elim (h.store.get_pending user tenant scan s) [
        | err e ↦ respond_store_error e
        | ok none ↦ scan_not_found
        | ok (some rec) ↦
            if is_own user family rec
            then reply status (pending_detail rec.scan_id)
            else scan_not_found
      ]

  -- The end of the CBOM handlers, where there is no row: a failed lookup or a 404.
  unfoldable pub no_cbom : ℕ → Text → ℕ → S → Answer
  no_cbom user tenant scan s =
      if not h.has_pending then scan_not_found else elim (h.store.get_pending user tenant scan s) [
        | err e ↦ respond_store_error e
        | ok _ ↦ scan_not_found
      ]

  -- GetDiscoveryV1WalletScan
  unfoldable pub get_wallet_scan : Call → S → Answer
  get_wallet_scan call s =
      let (user, unwritten) = get_authenticated_user_id call.write_fails call.locals in
      if unwritten then write_error else elim call.scan_id [
        | none ↦ reply 400 invalid_request
        | some scan ↦
            if not h.has_read
            then pending_answer (status_left call.locals) user (trim call.tenant) wallet_family scan
                s
            else elim (h.store.get_wallet_scan user (trim call.tenant) scan s) [
              | err e ↦ respond_store_error e
              | ok (some e) ↦ reply (status_left call.locals) (wallet_scan_detail e)
              | ok none ↦
                  pending_answer (status_left call.locals) user (trim call.tenant) wallet_family
                    scan s
            ]
      ]

  -- GetDiscoveryV1TLSScan
  unfoldable pub get_tls_scan : Call → S → Answer
  get_tls_scan call s =
      let (user, unwritten) = require_authenticated_user_id call.write_fails call.locals in
      if unwritten then write_error else elim call.scan_id [
        | none ↦ reply 400 invalid_request
        | some scan ↦
            if not h.has_read
            then pending_answer (required_status_left call.locals) user (trim call.tenant)
                tls_family scan s
            else elim (h.store.get_tls_scan user (trim call.tenant) scan s) [
              | err e ↦ respond_store_error e
              | ok (some e) ↦ reply (required_status_left call.locals) (tls_scan_detail e)
              | ok none ↦
                  pending_answer (required_status_left call.locals) user (trim call.tenant)
                    tls_family scan s
            ]
      ]

  -- GetDiscoveryV1WalletScanCBOM
  unfoldable pub get_wallet_scan_cbom : Call → S → Answer
  get_wallet_scan_cbom call s =
      let (user, unwritten) = get_authenticated_user_id call.write_fails call.locals in
      if unwritten then write_error else elim call.scan_id [
        | none ↦ reply 400 invalid_request
        | some scan ↦
            if not h.has_read
            then no_cbom user (trim call.tenant) scan s
            else elim (h.store.get_wallet_scan user (trim call.tenant) scan s) [
              | err e ↦ respond_store_error e
              | ok (some e) ↦
                  if is_success e.status
                  then reply (status_left call.locals) (wallet_cbom e)
                  else scan_not_found
              | ok none ↦ no_cbom user (trim call.tenant) scan s
            ]
      ]

  -- GetDiscoveryV1TLSScanCBOM
  unfoldable pub get_tls_scan_cbom : Call → S → Answer
  get_tls_scan_cbom call s =
      let (user, unwritten) = require_authenticated_user_id call.write_fails call.locals in
      if unwritten then write_error else elim call.scan_id [
        | none ↦ reply 400 invalid_request
        | some scan ↦
            if not h.has_read
            then no_cbom user (trim call.tenant) scan s
            else elim (h.store.get_tls_scan user (trim call.tenant) scan s) [
              | err e ↦ respond_store_error e
              | ok (some e) ↦
                  if is_success e.status
                  then reply (required_status_left call.locals) (tls_cbom e)
                  else scan_not_found
              | ok none ↦ no_cbom user (trim call.tenant) scan s
            ]
      ]
