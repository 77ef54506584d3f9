-- ===== src/Accept/Post.antt =====
-- internal/handler/discovery.go: the state of the handler and PostDiscoveryScanV1.
use cafe_discovery.Base.{
  ℕ, Bool, true, not, ◌&&◌, Option, none, some, List, [], ◌∷◌, ◌++◌, if◌then◌else◌, is_nil, Text,
  trim, Result, ok, err, ◌>>◌,
}
use cafe_discovery.Ledger.Tables.{Db}
use cafe_discovery.Plan.{Repositories}
use cafe_discovery.Address.{validate_and_normalize_address}
use cafe_discovery.Accept.{
  Family, PendingRecord, Message, QueueError, Answer, get_authenticated_user_id, status_left,
  stored, unacknowledged, not_stored, Url, Presence, ScanRows, Call, reserve_scan_quota,
  release_quota, scan_type_of, prepare_tls_scan_queue, check_wallet_cpm_context,
  pending_wallet_reservation_state, check_rows, accepted, refused_with, already_written, committed,
  refuse, no_scanner, address_required, address_invalid, pending_unavailable, scan_in_progress,
  both_targets, no_target, invalid_body, queue_failed, wallet_family, tls_family, blocking, stale,
}

module _ (P : Type 0) where
  -- scanpending.Store. `none` is an error.
  pub record PendingStore : Type 0 where
    pub put_tls : ℕ → Text → PendingRecord → P → Option P
    pub reserve_wallet : ℕ → Text → PendingRecord → P → Option (Bool × P)
    pub get_wallet : ℕ → Text → Text → P → Option (Option PendingRecord)
    pub delete : ℕ → Text → ℕ → P → P
    pub delete_wallet_reservation : ℕ → Text → Text → ℕ → P → P

  pub record State : Type 0 where
    pub ledger : Option Db
    pub pending : P
    pub stream : List Message

  -- DiscoveryHandler
  pub record Handler : Type 0 where
    pub plans : Option Repositories
    pub presence : Option Presence
    pub store : PendingStore
    pub rows : Option ScanRows
    pub policies : Option (ℕ → Text → Text → Option ℕ)
    pub parse_url : Text → Option Url

  -- checkWalletScanInFlight: the pending store after it, and the refusal if there is one.
  unfoldable pub check_wallet_scan_in_flight :
      Handler → ℕ → Text → Text → P → P × Result QueueError (Unit {0})
  check_wallet_scan_in_flight h user tenant address p =
      elim (h.store.get_wallet user tenant address p) [
        | none ↦ (p, err (refuse 503 pending_unavailable))
        | some none ↦ (p, check_rows h.rows user address)
        | some (some rec) ↦ elim (pending_wallet_reservation_state h.rows user address rec) [
          | err e ↦ (p, err e)
          | ok blocking ↦ (p, err (refuse 409 scan_in_progress))
          | ok stale ↦ (
            h.store.delete_wallet_reservation user tenant address rec.scan_id p,
            check_rows h.rows user address,
          )
        ]
      ]

  -- prepareWalletScanQueue
  unfoldable pub prepare_wallet_scan_queue : Handler → Call → P → P × Result QueueError (ℕ × Text)
  prepare_wallet_scan_queue h call p =
      let (user, unwritten) = get_authenticated_user_id call.write_fails call.locals in
      if unwritten
      then (p, err committed)
      else if is_nil call.address
      then (p, err (refuse 400 address_required))
      else if not (elim h.presence [ none ↦ true | some up ↦ up.wallet_up ])
      then (p, err (refuse 503 no_scanner))
      else elim (validate_and_normalize_address call.address) [
        | err e ↦ (p, err (refuse 400 address_invalid))
        | ok normalized ↦
            let (p', free) = check_wallet_scan_in_flight h user (trim call.tenant) normalized p in
            (
              p',
              free
                  >> (check_wallet_cpm_context h.policies user (trim call.tenant) normalized
                      >> ok (user, normalized)),
            )
      ]

  abbrev pub answer_error : QueueError → Answer
  answer_error committed = already_written
  answer_error (refuse status body) = refused_with status body

  -- What follows once the pending store holds the scan: the quota, the publication, the rollbacks.
  unfoldable pub queue_scan : Handler → Call → ℕ → Family → Text → State → State × Answer
  queue_scan h call user family target s =
      let dropped = h.store.delete user (trim call.tenant) call.scan_id s.pending in
      elim (reserve_scan_quota h.plans call s.ledger user (scan_type_of family)) [
        | err e ↦ (record s { pending = dropped }, answer_error e)
        | ok ledger ↦
            let sent : List Message =
              s.stream
              ++ (record {
                scan_id = call.scan_id;
                user_id = user;
                family = family;
                target = target;
              })
                ∷ [] in
            elim call.publication [
              | stored ↦ (
                record s { ledger = ledger; stream = sent },
                accepted (status_left call.locals) call.scan_id family,
              )
              | unacknowledged ↦ (
                record s { ledger = release_quota call ledger; pending = dropped; stream = sent },
                refused_with 500 queue_failed,
              )
              | not_stored ↦ (
                record s { ledger = release_quota call ledger; pending = dropped },
                refused_with 500 queue_failed,
              )
            ]
      ]

  abbrev pub pending_record : Call → ℕ → Family → Text → PendingRecord
  pending_record call user family target = record {
    scan_id = call.scan_id;
    user_id = user;
    family = family;
    target = target;
    created_at = call.now;
  }

  unfoldable pub post_wallet : Handler → Call → State → State × Answer
  post_wallet h call s =
      let (p, prepared) = prepare_wallet_scan_queue h call s.pending in
      let s' = record s { pending = p } in
      elim prepared [
        | err e ↦ (s', answer_error e)
        | ok (user, normalized) ↦
            elim (h.store.reserve_wallet user (trim call.tenant)
              (pending_record call user wallet_family normalized) p) [
                | none ↦ (s', refused_with 503 pending_unavailable)
                | some (held, p') ↦
                    if held
                    then queue_scan h call user wallet_family normalized (record s { pending = p' })
                    else (record s { pending = p' }, refused_with 409 scan_in_progress)
              ]
      ]

  unfoldable pub post_tls : Handler → Call → State → State × Answer
  post_tls h call s = elim (prepare_tls_scan_queue h.parse_url h.presence call) [
    | err e ↦ (s, answer_error e)
    | ok (user, endpoint) ↦
        elim (h.store.put_tls user (trim call.tenant) (pending_record call user tls_family endpoint)
          s.pending) [
            | none ↦ (s, refused_with 503 pending_unavailable)
            | some p ↦ queue_scan h call user tls_family endpoint (record s { pending = p })
          ]
  ]

  -- PostDiscoveryScanV1
  unfoldable pub post_discovery_scan : Handler → Call → State → State × Answer
  post_discovery_scan h call s =
      if not call.body_bound
      then (s, refused_with 400 invalid_body)
      else if not (is_nil call.address) && not (is_nil call.url)
      then (s, refused_with 400 both_targets)
      else if is_nil call.address && is_nil call.url
      then (s, refused_with 400 no_target)
      else if not (is_nil call.address)
      then post_wallet h call s
      else post_tls h call s
