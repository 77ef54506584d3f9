-- ===== src/Abandon/Publish/Warranted.antt =====
-- Every publication of a round is for a row that is due, and that of a wallet scan releases its quota.
use cafe_discovery.Base.{
  ℕ, suc, ◌≤◌, Bool, true, false, ◌≡◌, refl, inl, inr, Option, none, some, List, [], ◌∷◌, arith,
  str_eq, eq_iff, Text, ok, Result-cases, Option-cases, Bool-cases,
}
use cafe_discovery.Scan.{pending as pending_state, running, failed, kind_tls, kind_wallet}
use cafe_discovery.Accept.{PendingRecord}
use cafe_discovery.Address.{validate_and_normalize_address}
use cafe_discovery.Address.Canonical.{accepted_canonical}
use cafe_discovery.Ledger.Queries.{OpenReservation, kind_endpoint}
use cafe_discovery.Lifecycle.{
  Failed, Contracts, WalletCommand, WalletEventIdentity, quota_release, wallet_identity, command,
  failed_command,
}
use cafe_discovery.Abandon.{Abandoner, due, mark_sent}
use cafe_discovery.Abandon.Once.{AllDue, due-AllDue}
use cafe_discovery.Accept.{BrokerAnswer, stored, unacknowledged, not_stored}
use cafe_discovery.Abandon.Publish.{
  PendingGet, Broker, Transport, answered, scan_request_left_queue, record_address, core_nats,
  jet_stream, Publication, wallet_address_of, abandoned_wallet_address, scan_ids_from_payloads,
  publish, failed_event, publish_abandoned_scan, publish_rows, publish_missing,
}

raw_address :
    (rec : Option PendingRecord) (n : Text)
    → wallet_address_of rec ≡ ok n
    → (raw : Text) × (validate_and_normalize_address raw ≡ ok n)
unfolding wallet_address_of
raw_address none n h = absurd (ground (arith, h))
raw_address (some rec) n h =
    elim (Result-cases (validate_and_normalize_address (record_address rec))) [
      | inl (m, f) ↦ (record_address rec, ground (arith, f, h))
      | inr (x, f) ↦ absurd (ground (arith, f, h))
    ]

address-accepted :
    (pending : PendingGet) (row : OpenReservation) (n : Text)
    → abandoned_wallet_address pending row ≡ ok n
    → validate_and_normalize_address n ≡ ok n
unfolding abandoned_wallet_address
address-accepted none row n h = absurd (ground (arith, h))
address-accepted (some get) row n h = elim (Option-cases (get row.user_id row.scan_id)) [
  | inl e ↦ absurd (ground (arith, e, h))
  | inr (rec, e) ↦
      let (raw, valid) = raw_address rec n (ground (arith, e, h)) in
      (accepted_canonical raw n valid).1
]

-- The publications made on top of older ones, all of one property.
pub data Added (P : Publication → Type 0) (old : List Publication) : List Publication → Type 0 where
  nothing : Added P old old
  published :
      (p : Publication) (log : List Publication) → P p → Added P old log → Added P old (p ∷ log)

Added-trans :
    {P : Publication → Type 0} {old mid : List Publication} (new : List Publication)
    → Added P old mid
    → Added P mid new
    → Added P old new
Added-trans new a nothing = a
Added-trans _ a (published p log h rest) = published p log h (Added-trans log a rest)

module _ (uuid_string : ℕ → Text) (contracts : Contracts) (stream : Text) (sequence : ℕ) where
  -- The publication names the row's scan and user. On core NATS it is that of an endpoint scan; on
  -- JetStream the consumer makes of it a command that releases the quota of the row's scan.
  abbrev pub IsFor : OpenReservation → Publication → Type 0
  IsFor row p =
      (p.event.scan_id ≡ uuid_string row.scan_id)
      × (p.event.user_id ≡ uuid_string row.user_id)
      × (elim p.transport [
        | core_nats ↦ (row.scan_kind ≡ kind_endpoint) × (p.event.kind ≡ kind_tls)
        | jet_stream ↦
            (cmd : WalletCommand) × (failed_command contracts p.event stream sequence ≡ ok cmd)
            × (cmd.scan_id ≡ row.scan_id)
            × (cmd.user_id ≡ row.user_id)
            × (cmd.quota_action ≡ quota_release)
      ])

  module _ (parse-uuid_string : (n : ℕ) → contracts.parse_uuid (uuid_string n) ≡ some n)
      (pending : PendingGet) (broker : Broker) where
    wallet-IsFor :
        (row : OpenReservation) (n : Text) (acknowledged : Bool)
        → validate_and_normalize_address n ≡ ok n
        → IsFor row (record {
          transport = jet_stream;
          event = failed_event uuid_string pending broker row kind_wallet n;
          acknowledged = acknowledged;
        })
    unfolding failed_command wallet_identity command
    wallet-IsFor row n acknowledged h =
        let id : WalletEventIdentity = record {
          scan_id = row.scan_id;
          user_id = row.user_id;
          address = n;
        } in
        let cmd =
          command contracts id stream sequence (pending_state ∷ running ∷ []) failed
            quota_release in
        let failing = record cmd { error = scan_request_left_queue } in
        let built : failed_command contracts
              (failed_event uuid_string pending broker row kind_wallet n) stream sequence
            ≡ ok failing =
          rw (parse-uuid_string row.scan_id, parse-uuid_string row.user_id, h) refl in
        (refl, refl, (failing, built, refl, refl, refl))

    answered-Added :
        (P : Publication → Type 0) (transport : Transport) (event : Failed) (log : List Publication)
        (answer : BrokerAnswer)
        → ((b : Bool) → P (record { transport = transport; event = event; acknowledged = b }))
        → Added P log (answered uuid_string pending broker transport event log answer).0
    answered-Added P transport event log stored h = published _ log (h true) nothing
    answered-Added P transport event log unacknowledged h = published _ log (h false) nothing
    answered-Added P transport event log not_stored h = nothing

    publish-Added :
        (P : Publication → Type 0) (transport : Transport) (event : Failed) (log : List Publication)
        → ((b : Bool) → P (record { transport = transport; event = event; acknowledged = b }))
        → Added P log (publish uuid_string pending broker transport event log).0
    unfolding publish
    publish-Added P transport event log h =
        answered-Added P transport event log (broker transport event log) h

    abandoned-Added :
        (P : Publication → Type 0) (row : OpenReservation) (log : List Publication)
        → ((p : Publication) → IsFor row p → P p)
        → Added P log (publish_abandoned_scan uuid_string pending broker row log).0
    unfolding publish_abandoned_scan
    abandoned-Added P row log h = elim (Bool-cases (str_eq row.scan_kind kind_endpoint)) [
      | inl e ↦
          let endpoint = (eq_iff row.scan_kind kind_endpoint).0 e in
          rw (e) (
            publish-Added P core_nats (failed_event uuid_string pending broker row kind_tls []) log
              (λ b. h _ (refl, refl, (endpoint, refl))))
      | inr e ↦ elim (Result-cases (abandoned_wallet_address pending row)) [
        | inl (n, f) ↦
            let valid = address-accepted pending row n f in
            rw (e, f)
              (publish-Added P jet_stream
                (failed_event uuid_string pending broker row kind_wallet n) log
                (λ b. h _ (wallet-IsFor row n b valid)))
        | inr (x, f) ↦ rw (e, f) nothing
      ]
    ]

    -- What a round may publish: a report for a row that is due in it.
    abbrev pub Warranted : Abandoner → ℕ → List OpenReservation → List ℕ → Publication → Type 0
    Warranted a now rows queued p =
        (row : OpenReservation) × AllDue a now rows queued (row ∷ []) × IsFor row p

    rows-Added :
        (a : Abandoner) (now : ℕ) (rows : List OpenReservation) (queued : List ℕ)
        (found : List OpenReservation) (b : Abandoner) (log : List Publication)
        → AllDue a now rows queued found
        → Added
            (Warranted a now rows queued)
            log
            (publish_rows uuid_string pending broker found b log).0.1
    unfolding publish_rows
    rows-Added a now rows queued [] b log d = nothing
    rows-Added a now rows queued (row ∷ found) b log d =
        let p = publish_abandoned_scan uuid_string pending broker row log in
        let first =
          abandoned-Added (Warranted a now rows queued) row log (λ q h. (row, (d.0, tt), h)) in
        elim (Result-cases p.1) [
          | inr (x, e) ↦ rw (e, publish_rows) first
          | inl (true, e) ↦
              rw (e, publish_rows)
                (Added-trans _ first
                  (rows-Added a now rows queued found (mark_sent row.scan_id b) p.0 d.1))
          | inl (false, e) ↦
              rw (e, publish_rows)
                (Added-trans _ first (rows-Added a now rows queued found b p.0 d.1))
        ]

    -- With a grace period of at least one nanosecond, each message that a round hands to the broker,
    -- acknowledged or not, names a row of the open ones that was not reported before, is not in the work queue and has been missing for
    -- the grace period. One on core NATS is for an endpoint scan; of one on JetStream the consumer
    -- of lifecycle events makes a command that releases the quota of that row's scan.
    pub publish_missing-Warranted :
        (decode_scan_id : Text → Option ℕ) (now : ℕ) (payloads : List Text)
        (rows : List OpenReservation) (a : Abandoner) (log : List Publication)
        → suc 0 ≤ a.grace
        → Added
            (Warranted a now rows (scan_ids_from_payloads decode_scan_id payloads))
            log
            (publish_missing uuid_string pending broker decode_scan_id now
              (some payloads)
              (some rows)
              a
              log).0.1
    unfolding publish_missing
    publish_missing-Warranted decode_scan_id now payloads rows a log g =
        let queued = scan_ids_from_payloads decode_scan_id payloads in
        rows-Added a now rows queued (due a now rows queued).1 (due a now rows queued).0 log
          (due-AllDue a now rows queued g)
