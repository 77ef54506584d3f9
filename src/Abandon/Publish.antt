-- ===== src/Abandon/Publish.antt =====
-- publishMissing and what it calls in internal/service/scan_request_abandon.go. The text of an
-- identifier (uuid.String), the decoder of a queued message's scan_id, the pending store and the
-- broker's answer to a publication are parameters. Publications are listed the newest first.
pub mod Warranted
pub mod AcknowledgedOnce
use cafe_discovery.Base.{
  ℕ, Bool, true, false, String, Option, none, some, List, [], ◌∷◌, ◌==◌, str_eq, if◌then◌else◌,
  is_nil, Text, codes, Result, ok, err,
}
use cafe_discovery.Address.{validate_and_normalize_address}
use cafe_discovery.Scan.{kind_wallet, kind_tls}
use cafe_discovery.Accept.{
  Family, wallet_family, tls_family, PendingRecord, BrokerAnswer, stored, unacknowledged,
  not_stored,
}
use cafe_discovery.Ledger.Queries.{OpenReservation, kind_endpoint}
use cafe_discovery.Lifecycle.{Failed}
use cafe_discovery.Abandon.{Abandoner, due, mark_sent}

abbrev pub scan_request_left_queue : Text
scan_request_left_queue = codes "scan request left the queue without a result"

-- Core NATS, or JetStream with its acknowledgement.
pub data Transport : Type 0 where
  core_nats jet_stream : Transport

-- A message that the broker has, and whether its acknowledgement came: it may be lost.
pub record Publication : Type 0 where
  pub transport : Transport
  pub event : Failed
  pub acknowledged : Bool

-- The broker's answer to a message, after the publications that it has.
abbrev pub Broker : Type 0
Broker = Transport → Failed → List Publication → BrokerAnswer

pub data AbandonError : Type 0 where
  queue_unreadable ledger_unreadable publish_failed pending_store_unavailable pending_unreadable
        pending_wallet_address_missing wallet_address_invalid :
      AbandonError

-- The pending store's Get, as it is called without a tenant: none when it fails, and the store
-- itself is none when it is not configured.
abbrev pub PendingGet : Type 0
PendingGet = Option (ℕ → ℕ → Option (Option PendingRecord))

abbrev pub record_address : PendingRecord → Text
record_address rec = elim rec.family [ wallet_family ↦ rec.target | tls_family ↦ [] ]

unfoldable pub wallet_address_of : Option PendingRecord → Result AbandonError Text
wallet_address_of none = err pending_wallet_address_missing
wallet_address_of (some rec) =
    if is_nil (record_address rec)
    then err pending_wallet_address_missing
    else elim (validate_and_normalize_address (record_address rec)) [
      | ok normalized ↦ ok normalized
      | err e ↦ err wallet_address_invalid
    ]

-- abandonedWalletAddress
unfoldable pub abandoned_wallet_address : PendingGet → OpenReservation → Result AbandonError Text
abandoned_wallet_address none row = err pending_store_unavailable
abandoned_wallet_address (some get) row = elim (get row.user_id row.scan_id) [
  | none ↦ err pending_unreadable
  | some rec ↦ wallet_address_of rec
]

-- scanIDsFromPayloads
unfoldable pub scan_ids_from_payloads : (Text → Option ℕ) → List Text → List ℕ
scan_ids_from_payloads decode [] = []
scan_ids_from_payloads decode (payload ∷ payloads) =
    let rest = scan_ids_from_payloads decode payloads in
    elim (decode payload) [ none ↦ rest | some id ↦ if id == 0 then rest else id ∷ rest ]

module _ (uuid_string : ℕ → Text) (pending : PendingGet) (broker : Broker) where
  abbrev pub failed_event : OpenReservation → String → Text → Failed
  failed_event row kind address = record {
    kind = kind;
    scan_id = uuid_string row.scan_id;
    user_id = uuid_string row.user_id;
    address = address;
    error = scan_request_left_queue;
  }

  -- nats.PublishJSON and nats.PublishJSONJetStream, and `err == nil, err`. A message whose
  -- acknowledgement is lost is stored, and the publication fails.
  abbrev pub answered :
      Transport
      → Failed
      → List Publication
      → BrokerAnswer
      → List Publication × Result AbandonError Bool
  answered transport event published stored =
      (record { transport = transport; event = event; acknowledged = true } ∷ published, ok true)
  answered transport event published unacknowledged = (
    record { transport = transport; event = event; acknowledged = false } ∷ published,
    err publish_failed,
  )
  answered transport event published not_stored = (published, err publish_failed)

  unfoldable pub publish :
      Transport → Failed → List Publication → List Publication × Result AbandonError Bool
  publish transport event published =
      answered transport event published (broker transport event published)

  -- publishAbandonedScan
  unfoldable pub publish_abandoned_scan :
      OpenReservation → List Publication → List Publication × Result AbandonError Bool
  publish_abandoned_scan row published =
      if str_eq row.scan_kind kind_endpoint
      then publish core_nats (failed_event row kind_tls []) published
      else elim (abandoned_wallet_address pending row) [
        | err e ↦ (published, ok false)
        | ok normalized ↦ publish jet_stream (failed_event row kind_wallet normalized) published
      ]

  -- The loop of publishMissing over the rows that are due.
  unfoldable pub publish_rows :
      List OpenReservation
      → Abandoner
      → List Publication
      → (Abandoner × List Publication) × Result AbandonError (Unit {0})
  publish_rows [] a published = ((a, published), ok tt)
  publish_rows (row ∷ rows) a published =
      let (published', answer) = publish_abandoned_scan row published in
      let on_sent = publish_rows rows (mark_sent row.scan_id a) published' in
      let on_skip = publish_rows rows a published' in
      elim answer [ err e ↦ ((a, published'), err e) | ok sent ↦ if sent then on_sent else on_skip ]

  -- publishMissing, at an instant, with what the work queue and the ledger answered.
  unfoldable pub publish_missing :
      (Text → Option ℕ)
      → ℕ
      → Option (List Text)
      → Option (List OpenReservation)
      → Abandoner
      → List Publication
      → (Abandoner × List Publication) × Result AbandonError (Unit {0})
  publish_missing decode_scan_id now none open_rows a published =
      ((a, published), err queue_unreadable)
  publish_missing decode_scan_id now (some payloads) none a published =
      ((a, published), err ledger_unreadable)
  publish_missing decode_scan_id now (some payloads) (some rows) a published =
      let (a', found) = due a now rows (scan_ids_from_payloads decode_scan_id payloads) in
      publish_rows found a' published
