-- ===== src/Abandon/Tests.antt =====
-- Runs of internal/service/scan_request_abandon.go: scan 9 is open, and missing since instant 10.
use cafe_discovery.Base.{
  ℕ, ◌≤◌, ◌≡◌, true, false, map, Option, none, some, lookup, insert, drop_keys, text_eq, refl, [],
  ◌∷◌, List, arith, pos, Text, codes,
}
use cafe_discovery.Accept.{wallet_family, PendingRecord}
use cafe_discovery.Lifecycle.{Contracts}
use cafe_discovery.Scan.{kind_tls}
use cafe_discovery.Ledger.Queries.{OpenReservation}
use cafe_discovery.Abandon.{Abandoner, new_abandoner, due, visit, visit_all, mark_sent}
use cafe_discovery.Accept.{stored, unacknowledged}
use cafe_discovery.Abandon.Publish.{
  PendingGet, Broker, core_nats, failed_event, publish, publish_abandoned_scan, publish_rows,
  scan_ids_from_payloads, publish_missing,
}
use cafe_discovery.Abandon.Publish.AcknowledgedOnce.{
  Round, run_rounds, count_acknowledged, is_quiet, run_rounds-once,
}
use cafe_discovery.Abandon.Publish.Warranted.{Added, Warranted, publish_missing-Warranted}

abbrev abandoner : Abandoner
abandoner = record { grace = 120; missing_since = (9, 10) ∷ (8, 20) ∷ []; sent = 8 ∷ [] }

abbrev rows : List OpenReservation
rows =
    (record { scan_id = 9; user_id = 7; scan_kind = "wallet"; consumed_at = 1 })
    ∷ (record { scan_id = 8; user_id = 7; scan_kind = "wallet"; consumed_at = 2 })
    ∷ []

-- An identifier's text is the one code point of its number.
abbrev text_id : ℕ → Text
text_id n = n ∷ []

abbrev id_of : Text → Option ℕ
id_of [] = none
id_of (n ∷ s) = some n

abbrev contracts : Contracts
contracts = record {
  subject_started = "s";
  subject_completed = "c";
  subject_failed = "f";
  decode_started = λ t. none;
  decode_completed = λ t. none;
  decode_failed = λ t. none;
  parse_uuid = id_of;
}

abbrev pending_wallet : PendingRecord
pending_wallet = record {
  scan_id = 9;
  user_id = 7;
  family = wallet_family;
  target = codes "0xabcdefabcdefabcdefabcdefabcdefabcdefabcd";
  created_at = 1;
}

abbrev get_pending : PendingGet
get_pending = some (λ user scan. some (some pending_wallet))

-- A broker that acknowledges every publication, and one that loses every acknowledgement.
abbrev acknowledges : Broker
acknowledges transport event log = stored

abbrev loses : Broker
loses transport event log = unacknowledged

abbrev round_at : ℕ → List OpenReservation → Broker → Round
round_at now found broker = record {
  now = now;
  payloads = some [];
  open_rows = some found;
  pending = get_pending;
  broker = broker;
}

abbrev rounds : List Round
rounds =
    round_at 10 rows acknowledges
    ∷ round_at 90 rows acknowledges
    ∷ round_at 200 rows loses
    ∷ round_at 400 rows acknowledges
    ∷ []

run_rounds-once_example :
    (count_acknowledged text_id 9 (run_rounds text_id id_of rounds (new_abandoner (pos 120)) []).1
      ≤ 1)
    × (is_quiet text_id 9 (run_rounds text_id id_of rounds (new_abandoner (pos 120)) []).1 ≡ true)
run_rounds-once_example =
    run_rounds-once text_id id_of (λ n. refl) id_of (pos 120) 9 rounds
      (refl, (refl, (refl, (refl, tt))))

publish_missing-Warranted_example :
    Added
      (Warranted text_id contracts
        (codes "S")
        3
        (λ n. refl)
        get_pending
        acknowledges
        abandoner
        200
        rows
        (scan_ids_from_payloads id_of []))
      []
      (publish_missing text_id get_pending acknowledges id_of 200
        (some [])
        (some rows)
        abandoner
        []).0.1
publish_missing-Warranted_example =
    publish_missing-Warranted text_id contracts (codes "S") 3 (λ n. refl) get_pending acknowledges
      id_of 200 [] rows abandoner [] (omega arith)

abbrev endpoint_rows : List OpenReservation
endpoint_rows = (record { scan_id = 3; user_id = 7; scan_kind = "endpoint"; consumed_at = 1 }) ∷ []

-- An endpoint scan that stays missing is published on the round after its grace period, and again
-- where its acknowledgement was lost, until one comes.
published_once :
    (run_rounds text_id id_of
      (round_at 10 endpoint_rows acknowledges
        ∷ round_at 200 endpoint_rows loses
        ∷ round_at 400 endpoint_rows acknowledges
        ∷ round_at 600 endpoint_rows acknowledges
        ∷ [])
      (new_abandoner (pos 120))
      []).1
    ≡ map
        (λ came. record {
          transport = core_nats;
          event =
              failed_event text_id get_pending acknowledges
                (record { scan_id = 3; user_id = 7; scan_kind = "endpoint"; consumed_at = 1 })
                kind_tls
                [];
          acknowledged = came;
        })
        (true ∷ false ∷ [])
unfolding run_rounds new_abandoner publish_missing publish_rows due visit_all visit
    scan_ids_from_payloads lookup insert drop_keys publish_abandoned_scan publish mark_sent text_eq
published_once = refl
