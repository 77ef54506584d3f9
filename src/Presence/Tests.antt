-- ===== src/Presence/Tests.antt =====
-- Runs of internal/service/scanner_presence.go: wallet scanner 3 joins at 10 and is swept at 40.
use cafe_discovery.Base.{
  ◌+◌, ◌||◌, false, not, is_nil, [], codes, ltb, true, ◌≡◌, ◌≢◌, ◌↔◌, ◌⊎◌, refl, some, ℤ, pos,
  arith, eq_iff, lookup, insert,
}
use cafe_discovery.Presence.{
  unknown, joined, PresenceMessage, Tracker, new_tracker, tracked_scanner_type, apply_wallet,
  handle_message, expire_silent_wallets, has_scanner, list_scanners, common_indexer,
  onchain_indexer, of_type,
}
use cafe_discovery.Presence.Living.{Agree, Changes, here, next, message, sweep, changes-Agree}
use cafe_discovery.Presence.Heartbeat.{
  scanner_heartbeat_ttl, handle_heartbeat, heartbeat_seen, has_scanner-handle_heartbeat,
}
use cafe_discovery.Presence.Listing.{lists, has_scanner-lists}

abbrev arrival : PresenceMessage
arrival = record {
  scanner_type = "wallet";
  event = joined;
  scanner_id = 3;
  announced_indexer = "alchemy";
}

abbrev window : ℤ
window = pos 75

abbrev arrived : Tracker
arrived = handle_message 10 (some arrival) (new_tracker window)

abbrev arrived_changes : Changes (new_tracker window) arrived
arrived_changes = next here (message 10 (some arrival))

changes-Agree_example : Agree (expire_silent_wallets 40 arrived)
changes-Agree_example =
    changes-Agree window (expire_silent_wallets 40 arrived) (next arrived_changes (sweep 40))

arrived-Agree : Agree arrived
arrived-Agree = changes-Agree window arrived arrived_changes

has_scanner-lists_example :
    (has_scanner (some true) (new_tracker window) "wallet" ≡ true)
    ↔ ((some true ≡ some true) ⊎ (lists "wallet" (list_scanners (new_tracker window)) ≡ true))
has_scanner-lists_example = has_scanner-lists (some true) (new_tracker window) "wallet"

arrived_indexer : onchain_indexer arrived ≡ "alchemy"
unfolding onchain_indexer common_indexer handle_message tracked_scanner_type apply_wallet
    new_tracker lookup insert
arrived_indexer = refl

known_indexer : "alchemy" ≢ unknown
known_indexer h = ground (arith, (eq_iff "alchemy" unknown).1 h)

has_scanner-handle_heartbeat_example :
    has_scanner
      (heartbeat_seen false 50 "wallet"
        (handle_heartbeat false 10 "wallet" (some (codes "now")) (some [])))
      (new_tracker window)
      "wallet"
    ≡ (ltb 50 (10 + scanner_heartbeat_ttl) || not (is_nil (of_type (new_tracker window) "wallet")))
has_scanner-handle_heartbeat_example =
    has_scanner-handle_heartbeat (new_tracker window) [] 10 50 "wallet" (codes "now")
