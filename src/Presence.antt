-- ===== src/Presence.antt =====
-- internal/service/scanner_presence.go: which scanners are up. A scanner id is a number, a Go map an
-- association list, a set a list, and an instant a number of nanoseconds. Decoding a message is a
-- parameter: a message is what presencev1.Decode gives, and none is its error.
pub mod Living
pub mod Listing
pub mod Indexer
pub mod Heartbeat
pub mod Subscriptions
mod Tests
use cafe_discovery.Base.{
  ℕ, ◌-◌, Bool, true, false, not, ◌&&◌, ◌||◌, String, Option, none, some, List, [], ◌∷◌, ◌++◌, leb,
  ◌==◌, str_eq, if◌then◌else◌, length, select, is_nil, mem, lookup, insert, erase, drop_keys, ℤ,
  is_positive, pos_part,
}

abbrev pub unknown : String
unknown = "unknown"

-- Seventy-five seconds.
abbrev pub wallet_presence_silent_after : ℕ
wallet_presence_silent_after = 75_000_000_000

-- walletPresenceMeta
pub record WalletMeta : Type 0 where
  pub indexer : String
  pub last_seen : ℕ

pub data Event : Type 0 where
  joined left other : Event

pub record PresenceMessage : Type 0 where
  pub scanner_type : String
  pub event : Event
  pub scanner_id : ℕ
  pub announced_indexer : String

-- ScannerPresenceTracker: byType for its two types, and walletMeta.
pub record Tracker : Type 0 where
  pub wallets : List ℕ
  pub tls : List ℕ
  pub wallet_meta : List (ℕ × WalletMeta)
  pub silent_after : ℤ

-- NewScannerPresenceTracker, with the silence window that it sets.
unfoldable pub new_tracker : ℤ → Tracker
new_tracker silent_after = record {
  wallets = [];
  tls = [];
  wallet_meta = [];
  silent_after = silent_after;
}

-- trackedScannerType
unfoldable pub tracked_scanner_type : String → Bool
tracked_scanner_type typ = str_eq typ "wallet" || str_eq typ "tls"

-- A member put into a set, and one deleted.
abbrev pub put : ℕ → List ℕ → List ℕ
put id ids = if mem id ids then ids else id ∷ ids

abbrev pub remove : ℕ → List ℕ → List ℕ
remove id ids = select (λ i. not (i == id)) ids

-- The switch of handleMessage for a wallet and for a TLS scanner.
unfoldable pub apply_wallet : ℕ → PresenceMessage → Event → Tracker → Tracker
apply_wallet now msg joined t = record t {
  wallets = put msg.scanner_id t.wallets;
  wallet_meta =
      insert msg.scanner_id (record { indexer = msg.announced_indexer; last_seen = now })
        t.wallet_meta;
}
apply_wallet now msg left t = record t {
  wallets = remove msg.scanner_id t.wallets;
  wallet_meta = erase msg.scanner_id t.wallet_meta;
}
apply_wallet now msg other t = t

unfoldable pub apply_tls : PresenceMessage → Event → Tracker → Tracker
apply_tls msg joined t = record t { tls = put msg.scanner_id t.tls }
apply_tls msg left t = record t { tls = remove msg.scanner_id t.tls }
apply_tls msg other t = t

-- handleMessage
unfoldable pub handle_message : ℕ → Option PresenceMessage → Tracker → Tracker
handle_message now none t = t
handle_message now (some msg) t =
    if not (tracked_scanner_type msg.scanner_type)
    then t
    else if str_eq msg.scanner_type "wallet"
    then apply_wallet now msg msg.event t
    else apply_tls msg msg.event t

unfoldable pub silence_limit : Tracker → ℕ
silence_limit t =
    if is_positive t.silent_after then pos_part t.silent_after else wallet_presence_silent_after

-- The test of expireSilentWallets on one entry.
unfoldable pub is_silent : ℕ → Tracker → ℕ → Bool
is_silent now t id = elim (lookup id t.wallet_meta) [
  | none ↦ false
  | some meta ↦ not (leb (now - meta.last_seen) (silence_limit t))
]

-- expireSilentWallets
unfoldable pub expire_silent_wallets : ℕ → Tracker → Tracker
expire_silent_wallets now t = record t {
  wallets = select (λ id. not (is_silent now t id)) t.wallets;
  wallet_meta = drop_keys (is_silent now t) t.wallet_meta;
}

abbrev pub of_type : Tracker → String → List ℕ
of_type t typ = if str_eq typ "wallet" then t.wallets else if str_eq typ "tls" then t.tls else []

-- HasScanner. The first argument says whether Redis is configured and holds an unexpired heartbeat.
unfoldable pub has_scanner : Option Bool → Tracker → String → Bool
has_scanner (some true) t typ = true
has_scanner (some false) t typ = not (is_nil (of_type t typ))
has_scanner none t typ = not (is_nil (of_type t typ))

pub record ScannerInfo : Type 0 where
  pub typ : String
  pub count : ℕ
  pub ids : List ℕ

abbrev info_of : String → List ℕ → List ScannerInfo
info_of typ ids =
    if is_nil ids then [] else (record { typ = typ; count = length ids; ids = ids }) ∷ []

-- ListScanners, in one of the orders that Go may give.
unfoldable pub list_scanners : Tracker → List ScannerInfo
list_scanners t = info_of "wallet" t.wallets ++ info_of "tls" t.tls

abbrev agreed : Option String → String → String
agreed none x = x
agreed (some c) x = c

-- The loop of OnchainIndexer, with the common indexer of the instances seen.
unfoldable pub common_indexer : List (ℕ × WalletMeta) → Option String → List ℕ → String
common_indexer metas common [] = agreed common unknown
common_indexer metas common (id ∷ ids) = elim (lookup id metas) [
  | none ↦ unknown
  | some meta ↦
      let first = agreed common meta.indexer in
      let rest = common_indexer metas (some first) ids in
      if str_eq meta.indexer ""
      then unknown
      else if str_eq meta.indexer first
      then rest
      else unknown
]

-- OnchainIndexer
unfoldable pub onchain_indexer : Tracker → String
onchain_indexer t = common_indexer t.wallet_meta none t.wallets
