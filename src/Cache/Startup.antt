-- ===== src/Cache/Startup.antt =====
-- internal/service/default_endpoints.go, and the waits of internal/service/startup.go. A tick is what the poll
-- sees in Redis, at its instant; the ticks end at the deadline. The identifiers of uuid.New are a
-- sequence, and which publications JetStream accepts is a parameter. The pauses are left out.
pub mod Requests
use cafe_discovery.Base.{
  ℕ, ◌+◌, ◌*◌, Bool, true, false, not, ◌&&◌, ◌≡◌, refl, sym, ap, ◌∙◌, inl, inr, Option, none, some,
  List, [], ◌∷◌, arith, if◌then◌else◌, is_nil, select, any_of, map, Text, codes, String, ℤ,
  is_positive, pos_part, Result, ok, err, Bool-cases, Result-cases,
}
use cafe_discovery.Presence.{Tracker, has_scanner}
use cafe_discovery.Cache.{Entry, Command, default_user_id, find_by_user_id_and_url}

pub record DefaultEndpoint : Type 0 where
  pub url : Text
  pub is_default : Bool

abbrev endpoint : String → DefaultEndpoint
endpoint url = record { url = codes url; is_default = true }

-- DefaultEndpoints, without their comments.
abbrev pub default_endpoints : List DefaultEndpoint
default_endpoints =
    endpoint "https://nginx"
    ∷ endpoint "https://test.openquantumsafe.org"
    ∷ endpoint "https://test.openquantumsafe.org:6001"
    ∷ endpoint "https://test.openquantumsafe.org:6002"
    ∷ endpoint "https://test.openquantumsafe.org:6003"
    ∷ endpoint "https://pq.cloudflareresearch.com"
    ∷ endpoint "https://rpc.ankr.com/eth"
    ∷ endpoint "https://arb1.arbitrum.io/rpc"
    ∷ endpoint "https://mainnet.optimism.io"
    ∷ endpoint "https://mainnet.base.org"
    ∷ endpoint "https://zkevm-rpc.com"
    ∷ endpoint "https://rpc.linea.build"
    ∷ endpoint "https://rpc.scroll.io"
    ∷ endpoint "https://rpc.mantlenetwork.io"
    ∷ endpoint "https://rpc.taiko.xyz"
    ∷ endpoint "https://rpc.blast.io"
    ∷ endpoint "https://mainnet.mode.network"
    ∷ endpoint "https://polygon-rpc.com"
    ∷ endpoint "https://lineascan.build"
    ∷ endpoint "https://goerli.lineascan.build"
    ∷ []

-- requestv1.TLS, of the nil user.
pub record ScanRequest : Type 0 where
  pub scan_id : ℕ
  pub endpoint : Text
  pub is_default : Bool

pub record Tick : Type 0 where
  pub now : ℕ
  pub entries : List Entry

module _ (R : Type 0) (marshal : R → Option Text) (unmarshal : Text → Option R)
    (faults : Command → Text → Bool) (accepts : Text → Bool) (new_uuid : ℕ → ℕ) where
  -- `err == nil` of the lookup.
  abbrev pub is_present : ℕ → List Entry → Text → Bool
  is_present now s url =
      elim (find_by_user_id_and_url R marshal unmarshal faults now default_user_id url s) [
        | ok r ↦ true
        | err e ↦ false
      ]

  -- The first loop of InitializeDefaultEndpointsSync.
  unfoldable pub to_request : ℕ → List Entry → List DefaultEndpoint → List Text
  to_request now s [] = []
  to_request now s (ep ∷ eps) =
      let rest = to_request now s eps in if is_present now s ep.url then rest else ep.url ∷ rest

  -- The second loop: a publication that fails is logged.
  unfoldable pub request_all : ℕ → List Text → List ScanRequest
  request_all n [] = []
  request_all n (url ∷ urls) =
      let rest = request_all (n + 1) urls in
      if accepts url
      then record { scan_id = new_uuid n; endpoint = url; is_default = true } ∷ rest
      else rest

  -- The poll: the URLs that are still missing.
  unfoldable pub poll : List Tick → List Text → List Text
  poll [] remaining = remaining
  poll (t ∷ ticks) remaining =
      let rest = poll ticks (select (λ u. not (is_present t.now t.entries u)) remaining) in
      if is_nil remaining then remaining else rest

  -- InitializeDefaultEndpointsSync: what it published, and what is missing when it returns.
  unfoldable pub initialize_default_endpoints :
      List DefaultEndpoint → ℕ → List Entry → List Tick → List ScanRequest × List Text
  initialize_default_endpoints eps now s ticks =
      let urls = to_request now s eps in
      if is_nil urls then ([], []) else (request_all 0 urls, poll ticks urls)

-- The outcome of a wait: ready, or the context's error at the timeout.
pub data WaitError : Type 0 where
  context_done subscribe_failed : WaitError

-- `timeout <= 0`: the default, in nanoseconds.
unfoldable pub wait_timeout : ℕ → ℤ → ℕ
wait_timeout default timeout = if is_positive timeout then pos_part timeout else default

-- WaitForScanners, over what the tracker shows at each look until the timeout.
unfoldable pub wait_for_scanners :
    List (Option Bool × Option Bool × Tracker) → Result WaitError (Unit {0})
wait_for_scanners [] = err context_done
wait_for_scanners ((tls_in_redis, wallet_in_redis, t) ∷ looks) =
    let rest = wait_for_scanners looks in
    if has_scanner tls_in_redis t "tls" && has_scanner wallet_in_redis t "wallet"
    then ok tt
    else rest

-- WaitForPersistence, over the messages until the timeout, given signalv1.Decode; none where the
-- subscription fails.
unfoldable pub wait_for_persistence :
    (Text → Bool) → Option (List Text) → Result WaitError (Unit {0})
wait_for_persistence decodes none = err subscribe_failed
wait_for_persistence decodes (some messages) =
    if any_of decodes messages then ok tt else err context_done
