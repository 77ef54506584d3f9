-- ===== src/Scans/Query.antt =====
-- internal/handler/discovery_v1_scans.go and helpers.go: the lists of scans, from the query of the
-- request to the answer. fiber.Query's reading of an integer parameter is part of the call, with none
-- where the parameter is missing or no integer.
use cafe_discovery.Base.{
  ℕ, Bool, true, false, not, ◌&&◌, ◌||◌, Option, none, some, List, [], ◌∷◌, map, length, is_nil,
  any_of, ltb, ℤ, pos, negsuc, trim, lower, Text, codes, text_eq, if◌then◌else◌, Result, ok, err,
  guard, ◌>>=◌, ◌>>◌,
}
use cafe_discovery.Accept.{wallet_scan_lifecycle_status, Locals, get_authenticated_user_id}
use cafe_discovery.Address.{validate_and_normalize_address}
use cafe_discovery.Chains.{Blockchain, parse_positive, chain_ids_for_networks}
use cafe_discovery.Accept.{status_left}
use cafe_discovery.Scans.{
  WalletScan, TlsScan, unavailable, WalletQuery, Handler, WalletItem, TlsItem, wallet_list,
  tls_list, invalid_request, Answer, reply, write_error, required_status_left,
  require_authenticated_user_id, respond_store_error,
}

-- A request for a list: its user, and the parameters that the handlers read.
pub record ListCall : Type 0 where
  pub locals : Locals
  pub write_fails : Bool
  pub tenant : Text
  pub chain_id : Text
  pub address : Text
  pub latest : Text
  pub limit : Option ℤ
  pub offset : Option ℤ
  pub keys : List Text

-- parsePaginationParams
abbrev clamp_limit : ℤ → ℕ
clamp_limit (negsuc n) = 20
clamp_limit (pos n) = if ltb n 1 then 20 else if ltb 100 n then 100 else n

abbrev clamp_offset : ℤ → ℕ
clamp_offset (negsuc n) = 0
clamp_offset (pos n) = n

unfoldable pub parse_pagination_params : Option ℤ → Option ℤ → ℕ × ℕ
parse_pagination_params limit offset = (
  elim limit [ none ↦ 20 | some n ↦ clamp_limit n ],
  elim offset [ none ↦ 0 | some n ↦ clamp_offset n ],
)

-- strconv.ParseBool
unfoldable pub parse_bool : Text → Option Bool
parse_bool s =
    if any_of (text_eq s)
      (codes "1" ∷ codes "t" ∷ codes "T" ∷ codes "TRUE" ∷ codes "true" ∷ codes "True" ∷ [])
    then some true
    else if any_of (text_eq s)
        (codes "0" ∷ codes "f" ∷ codes "F" ∷ codes "FALSE" ∷ codes "false" ∷ codes "False" ∷ [])
    then some false
    else none

-- parseWalletScansLatestQuery
unfoldable pub parse_wallet_scans_latest_query : Text → Option Bool
parse_wallet_scans_latest_query raw =
    if is_nil (trim raw) then some false else parse_bool (trim raw)

abbrev or_invalid : {A : Type 0} → Option A → Result Answer A
or_invalid none = err (reply 400 invalid_request)
or_invalid (some a) = ok a

-- An optional parameter that is read where it is not blank.
abbrev optional : {A : Type 0} → (Text → Option A) → Text → Option (Option A)
optional read raw =
    if is_nil (trim raw)
    then some none
    else elim (read (trim raw)) [ none ↦ none | some a ↦ some (some a) ]

abbrev pub to_option : {E A : Type 0} → Result E A → Option A
to_option (ok a) = some a
to_option (err e) = none

-- The checks of ListDiscoveryV1WalletScans on the query, up to the query that it sends.
unfoldable pub wallet_query : ListCall → Result Answer WalletQuery
wallet_query call = do
  latest ← or_invalid (parse_wallet_scans_latest_query call.latest)
  guard (not (latest && is_nil (trim call.address))) (reply 400 invalid_request)
  guard (not (not (is_nil (trim call.chain_id)) && is_nil (trim call.address)))
      (reply 400 invalid_request)
  chain ← or_invalid (optional parse_positive call.chain_id)
  address ← or_invalid (optional (λ a. to_option (validate_and_normalize_address a)) call.address)
  let (limit, offset) = parse_pagination_params call.limit call.offset
  ok (record {
    address = address;
    chain_id = chain;
    latest = latest;
    limit = limit;
    offset = offset;
  })

-- discoveryV1TLSForbiddenQueryKeys
unfoldable pub forbidden_query_keys : List Text → Bool
forbidden_query_keys keys =
    any_of
      (λ k.
        text_eq (lower (trim k)) (codes "address") || text_eq (lower (trim k)) (codes "chain_id"))
      keys

-- walletScanListItemV1
unfoldable pub wallet_scan_list_item :
    (Text → Option (List Text)) → Option (List Blockchain) → WalletScan → WalletItem
wallet_scan_list_item unmarshal chains e = record {
  scan_id = e.id;
  created_at = e.created_at;
  status = wallet_scan_lifecycle_status (codes e.status);
  target_address = e.address;
  chain_ids = chain_ids_for_networks unmarshal chains e.networks;
}

-- tlsScanListItemV1; the list of defaults sets is_default, and the other has no such key.
unfoldable pub tls_scan_list_item : Bool → TlsScan → TlsItem
tls_scan_list_item is_default e = record {
  scan_id = e.id;
  endpoint = e.url;
  created_at = e.created_at;
  status = wallet_scan_lifecycle_status (codes e.status);
  is_default = is_default;
}

module _ (S : Type 0) (h : Handler S) where
  -- ListDiscoveryV1WalletScans
  unfoldable pub list_wallet_scans :
      (Text → Option (List Text)) → Option (List Blockchain) → ListCall → S → Answer
  list_wallet_scans unmarshal chains call s =
      let (user, unwritten) = get_authenticated_user_id call.write_fails call.locals in
      if unwritten then write_error else elim (wallet_query call) [
        | err refusal ↦ refusal
        | ok query ↦
            if not h.has_read
            then respond_store_error unavailable
            else elim (h.store.list_wallet_scans user (trim call.tenant) query s) [
              | err e ↦ respond_store_error e
              | ok page ↦ reply (status_left call.locals) (
                  wallet_list (map (wallet_scan_list_item unmarshal chains) page.items) page.total
                    page.limit page.offset)
            ]
      ]

  -- ListDiscoveryV1TLSScans
  unfoldable pub list_tls_scans : ListCall → S → Answer
  list_tls_scans call s =
      let (user, unwritten) = require_authenticated_user_id call.write_fails call.locals in
      let (limit, offset) = parse_pagination_params call.limit call.offset in
      if unwritten
      then write_error
      else if forbidden_query_keys call.keys
      then reply 400 invalid_request
      else if not h.has_read
      then respond_store_error unavailable
      else elim (h.store.list_tls_scans user (trim call.tenant) limit offset s) [
        | err e ↦ respond_store_error e
        | ok (rows, total) ↦
            reply (required_status_left call.locals)
              (tls_list (map (tls_scan_list_item false) rows) total limit offset)
      ]

  -- ListDiscoveryV1TLSDefaultScans
  unfoldable pub list_tls_default_scans : ListCall → S → Answer
  list_tls_default_scans call s =
      let (user, unwritten) = require_authenticated_user_id call.write_fails call.locals in
      if unwritten
      then write_error
      else if not h.has_read
      then respond_store_error unavailable
      else elim (h.store.list_tls_default_scans user (trim call.tenant) s) [
        | err e ↦ respond_store_error e
        | ok rows ↦
            let items = map (tls_scan_list_item true) rows in
            reply (required_status_left call.locals)
              (tls_list items (length items) (length items) 0)
      ]
