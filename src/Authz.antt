-- ===== src/Authz.antt =====
-- The internal scan authorization: internal/authz/scan_authz.go, internal/service/scan_authz.go,
-- internal/handler/scan_authz.go and internal/middleware/internal_service_auth.go. The request
-- passes the middleware, the handler and the service, in that order. Headers are lists of ASCII
-- code points; uuid.Parse is a parameter, and so are the bytes that rand.Read gives.
pub mod RequestId
pub mod Decisions
mod Tests
use cafe_discovery.Base.{
  ℕ, ◌+◌, ◌-◌, ◌/◌, ◌%◌, Bool, true, false, not, ◌&&◌, ◌||◌, Option, none, some, List, [], ◌∷◌,
  ◌++◌, ◌==◌, leb, ltb, if◌then◌else◌, is_nil, Text, codes, text_eq, trim, lower, has_prefix, drop,
  Result, ok, err, guard, ◌>>=◌, ◌>>◌,
}
use cafe_discovery.Ledger.Tables.{WalletRow, TlsRow, Db}

abbrev pub max_request_id_len : ℕ
max_request_id_len = 128

-- The runes that SanitizeRequestID writes.
unfoldable pub is_id_char : ℕ → Bool
is_id_char c =
    leb b'a' c && leb c b'z'
    || leb b'A' c && leb c b'Z'
    || leb b'0' c && leb c b'9'
    || c == b'-'
    || c == b'_'

-- The loop of SanitizeRequestID, with the number of characters written so far.
unfoldable pub sanitize_from : ℕ → Text → Text
sanitize_from n [] = []
sanitize_from n (c ∷ s) =
    let written = if is_id_char c then n + 1 else n in
    let rest = sanitize_from written s in
    let tail = if leb max_request_id_len written then [] else rest in
    if is_id_char c then c ∷ tail else tail

-- SanitizeRequestID
unfoldable pub sanitize_request_id : Text → Text
sanitize_request_id raw = if is_nil raw then [] else sanitize_from 0 raw

unfoldable pub hex_digit : ℕ → ℕ
hex_digit n = if ltb n 10 then b'0' + n else b'a' + (n - 10)

-- hex.EncodeToString
unfoldable pub hex : List ℕ → Text
unfolding hex_digit
hex [] = []
hex (b ∷ bs) = hex_digit (b / 16 % 16) ∷ hex_digit (b % 16) ∷ hex bs

-- generateRequestID, given what rand.Read read into the twelve bytes.
unfoldable pub generate_request_id : Option (List ℕ) → Text
generate_request_id none = codes "req_0000000000000000"
generate_request_id (some bytes) = codes "req_" ++ hex bytes

-- EnsureRequestID
unfoldable pub ensure_request_id : Option (List ℕ) → Text → Text
ensure_request_id random raw =
    let cleaned = sanitize_request_id raw in
    if is_nil cleaned then generate_request_id random else cleaned

pub data Reason : Type 0 where
  reason_allowed reason_forbidden reason_not_visible reason_scan_id_malformed
        reason_principal_required reason_service_auth_required reason_unavailable reason_disabled :
      Reason

pub record Principal : Type 0 where
  pub user_id : Text
  pub tenant_id : Text

pub record Decision : Type 0 where
  pub allowed : Bool
  pub reason : Reason

pub data LookupError : Type 0 where
  wallet_lookup_failed tls_lookup_failed : LookupError

abbrev pub deny : Reason → Result LookupError Decision
deny reason = ok (record { allowed = false; reason = reason })

abbrev pub allow : Result LookupError Decision
allow = ok (record { allowed = true; reason = reason_allowed })

-- Principal.Validate
unfoldable pub valid_principal : Principal → Bool
valid_principal p = not (is_nil (trim p.user_id))

-- FindByID of the two repositories: the first row of that id that is not deleted.
unfoldable pub find_wallet : ℕ → List WalletRow → Option WalletRow
find_wallet id [] = none
find_wallet id (r ∷ rs) =
    let rest = find_wallet id rs in if (r.id == id) && not r.is_deleted then some r else rest

unfoldable pub find_tls : ℕ → List TlsRow → Option TlsRow
find_tls id [] = none
find_tls id (r ∷ rs) =
    let rest = find_tls id rs in if (r.id == id) && not r.is_deleted then some r else rest

-- The part of CanReadScan for a wallet scan that exists.
unfoldable pub decide_wallet : Option ℕ → WalletRow → Result LookupError Decision
decide_wallet none w = deny reason_forbidden
decide_wallet (some user) w = if w.user_id == user then allow else deny reason_forbidden

-- The part of CanReadScan for an endpoint scan that exists.
unfoldable pub decide_owned : Option ℕ → Option ℕ → Result LookupError Decision
decide_owned none user = deny reason_forbidden
decide_owned (some owner) none = deny reason_forbidden
decide_owned (some owner) (some user) = if owner == user then allow else deny reason_forbidden

unfoldable pub decide_tls : Option ℕ → TlsRow → Result LookupError Decision
unfolding decide_owned
decide_tls user t = if t.is_default then allow else decide_owned t.user_id user

pub record Outages : Type 0 where
  pub wallets_down : Bool
  pub endpoints_down : Bool

abbrev present : {A : Type 0} → Option A → Bool
present none = false
present (some a) = true

-- The two lookups of CanReadScan: a wallet scan of that id hides an endpoint scan.
unfoldable pub decide : Outages → Db → Option ℕ → ℕ → Result LookupError Decision
decide out db user id =
    if out.wallets_down then err wallet_lookup_failed else elim (find_wallet id db.wallets) [
      | some w ↦ decide_wallet user w
      | none ↦
          if out.endpoints_down then err tls_lookup_failed else elim (find_tls id db.endpoints) [
            | some t ↦ decide_tls user t
            | none ↦ deny reason_not_visible
          ]
    ]

pub record Request : Type 0 where
  pub authorization : Text
  pub user_header : Text
  pub tenant_header : Text
  pub request_header : Text
  pub scan_param : Text

pub record Response : Type 0 where
  pub status : ℕ
  pub allowed : Bool
  pub reason : Reason
  pub request_id : Text

abbrev pub respond : ℕ → Bool → Reason → Text → Response
respond status allowed reason request_id = record {
  status = status;
  allowed = allowed;
  reason = reason;
  request_id = request_id;
}

-- The end of the handler: the status of a decision.
unfoldable pub respond_decision : Text → Result LookupError Decision → Response
respond_decision rid (err e) = respond 503 false reason_unavailable rid
respond_decision rid (ok d) = if d.allowed then respond 200 true d.reason rid else elim d.reason [
  | reason_scan_id_malformed ↦ respond 400 false d.reason rid
  | reason_principal_required ↦ respond 401 false d.reason rid
  | reason_unavailable ↦ respond 503 false d.reason rid
  | reason_disabled ↦ respond 503 false d.reason rid
  | _ ↦ respond 403 false d.reason rid
]

-- The tests of InternalServiceAuth on the bearer token.
unfoldable pub service_authenticated : Text → Text → Bool
service_authenticated expected_token authorization =
    let header = trim authorization in
    let raw = trim (drop 7 header) in
    let expected = trim expected_token in
    has_prefix (codes "bearer ") (lower header)
    && not (is_nil raw)
    && not (is_nil expected)
    && text_eq raw expected

module _ (parse_uuid : Text → Option ℕ) where
  -- IsValidScanID
  unfoldable pub is_valid_scan_id : Text → Bool
  is_valid_scan_id scan_id =
      let trimmed = trim scan_id in not (is_nil trimmed) && present (parse_uuid trimmed)

  -- parsePrincipalUserID
  abbrev pub parse_principal_user_id : Text → Option ℕ
  parse_principal_user_id raw = parse_uuid (trim raw)

  -- ScanAuthorizationService.CanReadScan
  unfoldable pub can_read_scan : Outages → Db → Principal → Text → Result LookupError Decision
  can_read_scan out db principal scan_id =
      if not (valid_principal principal)
      then deny reason_principal_required
      else if not (is_valid_scan_id scan_id)
      then deny reason_scan_id_malformed
      else elim (parse_uuid (trim scan_id)) [
        | none ↦ deny reason_scan_id_malformed
        | some id ↦ decide out db (parse_principal_user_id principal.user_id) id
      ]

  -- ScanAuthorizationHandler.CanReadScan
  unfoldable pub handle : Bool → Outages → Db → Option (List ℕ) → Request → Response
  handle enabled out db random req =
      let rid = ensure_request_id random req.request_header in
      let user = trim req.user_header in
      let scan_id = trim req.scan_param in
      if not enabled
      then respond 503 false reason_disabled rid
      else if is_nil user
      then respond 401 false reason_principal_required rid
      else if not (is_valid_scan_id scan_id)
      then respond 400 false reason_scan_id_malformed rid
      else respond_decision rid (
          can_read_scan out db (record { user_id = user; tenant_id = trim req.tenant_header })
            scan_id)

  -- InternalServiceAuth before the handler, as the route registers them.
  unfoldable pub serve : Text → Bool → Outages → Db → Option (List ℕ) → Request → Response
  serve expected_token enabled out db random req =
      if service_authenticated expected_token req.authorization
      then handle enabled out db random req
      else respond 401 false reason_service_auth_required
          (ensure_request_id random req.request_header)
