-- ===== src/Client.antt =====
-- internal/persistence/scanhttp/client.go: the HTTP client of cafe-persistence. The service and the
-- network between are parameters: `Server` says how a request changes the service's state and what
-- comes back, with none where the transport fails, which it may before or after the change. A URL is
-- given by its route and parameters, and encoding/json by a decoder for each body.
pub mod Wire
pub mod Rows
pub mod Pending
pub mod Retry
pub mod Refines
pub mod Service
pub mod Policies
mod Tests
use cafe_discovery.Base.{
  ℕ, zero, suc, Bool, true, false, not, ◌&&◌, ◌||◌, Option, none, some, List, ltb, leb, ◌==◌,
  is_nil, trim, Text, if◌then◌else◌, Result, ok, err,
}
use cafe_discovery.Results.{take}
use cafe_discovery.Scans.{WalletQuery}

pub data Method : Type 0 where
  get_method post_method delete_method : Method

-- The routes of internal/scan/v1 with their parameters.
pub data Route : Type 0 where
  wallet_scans : WalletQuery → Route
  wallet_scan : ℕ → Route
  tls_scans : Option ℕ → Option ℕ → Route
  tls_scans_defaults : Route
  tls_scan : ℕ → Route
  pending_tls pending_wallet : Route
  pending_wallet_of : Text → Option ℕ → Route
  pending_scan : ℕ → Route
  wallet_scan_transition : ℕ → Route

pub record HttpRequest : Type 0 where
  pub method : Method
  pub route : Route
  pub user : ℕ
  pub tenant : Option Text
  pub body : Text

pub record Reply : Type 0 where
  pub status : ℕ
  pub body : Text

pub record Server (R : Type 0) : Type 0 where
  pub send : HttpRequest → R → R × Option Reply

-- scanread.ErrUnavailable, errNotFound, errConflict, the error of mapHTTPError, and the errors of the
-- conversions of a row.
pub data ClientError : Type 0 where
  unavailable not_found conflict bad_row : ClientError
  request_failed : ℕ → ClientError

-- mapHTTPError
unfoldable pub map_http_error : ℕ → ClientError
map_http_error status =
    if status == 404
    then not_found
    else if status == 409
    then conflict
    else if (status == 503) || leb 500 status
    then unavailable
    else if (status == 401) || (status == 400)
    then unavailable
    else request_failed status

abbrev pub is_unavailable : ClientError → Bool
is_unavailable unavailable = true
is_unavailable _ = false

abbrev pub tenant_value : Text → Option Text
tenant_value tenant = if is_nil (trim tenant) then none else some (trim tenant)

abbrev pub http_request : Method → Route → ℕ → Text → Text → HttpRequest
http_request method route user tenant body = record {
  method = method;
  route = route;
  user = user;
  tenant = tenant_value tenant;
  body = body;
}

-- `1 << 20`: the bytes of a reply that doJSONOnce reads.
abbrev pub reply_limit : ℕ
reply_limit = 1_048_576

-- What doJSONOnce makes of a reply, of which it reads the first bytes. An empty body leaves the
-- destination as it was.
unfoldable pub read_reply :
    {A : Type 0} → A → (Text → Option A) → Option Reply → Result ClientError A
read_reply blank read none = err unavailable
read_reply blank read (some r) =
    if leb 200 r.status && ltb r.status 300
    then (if is_nil (take reply_limit r.body)
        then ok blank
        else elim (read (take reply_limit r.body)) [ none ↦ err unavailable | some a ↦ ok a ])
    else err (map_http_error r.status)

module _ (R : Type 0) (server : Server R) where
  -- doJSONOnce
  unfoldable pub do_json_once :
      {A : Type 0} → A → (Text → Option A) → HttpRequest → R → R × Result ClientError A
  do_json_once blank read req r =
      let (r', reply) = server.send req r in (r', read_reply blank read reply)

  -- The loop of doJSON: the attempts that are left, and the last error or nil.
  unfoldable pub attempt :
      {A : Type 0}
      → ℕ
      → Bool
      → A
      → (Text → Option A)
      → HttpRequest
      → Result ClientError A
      → R
      → R × Result ClientError A
  attempt zero idempotent blank read req last r = (r, last)
  attempt (suc n) idempotent blank read req last r =
      let (r', res) = do_json_once blank read req r in
      let again = attempt n idempotent blank read req res r' in
      elim res [
        | ok a ↦ (r', ok a)
        | err e ↦ if not idempotent || not (is_unavailable e) then (r', err e) else again
      ]

  -- doJSON
  unfoldable pub do_json :
      {A : Type 0} → Bool → A → (Text → Option A) → HttpRequest → R → R × Result ClientError A
  do_json idempotent blank read req r =
      attempt (if idempotent then 2 else 1) idempotent blank read req (ok blank) r
