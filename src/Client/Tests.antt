-- ===== src/Client/Tests.antt =====
-- Runs of the client against a service that has one row and whose first replies are lost.
use cafe_discovery.Accept.{signed_in, get_authenticated_user_id}
use cafe_discovery.Scans.{WalletScan, Handler, Call}
use cafe_discovery.Scans.Delete.{delete_wallet_scan as delete_stored_scan}
use cafe_discovery.Results.{Table}
use cafe_discovery.Results.Adapter.{PendingOps, repository_store}
use cafe_discovery.Client.Policies.{PolicyClient, PolicyRequest}
use cafe_discovery.Client.Policies.Confirmed.{Confirmed, checker, delete_wallet-Confirmed}
use cafe_discovery.Base.{
  ℕ, zero, suc, Bool, true, false, ◌≡◌, ◌⊎◌, refl, inr, Option, none, some, [], ◌∷◌, arith, pos,
  Text, codes, trim, trim_left, trim_right, is_space, ok,
}
use cafe_discovery.Client.{
  Server, HttpRequest, Reply, get_method, post_method, delete_method, map_http_error, read_reply,
  do_json_once, attempt, do_json,
}
use cafe_discovery.Client.Wire.{Parsers, WalletRowWire, TlsRowWire}
use cafe_discovery.Client.Rows.{Decoders, get_wallet_scan, delete_wallet_scan}
use cafe_discovery.Client.Service.{IsServer, succeeded}
use cafe_discovery.Client.Refines.{Reads, Deletes, client-refines_row}

record Service : Type 0 where
  row : Option Text
  lost : ℕ

abbrev deliver : ℕ → Reply → Option Reply
deliver zero p = some p
deliver (suc n) p = none

abbrev fewer : ℕ → ℕ
fewer zero = zero
fewer (suc n) = n

abbrev row_reply : Option Text → Reply
row_reply none = record { status = 404; body = [] }
row_reply (some body) = record { status = 200; body = body }

abbrev deleted_reply : Option Text → Reply
deleted_reply none = record { status = 404; body = [] }
deleted_reply (some body) = record { status = 204; body = [] }

abbrev answer : HttpRequest → Service → Service × Option Reply
answer req s = elim req.method [
  | get_method ↦ (record s { lost = fewer s.lost }, deliver s.lost (row_reply s.row))
  | delete_method ↦
      (record { row = none; lost = fewer s.lost }, deliver s.lost (deleted_reply s.row))
  | post_method ↦ (s, none)
]

abbrev server : Server Service
server = record { send = answer }

abbrev row_in : ℕ → ℕ → Service → Option Text
row_in user scan s = s.row

found_reply :
    (lost : ℕ) (o : Option Text) (p : Reply)
    → deliver lost (row_reply o) ≡ some p
    → succeeded p.status ≡ true
    → o ≡ some p.body
found_reply (suc n) o p h s = absurd (ground (arith, h))
found_reply zero none p h s =
    let same : 404 ≡ p.status = ground (arith, h) in absurd (ground (arith, same, s))
found_reply zero (some body) p h s = ground (arith, h)

missing_reply :
    (lost : ℕ) (o : Option Text) (p : Reply)
    → deliver lost (row_reply o) ≡ some p
    → p.status ≡ 404
    → o ≡ none
missing_reply (suc n) o p h s = absurd (ground (arith, h))
missing_reply zero none p h s = refl
missing_reply zero (some body) p h s =
    let same : 200 ≡ p.status = ground (arith, h) in absurd (ground (arith, same, s))

server-IsServer : IsServer Service server row_in
server-IsServer = record {
  get_keeps = λ user tenant scan r. refl;
  get_found = λ user tenant scan r p h s. found_reply r.lost r.row p h s;
  get_missing = λ user tenant scan r p h s. missing_reply r.lost r.row p h s;
  delete_effect = λ user tenant scan r. inr refl;
  delete_done = λ user tenant scan r p h s. refl;
}

abbrev real_row : WalletRowWire ℕ
real_row = record {
  id = codes "9";
  user_id = codes "7";
  address = codes "0xa";
  type = codes "EOA";
  algorithm = [];
  nist_level = pos 1;
  key_exposed = true;
  public_key = [];
  transaction_hash = [];
  exposed_network = [];
  public_key_recovery = [];
  is_eoa = true;
  is_erc4337 = false;
  risk_score = 0;
  networks = [];
  delegations = [];
  connections = [];
  status = codes "SUCCESS";
  error = [];
  scanned_at = [];
  created_at = [];
  updated_at = [];
}

abbrev tls_row : TlsRowWire ℕ
tls_row = record {
  id = codes "9";
  user_id = [];
  url = [];
  host = [];
  port = pos 443;
  protocol_version = [];
  nist_level = pos 1;
  risk_score = 0;
  pqc_risk = [];
  kex_algorithm = [];
  kex_pqc_ready = false;
  pqc_mode = [];
  pfs = true;
  alpn = [];
  ocsp_stapled = false;
  curve = [];
  certificate = [];
  cipher_suites = [];
  supported_pqcs = [];
  recommendations = [];
  nist_levels = [];
  is_default = false;
  status = [];
  error = [];
  created_at = [];
  updated_at = [];
}

abbrev parsers : Parsers
parsers = record {
  parse_uuid = λ s. some 9;
  parse_rfc3339_nano = λ s. some 1;
  parse_rfc3339 = λ s. some 1;
}

abbrev decoders : Decoders ℕ
decoders = record {
  wallet_row = λ s. some real_row;
  tls_row = λ s. some tls_row;
  wallet_list = λ s. none;
  tls_list = λ s. none;
  no_wallet_row = real_row;
  no_tls_row = tls_row;
}

abbrev start : Service
start = record { row = some (codes "{}"); lost = 1 }

-- The reply to the first deletion is lost, the second finds no row, and the caller hears that there was
-- none.
deletion_retried :
    delete_wallet_scan Service server 7 [] 9 start ≡ (record { row = none; lost = 0 }, ok false)
unfolding delete_wallet_scan do_json attempt do_json_once read_reply map_http_error trim trim_left
    trim_right is_space
deletion_retried = refl

client-refines_row_example :
    (Reads Service server row_in server-IsServer ℕ parsers decoders
        (get_wallet_scan Service server ℕ parsers decoders 7 [] 9 start).1
        (some (codes "{}"))
      × ((get_wallet_scan Service server ℕ parsers decoders 7 [] 9 start).0.row
          ≡ some (codes "{}")))
    × Deletes Service server row_in server-IsServer ℕ parsers decoders
        (delete_wallet_scan Service server 7 [] 9 start).1
        (some (codes "{}"))
        (delete_wallet_scan Service server 7 [] 9 start).0.row
client-refines_row_example =
    client-refines_row Service server row_in server-IsServer ℕ parsers decoders 7 [] 9 start

-- A checker whose service answers that no policy refers to a scan, in a handler over the table of one scan.
abbrev policies_client : PolicyClient
policies_client = record { base_url = codes "http://p"; token = codes "t" }

abbrev not_referenced : PolicyRequest → Option Reply
not_referenced req = some (record { status = 200; body = codes "{}" })

abbrev says_no : Text → Option Bool
says_no body = some false

abbrev no_pending : PendingOps (Unit {0})
no_pending = record {
  get = λ user tenant scan p. ok none;
  delete = λ user tenant scan p. (p, ok tt);
  delete_reservation = λ user tenant address scan p. p;
}

abbrev Stored : Type 0
Stored = Table WalletScan × Unit {0}

abbrev checked_handler : Handler Stored
checked_handler = record {
  store = repository_store (λ json. none) none (λ q. false) no_pending;
  has_read = true;
  has_pending = true;
  policies = some (checker not_referenced says_no policies_client);
}

abbrev deletion : Call
deletion = record { locals = signed_in 7; write_fails = false; tenant = []; scan_id = some 9 }

abbrev one_scan : Stored
one_scan = (
  record {
    entity = record {
      id = 9;
      user_id = 7;
      address = codes "0xa";
      networks = [];
      status = "SUCCESS";
      created_at = 5;
    };
    is_deleted = false;
  }
      ∷ [],
  tt,
)

delete_wallet-Confirmed_example :
    ((delete_stored_scan Stored checked_handler deletion one_scan).0 ≡ one_scan)
    ⊎ ((scan : ℕ) × (some 9 ≡ some scan)
        × Confirmed not_referenced says_no policies_client
            (get_authenticated_user_id false (signed_in 7)).0
            (trim [])
            scan)
delete_wallet-Confirmed_example =
    delete_wallet-Confirmed not_referenced says_no policies_client Stored checked_handler deletion
      one_scan refl
