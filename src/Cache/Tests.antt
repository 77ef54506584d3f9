-- ===== src/Cache/Tests.antt =====
-- Runs of the TLS cache: a numbered result, two scans of one URL, and the start with two endpoints.
use cafe_discovery.Base.{
  ℕ, ◌+◌, Bool, true, false, not, ◌≡◌, refl, inl, Option, none, some, List, [], ◌∷◌, arith, select,
  map, all_of, Text, codes, text_eq, has_prefix, if◌then◌else◌, pos, ok, order_by, place, String,
}
use cafe_discovery.Client.Wire.{TlsEntity}
use cafe_discovery.Results.{Table, find_by_user_id, window}
use cafe_discovery.Results.{Faults as RepositoryFaults}
use cafe_discovery.Observation.Tls.{Decoders, no_certificate, TlsScanResult, to_tls_scan_result}
use cafe_discovery.Cache.{
  Entry, Command, tls_scan_ttl, default_user_id, get_user_key, save_at, save_by_user_id_and_url,
  find_by_user_id_and_url, list_urls_by_user_id, keys_with, merge_urls,
  list_urls_by_user_id_or_default,
}
use cafe_discovery.Cache.RoundTrip.{find-save}
use cafe_discovery.Cache.Warm.{max_items_for_warm_or_read_through, tls_row, warm_for_user}
use cafe_discovery.Cache.Oldest.{no_older, ReadsBack, warm-oldest}
use cafe_discovery.Cache.Startup.{
  DefaultEndpoint, ScanRequest, Tick, is_present, initialize_default_endpoints,
}
use cafe_discovery.Cache.Startup.Requests.{is_seen, initialize_lem}

-- A number, and its JSON of one character.
abbrev json : ℕ → Option Text
json n = some (n ∷ [])

abbrev from_json : Text → Option ℕ
from_json [] = none
from_json (n ∷ s) = some n

abbrev no_faults : Command → Text → Bool
no_faults c key = false

abbrev site : Text
site = codes "https://a.io"

abbrev stored : List Entry
stored =
    (record { key = get_user_key (codes "7") site; value = 5 ∷ []; expires = 10 + tls_scan_ttl })
    ∷ []

find-save_example :
    (find_by_user_id_and_url ℕ json from_json no_faults 20 (codes "7") site stored ≡ ok 5)
    × (find_by_user_id_and_url ℕ json from_json no_faults 20 (codes "8") site stored
        ≡ find_by_user_id_and_url ℕ json from_json no_faults 20 (codes "8") site [])
unfolding save_by_user_id_and_url save_at
find-save_example =
    find-save ℕ json from_json no_faults 10 20 (codes "7") site (codes "8") site (5 ∷ []) 5 []
      stored refl refl refl (omega arith) refl (inl (λ e. absurd (ground (arith, e)))) refl

abbrev listed : List Entry
listed =
    (record { key = get_user_key (codes "7") site; value = 5 ∷ []; expires = 90 })
    ∷ (record { key = get_user_key default_user_id (codes "b"); value = 6 ∷ []; expires = 90 })
    ∷ []

-- The user's URL first, and then the default.
merged_urls :
    list_urls_by_user_id_or_default ℕ json from_json no_faults 20 (codes "7") listed
    ≡ ok (site ∷ codes "b" ∷ [])
unfolding list_urls_by_user_id_or_default list_urls_by_user_id merge_urls keys_with get_user_key
    has_prefix text_eq
merged_urls = refl

abbrev decoders : Decoders
decoders = record {
  certificate = λ t. no_certificate;
  cipher_suites = λ t. [];
  strings = λ t. [];
  levels = λ t k. none;
}

abbrev scan : ℕ → String → ℕ → TlsEntity ℕ
scan id host created_at = record {
  id = id;
  user_id = some 7;
  url = site;
  host = codes host;
  port = pos 443;
  protocol_version = [];
  nist_level = pos 1;
  risk_score = 1;
  pqc_risk = [];
  kex_algorithm = [];
  kex_pqc_ready = false;
  pqc_mode = [];
  pfs = false;
  alpn = [];
  ocsp_stapled = false;
  curve = [];
  certificate = [];
  cipher_suites = [];
  supported_pqcs = [];
  recommendations = [];
  nist_levels = [];
  is_default = false;
  status = codes "SUCCESS";
  error = [];
  created_at = created_at;
  updated_at = created_at;
}

abbrev old_scan : TlsEntity ℕ
old_scan = scan 1 "o" 10

abbrev new_scan : TlsEntity ℕ
new_scan = scan 2 "n" 20

abbrev table : Table (TlsEntity ℕ)
table =
    (record { entity = old_scan; is_deleted = false })
    ∷ (record { entity = new_scan; is_deleted = false })
    ∷ []

abbrev host_json : TlsScanResult ℕ → Option Text
host_json r = some r.host

abbrev from_host_json : Text → Option (TlsScanResult ℕ)
from_host_json t =
    if text_eq t (codes "o")
    then some (to_tls_scan_result ℕ decoders old_scan)
    else some (to_tls_scan_result ℕ decoders new_scan)

abbrev healthy_table : RepositoryFaults
healthy_table q = false

reads_back : ReadsBack ℕ host_json from_host_json no_faults decoders (new_scan ∷ old_scan ∷ [])
unfolding to_tls_scan_result text_eq
reads_back = ((codes "n", refl, refl), ((codes "o", refl, refl), tt))

two_rows :
    find_by_user_id
      (tls_row ℕ)
      healthy_table
      (λ e. e.id)
      7
      (pos max_items_for_warm_or_read_through)
      (pos 0)
      table
    ≡ ok (new_scan ∷ old_scan ∷ [])
unfolding find_by_user_id window order_by place
two_rows = refl

warm-oldest_example :
    (e : TlsEntity ℕ) × (text_eq e.url site ≡ true)
    × (all_of (no_older ℕ site e) (new_scan ∷ old_scan ∷ []) ≡ true)
    × (find_by_user_id_and_url
          (TlsScanResult ℕ)
          host_json
          from_host_json
          no_faults
          40
          (codes "7")
          site
          (warm_for_user ℕ host_json from_host_json no_faults decoders healthy_table
            (λ e. e.id)
            30
            7
            (codes "7")
            table
            []).0
        ≡ ok (to_tls_scan_result ℕ decoders e))
unfolding text_eq
warm-oldest_example =
    warm-oldest ℕ host_json from_host_json no_faults decoders (λ c key. refl) healthy_table
      (λ e. e.id) 30 40 7 (codes "7") site table (new_scan ∷ old_scan ∷ []) [] two_rows refl
      (omega arith) reads_back

abbrev endpoints : List DefaultEndpoint
endpoints =
    (record { url = site; is_default = true })
    ∷ (record { url = codes "b"; is_default = true })
    ∷ []

abbrev ticks : List Tick
ticks = (record { now = 30; entries = [] }) ∷ (record { now = 40; entries = listed }) ∷ []

abbrev accepts_all : Text → Bool
accepts_all url = true

abbrev missing : List Text
missing =
    select (λ u. not (is_present ℕ json from_json no_faults accepts_all (λ n. n) 20 [] u))
      (map (λ (ep : DefaultEndpoint). ep.url) endpoints)

initialize_lem_example :
    (map
        (λ (r : ScanRequest). r.endpoint)
        (initialize_default_endpoints ℕ json from_json no_faults accepts_all
          (λ n. n)
          endpoints
          20
          []
          ticks).0
      ≡ select accepts_all missing)
    × ((initialize_default_endpoints ℕ json from_json no_faults accepts_all
          (λ n. n)
          endpoints
          20
          []
          ticks).1
        ≡ select
            (λ u. not (is_seen ℕ json from_json no_faults accepts_all (λ n. n) ticks u))
            missing)
initialize_lem_example =
    initialize_lem ℕ json from_json no_faults accepts_all (λ n. n) endpoints 20 [] ticks missing
      refl
