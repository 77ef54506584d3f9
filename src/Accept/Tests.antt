-- ===== src/Accept/Tests.antt =====
-- Runs of POST /discovery/v1/scan: user 7 asks for a TLS scan, with a pending store that keeps every
-- record, and user 0 stands for a request without a user.
use cafe_discovery.Base.{
  false, true, ◌≡◌, ◌⊎◌, ◌&&◌, ◌==◌, refl, none, some, List, [], ◌∷◌, ◌++◌, Text, codes, has_prefix,
}
use cafe_discovery.Ledger.Queries.{load_scan_quota_snapshot}
use cafe_discovery.Ledger.Reserve.{refusal, record_success_usage, reserve_scan_usage}
use cafe_discovery.Plan.{
  is_unlimited, get_user_plan, scan_usage_kind_for_plan_limit_key, limit_for,
  usage_from_reservation, plan_parallel_scan_cap, reserve_post_scan_quota,
}
use cafe_discovery.Plan.Tests.{repos, no_faults, stamp, empty}
use cafe_discovery.Accept.{
  Family, tls_family, scan_type_of, status_left, stored, unacknowledged, PendingRecord, absent,
  signed_in, Call, accepted, prepare_tls_scan_queue, reserve_scan_quota, get_authenticated_user_id,
}
use cafe_discovery.Accept.Post.{
  PendingStore, State, Handler, queue_scan, post_tls, post_discovery_scan,
}
use cafe_discovery.Accept.Paths.{is_accepted, Requested, message}
use cafe_discovery.Accept.Outcome.{caller, Charged, accepted-queued, refused-unchanged}
use cafe_discovery.Accept.Anonymous.{is_unauthorised, post_discovery_scan-401}

-- The records kept, the newest first.
abbrev pub Kept : Type 0
Kept = List PendingRecord

abbrev pub store : PendingStore Kept
store = record {
  put_tls = λ user tenant r kept. some (r ∷ kept);
  reserve_wallet = λ user tenant r kept. some (true, r ∷ kept);
  get_wallet = λ user tenant address kept. some none;
  delete = λ user tenant scan kept. kept;
  delete_wallet_reservation = λ user tenant address scan kept. kept;
}

abbrev pub handler : Handler Kept
handler = record {
  plans = some repos;
  presence = none;
  store = store;
  rows = none;
  policies = none;
  parse_url = λ s. some (record { host = codes "a.org"; hostname = codes "a.org" });
}

abbrev pub request : Call
request = record {
  body_bound = true;
  locals = signed_in 7;
  write_fails = false;
  tenant = [];
  address = [];
  url = codes "https://a.org";
  scan_id = 9;
  now = 5;
  stamp = stamp;
  faults = no_faults;
  publication = stored;
}

abbrev broken : Call
broken = record request { publication = unacknowledged }

abbrev nobody : Call
nobody = record request { locals = absent }

abbrev pub start : State Kept
start = record { ledger = some empty; pending = []; stream = [] }

pub post_accepted : is_accepted (post_discovery_scan Kept handler request start).1 ≡ true
unfolding post_discovery_scan post_tls prepare_tls_scan_queue get_authenticated_user_id has_prefix
    queue_scan reserve_scan_quota reserve_post_scan_quota scan_usage_kind_for_plan_limit_key
    get_user_plan limit_for reserve_scan_usage is_unlimited load_scan_quota_snapshot refusal
    record_success_usage usage_from_reservation plan_parallel_scan_cap
post_accepted = refl

post_broken : is_accepted (post_discovery_scan Kept handler broken start).1 ≡ false
unfolding post_discovery_scan post_tls prepare_tls_scan_queue get_authenticated_user_id has_prefix
    queue_scan reserve_scan_quota reserve_post_scan_quota scan_usage_kind_for_plan_limit_key
    get_user_plan limit_for reserve_scan_usage is_unlimited load_scan_quota_snapshot refusal
    record_success_usage usage_from_reservation plan_parallel_scan_cap
post_broken = refl

no_caller : caller Kept nobody ≡ 0
unfolding get_authenticated_user_id
no_caller = refl

accepted-queued_example :
    (family : Family) × (target : Text) × Requested request family target
    × ((post_discovery_scan Kept handler request start).1
        ≡ accepted (status_left request.locals) 9 family)
    × ((post_discovery_scan Kept handler request start).0.stream
        ≡ [] ++ message request (caller Kept request) family target ∷ [])
    × Charged Kept
        (some repos)
        (post_discovery_scan Kept handler request start).0.ledger
        (caller Kept request)
        9
        (scan_type_of family)
accepted-queued_example = accepted-queued Kept handler request start post_accepted

refused-unchanged_example :
    ((post_discovery_scan Kept handler broken start).0.ledger ≡ some empty)
    × (((post_discovery_scan Kept handler broken start).0.stream ≡ [])
        ⊎ ((unacknowledged ≡ unacknowledged)
            × (family : Family) × (target : Text) × Requested broken family target
            × ((post_discovery_scan Kept handler broken start).0.stream
                ≡ [] ++ message broken (caller Kept broken) family target ∷ [])))
refused-unchanged_example = refused-unchanged Kept handler broken start refl refl post_broken

-- No plan service is configured.
abbrev planless : Handler Kept
planless = record handler { plans = none }

post_discovery_scan-401_example :
    (is_unauthorised (post_discovery_scan Kept planless nobody start).1 ≡ (
      is_accepted (post_discovery_scan Kept planless nobody start).1
      && (status_left absent == 401)))
    × ((planless.plans ≡ none)
        ⊎ (is_unauthorised (post_discovery_scan Kept planless nobody start).1 ≡ false))
post_discovery_scan-401_example = post_discovery_scan-401 Kept planless nobody start refl

-- The scan of a request without a user is accepted, with the status 401.
accepted_anonymously :
    (post_discovery_scan Kept planless nobody start).1 ≡ accepted 401 9 tls_family
unfolding post_discovery_scan post_tls prepare_tls_scan_queue get_authenticated_user_id has_prefix
    queue_scan reserve_scan_quota status_left
accepted_anonymously = refl
