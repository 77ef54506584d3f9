-- ===== src/Presence/Heartbeat.antt =====
-- handleHeartbeat of internal/service/scanner_presence.go and the lookup of HasScanner: the key of a scanner
-- type in Redis, which is absent when it is not configured. The decoding of a heartbeat is a
-- parameter: a heartbeat is its timestamp, and none is an error of the decoder.
use cafe_discovery.Base.{
  ℕ, ◌+◌, ◌*◌, Bool, true, false, not, ◌&&◌, ◌||◌, String, Option, none, some, List, [], ◌∷◌, ◌++◌,
  ◌≡◌, refl, arith, ltb, if◌then◌else◌, is_nil, Text, codes, text_eq, text_eq_iff,
}
use cafe_discovery.Cache.{Entry, redis_set, redis_get, redis_del}
use cafe_discovery.Presence.{Tracker, of_type, has_scanner}

-- Twenty seconds, in nanoseconds.
abbrev pub scanner_heartbeat_ttl : ℕ
scanner_heartbeat_ttl = 20 * 1_000_000_000

abbrev pub last_seen_key : String → Text
last_seen_key kind = codes "scanner:" ++ (codes kind ++ codes ":last_seen")

-- handleHeartbeat: the failure of SET is dropped.
unfoldable pub handle_heartbeat :
    Bool → ℕ → String → Option Text → Option (List Entry) → Option (List Entry)
handle_heartbeat set_fails now kind none redis = redis
handle_heartbeat set_fails now kind (some timestamp) none = none
handle_heartbeat set_fails now kind (some timestamp) (some s) = some (
    if set_fails
    then s
    else redis_set (now + scanner_heartbeat_ttl) (last_seen_key kind) timestamp s)

abbrev is_held : Option Text → Bool
is_held none = false
is_held (some value) = true

-- The GET of HasScanner.
unfoldable pub heartbeat_seen : Bool → ℕ → String → Option (List Entry) → Option Bool
heartbeat_seen get_fails now typ none = none
heartbeat_seen get_fails now typ (some s) =
    some (not get_fails && is_held (redis_get now (last_seen_key typ) s))

text_eq_refl : (s : Text) → text_eq s s ≡ true
text_eq_refl s = (text_eq_iff s s).1 refl

get-del : (now : ℕ) (key : Text) (s : List Entry) → redis_get now key (redis_del key s) ≡ none
get-del now key [] = refl
get-del now key (e ∷ s) = ground (arith, get-del now key s)

get-set :
    (now expires : ℕ) (key value : Text) (s : List Entry)
    → is_held (redis_get now key (redis_set expires key value s)) ≡ ltb now expires
get-set now expires key value s = ground (arith, text_eq_refl key, get-del now key s)

-- Where Redis takes the heartbeat of a type and answers, HasScanner says that a scanner of the type is
-- up exactly if less than twenty seconds have gone by since, or the tracker still lists a scanner
-- of the type, which has announced itself and neither left nor, for a wallet scanner, been swept
-- for its silence.
pub has_scanner-handle_heartbeat :
    (t : Tracker) (s : List Entry) (at now : ℕ) (typ : String) (timestamp : Text)
    → has_scanner
        (heartbeat_seen false now typ (handle_heartbeat false at typ (some timestamp) (some s)))
        t
        typ
      ≡ (ltb now (at + scanner_heartbeat_ttl) || not (is_nil (of_type t typ)))
unfolding has_scanner heartbeat_seen handle_heartbeat
has_scanner-handle_heartbeat t s at now typ timestamp =
    ground (arith, get-set now (at + scanner_heartbeat_ttl) (last_seen_key typ) timestamp s)
