-- ===== src/Cache.antt =====
-- internal/repository/redis_tls_scan_repository.go: TLS results in Redis, by token and by user, each under
-- a key with a time to live. Redis is a list of entries; a key that KEYS matches by a pattern with `*`
-- at its end is one with that prefix, since tokens and user ids have no pattern characters. The JSON of
-- a result is a parameter, and so is which commands fail.
pub mod Warm
pub mod Startup
pub mod RoundTrip
pub mod Oldest
pub mod Merged
mod Tests
use cafe_discovery.Base.{
  ℕ, ◌+◌, ◌*◌, Bool, true, false, not, ◌&&◌, Option, none, some, List, [], ◌∷◌, ◌++◌, map, ltb,
  if◌then◌else◌, select, any_of, length, Text, codes, text_eq, has_prefix, drop, Result, ok, err,
  guard, ◌>>=◌, ◌>>◌,
}

pub record Entry : Type 0 where
  pub key : Text
  pub value : Text
  pub expires : ℕ

pub data Command : Type 0 where
  set_command get_command keys_command del_command : Command

pub data CacheError : Type 0 where
  marshal_failed unmarshal_failed redis_nil : CacheError
  redis_failed : Command → CacheError

abbrev pub redis_key_prefix : Text
redis_key_prefix = codes "tls:scan:token:"

abbrev pub tls_user_key_prefix : Text
tls_user_key_prefix = codes "tls:user:"

-- Thirty minutes, in nanoseconds.
abbrev pub tls_scan_ttl : ℕ
tls_scan_ttl = 30 * 60 * 1_000_000_000

-- DefaultUserIDForRedis
abbrev pub default_user_id : Text
default_user_id = codes "00000000-0000-0000-0000-000000000000"

-- SET, GET, DEL and KEYS at an instant.
abbrev pub is_entry : Text → Entry → Bool
is_entry key e = text_eq e.key key

abbrev pub is_fresh : ℕ → Entry → Bool
is_fresh now e = ltb now e.expires

abbrev pub redis_del : Text → List Entry → List Entry
redis_del key = select (λ e. not (is_entry key e))

abbrev pub redis_set : ℕ → Text → Text → List Entry → List Entry
redis_set expires key value s =
    record { key = key; value = value; expires = expires } ∷ redis_del key s

abbrev pub redis_get : ℕ → Text → List Entry → Option Text
redis_get now key [] = none
redis_get now key (e ∷ s) =
    if is_entry key e && is_fresh now e then some e.value else redis_get now key s

abbrev pub redis_keys : ℕ → Text → List Entry → List Text
redis_keys now prefix s =
    map (λ e. e.key) (select (λ e. is_fresh now e && has_prefix prefix e.key) s)

-- getKey and getUserKey
unfoldable pub get_key : Text → Text → Text
get_key token url = redis_key_prefix ++ (token ++ (codes ":" ++ url))

unfoldable pub get_user_key : Text → Text → Text
get_user_key user url = tls_user_key_prefix ++ (user ++ (codes ":" ++ url))

module _ (R : Type 0) (marshal : R → Option Text) (unmarshal : Text → Option R)
    (faults : Command → Text → Bool) where
  abbrev or_error : {A : Type 0} → CacheError → Option A → Result CacheError A
  or_error e none = err e
  or_error e (some a) = ok a

  -- Save and SaveByUserIDAndURL, for their key.
  unfoldable pub save_at : ℕ → Text → R → List Entry → Result CacheError (List Entry)
  save_at now key result s = or_error marshal_failed (marshal result) >>= λ value.
      guard (not (faults set_command key)) (redis_failed set_command)
      >> ok (redis_set (now + tls_scan_ttl) key value s)

  -- FindByURL and FindByUserIDAndURL, for their key.
  unfoldable pub find_at : ℕ → Text → List Entry → Result CacheError R
  find_at now key s =
      guard (not (faults get_command key)) (redis_failed get_command)
      >> (or_error redis_nil (redis_get now key s) >>= λ value.
          or_error unmarshal_failed (unmarshal value))

  -- Delete and DeleteByUserIDAndURL, for their key.
  unfoldable pub delete_at : Text → List Entry → Result CacheError (List Entry)
  delete_at key s =
      guard (not (faults del_command key)) (redis_failed del_command) >> ok (redis_del key s)

  unfoldable pub save : ℕ → Text → Text → R → List Entry → Result CacheError (List Entry)
  save now token url = save_at now (get_key token url)

  unfoldable pub find_by_url : ℕ → Text → Text → List Entry → Result CacheError R
  find_by_url now token url = find_at now (get_key token url)

  unfoldable pub delete : Text → Text → List Entry → Result CacheError (List Entry)
  delete token url = delete_at (get_key token url)

  unfoldable pub save_by_user_id_and_url :
      ℕ → Text → Text → R → List Entry → Result CacheError (List Entry)
  save_by_user_id_and_url now user url = save_at now (get_user_key user url)

  unfoldable pub find_by_user_id_and_url : ℕ → Text → Text → List Entry → Result CacheError R
  find_by_user_id_and_url now user url = find_at now (get_user_key user url)

  unfoldable pub delete_by_user_id_and_url :
      Text → Text → List Entry → Result CacheError (List Entry)
  delete_by_user_id_and_url user url = delete_at (get_user_key user url)

  -- The loop of ListAll, which skips what it cannot read.
  unfoldable pub read_all : ℕ → List Text → List Entry → List R
  read_all now [] s = []
  read_all now (key ∷ keys) s =
      let rest = read_all now keys s in
      elim (find_at now key s) [ ok result ↦ result ∷ rest | err e ↦ rest ]

  -- KEYS prefix*
  unfoldable pub keys_with : ℕ → Text → List Entry → Result CacheError (List Text)
  keys_with now prefix s =
      guard (not (faults keys_command prefix)) (redis_failed keys_command)
      >> ok (redis_keys now prefix s)

  -- ListAll and Count
  unfoldable pub list_all : ℕ → Text → List Entry → Result CacheError (List R)
  list_all now token s = keys_with now (get_key token []) s >>= λ keys. ok (read_all now keys s)

  unfoldable pub count : ℕ → Text → List Entry → Result CacheError ℕ
  count now token s = keys_with now (get_key token []) s >>= λ keys. ok (length keys)

  -- ListURLsByUserID
  unfoldable pub list_urls_by_user_id : ℕ → Text → List Entry → Result CacheError (List Text)
  list_urls_by_user_id now user s =
      let prefix = get_user_key user [] in
      keys_with now prefix s >>= λ keys.
      ok (map (drop (length prefix)) (select (λ k. ltb (length prefix) (length k)) keys))

  -- The loop of ListURLsByUserIDOrDefault over the default URLs, with the URLs merged so far.
  unfoldable pub merge_urls : List Text → List Text → List Text
  merge_urls merged [] = merged
  merge_urls merged (u ∷ urls) =
      if any_of (text_eq u) merged
      then merge_urls merged urls
      else merge_urls (merged ++ u ∷ []) urls

  -- ListURLsByUserIDOrDefault and CountByUserID
  unfoldable pub list_urls_by_user_id_or_default :
      ℕ → Text → List Entry → Result CacheError (List Text)
  list_urls_by_user_id_or_default now user s = list_urls_by_user_id now user s >>= λ own.
      list_urls_by_user_id now default_user_id s >>= λ shared. ok (merge_urls own shared)

  unfoldable pub count_by_user_id : ℕ → Text → List Entry → Result CacheError ℕ
  count_by_user_id now user s = list_urls_by_user_id now user s >>= λ urls. ok (length urls)
