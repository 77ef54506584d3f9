-- ===== src/Cache/RoundTrip.antt =====
-- What a result saved for a user's URL does to the lookups: that URL's gives it back, and no other changes.
use mathlib.Core.List.{append_cancel_left}
use cafe_discovery.Base.{
  ℕ, ◌+◌, ◌<◌, Bool, true, false, ◌≡◌, ◌≢◌, refl, ◌⊎◌, inl, inr, Option, some, List, [], ◌∷◌, ◌++◌,
  arith, length, Text, codes, text_eq, text_eq_iff, ok, Bool-cases, Option-cases,
}
use cafe_discovery.Cache.{
  Entry, Command, set_command, get_command, tls_scan_ttl, tls_user_key_prefix, redis_del, redis_get,
  get_user_key, save_at, find_at, save_by_user_id_and_url, find_by_user_id_and_url,
}

text_eq_refl : (s : Text) → text_eq s s ≡ true
text_eq_refl s = (text_eq_iff s s).1 refl

get-del_other :
    (now : ℕ) (key other : Text) (s : List Entry)
    → text_eq key other ≡ false
    → redis_get now other (redis_del key s) ≡ redis_get now other s
get-del_other now key other [] h = refl
get-del_other now key other (e ∷ s) h = ground (
  arith,
  get-del_other now key other s h,
  text_eq_iff e.key key,
  text_eq_iff e.key other,
  text_eq_iff key other,
)

-- Two texts of one length before the same separator: equal concatenations have equal parts.
append_split : (a b s t : Text) → length a ≡ length b → a ++ s ≡ b ++ t → (a ≡ b) × (s ≡ t)
append_split [] [] s t n h = (refl, h)
append_split [] (y ∷ b) s t n h = absurd (omega (arith, n))
append_split (x ∷ a) [] s t n h = absurd (omega (arith, n))
append_split (x ∷ a) (y ∷ b) s t n h =
    let (same, rest) = append_split a b s t (omega (arith, n)) (cc h) in (cc (same, h), rest)

key-injective :
    (user other url url' : Text)
    → length user ≡ length other
    → get_user_key user url ≡ get_user_key other url'
    → (user ≡ other) × (url ≡ url')
unfolding get_user_key
key-injective user other url url' n h =
    let (same, rest) =
      append_split user other (codes ":" ++ url) (codes ":" ++ url') n
        (append_cancel_left tls_user_key_prefix _ _ h) in
    (same, append_cancel_left (codes ":") url url' rest)

pub key-apart :
    (user url other url' : Text)
    → length user ≡ length other
    → (user ≢ other) ⊎ (url ≢ url')
    → text_eq (get_user_key user url) (get_user_key other url') ≡ false
key-apart user url other url' n apart =
    elim (Bool-cases (text_eq (get_user_key user url) (get_user_key other url'))) [
      | inr e ↦ e
      | inl e ↦
          let same =
            key-injective user other url url' n
              ((text_eq_iff (get_user_key user url) (get_user_key other url')).0 e) in
          elim apart [ inl a ↦ absurd (a same.0) | inr b ↦ absurd (b same.1) ]
    ]

module _ (R : Type 0) (marshal : R → Option Text) (unmarshal : Text → Option R)
    (faults : Command → Text → Bool) where
  pub find-save_at :
      (now later : ℕ) (key value : Text) (r : R) (s s' : List Entry)
      → marshal r ≡ some value
      → unmarshal value ≡ some r
      → faults get_command key ≡ false
      → later < now + tls_scan_ttl
      → save_at R marshal unmarshal faults now key r s ≡ ok s'
      → find_at R marshal unmarshal faults later key s' ≡ ok r
  unfolding save_at find_at
  find-save_at now later key value r s s' e u g t h = elim (Bool-cases (faults set_command key)) [
    | inl f ↦ absurd (ground (arith, e, f, h))
    | inr f ↦
        let stored : s'
            ≡ record { key = key; value = value; expires = now + tls_scan_ttl } ∷ redis_del key s =
          ground (arith, e, f, h) in
        rw (stored) (ground (arith, g, text_eq_refl key, u))
  ]

  pub find-save_other :
      (now later : ℕ) (key other : Text) (r : R) (s s' : List Entry)
      → text_eq key other ≡ false
      → save_at R marshal unmarshal faults now key r s ≡ ok s'
      → find_at R marshal unmarshal faults later other s'
        ≡ find_at R marshal unmarshal faults later other s
  unfolding save_at find_at
  find-save_other now later key other r s s' n h = elim (Option-cases (marshal r)) [
    | inl e ↦ absurd (ground (arith, e, h))
    | inr (value, e) ↦ elim (Bool-cases (faults set_command key)) [
      | inl f ↦ absurd (ground (arith, e, f, h))
      | inr f ↦
          let stored : s'
              ≡ record { key = key; value = value; expires = now + tls_scan_ttl }
                ∷ redis_del key s =
            ground (arith, e, f, h) in
          let same : redis_get later other s' ≡ redis_get later other s =
            rw (stored) (ground (arith, n, get-del_other later key other s n)) in
          rw (same) refl
    ]
  ]

  -- Where the lookup does not fail and the result's JSON reads back as the result, a result saved
  -- for a user's URL is found there until its thirty minutes are over, and the lookups for every other URL, and those
  -- of every other user, answer what they answered before. User ids are texts of one length.
  pub find-save :
      (now later : ℕ) (user url other url' value : Text) (r : R) (s s' : List Entry)
      → marshal r ≡ some value
      → unmarshal value ≡ some r
      → faults get_command (get_user_key user url) ≡ false
      → later < now + tls_scan_ttl
      → length user ≡ length other
      → (user ≢ other) ⊎ (url ≢ url')
      → save_by_user_id_and_url R marshal unmarshal faults now user url r s ≡ ok s'
      → (find_by_user_id_and_url R marshal unmarshal faults later user url s' ≡ ok r)
        × (find_by_user_id_and_url R marshal unmarshal faults later other url' s'
            ≡ find_by_user_id_and_url R marshal unmarshal faults later other url' s)
  unfolding save_by_user_id_and_url find_by_user_id_and_url
  find-save now later user url other url' value r s s' e u g t n apart h = (
    find-save_at now later (get_user_key user url) value r s s' e u g t h,
    find-save_other now later (get_user_key user url) (get_user_key other url') r s s'
        (key-apart user url other url' n apart) h,
  )
