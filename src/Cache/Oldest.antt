-- ===== src/Cache/Oldest.antt =====
-- Of several scans of one URL, the warming after a sign-in leaves the oldest in Redis: the rows come newest
-- first, and each write replaces the one before it.
use cafe_discovery.Base.{
  ℕ, zero, suc, ◌+◌, ◌<◌, ◌≤◌, Bool, true, false, not, ◌||◌, ◌≡◌, refl, ap, ◌∙◌, inl, inr, Option,
  none, some, List, [], ◌∷◌, arith, leb, select, any_of, all_of, order_by, if◌then◌else◌, Text,
  text_eq, text_eq_iff, pos, ok, Bool-cases, Option-cases,
}
use cafe_discovery.Client.Wire.{TlsEntity}
use cafe_discovery.Results.{
  Entity, Table, Faults, find_rows, live, of_user, take, newest_first, window, find_by_user_id,
}
use cafe_discovery.Results.Order.{IsNewestFirst, order_by-IsNewestFirst}
use cafe_discovery.Observation.Tls.{Decoders, TlsScanResult, to_tls_scan_result}
use cafe_discovery.Cache.{
  Entry, Command, set_command, get_command, redis_set, tls_scan_ttl, get_user_key, save_at,
  save_by_user_id_and_url, find_by_user_id_and_url,
}
use cafe_discovery.Cache.RoundTrip.{find-save_at, find-save_other, key-apart}
use cafe_discovery.Cache.Warm.{
  max_items_for_warm_or_read_through, tls_row, write_rows, warm_for_user,
}

module _ {T : Type 0} (entity : Entity T) where
  take-IsNewestFirst :
      (n : ℕ) (xs : List T) → IsNewestFirst entity xs → IsNewestFirst entity (take n xs)
  take-IsNewestFirst zero xs s = tt
  take-IsNewestFirst (suc n) [] s = tt
  take-IsNewestFirst (suc zero) (x ∷ xs) s = tt
  take-IsNewestFirst (suc (suc n)) (x ∷ []) s = tt
  take-IsNewestFirst (suc (suc n)) (x ∷ y ∷ ys) s = (s.0, take-IsNewestFirst (suc n) (y ∷ ys) s.1)

module _ (Real : Type 0) where
  -- The last row of a URL.
  abbrev pub last_for : Text → List (TlsEntity Real) → Option (TlsEntity Real)
  last_for url [] = none
  last_for url (e ∷ rows) = elim (last_for url rows) [
    | some x ↦ some x
    | none ↦ if text_eq e.url url then some e else none
  ]

  -- Where a row is of the URL, it is no older than the given one.
  abbrev pub no_older : Text → TlsEntity Real → TlsEntity Real → Bool
  no_older url e x = not (text_eq x.url url) || leb e.created_at x.created_at

  last-bound :
      (url : Text) (x e : TlsEntity Real) (rows : List (TlsEntity Real))
      → IsNewestFirst (tls_row Real) (x ∷ rows)
      → last_for url rows ≡ some e
      → e.created_at ≤ x.created_at
  last-bound url x e [] s h = absurd (ground (arith, h))
  last-bound url x e (y ∷ ys) s h = elim (Option-cases (last_for url ys)) [
    | inl n ↦ elim (Bool-cases (text_eq y.url url)) [
      | inl m ↦ let same : y ≡ e = ground (arith, n, m, h) in rw (← same) s.0
      | inr m ↦ absurd (ground (arith, n, m, h))
    ]
    | inr (z, n) ↦
        let same : z ≡ e = ground (arith, n, h) in
        omega (arith, last-bound url y e ys s.1 (n ∙ ap some same), s.0)
  ]

  none_for :
      (url : Text) (e : TlsEntity Real) (rows : List (TlsEntity Real))
      → last_for url rows ≡ none
      → all_of (no_older url e) rows ≡ true
  none_for url e [] h = refl
  none_for url e (x ∷ rows) h = elim (Option-cases (last_for url rows)) [
    | inl n ↦ ground (arith, n, h, none_for url e rows n)
    | inr (z, n) ↦ absurd (ground (arith, n, h))
  ]

  tail_sorted :
      (x : TlsEntity Real) (rows : List (TlsEntity Real))
      → IsNewestFirst (tls_row Real) (x ∷ rows)
      → IsNewestFirst (tls_row Real) rows
  tail_sorted x [] s = tt
  tail_sorted x (y ∷ ys) s = s.1

  last-oldest :
      (url : Text) (e : TlsEntity Real) (rows : List (TlsEntity Real))
      → IsNewestFirst (tls_row Real) rows
      → last_for url rows ≡ some e
      → (text_eq e.url url ≡ true) × (all_of (no_older url e) rows ≡ true)
  last-oldest url e [] s h = absurd (ground (arith, h))
  last-oldest url e (x ∷ rows) s h = elim (Option-cases (last_for url rows)) [
    | inl n ↦ elim (Bool-cases (text_eq x.url url)) [
      | inl m ↦
          let same : x ≡ e = ground (arith, n, m, h) in
          (rw (← same) m, ground (arith, m, none_for url e rows n, ap (λ r. r.created_at) same))
      | inr m ↦ absurd (ground (arith, n, m, h))
    ]
    | inr (z, n) ↦
        let found : last_for url rows ≡ some e = ground (arith, n, h) in
        let (m, rest) = last-oldest url e rows (tail_sorted x rows s) found in
        (m, ground (arith, rest, last-bound url x e rows s found))
  ]

  module _ (marshal : TlsScanResult Real → Option Text)
      (unmarshal : Text → Option (TlsScanResult Real)) (faults : Command → Text → Bool)
      (d : Decoders) where
    -- The JSON of a row's result reads back as the result.
    abbrev pub ReadsBack : List (TlsEntity Real) → Type 0
    ReadsBack [] = Unit {0}
    ReadsBack (e ∷ rows) =
        ((value : Text) × (marshal (to_tls_scan_result Real d e) ≡ some value)
          × (unmarshal value ≡ some (to_tls_scan_result Real d e)))
        × ReadsBack rows

    module _ (healthy : (c : Command) (key : Text) → faults c key ≡ false) where
      saved :
          (now : ℕ) (user url value : Text) (r : TlsScanResult Real) (s : List Entry)
          → marshal r ≡ some value
          → (s' : List Entry) × (save_by_user_id_and_url
                (TlsScanResult Real)
                marshal
                unmarshal
                faults
                now
                user
                url
                r
                s
              ≡ ok s')
      unfolding save_by_user_id_and_url save_at
      saved now user url value r s e =
          let key = get_user_key user url in
          (redis_set (now + tls_scan_ttl) key value s, rw (e, healthy set_command key) refl)

      found_after :
          (now later : ℕ) (user url url' value : Text) (r : TlsScanResult Real) (s s' : List Entry)
          → marshal r ≡ some value
          → unmarshal value ≡ some r
          → later < now + tls_scan_ttl
          → text_eq url url' ≡ true
          → save_by_user_id_and_url (TlsScanResult Real) marshal unmarshal faults now user url r s
            ≡ ok s'
          → find_by_user_id_and_url (TlsScanResult Real) marshal unmarshal faults later user url' s'
            ≡ ok r
      unfolding save_by_user_id_and_url find_by_user_id_and_url
      found_after now later user url url' value r s s' e u t m h =
          let same = (text_eq_iff url url').0 m in
          let key = get_user_key user url in
          rw (← same) (
            find-save_at (TlsScanResult Real) marshal unmarshal faults now later key value r s s' e
              u (healthy get_command key) t h)

      kept_after :
          (now later : ℕ) (user url url' : Text) (r : TlsScanResult Real) (s s' : List Entry)
          → text_eq url url' ≡ false
          → save_by_user_id_and_url (TlsScanResult Real) marshal unmarshal faults now user url r s
            ≡ ok s'
          → find_by_user_id_and_url (TlsScanResult Real) marshal unmarshal faults later user url' s'
            ≡ find_by_user_id_and_url
                (TlsScanResult Real)
                marshal
                unmarshal
                faults
                later
                user
                url'
                s
      unfolding save_by_user_id_and_url find_by_user_id_and_url
      kept_after now later user url url' r s s' m h =
          let apart =
            key-apart user url user url' refl
              (inr (λ e. absurd (ground (arith, m, (text_eq_iff url url').1 e)))) in
          find-save_other (TlsScanResult Real) marshal unmarshal faults now later
            (get_user_key user url) (get_user_key user url') r s s' apart h

      write_rows-find :
          (now later : ℕ) (user url : Text) (rows : List (TlsEntity Real)) (s : List Entry)
          → later < now + tls_scan_ttl
          → ReadsBack rows
          → find_by_user_id_and_url
              (TlsScanResult Real)
              marshal
              unmarshal
              faults
              later
              user
              url
              (write_rows Real marshal unmarshal faults d now user rows s)
            ≡ (elim (last_for url rows) [
              | some e ↦ ok (to_tls_scan_result Real d e)
              | none ↦
                  find_by_user_id_and_url
                    (TlsScanResult Real)
                    marshal
                    unmarshal
                    faults
                    later
                    user
                    url
                    s
            ])
      unfolding write_rows
      write_rows-find now later user url [] s t b = refl
      write_rows-find now later user url (e ∷ rows) s t ((value, json, back), b) =
          let (s', stored) = saved now user e.url value (to_tls_scan_result Real d e) s json in
          let same : write_rows Real marshal unmarshal faults d now user (e ∷ rows) s
              ≡ write_rows Real marshal unmarshal faults d now user rows s' =
            rw (stored, write_rows) refl in
          let step = write_rows-find now later user url rows s' t b in
          elim (Option-cases (last_for url rows)) [
            | inr (x, n) ↦ rw (same, n) (rw n at step)
            | inl n ↦ elim (Bool-cases (text_eq e.url url)) [
              | inl m ↦
                  rw (same, n, m)
                    ((rw n at step)
                      ∙ found_after now later user e.url url value (to_tls_scan_result Real d e) s
                          s' json back t m stored)
              | inr m ↦
                  rw (same, n, m)
                    ((rw n at step)
                      ∙ kept_after now later user e.url url (to_tls_scan_result Real d e) s s' m
                          stored)
            ]
          ]

      user_rows :
          (repository_faults : Faults) (rank : TlsEntity Real → ℕ) (id : ℕ)
          (t : Table (TlsEntity Real)) (rows : List (TlsEntity Real))
          → find_by_user_id
              (tls_row Real)
              repository_faults
              rank
              id
              (pos max_items_for_warm_or_read_through)
              (pos 0)
              t
            ≡ ok rows
          → IsNewestFirst (tls_row Real) rows
      unfolding find_by_user_id window
      user_rows repository_faults rank id t rows h =
          let sorted =
            order_by (newest_first (tls_row Real) rank)
              (select (of_user (tls_row Real) id) (live t)) in
          elim (Bool-cases (repository_faults find_rows)) [
            | inl f ↦ absurd (ground (arith, f, h))
            | inr f ↦
                let same : take max_items_for_warm_or_read_through sorted ≡ rows =
                  ground (arith, f, h) in
                rw (← same) (
                  take-IsNewestFirst (tls_row Real) max_items_for_warm_or_read_through sorted (
                    order_by-IsNewestFirst (tls_row Real) rank
                      (select (of_user (tls_row Real) id) (live t))))
          ]

      last_some :
          (url : Text) (rows : List (TlsEntity Real))
          → any_of (λ x. text_eq x.url url) rows ≡ true
          → (e : TlsEntity Real) × (last_for url rows ≡ some e)
      last_some url [] h = absurd (ground (arith, h))
      last_some url (x ∷ rows) h = elim (Option-cases (last_for url rows)) [
        | inr (e, n) ↦ (e, rw (n) refl)
        | inl n ↦ elim (Bool-cases (text_eq x.url url)) [
          | inl m ↦ (x, rw (n, m) refl)
          | inr m ↦
              let (e, found) = last_some url rows (ground (arith, m, h)) in
              absurd (ground (arith, n, found))
        ]
      ]

      -- Where no command of Redis fails, the user's rows are read, the newest ten thousand at most,
      -- and the JSON of each result reads back, after WarmForUser the lookup of a URL of which
      -- one of these rows is a scan answers, until the time to live is over, with the result of
      -- a scan of that URL that no other of these rows for the URL is older than.
      pub warm-oldest :
          (repository_faults : Faults) (rank : TlsEntity Real → ℕ) (now later id : ℕ)
          (uid url : Text) (t : Table (TlsEntity Real)) (rows : List (TlsEntity Real))
          (s : List Entry)
          → find_by_user_id
              (tls_row Real)
              repository_faults
              rank
              id
              (pos max_items_for_warm_or_read_through)
              (pos 0)
              t
            ≡ ok rows
          → any_of (λ x. text_eq x.url url) rows ≡ true
          → later < now + tls_scan_ttl
          → ReadsBack rows
          → (e : TlsEntity Real) × (text_eq e.url url ≡ true)
            × (all_of (no_older url e) rows ≡ true)
            × (find_by_user_id_and_url
                  (TlsScanResult Real)
                  marshal
                  unmarshal
                  faults
                  later
                  uid
                  url
                  (warm_for_user Real marshal unmarshal faults d repository_faults rank now id uid t
                    s).0
                ≡ ok (to_tls_scan_result Real d e))
      unfolding warm_for_user
      warm-oldest repository_faults rank now later id uid url t rows s r some_row ttl back =
          let (e, last) = last_some url rows some_row in
          let (matches, oldest) =
            last-oldest url e rows (user_rows repository_faults rank id t rows r) last in
          let found = write_rows-find now later uid url rows s ttl back in
          (e, matches, oldest, rw (r, warm_for_user) (rw last at found))
