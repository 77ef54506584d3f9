-- ===== src/Client/Refines.antt =====
-- internal/persistence/scanhttp/client.go over an unreliable network: what the answers for a wallet
-- scan say of the rows that cafe-persistence has.
use cafe_discovery.Base.{
  ℕ, Bool, true, ◌≡◌, refl, sym, ◌∙◌, ◌⊎◌, inl, inr, Option, none, some, [], is_nil, Text, Result,
  ok, err, Bool-cases,
}
use cafe_discovery.Results.{take}
use cafe_discovery.Client.{
  Server, ClientError, unavailable, not_found, conflict, bad_row, request_failed, is_unavailable,
  HttpRequest, get_method, delete_method, wallet_scan, http_request, do_json_once, do_json,
  reply_limit,
}
use cafe_discovery.Client.Wire.{
  Parsers, RowError, WalletRowWire, WalletEntity, wallet_row_to_entity,
}
use cafe_discovery.Client.Rows.{
  Decoders, unread, row_or_nil, deleted_or_missing, get_wallet_scan, delete_wallet_scan,
}
use cafe_discovery.Client.Retry.{once_more, do_json-once_more}
use cafe_discovery.Client.Service.{IsServer, reply_cases}

module _ (R : Type 0) (server : Server R) (row : ℕ → ℕ → R → Option Text)
    (law : IsServer R server row) where
  -- What a reading says: a value was decoded from the row's body, or there was no row.
  record IsRead {A : Type 0} (blank : A) (read : Text → Option A) (user scan : ℕ) (r : R)
      (out : R × Result ClientError A) : Type 0 where
    value :
        (a : A)
        → out.1 ≡ ok a
        → (body : Text) × (row user scan r ≡ some body)
          × (((is_nil (take reply_limit body) ≡ true) × (a ≡ blank))
              ⊎ (read (take reply_limit body) ≡ some a))
    missing : out.1 ≡ err not_found → row user scan r ≡ none
    keeps : row user scan out.0 ≡ row user scan r

  module _ {A : Type 0} (blank : A) (read : Text → Option A) (user : ℕ) (tenant : Text)
      (scan : ℕ) where
    abbrev get_request : HttpRequest
    get_request = http_request get_method (wallet_scan scan) user tenant []

    once-IsRead :
        (r : R) → IsRead blank read user scan r (do_json_once R server blank read get_request r)
    unfolding do_json_once
    once-IsRead r =
        let (values, absent) = reply_cases blank read (server.send get_request r).1 in
        record {
          value = λ a h.
              (let (p, came, good, decoded) = values a h in
                (p.body, law.get_found user tenant scan r p came good, decoded));
          missing = λ h.
              (let (p, came, status) = absent h in
                law.get_missing user tenant scan r p came status);
          keeps = law.get_keeps user tenant scan r;
        }

    later-IsRead :
        (r r' : R) (out : R × Result ClientError A)
        → row user scan r' ≡ row user scan r
        → IsRead blank read user scan r' out
        → IsRead blank read user scan r out
    later-IsRead r r' out same good = record {
      value =
          λ a h. (let (body, found, decoded) = good.value a h in (body, sym same ∙ found, decoded));
      missing = λ h. sym same ∙ good.missing h;
      keeps = good.keeps ∙ same;
    }

    more-IsRead :
        (r : R) (out : R × Result ClientError A)
        → IsRead blank read user scan r out
        → IsRead blank read user scan r (once_more R server blank read get_request out)
    more-IsRead r (r', ok a) good = good
    more-IsRead r (r', err e) good = elim (Bool-cases (is_unavailable e)) [
      | inr f ↦ rw (f) good
      | inl f ↦ rw (f) (
          later-IsRead r r' (do_json_once R server blank read get_request r') good.keeps
            (once-IsRead r'))
    ]

    do_json-IsRead :
        (r : R) → IsRead blank read user scan r (do_json R server true blank read get_request r)
    do_json-IsRead r =
        rw ((do_json-once_more R server blank read get_request r).1)
          (more-IsRead r (do_json_once R server blank read get_request r) (once-IsRead r))

  module _ (user : ℕ) (tenant : Text) (scan : ℕ) where
    abbrev delete_request : HttpRequest
    delete_request = http_request delete_method (wallet_scan scan) user tenant []

    -- What a deletion says: confirmed or missing, the row is gone; and else it stands or is gone.
    record IsDelete (r : R) (out : R × Result ClientError (Unit {0})) : Type 0 where
      confirmed : (u : Unit {0}) → out.1 ≡ ok u → row user scan out.0 ≡ none
      missing : out.1 ≡ err not_found → row user scan out.0 ≡ none
      effect : (row user scan out.0 ≡ row user scan r) ⊎ (row user scan out.0 ≡ none)

    once-IsDelete : (r : R) → IsDelete r (do_json_once R server tt unread delete_request r)
    unfolding do_json_once
    once-IsDelete r =
        let (values, absent) = reply_cases tt unread (server.send delete_request r).1 in
        record {
          confirmed = λ u h.
              (let (p, came, good, decoded) = values u h in
                law.delete_done user tenant scan r p came (inl good));
          missing = λ h.
              (let (p, came, status) = absent h in
                law.delete_done user tenant scan r p came (inr status));
          effect = law.delete_effect user tenant scan r;
        }

    after_effect :
        (r r' : R) (x : Option Text)
        → (row user scan r' ≡ row user scan r) ⊎ (row user scan r' ≡ none)
        → (x ≡ row user scan r') ⊎ (x ≡ none)
        → (x ≡ row user scan r) ⊎ (x ≡ none)
    after_effect r r' x first (inr e) = inr e
    after_effect r r' x (inl f) (inl e) = inl (e ∙ f)
    after_effect r r' x (inr f) (inl e) = inr (e ∙ f)

    more-IsDelete :
        (r : R) (out : R × Result ClientError (Unit {0}))
        → IsDelete r out
        → IsDelete r (once_more R server tt unread delete_request out)
    more-IsDelete r (r', ok a) good = good
    more-IsDelete r (r', err e) good = elim (Bool-cases (is_unavailable e)) [
      | inr f ↦ rw (f) good
      | inl f ↦
          let second = once-IsDelete r' in
          rw (f) (record {
            confirmed = second.confirmed;
            missing = second.missing;
            effect =
                after_effect r r'
                  (row user scan (do_json_once R server tt unread delete_request r').0) good.effect
                  second.effect;
          })
    ]

    do_json-IsDelete : (r : R) → IsDelete r (do_json R server true tt unread delete_request r)
    do_json-IsDelete r =
        rw ((do_json-once_more R server tt unread delete_request r).1)
          (more-IsDelete r (do_json_once R server tt unread delete_request r) (once-IsDelete r))

  module _ (Real : Type 0) (parsers : Parsers) (decoders : Decoders Real) where
    -- What the answer of GetWalletScan says of the row.
    abbrev pub Reads : Result ClientError (Option (WalletEntity Real)) → Option Text → Type 0
    Reads (err e) found = Unit {0}
    Reads (ok none) found = found ≡ none
    Reads (ok (some entity)) found =
        (body : Text) × (wire : WalletRowWire Real) × (found ≡ some body)
        × (((is_nil (take reply_limit body) ≡ true) × (wire ≡ decoders.no_wallet_row))
            ⊎ (decoders.wallet_row (take reply_limit body) ≡ some wire))
        × (wallet_row_to_entity parsers Real wire ≡ ok entity)

    -- What the answer of DeleteWalletScan says of the row before and after it.
    abbrev pub Deletes : Result ClientError Bool → Option Text → Option Text → Type 0
    Deletes (ok deleted) before after = after ≡ none
    Deletes (err e) before after = (after ≡ before) ⊎ (after ≡ none)

    Reads-row :
        (found : Option Text) (w : WalletRowWire Real)
        (converted : Result RowError (WalletEntity Real))
        → wallet_row_to_entity parsers Real w ≡ converted
        → (body : Text) × (found ≡ some body)
          × (((is_nil (take reply_limit body) ≡ true) × (w ≡ decoders.no_wallet_row))
              ⊎ (decoders.wallet_row (take reply_limit body) ≡ some w))
        → Reads (elim converted [ err x ↦ err bad_row | ok e ↦ ok (some e) ]) found
    Reads-row found w (err x) same (body, at, decoded) = tt
    Reads-row found w (ok e) same (body, at, decoded) = (body, w, at, decoded, same)

    reads_lem :
        (user scan : ℕ) (r : R) (out : R × Result ClientError (WalletRowWire Real))
        → IsRead decoders.no_wallet_row decoders.wallet_row user scan r out
        → Reads (row_or_nil (wallet_row_to_entity parsers Real) out.1) (row user scan r)
    reads_lem user scan r (r', err unavailable) good = tt
    reads_lem user scan r (r', err not_found) good = good.missing refl
    reads_lem user scan r (r', err conflict) good = tt
    reads_lem user scan r (r', err bad_row) good = tt
    reads_lem user scan r (r', err (request_failed n)) good = tt
    reads_lem user scan r (r', ok w) good =
        Reads-row (row user scan r) w (wallet_row_to_entity parsers Real w) refl (good.value w refl)

    deletes_lem :
        (user : ℕ) (tenant : Text) (scan : ℕ) (r : R) (out : R × Result ClientError (Unit {0}))
        → IsDelete user tenant scan r out
        → Deletes (deleted_or_missing out.1) (row user scan r) (row user scan out.0)
    deletes_lem user tenant scan r (r', err unavailable) good = good.effect
    deletes_lem user tenant scan r (r', err not_found) good = good.missing refl
    deletes_lem user tenant scan r (r', err conflict) good = good.effect
    deletes_lem user tenant scan r (r', err bad_row) good = good.effect
    deletes_lem user tenant scan r (r', err (request_failed n)) good = good.effect
    deletes_lem user tenant scan r (r', ok _) good = good.confirmed tt refl

    -- With its two attempts over an unreliable network, the client implements reads and deletions of
    -- the caller's row: a row it returns was decoded from the first
    -- 1,048,576 bytes of the row's body, nil means that there is none,
    -- and reading changes nothing; an answered deletion, true or false, leaves no row, and a failed one
    -- leaves the row as it was or none. The service is assumed to do this for each single request.
    pub client-refines_row :
        (user : ℕ) (tenant : Text) (scan : ℕ) (r : R)
        → (Reads
              (get_wallet_scan R server Real parsers decoders user tenant scan r).1
              (row user scan r)
            × (row user scan (get_wallet_scan R server Real parsers decoders user tenant scan r).0
                ≡ row user scan r))
          × Deletes
              (delete_wallet_scan R server user tenant scan r).1
              (row user scan r)
              (row user scan (delete_wallet_scan R server user tenant scan r).0)
    unfolding get_wallet_scan delete_wallet_scan
    client-refines_row user tenant scan r =
        let read = do_json-IsRead decoders.no_wallet_row decoders.wallet_row user tenant scan r in
        let out =
          do_json R server true decoders.no_wallet_row decoders.wallet_row
            (http_request get_method (wallet_scan scan) user tenant []) r in
        (
          (reads_lem user scan r out read, read.keeps),
          deletes_lem user tenant scan r
              (do_json R server true tt unread
                (http_request delete_method (wallet_scan scan) user tenant []) r)
              (do_json-IsDelete user tenant scan r),
        )
