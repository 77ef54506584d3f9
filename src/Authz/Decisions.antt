-- ===== src/Authz/Decisions.antt =====
-- Who may read a scan through the internal endpoint.
use cafe_discovery.Base.{
  ℕ, Bool, true, false, ◌≡◌, refl, sym, ◌⊎◌, inl, inr, Option, none, some, List, arith, ==_iff,
  Bool-cases, Option-cases, Result, Text, trim, is_nil, trim_left, trim_right, [], ◌∷◌, ok, err,
}
use cafe_discovery.Ledger.Tables.{WalletRow, TlsRow, Db}
use cafe_discovery.Authz.{
  find_wallet, find_tls, decide_wallet, decide_owned, decide_tls, decide, Outages, Decision, allow,
  reason_allowed, Principal, can_read_scan, Request, respond_decision, handle,
  service_authenticated, serve, is_valid_scan_id, valid_principal, LookupError, ensure_request_id,
  respond,
}

-- The scan of an id that is open to a user, who is none where the header is no UUID: their own
-- wallet scan, or, where no wallet scan has that id, an endpoint scan that is default or their own.
abbrev pub CanRead : Db → Option ℕ → ℕ → Type 0
CanRead db user id =
    ((w : WalletRow) × (find_wallet id db.wallets ≡ some w) × (user ≡ some w.user_id))
    ⊎ ((find_wallet id db.wallets ≡ none)
        × (t : TlsRow) × (find_tls id db.endpoints ≡ some t)
        × ((t.is_default ≡ true) ⊎ ((owner : ℕ) × (t.user_id ≡ some owner) × (user ≡ some owner))))

wallet_allowed :
    (user : Option ℕ) (w : WalletRow) (d : Decision)
    → decide_wallet user w ≡ ok d
    → d.allowed ≡ true
    → user ≡ some w.user_id
unfolding decide_wallet
wallet_allowed none w d h a = absurd (ground (arith, h, a))
wallet_allowed (some user) w d h a = ground (arith, ==_iff w.user_id user, h, a)

owned_allowed :
    (owner user : Option ℕ) (d : Decision)
    → decide_owned owner user ≡ ok d
    → d.allowed ≡ true
    → (u : ℕ) × (owner ≡ some u) × (user ≡ some u)
unfolding decide_owned
owned_allowed none user d h a = absurd (ground (arith, h, a))
owned_allowed (some owner) none d h a = absurd (ground (arith, h, a))
owned_allowed (some owner) (some user) d h a =
    (owner, refl, ground (arith, ==_iff owner user, h, a))

tls_allowed :
    (user : Option ℕ) (t : TlsRow) (d : Decision)
    → decide_tls user t ≡ ok d
    → d.allowed ≡ true
    → (t.is_default ≡ true) ⊎ ((u : ℕ) × (t.user_id ≡ some u) × (user ≡ some u))
unfolding decide_tls
tls_allowed user t d h a = elim (Bool-cases t.is_default) [
  | inl e ↦ inl e
  | inr e ↦ inr (owned_allowed t.user_id user d (ground (arith, e, h)) a)
]

decide_allowed :
    (out : Outages) (db : Db) (user : Option ℕ) (id : ℕ) (d : Decision)
    → decide out db user id ≡ ok d
    → d.allowed ≡ true
    → CanRead db user id
unfolding decide
decide_allowed out db user id d h a = elim (Option-cases (find_wallet id db.wallets)) [
  | inr (w, e) ↦ inl (w, e, wallet_allowed user w d (ground (arith, e, h)) a)
  | inl e ↦ elim (Option-cases (find_tls id db.endpoints)) [
    | inr (t, f) ↦ inr (e, t, f, tls_allowed user t d (ground (arith, e, f, h)) a)
    | inl f ↦ absurd (ground (arith, e, f, h, a))
  ]
]

CanRead-wallet :
    (out : Outages) (db : Db) (user : Option ℕ) (id : ℕ) (w : WalletRow)
    → find_wallet id db.wallets ≡ some w
    → user ≡ some w.user_id
    → out.wallets_down ≡ false
    → decide out db user id ≡ allow
unfolding decide decide_wallet
CanRead-wallet out db user id w e u up = ground (arith, e, u, up, ==_iff w.user_id w.user_id)

CanRead-tls :
    (out : Outages) (db : Db) (user : Option ℕ) (id : ℕ) (t : TlsRow)
    → find_wallet id db.wallets ≡ none
    → find_tls id db.endpoints ≡ some t
    → (t.is_default ≡ true) ⊎ ((u : ℕ) × (t.user_id ≡ some u) × (user ≡ some u))
    → out.wallets_down ≡ false
    → out.endpoints_down ≡ false
    → decide out db user id ≡ allow
unfolding decide decide_tls decide_owned
CanRead-tls out db user id t e f (inl default) up up' = ground (arith, e, f, default, up, up')
CanRead-tls out db user id t e f (inr (u, own, same)) up up' =
    ground (arith, e, f, own, same, up, up', ==_iff u u)

CanRead-allowed :
    (out : Outages) (db : Db) (user : Option ℕ) (id : ℕ)
    → out.wallets_down ≡ false
    → out.endpoints_down ≡ false
    → CanRead db user id
    → decide out db user id ≡ allow
CanRead-allowed out db user id up up' (inl (w, e, u)) = CanRead-wallet out db user id w e u up
CanRead-allowed out db user id up up' (inr (e, t, f, o)) = CanRead-tls out db user id t e f o up up'

respond_refused :
    (rid : Text) (d : Decision)
    → d.allowed ≡ false
    → (respond_decision rid (ok d)).allowed ≡ true
    → ⊥
unfolding respond_decision
respond_refused rid d e h = ground (arith, e, h)

respond_allowed :
    (rid : Text) (r : Result LookupError Decision)
    → (respond_decision rid r).allowed ≡ true
    → (d : Decision) × (r ≡ ok d) × (d.allowed ≡ true) × ((respond_decision rid r).status ≡ 200)
unfolding respond_decision
respond_allowed rid (err e) h = absurd (ground (arith, h))
respond_allowed rid (ok d) h = elim (Bool-cases d.allowed) [
  | inl e ↦ (d, refl, e, ground (arith, e))
  | inr e ↦ absurd (respond_refused rid d e h)
]

trim-is_nil : (s : Text) → is_nil (trim s) ≡ false → is_nil s ≡ false
unfolding trim trim_left trim_right
trim-is_nil [] h = ground (arith, h)
trim-is_nil (c ∷ s) h = refl

module _ (parse_uuid : Text → Option ℕ) where
  can_read_scan-allowed :
      (out : Outages) (db : Db) (p : Principal) (scan_id : Text) (d : Decision)
      → can_read_scan parse_uuid out db p scan_id ≡ ok d
      → d.allowed ≡ true
      → (id : ℕ) × (parse_uuid (trim scan_id) ≡ some id)
        × CanRead db (parse_uuid (trim p.user_id)) id
  unfolding can_read_scan
  can_read_scan-allowed out db p scan_id d h a = elim (Bool-cases (valid_principal p)) [
    | inr e ↦ absurd (ground (arith, e, h, a))
    | inl e ↦ elim (Bool-cases (is_valid_scan_id parse_uuid scan_id)) [
      | inr f ↦ absurd (ground (arith, e, f, h, a))
      | inl f ↦ elim (Option-cases (parse_uuid (trim scan_id))) [
        | inl g ↦ absurd (ground (arith, e, f, g, h, a))
        | inr (id, g) ↦ (
          id,
          g,
          decide_allowed out db (parse_uuid (trim p.user_id)) id d (ground (arith, e, f, g, h)) a,
        )
      ]
    ]
  ]

  -- What the handler passes to the service.
  abbrev ask : Outages → Db → Request → Result LookupError Decision
  ask out db req =
      can_read_scan parse_uuid out db
        (record { user_id = trim req.user_header; tenant_id = trim req.tenant_header })
        (trim req.scan_param)

  handle_lem :
      (enabled : Bool) (out : Outages) (db : Db) (random : Option (List ℕ)) (req : Request)
      → (handle parse_uuid enabled out db random req).allowed ≡ true
      → (enabled ≡ true)
        × (handle parse_uuid enabled out db random req
            ≡ respond_decision (ensure_request_id random req.request_header) (ask out db req))
  unfolding handle
  handle_lem enabled out db random req h = (ground (arith, h), ground (arith, h))

  serve_lem :
      (token : Text) (enabled : Bool) (out : Outages) (db : Db) (random : Option (List ℕ))
      (req : Request)
      → (serve parse_uuid token enabled out db random req).allowed ≡ true
      → (service_authenticated token req.authorization ≡ true)
        × (serve parse_uuid token enabled out db random req
            ≡ handle parse_uuid enabled out db random req)
  unfolding serve
  serve_lem token enabled out db random req h = (ground (arith, h), ground (arith, h))

  -- The internal endpoint allows a read only with status 200, to a caller with the service token,
  -- while it is enabled, for a scan id that parses, and to a user who owns that scan or for whom it is
  -- a default endpoint: no other path of the middleware, the handler or the service allows, failed
  -- lookups included.
  pub serve_allowed :
      (token : Text) (enabled : Bool) (out : Outages) (db : Db) (random : Option (List ℕ))
      (req : Request)
      → (serve parse_uuid token enabled out db random req).allowed ≡ true
      → ((serve parse_uuid token enabled out db random req).status ≡ 200)
        × (service_authenticated token req.authorization ≡ true)
        × (enabled ≡ true)
        × (id : ℕ) × (parse_uuid (trim (trim req.scan_param)) ≡ some id)
        × CanRead db (parse_uuid (trim (trim req.user_header))) id
  serve_allowed token enabled out db random req h =
      let (known, e) = serve_lem token enabled out db random req h in
      let (on, f) = handle_lem enabled out db random req (rw (sym e) h) in
      let rid = ensure_request_id random req.request_header in
      let (d, asked, granted, fine) = respond_allowed rid (ask out db req) (rw (sym f, sym e) h) in
      let (id, parsed, can) =
        can_read_scan-allowed out db
          (record { user_id = trim req.user_header; tenant_id = trim req.tenant_header })
          (trim req.scan_param) d asked granted in
      (rw (e, f) fine, known, on, id, parsed, can)

  -- While the endpoint is enabled, the token is right and both tables can be read, a request with a
  -- user header and with a scan id that parses is answered 200 and allowed if that user may read
  -- that scan.
  pub serve-CanRead :
      (token : Text) (out : Outages) (db : Db) (random : Option (List ℕ)) (req : Request) (id : ℕ)
      → service_authenticated token req.authorization ≡ true
      → out.wallets_down ≡ false
      → out.endpoints_down ≡ false
      → is_nil (trim (trim req.user_header)) ≡ false
      → is_nil (trim (trim req.scan_param)) ≡ false
      → parse_uuid (trim (trim req.scan_param)) ≡ some id
      → CanRead db (parse_uuid (trim (trim req.user_header))) id
      → serve parse_uuid token true out db random req
        ≡ respond 200 true reason_allowed (ensure_request_id random req.request_header)
  unfolding serve handle can_read_scan valid_principal is_valid_scan_id respond_decision
  serve-CanRead token out db random req id known up up' user scan parsed can = ground (
    arith,
    known,
    user,
    trim-is_nil (trim req.user_header) user,
    scan,
    parsed,
    CanRead-allowed out db (parse_uuid (trim (trim req.user_header))) id up up' can,
  )
