-- ===== src/Scans/Outputs/Details.antt =====
-- The detail and the CBOM of one row.
use cafe_discovery.Base.{
  ℕ, true, false, String, ◌≡◌, ◌≢◌, refl, inl, inr, ◌↔◌, none, some, arith, trim, trim_left,
  trim_right, is_space, to_upper, text_eq, Text, codes, ok, Result-cases, Option-cases, Bool-cases,
  str_eq, eq_iff,
}
use cafe_discovery.Scan.{success, failed, timeout, unreachable, is_terminal, is_success}
use cafe_discovery.Accept.{
  wallet_family, get_authenticated_user_id, LifecycleStatus, completed,
  wallet_scan_lifecycle_status,
}
use cafe_discovery.Accept.{status_left}
use cafe_discovery.Scans.{
  WalletScan, Handler, Call, wallet_detail, wallet_cbom, reply, respond_store_error, unavailable,
  other, StoreError, wallet_scan_detail, is_own,
}
use cafe_discovery.Scans.Read.{pending_answer, get_wallet_scan, no_cbom, get_wallet_scan_cbom}

abbrev label : String → LifecycleStatus
label s = wallet_scan_lifecycle_status (codes s)

label-success : (s : String) → is_success s ≡ true → (label s ≡ completed) × (is_terminal s ≡ true)
unfolding is_success is_terminal wallet_scan_lifecycle_status trim trim_left trim_right is_space
    to_upper text_eq
label-success s h =
    let same : s ≡ success = (eq_iff s success).0 h in (rw (same) refl, rw (same) refl)

label-failed :
    (s : String) → is_success s ≡ false → is_terminal s ≡ true → label s ≡ LifecycleStatus.failed
unfolding is_success is_terminal wallet_scan_lifecycle_status trim trim_left trim_right is_space
    to_upper text_eq
label-failed s h t = elim (Bool-cases (str_eq s failed)) [
  | inl e ↦ rw ((eq_iff s failed).0 e) refl
  | inr e ↦ elim (Bool-cases (str_eq s timeout)) [
    | inl f ↦ rw ((eq_iff s timeout).0 f) refl
    | inr f ↦ rw ((eq_iff s unreachable).0 (ground (arith, h, t, e, f))) refl
  ]
]

-- A row whose detail is completed with a result is a successful one.
detail_success :
    (row e : WalletScan) (id : ℕ)
    → wallet_scan_detail row ≡ wallet_detail id completed (some e)
    → (is_success row.status ≡ true) × (row ≡ e)
unfolding wallet_scan_detail
detail_success row e id h = elim (Bool-cases (is_terminal row.status)) [
  | inr t ↦ absurd (ground (arith, t, h))
  | inl t ↦ elim (Bool-cases (is_success row.status)) [
    | inl w ↦ (w, ground (arith, t, h))
    | inr w ↦ absurd (ground (arith, t, label-failed row.status w t, h))
  ]
]

success_detail :
    (row : WalletScan)
    → is_success row.status ≡ true
    → wallet_scan_detail row ≡ wallet_detail row.id completed (some row)
unfolding wallet_scan_detail
success_detail row w = let (l, t) = label-success row.status w in rw (l, t, wallet_scan_detail) refl

respond_other :
    (x : StoreError) (status : ℕ) (e : WalletScan) (id : ℕ)
    → (respond_store_error x ≢ reply status (wallet_cbom e))
      × (respond_store_error x ≢ reply status (wallet_detail id completed (some e)))
unfolding respond_store_error
respond_other unavailable status e id =
    (λ h. absurd (ground (arith, h)), λ h. absurd (ground (arith, h)))
respond_other other status e id = (λ h. absurd (ground (arith, h)), λ h. absurd (ground (arith, h)))

module _ (S : Type 0) (h : Handler S) where
  no_cbom_other :
      (user : ℕ) (tenant : Text) (scan : ℕ) (s : S) (status : ℕ) (e : WalletScan)
      → no_cbom S h user tenant scan s ≢ reply status (wallet_cbom e)
  unfolding no_cbom
  no_cbom_other user tenant scan s status e r = elim (Bool-cases h.has_pending) [
    | inr p ↦ absurd (ground (arith, p, r))
    | inl p ↦ elim (Result-cases (h.store.get_pending user tenant scan s)) [
      | inr (x, g) ↦ absurd ((respond_other x status e 0).0 (ground (arith, p, g, r)))
      | inl (_, g) ↦ absurd (ground (arith, p, g, r))
    ]
  ]

  pending_other :
      (left user : ℕ) (tenant : Text) (scan : ℕ) (s : S) (status id : ℕ) (e : WalletScan)
      → pending_answer S h left user tenant wallet_family scan s
        ≢ reply status (wallet_detail id completed (some e))
  unfolding pending_answer
  pending_other left user tenant scan s status id e r = elim (Bool-cases h.has_pending) [
    | inr p ↦ absurd (ground (arith, p, r))
    | inl p ↦ elim (Result-cases (h.store.get_pending user tenant scan s)) [
      | inr (x, g) ↦ absurd ((respond_other x status e id).1 (ground (arith, p, g, r)))
      | inl (none, g) ↦ absurd (ground (arith, p, g, r))
      | inl (some rec, g) ↦ elim (Bool-cases (is_own user wallet_family rec)) [
        | inl o ↦ absurd (ground (arith, p, g, o, r))
        | inr o ↦ absurd (ground (arith, p, g, o, r))
      ]
    ]
  ]

  -- A detail or CBOM request that found a row.
  record Served (call : Call) (s : S) (row : WalletScan) : Type 0 where
    scan : ℕ
    named : call.scan_id ≡ some scan
    written : (get_authenticated_user_id call.write_fails call.locals).1 ≡ false
    readable : h.has_read ≡ true
    found :
        h.store.get_wallet_scan
          (get_authenticated_user_id call.write_fails call.locals).0
          (trim call.tenant)
          scan
          s
        ≡ ok (some row)

  Served-detail :
      (call : Call) (s : S) (row : WalletScan)
      → Served call s row
      → get_wallet_scan S h call s ≡ reply (status_left call.locals) (wallet_scan_detail row)
  unfolding get_wallet_scan
  Served-detail call s row v = ground (arith, v.named, v.written, v.readable, v.found)

  Served-cbom :
      (call : Call) (s : S) (row : WalletScan)
      → Served call s row
      → is_success row.status ≡ true
      → get_wallet_scan_cbom S h call s ≡ reply (status_left call.locals) (wallet_cbom row)
  unfolding get_wallet_scan_cbom
  Served-cbom call s row v w = ground (arith, v.named, v.written, v.readable, v.found, w)

  cbom-Served :
      (call : Call) (s : S) (status : ℕ) (e : WalletScan)
      → get_wallet_scan_cbom S h call s ≡ reply status (wallet_cbom e)
      → (row : WalletScan) × Served call s row × (is_success row.status ≡ true)
  unfolding get_wallet_scan_cbom
  cbom-Served call s status e r =
      let user = (get_authenticated_user_id call.write_fails call.locals).0 in
      let tenant = trim call.tenant in
      elim (Bool-cases (get_authenticated_user_id call.write_fails call.locals).1) [
        | inl w ↦ absurd (ground (arith, w, r))
        | inr w ↦ elim (Option-cases call.scan_id) [
          | inl a ↦ absurd (ground (arith, w, a, r))
          | inr (scan, a) ↦ elim (Bool-cases h.has_read) [
            | inr d ↦
                absurd (no_cbom_other user tenant scan s status e (ground (arith, w, a, d, r)))
            | inl d ↦ elim (Result-cases (h.store.get_wallet_scan user tenant scan s)) [
              | inr (x, g) ↦ absurd ((respond_other x status e 0).0 (ground (arith, w, a, d, g, r)))
              | inl (none, g) ↦
                  absurd (no_cbom_other user tenant scan s status e (ground (arith, w, a, d, g, r)))
              | inl (some row, g) ↦ elim (Bool-cases (is_success row.status)) [
                | inr n ↦ absurd (ground (arith, w, a, d, g, n, r))
                | inl n ↦ (
                  row,
                  record { scan = scan; named = a; written = w; readable = d; found = g },
                  n,
                )
              ]
            ]
          ]
        ]
      ]

  detail-Served :
      (call : Call) (s : S) (status id : ℕ) (e : WalletScan)
      → get_wallet_scan S h call s ≡ reply status (wallet_detail id completed (some e))
      → (row : WalletScan) × Served call s row × (is_success row.status ≡ true)
  unfolding get_wallet_scan
  detail-Served call s status id e r =
      let user = (get_authenticated_user_id call.write_fails call.locals).0 in
      let tenant = trim call.tenant in
      let left = status_left call.locals in
      elim (Bool-cases (get_authenticated_user_id call.write_fails call.locals).1) [
        | inl w ↦ absurd (ground (arith, w, r))
        | inr w ↦ elim (Option-cases call.scan_id) [
          | inl a ↦ absurd (ground (arith, w, a, r))
          | inr (scan, a) ↦ elim (Bool-cases h.has_read) [
            | inr d ↦
                absurd
                  (pending_other left user tenant scan s status id e (ground (arith, w, a, d, r)))
            | inl d ↦ elim (Result-cases (h.store.get_wallet_scan user tenant scan s)) [
              | inr (x, g) ↦
                  absurd ((respond_other x status e id).1 (ground (arith, w, a, d, g, r)))
              | inl (none, g) ↦ absurd (
                  pending_other left user tenant scan s status id e (ground (arith, w, a, d, g, r)))
              | inl (some row, g) ↦ (
                row,
                record { scan = scan; named = a; written = w; readable = d; found = g },
                (detail_success row e id (ground (arith, w, a, d, g, r))).0,
              )
            ]
          ]
        ]
      ]

  -- The CBOM of a wallet scan is served exactly when its detail is served as completed with a result,
  -- and both are of one row: neither endpoint shows a result that the other withholds.
  pub cbom-detail :
      (call : Call) (s : S) (status : ℕ) (e : WalletScan)
      → (get_wallet_scan_cbom S h call s ≡ reply status (wallet_cbom e))
        ↔ (get_wallet_scan S h call s ≡ reply status (wallet_detail e.id completed (some e)))
  cbom-detail call s status e = (
    λ r.
        (let (row, v, w) = cbom-Served call s status e r in
          ground (
            arith,
            r,
            Served-cbom call s row v w,
            Served-detail call s row v,
            success_detail row w,
          )),
    λ r.
        (let (row, v, w) = detail-Served call s status e.id e r in
          ground (
            arith,
            r,
            Served-cbom call s row v w,
            Served-detail call s row v,
            success_detail row w,
          )),
  )
