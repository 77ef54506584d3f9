-- ===== src/Scans/Deletion.antt =====
-- Which deletions change the stores, and what a deletion leaves.
use cafe_discovery.Base.{
  ℕ, Bool, true, false, ◌≡◌, ◌⊎◌, inl, inr, Option, none, some, arith, trim, Text, ok, Result-cases,
  Option-cases, Bool-cases,
}
use cafe_discovery.Accept.{Family, wallet_family, tls_family, get_authenticated_user_id}
use cafe_discovery.Scans.{WalletScan, TlsScan, Handler, Call, Answer, require_authenticated_user_id}
use cafe_discovery.Scans.Delete.{
  end_answer, clear_wallet_pending, clear_tls_pending, own_pending, unless_referenced, delete_row,
  delete_pending_only, delete_wallet_scan, delete_tls_scan,
}

module _ (S : Type 0) (h : Handler S) where
  -- The policy service answered that no persisted policy refers to the scan.
  abbrev pub Unreferenced : ℕ → Text → ℕ → Type 0
  Unreferenced user tenant scan =
      (refers : ℕ → Text → ℕ → Option Bool) × (h.policies ≡ some refers)
      × (refers user tenant scan ≡ some false)

  -- The owner has a row of the scan, or a pending record of the family.
  abbrev pub WalletHeld : ℕ → Text → ℕ → S → Type 0
  WalletHeld user tenant scan s =
      ((row : WalletScan) × (h.store.get_wallet_scan user tenant scan s ≡ ok (some row)))
      ⊎ (own_pending S h user tenant wallet_family scan s ≡ ok true)

  abbrev pub TlsHeld : ℕ → Text → ℕ → S → Type 0
  TlsHeld user tenant scan s =
      ((row : TlsScan) × (h.store.get_tls_scan user tenant scan s ≡ ok (some row))
        × (row.is_default ≡ false))
      ⊎ (own_pending S h user tenant tls_family scan s ≡ ok true)

  unless_referenced_lem :
      (user : ℕ) (tenant : Text) (scan : ℕ) (s : S) (delete : S × Answer)
      → ((unless_referenced S h user tenant scan s delete ≡ delete) × Unreferenced user tenant scan)
        ⊎ ((unless_referenced S h user tenant scan s delete).0 ≡ s)
  unfolding unless_referenced
  unless_referenced_lem user tenant scan s delete = elim (Option-cases h.policies) [
    | inl e ↦ inr (ground (arith, e))
    | inr (refers, e) ↦ elim (Option-cases (refers user tenant scan)) [
      | inl f ↦ inr (ground (arith, e, f))
      | inr (true, f) ↦ inr (ground (arith, e, f))
      | inr (false, f) ↦ inl (ground (arith, e, f), (refers, e, f))
    ]
  ]

  pending_only_lem :
      (user : ℕ) (tenant : Text) (family : Family) (scan : ℕ) (s : S)
      → ((delete_pending_only S h user tenant family scan s).0 ≡ s)
        ⊎ ((own_pending S h user tenant family scan s ≡ ok true) × Unreferenced user tenant scan)
  unfolding delete_pending_only
  pending_only_lem user tenant family scan s =
      elim (Result-cases (own_pending S h user tenant family scan s)) [
        | inr (x, e) ↦ inl (ground (arith, e))
        | inl (false, e) ↦ inl (ground (arith, e))
        | inl (true, e) ↦
            elim (unless_referenced_lem user tenant scan s
              (end_answer S h (h.store.delete_pending user tenant scan s))) [
                | inl (_, free) ↦ inr (e, free)
                | inr f ↦ inl (ground (arith, e, f))
              ]
      ]

  -- A wallet deletion changes nothing in the stores unless the caller has a row or a pending record of
  -- that scan and the policy check answered that no persisted policy refers to it: a missing or failed
  -- check changes nothing.
  pub delete_wallet-Unreferenced :
      (call : Call) (s : S)
      → ((delete_wallet_scan S h call s).0 ≡ s)
        ⊎ ((scan : ℕ) × (call.scan_id ≡ some scan)
            × WalletHeld
                (get_authenticated_user_id call.write_fails call.locals).0
                (trim call.tenant)
                scan
                s
            × Unreferenced
                (get_authenticated_user_id call.write_fails call.locals).0
                (trim call.tenant)
                scan)
  unfolding delete_wallet_scan
  delete_wallet-Unreferenced call s =
      let user = (get_authenticated_user_id call.write_fails call.locals).0 in
      let tenant = trim call.tenant in
      elim (Bool-cases (get_authenticated_user_id call.write_fails call.locals).1) [
        | inl w ↦ inl (ground (arith, w))
        | inr w ↦ elim (Option-cases call.scan_id) [
          | inl a ↦ inl (ground (arith, w, a))
          | inr (scan, a) ↦ elim (Bool-cases h.has_read) [
            | inr r ↦ inl (ground (arith, w, a, r))
            | inl r ↦ elim (Result-cases (h.store.get_wallet_scan user tenant scan s)) [
              | inr (x, g) ↦ inl (ground (arith, w, a, r, g))
              | inl (none, g) ↦ elim (pending_only_lem user tenant wallet_family scan s) [
                | inl same ↦ inl (ground (arith, w, a, r, g, same))
                | inr (own, free) ↦ inr (scan, a, inr own, free)
              ]
              | inl (some row, g) ↦
                  elim (unless_referenced_lem user tenant scan s (
                    delete_row S h (h.store.delete_wallet_scan user tenant scan s)
                      (clear_wallet_pending S h user tenant scan row.address))) [
                        | inl (_, free) ↦ inr (scan, a, inl (row, g), free)
                        | inr same ↦ inl (ground (arith, w, a, r, g, same))
                      ]
            ]
          ]
        ]
      ]

  -- A deletion of a TLS scan changes nothing in the stores unless the caller reads a row of that scan
  -- that is no default endpoint, or has a pending record of it, and the policy check answered that no
  -- persisted policy refers to it.
  pub delete_tls-Unreferenced :
      (call : Call) (s : S)
      → ((delete_tls_scan S h call s).0 ≡ s)
        ⊎ ((scan : ℕ) × (call.scan_id ≡ some scan)
            × TlsHeld
                (require_authenticated_user_id call.write_fails call.locals).0
                (trim call.tenant)
                scan
                s
            × Unreferenced
                (require_authenticated_user_id call.write_fails call.locals).0
                (trim call.tenant)
                scan)
  unfolding delete_tls_scan
  delete_tls-Unreferenced call s =
      let user = (require_authenticated_user_id call.write_fails call.locals).0 in
      let tenant = trim call.tenant in
      elim (Bool-cases (require_authenticated_user_id call.write_fails call.locals).1) [
        | inl w ↦ inl (ground (arith, w))
        | inr w ↦ elim (Option-cases call.scan_id) [
          | inl a ↦ inl (ground (arith, w, a))
          | inr (scan, a) ↦ elim (Bool-cases h.has_read) [
            | inr r ↦ inl (ground (arith, w, a, r))
            | inl r ↦ elim (Result-cases (h.store.get_tls_scan user tenant scan s)) [
              | inr (x, g) ↦ inl (ground (arith, w, a, r, g))
              | inl (none, g) ↦ elim (pending_only_lem user tenant tls_family scan s) [
                | inl same ↦ inl (ground (arith, w, a, r, g, same))
                | inr (own, free) ↦ inr (scan, a, inr own, free)
              ]
              | inl (some row, g) ↦ elim (Bool-cases row.is_default) [
                | inl d ↦ elim (pending_only_lem user tenant tls_family scan s) [
                  | inl same ↦ inl (ground (arith, w, a, r, g, d, same))
                  | inr (own, free) ↦ inr (scan, a, inr own, free)
                ]
                | inr d ↦
                    elim (unless_referenced_lem user tenant scan s (
                      delete_row S h (h.store.delete_tls_scan user tenant scan s)
                        (clear_tls_pending S h user tenant scan))) [
                          | inl (_, free) ↦ inr (scan, a, inl (row, g, d), free)
                          | inr same ↦ inl (ground (arith, w, a, r, g, d, same))
                        ]
              ]
            ]
          ]
        ]
      ]
