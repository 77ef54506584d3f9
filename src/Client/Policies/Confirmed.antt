-- ===== src/Client/Policies/Confirmed.antt =====
-- A deletion goes through only on the service's word: the handler with the HTTP checker in its field.
use cafe_discovery.Base.{
  ℕ, Bool, false, ◌||◌, ◌≡◌, refl, sym, ap, ◌∙◌, ◌⊎◌, inl, inr, Option, none, some, arith, ◌==◌,
  ==_iff, is_nil, trim, Text, ok, err, Bool-cases, Option-cases, Result-cases,
}
use cafe_discovery.Accept.{get_authenticated_user_id}
use cafe_discovery.Results.{take}
use cafe_discovery.Scans.{Handler, Call}
use cafe_discovery.Scans.Delete.{delete_wallet_scan}
use cafe_discovery.Scans.Deletion.{delete_wallet-Unreferenced}
use cafe_discovery.Client.{Reply, tenant_value}
use cafe_discovery.Client.Policies.{
  PolicyClient, PolicyRequest, reference_scan, body_limit, read_policy_reply, ask,
  persisted_policies_reference_scan,
}

module _ (send : PolicyRequest → Option Reply) (decode : Text → Option Bool)
    (c : PolicyClient) where
  -- The request for a scan.
  abbrev pub scan_request : ℕ → Text → ℕ → PolicyRequest
  scan_request user tenant scan = record {
    base_url = c.base_url;
    route = reference_scan scan;
    token = c.token;
    user = user;
    tenant = tenant_value tenant;
  }

  -- The client is configured, and the service answered 200 and that no policy refers to the scan.
  abbrev pub Confirmed : ℕ → Text → ℕ → Type 0
  Confirmed user tenant scan =
      (is_nil c.base_url ≡ false)
      × (is_nil c.token ≡ false)
      × ((reply : Reply) × (send (scan_request user tenant scan) ≡ some reply)
          × (reply.status ≡ 200)
          × (decode (take body_limit reply.body) ≡ some false))

  -- The checker as the handler's field has it: an error is none.
  abbrev pub checker : ℕ → Text → ℕ → Option Bool
  checker user tenant scan =
      elim (persisted_policies_reference_scan send decode c user tenant scan) [
        | ok b ↦ some b
        | err e ↦ none
      ]

  answered :
      (r : Option Reply)
      → read_policy_reply decode r ≡ ok false
      → (reply : Reply) × (r ≡ some reply)
        × (reply.status ≡ 200)
        × (decode (take body_limit reply.body) ≡ some false)
  unfolding read_policy_reply
  answered none h = absurd (ground (arith, h))
  answered (some r) h = elim (Bool-cases (r.status == 200)) [
    | inr e ↦ absurd (ground (arith, e, h))
    | inl e ↦ elim (Option-cases (decode (take body_limit r.body))) [
      | inl d ↦ absurd (ground (arith, e, d, h))
      | inr (b, d) ↦ (r, refl, (==_iff r.status 200).0 e, ground (arith, e, d, h))
    ]
  ]

  checker-Confirmed :
      (user : ℕ) (tenant : Text) (scan : ℕ)
      → checker user tenant scan ≡ some false
      → Confirmed user tenant scan
  unfolding persisted_policies_reference_scan ask
  checker-Confirmed user tenant scan h =
      let reply = send (scan_request user tenant scan) in
      elim (Bool-cases (is_nil c.base_url || is_nil c.token)) [
        | inl n ↦ absurd (ground (arith, n, h))
        | inr n ↦ elim (Result-cases (read_policy_reply decode reply)) [
          | inr (x, r) ↦ absurd (ground (arith, n, r, h))
          | inl (b, r) ↦
              (ground (arith, n), ground (arith, n), answered reply (ground (arith, n, r, h)))
        ]
      ]

  abbrev asked : ℕ → Text → ℕ → Option (ℕ → Text → ℕ → Option Bool) → Option Bool
  asked user tenant scan none = none
  asked user tenant scan (some refers) = refers user tenant scan

  -- With the HTTP checker in the handler, a wallet deletion changes nothing in the stores unless the
  -- client is configured and cafe-persistence answered its request for that scan, user and tenant
  -- with 200 and a body that says the scan is not referenced.
  pub delete_wallet-Confirmed :
      (S : Type 0) (h : Handler S) (call : Call) (s : S)
      → h.policies ≡ some checker
      → ((delete_wallet_scan S h call s).0 ≡ s)
        ⊎ ((scan : ℕ) × (call.scan_id ≡ some scan)
            × Confirmed
                (get_authenticated_user_id call.write_fails call.locals).0
                (trim call.tenant)
                scan)
  delete_wallet-Confirmed S h call s p = elim (delete_wallet-Unreferenced S h call s) [
    | inl same ↦ inl same
    | inr (scan, id, held, (refers, e, f)) ↦
        let user = (get_authenticated_user_id call.write_fails call.locals).0 in
        let same : refers user (trim call.tenant) scan ≡ checker user (trim call.tenant) scan =
          ap (asked user (trim call.tenant) scan) (sym e ∙ p) in
        inr (scan, id, checker-Confirmed user (trim call.tenant) scan (sym same ∙ f))
  ]
