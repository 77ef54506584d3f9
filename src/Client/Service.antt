-- ===== src/Client/Service.antt =====
-- internal/persistence/scanhttp/client.go: what a reply says, and what the service behind it documents.
use cafe_discovery.Base.{
  ℕ, Bool, true, ◌&&◌, ◌≡◌, refl, ◌⊎◌, inl, inr, Option, none, some, [], arith, is_nil, ltb, leb,
  Text, ok, err, Option-cases, Bool-cases,
}
use cafe_discovery.Results.{take}
use cafe_discovery.Client.{
  Server, not_found, Reply, get_method, delete_method, wallet_scan, http_request, read_reply,
  map_http_error, reply_limit,
}

abbrev pub succeeded : ℕ → Bool
succeeded status = leb 200 status && ltb status 300

-- What the service documents of one wallet scan, where `row` is the body of the caller's row: reading
-- changes nothing and answers with the row or 404; a deletion, whether its reply arrives or not, leaves
-- the row or removes it, and removes it where it is confirmed or answered with 404.
pub record IsServer (R : Type 0) (server : Server R) (row : ℕ → ℕ → R → Option Text) : Type 0 where
  pub get_keeps :
      (user : ℕ) (tenant : Text) (scan : ℕ) (r : R)
      → row user scan (server.send (http_request get_method (wallet_scan scan) user tenant []) r).0
        ≡ row user scan r
  pub get_found :
      (user : ℕ) (tenant : Text) (scan : ℕ) (r : R) (reply : Reply)
      → (server.send (http_request get_method (wallet_scan scan) user tenant []) r).1 ≡ some reply
      → succeeded reply.status ≡ true
      → row user scan r ≡ some reply.body
  pub get_missing :
      (user : ℕ) (tenant : Text) (scan : ℕ) (r : R) (reply : Reply)
      → (server.send (http_request get_method (wallet_scan scan) user tenant []) r).1 ≡ some reply
      → reply.status ≡ 404
      → row user scan r ≡ none
  pub delete_effect :
      (user : ℕ) (tenant : Text) (scan : ℕ) (r : R)
      → (row user scan
            (server.send (http_request delete_method (wallet_scan scan) user tenant []) r).0
          ≡ row user scan r)
        ⊎ (row user scan
              (server.send (http_request delete_method (wallet_scan scan) user tenant []) r).0
            ≡ none)
  pub delete_done :
      (user : ℕ) (tenant : Text) (scan : ℕ) (r : R) (reply : Reply)
      → (server.send (http_request delete_method (wallet_scan scan) user tenant []) r).1
        ≡ some reply
      → (succeeded reply.status ≡ true) ⊎ (reply.status ≡ 404)
      → row user scan
          (server.send (http_request delete_method (wallet_scan scan) user tenant []) r).0
        ≡ none

-- The status behind an error of mapHTTPError.
missing_status : (status : ℕ) → map_http_error status ≡ not_found → status ≡ 404
unfolding map_http_error
missing_status status h = ground (arith, h)

pub reply_cases :
    {A : Type 0} (blank : A) (read : Text → Option A) (reply : Option Reply)
    → ((a : A)
        → read_reply blank read reply ≡ ok a
        → (p : Reply) × (reply ≡ some p)
          × (succeeded p.status ≡ true)
          × (((is_nil (take reply_limit p.body) ≡ true) × (a ≡ blank))
              ⊎ (read (take reply_limit p.body) ≡ some a)))
      × (read_reply blank read reply ≡ err not_found
          → (p : Reply) × (reply ≡ some p) × (p.status ≡ 404))
unfolding read_reply
reply_cases blank read none = (λ a h. absurd (ground (arith, h)), λ h. absurd (ground (arith, h)))
reply_cases blank read (some p) = elim (Bool-cases (succeeded p.status)) [
  | inr s ↦ (
    λ a h. absurd (ground (arith, s, h)),
    λ h. (p, refl, missing_status p.status (ground (arith, s, h))),
  )
  | inl s ↦ elim (Bool-cases (is_nil (take reply_limit p.body))) [
    | inl b ↦ (
      λ a h. (p, refl, s, inl (b, ground (arith, s, b, h))),
      λ h. absurd (ground (arith, s, b, h)),
    )
    | inr b ↦ elim (Option-cases (read (take reply_limit p.body))) [
      | inl d ↦
          (λ a h. absurd (ground (arith, s, b, d, h)), λ h. absurd (ground (arith, s, b, d, h)))
      | inr (w, d) ↦ (
        λ a h. (p, refl, s, inr (ground (arith, s, b, d, h))),
        λ h. absurd (ground (arith, s, b, d, h)),
      )
    ]
  ]
]
