-- ===== src/Accept/Paths.antt =====
-- The paths of POST /discovery/v1/scan: a refusal before the quota, or the quota and the publication.
use mathlib.Core.Path.{subst}
use cafe_discovery.Base.{
  ℕ, Bool, true, false, not, ◌&&◌, String, ◌≡◌, refl, ◌⊎◌, inl, inr, Option, none, some, [], ◌∷◌,
  ◌++◌, arith, if◌then◌else◌, is_nil, trim, Text, any_of, select-not_none, ok, Result-cases,
  Option-cases, Bool-cases,
}
use cafe_discovery.Ledger.Tables.{Db, delete_event}
use cafe_discovery.Ledger.Reserve.{has_scan, release_success_usage}
use cafe_discovery.Ledger.Effects.{release-reserve}
use cafe_discovery.Plan.{
  Repositories, PostScanResult, reserve_post_scan_quota, quota_limit, plan_parallel_scan_cap,
  is_unlimited,
}
use cafe_discovery.Plan.Guarantees.{reserve_post_cases}
use cafe_discovery.Address.{validate_and_normalize_address}
use cafe_discovery.Accept.{
  Family, scan_type_of, QueueError, Answer, accepted, Call, reserve_scan_quota, release_quota,
  prepare_tls_scan_queue, get_authenticated_user_id, status_left, Message, BrokerAnswer, stored,
  unacknowledged, not_stored, wallet_family, tls_family, Refusal, refused_with, invalid_body,
  both_targets, no_target, committed, refuse,
}
use cafe_discovery.Accept.Post.{
  Handler, State, queue_scan, prepare_wallet_scan_queue, post_wallet, post_tls, post_discovery_scan,
  answer_error, pending_record,
}

abbrev pub is_accepted : Answer → Bool
is_accepted (accepted status scan family) = true
is_accepted _ = false

-- A reservation by the handler that went through.
abbrev pub Held : Option Repositories → Call → Option Db → ℕ → String → Option Db → Type 0
Held plans call ledger user scan_type ledger' =
    ((plans ≡ none) × (ledger' ≡ ledger))
    ⊎ ((repos : Repositories) × (db : Db) × (db' : Db) × (out : PostScanResult) × (ledger ≡ some db)
        × (ledger' ≡ some db')
        × (reserve_post_scan_quota repos call.faults call.stamp (some db) user call.scan_id
              scan_type
            ≡ ok (out, db'))
        × (out.accepted ≡ true))

reserve-Held :
    (plans : Option Repositories) (call : Call) (ledger ledger' : Option Db) (user : ℕ)
    (scan_type : String)
    → reserve_scan_quota plans call ledger user scan_type ≡ ok ledger'
    → Held plans call ledger user scan_type ledger'
unfolding reserve_scan_quota
reserve-Held none call ledger ledger' user scan_type h = inl (refl, ground (arith, h))
reserve-Held (some repos) call none ledger' user scan_type h = absurd (ground (arith, h))
reserve-Held (some repos) call (some db) ledger' user scan_type h =
    elim (Result-cases (
      reserve_post_scan_quota repos call.faults call.stamp (some db) user call.scan_id scan_type)) [
        | inr (x, e) ↦ absurd (ground (arith, e, h))
        | inl ((out, db'), e) ↦ elim (Bool-cases out.accepted) [
          | inr no_slot ↦ absurd (ground (arith, e, no_slot, h))
          | inl slot ↦ inr (repos, db, db', out, refl, ground (arith, e, slot, h), e, slot)
        ]
      ]

-- No row of the ledger is for this scan, as for an id that uuid.New just gave.
abbrev pub Fresh : Option Db → ℕ → Type 0
Fresh none scan = Unit {0}
Fresh (some db) scan = any_of (has_scan scan) db.events ≡ false

release-Fresh :
    (call : Call) (ledger : Option Db)
    → call.faults delete_event ≡ false
    → Fresh ledger call.scan_id
    → release_quota call ledger ≡ ledger
unfolding release_quota release_success_usage
release-Fresh call none up fresh = refl
release-Fresh call (some db) up fresh =
    ground (arith, up, select-not_none (has_scan call.scan_id) db.events fresh)

release-reserve_post :
    (repos : Repositories) (call : Call) (db db' : Db) (user : ℕ) (scan_type : String)
    (out : PostScanResult)
    → reserve_post_scan_quota repos call.faults call.stamp (some db) user call.scan_id scan_type
      ≡ ok (out, db')
    → call.faults delete_event ≡ false
    → any_of (has_scan call.scan_id) db.events ≡ false
    → release_quota call (some db') ≡ some db
unfolding release_quota
release-reserve_post repos call db db' user scan_type out h up fresh =
    let (plan, limit, res, _, _, _, reserve) =
      reserve_post_cases repos call.faults call.stamp db db' user call.scan_id scan_type out h in
    let back =
      release-reserve call.faults call.faults call.stamp db db' user call.scan_id scan_type
        (quota_limit plan scan_type limit)
        (plan_parallel_scan_cap limit (is_unlimited plan scan_type)) res fresh up reserve in
    ground (arith, back)

-- A held reservation is taken back by the rollback.
release-Held :
    (plans : Option Repositories) (call : Call) (ledger ledger' : Option Db) (user : ℕ)
    (scan_type : String)
    → Held plans call ledger user scan_type ledger'
    → call.faults delete_event ≡ false
    → Fresh ledger call.scan_id
    → release_quota call ledger' ≡ ledger
release-Held plans call ledger ledger' user scan_type (inl (_, e)) up fresh =
    rw e (release-Fresh call ledger up fresh)
release-Held plans call ledger ledger' user scan_type (inr (repos, db, db', out, e, e', h, _)) up
      fresh =
    rw (e, e')
      (release-reserve_post repos call db db' user scan_type out h up
        (subst (λ l. Fresh l call.scan_id) e fresh))

-- What the request asks for: an address in its normal form, or the URL where there is no address.
abbrev pub Requested : Call → Family → Text → Type 0
Requested call wallet_family target =
    (is_nil call.address ≡ false) × (validate_and_normalize_address call.address ≡ ok target)
Requested call tls_family target = (is_nil call.address ≡ true) × (target ≡ call.url)

abbrev pub message : Call → ℕ → Family → Text → Message
message call user family target = record {
  scan_id = call.scan_id;
  user_id = user;
  family = family;
  target = target;
}

pub publication_cases :
    (b : BrokerAnswer) → (b ≡ stored) ⊎ ((b ≡ unacknowledged) ⊎ (b ≡ not_stored))
publication_cases stored = inl refl
publication_cases unacknowledged = inr (inl refl)
publication_cases not_stored = inr (inr refl)

module _ (P : Type 0) where
  -- The quota and the publication of one scan.
  pub queue-accepted :
      (h : Handler P) (call : Call) (user : ℕ) (family : Family) (target : Text) (s : State P)
      → is_accepted (queue_scan P h call user family target s).1 ≡ true
      → Held h.plans call s.ledger user
          (scan_type_of family)
          (queue_scan P h call user family target s).0.ledger
        × ((queue_scan P h call user family target s).0.stream
            ≡ s.stream ++ message call user family target ∷ [])
        × ((queue_scan P h call user family target s).1
            ≡ accepted (status_left call.locals) call.scan_id family)
  unfolding queue_scan
  queue-accepted h call user family target s yes_scan =
      elim (Result-cases (reserve_scan_quota h.plans call s.ledger user (scan_type_of family))) [
        | inr (x, e) ↦ absurd (ground (arith, e, yes_scan))
        | inl (ledger, e) ↦ elim (publication_cases call.publication) [
          | inr (inl lost) ↦ absurd (ground (arith, e, lost, yes_scan))
          | inr (inr down) ↦ absurd (ground (arith, e, down, yes_scan))
          | inl up ↦
              let held = reserve-Held h.plans call s.ledger ledger user (scan_type_of family) e in
              rw (e, up, queue_scan) (held, refl, refl)
        ]
      ]

  pub queue-refused :
      (h : Handler P) (call : Call) (user : ℕ) (family : Family) (target : Text) (s : State P)
      → call.faults delete_event ≡ false
      → Fresh s.ledger call.scan_id
      → is_accepted (queue_scan P h call user family target s).1 ≡ false
      → ((queue_scan P h call user family target s).0.ledger ≡ s.ledger)
        × (((queue_scan P h call user family target s).0.stream ≡ s.stream)
            ⊎ ((call.publication ≡ unacknowledged)
                × ((queue_scan P h call user family target s).0.stream
                    ≡ s.stream ++ message call user family target ∷ [])))
  unfolding queue_scan release_quota
  queue-refused h call user family target s alive fresh no_scan =
      elim (Result-cases (reserve_scan_quota h.plans call s.ledger user (scan_type_of family))) [
        | inr (x, e) ↦ rw (e, queue_scan) (refl, inl refl)
        | inl (ledger, e) ↦
            let held = reserve-Held h.plans call s.ledger ledger user (scan_type_of family) e in
            let back =
              release-Held h.plans call s.ledger ledger user (scan_type_of family) held alive
                fresh in
            elim (publication_cases call.publication) [
              | inl up ↦ absurd (ground (arith, e, up, no_scan))
              | inr (inl lost) ↦ rw (e, lost, queue_scan) (back, inr (refl, refl))
              | inr (inr down) ↦ rw (e, down, queue_scan) (back, inl refl)
            ]
      ]

  answer_error_refuses : (e : QueueError) → is_accepted (answer_error P e) ≡ false
  answer_error_refuses committed = refl
  answer_error_refuses (refuse status body) = refl

  -- An answer that left the ledger and the queue alone, or the answer of the quota and publication.
  abbrev pub Passed : Handler P → Call → State P → State P × Answer → Type 0
  Passed h call s r =
      ((is_accepted r.1 ≡ false) × (r.0.ledger ≡ s.ledger) × (r.0.stream ≡ s.stream))
      ⊎ ((user : ℕ) × (family : Family) × (target : Text) × (p : P) × Requested call family target
          × (user ≡ (get_authenticated_user_id call.write_fails call.locals).0)
          × (r ≡ queue_scan P h call user family target (record s { pending = p })))

  tls-user :
      (h : Handler P) (call : Call) (user : ℕ) (endpoint : Text)
      → prepare_tls_scan_queue h.parse_url h.presence call ≡ ok (user, endpoint)
      → user ≡ (get_authenticated_user_id call.write_fails call.locals).0
  unfolding prepare_tls_scan_queue
  tls-user h call user endpoint e = elim (Option-cases (h.parse_url call.url)) [
    | inl f ↦ absurd (ground (arith, e, f))
    | inr (u, f) ↦ ground (arith, e, f)
  ]

  wallet-user :
      (h : Handler P) (call : Call) (user : ℕ) (normalized : Text) (p : P)
      → (prepare_wallet_scan_queue P h call p).1 ≡ ok (user, normalized)
      → user ≡ (get_authenticated_user_id call.write_fails call.locals).0
  unfolding prepare_wallet_scan_queue
  wallet-user h call user normalized p e =
      elim (Result-cases (validate_and_normalize_address call.address)) [
        | inr (x, f) ↦ absurd (ground (arith, e, f))
        | inl (a, f) ↦ ground (arith, e, f)
      ]

  wallet-Requested :
      (h : Handler P) (call : Call) (user : ℕ) (normalized : Text) (p : P)
      → (prepare_wallet_scan_queue P h call p).1 ≡ ok (user, normalized)
      → Requested call wallet_family normalized
  unfolding prepare_wallet_scan_queue
  wallet-Requested h call user normalized p e =
      elim (Result-cases (validate_and_normalize_address call.address)) [
        | inr (x, f) ↦ absurd (ground (arith, e, f))
        | inl (a, f) ↦ (ground (arith, e), ground (arith, e, f))
      ]

  tls_target :
      (h : Handler P) (call : Call) (user : ℕ) (endpoint : Text)
      → prepare_tls_scan_queue h.parse_url h.presence call ≡ ok (user, endpoint)
      → endpoint ≡ call.url
  unfolding prepare_tls_scan_queue
  tls_target h call user endpoint e = elim (Option-cases (h.parse_url call.url)) [
    | inl f ↦ absurd (ground (arith, e, f))
    | inr (u, f) ↦ ground (arith, e, f)
  ]

  post_wallet-Passed :
      (h : Handler P) (call : Call) (s : State P) → Passed h call s (post_wallet P h call s)
  unfolding post_wallet
  post_wallet-Passed h call s =
      elim (Result-cases (prepare_wallet_scan_queue P h call s.pending).1) [
        | inr (x, e) ↦ inl (rw (e, post_wallet) (answer_error_refuses x, refl, refl))
        | inl ((user, normalized), e) ↦
            elim (Option-cases (
              h.store.reserve_wallet user (trim call.tenant)
                (pending_record P call user wallet_family normalized)
                (prepare_wallet_scan_queue P h call s.pending).0)) [
                  | inl f ↦ inl (rw (e, f, post_wallet) (refl, refl, refl))
                  | inr ((held, p), f) ↦ elim (Bool-cases held) [
                    | inl g ↦ inr (
                      user,
                      wallet_family,
                      normalized,
                      p,
                      wallet-Requested h call user normalized s.pending e,
                      wallet-user h call user normalized s.pending e,
                      rw (e, f, g, post_wallet) refl,
                    )
                    | inr g ↦ inl (rw (e, f, g, post_wallet) (refl, refl, refl))
                  ]
                ]
      ]

  post_tls-Passed :
      (h : Handler P) (call : Call) (s : State P)
      → is_nil call.address ≡ true
      → Passed h call s (post_tls P h call s)
  unfolding post_tls
  post_tls-Passed h call s no_address =
      elim (Result-cases (prepare_tls_scan_queue h.parse_url h.presence call)) [
        | inr (x, e) ↦ inl (rw (e, post_tls) (answer_error_refuses x, refl, refl))
        | inl ((user, endpoint), e) ↦
            elim (Option-cases (
              h.store.put_tls user (trim call.tenant)
                (pending_record P call user tls_family endpoint) s.pending)) [
                  | inl f ↦ inl (rw (e, f, post_tls) (refl, refl, refl))
                  | inr (p, f) ↦ inr (
                    user,
                    tls_family,
                    endpoint,
                    p,
                    (no_address, tls_target h call user endpoint e),
                    tls-user h call user endpoint e,
                    rw (e, f, post_tls) refl,
                  )
                ]
      ]

  choose :
      (h : Handler P) (call : Call) (s : State P) (b : Bool) {x y : State P × Answer}
      → (b ≡ true → Passed h call s x)
      → (b ≡ false → Passed h call s y)
      → Passed h call s (if b then x else y)
  choose h call s true yes_case no_case = yes_case refl
  choose h call s false yes_case no_case = no_case refl

  left_alone :
      (h : Handler P) (call : Call) (s : State P) (status : ℕ) (body : Refusal)
      → Passed h call s (s, refused_with status body)
  left_alone h call s status body = inl (refl, refl, refl)

  pub post-Passed :
      (h : Handler P) (call : Call) (s : State P) → Passed h call s (post_discovery_scan P h call s)
  unfolding post_discovery_scan
  post-Passed h call s =
      let refusal : (status : ℕ) (body : Refusal) → Passed h call s (s, refused_with status body) =
        λ status body. left_alone h call s status body in
      choose h call s (not call.body_bound) (λ e. refusal 400 invalid_body)
        (λ e.
          choose h call s (not (is_nil call.address) && not (is_nil call.url))
            (λ e. refusal 400 both_targets)
            (λ e.
              choose h call s (is_nil call.address && is_nil call.url) (λ e. refusal 400 no_target)
                (λ e.
                  choose h call s (not (is_nil call.address)) (λ e. post_wallet-Passed h call s)
                    (λ none. post_tls-Passed h call s (ground (arith, none))))))
