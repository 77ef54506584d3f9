-- ===== src/Accept/Anonymous.antt =====
-- internal/handler/discovery.go: a request that carries no user.
use cafe_discovery.Base.{
  ℕ, Bool, true, false, ◌≡◌, refl, ◌⊎◌, ◌&&◌, inl, inr, Option, none, some, arith, Text, trim, ◌==◌,
  err, Result-cases, Option-cases, Bool-cases,
}
use cafe_discovery.Plan.{Repositories, reserve_post_scan_quota}
use cafe_discovery.Ledger.Tables.{Db}
use cafe_discovery.Address.{validate_and_normalize_address}
use cafe_discovery.Accept.{
  Answer, accepted, refused_with, already_written, QueueError, committed, refuse, Call, ScanRows,
  PendingRecord, Locals, absent, wrong_type, signed_in, get_authenticated_user_id, status_left,
  check_rows, pending_wallet_reservation_state, check_wallet_cpm_context, prepare_tls_scan_queue,
  reserve_scan_quota, Family, scan_type_of, wallet_family, tls_family,
}
use cafe_discovery.Accept.Post.{
  Handler, State, check_wallet_scan_in_flight, prepare_wallet_scan_queue, queue_scan, post_wallet,
  post_tls, post_discovery_scan, answer_error, pending_record,
}
use cafe_discovery.Accept.Outcome.{accepted-queued}
use cafe_discovery.Accept.Paths.{is_accepted, publication_cases}

-- The answer 401, or no answer of the handler's own.
abbrev pub is_unauthorised : Answer → Bool
is_unauthorised (accepted status scan family) = status == 401
is_unauthorised (refused_with status body) = status == 401
is_unauthorised already_written = true

abbrev turns_away : QueueError → Bool
turns_away committed = true
turns_away (refuse status body) = status == 401

rows_lem :
    (rows : Option ScanRows) (user : ℕ) (address : Text) (e : QueueError)
    → check_rows rows user address ≡ err e
    → turns_away e ≡ false
unfolding check_rows
rows_lem none user address e h = absurd (ground (arith, h))
rows_lem (some q) user address e h = elim (Option-cases (q.by_address user address)) [
  | inl f ↦ ground (arith, f, h)
  | inr (statuses, f) ↦ ground (arith, f, h)
]

pending_lem :
    (rows : Option ScanRows) (user : ℕ) (address : Text) (r : PendingRecord) (e : QueueError)
    → pending_wallet_reservation_state rows user address r ≡ err e
    → turns_away e ≡ false
unfolding pending_wallet_reservation_state
pending_lem none user address r e h = absurd (ground (arith, h))
pending_lem (some q) user address r e h = elim (Option-cases (q.find_owned user r.scan_id)) [
  | inl f ↦ ground (arith, f, h)
  | inr (none, f) ↦ absurd (ground (arith, f, h))
  | inr (some status, f) ↦ absurd (ground (arith, f, h))
]

cpm_lem :
    (policies : Option (ℕ → Text → Text → Option ℕ)) (user : ℕ) (tenant address : Text)
    (e : QueueError)
    → check_wallet_cpm_context policies user tenant address ≡ err e
    → turns_away e ≡ false
unfolding check_wallet_cpm_context
cpm_lem none user tenant address e h = ground (arith, h)
cpm_lem (some q) user tenant address e h = elim (Option-cases (q user tenant address)) [
  | inl f ↦ ground (arith, f, h)
  | inr (count, f) ↦ ground (arith, f, h)
]

quota_lem :
    (plans : Option Repositories) (call : Call) (ledger : Option Db) (user : ℕ) (family : Family)
    (e : QueueError)
    → reserve_scan_quota plans call ledger user (scan_type_of family) ≡ err e
    → turns_away e ≡ false
unfolding reserve_scan_quota
quota_lem none call ledger user family e h = absurd (ground (arith, h))
quota_lem (some repos) call none user family e h = ground (arith, h)
quota_lem (some repos) call (some db) user family e h =
    elim (Result-cases (
      reserve_post_scan_quota repos call.faults call.stamp (some db) user call.scan_id
        (scan_type_of family))) [
          | inr (x, f) ↦ ground (arith, f, h)
          | inl ((out, db'), f) ↦ elim (Bool-cases out.accepted) [
            | inl g ↦ absurd (ground (arith, f, g, h))
            | inr g ↦ ground (arith, f, g, h)
          ]
        ]

auth_lem :
    (write_fails : Bool) (locals : Locals)
    → write_fails ≡ false
    → (get_authenticated_user_id write_fails locals).1 ≡ false
unfolding get_authenticated_user_id
auth_lem write_fails absent h = h
auth_lem write_fails wrong_type h = h
auth_lem write_fails (signed_in id) h = ground (arith, h)

module _ (P : Type 0) where
  in_flight_lem :
      (h : Handler P) (user : ℕ) (tenant address : Text) (p : P) (e : QueueError)
      → (check_wallet_scan_in_flight P h user tenant address p).1 ≡ err e
      → turns_away e ≡ false
  unfolding check_wallet_scan_in_flight
  in_flight_lem h user tenant address p e k =
      elim (Option-cases (h.store.get_wallet user tenant address p)) [
        | inl f ↦ ground (arith, f, k)
        | inr (none, f) ↦ rows_lem h.rows user address e (rw (f, check_wallet_scan_in_flight) at k)
        | inr (some r, f) ↦
            elim (Result-cases (pending_wallet_reservation_state h.rows user address r)) [
              | inr (x, g) ↦ ground (arith, f, g, k, pending_lem h.rows user address r x g)
              | inl (verdict, g) ↦ ground (arith, f, g, k, rows_lem h.rows user address e)
            ]
      ]

  tls_lem :
      (h : Handler P) (call : Call) (e : QueueError)
      → call.write_fails ≡ false
      → prepare_tls_scan_queue h.parse_url h.presence call ≡ err e
      → turns_away e ≡ false
  unfolding prepare_tls_scan_queue
  tls_lem h call e w k = elim (Option-cases (h.parse_url call.url)) [
    | inl f ↦ ground (arith, f, k, auth_lem call.write_fails call.locals w)
    | inr (u, f) ↦ ground (arith, f, k, auth_lem call.write_fails call.locals w)
  ]

  wallet_lem :
      (h : Handler P) (call : Call) (p : P) (e : QueueError)
      → call.write_fails ≡ false
      → (prepare_wallet_scan_queue P h call p).1 ≡ err e
      → turns_away e ≡ false
  unfolding prepare_wallet_scan_queue
  wallet_lem h call p e w k =
      let user = (get_authenticated_user_id call.write_fails call.locals).0 in
      let tenant = trim call.tenant in
      elim (Result-cases (validate_and_normalize_address call.address)) [
        | inr (x, f) ↦ ground (arith, f, k, auth_lem call.write_fails call.locals w)
        | inl (a, f) ↦ elim (Result-cases (check_wallet_scan_in_flight P h user tenant a p).1) [
          | inr (x, g) ↦ ground (
            arith,
            f,
            g,
            k,
            auth_lem call.write_fails call.locals w,
            in_flight_lem h user tenant a p x g,
          )
          | inl (free, g) ↦
              elim (Result-cases (check_wallet_cpm_context h.policies user tenant a)) [
                | inr (x, c) ↦ ground (
                  arith,
                  f,
                  g,
                  c,
                  k,
                  auth_lem call.write_fails call.locals w,
                  cpm_lem h.policies user tenant a x c,
                )
                | inl (clear, c) ↦
                    ground (arith, f, g, c, k, auth_lem call.write_fails call.locals w)
              ]
        ]
      ]

  -- The 401 that is left under an acceptance.
  abbrev OnlyAccepted : Call → Answer → Type 0
  OnlyAccepted call a = is_unauthorised a ≡ (is_accepted a && (status_left call.locals == 401))

  error_lem :
      (call : Call) (e : QueueError) → turns_away e ≡ false → OnlyAccepted call (answer_error P e)
  error_lem call committed h = h
  error_lem call (refuse status body) h = h

  queue_lem :
      (h : Handler P) (call : Call) (user : ℕ) (family : Family) (target : Text) (s : State P)
      → OnlyAccepted call (queue_scan P h call user family target s).1
  unfolding queue_scan
  queue_lem h call user family target s =
      elim (Result-cases (reserve_scan_quota h.plans call s.ledger user (scan_type_of family))) [
        | inr (x, e) ↦
            rw (e, queue_scan) (error_lem call x (quota_lem h.plans call s.ledger user family x e))
        | inl (ledger, e) ↦ elim (publication_cases call.publication) [
          | inl up ↦ rw (e, up, queue_scan) refl
          | inr (inl lost) ↦ rw (e, lost, queue_scan) refl
          | inr (inr down) ↦ rw (e, down, queue_scan) refl
        ]
      ]

  post_wallet_lem :
      (h : Handler P) (call : Call) (s : State P)
      → call.write_fails ≡ false
      → OnlyAccepted call (post_wallet P h call s).1
  unfolding post_wallet
  post_wallet_lem h call s w =
      elim (Result-cases (prepare_wallet_scan_queue P h call s.pending).1) [
        | inr (x, e) ↦ rw (e, post_wallet) (error_lem call x (wallet_lem h call s.pending x w e))
        | inl ((user, a), e) ↦
            elim (Option-cases (
              h.store.reserve_wallet user (trim call.tenant)
                (pending_record P call user wallet_family a)
                (prepare_wallet_scan_queue P h call s.pending).0)) [
                  | inl f ↦ rw (e, f, post_wallet) refl
                  | inr ((held, p), f) ↦ elim (Bool-cases held) [
                    | inl g ↦
                        rw (e, f, g, post_wallet)
                          (queue_lem h call user wallet_family a (record s { pending = p }))
                    | inr g ↦ rw (e, f, g, post_wallet) refl
                  ]
                ]
      ]

  post_tls_lem :
      (h : Handler P) (call : Call) (s : State P)
      → call.write_fails ≡ false
      → OnlyAccepted call (post_tls P h call s).1
  unfolding post_tls
  post_tls_lem h call s w =
      elim (Result-cases (prepare_tls_scan_queue h.parse_url h.presence call)) [
        | inr (x, e) ↦ rw (e, post_tls) (error_lem call x (tls_lem h call x w e))
        | inl ((user, endpoint), e) ↦
            elim (Option-cases (
              h.store.put_tls user (trim call.tenant)
                (pending_record P call user tls_family endpoint) s.pending)) [
                  | inl f ↦ rw (e, f, post_tls) refl
                  | inr (p, f) ↦
                      rw (e, f, post_tls)
                        (queue_lem h call user tls_family endpoint (record s { pending = p }))
                ]
      ]

  post_lem :
      (h : Handler P) (call : Call) (s : State P)
      → call.write_fails ≡ false
      → OnlyAccepted call (post_discovery_scan P h call s).1
  unfolding post_discovery_scan
  post_lem h call s w = ground (arith, post_wallet_lem h call s w, post_tls_lem h call s w)

  -- With a plan service, a request whose user id is nil or missing is never accepted.
  pub anonymous-refused :
      (h : Handler P) (call : Call) (s : State P) (repos : Repositories)
      → h.plans ≡ some repos
      → (get_authenticated_user_id call.write_fails call.locals).0 ≡ 0
      → is_accepted (post_discovery_scan P h call s).1 ≡ false
  anonymous-refused h call s repos plans nobody =
      elim (Bool-cases (is_accepted (post_discovery_scan P h call s).1)) [
        | inr e ↦ e
        | inl e ↦
            let (family, target, _, _, _, charged) = accepted-queued P h call s e in
            absurd (ground (arith, charged, plans, nobody))
      ]

  nobody_left :
      (write_fails : Bool) (locals : Locals)
      → (status_left locals == 401) ≡ true
      → (get_authenticated_user_id write_fails locals).0 ≡ 0
  unfolding status_left get_authenticated_user_id
  nobody_left write_fails absent h = refl
  nobody_left write_fails wrong_type h = refl
  nobody_left write_fails (signed_in id) h = ground (arith, h)

  -- While responses can be written, the scan endpoint answers 401 only where it accepts the scan of a
  -- request without a user: a refusal replaces the 401 of getAuthenticatedUserID by its own status, and
  -- an acceptance leaves it. With a plan service it never answers 401.
  pub post_discovery_scan-401 :
      (h : Handler P) (call : Call) (s : State P)
      → call.write_fails ≡ false
      → (is_unauthorised (post_discovery_scan P h call s).1
          ≡ (is_accepted (post_discovery_scan P h call s).1 && (status_left call.locals == 401)))
        × ((h.plans ≡ none) ⊎ (is_unauthorised (post_discovery_scan P h call s).1 ≡ false))
  post_discovery_scan-401 h call s w =
      let left = post_lem h call s w in
      elim (Option-cases h.plans) [
        | inl none_set ↦ (left, inl none_set)
        | inr (repos, plans) ↦ elim (Bool-cases (status_left call.locals == 401)) [
          | inr other ↦ (left, inr (ground (arith, left, other)))
          | inl nobody ↦
              let refused =
                anonymous-refused h call s repos plans
                  (nobody_left call.write_fails call.locals nobody) in
              (left, inr (ground (arith, left, refused)))
        ]
      ]
