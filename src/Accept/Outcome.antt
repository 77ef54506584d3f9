-- ===== src/Accept/Outcome.antt =====
-- What an answer of POST /discovery/v1/scan says about the ledger and the work queue.
use cafe_discovery.Base.{
  ℕ, ◌≤◌, String, true, false, ◌≡◌, sym, ◌∙◌, ◌⊎◌, inl, inr, Option, none, some, [], ◌∷◌, ◌++◌,
  arith, Text, any_of, ◌==◌,
}
use cafe_discovery.Ledger.Tables.{Db, delete_event}
use cafe_discovery.Ledger.Reserve.{has_scan}
use cafe_discovery.Ledger.Snapshot.{snapshot}
use cafe_discovery.Plan.{Repositories}
use cafe_discovery.Plan.Guarantees.{reserve_post_cases, ledger_bounds, reserve_post-user}
use cafe_discovery.Accept.{
  Family, scan_type_of, accepted, unacknowledged, status_left, Call, get_authenticated_user_id,
}
use cafe_discovery.Accept.Post.{Handler, State, queue_scan, post_discovery_scan}
use cafe_discovery.Accept.Paths.{
  is_accepted, Requested, message, Fresh, Held, post-Passed, queue-accepted, queue-refused,
}

module _ (P : Type 0) where
  abbrev pub caller : Call → ℕ
  caller call = (get_authenticated_user_id call.write_fails call.locals).0

  -- A scan request that is not accepted leaves the quota ledger as it was, on every path: also where the
  -- quota row was inserted and the publication then failed. It leaves the work queue as it was too,
  -- unless the broker stored the message and its acknowledgement did not come: then the message of the
  -- refused scan is in the queue. The scan id has no row before, and the database does not refuse
  -- the release.
  pub refused-unchanged :
      (h : Handler P) (call : Call) (s : State P)
      → call.faults delete_event ≡ false
      → Fresh s.ledger call.scan_id
      → is_accepted (post_discovery_scan P h call s).1 ≡ false
      → ((post_discovery_scan P h call s).0.ledger ≡ s.ledger)
        × (((post_discovery_scan P h call s).0.stream ≡ s.stream)
            ⊎ ((call.publication ≡ unacknowledged)
                × (family : Family) × (target : Text) × Requested call family target
                × ((post_discovery_scan P h call s).0.stream
                    ≡ s.stream ++ message call (caller call) family target ∷ [])))
  refused-unchanged h call s alive fresh no_scan = elim (post-Passed P h call s) [
    | inl (_, same, same') ↦ (same, inl same')
    | inr (user, family, target, p, asked, owner, e) ↦
        let (ledger, stream) =
          queue-refused P h call user family target (record s { pending = p }) alive fresh
            (rw e at no_scan) in
        elim stream [
          | inl kept ↦ (rw e ledger, inl (rw e kept))
          | inr (lost, sent) ↦
              (rw e ledger, inr (lost, family, target, asked, rw (e, sym owner) sent))
        ]
  ]

  -- The scan's row and the bounds of its owner, where a plan service is configured.
  abbrev pub Charged : Option Repositories → Option Db → ℕ → ℕ → String → Type 0
  Charged plans ledger user scan scan_type =
      (plans ≡ none)
      ⊎ ((db : Db) × (ledger ≡ some db)
          × (any_of (has_scan scan) db.events ≡ true)
          × ((snapshot db user scan_type).parallel ≤ 3)
          × ((user == 0) ≡ false))

  Held-Charged :
      (plans : Option Repositories) (call : Call) (ledger ledger' : Option Db) (user : ℕ)
      (scan_type : String)
      → Held plans call ledger user scan_type ledger'
      → Charged plans ledger' user call.scan_id scan_type
  Held-Charged plans call ledger ledger' user scan_type (inl (e, _)) = inl e
  Held-Charged plans call ledger ledger' user scan_type (inr (repos, db, db', out, _, e, h, slot)) =
      let (plan, limit, res, ep, el, acc, reserve) =
        reserve_post_cases repos call.faults call.stamp db db' user call.scan_id scan_type out h in
      let (row, few, _) =
        ledger_bounds call.faults call.stamp db db' user call.scan_id scan_type plan limit res
          reserve (acc ∙ slot) el in
      inr (
        db',
        e,
        row,
        few,
        reserve_post-user repos call.faults call.stamp db user call.scan_id scan_type (out, db') h,
      )

  -- A scan request that is accepted answers with its own scan id, has appended one message to the work
  -- queue, for the caller and for the address of the request in its normal form or, where it has no
  -- address, its URL, and, where a plan service is configured, the caller is a user, the
  -- scan has its ledger row and the caller has at most three scans of that type reserved or in flight.
  pub accepted-queued :
      (h : Handler P) (call : Call) (s : State P)
      → is_accepted (post_discovery_scan P h call s).1 ≡ true
      → (family : Family) × (target : Text) × Requested call family target
        × ((post_discovery_scan P h call s).1
            ≡ accepted (status_left call.locals) call.scan_id family)
        × ((post_discovery_scan P h call s).0.stream
            ≡ s.stream ++ message call (caller call) family target ∷ [])
        × Charged h.plans
            (post_discovery_scan P h call s).0.ledger
            (caller call)
            call.scan_id
            (scan_type_of family)
  accepted-queued h call s yes_scan = elim (post-Passed P h call s) [
    | inl (no_scan, _, _) ↦ absurd (ground (arith, no_scan, yes_scan))
    | inr (user, family, target, p, asked, same, e) ↦
        let (held, sent, answer) =
          queue-accepted P h call user family target (record s { pending = p })
            (rw e at yes_scan) in
        let charged =
          Held-Charged h.plans call s.ledger
            (queue_scan P h call user family target (record s { pending = p })).0.ledger user
            (scan_type_of family) held in
        (family, target, asked, rw e answer, rw (e, sym same) sent, rw (e, sym same) charged)
  ]
