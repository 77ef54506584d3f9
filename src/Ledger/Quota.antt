-- ===== src/Ledger/Quota.antt =====
-- What the ledger promises over any history of calls: one row for a scan, and no user above quota.
use cafe_discovery.Base.{
  ℕ, ◌+◌, ◌≤◌, ◌<◌, Bool, true, false, not, ◌&&◌, ◌==◌, str_eq, String, ◌≡◌, ◌⊎◌, inl, inr, List,
  [], ◌∷◌, ℤ, is_positive, pos_part, arith, eq_iff, if◌then◌else◌, select, count_if, any_of,
  count_if-append, count_if-select-le, ok, Bool-cases,
}
use cafe_discovery.Ledger.Tables.{UsageEvent, WalletRow, TlsRow, Db, Stamp, Faults}
use cafe_discovery.Ledger.Queries.{usage_of, ledger_count}
use cafe_discovery.Ledger.Reserve.{
  record_success_usage, has_scan, usage_event, insert_if_absent,
  record_success_usage_if_under_limit, Reservation, allowed, refusal, reserve_scan_usage,
  release_success_usage,
}
use cafe_discovery.Ledger.Snapshot.{reserve_cases, Reserved, Refused, extra_count}

-- A call of the ledger under the given limits and caps that has come through, or a change that
-- cafe-persistence makes to the result tables. RecordSuccessUsageIfUnderLimitInTx takes no lock: it may
-- have counted in tables that are not those it inserts into.
pub data Call (limit cap : ℕ → String → ℤ) (db : Db) : Db → Type 0 where
  reserve :
      (faults : Faults) (stamp : Stamp) (user scan : ℕ) (kind : String) {r : Reservation} {db' : Db}
      → reserve_scan_usage faults stamp db user scan kind (limit user kind) (cap user kind)
        ≡ ok (r, db')
      → Call limit cap db db'
  record_usage :
      (faults : Faults) (stamp : Stamp) (user scan : ℕ) (kind : String) {db' : Db}
      → record_success_usage faults stamp db user scan kind ≡ ok db'
      → Call limit cap db db'
  record_under_limit :
      (faults : Faults) (stamp : Stamp) (user scan : ℕ) (kind : String) (b : Bool) (seen seen' : Db)
      → record_success_usage_if_under_limit faults stamp seen user scan kind (limit user kind)
        ≡ ok (b, seen')
      → Call limit cap db (
          if b
          then record db { events = insert_if_absent (usage_event stamp user scan kind) db.events }
          else db)
  release :
      (faults : Faults) (scan : ℕ) {db' : Db}
      → release_success_usage faults db scan ≡ ok db'
      → Call limit cap db db'
  persist :
      (ws : List WalletRow) (es : List TlsRow)
      → Call limit cap db (record db { wallets = ws; endpoints = es })

pub data Calls (limit cap : ℕ → String → ℤ) (db : Db) : Db → Type 0 where
  here : Calls limit cap db db
  next : {d e : Db} → Calls limit cap db d → Call limit cap d e → Calls limit cap db e

abbrev of_same : ℕ → String → ℕ → String → ℕ
of_same user kind u k = if (user == u) && str_eq kind k then 1 else 0

-- How many calls recorded a usage of a user and kind without the lock.
abbrev pub unguarded_call :
    (limit cap : ℕ → String → ℤ) {d e : Db} → Call limit cap d e → ℕ → String → ℕ
unguarded_call limit cap (reserve faults stamp user scan kind h) u k = 0
unguarded_call limit cap (record_usage faults stamp user scan kind h) u k = of_same user kind u k
unguarded_call limit cap (record_under_limit faults stamp user scan kind true seen seen' h) u k =
    of_same user kind u k
unguarded_call limit cap (record_under_limit faults stamp user scan kind false seen seen' h) u k = 0
unguarded_call limit cap (release faults scan h) u k = 0
unguarded_call limit cap (persist ws es) u k = 0

abbrev pub unguarded :
    (limit cap : ℕ → String → ℤ) {d e : Db} → Calls limit cap d e → ℕ → String → ℕ
unguarded limit cap here u k = 0
unguarded limit cap (next calls c) u k =
    unguarded limit cap calls u k + unguarded_call limit cap c u k

-- No user holds more ledger rows of a kind than a positive limit and what is allowed above it.
abbrev pub WithinQuota : (ℕ → String → ℤ) → (ℕ → String → ℕ) → Db → Type 0
WithinQuota limit above db =
    (user : ℕ) (kind : String)
    → (is_positive (limit user kind) ≡ false)
      ⊎ (ledger_count db user kind ≤ pos_part (limit user kind) + above user kind)

-- Each scan has at most one ledger row.
abbrev pub UniqueScans : List UsageEvent → Type 0
UniqueScans [] = Unit {0}
UniqueScans (e ∷ es) = (any_of (has_scan e.scan_id) es ≡ false) × UniqueScans es

pub count-insert_if_absent :
    (p : UsageEvent → Bool) (e : UsageEvent) (es : List UsageEvent)
    → count_if p (insert_if_absent e es) ≤ count_if p es + (if p e then 1 else 0)
unfolding insert_if_absent
count-insert_if_absent p e es = ground (arith, count_if-append p es (e ∷ []))

-- A new row counts for one user and one kind only.
usage_of_new :
    (stamp : Stamp) (user scan u : ℕ) (kind k : String)
    → usage_of u k (usage_event stamp user scan kind) ≡ true
    → (user ≡ u) × (kind ≡ k)
unfolding usage_of
usage_of_new stamp user scan u kind k h = ground (arith, eq_iff kind k)

pub allowed-below :
    (limit cap : ℤ) (l x p : ℕ)
    → refusal (record { ledger = l; extra_in_flight = x; parallel = p }) limit cap ≡ allowed
    → is_positive limit ≡ true
    → l + x < pos_part limit
unfolding refusal
allowed-below limit cap l x p h k = ground arith

module _ (limit : ℕ → String → ℤ) where
  -- A row that was inserted below the limit leaves all counts within it.
  guarded-WithinQuota :
      (above : ℕ → String → ℕ) (db : Db) (stamp : Stamp) (user scan : ℕ) (kind : String)
      → (is_positive (limit user kind) ≡ true
          → ledger_count db user kind < pos_part (limit user kind))
      → WithinQuota limit above db
      → WithinQuota limit above
          (record db { events = insert_if_absent (usage_event stamp user scan kind) db.events })
  unfolding ledger_count
  guarded-WithinQuota above db stamp user scan kind room w u k =
      let e = usage_event stamp user scan kind in
      let grown = count-insert_if_absent (usage_of u k) e db.events in
      elim (w u k) [
        | inl none ↦ inl none
        | inr few ↦ elim (Bool-cases (usage_of u k e)) [
          | inr other ↦ inr (ground (arith, grown, other, few))
          | inl new ↦
              let (eu, ek) = usage_of_new stamp user scan u kind k new in
              elim (Bool-cases (is_positive (limit u k))) [
                | inr none ↦ inl none
                | inl positive ↦
                    let below : ledger_count db u k < pos_part (limit u k) =
                      rw (← eu, ← ek) (room (rw (eu, ek) positive)) in
                    inr (ground (arith, grown, below, new))
              ]
        ]
      ]

  -- Any other row counts once for its user and kind.
  unguarded-WithinQuota :
      (above : ℕ → String → ℕ) (db : Db) (stamp : Stamp) (user scan : ℕ) (kind : String)
      → WithinQuota limit above db
      → WithinQuota limit
          (λ u k. above u k + of_same user kind u k)
          (record db { events = insert_if_absent (usage_event stamp user scan kind) db.events })
  unfolding ledger_count usage_of
  unguarded-WithinQuota above db stamp user scan kind w u k = ground (
    arith,
    w u k,
    count-insert_if_absent (usage_of u k) (usage_event stamp user scan kind) db.events,
  )

  more-WithinQuota :
      (above more : ℕ → String → ℕ) (db : Db)
      → WithinQuota limit above db
      → WithinQuota limit (λ u k. above u k + more u k) db
  more-WithinQuota above more db w u k = elim (w u k) [
    | inl none ↦ inl none
    | inr few ↦ inr (omega (arith, few))
  ]

  reserve-WithinQuota :
      (above : ℕ → String → ℕ) (db db' : Db) (stamp : Stamp) (user scan : ℕ) (kind : String)
      (cap : ℤ) (r : Reservation)
      → Reserved stamp db user scan kind (limit user kind) cap r db'
        ⊎ Refused db user kind (limit user kind) cap r db'
      → WithinQuota limit above db
      → WithinQuota limit above db'
  reserve-WithinQuota above db db' stamp user scan kind cap r (inl (open_slot, _, e)) w = rw e (
      guarded-WithinQuota above db stamp user scan kind
        (λ positive. omega (
          arith,
          allowed-below (limit user kind) cap (ledger_count db user kind) (extra_count db user kind)
              _ open_slot positive,
        ))
        w)
  reserve-WithinQuota above db db' stamp user scan kind cap r (inr (_, _, e)) w = rw e w

  release-WithinQuota :
      (above : ℕ → String → ℕ) (db : Db) (scan : ℕ)
      → WithinQuota limit above db
      → WithinQuota limit above
          (record db { events = select (λ e. not (has_scan scan e)) db.events })
  unfolding ledger_count
  release-WithinQuota above db scan w u k =
      ground
        (arith, w u k, count_if-select-le (usage_of u k) (λ e. not (has_scan scan e)) db.events)

record_lem :
    (faults : Faults) (stamp : Stamp) (db : Db) (user scan : ℕ) (kind : String) (db' : Db)
    → record_success_usage faults stamp db user scan kind ≡ ok db'
    → db' ≡ record db { events = insert_if_absent (usage_event stamp user scan kind) db.events }
unfolding record_success_usage
record_lem faults stamp db user scan kind db' h = ground (arith, h)

release_lem :
    (faults : Faults) (db : Db) (scan : ℕ) (db' : Db)
    → release_success_usage faults db scan ≡ ok db'
    → db' ≡ record db { events = select (λ e. not (has_scan scan e)) db.events }
unfolding release_success_usage
release_lem faults db scan db' h = ground arith

Call-WithinQuota :
    (limit cap : ℕ → String → ℤ) (above : ℕ → String → ℕ) {d e : Db} (c : Call limit cap d e)
    → WithinQuota limit above d
    → WithinQuota limit (λ u k. above u k + unguarded_call limit cap c u k) e
Call-WithinQuota limit cap above {d} {e} (reserve faults stamp user scan kind {r = r} h) w =
    more-WithinQuota limit above (λ u k. 0) e
      (reserve-WithinQuota limit above d e stamp user scan kind (cap user kind) r
        (reserve_cases faults stamp d user scan kind (limit user kind) (cap user kind) h) w)
Call-WithinQuota limit cap above {d} {e} (record_usage faults stamp user scan kind h) w =
    rw (record_lem faults stamp d user scan kind e h)
      (unguarded-WithinQuota limit above d stamp user scan kind w)
Call-WithinQuota limit cap above {d}
      (record_under_limit faults stamp user scan kind true seen seen' h) w =
    unguarded-WithinQuota limit above d stamp user scan kind w
Call-WithinQuota limit cap above {d}
      (record_under_limit faults stamp user scan kind false seen seen' h) w =
    more-WithinQuota limit above (λ u k. 0) d w
Call-WithinQuota limit cap above {d} {e} (release faults scan h) w =
    rw (release_lem faults d scan e h)
      (more-WithinQuota limit above (λ u k. 0) _ (release-WithinQuota limit above d scan w))
Call-WithinQuota limit cap above {d} {e} (persist ws es) w =
    more-WithinQuota limit above (λ u k. 0) e (unfold ledger_count in w)

-- From a ledger within quota, after any sequence of calls of the ledger and of changes that cafe-persistence
-- makes to the result tables, no user holds more rows of a kind than a positive limit plus the calls
-- for that user and kind of RecordSuccessUsage, which has no limit, and of
-- RecordSuccessUsageIfUnderLimitInTx that inserted, which takes no lock. Reservations add nothing to
-- the limit.
pub calls-WithinQuota :
    (limit cap : ℕ → String → ℤ) (d e : Db) (calls : Calls limit cap d e)
    → WithinQuota limit (λ u k. 0) d
    → WithinQuota limit (unguarded limit cap calls) e
calls-WithinQuota limit cap d e here w = w
calls-WithinQuota limit cap d e (next {d = m} calls c) w =
    Call-WithinQuota limit cap (unguarded limit cap calls) c
      (calls-WithinQuota limit cap d m calls w)
