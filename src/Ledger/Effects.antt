-- ===== src/Ledger/Effects.antt =====
-- What one reservation and its release do to the ledger.
use cafe_discovery.Base.{
  ℕ, ◌+◌, ◌≤◌, ◌<◌, true, false, not, ◌&&◌, String, ◌≡◌, inl, inr, List, [], ◌∷◌, ◌++◌, ℤ,
  is_positive, pos_part, arith, ==_refl, any_of, mem, count_if-append, any_of-append,
  select-not-append, select-not_none, ok,
}
use cafe_discovery.Ledger.Tables.{UsageEvent, Db, Stamp, Faults, delete_event}
use cafe_discovery.Ledger.Queries.{usage_of, ledger_count, open_count, present_ids}
use cafe_discovery.Ledger.Reserve.{
  has_scan, usage_event, insert_if_absent, Reservation, allowed, refusal, reserve_scan_usage,
  release_success_usage,
}
use cafe_discovery.Ledger.Quota.{count-insert_if_absent, allowed-below}
use cafe_discovery.Ledger.Snapshot.{snapshot, flight_count, reserve_cases, Reserved}

-- A scan without a ledger row that is reserved and then released leaves the tables as they were.
pub release-reserve :
    (faults later : Faults) (stamp : Stamp) (db db' : Db) (user scan : ℕ) (kind : String)
    (limit cap : ℤ) (r : Reservation)
    → any_of (has_scan scan) db.events ≡ false
    → later delete_event ≡ false
    → reserve_scan_usage faults stamp db user scan kind limit cap ≡ ok (r, db')
    → release_success_usage later db' scan ≡ ok db
unfolding release_success_usage insert_if_absent
release-reserve faults later stamp db db' user scan kind limit cap r fresh up h =
    let back =
      select-not-append (has_scan scan) db.events (usage_event stamp user scan kind) fresh in
    let same = select-not_none (has_scan scan) db.events fresh in
    elim (reserve_cases faults stamp db user scan kind limit cap h) [
      | inl (_, _, e) ↦ rw (e, up, fresh, back (==_refl scan))
      | inr (_, _, e) ↦ rw (e, up, same)
    ]

allowed-parallel :
    (limit cap : ℤ) (l x p : ℕ)
    → refusal (record { ledger = l; extra_in_flight = x; parallel = p }) limit cap ≡ allowed
    → is_positive cap ≡ true
    → p < pos_part cap
unfolding refusal
allowed-parallel limit cap l x p h k = ground arith

open-insert :
    (db : Db) (e : UsageEvent) (user : ℕ) (kind : String)
    → open_count (record db { events = insert_if_absent e db.events }) user kind
      ≤ open_count db user kind + 1
unfolding open_count insert_if_absent
open-insert db e user kind = ground (
  arith,
  count_if-append (λ x. usage_of user kind x && not (mem x.scan_id (present_ids db kind))) db.events
      (e ∷ []),
)

-- A granted reservation respects the parallel cap also after its own insertion: the scans of that
-- user and kind that are in flight or reserved are at most the cap.
pub reserve-parallel_le_cap :
    (faults : Faults) (stamp : Stamp) (db db' : Db) (user scan : ℕ) (kind : String) (limit cap : ℤ)
    (r : Reservation)
    → is_positive cap ≡ true
    → r.reserved ≡ true
    → reserve_scan_usage faults stamp db user scan kind limit cap ≡ ok (r, db')
    → (snapshot db' user kind).parallel ≤ pos_part cap
unfolding flight_count
reserve-parallel_le_cap faults stamp db db' user scan kind limit cap r positive granted h =
    elim (reserve_cases faults stamp db user scan kind limit cap h) [
      | inl (slot, _, e) ↦
          let room = allowed-parallel limit cap _ _ _ slot positive in
          let more = open-insert db (usage_event stamp user scan kind) user kind in
          rw e (omega (arith, room, more))
      | inr (no_slot, _, _) ↦ ground (arith, no_slot)
    ]

-- A granted reservation leaves its owner within a positive quota limit, whatever the state before.
pub Reserved-le_limit :
    (stamp : Stamp) (db db' : Db) (user scan : ℕ) (kind : String) (limit cap : ℤ) (r : Reservation)
    → Reserved stamp db user scan kind limit cap r db'
    → is_positive limit ≡ true
    → ledger_count db' user kind ≤ pos_part limit
unfolding ledger_count
Reserved-le_limit stamp db db' user scan kind limit cap r (slot, _, e) positive =
    let below = allowed-below limit cap _ _ _ slot positive in
    let grown =
      count-insert_if_absent (usage_of user kind) (usage_event stamp user scan kind) db.events in
    rw e (ground (arith, below, grown))

insert-has_scan :
    (e : UsageEvent) (es : List UsageEvent)
    → any_of (has_scan e.scan_id) (insert_if_absent e es) ≡ true
unfolding insert_if_absent
insert-has_scan e es = ground (arith, any_of-append (has_scan e.scan_id) es (e ∷ []))

pub Reserved-has_scan :
    (stamp : Stamp) (db db' : Db) (user scan : ℕ) (kind : String) (limit cap : ℤ) (r : Reservation)
    → Reserved stamp db user scan kind limit cap r db'
    → any_of (has_scan scan) db'.events ≡ true
Reserved-has_scan stamp db db' user scan kind limit cap r (_, _, e) =
    rw e (insert-has_scan (usage_event stamp user scan kind) db.events)

-- A granted reservation of a scan without a row appends exactly its row.
pub Reserved-fresh :
    (stamp : Stamp) (db db' : Db) (user scan : ℕ) (kind : String) (limit cap : ℤ) (r : Reservation)
    → Reserved stamp db user scan kind limit cap r db'
    → any_of (has_scan scan) db.events ≡ false
    → db' ≡ record db { events = db.events ++ usage_event stamp user scan kind ∷ [] }
unfolding insert_if_absent
Reserved-fresh stamp db db' user scan kind limit cap r (_, _, e) fresh = rw (e, fresh)
