-- ===== src/Abandon/Publish/AcknowledgedOnce.antt =====
-- A reservation that stays open is not reported again once a report was acknowledged.
use cafe_discovery.Base.{
  ℕ, ◌+◌, ◌≤◌, Bool, true, false, not, ◌&&◌, ◌||◌, Result, ◌≡◌, refl, ap, inl, inr, Option, none,
  some, List, [], ◌∷◌, arith, ◌==◌, ==_iff, if◌then◌else◌, select, count_if, mem, has_key, ℤ, Text,
  text_eq, text_eq_iff, ok, err, Result-cases, Option-cases,
}
use cafe_discovery.Scan.{kind_wallet, kind_tls}
use cafe_discovery.Lifecycle.{Failed}
use cafe_discovery.Ledger.Queries.{OpenReservation}
use cafe_discovery.Abandon.{Abandoner, new_abandoner, visit, visit_all, scan_ids, due, mark_sent}
use cafe_discovery.Accept.{BrokerAnswer, stored, unacknowledged, not_stored}
use cafe_discovery.Abandon.Publish.{
  PendingGet, Broker, Transport, answered, core_nats, jet_stream, AbandonError, failed_event,
  Publication, abandoned_wallet_address, scan_ids_from_payloads, publish, publish_abandoned_scan,
  publish_rows, publish_missing,
}

-- What the ticker's loop sees in one round: the instant, the work queue, the open reservations, the
-- pending store and the broker.
pub record Round : Type 0 where
  pub now : ℕ
  pub payloads : Option (List Text)
  pub open_rows : Option (List OpenReservation)
  pub pending : PendingGet
  pub broker : Broker

abbrev pub is_row : ℕ → OpenReservation → Bool
is_row scan row = row.scan_id == scan

-- Whenever the ledger answers, the reservation is among the open ones, once.
abbrev pub StaysOpen : ℕ → List Round → Type 0
StaysOpen scan [] = Unit {0}
StaysOpen scan (r ∷ rs) =
    elim r.open_rows [ none ↦ Unit {0} | some rows ↦ count_if (is_row scan) rows ≡ 1 ]
    × StaysOpen scan rs

abbrev marked : ℕ → Abandoner → ℕ
marked scan a = if mem scan a.sent then 1 else 0

mem-select : (p : ℕ → Bool) (k : ℕ) (xs : List ℕ) → p k ≡ true → mem k (select p xs) ≡ mem k xs
mem-select p k [] h = refl
mem-select p k (x ∷ xs) h = ground (arith, mem-select p k xs h, ==_iff x k)

open-mem :
    (scan : ℕ) (rows : List OpenReservation)
    → count_if (is_row scan) rows ≡ 1
    → mem scan (scan_ids rows) ≡ true
open-mem scan (row ∷ rows) h = ground (arith, open-mem scan rows)
open-mem scan [] h = absurd (ground (arith, h))

visit-marked :
    (grace now : ℕ) (sent queued : List ℕ) (scan : ℕ) (m : List (ℕ × ℕ))
    → mem scan sent ≡ true
    → (visit grace now sent queued scan m).1 ≡ false
unfolding visit
visit-marked grace now sent queued scan m h = ground arith

visit_all-once :
    (grace now : ℕ) (sent queued : List ℕ) (scan : ℕ) (rows : List OpenReservation)
    (m : List (ℕ × ℕ))
    → count_if (is_row scan) (visit_all grace now sent queued rows m).1
        + (if mem scan sent then 1 else 0)
      ≤ (if mem scan sent then 1 else count_if (is_row scan) rows)
unfolding visit_all
visit_all-once grace now sent queued scan [] m = ground arith
visit_all-once grace now sent queued scan (row ∷ rows) m = ground (
  arith,
  visit_all-once grace now sent queued scan rows (visit grace now sent queued row.scan_id m).0,
  visit-marked grace now sent queued row.scan_id m,
  ==_iff row.scan_id scan,
)

due-once :
    (a : Abandoner) (now scan : ℕ) (rows : List OpenReservation) (queued : List ℕ)
    → count_if (is_row scan) rows ≡ 1
    → (marked scan (due a now rows queued).0 ≡ marked scan a)
      × (count_if (is_row scan) (due a now rows queued).1 + marked scan (due a now rows queued).0
          ≤ 1)
unfolding due
due-once a now scan rows queued h =
    let missing = (visit_all a.grace now a.sent queued rows a.missing_since).0 in
    let kept =
      mem-select (λ id. not (has_key id missing && not (mem id (scan_ids rows)))) scan a.sent
        (ground (arith, open-mem scan rows h)) in
    let once = visit_all-once a.grace now a.sent queued scan rows a.missing_since in
    rw (kept) (refl, ground (arith, once, h))

module _ (uuid_string : ℕ → Text) where
  -- A publication that reports the scan.
  abbrev pub reports : ℕ → Publication → Bool
  reports scan p = text_eq p.event.scan_id (uuid_string scan)

  abbrev pub count_acknowledged : ℕ → List Publication → ℕ
  count_acknowledged scan log = count_if (λ p. p.acknowledged && reports scan p) log

  -- No report of the scan comes after an acknowledged one; the newest is the first.
  abbrev pub is_quiet : ℕ → List Publication → Bool
  is_quiet scan [] = true
  is_quiet scan (p ∷ log) =
      (not (reports scan p) || (count_acknowledged scan log == 0)) && is_quiet scan log

  module _ (parse_uuid : Text → Option ℕ)
      (parse-uuid_string : (n : ℕ) → parse_uuid (uuid_string n) ≡ some n) where
    same_uuid : (m n : ℕ) → text_eq (uuid_string m) (uuid_string n) ≡ true → m ≡ n
    same_uuid m n h =
        let e = (text_eq_iff (uuid_string m) (uuid_string n)).0 h in
        ground (arith, parse-uuid_string m, parse-uuid_string n, ap parse_uuid e)

    -- The scans that are reported and remembered: what holds between the rows of a round.
    abbrev Remembered : ℕ → Abandoner → List Publication → Type 0
    Remembered scan a log =
        (count_acknowledged scan log ≤ marked scan a) × (is_quiet scan log ≡ true)

    module _ (pending : PendingGet) (broker : Broker) where
      -- What a publication does to the reports of a scan that has no acknowledged one, or of another.
      abbrev Reported :
          ℕ → Failed → List Publication → List Publication × Result AbandonError Bool → Type 0
      Reported scan event log out =
          (count_acknowledged scan out.0
            ≤ count_acknowledged scan log + (elim out.1 [
              | ok sent ↦ if sent && text_eq event.scan_id (uuid_string scan) then 1 else 0
              | err e ↦ 0
            ]))
          × (is_quiet scan out.0 ≡ true)

      answered-reports :
          (scan : ℕ) (transport : Transport) (event : Failed) (log : List Publication)
          (answer : BrokerAnswer)
          → (text_eq event.scan_id (uuid_string scan) ≡ true → count_acknowledged scan log ≡ 0)
          → is_quiet scan log ≡ true
          → Reported scan event log (answered uuid_string pending broker transport event log answer)
      answered-reports scan transport event log stored first quiet = ground (arith, first, quiet)
      answered-reports scan transport event log unacknowledged first quiet =
          ground (arith, first, quiet)
      answered-reports scan transport event log not_stored first quiet = ground (arith, quiet)

      publish-reports :
          (scan : ℕ) (transport : Transport) (event : Failed) (log : List Publication)
          → (text_eq event.scan_id (uuid_string scan) ≡ true → count_acknowledged scan log ≡ 0)
          → is_quiet scan log ≡ true
          → Reported scan event log (publish uuid_string pending broker transport event log)
      unfolding publish
      publish-reports scan transport event log first quiet =
          answered-reports scan transport event log (broker transport event log) first quiet

      abandoned-reports :
          (scan : ℕ) (row : OpenReservation) (log : List Publication)
          → (is_row scan row ≡ true → count_acknowledged scan log ≡ 0)
          → is_quiet scan log ≡ true
          → (count_acknowledged scan (publish_abandoned_scan uuid_string pending broker row log).0
              ≤ count_acknowledged scan log
                + (elim (publish_abandoned_scan uuid_string pending broker row log).1 [
                  | ok sent ↦ if sent && is_row scan row then 1 else 0
                  | err e ↦ 0
                ]))
            × (is_quiet scan (publish_abandoned_scan uuid_string pending broker row log).0 ≡ true)
      unfolding publish_abandoned_scan
      abandoned-reports scan row log first quiet =
          let same : text_eq (uuid_string row.scan_id) (uuid_string scan) ≡ is_row scan row =
            ground (
              arith,
              same_uuid row.scan_id scan,
              ==_iff row.scan_id scan,
              text_eq_iff (uuid_string row.scan_id) (uuid_string scan),
              ap uuid_string,
            ) in
          elim (Result-cases (abandoned_wallet_address pending row)) [
            | inl (n, e) ↦ ground (
              arith,
              e,
              same,
              first,
              quiet,
              publish-reports scan core_nats
                  (failed_event uuid_string pending broker row kind_tls []) log,
              publish-reports scan jet_stream
                  (failed_event uuid_string pending broker row kind_wallet n) log,
            )
            | inr (x, e) ↦ ground (
              arith,
              e,
              same,
              first,
              quiet,
              publish-reports scan core_nats
                  (failed_event uuid_string pending broker row kind_tls []) log,
            )
          ]

      rows-once :
          (scan : ℕ) (rows : List OpenReservation) (a : Abandoner) (log : List Publication)
          → count_if (is_row scan) rows + marked scan a ≤ 1
          → Remembered scan a log
          → Remembered scan
              (publish_rows uuid_string pending broker rows a log).0.0
              (publish_rows uuid_string pending broker rows a log).0.1
      unfolding publish_rows mark_sent
      rows-once scan [] a log o h = h
      rows-once scan (row ∷ rows) a log o (few, quiet) =
          let p = publish_abandoned_scan uuid_string pending broker row log in
          let (step, still) =
            abandoned-reports scan row log (λ hit. ground (arith, hit, o, few)) quiet in
          elim (Result-cases p.1) [
            | inr (x, e) ↦ rw (e, publish_rows) (ground (arith, e, step, few), still)
            | inl (false, e) ↦
                rw (e, publish_rows)
                  (rows-once scan rows a p.0 (ground (arith, o))
                    (ground (arith, e, step, few), still))
            | inl (true, e) ↦
                rw (e, publish_rows)
                  (rows-once scan rows (mark_sent row.scan_id a) p.0
                    (ground (arith, o, ==_iff row.scan_id scan))
                    (ground (arith, e, step, few, o, ==_iff row.scan_id scan), still))
          ]

    module _ (decode_scan_id : Text → Option ℕ) where
      abbrev round_of :
          Round
          → Abandoner
          → List Publication
          → (Abandoner × List Publication) × Result AbandonError (Unit {0})
      round_of r a log =
          publish_missing uuid_string r.pending r.broker decode_scan_id r.now r.payloads r.open_rows
            a log

      missing-once :
          (scan : ℕ) (r : Round) (rs : List Round) (a : Abandoner) (log : List Publication)
          → StaysOpen scan (r ∷ rs)
          → Remembered scan a log
          → Remembered scan (round_of r a log).0.0 (round_of r a log).0.1
      unfolding publish_missing
      missing-once scan r rs a log s h = elim (Option-cases r.payloads) [
        | inl e ↦ rw (e) h
        | inr (payloads, e) ↦ elim (Option-cases r.open_rows) [
          | inl f ↦ rw (e, f) h
          | inr (rows, f) ↦
              let queued = scan_ids_from_payloads decode_scan_id payloads in
              let (kept, once) = due-once a r.now scan rows queued (rw f at s.0) in
              rw (e, f)
                (rows-once r.pending r.broker scan (due a r.now rows queued).1
                  (due a r.now rows queued).0 log once (rw (kept) h))
        ]
      ]

  -- The loop of RunScanRequestAbandoner over the rounds of its ticker.
  unfoldable pub run_rounds :
      (Text → Option ℕ) → List Round → Abandoner → List Publication → Abandoner × List Publication
  run_rounds decode_scan_id [] a published = (a, published)
  run_rounds decode_scan_id (r ∷ rs) a published =
      let ((a', published'), answer) =
        publish_missing uuid_string r.pending r.broker decode_scan_id r.now r.payloads r.open_rows a
          published in
      run_rounds decode_scan_id rs a' published'

  module _ (parse_uuid : Text → Option ℕ)
      (parse-uuid_string : (n : ℕ) → parse_uuid (uuid_string n) ≡ some n)
      (decode_scan_id : Text → Option ℕ) where
    run-once :
        (scan : ℕ) (rs : List Round) (a : Abandoner) (log : List Publication)
        → StaysOpen scan rs
        → count_acknowledged scan log ≤ marked scan a
        → is_quiet scan log ≡ true
        → (count_acknowledged scan (run_rounds decode_scan_id rs a log).1 ≤ 1)
          × (is_quiet scan (run_rounds decode_scan_id rs a log).1 ≡ true)
    unfolding run_rounds
    run-once scan [] a log s few quiet = (ground (arith, few), quiet)
    run-once scan (r ∷ rs) a log s few quiet =
        let (fewer, still) =
          missing-once parse_uuid parse-uuid_string decode_scan_id scan r rs a log s (few, quiet) in
        run-once scan rs _ _ s.1 fewer still

    -- Whatever the broker, the queue, the ledger and the pending store answer in each round of the
    -- abandoner's loop, of a reservation that is open once whenever the ledger is read at most one
    -- report is acknowledged, and after it none is made. uuid.Parse reads back what uuid.String wrote.
    pub run_rounds-once :
        (grace : ℤ) (scan : ℕ) (rs : List Round)
        → StaysOpen scan rs
        → (count_acknowledged scan (run_rounds decode_scan_id rs (new_abandoner grace) []).1 ≤ 1)
          × (is_quiet scan (run_rounds decode_scan_id rs (new_abandoner grace) []).1 ≡ true)
    unfolding new_abandoner
    run_rounds-once grace scan rs s = run-once scan rs (new_abandoner grace) [] s (omega arith) refl
