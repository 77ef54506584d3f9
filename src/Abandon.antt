-- ===== src/Abandon.antt =====
-- internal/service/scan_request_abandon.go: which reserved scans have left the work queue for good.
-- A Go map is an association list, a set of identifiers a list; instants are numbers of nanoseconds.
pub mod Once
pub mod Publish
mod Tests
use cafe_discovery.Base.{
  ℕ, ◌+◌, ◌-◌, Bool, true, false, not, ◌&&◌, Option, none, some, List, [], ◌∷◌, map, leb, ◌==◌,
  if◌then◌else◌, select, mem, lookup, insert, erase, drop_keys, has_key, ℤ, is_positive, pos_part,
}
use cafe_discovery.Ledger.Queries.{OpenReservation}

-- Two minutes.
abbrev pub scan_request_missing_grace : ℕ
scan_request_missing_grace = 120_000_000_000

pub record Abandoner : Type 0 where
  pub grace : ℕ
  pub missing_since : List (ℕ × ℕ)
  pub sent : List ℕ

-- NewScanRequestAbandoner
unfoldable pub new_abandoner : ℤ → Abandoner
new_abandoner grace = record {
  grace = if not (is_positive grace) then scan_request_missing_grace else pos_part grace;
  missing_since = [];
  sent = [];
}

-- One round of the loop over the open rows: the new missing_since, and whether the row is due.
unfoldable pub visit : ℕ → ℕ → List ℕ → List ℕ → ℕ → List (ℕ × ℕ) → List (ℕ × ℕ) × Bool
visit grace now sent queued scan missing =
    if mem scan sent
    then (missing, false)
    else if mem scan queued
    then (erase scan missing, false)
    else elim (lookup scan missing) [
      | none ↦ (insert scan now missing, false)
      | some first ↦ (missing, leb grace (now - first))
    ]

unfoldable pub visit_all :
    ℕ
    → ℕ
    → List ℕ
    → List ℕ
    → List OpenReservation
    → List (ℕ × ℕ)
    → List (ℕ × ℕ) × List OpenReservation
visit_all grace now sent queued [] missing = (missing, [])
visit_all grace now sent queued (row ∷ rows) missing =
    let (missing', hit) = visit grace now sent queued row.scan_id missing in
    let (missing'', due) = visit_all grace now sent queued rows missing' in
    (missing'', if hit then row ∷ due else due)

abbrev pub scan_ids : List OpenReservation → List ℕ
scan_ids = map (λ r. r.scan_id)

-- Due. The last loop deletes from both maps the missing scans that are no longer open.
unfoldable pub due :
    Abandoner → ℕ → List OpenReservation → List ℕ → Abandoner × List OpenReservation
due a now open_rows queued =
    let (missing, rows) = visit_all a.grace now a.sent queued open_rows a.missing_since in
    let seen = scan_ids open_rows in
    (
      record a {
        missing_since = drop_keys (λ id. not (mem id seen)) missing;
        sent = select (λ id. not (has_key id missing && not (mem id seen))) a.sent;
      },
      rows,
    )

-- MarkSent
unfoldable pub mark_sent : ℕ → Abandoner → Abandoner
mark_sent id a = record a { sent = if mem id a.sent then a.sent else id ∷ a.sent }
