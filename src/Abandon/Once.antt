-- ===== src/Abandon/Once.antt =====
-- What the abandoner remembers stays within the open reservations, and no reservation is due again
-- once it was reported.
use cafe_discovery.Base.{
  ℕ, suc, ◌+◌, ◌≤◌, true, false, not, ◌&&◌, ◌≡◌, refl, ◌∙◌, ◌⊎◌, inl, inr, some, List, [], ◌∷◌,
  arith, ◌==◌, ==_iff, select, mem, lookup, drop_keys, has_key, lookup-insert, lookup-drop_keys,
  Bool-cases, Option-cases,
}
use cafe_discovery.Ledger.Queries.{OpenReservation}
use cafe_discovery.Abandon.{Abandoner, visit, visit_all, scan_ids, due}

-- Every reported scan is still among the missing ones.
abbrev pub SentIsMissing : List ℕ → List (ℕ × ℕ) → Type 0
SentIsMissing [] m = Unit {0}
SentIsMissing (id ∷ ids) m = (has_key id m ≡ true) × SentIsMissing ids m

abbrev pub Inside : List ℕ → List ℕ → Type 0
Inside [] ys = Unit {0}
Inside (x ∷ xs) ys = (mem x ys ≡ true) × Inside xs ys

visit_keeps :
    (grace now : ℕ) (sent queued : List ℕ) (scan k : ℕ) (m : List (ℕ × ℕ))
    → mem k sent ≡ true
    → lookup k (visit grace now sent queued scan m).0 ≡ lookup k m
unfolding visit
visit_keeps grace now sent queued scan k m h = ground (
  arith,
  lookup-insert scan k now m,
  lookup-drop_keys (λ j. j == scan) k m,
  ==_iff k scan,
  ==_iff scan k,
)

visit_all_keeps :
    (grace now : ℕ) (sent queued : List ℕ) (rows : List OpenReservation) (k : ℕ) (m : List (ℕ × ℕ))
    → mem k sent ≡ true
    → lookup k (visit_all grace now sent queued rows m).0 ≡ lookup k m
unfolding visit_all
visit_all_keeps grace now sent queued [] k m h = refl
visit_all_keeps grace now sent queued (row ∷ rows) k m h =
    visit_all_keeps grace now sent queued rows k (visit grace now sent queued row.scan_id m).0 h
    ∙ visit_keeps grace now sent queued row.scan_id k m h

Inside-cons : (xs ys : List ℕ) (y : ℕ) → Inside xs ys → Inside xs (y ∷ ys)
Inside-cons [] ys y h = tt
Inside-cons (x ∷ xs) ys y h = ground (arith, Inside-cons xs ys y h.1)

Inside-refl : (xs : List ℕ) → Inside xs xs
Inside-refl [] = tt
Inside-refl (x ∷ xs) = ground (arith, Inside-cons xs xs x (Inside-refl xs))

SentIsMissing-loop :
    (grace now : ℕ) (sent queued : List ℕ) (rows : List OpenReservation) (m : List (ℕ × ℕ))
    (ids : List ℕ)
    → Inside ids sent
    → SentIsMissing ids m
    → SentIsMissing ids (visit_all grace now sent queued rows m).0
SentIsMissing-loop grace now sent queued rows m [] i s = tt
SentIsMissing-loop grace now sent queued rows m (id ∷ ids) i s = (
  rw (visit_all_keeps grace now sent queued rows id m i.0, has_key) s.0,
  SentIsMissing-loop grace now sent queued rows m ids i.1 s.1,
)

prune_lem :
    (seen : List ℕ) (m : List (ℕ × ℕ)) (ids : List ℕ)
    → SentIsMissing ids m
    → SentIsMissing
        (select (λ id. not (has_key id m && not (mem id seen))) ids)
        (drop_keys (λ id. not (mem id seen)) m)
      × Inside (select (λ id. not (has_key id m && not (mem id seen))) ids) seen
prune_lem seen m [] s = (tt, tt)
prune_lem seen m (id ∷ ids) s =
    ground (arith, prune_lem seen m ids s.1, lookup-drop_keys (λ j. not (mem j seen)) id m)

-- A round of Due keeps every reported scan among the missing ones, and afterwards the reported
-- scans are all open: what the abandoner remembers does not grow past the open reservations.
pub due-SentIsMissing :
    (a : Abandoner) (now : ℕ) (rows : List OpenReservation) (queued : List ℕ)
    → SentIsMissing a.sent a.missing_since
    → SentIsMissing (due a now rows queued).0.sent (due a now rows queued).0.missing_since
      × Inside (due a now rows queued).0.sent (scan_ids rows)
unfolding due
due-SentIsMissing a now rows queued s =
    prune_lem (scan_ids rows) (visit_all a.grace now a.sent queued rows a.missing_since).0 a.sent (
      SentIsMissing-loop a.grace now a.sent queued rows a.missing_since a.sent (Inside-refl a.sent)
        s)

abbrev pub IsAmong : OpenReservation → List OpenReservation → Type 0
IsAmong r [] = true ≡ false
IsAmong r (row ∷ rows) = (r ≡ row) ⊎ IsAmong r rows

-- Each row of a list is an open one, unreported, out of the queue, and was missing for the grace period.
abbrev pub AllDue : Abandoner → ℕ → List OpenReservation → List ℕ → List OpenReservation → Type 0
AllDue a now rows queued [] = Unit {0}
AllDue a now rows queued (r ∷ rs) =
    (IsAmong r rows
      × (mem r.scan_id a.sent ≡ false)
      × (mem r.scan_id queued ≡ false)
      × (first : ℕ) × (lookup r.scan_id a.missing_since ≡ some first)
      × (first + a.grace ≤ now))
    × AllDue a now rows queued rs

-- During the loop an entry is an old one or was made in this round.
abbrev Recent : ℕ → List (ℕ × ℕ) → List (ℕ × ℕ) → Type 0
Recent now old m = (k v : ℕ) → lookup k m ≡ some v → (v ≡ now) ⊎ (lookup k old ≡ some v)

visit-Recent :
    (grace now : ℕ) (sent queued : List ℕ) (scan : ℕ) (old m : List (ℕ × ℕ))
    → Recent now old m
    → Recent now old (visit grace now sent queued scan m).0
unfolding visit
visit-Recent grace now sent queued scan old m h k v e =
    ground (arith, h k v, lookup-insert scan k now m, lookup-drop_keys (λ j. j == scan) k m)

hit_lem :
    (grace now : ℕ) (sent queued : List ℕ) (scan : ℕ) (old m : List (ℕ × ℕ))
    → Recent now old m
    → suc 0 ≤ grace
    → (visit grace now sent queued scan m).1 ≡ true
    → (mem scan sent ≡ false)
      × (mem scan queued ≡ false)
      × (first : ℕ) × (lookup scan old ≡ some first)
      × (first + grace ≤ now)
unfolding visit
hit_lem grace now sent queued scan old m recent g h = elim (Option-cases (lookup scan m)) [
  | inl e ↦ absurd (ground (arith, e))
  | inr (first, e) ↦ (
    ground (arith, e),
    ground (arith, e),
    first,
    ground (arith, e, recent scan first e),
    ground (arith, e),
  )
]

visit_all-AllDue :
    (a : Abandoner) (now : ℕ) (queued : List ℕ) (all rows : List OpenReservation) (m : List (ℕ × ℕ))
    → suc 0 ≤ a.grace
    → ((r : OpenReservation) → IsAmong r rows → IsAmong r all)
    → Recent now a.missing_since m
    → AllDue a now all queued (visit_all a.grace now a.sent queued rows m).1
unfolding visit_all
visit_all-AllDue a now queued all [] m g i r = tt
visit_all-AllDue a now queued all (row ∷ rows) m g i r =
    let rest =
      visit_all-AllDue a now queued all rows (visit a.grace now a.sent queued row.scan_id m).0 g
        (λ r among. i r (inr among))
        (visit-Recent a.grace now a.sent queued row.scan_id a.missing_since m r) in
    elim (Bool-cases (visit a.grace now a.sent queued row.scan_id m).1) [
      | inl e ↦
          let (unsent, unqueued, first, found, old) =
            hit_lem a.grace now a.sent queued row.scan_id a.missing_since m r g e in
          rw (e) ((i row (inl refl), unsent, unqueued, first, found, old), rest)
      | inr e ↦ rw (e) rest
    ]

-- With a grace period of at least one nanosecond, each row that a round of Due reports is an open
-- one, was not reported before, is not in the work queue, and an earlier round recorded it as
-- missing at an instant from which the grace period has passed.
pub due-AllDue :
    (a : Abandoner) (now : ℕ) (rows : List OpenReservation) (queued : List ℕ)
    → suc 0 ≤ a.grace
    → AllDue a now rows queued (due a now rows queued).1
unfolding due
due-AllDue a now rows queued g =
    visit_all-AllDue a now queued rows rows a.missing_since g (λ r among. among) (λ k v e. inr e)
