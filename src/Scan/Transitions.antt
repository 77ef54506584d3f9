-- ===== src/Scan/Transitions.antt =====
-- The lifecycle of a scan as a step relation, and `valid_transition` as its decision.
use cafe_discovery.Base.{true, false, String, ◌≡◌, refl, sym, ◌⊎◌, inl, inr, ◌↔◌, arith, eq_iff}
use cafe_discovery.Scan.{
  pending, running, success, failed, timeout, unreachable, is_terminal, valid_transition,
}

-- The states in which a scan ends.
pub data Terminal : String → Type 0 where
  at_success : Terminal success
  at_failed : Terminal failed
  at_timeout : Terminal timeout
  at_unreachable : Terminal unreachable

-- The states in which a scan waits to start; a row without a status waits too.
pub data Waiting : String → Type 0 where
  at_pending : Waiting pending
  at_empty : Waiting ""

-- One move of a scan's status.
pub data Move : String → String → Type 0 where
  start : {s : String} → Waiting s → Move s running
  finish : {t : String} → Terminal t → Move running t
  abort : {s t : String} → Waiting s → Terminal t → Move s t

-- Any number of moves.
pub data Run : String → String → Type 0 where
  here : {s : String} → Run s s
  next : {s t u : String} → Move s t → Run t u → Run s u

Terminal-is_terminal : {s : String} → Terminal s → is_terminal s ≡ true
unfolding is_terminal
Terminal-is_terminal at_success = refl
Terminal-is_terminal at_failed = refl
Terminal-is_terminal at_timeout = refl
Terminal-is_terminal at_unreachable = refl

Waiting-not_terminal : {s : String} → Waiting s → is_terminal s ≡ false
unfolding is_terminal
Waiting-not_terminal at_pending = refl
Waiting-not_terminal at_empty = refl

running_not_terminal : is_terminal running ≡ false
unfolding is_terminal
running_not_terminal = refl

is_terminal_cases :
    (s : String)
    → is_terminal s ≡ true
    → (s ≡ success) ⊎ ((s ≡ failed) ⊎ ((s ≡ timeout) ⊎ (s ≡ unreachable)))
unfolding is_terminal
is_terminal_cases s h =
    ground (arith, eq_iff s success, eq_iff s failed, eq_iff s timeout, eq_iff s unreachable)

pub is_terminal-Terminal : (s : String) → is_terminal s ≡ true → Terminal s
is_terminal-Terminal s h = elim (is_terminal_cases s h) [
  | inl e ↦ rw e at_success
  | inr (inl e) ↦ rw e at_failed
  | inr (inr (inl e)) ↦ rw e at_timeout
  | inr (inr (inr e)) ↦ rw e at_unreachable
]

Waiting-cases : (s : String) → (s ≡ pending) ⊎ (s ≡ "") → Waiting s
Waiting-cases s (inl e) = rw e at_pending
Waiting-cases s (inr e) = rw e at_empty

Move-valid : {s t : String} → Move s t → valid_transition s t ≡ true
unfolding valid_transition
Move-valid (start at_pending) = refl
Move-valid (start at_empty) = refl
Move-valid (finish at_success) = refl
Move-valid (finish at_failed) = refl
Move-valid (finish at_timeout) = refl
Move-valid (finish at_unreachable) = refl
Move-valid (abort at_pending at_success) = refl
Move-valid (abort at_pending at_failed) = refl
Move-valid (abort at_pending at_timeout) = refl
Move-valid (abort at_pending at_unreachable) = refl
Move-valid (abort at_empty at_success) = refl
Move-valid (abort at_empty at_failed) = refl
Move-valid (abort at_empty at_timeout) = refl
Move-valid (abort at_empty at_unreachable) = refl

-- What a successful test of `valid_transition` says of the two states.
valid_transition_cases :
    (s t : String)
    → valid_transition s t ≡ true
    → ((t ≡ running) × ((s ≡ pending) ⊎ (s ≡ "")))
      ⊎ ((is_terminal t ≡ true) × ((s ≡ running) ⊎ ((s ≡ pending) ⊎ (s ≡ ""))))
unfolding valid_transition
valid_transition_cases s t h =
    ground (arith, eq_iff s "", eq_iff s pending, eq_iff s running, eq_iff t running)

valid-Move : (s t : String) → valid_transition s t ≡ true → Move s t
valid-Move s t h = elim (valid_transition_cases s t h) [
  | inl (e, w) ↦ rw e (start (Waiting-cases s w))
  | inr (e, inl r) ↦ rw r (finish (is_terminal-Terminal t e))
  | inr (e, inr w) ↦ abort (Waiting-cases s w) (is_terminal-Terminal t e)
]

-- `valid_transition` accepts exactly the moves of the relation `Move`, in both directions: start a
-- waiting scan, end a running one, or end a waiting one.
pub valid_transition-Move : (s t : String) → (valid_transition s t ≡ true) ↔ Move s t
valid_transition-Move s t = (valid-Move s t, Move-valid)

Move-from_Terminal : {s t : String} → Terminal s → Move s t → ⊥
Move-from_Terminal h (start w) = cc (Terminal-is_terminal h, Waiting-not_terminal w)
Move-from_Terminal h (finish f) = cc (Terminal-is_terminal h, running_not_terminal)
Move-from_Terminal h (abort w f) = cc (Terminal-is_terminal h, Waiting-not_terminal w)

Run-from_Terminal : {s t : String} → Terminal s → Run s t → s ≡ t
Run-from_Terminal h here = refl
Run-from_Terminal h (next m r) = absurd (Move-from_Terminal h m)

-- A scan whose status is terminal keeps that status, whatever accepted transitions follow.
pub terminal_absorbs : (s t : String) → is_terminal s ≡ true → Run s t → t ≡ s
terminal_absorbs s t h r = sym (Run-from_Terminal (is_terminal-Terminal s h) r)
