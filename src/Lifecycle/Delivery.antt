-- ===== src/Lifecycle/Delivery.antt =====
-- Each delivery is settled once, after at most two calls, and acknowledged only when it may be.
use cafe_discovery.Base.{
  ℕ, zero, suc, ◌+◌, ◌≤◌, ◌<◌, Bool, true, false, not, ◌||◌, ◌&&◌, String, ◌≡◌, refl, ◌⊎◌, inl, inr,
  Option, none, some, List, [], ◌∷◌, arith, str_eq, count_if, any_of, Text, Result, ok, err,
  Option-cases,
}
use cafe_discovery.Scan.{is_terminal}
use cafe_discovery.Lifecycle.{
  Contracts, EventError, invalid_wallet_event, not_wallet_event, WalletCommand,
}
use cafe_discovery.Lifecycle.Settle.{
  Effect, called, waited, interrupted, ack, term, nak, Metadata, Delivery, Verdict, settled, again,
  judge, judge_call, attempt_from, settle_command, command_of, settle,
}

abbrev pub is_call : Effect → Bool
is_call (called n) = true
is_call _ = false

abbrev pub is_ack : Effect → Bool
is_ack ack = true
is_ack _ = false

abbrev pub is_term : Effect → Bool
is_term term = true
is_term _ = false

-- An effect that ends the delivery: an answer to JetStream, or the shutdown of the service.
abbrev pub is_end : Effect → Bool
is_end ack = true
is_end term = true
is_end nak = true
is_end interrupted = true
is_end _ = false

-- An answer of cafe-persistence for which the event counts as handled.
unfoldable pub accepts : String → String → Bool → Bool
accepts target outcome ready =
    (str_eq outcome "applied" || str_eq outcome "already_applied")
      && (not (is_terminal target) || ready)
    || not (str_eq outcome "applied" || str_eq outcome "already_applied")
      && (str_eq outcome "already_running" || str_eq outcome "already_terminal")

Verdict-cases :
    (v : Verdict) → ((es : List Effect) × (v ≡ settled es)) ⊎ ((b : Bool) × (v ≡ again b))
Verdict-cases (settled es) = inl (es, refl)
Verdict-cases (again b) = inr (b, refl)

-- What holds of the effects of a verdict that settles.
judge_shape :
    (target : String) (answer : Option (String × Bool)) (es : List Effect)
    → judge_call target answer ≡ settled es
    → (count_if is_end es ≡ 1) × (count_if is_call es ≡ 0)
unfolding judge_call judge
judge_shape target none es h = cc
judge_shape target (some (outcome, ready)) es h = ground arith

attempt_ends :
    (d : Delivery) (target : String) (body : Text) (rounds attempt : ℕ) (transport : Bool)
    → (count_if is_end (attempt_from d target body rounds attempt transport) ≡ 1)
      × (count_if is_call (attempt_from d target body rounds attempt transport) ≤ rounds)
unfolding attempt_from
attempt_ends d target body zero attempt transport = (refl, omega arith)
attempt_ends d target body (suc rounds) attempt transport =
    elim (Verdict-cases (judge_call target (d.apply attempt body))) [
      | inl (es, e) ↦ ground (arith, e, judge_shape target (d.apply attempt body) es e)
      | inr (fault, e) ↦
          ground (arith, e, attempt_ends d target body rounds (attempt + 1) (fault || transport))
    ]

settle_command_ends :
    (d : Delivery) (r : Result EventError WalletCommand)
    → (count_if is_end (settle_command d r) ≡ 1) × (count_if is_call (settle_command d r) ≤ 2)
unfolding settle_command
settle_command_ends d (err not_wallet_event) = (refl, omega arith)
settle_command_ends d (err invalid_wallet_event) = (refl, omega arith)
settle_command_ends d (ok cmd) = elim (Option-cases (d.marshal cmd)) [
  | inl e ↦ ground (arith, e)
  | inr (body, e) ↦ rw (e, settle_command) (attempt_ends d cmd.target_state body 2 0 false)
]

-- Whatever the payload is and whatever the calls answer, settling a delivery makes at most two
-- calls of ApplyWalletTransition and ends it exactly once: by an acknowledgement, a termination, a
-- negative acknowledgement, or the interruption of the wait.
pub settle_once :
    (contracts : Contracts) (d : Delivery)
    → (count_if is_end (settle contracts d) ≡ 1) × (count_if is_call (settle contracts d) ≤ 2)
unfolding settle
settle_once contracts d = elim (Option-cases d.metadata) [
  | inl e ↦ rw (e, settle) (refl, omega arith)
  | inr (meta, e) ↦ rw (e, settle) (settle_command_ends d (command_of contracts d meta))
]

-- Why a delivery may be acknowledged: it is no wallet event, or cafe-persistence answered one of
-- the two calls in a way that settles it.
pub data AckReason (contracts : Contracts) (d : Delivery) : Type 0 where
  foreign :
      (meta : Metadata)
      → d.metadata ≡ some meta
      → command_of contracts d meta ≡ err not_wallet_event
      → AckReason contracts d
  handled :
      (meta : Metadata) (cmd : WalletCommand) (body : Text) (i : ℕ) (outcome : String)
      (ready : Bool)
      → d.metadata ≡ some meta
      → command_of contracts d meta ≡ ok cmd
      → d.marshal cmd ≡ some body
      → i < 2
      → d.apply i body ≡ some (outcome, ready)
      → accepts cmd.target_state outcome ready ≡ true
      → AckReason contracts d

judge_ack :
    (target outcome : String) (ready : Bool) (es : List Effect)
    → judge target outcome ready ≡ settled es
    → any_of is_ack es ≡ true
    → accepts target outcome ready ≡ true
unfolding judge accepts
judge_ack target outcome ready es h a = ground arith

abbrev Answered : Delivery → String → Text → ℕ → Type 0
Answered d target body bound =
    (i : ℕ) × (outcome : String) × (ready : Bool) × (i < bound)
    × (d.apply i body ≡ some (outcome, ready))
    × (accepts target outcome ready ≡ true)

call_ack :
    (d : Delivery) (target : String) (body : Text) (i : ℕ) (es : List Effect) (bound : ℕ)
    → i < bound
    → judge_call target (d.apply i body) ≡ settled es
    → any_of is_ack es ≡ true
    → Answered d target body bound
unfolding judge_call
call_ack d target body i es bound lt h a = elim (Option-cases (d.apply i body)) [
  | inl e ↦ absurd (ground (arith, e))
  | inr ((outcome, ready), e) ↦
      let j : judge target outcome ready ≡ settled es = ground (arith, e) in
      (i, outcome, ready, lt, e, judge_ack target outcome ready es j a)
]

attempt_ack :
    (d : Delivery) (target : String) (body : Text) (rounds attempt : ℕ) (transport : Bool)
    (bound : ℕ)
    → attempt + rounds ≤ bound
    → any_of is_ack (attempt_from d target body rounds attempt transport) ≡ true
    → Answered d target body bound
unfolding attempt_from
attempt_ack d target body zero attempt transport bound fits h = absurd (ground arith)
attempt_ack d target body (suc rounds) attempt transport bound fits h =
    elim (Verdict-cases (judge_call target (d.apply attempt body))) [
      | inl (es, e) ↦ call_ack d target body attempt es bound (omega arith) e (ground (arith, e))
      | inr (fault, e) ↦
          attempt_ack d target body rounds (attempt + 1) (fault || transport) bound (omega arith)
            (ground (arith, e))
    ]

command_ack :
    (contracts : Contracts) (d : Delivery) (meta : Metadata) (r : Result EventError WalletCommand)
    → d.metadata ≡ some meta
    → command_of contracts d meta ≡ r
    → any_of is_ack (settle_command d r) ≡ true
    → AckReason contracts d
unfolding settle_command
command_ack contracts d meta (err not_wallet_event) hm hr h = foreign meta hm hr
command_ack contracts d meta (err invalid_wallet_event) hm hr h = absurd (ground arith)
command_ack contracts d meta (ok cmd) hm hr h = elim (Option-cases (d.marshal cmd)) [
  | inl e ↦ absurd (ground (arith, e))
  | inr (body, e) ↦
      let acked : any_of is_ack (attempt_from d cmd.target_state body 2 0 false) ≡ true =
        ground (arith, e) in
      let (i, outcome, ready, lt, call, good) =
        attempt_ack d cmd.target_state body 2 0 false 2 (omega arith) acked in
      handled meta cmd body i outcome ready hm hr e lt call good
]

-- A delivery is acknowledged only if its event is not a wallet event, or one of the two calls was
-- answered by an outcome that settles it: applied or already applied (with the projection ready, if
-- the target is terminal), already running, or already terminal.
pub ack-reason :
    (contracts : Contracts) (d : Delivery)
    → any_of is_ack (settle contracts d) ≡ true
    → AckReason contracts d
unfolding settle
ack-reason contracts d h = elim (Option-cases d.metadata) [
  | inl e ↦ absurd (ground (arith, e))
  | inr (meta, e) ↦
      command_ack contracts d meta (command_of contracts d meta) e refl (ground (arith, e))
]

accepts-judge :
    (target outcome : String) (ready : Bool)
    → accepts target outcome ready ≡ true
    → judge target outcome ready ≡ settled (ack ∷ [])
unfolding judge accepts
accepts-judge target outcome ready h = ground arith

accepted_call :
    (d : Delivery) (target : String) (body : Text) (i : ℕ) (outcome : String) (ready : Bool)
    → d.apply i body ≡ some (outcome, ready)
    → accepts target outcome ready ≡ true
    → judge_call target (d.apply i body) ≡ settled (ack ∷ [])
unfolding judge_call
accepted_call d target body i outcome ready e good = rw e (accepts-judge target outcome ready good)

-- An event is not lost by a first call that fails: if the first call of a command asks for another
-- try, the wait runs its time, and the second call settles the event, the delivery is acknowledged
-- after exactly two calls.
pub retry-acks :
    (contracts : Contracts) (d : Delivery) (meta : Metadata) (cmd : WalletCommand) (body : Text)
    (fault : Bool) (outcome : String) (ready : Bool)
    → d.metadata ≡ some meta
    → command_of contracts d meta ≡ ok cmd
    → d.marshal cmd ≡ some body
    → judge_call cmd.target_state (d.apply 0 body) ≡ again fault
    → d.wait 1 ≡ true
    → d.apply 1 body ≡ some (outcome, ready)
    → accepts cmd.target_state outcome ready ≡ true
    → settle contracts d ≡ called 0 ∷ waited ∷ called 1 ∷ ack ∷ []
unfolding settle settle_command attempt_from
retry-acks contracts d meta cmd body fault outcome ready hm hc hb first w second good =
    rw (hm, settle)
      (rw (hc, settle_command)
        (rw (hb, settle_command)
          (rw first
            (rw w (rw (accepted_call d cmd.target_state body 1 outcome ready second good))))))
