-- ===== src/Lifecycle/Settle.antt =====
-- internal/service/wallet_lifecycle.go: how one JetStream delivery is settled. The result is the
-- list of effects in order; logging and the error of an acknowledgement, which is only logged, are
-- left out.
use cafe_discovery.Base.{
  ℕ, zero, suc, ◌+◌, Bool, true, false, not, ◌||◌, String, Option, none, some, List, [], ◌∷◌, ◌==◌,
  str_eq, if◌then◌else◌, Text, Result, ok, err,
}
use cafe_discovery.Scan.{is_terminal}
use cafe_discovery.Lifecycle.{
  Contracts, EventError, invalid_wallet_event, not_wallet_event, WalletCommand,
  wallet_transition_command,
}

pub data Effect : Type 0 where
  called : ℕ → Effect
  waited interrupted ack term nak : Effect
  recorded : String → Effect

pub record Metadata : Type 0 where
  pub stream : Text
  pub sequence : ℕ

-- One delivery and what the outside answers while it is settled: the metadata (none for an error or
-- a nil), json.Marshal, each call of ApplyWalletTransition by its attempt (none for an error), and
-- whether the wait before an attempt ran its time.
pub record Delivery : Type 0 where
  pub subject : String
  pub payload : Text
  pub metadata : Option Metadata
  pub marshal : WalletCommand → Option Text
  pub apply : ℕ → Text → Option (String × Bool)
  pub wait : ℕ → Bool

abbrev pub lifecycle_attempts : ℕ
lifecycle_attempts = 2

-- What the loop does after an answer: end with these effects, or try again and say whether the
-- transport was at fault.
pub data Verdict : Type 0 where
  settled : List Effect → Verdict
  again : Bool → Verdict

-- The switch on the outcome of a call.
unfoldable pub judge : String → String → Bool → Verdict
judge target outcome ready =
    if str_eq outcome "applied" || str_eq outcome "already_applied"
    then (if not (is_terminal target) || ready
        then settled (ack ∷ [])
        else settled (recorded "projection" ∷ nak ∷ []))
    else if str_eq outcome "already_running" || str_eq outcome "already_terminal"
    then settled (ack ∷ [])
    else if str_eq outcome "rejected"
    then settled (recorded "rejected" ∷ term ∷ [])
    else if str_eq outcome "retryable_error"
    then again false
    else again true

unfoldable pub judge_call : String → Option (String × Bool) → Verdict
judge_call target none = again true
judge_call target (some (outcome, ready)) = judge target outcome ready

-- The loop over the attempts: `rounds` are left, `attempt` is the number of the next one.
unfoldable pub attempt_from : Delivery → String → Text → ℕ → ℕ → Bool → List Effect
attempt_from d target body zero attempt transport =
    recorded (if transport then "transport" else "retryable") ∷ nak ∷ []
attempt_from d target body (suc rounds) attempt transport =
    let after : List Effect = elim (judge_call target (d.apply attempt body)) [
      | settled es ↦ es
      | again fault ↦ attempt_from d target body rounds (attempt + 1) (fault || transport)
    ] in
    if attempt == 0
    then called attempt ∷ after
    else if d.wait attempt
    then waited ∷ called attempt ∷ after
    else interrupted ∷ []

unfoldable pub settle_command : Delivery → Result EventError WalletCommand → List Effect
settle_command d (err not_wallet_event) = ack ∷ []
settle_command d (err invalid_wallet_event) = recorded "invalid" ∷ term ∷ []
settle_command d (ok cmd) = elim (d.marshal cmd) [
  | none ↦ recorded "invalid" ∷ term ∷ []
  | some body ↦ attempt_from d cmd.target_state body lifecycle_attempts 0 false
]

abbrev pub command_of : Contracts → Delivery → Metadata → Result EventError WalletCommand
command_of contracts d meta =
    wallet_transition_command contracts d.subject d.payload meta.stream meta.sequence

-- walletDeliverySettler.settle
unfoldable pub settle : Contracts → Delivery → List Effect
settle contracts d = elim d.metadata [
  | none ↦ recorded "metadata" ∷ nak ∷ []
  | some meta ↦ settle_command d (command_of contracts d meta)
]
