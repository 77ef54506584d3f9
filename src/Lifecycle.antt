-- ===== src/Lifecycle.antt =====
-- internal/service/wallet_command.go: one lifecycle payload becomes one transition command. The
-- decoders and subjects of cafe-contracts and uuid.Parse are parameters (`Contracts`).
pub mod Commands
pub mod Settle
pub mod Delivery
mod Tests
use cafe_discovery.Base.{
  ℕ, Bool, true, false, not, String, Option, none, some, List, [], ◌∷◌, ◌++◌, str_eq, if◌then◌else◌,
  Text, codes, format_uint, Result, ok, err, ◌>>=◌,
}
use cafe_discovery.Scan.{pending, running, success, failed, kind_wallet}
use cafe_discovery.Address.{validate_and_normalize_address}

-- lifecyclev1.Started, Completed and Failed, as far as the mapping reads them.
pub record Started : Type 0 where
  pub kind : String
  pub scan_id : Text
  pub user_id : Text
  pub address : Text

pub record Completed : Type 0 where
  pub kind : String
  pub scan_id : Text
  pub user_id : Text
  pub address : Text
  pub result : Text

pub record Failed : Type 0 where
  pub kind : String
  pub scan_id : Text
  pub user_id : Text
  pub address : Text
  pub error : Text

-- What cafe-contracts and google/uuid supply. A decoder returns none for its error.
pub record Contracts : Type 0 where
  pub subject_started : String
  pub subject_completed : String
  pub subject_failed : String
  pub decode_started : Text → Option Started
  pub decode_completed : Text → Option Completed
  pub decode_failed : Text → Option Failed
  pub parse_uuid : Text → Option ℕ

abbrev pub quota_none : String
quota_none = "none"

abbrev pub quota_keep : String
quota_keep = "keep"

abbrev pub quota_release : String
quota_release = "release"

pub data EventError : Type 0 where
  invalid_wallet_event not_wallet_event : EventError

pub record WalletCommand : Type 0 where
  pub scan_id : ℕ
  pub transition_id : Text
  pub user_id : ℕ
  pub address : Text
  pub source_states : List String
  pub target_state : String
  pub quota_action : String
  pub result : Text
  pub error : Text

pub record WalletEventIdentity : Type 0 where
  pub scan_id : ℕ
  pub user_id : ℕ
  pub address : Text

-- The error of a parser or decoder, wrapped in ErrInvalidWalletEvent.
abbrev or_invalid : {A : Type 0} → Option A → Result EventError A
or_invalid none = err invalid_wallet_event
or_invalid (some a) = ok a

abbrev address_or_invalid : {E : Type 0} → Result E Text → Result EventError Text
address_or_invalid (ok a) = ok a
address_or_invalid (err e) = err invalid_wallet_event

module _ (contracts : Contracts) where
  open contracts use {
    subject_started, subject_completed, subject_failed, decode_started, decode_completed,
    decode_failed, parse_uuid,
  }

  -- walletIdentity
  unfoldable pub wallet_identity :
      String → Text → Text → Text → Result EventError WalletEventIdentity
  wallet_identity kind scan_id user_id raw_address =
      if not (str_eq kind kind_wallet)
      then err not_wallet_event
      else (or_invalid (parse_uuid scan_id) >>= λ sid. or_invalid (parse_uuid user_id) >>= λ uid.
          address_or_invalid (validate_and_normalize_address raw_address) >>= λ normalized.
          ok (record { scan_id = sid; user_id = uid; address = normalized }))

  -- walletEventIdentity.command
  unfoldable pub command :
      WalletEventIdentity → Text → ℕ → List String → String → String → WalletCommand
  command id stream sequence sources target quota = record {
    scan_id = id.scan_id;
    transition_id = stream ++ (codes ":" ++ format_uint sequence);
    user_id = id.user_id;
    address = id.address;
    source_states = sources;
    target_state = target;
    quota_action = quota;
    result = [];
    error = [];
  }

  unfoldable pub started_command : Started → Text → ℕ → Result EventError WalletCommand
  started_command msg stream sequence = do
    id ← wallet_identity msg.kind msg.scan_id msg.user_id msg.address
    ok (command id stream sequence (pending ∷ []) running quota_none)

  unfoldable pub completed_command : Completed → Text → ℕ → Result EventError WalletCommand
  completed_command msg stream sequence = do
    id ← wallet_identity msg.kind msg.scan_id msg.user_id msg.address
    let cmd = command id stream sequence (pending ∷ running ∷ []) success quota_keep
    ok (record cmd { result = msg.result })

  unfoldable pub failed_command : Failed → Text → ℕ → Result EventError WalletCommand
  failed_command msg stream sequence = do
    id ← wallet_identity msg.kind msg.scan_id msg.user_id msg.address
    let cmd = command id stream sequence (pending ∷ running ∷ []) failed quota_release
    ok (record cmd { error = msg.error })

  -- WalletTransitionCommand
  unfoldable pub wallet_transition_command :
      String → Text → Text → ℕ → Result EventError WalletCommand
  wallet_transition_command subject payload stream sequence =
      if str_eq subject subject_started
      then or_invalid (decode_started payload) >>= (λ msg. started_command msg stream sequence)
      else if str_eq subject subject_completed
      then or_invalid (decode_completed payload) >>= (λ msg. completed_command msg stream sequence)
      else if str_eq subject subject_failed
      then or_invalid (decode_failed payload) >>= (λ msg. failed_command msg stream sequence)
      else err invalid_wallet_event
