-- ===== src/Lifecycle/Tests.antt =====
-- Runs of internal/service/wallet_command.go and wallet_lifecycle.go: a started event of stream S at
-- sequence 12, whose first call fails and whose second is applied.
use cafe_discovery.Base.{
  ℕ, ◌≤◌, false, true, ◌≡◌, refl, none, some, [], ◌∷◌, ◌==◌, if◌then◌else◌, count_if, any_of, codes,
  ◌++◌, format_uint, ok,
}
use cafe_discovery.Scan.{pending, running, is_terminal}
use cafe_discovery.Address.Tests.{digits, canonical, digits_accepted}
use cafe_discovery.Lifecycle.{
  Started, Contracts, WalletCommand, WalletEventIdentity, quota_none, wallet_identity, command,
  started_command, wallet_transition_command,
}
use cafe_discovery.Lifecycle.Commands.{IsSound, command-IsSound}
use cafe_discovery.Lifecycle.Settle.{called, waited, ack, Delivery, judge_call, again, settle}
use cafe_discovery.Lifecycle.Delivery.{
  is_call, is_ack, is_end, accepts, AckReason, settle_once, ack-reason, retry-acks,
}

abbrev started_event : Started
started_event = record {
  kind = "wallet";
  scan_id = codes "9";
  user_id = codes "7";
  address = digits;
}

abbrev contracts : Contracts
contracts = record {
  subject_started = "scan.started";
  subject_completed = "scan.completed";
  subject_failed = "scan.failed";
  decode_started = λ payload. some started_event;
  decode_completed = λ payload. none;
  decode_failed = λ payload. none;
  parse_uuid = λ s. some 9;
}

abbrev identity : WalletEventIdentity
identity = record { scan_id = 9; user_id = 9; address = canonical }

abbrev start_command : WalletCommand
start_command = record {
  scan_id = 9;
  transition_id = codes "S" ++ (codes ":" ++ format_uint 12);
  user_id = 9;
  address = canonical;
  source_states = pending ∷ [];
  target_state = running;
  quota_action = quota_none;
  result = [];
  error = [];
}

identity_run : wallet_identity contracts "wallet" (codes "9") (codes "7") digits ≡ ok identity
unfolding wallet_identity
identity_run = rw (digits_accepted) refl

command_run :
    wallet_transition_command contracts "scan.started" [] (codes "S") 12 ≡ ok start_command
unfolding wallet_transition_command started_command command
command_run = rw (identity_run) refl

abbrev delivery : Delivery
delivery = record {
  subject = "scan.started";
  payload = [];
  metadata = some (record { stream = codes "S"; sequence = 12 });
  marshal = λ c. some (codes "{}");
  apply = λ attempt body. if attempt == 0 then none else some ("applied", false);
  wait = λ attempt. true;
}

good_answer : accepts running "applied" false ≡ true
unfolding accepts is_terminal
good_answer = refl

first_fails : judge_call running (delivery.apply 0 (codes "{}")) ≡ again true
unfolding judge_call
first_fails = refl

delivery_run : settle contracts delivery ≡ called 0 ∷ waited ∷ called 1 ∷ ack ∷ []
delivery_run =
    retry-acks contracts delivery (record { stream = codes "S"; sequence = 12 }) start_command
      (codes "{}") true "applied" false refl command_run refl first_fails refl refl good_answer

delivery_acked : any_of is_ack (settle contracts delivery) ≡ true
delivery_acked = rw (delivery_run) refl

ack-reason_example : AckReason contracts delivery
ack-reason_example = ack-reason contracts delivery delivery_acked

settle_once_example :
    (count_if is_end (settle contracts delivery) ≡ 1)
    × (count_if is_call (settle contracts delivery) ≤ 2)
settle_once_example = settle_once contracts delivery

command-IsSound_example : IsSound (codes "S") 12 start_command
command-IsSound_example =
    command-IsSound contracts "scan.started" [] (codes "S") 12 start_command command_run

abbrev twelve : ℕ
twelve = 12
