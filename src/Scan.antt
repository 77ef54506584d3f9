-- ===== src/Scan.antt =====
-- pkg/scan/state.go and pkg/scan/kinds.go: lifecycle states, the transition rule and the kind names.
pub mod Transitions
mod Tests
use cafe_discovery.Base.{Bool, true, false, String, ◌||◌, str_eq, if◌then◌else◌}

abbrev pub pending : String
pending = "PENDING"

abbrev pub running : String
running = "RUNNING"

abbrev pub success : String
success = "SUCCESS"

abbrev pub failed : String
failed = "FAILED"

abbrev pub timeout : String
timeout = "TIMEOUT"

abbrev pub unreachable : String
unreachable = "UNREACHABLE"

abbrev pub kind_tls : String
kind_tls = "tls"

abbrev pub kind_wallet : String
kind_wallet = "wallet"

abbrev pub plan_limit_key_endpoint : String
plan_limit_key_endpoint = "endpoint"

abbrev pub plan_limit_key_wallet : String
plan_limit_key_wallet = "wallet"

-- The map `TerminalStates`, and the lookup in it that `IsTerminal` makes.
unfoldable pub is_terminal : String → Bool
is_terminal status =
    str_eq status success
    || str_eq status failed
    || str_eq status timeout
    || str_eq status unreachable

unfoldable pub is_success : String → Bool
is_success status = str_eq status success

unfoldable pub valid_transition : String → String → Bool
unfolding is_terminal
valid_transition from_state to_state =
    let from = if str_eq from_state "" then pending else from_state in
    if str_eq to_state running
    then str_eq from pending
    else if is_terminal to_state
    then str_eq from running || str_eq from pending
    else false
