-- ===== src/Lifecycle/Commands.antt =====
-- Every command that the mapping produces is one that the scan lifecycle allows.
use mathlib.Core.List.{append_cancel_left}
use cafe_discovery.Base.{
  ℕ, true, String, ◌≡◌, refl, sym, ◌∙◌, ◌⊎◌, inl, inr, [], ◌∷◌, ◌++◌, arith, str_eq, eq_iff, all_of,
  Text, codes, format_uint, format_uint-injective, ok, Result-cases, Option-cases, Bool-cases,
}
use cafe_discovery.Scan.{pending, running, success, failed, kind_wallet, valid_transition}
use cafe_discovery.Address.{validate_and_normalize_address}
use cafe_discovery.Address.Canonical.{is_canonical, accepted_canonical}
use cafe_discovery.Lifecycle.{
  Started, Completed, Failed, Contracts, quota_none, quota_keep, quota_release, WalletCommand,
  WalletEventIdentity, wallet_identity, command, started_command, completed_command, failed_command,
  wallet_transition_command,
}

-- The quota action that goes with a target state.
pub data Settles : String → String → Type 0 where
  starts : Settles running quota_none
  keeps : Settles success quota_keep
  releases : Settles failed quota_release

pub record IsSound (stream : Text) (sequence : ℕ) (cmd : WalletCommand) : Type 0 where
  pub moves : all_of (λ s. valid_transition s cmd.target_state) cmd.source_states ≡ true
  pub canonical : is_canonical cmd.address ≡ true
  pub quota : Settles cmd.target_state cmd.quota_action
  pub identified : cmd.transition_id ≡ stream ++ (codes ":" ++ format_uint sequence)

start_moves : all_of (λ s. valid_transition s running) (pending ∷ []) ≡ true
unfolding valid_transition
start_moves = refl

success_moves : all_of (λ s. valid_transition s success) (pending ∷ running ∷ []) ≡ true
unfolding valid_transition
success_moves = refl

failed_moves : all_of (λ s. valid_transition s failed) (pending ∷ running ∷ []) ≡ true
unfolding valid_transition
failed_moves = refl

module _ (contracts : Contracts) where
  -- An identity comes from a wallet event, and its address is the normalised one.
  identity_lem :
      (kind : String) (scan_id user_id raw : Text) (id : WalletEventIdentity)
      → wallet_identity contracts kind scan_id user_id raw ≡ ok id
      → (kind ≡ kind_wallet) × (validate_and_normalize_address raw ≡ ok id.address)
  unfolding wallet_identity
  identity_lem kind scan_id user_id raw id h =
      elim (Result-cases (validate_and_normalize_address raw)) [
        | inl (a, e) ↦ ground (arith, e, eq_iff kind kind_wallet)
        | inr (x, e) ↦ absurd (ground (arith, e, eq_iff kind kind_wallet))
      ]

  identity-canonical :
      (kind : String) (scan_id user_id raw : Text) (id : WalletEventIdentity)
      → wallet_identity contracts kind scan_id user_id raw ≡ ok id
      → is_canonical id.address ≡ true
  identity-canonical kind scan_id user_id raw id h =
      (accepted_canonical raw id.address (identity_lem kind scan_id user_id raw id h).1).0

  started-IsSound :
      (msg : Started) (stream : Text) (sequence : ℕ) (cmd : WalletCommand)
      → started_command contracts msg stream sequence ≡ ok cmd
      → IsSound stream sequence cmd
  unfolding started_command command
  started-IsSound msg stream sequence cmd h =
      elim (Result-cases (wallet_identity contracts msg.kind msg.scan_id msg.user_id msg.address)) [
        | inr (x, e) ↦ absurd (ground (arith, e))
        | inl (id, e) ↦
            let c = identity-canonical msg.kind msg.scan_id msg.user_id msg.address id e in
            let shape : cmd
                ≡ command contracts id stream sequence (pending ∷ []) running quota_none =
              ground (arith, e) in
            rw shape
              (record { moves = start_moves; canonical = c; quota = starts; identified = refl })
      ]

  completed-IsSound :
      (msg : Completed) (stream : Text) (sequence : ℕ) (cmd : WalletCommand)
      → completed_command contracts msg stream sequence ≡ ok cmd
      → IsSound stream sequence cmd
  unfolding completed_command command
  completed-IsSound msg stream sequence cmd h =
      elim (Result-cases (wallet_identity contracts msg.kind msg.scan_id msg.user_id msg.address)) [
        | inr (x, e) ↦ absurd (ground (arith, e))
        | inl (id, e) ↦
            let c = identity-canonical msg.kind msg.scan_id msg.user_id msg.address id e in
            let plain =
              command contracts id stream sequence (pending ∷ running ∷ []) success quota_keep in
            let shape : cmd ≡ record plain { result = msg.result } = ground (arith, e) in
            rw shape
              (record { moves = success_moves; canonical = c; quota = keeps; identified = refl })
      ]

  failed-IsSound :
      (msg : Failed) (stream : Text) (sequence : ℕ) (cmd : WalletCommand)
      → failed_command contracts msg stream sequence ≡ ok cmd
      → IsSound stream sequence cmd
  unfolding failed_command command
  failed-IsSound msg stream sequence cmd h =
      elim (Result-cases (wallet_identity contracts msg.kind msg.scan_id msg.user_id msg.address)) [
        | inr (x, e) ↦ absurd (ground (arith, e))
        | inl (id, e) ↦
            let c = identity-canonical msg.kind msg.scan_id msg.user_id msg.address id e in
            let plain =
              command contracts id stream sequence (pending ∷ running ∷ []) failed quota_release in
            let shape : cmd ≡ record plain { error = msg.error } = ground (arith, e) in
            rw shape
              (record { moves = failed_moves; canonical = c; quota = releases; identified = refl })
      ]

  -- The message that a command was made from: one of the three kinds.
  command_cases :
      (subject : String) (payload stream : Text) (sequence : ℕ) (cmd : WalletCommand)
      → wallet_transition_command contracts subject payload stream sequence ≡ ok cmd
      → ((m : Started) × (started_command contracts m stream sequence ≡ ok cmd))
        ⊎ (((m : Completed) × (completed_command contracts m stream sequence ≡ ok cmd))
            ⊎ ((m : Failed) × (failed_command contracts m stream sequence ≡ ok cmd)))
  unfolding wallet_transition_command
  command_cases subject payload stream sequence cmd h =
      elim (Bool-cases (str_eq subject contracts.subject_started)) [
        | inl s ↦ elim (Option-cases (contracts.decode_started payload)) [
          | inl e ↦ absurd (ground (arith, s, e))
          | inr (m, e) ↦ inl (m, ground (arith, s, e))
        ]
        | inr ns ↦ elim (Bool-cases (str_eq subject contracts.subject_completed)) [
          | inl s ↦ elim (Option-cases (contracts.decode_completed payload)) [
            | inl e ↦ absurd (ground (arith, ns, s, e))
            | inr (m, e) ↦ inr (inl (m, ground (arith, ns, s, e)))
          ]
          | inr nc ↦ elim (Option-cases (contracts.decode_failed payload)) [
            | inl e ↦ absurd (ground (arith, ns, nc, e))
            | inr (m, e) ↦ inr (inr (m, ground (arith, ns, nc, e)))
          ]
        ]
      ]

  -- Every command that a lifecycle payload produces is one that the scan lifecycle allows: each of
  -- its source states may move to its target state, its address is canonical, its quota action is
  -- none for RUNNING, keep for SUCCESS and release for FAILED, and its transition identifier is the
  -- stream, a colon and the sequence number.
  pub command-IsSound :
      (subject : String) (payload stream : Text) (sequence : ℕ) (cmd : WalletCommand)
      → wallet_transition_command contracts subject payload stream sequence ≡ ok cmd
      → IsSound stream sequence cmd
  command-IsSound subject payload stream sequence cmd h =
      elim (command_cases subject payload stream sequence cmd h) [
        | inl (m, e) ↦ started-IsSound m stream sequence cmd e
        | inr (inl (m, e)) ↦ completed-IsSound m stream sequence cmd e
        | inr (inr (m, e)) ↦ failed-IsSound m stream sequence cmd e
      ]

  -- Commands of one stream have the same transition identifier only if they have the same sequence
  -- number, so a redelivery is recognised and two events are never taken for one.
  pub transition_id-injective :
      (s1 s2 : String) (p1 p2 stream : Text) (m n : ℕ) (c d : WalletCommand)
      → wallet_transition_command contracts s1 p1 stream m ≡ ok c
      → wallet_transition_command contracts s2 p2 stream n ≡ ok d
      → c.transition_id ≡ d.transition_id
      → m ≡ n
  transition_id-injective s1 s2 p1 p2 stream m n c d hc hd e =
      let first = (command-IsSound s1 p1 stream m c hc).identified in
      let second = (command-IsSound s2 p2 stream n d hd).identified in
      let tails =
        append_cancel_left stream (codes ":" ++ format_uint m) (codes ":" ++ format_uint n)
          (sym first ∙ (e ∙ second)) in
      format_uint-injective m n (append_cancel_left (codes ":") _ _ tails)
