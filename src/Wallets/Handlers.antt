-- ===== src/Wallets/Handlers.antt =====
-- internal/handler/cafe_wallet.go: the wallet endpoints. A body is none where it does not bind, and the
-- wording of the bodies is left out.
use cafe_discovery.Base.{
  ℕ, Bool, Option, none, some, List, length, is_nil, Text, if◌then◌else◌, ok, err,
}
use cafe_discovery.Accept.{Locals}
use cafe_discovery.Scans.{require_authenticated_user_id, required_status_left}
use cafe_discovery.Wallets.{
  Wallet, Refusals, WalletError, wallet_exists, wallet_not_found, CreateWalletRequest,
  UpdateWalletRequest, create_wallet, get_wallet, get_all_wallets, update_wallet, delete_wallet,
}

pub data WalletBody : Type 0 where
  one_wallet : Option Wallet → WalletBody
  all_wallets : List Wallet → ℕ → WalletBody
  nothing invalid_body hash_missing write_failed : WalletBody
  failure : WalletError → WalletBody

pub record WalletAnswer : Type 0 where
  pub status : ℕ
  pub body : WalletBody

abbrev reply : ℕ → WalletBody → WalletAnswer
reply status body = record { status = status; body = body }

-- The status of an error, where one error has its own and the others share one.
abbrev create_status : WalletError → ℕ
create_status wallet_exists = 409
create_status _ = 400

abbrev missing_or : ℕ → WalletError → ℕ
missing_or status wallet_not_found = 404
missing_or status _ = status

-- The caller, or the answer where the 401 could not be written.
abbrev as_user : {A : Type 0} → Bool → Locals → (WalletAnswer → A) → (ℕ → A) → A
as_user write_fails locals stop go =
    let (user, unwritten) = require_authenticated_user_id write_fails locals in
    if unwritten then stop (reply 500 write_failed) else go user

module _ (db : Refusals) (write_fails : Bool) (locals : Locals) where
  -- CreateWallet
  unfoldable pub post_saved_wallet :
      Option CreateWalletRequest → List Wallet → List Wallet × WalletAnswer
  post_saved_wallet body ws =
      as_user write_fails locals (λ a. (ws, a))
        (λ user. elim body [
          | none ↦ (ws, reply 400 invalid_body)
          | some req ↦ elim (create_wallet db user req ws) [
            | err e ↦ (ws, reply (create_status e) (failure e))
            | ok (w, ws') ↦ (ws', reply 201 (one_wallet (some w)))
          ]
        ])

  -- GetWallet
  unfoldable pub get_one_wallet : Text → List Wallet → WalletAnswer
  get_one_wallet hash ws =
      as_user write_fails locals (λ a. a)
        (λ user. if is_nil hash then reply 400 hash_missing else elim (get_wallet db user hash ws) [
          | err e ↦ reply (missing_or 500 e) (failure e)
          | ok w ↦ reply (required_status_left locals) (one_wallet (some w))
        ])

  -- GetAllWallets
  unfoldable pub get_every_wallet : List Wallet → WalletAnswer
  get_every_wallet ws =
      as_user write_fails locals (λ a. a)
        (λ user. elim (get_all_wallets db user ws) [
          | err e ↦ reply 500 (failure e)
          | ok own ↦ reply (required_status_left locals) (all_wallets own (length own))
        ])

  -- UpdateWallet
  unfoldable pub put_wallet :
      Text → Option UpdateWalletRequest → List Wallet → List Wallet × WalletAnswer
  put_wallet hash body ws =
      as_user write_fails locals (λ a. (ws, a))
        (λ user. if is_nil hash then (ws, reply 400 hash_missing) else elim body [
          | none ↦ (ws, reply 400 invalid_body)
          | some req ↦
              let (ws', out) = update_wallet db user hash req ws in
              elim out [
                | err e ↦ (ws', reply (missing_or 400 e) (failure e))
                | ok w ↦ (ws', reply (required_status_left locals) (one_wallet w))
              ]
        ])

  -- DeleteWallet
  unfoldable pub remove_wallet : Text → List Wallet → List Wallet × WalletAnswer
  remove_wallet hash ws =
      as_user write_fails locals (λ a. (ws, a))
        (λ user.
          if is_nil hash
          then (ws, reply 400 hash_missing)
          else elim (delete_wallet db user hash ws) [
            | err e ↦ (ws, reply (missing_or 500 e) (failure e))
            | ok ws' ↦ (ws', reply 204 nothing)
          ])
