-- ===== src/Wallets.antt =====
-- internal/service/cafe_wallet.go over internal/repository/cafe_wallet_repository.go: the wallets that a
-- user saves. The table is a list of rows, in which a deletion only marks a row; pub_key_hash is its
-- primary key, so an insertion conflicts with marked rows too.
pub mod Handlers
pub mod Owners
pub mod Recreate
mod Tests
use cafe_discovery.Base.{
  ℕ, Bool, true, false, not, ◌&&◌, Option, none, some, List, [], ◌∷◌, ◌++◌, map, select, any_of,
  ◌==◌, is_nil, Text, text_eq, if◌then◌else◌, Result, ok, err, guard, ◌>>=◌, ◌>>◌,
}

-- domain.CafeWallet
pub record Wallet : Type 0 where
  pub pub_key_hash : Text
  pub user_id : ℕ
  pub user_pub_key : Text
  pub label : Text
  pub is_deleted : Bool

-- The statements that the database refuses, in the order of a call: a lookup, the write, the lookup
-- after an update.
pub record Refusals : Type 0 where
  pub find_fails : Bool
  pub write_fails : Bool
  pub reread_fails : Bool

pub data WalletError : Type 0 where
  hash_required key_required find_failed wallet_exists create_failed wallet_not_found update_failed
        reread_failed delete_failed :
      WalletError

pub record CreateWalletRequest : Type 0 where
  pub pub_key_hash : Text
  pub user_pub_key : Text
  pub label : Text

pub record UpdateWalletRequest : Type 0 where
  pub user_pub_key : Text
  pub label : Text

-- `pub_key_hash = ? AND user_id = ?`, and the row is not marked as deleted.
abbrev pub is_wallet : Text → ℕ → Wallet → Bool
is_wallet hash user w = text_eq w.pub_key_hash hash && (w.user_id == user) && not w.is_deleted

abbrev pub has_hash : Text → Wallet → Bool
has_hash hash w = text_eq w.pub_key_hash hash

-- FindByID
unfoldable pub find_by_id : Text → ℕ → List Wallet → Option Wallet
find_by_id hash user [] = none
find_by_id hash user (w ∷ ws) =
    let rest = find_by_id hash user ws in if is_wallet hash user w then some w else rest

-- FindAllByUserID; the order by the time of creation is left out.
unfoldable pub find_all_by_user_id : ℕ → List Wallet → List Wallet
find_all_by_user_id user ws = select (λ w. (w.user_id == user) && not w.is_deleted) ws

-- Create
unfoldable pub insert_wallet : Bool → Wallet → List Wallet → Result WalletError (List Wallet)
insert_wallet fails w ws = do
  guard (not fails) create_failed
  guard (not (any_of (has_hash w.pub_key_hash) ws)) create_failed
  ok (ws ++ w ∷ [])

-- The writes of Update and Delete, on the rows of the statement's condition.
unfoldable pub write_where : (Wallet → Bool) → (Wallet → Wallet) → List Wallet → List Wallet
write_where p f ws = map (λ w. if p w then f w else w) ws

-- Update: no row is an error.
unfoldable pub update : Bool → Wallet → List Wallet → Result WalletError (List Wallet)
update fails w ws = do
  guard (not fails) update_failed
  guard (any_of (is_wallet w.pub_key_hash w.user_id) ws) update_failed
  ok (
      write_where (is_wallet w.pub_key_hash w.user_id)
        (λ row. record row { user_pub_key = w.user_pub_key; label = w.label }) ws)

-- Delete: no row is an error.
unfoldable pub mark_deleted : Bool → Text → ℕ → List Wallet → Result WalletError (List Wallet)
mark_deleted fails hash user ws = do
  guard (not fails) delete_failed
  guard (any_of (is_wallet hash user) ws) delete_failed
  ok (write_where (is_wallet hash user) (λ row. record row { is_deleted = true }) ws)

abbrev checked_find :
    Bool → Text → ℕ → List Wallet → WalletError → Result WalletError (Option Wallet)
checked_find fails hash user ws e = if fails then err e else ok (find_by_id hash user ws)

abbrev found : Option Wallet → Result WalletError Wallet
found none = err wallet_not_found
found (some w) = ok w

abbrev pub saved_wallet : ℕ → CreateWalletRequest → Wallet
saved_wallet user req = record {
  pub_key_hash = req.pub_key_hash;
  user_id = user;
  user_pub_key = req.user_pub_key;
  label = req.label;
  is_deleted = false;
}

-- CreateWallet: the new row and the table after it.
unfoldable pub create_wallet :
    Refusals → ℕ → CreateWalletRequest → List Wallet → Result WalletError (Wallet × List Wallet)
create_wallet db user req ws = do
  guard (not (is_nil req.pub_key_hash)) hash_required
  guard (not (is_nil req.user_pub_key)) key_required
  existing ← checked_find db.find_fails req.pub_key_hash user ws find_failed
  guard (elim existing [ none ↦ true | some w ↦ false ]) wallet_exists
  ws' ← insert_wallet db.write_fails (saved_wallet user req) ws
  ok (saved_wallet user req, ws')

-- GetWallet
unfoldable pub get_wallet : Refusals → ℕ → Text → List Wallet → Result WalletError Wallet
get_wallet db user hash ws = checked_find db.find_fails hash user ws find_failed >>= found

-- GetAllWallets
unfoldable pub get_all_wallets : Refusals → ℕ → List Wallet → Result WalletError (List Wallet)
get_all_wallets db user ws =
    if db.find_fails then err find_failed else ok (find_all_by_user_id user ws)

abbrev if_given : Text → Text → Text
if_given new old = if is_nil new then old else new

abbrev pub changed : UpdateWalletRequest → Wallet → Wallet
changed req w = record w {
  user_pub_key = if_given req.user_pub_key w.user_pub_key;
  label = if_given req.label w.label;
}

-- UpdateWallet: the table after it, and the row that is read again, which the database may then refuse.
unfoldable pub update_wallet :
    Refusals
    → ℕ
    → Text
    → UpdateWalletRequest
    → List Wallet
    → List Wallet × Result WalletError (Option Wallet)
update_wallet db user hash req ws =
    elim (checked_find db.find_fails hash user ws find_failed >>= found >>= λ w.
    update db.write_fails (changed req w) ws) [
      | err e ↦ (ws, err e)
      | ok ws' ↦ (ws', checked_find db.reread_fails hash user ws' reread_failed)
    ]

-- DeleteWallet
unfoldable pub delete_wallet : Refusals → ℕ → Text → List Wallet → Result WalletError (List Wallet)
delete_wallet db user hash ws =
    checked_find db.find_fails hash user ws find_failed >>= found >>= λ w.
    mark_deleted db.write_fails hash user ws
