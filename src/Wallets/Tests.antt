-- ===== src/Wallets/Tests.antt =====
-- Runs of the wallet service for user 7, who has one wallet.
use cafe_discovery.Base.{true, false, ◌≡◌, refl, none, [], ◌∷◌, codes, text_eq, ok, err}
use cafe_discovery.Wallets.{
  Wallet, Refusals, CreateWalletRequest, create_failed, find_by_id, write_where, create_wallet,
  mark_deleted, delete_wallet,
}
use cafe_discovery.Wallets.Recreate.{create-deleted_hash}

abbrev db : Refusals
db = record { find_fails = false; write_fails = false; reread_fails = false }

abbrev saved : Wallet
saved = record {
  pub_key_hash = codes "h";
  user_id = 7;
  user_pub_key = codes "k";
  label = [];
  is_deleted = false;
}

abbrev req : CreateWalletRequest
req = record { pub_key_hash = codes "h"; user_pub_key = codes "k"; label = [] }

abbrev marked : Wallet
marked = record saved { is_deleted = true }

deleted : delete_wallet db 7 (codes "h") (saved ∷ []) ≡ ok (marked ∷ [])
unfolding delete_wallet mark_deleted find_by_id write_where text_eq
deleted = refl

unfound : find_by_id (codes "h") 7 (marked ∷ []) ≡ none
unfolding find_by_id text_eq
unfound = refl

create-deleted_hash_example : create_wallet db 7 req (marked ∷ []) ≡ err create_failed
create-deleted_hash_example =
    create-deleted_hash db db 7 7 req (saved ∷ []) (marked ∷ []) deleted refl refl refl unfound
