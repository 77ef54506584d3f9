-- ===== src/Wallets/Recreate.antt =====
-- A deleted wallet keeps its primary key.
use cafe_discovery.Base.{
  ℕ, Bool, true, false, ◌≡◌, refl, ◌∙◌, inl, inr, none, some, List, [], ◌∷◌, arith, any_of, is_nil,
  Text, ok, err, Option-cases, Bool-cases,
}
use cafe_discovery.Wallets.{
  Wallet, Refusals, CreateWalletRequest, create_failed, is_wallet, has_hash, find_by_id,
  insert_wallet, write_where, create_wallet, mark_deleted, delete_wallet,
}
use cafe_discovery.Wallets.Owners.{delete_cases}

has_hash-write :
    (p : Wallet → Bool) (f : Wallet → Wallet) (hash : Text) (ws : List Wallet)
    → ((w : Wallet) → (f w).pub_key_hash ≡ w.pub_key_hash)
    → any_of (has_hash hash) (write_where p f ws) ≡ any_of (has_hash hash) ws
unfolding write_where
has_hash-write p f hash [] keeps = refl
has_hash-write p f hash (w ∷ ws) keeps = elim (Bool-cases (p w)) [
  | inl e ↦ ground (arith, e, keeps w, has_hash-write p f hash ws keeps)
  | inr e ↦ ground (arith, e, has_hash-write p f hash ws keeps)
]

found_hash :
    (hash : Text) (user : ℕ) (ws : List Wallet) (w : Wallet)
    → find_by_id hash user ws ≡ some w
    → any_of (has_hash hash) ws ≡ true
unfolding find_by_id
found_hash hash user [] w h = absurd (ground (arith, h))
found_hash hash user (v ∷ ws) w h = elim (Bool-cases (is_wallet hash user v)) [
  | inr e ↦ ground (arith, found_hash hash user ws w (ground (arith, e, h)))
  | inl e ↦ ground (arith, e)
]

deleted_hash :
    (db : Refusals) (user : ℕ) (hash : Text) (ws ws' : List Wallet)
    → delete_wallet db user hash ws ≡ ok ws'
    → any_of (has_hash hash) ws ≡ true
unfolding delete_wallet mark_deleted
deleted_hash db user hash ws ws' h = elim (Option-cases (find_by_id hash user ws)) [
  | inl f ↦ absurd (ground (arith, f, h))
  | inr (v, f) ↦ found_hash hash user ws v f
]

-- Once a user has deleted a wallet, no user can save a wallet under that key hash again, although no
-- lookup finds one and the database refuses no statement: the insertion conflicts with the marked row.
pub create-deleted_hash :
    (db db' : Refusals) (user later_user : ℕ) (req : CreateWalletRequest) (ws ws' : List Wallet)
    → delete_wallet db user req.pub_key_hash ws ≡ ok ws'
    → is_nil req.pub_key_hash ≡ false
    → is_nil req.user_pub_key ≡ false
    → db'.find_fails ≡ false
    → find_by_id req.pub_key_hash later_user ws' ≡ none
    → create_wallet db' later_user req ws' ≡ err create_failed
unfolding create_wallet insert_wallet
create-deleted_hash db db' user later_user req ws ws' h hash_given key_given up unfound =
    let taken : any_of (has_hash req.pub_key_hash) ws' ≡ true =
      rw (delete_cases db user req.pub_key_hash ws ws' h) (
        has_hash-write (is_wallet req.pub_key_hash user) (λ row. record row { is_deleted = true })
          req.pub_key_hash ws (λ w. refl)
        ∙ deleted_hash db user req.pub_key_hash ws ws' h) in
    ground (arith, hash_given, key_given, up, unfound, taken)
