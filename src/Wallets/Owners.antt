-- ===== src/Wallets/Owners.antt =====
-- A change of one user's wallets leaves those of every other user.
use cafe_discovery.Base.{
  ℕ, Bool, true, false, ◌≡◌, refl, inl, inr, some, List, [], ◌∷◌, ◌++◌, arith, ◌==◌, Text, ok, err,
  Result-cases, Option-cases, Bool-cases,
}
use cafe_discovery.Wallets.{
  Wallet, Refusals, CreateWalletRequest, UpdateWalletRequest, is_wallet, find_by_id, insert_wallet,
  write_where, update, mark_deleted, saved_wallet, create_wallet, changed, update_wallet,
  delete_wallet,
}

-- The calls of the service that write, and the table after one of them.
pub data Change : Type 0 where
  creating : CreateWalletRequest → Change
  updating : Text → UpdateWalletRequest → Change
  deleting : Text → Change

unfoldable pub after : Refusals → ℕ → Change → List Wallet → List Wallet
after db user (creating req) ws = elim (create_wallet db user req ws) [
  | err e ↦ ws
  | ok (w, ws') ↦ ws'
]
after db user (updating hash req) ws = (update_wallet db user hash req ws).0
after db user (deleting hash) ws = elim (delete_wallet db user hash ws) [
  | err e ↦ ws
  | ok ws' ↦ ws'
]

find-append :
    (hash : Text) (user : ℕ) (w : Wallet) (ws : List Wallet)
    → (w.user_id == user) ≡ false
    → find_by_id hash user (ws ++ w ∷ []) ≡ find_by_id hash user ws
unfolding find_by_id
find-append hash user w [] h = ground (arith, h)
find-append hash user w (v ∷ ws) h = ground (arith, find-append hash user w ws h)

find-write_where :
    (hash other_hash : Text) (user other : ℕ) (f : Wallet → Wallet) (ws : List Wallet)
    → ((w : Wallet) → (f w).user_id ≡ w.user_id)
    → (user == other) ≡ false
    → find_by_id other_hash other (write_where (is_wallet hash user) f ws)
      ≡ find_by_id other_hash other ws
unfolding find_by_id write_where
find-write_where hash other_hash user other f [] keeps h = refl
find-write_where hash other_hash user other f (w ∷ ws) keeps h =
    let rest = find-write_where hash other_hash user other f ws keeps h in
    elim (Bool-cases (is_wallet hash user w)) [
      | inr e ↦ ground (arith, e, rest)
      | inl e ↦ ground (arith, e, rest, keeps w, h)
    ]

find-is_wallet :
    (hash : Text) (user : ℕ) (ws : List Wallet) (w : Wallet)
    → find_by_id hash user ws ≡ some w
    → is_wallet hash user w ≡ true
unfolding find_by_id
find-is_wallet hash user [] w h = absurd (ground (arith, h))
find-is_wallet hash user (v ∷ ws) w h = elim (Bool-cases (is_wallet hash user v)) [
  | inr e ↦ find-is_wallet hash user ws w (ground (arith, e, h))
  | inl e ↦ let same : v ≡ w = ground (arith, e, h) in rw same at e
]

create_cases :
    (db : Refusals) (user : ℕ) (req : CreateWalletRequest) (ws : List Wallet) (w : Wallet)
    (ws' : List Wallet)
    → create_wallet db user req ws ≡ ok (w, ws')
    → ws' ≡ ws ++ saved_wallet user req ∷ []
unfolding create_wallet insert_wallet
create_cases db user req ws w ws' h = elim (Option-cases (find_by_id req.pub_key_hash user ws)) [
  | inl f ↦ ground (arith, f, h)
  | inr (v, f) ↦ absurd (ground (arith, f, h))
]

pub delete_cases :
    (db : Refusals) (user : ℕ) (hash : Text) (ws ws' : List Wallet)
    → delete_wallet db user hash ws ≡ ok ws'
    → ws' ≡ write_where (is_wallet hash user) (λ row. record row { is_deleted = true }) ws
unfolding delete_wallet mark_deleted
delete_cases db user hash ws ws' h = elim (Option-cases (find_by_id hash user ws)) [
  | inl f ↦ absurd (ground (arith, f, h))
  | inr (v, f) ↦ ground (arith, f, h)
]

update_cases :
    (fails : Bool) (w : Wallet) (ws ws' : List Wallet)
    → update fails w ws ≡ ok ws'
    → ws'
      ≡ write_where
          (is_wallet w.pub_key_hash w.user_id)
          (λ row. record row { user_pub_key = w.user_pub_key; label = w.label })
          ws
unfolding update
update_cases fails w ws ws' h = ground (arith, h)

update_keeps :
    (db : Refusals) (user other : ℕ) (hash other_hash : Text) (req : UpdateWalletRequest)
    (ws : List Wallet)
    → (user == other) ≡ false
    → find_by_id other_hash other (update_wallet db user hash req ws).0
      ≡ find_by_id other_hash other ws
unfolding update_wallet
update_keeps db user other hash other_hash req ws h = elim (Bool-cases db.find_fails) [
  | inl d ↦ ground (arith, d)
  | inr d ↦ elim (Option-cases (find_by_id hash user ws)) [
    | inl f ↦ ground (arith, d, f)
    | inr (w, f) ↦ elim (Result-cases (update db.write_fails (changed req w) ws)) [
      | inr (x, u) ↦ ground (arith, d, f, u)
      | inl (ws', u) ↦
          let start : (update_wallet db user hash req ws).0 ≡ ws' = ground (arith, d, f, u) in
          let own : (w.user_id == other) ≡ false =
            ground (arith, find-is_wallet hash user ws w f, h) in
          let written = update_cases db.write_fails (changed req w) ws ws' u in
          rw (start, written)
            (find-write_where w.pub_key_hash other_hash w.user_id other
              (λ row. record row {
                user_pub_key = (changed req w).user_pub_key;
                label = (changed req w).label;
              })
              ws (λ v. refl) own)
    ]
  ]
]

-- Whatever a user creates, updates or deletes, and whatever the database refuses, every other user
-- finds under every key hash the wallet found before.
pub after-other_user :
    (db : Refusals) (user other : ℕ) (change : Change) (ws : List Wallet) (hash : Text)
    → (user == other) ≡ false
    → find_by_id hash other (after db user change ws) ≡ find_by_id hash other ws
unfolding after
after-other_user db user other (creating req) ws hash h =
    elim (Result-cases (create_wallet db user req ws)) [
      | inr (x, e) ↦ ground (arith, e)
      | inl ((w, ws'), e) ↦
          let same : after db user (creating req) ws ≡ ws' = ground (arith, e) in
          rw (same, create_cases db user req ws w ws' e)
            (find-append hash other (saved_wallet user req) ws h)
    ]
after-other_user db user other (updating at_hash req) ws hash h =
    update_keeps db user other at_hash hash req ws h
after-other_user db user other (deleting at_hash) ws hash h =
    elim (Result-cases (delete_wallet db user at_hash ws)) [
      | inr (x, e) ↦ ground (arith, e)
      | inl (ws', e) ↦
          let same : after db user (deleting at_hash) ws ≡ ws' = ground (arith, e) in
          rw (same, delete_cases db user at_hash ws ws' e)
            (find-write_where at_hash hash user other (λ row. record row { is_deleted = true }) ws
              (λ v. refl) h)
    ]
