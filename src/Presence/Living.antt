-- ===== src/Presence/Living.antt =====
-- The living scanners: the two tables of the tracker agree, and the sweep keeps who was heard of.
use cafe_discovery.Base.{
  ℕ, ◌+◌, ◌≤◌, Bool, true, false, not, ◌&&◌, ◌≡◌, refl, inl, inr, ◌↔◌, Option, none, some, List, [],
  ◌∷◌, arith, ◌==◌, ==_iff, select, mem, lookup, has_key, lookup-insert, lookup-drop_keys,
  Option-cases, Bool-cases, ℤ,
}
use cafe_discovery.Presence.{
  WalletMeta, Event, joined, left, other, PresenceMessage, Tracker, new_tracker, apply_wallet,
  apply_tls, handle_message, silence_limit, is_silent, expire_silent_wallets,
}

-- A wallet scanner is in the set of its type exactly when its indexer and last instant are kept.
abbrev pub Agree : Tracker → Type 0
Agree t = (id : ℕ) → mem id t.wallets ≡ has_key id t.wallet_meta

-- What happens to a tracker: a message arrives, or the sweep runs.
pub data Change (t : Tracker) : Tracker → Type 0 where
  message : (now : ℕ) (msg : Option PresenceMessage) → Change t (handle_message now msg t)
  sweep : (now : ℕ) → Change t (expire_silent_wallets now t)

pub data Changes (t : Tracker) : Tracker → Type 0 where
  here : Changes t t
  next : {u v : Tracker} → Changes t u → Change u v → Changes t v

mem-select : (p : ℕ → Bool) (id : ℕ) (ids : List ℕ) → mem id (select p ids) ≡ (p id && mem id ids)
mem-select p id [] = ground arith
mem-select p id (i ∷ ids) = elim (Bool-cases (i == id)) [
  | inl e ↦ let same : i ≡ id = (==_iff i id).0 e in ground (arith, mem-select p id ids, e, same)
  | inr e ↦ ground (arith, mem-select p id ids, e)
]

apply_wallet-Agree :
    (now : ℕ) (msg : PresenceMessage) (event : Event) (t : Tracker)
    → Agree t
    → Agree (apply_wallet now msg event t)
unfolding apply_wallet
apply_wallet-Agree now msg joined t h id = ground (
  arith,
  h id,
  lookup-insert msg.scanner_id id (record { indexer = msg.announced_indexer; last_seen = now })
      t.wallet_meta,
)
apply_wallet-Agree now msg left t h id = ground (
  arith,
  h id,
  mem-select (λ i. not (i == msg.scanner_id)) id t.wallets,
  lookup-drop_keys (λ j. j == msg.scanner_id) id t.wallet_meta,
)
apply_wallet-Agree now msg other t h id = h id

apply_tls-Agree :
    (msg : PresenceMessage) (event : Event) (t : Tracker) → Agree t → Agree (apply_tls msg event t)
unfolding apply_tls
apply_tls-Agree msg joined t h id = h id
apply_tls-Agree msg left t h id = h id
apply_tls-Agree msg other t h id = h id

expire-Agree : (now : ℕ) (t : Tracker) → Agree t → Agree (expire_silent_wallets now t)
unfolding expire_silent_wallets
expire-Agree now t h id = ground (
  arith,
  h id,
  mem-select (λ i. not (is_silent now t i)) id t.wallets,
  lookup-drop_keys (is_silent now t) id t.wallet_meta,
)

handle-Agree :
    (now : ℕ) (msg : Option PresenceMessage) (t : Tracker)
    → Agree t
    → Agree (handle_message now msg t)
unfolding handle_message
handle-Agree now none t h id = h id
handle-Agree now (some msg) t h id =
    ground (
      arith,
      h id,
      apply_wallet-Agree now msg msg.event t h id,
      apply_tls-Agree msg msg.event t h id,
    )

Change-Agree : {t u : Tracker} → Change t u → Agree t → Agree u
Change-Agree {t} (message now msg) h = handle-Agree now msg t h
Change-Agree {t} (sweep now) h = expire-Agree now t h

start-Agree : (silent_after : ℤ) → Agree (new_tracker silent_after)
unfolding new_tracker lookup
start-Agree silent_after id = refl

-- Whatever messages and sweeps a new tracker sees, in whatever order, a wallet scanner is among the
-- living ones exactly when its indexer and last instant are kept, so neither table outgrows the other.
pub changes-Agree :
    (silent_after : ℤ) (t : Tracker) → Changes (new_tracker silent_after) t → Agree t
changes-Agree silent_after t here = start-Agree silent_after
changes-Agree silent_after t (next {u} r c) = Change-Agree c (changes-Agree silent_after u r)

Heard : ℕ → Tracker → ℕ → Type 0
Heard now t id =
    (meta : WalletMeta) × (lookup id t.wallet_meta ≡ some meta)
    × (now ≤ meta.last_seen + silence_limit t)

silent_lem :
    (now : ℕ) (t : Tracker) (id : ℕ) (meta : WalletMeta)
    → lookup id t.wallet_meta ≡ some meta
    → (is_silent now t id ≡ false) ↔ (now ≤ meta.last_seen + silence_limit t)
unfolding is_silent
silent_lem now t id meta e = ground (arith, e)

mem-expire :
    (now : ℕ) (t : Tracker) (id : ℕ)
    → mem id (expire_silent_wallets now t).wallets ≡ (not (is_silent now t id) && mem id t.wallets)
unfolding expire_silent_wallets
mem-expire now t id = mem-select (λ i. not (is_silent now t i)) id t.wallets

-- Where the two tables agree, a sweep keeps exactly the wallet scanners whose last announcement is
-- not older than the silence window.
pub expire-Heard :
    (now : ℕ) (t : Tracker) (id : ℕ)
    → Agree t
    → (mem id (expire_silent_wallets now t).wallets ≡ true) ↔ (
        (meta : WalletMeta) × (lookup id t.wallet_meta ≡ some meta)
        × (now ≤ meta.last_seen + silence_limit t))
expire-Heard now t id h = elim (Option-cases (lookup id t.wallet_meta)) [
  | inl e ↦ (
    (λ living. absurd (ground (arith, e, living, h id, mem-expire now t id))),
    λ (meta, f, _). absurd (ground (arith, e, f)),
  )
  | inr (meta, e) ↦ (
    (λ living. (meta, e, ground (arith, living, mem-expire now t id, silent_lem now t id meta e))),
    λ (meta', f, heard).
        ground (arith, e, h id, mem-expire now t id, silent_lem now t id meta' f, f, heard),
  )
]
