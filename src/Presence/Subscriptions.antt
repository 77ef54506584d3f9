-- ===== src/Presence/Subscriptions.antt =====
-- The subscriptions of NewScannerPresenceTracker and Close in internal/service/scanner_presence.go. A
-- connection numbers its subscriptions; which subjects it refuses is a parameter. An
-- unsubscription that fails is not modelled.
use cafe_discovery.Base.{
  ℕ, ◌+◌, Bool, true, not, Option, none, some, List, [], ◌∷◌, ◌≡◌, refl, arith, ltb, ◌==◌,
  if◌then◌else◌, select, all_of,
}

pub data Subject : Type 0 where
  presence_subject tls_heartbeat_subject wallet_heartbeat_subject other_subject : Subject

pub record Subscription : Type 0 where
  pub number : ℕ
  pub subject : Subject

pub record Connection : Type 0 where
  pub next : ℕ
  pub live : List Subscription

-- The fields sub, subTLS and subWallet of ScannerPresenceTracker.
pub record Subscriptions : Type 0 where
  pub sub : ℕ
  pub sub_tls : Option ℕ
  pub sub_wallet : Option ℕ

abbrev pub subscribe : Subject → Connection → Connection
subscribe subject c = record {
  next = c.next + 1;
  live = record { number = c.next; subject = subject } ∷ c.live;
}

abbrev pub unsubscribe : ℕ → Connection → Connection
unsubscribe number c = record c { live = select (λ s. not (s.number == number)) c.live }

-- NewScannerPresenceTracker: none is the error of a refused subscription.
unfoldable pub new_scanner_presence_tracker :
    (Subject → Bool) → Bool → Connection → Connection × Option Subscriptions
new_scanner_presence_tracker refuses has_redis c =
    let c₁ = subscribe presence_subject c in
    let c₂ = subscribe tls_heartbeat_subject c₁ in
    let c₃ = subscribe wallet_heartbeat_subject c₂ in
    if refuses presence_subject
    then (c, none)
    else if not has_redis
    then (c₁, some (record { sub = c.next; sub_tls = none; sub_wallet = none }))
    else if refuses tls_heartbeat_subject
    then (unsubscribe c.next c₁, none)
    else if refuses wallet_heartbeat_subject
    then (unsubscribe c.next (unsubscribe c₁.next c₂), none)
    else (c₃, some (record { sub = c.next; sub_tls = some c₁.next; sub_wallet = some c₂.next }))

abbrev unsubscribe_if : Option ℕ → Connection → Connection
unsubscribe_if none c = c
unsubscribe_if (some number) c = unsubscribe number c

-- Close
unfoldable pub close : Subscriptions → Connection → Connection
close t c = unsubscribe t.sub (unsubscribe_if t.sub_wallet (unsubscribe_if t.sub_tls c))

-- The numbers of the live subscriptions have been given before.
abbrev pub IsNumbered : Connection → Type 0
IsNumbered c = all_of (λ s. ltb s.number c.next) c.live ≡ true

-- Where a connection gives its subscription after the others, its removal leaves the others.
select_older :
    (next by : ℕ) (live : List Subscription)
    → all_of (λ s. ltb s.number next) live ≡ true
    → select (λ s. not (s.number == next + by)) live ≡ live
select_older next by [] h = refl
select_older next by (s ∷ live) h = ground (arith, h, select_older next by live)

abbrev closed : Connection × Option Subscriptions → Connection
closed (c, none) = c
closed (c, some t) = close t c

-- After a start that fails, and after a start and a Close, a connection has the subscriptions it had:
-- none of the tracker's is left.
pub close-new_scanner_presence_tracker :
    (refuses : Subject → Bool) (has_redis : Bool) (c : Connection)
    → IsNumbered c
    → (closed (new_scanner_presence_tracker refuses has_redis c)).live ≡ c.live
unfolding new_scanner_presence_tracker close
close-new_scanner_presence_tracker refuses has_redis c h = ground (
  arith,
  h,
  select_older c.next 0 c.live h,
  select_older c.next 1 c.live h,
  select_older c.next 2 c.live h,
)
