-- ===== src/Presence/Listing.antt =====
-- Availability and the list of scanners.
use cafe_discovery.Base.{
  ℕ, Bool, true, false, not, String, ◌≡◌, refl, sym, ◌⊎◌, inl, inr, ◌↔◌, Option, none, some, List,
  [], ◌∷◌, arith, str_eq, eq_iff, is_nil, any_of, Bool-cases,
}
use cafe_discovery.Presence.{Tracker, of_type, has_scanner, ScannerInfo, list_scanners}

abbrev pub lists : String → List ScannerInfo → Bool
lists typ = any_of (λ i. str_eq i.typ typ)

-- A tracker with these scanners.
abbrev with_scanners : List ℕ → List ℕ → Tracker → Tracker
with_scanners ws ts t = record t { wallets = ws; tls = ts }

lists-other :
    (ws ts : List ℕ) (t : Tracker) (typ : String)
    → str_eq "wallet" typ ≡ false
    → str_eq "tls" typ ≡ false
    → lists typ (list_scanners (with_scanners ws ts t)) ≡ false
unfolding list_scanners
lists-other [] [] t typ e f = refl
lists-other [] (x ∷ ts) t typ e f = rw (f) refl
lists-other (w ∷ ws) [] t typ e f = rw (e) refl
lists-other (w ∷ ws) (x ∷ ts) t typ e f = rw (e, f) refl

lists-wallet :
    (ws ts : List ℕ) (t : Tracker)
    → lists "wallet" (list_scanners (with_scanners ws ts t)) ≡ not (is_nil ws)
unfolding list_scanners
lists-wallet [] [] t = refl
lists-wallet [] (x ∷ ts) t = refl
lists-wallet (w ∷ ws) ts t = refl

lists-tls :
    (ws ts : List ℕ) (t : Tracker)
    → lists "tls" (list_scanners (with_scanners ws ts t)) ≡ not (is_nil ts)
unfolding list_scanners
lists-tls [] [] t = refl
lists-tls [] (x ∷ ts) t = refl
lists-tls (w ∷ ws) [] t = refl
lists-tls (w ∷ ws) (x ∷ ts) t = refl

differs : (a b : String) → str_eq a b ≡ false → str_eq b a ≡ false
differs a b h = elim (Bool-cases (str_eq b a)) [
  | inr e ↦ e
  | inl e ↦ absurd (ground (arith, h, (eq_iff a b).1 (sym ((eq_iff b a).0 e))))
]

lists_lem :
    (t : Tracker) (typ : String) → lists typ (list_scanners t) ≡ not (is_nil (of_type t typ))
lists_lem t typ = elim (Bool-cases (str_eq typ "wallet")) [
  | inl e ↦ rw ((eq_iff typ "wallet").0 e) (lists-wallet t.wallets t.tls t)
  | inr e ↦ elim (Bool-cases (str_eq typ "tls")) [
    | inl f ↦ rw ((eq_iff typ "tls").0 f) (lists-tls t.wallets t.tls t)
    | inr f ↦
        rw (e, f) (lists-other t.wallets t.tls t typ (differs typ "wallet" e) (differs typ "tls" f))
  ]
]

-- HasScanner holds of a type exactly when Redis holds an unexpired heartbeat for it or ListScanners
-- lists it: with Redis, a type can be up that the list does not show.
pub has_scanner-lists :
    (redis : Option Bool) (t : Tracker) (typ : String)
    → (has_scanner redis t typ ≡ true)
      ↔ ((redis ≡ some true) ⊎ (lists typ (list_scanners t) ≡ true))
unfolding has_scanner
has_scanner-lists (some true) t typ = ((λ _. inl refl), λ _. refl)
has_scanner-lists (some false) t typ = ground (arith, lists_lem t typ)
has_scanner-lists none t typ = ground (arith, lists_lem t typ)
