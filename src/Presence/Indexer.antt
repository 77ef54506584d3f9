-- ===== src/Presence/Indexer.antt =====
-- What the indexer of the living wallet scanners says of each of them.
use cafe_discovery.Base.{
  ℕ, false, String, ◌≡◌, ◌≢◌, refl, ◌∙◌, inl, inr, none, some, List, [], ◌∷◌, arith, str_eq, eq_iff,
  eq_refl, is_nil, lookup, Option-cases, Bool-cases,
}
use cafe_discovery.Presence.{WalletMeta, Tracker, unknown, common_indexer, onchain_indexer}

-- Each scanner of a list has announced this indexer.
abbrev pub Shared : List (ℕ × WalletMeta) → String → List ℕ → Type 0
Shared metas r [] = Unit {0}
Shared metas r (id ∷ ids) =
    ((meta : WalletMeta) × (lookup id metas ≡ some meta) × (meta.indexer ≡ r)) × Shared metas r ids

common_lem :
    (metas : List (ℕ × WalletMeta)) (c r : String) (ids : List ℕ)
    → common_indexer metas (some c) ids ≡ r
    → r ≢ unknown
    → (c ≡ r) × Shared metas r ids
unfolding common_indexer
common_lem metas c r [] h known = (h, tt)
common_lem metas c r (id ∷ ids) h known = elim (Option-cases (lookup id metas)) [
  | inl e ↦ absurd (ground (arith, e, h, known))
  | inr (meta, e) ↦ elim (Bool-cases (str_eq meta.indexer "")) [
    | inl f ↦ absurd (ground (arith, e, f, h, known))
    | inr f ↦ elim (Bool-cases (str_eq meta.indexer c)) [
      | inr g ↦ absurd (ground (arith, e, f, g, h, known))
      | inl g ↦
          let (same, others) = common_lem metas c r ids (ground (arith, e, f, g, h)) known in
          (same, ((meta, e, (eq_iff meta.indexer c).0 g ∙ same), others))
    ]
  ]
]

first_lem :
    (metas : List (ℕ × WalletMeta)) (r : String) (ids : List ℕ)
    → common_indexer metas none ids ≡ r
    → r ≢ unknown
    → (is_nil ids ≡ false) × Shared metas r ids
unfolding common_indexer
first_lem metas r [] h known = absurd (ground (arith, h, known))
first_lem metas r (id ∷ ids) h known = elim (Option-cases (lookup id metas)) [
  | inl e ↦ absurd (ground (arith, e, h, known))
  | inr (meta, e) ↦ elim (Bool-cases (str_eq meta.indexer "")) [
    | inl f ↦ absurd (ground (arith, e, f, h, known))
    | inr f ↦
        let (same, others) =
          common_lem metas meta.indexer r ids (ground (arith, e, f, eq_refl meta.indexer, h))
            known in
        (refl, ((meta, e, same), others))
  ]
]

-- When OnchainIndexer answers anything but unknown, there is a living wallet scanner, and every
-- living wallet scanner has announced that indexer.
pub onchain_indexer-Shared :
    (t : Tracker) (r : String)
    → onchain_indexer t ≡ r
    → r ≢ unknown
    → (is_nil t.wallets ≡ false) × Shared t.wallet_meta r t.wallets
unfolding onchain_indexer
onchain_indexer-Shared t r h known = first_lem t.wallet_meta r t.wallets h known
