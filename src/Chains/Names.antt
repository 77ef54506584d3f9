-- ===== src/Chains/Names.antt =====
-- internal/config/chain.go: what Validate gives to the lookup by name.
use cafe_discovery.Base.{
  ℕ, true, false, ◌≡◌, refl, sym, ◌∙◌, ◌⊎◌, inl, inr, Option, none, some, List, [], ◌∷◌, arith,
  any_of, is_positive, pos_part, Text, text_eq, text_eq_iff, trim, ok, Option-cases, Bool-cases,
}
use cafe_discovery.Chains.{
  Blockchain, has_trimmed_name, has_id, validate_after, validate, chain_id_by_network,
}

-- What the first blockchain passed.
record Passed (seen : List Blockchain) (b : Blockchain) (chains : List Blockchain) : Type 0 where
  name_fresh : any_of (has_trimmed_name (trim b.name)) seen ≡ false
  positive : is_positive b.chain_id ≡ true
  id_fresh : any_of (has_id (pos_part b.chain_id)) seen ≡ false
  rest : validate_after (b ∷ seen) chains ≡ ok tt

validate_cases :
    (seen : List Blockchain) (b : Blockchain) (chains : List Blockchain)
    → validate_after seen (b ∷ chains) ≡ ok tt
    → Passed seen b chains
unfolding validate_after
validate_cases seen b chains h = record {
  name_fresh = ground (arith, h);
  positive = ground (arith, h);
  id_fresh = ground (arith, h);
  rest = ground (arith, h);
}

lookup_cases :
    (b : Blockchain) (chains : List Blockchain) (n : Text) (id : ℕ)
    → chain_id_by_network (b ∷ chains) n ≡ some id
    → (chain_id_by_network chains n ≡ some id) ⊎ ((b.name ≡ n) × (pos_part b.chain_id ≡ id))
unfolding chain_id_by_network
lookup_cases b chains n id h = elim (Option-cases (chain_id_by_network chains n)) [
  | inr (x, e) ↦ inl (ground (arith, e, h))
  | inl e ↦ elim (Bool-cases (text_eq b.name n)) [
    | inl f ↦ inr ((text_eq_iff b.name n).0 f, ground (arith, e, f, h))
    | inr f ↦ absurd (ground (arith, e, f, h))
  ]
]

-- A chain that was seen is not found again.
found-unseen :
    (seen chains : List Blockchain) (n : Text) (id : ℕ)
    → validate_after seen chains ≡ ok tt
    → chain_id_by_network chains n ≡ some id
    → any_of (has_id id) seen ≡ false
unfolding chain_id_by_network
found-unseen seen [] n id valid h = absurd (ground (arith, h))
found-unseen seen (b ∷ chains) n id valid h =
    let passed = validate_cases seen b chains valid in
    elim (lookup_cases b chains n id h) [
      | inl e ↦ ground (arith, found-unseen (b ∷ seen) chains n id (passed.rest) e)
      | inr (_, e) ↦ rw e at (passed.id_fresh)
    ]

same_chain :
    (seen chains : List Blockchain) (m n : Text) (id : ℕ)
    → validate_after seen chains ≡ ok tt
    → chain_id_by_network chains m ≡ some id
    → chain_id_by_network chains n ≡ some id
    → m ≡ n
unfolding chain_id_by_network
same_chain seen [] m n id valid h k = absurd (ground (arith, h))
same_chain seen (b ∷ chains) m n id valid h k =
    let passed = validate_cases seen b chains valid in
    elim (lookup_cases b chains m id h) [
      | inl e ↦ elim (lookup_cases b chains n id k) [
        | inl f ↦ same_chain (b ∷ seen) chains m n id (passed.rest) e f
        | inr (_, f) ↦
            absurd (ground (arith, found-unseen (b ∷ seen) chains m id (passed.rest) e, f))
      ]
      | inr (at_m, e) ↦ elim (lookup_cases b chains n id k) [
        | inl f ↦ absurd (ground (arith, found-unseen (b ∷ seen) chains n id (passed.rest) f, e))
        | inr (at_n, f) ↦ sym at_m ∙ at_n
      ]
    ]

-- A name that was seen is not found again.
seen-unfound :
    (seen chains : List Blockchain) (n : Text)
    → validate_after seen chains ≡ ok tt
    → any_of (has_trimmed_name (trim n)) seen ≡ true
    → chain_id_by_network chains n ≡ none
unfolding chain_id_by_network
seen-unfound seen [] n valid h = refl
seen-unfound seen (b ∷ chains) n valid h =
    let passed = validate_cases seen b chains valid in
    let later = seen-unfound (b ∷ seen) chains n (passed.rest) (ground (arith, h)) in
    elim (Bool-cases (text_eq b.name n)) [
      | inr f ↦ ground (arith, later, f)
      | inl f ↦
          let same : b.name ≡ n = (text_eq_iff b.name n).0 f in
          absurd (ground (arith, h, rw same at (passed.name_fresh)))
    ]

-- Each blockchain of a list is looked up as itself.
abbrev pub Found : (Text → Option ℕ) → List Blockchain → Type 0
Found look [] = Unit {0}
Found look (b ∷ chains) = (look b.name ≡ some (pos_part b.chain_id)) × Found look chains

Found-later :
    (b : Blockchain) (whole chains : List Blockchain)
    → Found (chain_id_by_network whole) chains
    → Found (chain_id_by_network (b ∷ whole)) chains
unfolding chain_id_by_network
Found-later b whole [] h = tt
Found-later b whole (c ∷ chains) (first, h) = (ground (arith, first), Found-later b whole chains h)

validate-Found :
    (seen chains : List Blockchain)
    → validate_after seen chains ≡ ok tt
    → Found (chain_id_by_network chains) chains
unfolding chain_id_by_network
validate-Found seen [] valid = tt
validate-Found seen (b ∷ chains) valid =
    let passed = validate_cases seen b chains valid in
    let unseen =
      seen-unfound (b ∷ seen) chains b.name (passed.rest)
        (ground (arith, text_eq_iff (trim b.name) (trim b.name))) in
    (
      ground (arith, unseen, passed.positive, text_eq_iff b.name b.name),
      Found-later b chains chains (validate-Found (b ∷ seen) chains (passed.rest)),
    )

-- No two names are looked up as one number.
abbrev pub Injective : (Text → Option ℕ) → Type 0
Injective look = (m n : Text) (id : ℕ) → look m ≡ some id → look n ≡ some id → m ≡ n

-- In a configuration that Validate accepts, each blockchain is looked up by its name as its own chain
-- id, and two names never stand for one chain id.
pub validate-Names :
    (chains : List Blockchain)
    → validate chains ≡ ok tt
    → Found (chain_id_by_network chains) chains × Injective (chain_id_by_network chains)
unfolding validate
validate-Names chains valid =
    (validate-Found [] chains valid, λ m n id h k. same_chain [] chains m n id valid h k)
