-- ===== src/Chains/Ids.antt =====
-- The chain ids of a list item: each once, and exactly those that the networks stand for.
use cafe_discovery.Base.{
  ℕ, true, false, ◌||◌, ◌≡◌, ◌↔◌, refl, ◌⊎◌, inl, inr, Option, some, List, [], ◌∷◌, ◌++◌, arith,
  mem, ==_iff, ==_refl, Text, Option-cases, Bool-cases,
}
use cafe_discovery.Chains.{
  Blockchain, chain_id_by_network, parse_networks, chain_of, collect_ids, chain_ids_for_networks,
}

-- No number comes twice.
abbrev pub Distinct : List ℕ → Type 0
Distinct [] = Unit {0}
Distinct (x ∷ xs) = (mem x xs ≡ false) × Distinct xs

-- Some name of the list stands for the id.
abbrev pub StandsFor : (Text → Option ℕ) → List Text → ℕ → Type 0
StandsFor chain [] id = ⊥
StandsFor chain (n ∷ names) id = (chain n ≡ some id) ⊎ StandsFor chain names id

mem-append : (a : ℕ) (xs ys : List ℕ) → mem a (xs ++ ys) ≡ (mem a xs || mem a ys)
mem-append a [] ys = refl
mem-append a (x ∷ xs) ys = ground (arith, mem-append a xs ys)

Distinct-append : (xs : List ℕ) (a : ℕ) → Distinct xs → mem a xs ≡ false → Distinct (xs ++ a ∷ [])
Distinct-append [] a d h = (refl, tt)
Distinct-append (x ∷ xs) a (first, d) h =
    (ground (arith, mem-append x xs (a ∷ []), first, h), Distinct-append xs a d (ground (arith, h)))

module _ (by_name : Text → Option ℕ) where
  collect-Distinct :
      (out : List ℕ) (names : List Text) → Distinct out → Distinct (collect_ids by_name out names)
  unfolding collect_ids
  collect-Distinct out [] d = d
  collect-Distinct out (n ∷ names) d = elim (Option-cases (chain_of by_name n)) [
    | inl e ↦ rw (e, collect_ids) (collect-Distinct out names d)
    | inr (id, e) ↦ elim (Bool-cases (mem id out)) [
      | inl m ↦ rw (e, m, collect_ids) (collect-Distinct out names d)
      | inr m ↦
          rw (e, m, collect_ids)
            (collect-Distinct (out ++ id ∷ []) names (Distinct-append out id d m))
    ]
  ]

  -- What is found stays found.
  collect_keeps :
      (out : List ℕ) (names : List Text) (id : ℕ)
      → mem id out ≡ true
      → mem id (collect_ids by_name out names) ≡ true
  unfolding collect_ids
  collect_keeps out [] id h = h
  collect_keeps out (n ∷ names) id h = elim (Option-cases (chain_of by_name n)) [
    | inl e ↦ rw (e, collect_ids) (collect_keeps out names id h)
    | inr (new, e) ↦ elim (Bool-cases (mem new out)) [
      | inl m ↦ rw (e, m, collect_ids) (collect_keeps out names id h)
      | inr m ↦
          rw (e, m, collect_ids)
            (collect_keeps (out ++ new ∷ []) names id
              (ground (arith, mem-append id out (new ∷ []), h)))
    ]
  ]

  mem-last : (out : List ℕ) (id : ℕ) → mem id (out ++ id ∷ []) ≡ true
  mem-last out id = ground (arith, mem-append id out (id ∷ []), ==_refl id)

  collect_all :
      (out : List ℕ) (names : List Text) (id : ℕ)
      → StandsFor (chain_of by_name) names id
      → mem id (collect_ids by_name out names) ≡ true
  unfolding collect_ids
  collect_all out [] id h = absurd h
  collect_all out (n ∷ names) id (inl e) = elim (Bool-cases (mem id out)) [
    | inl m ↦ rw (e, m, collect_ids) (collect_keeps out names id m)
    | inr m ↦ rw (e, m, collect_ids) (collect_keeps (out ++ id ∷ []) names id (mem-last out id))
  ]
  collect_all out (n ∷ names) id (inr h) = elim (Option-cases (chain_of by_name n)) [
    | inl e ↦ rw (e, collect_ids) (collect_all out names id h)
    | inr (new, e) ↦ elim (Bool-cases (mem new out)) [
      | inl m ↦ rw (e, m, collect_ids) (collect_all out names id h)
      | inr m ↦ rw (e, m, collect_ids) (collect_all (out ++ new ∷ []) names id h)
    ]
  ]

  collect_only :
      (out : List ℕ) (names : List Text) (id : ℕ)
      → mem id (collect_ids by_name out names) ≡ true
      → (mem id out ≡ true) ⊎ StandsFor (chain_of by_name) names id
  unfolding collect_ids
  collect_only out [] id h = inl h
  collect_only out (n ∷ names) id h = elim (Option-cases (chain_of by_name n)) [
    | inl e ↦ elim (collect_only out names id (rw (e, collect_ids) at h)) [
      | inl o ↦ inl o
      | inr s ↦ inr (inr s)
    ]
    | inr (new, e) ↦ elim (Bool-cases (mem new out)) [
      | inl m ↦ elim (collect_only out names id (rw (e, m, collect_ids) at h)) [
        | inl o ↦ inl o
        | inr s ↦ inr (inr s)
      ]
      | inr m ↦ elim (collect_only (out ++ new ∷ []) names id (rw (e, m, collect_ids) at h)) [
        | inr s ↦ inr (inr s)
        | inl o ↦ elim (Bool-cases (mem id out)) [
          | inl before ↦ inl before
          | inr fresh ↦
              let same : new ≡ id =
                (==_iff new id).0 (ground (arith, mem-append id out (new ∷ []), o, fresh)) in
              inr (inl (rw same at e))
        ]
      ]
    ]
  ]

absurd_false : {X : Type 0} → false ≡ true → X
absurd_false h = absurd (ground (arith, h))

-- With a configuration, the chain ids of a scan come each once, and they are exactly those for which
-- some network of the scan stands, by its number or by its configured name.
pub chain_ids-StandsFor :
    (unmarshal : Text → Option (List Text)) (chains : List Blockchain) (json : Text) (id : ℕ)
    → Distinct (chain_ids_for_networks unmarshal (some chains) json)
      × ((mem id (chain_ids_for_networks unmarshal (some chains) json) ≡ true)
          ↔ StandsFor (chain_of (chain_id_by_network chains)) (parse_networks unmarshal json) id)
unfolding chain_ids_for_networks
chain_ids-StandsFor unmarshal chains json id =
    let by_name = chain_id_by_network chains in
    let names = parse_networks unmarshal json in
    (
      collect-Distinct by_name [] names tt,
      (
        λ h. elim (collect_only by_name [] names id h) [ inl o ↦ absurd_false o | inr s ↦ s ],
        λ s. collect_all by_name [] names id s,
      ),
    )
