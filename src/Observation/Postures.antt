-- ===== src/Observation/Postures.antt =====
-- The three readings of a wallet's cryptography (the observed event, the v1 result and the CBOM), side by
-- side.
use cafe_discovery.Base.{
  ℕ, Bool, true, false, not, ◌&&◌, ◌≡◌, refl, sym, ap, ◌∙◌, ◌↔◌, ◌⊎◌, Option, List, [], ◌∷◌, ◌++◌,
  arith, is_nil, ℤ, pos, negsuc, leb_count, Text, codes, trim, lower, trim-no_space, is_space,
  to_lower, has_prefix, ok, all_of,
}
use mathlib.Core.List.{append_cancel_left}
use cafe_discovery.Address.{validate_and_normalize_address}
use cafe_discovery.Address.Canonical.{
  is_canonical, is_lower_hex, accepted_canonical, lower-lower_hex, prefixed-no_space, hex_of_lower,
}
use cafe_discovery.Chains.{Blockchain}
use cafe_discovery.Client.Wire.{WalletEntity}
use cafe_discovery.Observation.{
  ScanResult, normalize_scan_result_wallet_kind, normalize_wallet_account_kind, derive_wallet_type,
  to_scan_result,
}
use cafe_discovery.Observation.Kinds.{kind_of-derive}
use cafe_discovery.Observation.Export.{
  ExportMeta, EventNames, PqPosture, classical_only, hybrid, full_pq, unknown_posture,
  derive_current_pq_posture, wallet_subject_id, map_account_kind, to_wallet_observed_event,
}
use cafe_discovery.Observation.Cbom.{
  ApiPosture, not_pq_ready, api_hybrid, pq_ready, api_unknown, nist_level_to_pq_posture,
  quantum_vulnerable, wallet_cbom, wallet_cbom_from_entity, wallet_scan_result,
}

-- The posture of the event and that of the v1 result say the same.
abbrev pub says_same : PqPosture → ApiPosture → Bool
says_same classical_only p = elim p [ not_pq_ready ↦ true | _ ↦ false ]
says_same hybrid p = elim p [ api_hybrid ↦ true | _ ↦ false ]
says_same full_pq p = elim p [ pq_ready ↦ true | _ ↦ false ]
says_same unknown_posture p = elim p [ api_unknown ↦ true | _ ↦ false ]

-- The event and the v1 result give a NIST level the same posture exactly if it is at most 3 or is
-- 5. Level 4 is hybrid in the event and ready in the result, and so no level above 5 agrees.
pub postures_agree :
    (level : ℤ)
    → (says_same (derive_current_pq_posture level) (nist_level_to_pq_posture level) ≡ true)
      ↔ ((leb_count level 3 ≡ true) ⊎ (level ≡ pos 5))
unfolding derive_current_pq_posture nist_level_to_pq_posture
postures_agree (pos n) = ground arith
postures_agree (negsuc n) = ground arith

-- The postures of a key that stands against a quantum computer, at least in part.
abbrev pub is_strengthened : ApiPosture → Bool
is_strengthened api_hybrid = true
is_strengthened pq_ready = true
is_strengthened not_pq_ready = false
is_strengthened api_unknown = false

vulnerable-posture :
    (algorithm : Text) (level : ℤ)
    → quantum_vulnerable algorithm level
      ≡ (not (is_nil algorithm) && not (is_strengthened (nist_level_to_pq_posture level)))
unfolding quantum_vulnerable nist_level_to_pq_posture
vulnerable-posture algorithm (pos n) = ground arith
vulnerable-posture algorithm (negsuc n) = ground arith

observed-kind_of :
    (t : Text) (is_eoa is_4337 : Bool)
    → map_account_kind
        (normalize_wallet_account_kind (t, is_eoa, is_4337)).0.0
        (normalize_wallet_account_kind (t, is_eoa, is_4337)).0.1
        (normalize_wallet_account_kind (t, is_eoa, is_4337)).0.2
      ≡ map_account_kind t is_eoa is_4337
unfolding normalize_wallet_account_kind map_account_kind
observed-kind_of t is_eoa is_4337 =
    rw (kind_of-derive (derive_wallet_type t is_eoa is_4337), map_account_kind) refl

module _ (Real Delegation : Type 0) where
  -- The CBOM of a wallet scan marks the key as quantum-vulnerable, in the field and in the custom
  -- states alike, exactly if the scan has an algorithm and the posture in the v1 result of the
  -- same scan is neither hybrid nor ready.
  pub cbom-posture :
      (now : ℕ) (unmarshal : Text → Option (List Text))
      (unmarshal_delegations : Text → Option (List Delegation)) (cfg : Option (List Blockchain))
      (e : WalletEntity Real)
      → ((wallet_cbom_from_entity Real Delegation now unmarshal unmarshal_delegations
            e).component.quantum_vulnerable
          ≡ (not (is_nil e.algorithm)
              && not (
                  is_strengthened
                    (wallet_scan_result Real Delegation unmarshal unmarshal_delegations cfg
                      e).current_pq_posture)))
        × ((wallet_cbom_from_entity Real Delegation now unmarshal unmarshal_delegations
              e).component.custom_states
            ≡ (wallet_cbom_from_entity Real Delegation now unmarshal unmarshal_delegations
                e).component.quantum_vulnerable)
  unfolding wallet_cbom_from_entity wallet_cbom wallet_scan_result to_scan_result
  cbom-posture now unmarshal unmarshal_delegations cfg e =
      (vulnerable-posture e.algorithm e.nist_level, ground arith)

  -- Normalising the account kind of a scan does not change the event that is made of it.
  pub event-normalize :
      (names : EventNames) (meta : ExportMeta) (scan : ScanResult Real Delegation)
      (by_name : Option (Text → Option ℕ))
      → to_wallet_observed_event Real Delegation names meta
          (normalize_scan_result_wallet_kind Real Delegation scan)
          by_name
        ≡ to_wallet_observed_event Real Delegation names meta scan by_name
  unfolding to_wallet_observed_event normalize_scan_result_wallet_kind
  event-normalize names meta scan by_name =
      let same = observed-kind_of scan.type scan.is_eoa scan.is_erc4337 in
      ap
        (λ k. record (to_wallet_observed_event Real Delegation names meta scan by_name) {
          account_kind = k;
        })
        same

prefixed_subject :
    (a : Text)
    → lower a ≡ a
    → trim a ≡ a
    → has_prefix (codes "0x") a ≡ true
    → wallet_subject_id a ≡ codes "wallet:" ++ a
unfolding wallet_subject_id
prefixed_subject a small plain h = rw (small, plain, h) refl

canonical-subject : (n : Text) → is_canonical n ≡ true → wallet_subject_id n ≡ codes "wallet:" ++ n
unfolding wallet_subject_id has_prefix
canonical-subject [] h = absurd (ground (arith, h))
canonical-subject (c ∷ []) h = absurd (ground (arith, h))
canonical-subject (c ∷ d ∷ s) h =
    let digits : all_of is_lower_hex s ≡ true = ground arith in
    let zero_x : c ∷ d ∷ s ≡ codes "0x" ++ s = ground arith in
    let plain =
      trim-no_space (codes "0x" ++ s)
        (prefixed-no_space b'x' s (unfold is_space in refl) (hex_of_lower s digits)) in
    let small : lower (codes "0x" ++ s) ≡ codes "0x" ++ s =
      unfold to_lower in ap (λ r. codes "0x" ++ r) (lower-lower_hex s digits) in
    ap wallet_subject_id zero_x
    ∙ (prefixed_subject (codes "0x" ++ s) small plain refl
        ∙ ap (λ a. codes "wallet:" ++ a) (sym zero_x))

-- Of two accepted addresses the events have the same subject only if the accepted forms are the
-- same; each subject is the word wallet, a colon and the accepted form.
pub subject-injective :
    (a b m n : Text)
    → validate_and_normalize_address a ≡ ok m
    → validate_and_normalize_address b ≡ ok n
    → (wallet_subject_id m ≡ codes "wallet:" ++ m)
      × ((wallet_subject_id m ≡ wallet_subject_id n) ↔ (m ≡ n))
subject-injective a b m n f g =
    let first = canonical-subject m (accepted_canonical a m f).0 in
    let second = canonical-subject n (accepted_canonical b n g).0 in
    (
      first,
      (
        (λ e. append_cancel_left (codes "wallet:") m n (sym first ∙ (e ∙ second))),
        (λ e. ap wallet_subject_id e),
      ),
    )
