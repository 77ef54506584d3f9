-- ===== src/Observation/Tests.antt =====
-- Runs of the observation and CBOM mappings on one wallet of two configured networks.
use cafe_discovery.Base.{
  ℕ, true, false, ◌≡◌, refl, ◌↔◌, ◌⊎◌, Option, none, some, List, [], ◌∷◌, order_by, place, pos,
  leb_count, Text, codes, text_eq, if◌then◌else◌,
}
use cafe_discovery.Client.Wire.{WalletEntity}
use cafe_discovery.Observation.{
  wallet_type_smart_account, derive_wallet_type, AccountKind, normalize_wallet_account_kind,
  account_type_aa,
}
use cafe_discovery.Observation.Kinds.{IsAligned, normalize-IsAligned}
use cafe_discovery.Observation.Export.{derive_current_pq_posture, resolve_chain_ids, seen_ids}
use cafe_discovery.Observation.Cbom.{nist_level_to_pq_posture}
use cafe_discovery.Observation.Postures.{says_same, postures_agree}

abbrev smart : AccountKind
smart = (account_type_aa, false, true)

normalize-IsAligned_example :
    IsAligned (normalize_wallet_account_kind smart).0 (normalize_wallet_account_kind smart).1
    × ((normalize_wallet_account_kind smart).1 ≡ derive_wallet_type account_type_aa false true)
    × (normalize_wallet_account_kind (normalize_wallet_account_kind smart).0
        ≡ normalize_wallet_account_kind smart)
normalize-IsAligned_example = normalize-IsAligned smart

-- The flag is_erc4337 makes a smart account of any type.
flag_wins : derive_wallet_type (codes "EOA") true true ≡ wallet_type_smart_account
unfolding derive_wallet_type
flag_wins = refl

abbrev by_name : Text → Option ℕ
by_name n =
    if text_eq n (codes "polygon")
    then some 137
    else if text_eq n (codes "mainnet")
    then some 1
    else none

abbrev networks : List Text
networks = codes "polygon" ∷ codes "mainnet" ∷ codes "devnet" ∷ codes "polygon" ∷ []

two_chains : resolve_chain_ids networks (some by_name) ≡ 1 ∷ 137 ∷ []
unfolding resolve_chain_ids seen_ids order_by place text_eq
two_chains = refl

postures_agree_example :
    (says_same (derive_current_pq_posture (pos 4)) (nist_level_to_pq_posture (pos 4)) ≡ true)
    ↔ ((leb_count (pos 4) 3 ≡ true) ⊎ (pos 4 ≡ pos 5))
postures_agree_example = postures_agree (pos 4)

-- Level 4 is hybrid in the event and ready in the result.
level_four :
    says_same (derive_current_pq_posture (pos 4)) (nist_level_to_pq_posture (pos 4)) ≡ false
unfolding derive_current_pq_posture nist_level_to_pq_posture
level_four = refl

abbrev entity : WalletEntity ℕ
entity = record {
  id = 9;
  user_id = 7;
  address = codes "0xa";
  type = codes "EOA";
  algorithm = codes "ECDSA-secp256k1";
  nist_level = pos 1;
  key_exposed = true;
  public_key = [];
  transaction_hash = [];
  exposed_network = [];
  public_key_recovery = codes "unresolved";
  is_eoa = true;
  is_erc4337 = false;
  risk_score = 1;
  networks = [];
  delegations = [];
  connections = [];
  status = codes "SUCCESS";
  error = [];
  scanned_at = none;
  created_at = 3;
  updated_at = 4;
}

abbrev no_names : Text → Option (List Text)
no_names json = none
