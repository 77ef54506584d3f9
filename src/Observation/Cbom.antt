-- ===== src/Observation/Cbom.antt =====
-- internal/cbom/wallet.go, the wallet's body of internal/handler/discovery_v1_scan_result.go, and
-- walletCBOMFromEntity of discovery_v1_cbom.go. The constant keys of the documents are left out.
use cafe_discovery.Base.{
  ℕ, Bool, true, false, not, ◌&&◌, Option, List, ◌==◌, if◌then◌else◌, is_nil, ℤ, leb_count,
  ltb_count, Text, ok, err,
}
use cafe_discovery.Address.{validate_and_normalize_address}
use cafe_discovery.Chains.{Blockchain, parse_networks, chain_ids_for_networks}
use cafe_discovery.Client.Wire.{WalletEntity}
use cafe_discovery.Observation.{
  WalletType, normalize_wallet_account_kind, ScanResult, to_scan_result,
}

-- The strings of current_pq_posture.
pub data ApiPosture : Type 0 where
  not_pq_ready api_hybrid pq_ready api_unknown : ApiPosture

-- nistLevelToPQPosture
unfoldable pub nist_level_to_pq_posture : ℤ → ApiPosture
nist_level_to_pq_posture l =
    if not (ltb_count l 4)
    then pq_ready
    else if not (ltb_count l 2)
    then api_hybrid
    else if not (ltb_count l 1)
    then not_pq_ready
    else api_unknown

-- quantumVulnerable
unfoldable pub quantum_vulnerable : Text → ℤ → Bool
quantum_vulnerable algorithm level = not (is_nil algorithm) && leb_count level 1

-- The component of a wallet's CBOM; custom_states says whether the state quantum-vulnerable is there.
pub record KeyComponent : Type 0 where
  pub name : Text
  pub nist_level : ℤ
  pub quantum_vulnerable : Bool
  pub key_exposed : Bool
  pub custom_states : Bool

module _ (Real Delegation : Type 0) where
  pub record WalletCbom : Type 0 where
    pub address : Text
    pub scan : ScanResult Real Delegation
    pub timestamp : ℕ
    pub component : KeyComponent

  -- Wallet, for a result that is not nil; the instant is time.Now's.
  unfoldable pub wallet_cbom : ℕ → ScanResult Real Delegation → Text → WalletCbom
  wallet_cbom now sr address =
      let vulnerable = quantum_vulnerable sr.algorithm sr.nist_level in
      record {
        address = if is_nil address then sr.address else address;
        scan = sr;
        timestamp = if sr.scanned_at == 0 then now else sr.scanned_at;
        component = record {
          name = sr.algorithm;
          nist_level = sr.nist_level;
          quantum_vulnerable = vulnerable;
          key_exposed = sr.key_exposed;
          custom_states = if vulnerable then true else false;
        };
      }

  -- walletCBOMFromEntity
  unfoldable pub wallet_cbom_from_entity :
      ℕ
      → (Text → Option (List Text))
      → (Text → Option (List Delegation))
      → WalletEntity Real
      → WalletCbom
  wallet_cbom_from_entity now unmarshal unmarshal_delegations e =
      let sr = to_scan_result Real Delegation unmarshal unmarshal_delegations e in
      wallet_cbom now sr (elim (validate_and_normalize_address sr.address) [
        | ok normalized ↦ normalized
        | err x ↦ sr.address
      ])

  pub record WalletBody : Type 0 where
    pub target_address : Text
    pub chain_ids : List ℕ
    pub wallet_type : WalletType
    pub current_pq_posture : ApiPosture
    pub algorithm : Text
    pub nist_level : ℤ
    pub risk_score : Real
    pub key_exposed : Bool
    pub type : Text
    pub networks : List Text
    pub delegations : List Delegation
    pub public_key : Text
    pub transaction_hash : Text
    pub exposed_network : Text
    pub public_key_recovery : Text
    pub scanned_at : ℕ

  -- walletScanResultV1
  unfoldable pub wallet_scan_result :
      (Text → Option (List Text))
      → (Text → Option (List Delegation))
      → Option (List Blockchain)
      → WalletEntity Real
      → WalletBody
  wallet_scan_result unmarshal unmarshal_delegations cfg e =
      let ((account_type, is_eoa, is_4337), wallet_type) =
        normalize_wallet_account_kind (e.type, e.is_eoa, e.is_erc4337) in
      let dto = to_scan_result Real Delegation unmarshal unmarshal_delegations e in
      record {
        target_address = e.address;
        chain_ids = chain_ids_for_networks unmarshal cfg e.networks;
        wallet_type = wallet_type;
        current_pq_posture = nist_level_to_pq_posture e.nist_level;
        algorithm = e.algorithm;
        nist_level = e.nist_level;
        risk_score = e.risk_score;
        key_exposed = e.key_exposed;
        type = account_type;
        networks = parse_networks unmarshal e.networks;
        delegations = dto.delegations;
        public_key = dto.public_key;
        transaction_hash = dto.transaction_hash;
        exposed_network = dto.exposed_network;
        public_key_recovery = dto.public_key_recovery;
        scanned_at = dto.scanned_at;
      }
