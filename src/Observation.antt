-- ===== src/Observation.antt =====
-- internal/domain/wallet_kind.go and the observation DTO of internal/domain (models.go, scan_result.go).
-- json.Unmarshal is a parameter where a column is decoded, with none for its error; a nil slice is the
-- empty one, and the zero time is 0.
pub mod Export
pub mod Kinds
pub mod Networks
pub mod Postures
pub mod Cbom
pub mod Tls
mod Tests
use cafe_discovery.Base.{
  ℕ, Bool, true, false, ◌||◌, Option, none, some, List, [], ◌==◌, if◌then◌else◌, is_nil, ℤ, Text,
  codes, text_eq, trim,
}
use cafe_discovery.Client.Wire.{WalletEntity}

abbrev pub account_type_eoa : Text
account_type_eoa = codes "EOA"

abbrev pub account_type_aa : Text
account_type_aa = codes "AA"

abbrev pub account_type_contract : Text
account_type_contract = codes "Contract"

abbrev pub account_type_unknown : Text
account_type_unknown = codes "unknown"

-- The strings of the OpenAPI enum wallet_type.
pub data WalletType : Type 0 where
  wallet_type_eoa wallet_type_smart_account wallet_type_contract wallet_type_unknown : WalletType

-- DeriveWalletTypeV1
unfoldable pub derive_wallet_type : Text → Bool → Bool → WalletType
derive_wallet_type t is_eoa is_4337 =
    if is_4337 || text_eq t account_type_aa
    then wallet_type_smart_account
    else if text_eq t account_type_contract
    then wallet_type_contract
    else if is_eoa || text_eq t account_type_eoa
    then wallet_type_eoa
    else wallet_type_unknown

-- NormalizeWalletAccountKind, with the type, is_eoa and is_erc4337 as one value.
abbrev pub AccountKind : Type 0
AccountKind = Text × Bool × Bool

abbrev pub kind_of : WalletType → AccountKind
kind_of wallet_type_smart_account = (account_type_aa, false, true)
kind_of wallet_type_contract = (account_type_contract, false, false)
kind_of wallet_type_eoa = (account_type_eoa, true, false)
kind_of wallet_type_unknown = (account_type_unknown, false, false)

unfoldable pub normalize_wallet_account_kind : AccountKind → AccountKind × WalletType
normalize_wallet_account_kind (t, is_eoa, is_4337) =
    (kind_of (derive_wallet_type t is_eoa is_4337), derive_wallet_type t is_eoa is_4337)

module _ (Real Delegation : Type 0) where
  -- domain.ScanResult
  pub record ScanResult : Type 0 where
    pub address : Text
    pub type : Text
    pub algorithm : Text
    pub nist_level : ℤ
    pub key_exposed : Bool
    pub public_key : Text
    pub transaction_hash : Text
    pub exposed_network : Text
    pub public_key_recovery : Text
    pub is_eoa : Bool
    pub is_erc4337 : Bool
    pub risk_score : Real
    pub scanned_at : ℕ
    pub networks : List Text
    pub delegations : List Delegation
    pub connections : List Text

  -- NormalizeScanResultWalletKind, on a result that is not nil.
  unfoldable pub normalize_scan_result_wallet_kind : ScanResult → ScanResult
  normalize_scan_result_wallet_kind r =
      let ((t, is_eoa, is_4337), kind) =
        normalize_wallet_account_kind (r.type, r.is_eoa, r.is_erc4337) in
      record r { type = t; is_eoa = is_eoa; is_erc4337 = is_4337 }

  -- scannedAtOr
  unfoldable pub scanned_at_or : Option ℕ → ℕ → ℕ
  scanned_at_or none fallback = fallback
  scanned_at_or (some scanned) fallback = if scanned == 0 then fallback else scanned

  -- parseStringArray
  unfoldable pub parse_string_array : (Text → Option (List Text)) → Text → List Text
  parse_string_array unmarshal s =
      if is_nil s || text_eq s (codes "[]")
      then []
      else elim (unmarshal s) [ none ↦ [] | some names ↦ names ]

  -- parseDelegations
  unfoldable pub parse_delegations : (Text → Option (List Delegation)) → Text → List Delegation
  parse_delegations unmarshal s =
      if is_nil (trim s) || text_eq (trim s) (codes "[]") || text_eq (trim s) (codes "null")
      then []
      else elim (unmarshal (trim s)) [ none ↦ [] | some ds ↦ ds ]

  -- ToScanResult
  unfoldable pub to_scan_result :
      (Text → Option (List Text))
      → (Text → Option (List Delegation))
      → WalletEntity Real
      → ScanResult
  to_scan_result unmarshal unmarshal_delegations s = record {
    address = s.address;
    type = s.type;
    algorithm = s.algorithm;
    nist_level = s.nist_level;
    key_exposed = s.key_exposed;
    public_key = s.public_key;
    transaction_hash = s.transaction_hash;
    exposed_network = s.exposed_network;
    public_key_recovery = s.public_key_recovery;
    is_eoa = s.is_eoa;
    is_erc4337 = s.is_erc4337;
    risk_score = s.risk_score;
    scanned_at = scanned_at_or s.scanned_at s.updated_at;
    networks = parse_string_array unmarshal s.networks;
    delegations = parse_delegations unmarshal_delegations s.delegations;
    connections = parse_string_array unmarshal s.connections;
  }
