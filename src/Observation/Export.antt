-- ===== src/Observation/Export.antt =====
-- internal/walletobservation/export.go: a wallet scan as a cafe.discovery.wallet.observed event. What
-- cafe-contracts names (the event's type, version, producer and subject type, and the algorithm) is a
-- parameter. An empty map of chain ids is none, like a nil one.
use cafe_discovery.Base.{
  ℕ, Bool, true, not, ◌||◌, Option, none, some, List, [], ◌∷◌, ◌++◌, ltb, ◌==◌, if◌then◌else◌,
  is_nil, any_of, length, mem, order_by, ℤ, pos, negsuc, Text, codes, text_eq, trim, lower,
  has_prefix,
}
use cafe_discovery.Observation.{
  wallet_type_eoa, wallet_type_smart_account, wallet_type_contract, wallet_type_unknown,
  derive_wallet_type, ScanResult,
}

pub record ExportMeta : Type 0 where
  pub event_id : Text
  pub correlation_id : Text
  pub causation_id : Text
  pub occurred_at : ℕ

-- strings.ReplaceAll(s, "-", "")
abbrev pub without_dashes : Text → Text
without_dashes [] = []
without_dashes (c ∷ s) = if c == b'-' then without_dashes s else c ∷ without_dashes s

-- ExportMetaForScanJob, given uuid.String.
unfoldable pub export_meta_for_scan_job : (ℕ → Text) → ℕ → ExportMeta
export_meta_for_scan_job uuid_string scan = record {
  event_id = codes "evt_disc_" ++ without_dashes (uuid_string scan);
  correlation_id = uuid_string scan;
  causation_id = uuid_string scan;
  occurred_at = 0;
}

-- v01.CurrentPQPosture and v01.AccountKind
pub data PqPosture : Type 0 where
  classical_only hybrid full_pq unknown_posture : PqPosture

pub data ObservedKind : Type 0 where
  eoa_kind erc4337_smart_account_kind contract_account_kind unknown_kind : ObservedKind

-- deriveCurrentPQPosture
unfoldable pub derive_current_pq_posture : ℤ → PqPosture
derive_current_pq_posture (negsuc n) = unknown_posture
derive_current_pq_posture (pos n) =
    if n == 1
    then classical_only
    else if n == 2 || n == 3 || n == 4
    then hybrid
    else if n == 5
    then full_pq
    else unknown_posture

-- walletSubjectID
unfoldable pub wallet_subject_id : Text → Text
wallet_subject_id normalized =
    let a = trim (lower normalized) in
    codes "wallet:" ++ (if not (has_prefix (codes "0x") a) then codes "0x" ++ a else a)

-- mapAccountKind
unfoldable pub map_account_kind : Text → Bool → Bool → ObservedKind
map_account_kind t is_eoa is_4337 = elim (derive_wallet_type t is_eoa is_4337) [
  | wallet_type_eoa ↦ eoa_kind
  | wallet_type_smart_account ↦ erc4337_smart_account_kind
  | wallet_type_contract ↦ contract_account_kind
  | wallet_type_unknown ↦ unknown_kind
]

-- The set of chain ids that resolveChainIDs fills, before it is sorted.
unfoldable pub seen_ids : (Text → Option ℕ) → List Text → List ℕ
seen_ids by_name [] = []
seen_ids by_name (n ∷ names) =
    let seen = seen_ids by_name names in
    elim (by_name n) [ none ↦ seen | some id ↦ if id == 0 || mem id seen then seen else id ∷ seen ]

-- resolveChainIDs
unfoldable pub resolve_chain_ids : List Text → Option (Text → Option ℕ) → List ℕ
resolve_chain_ids networks none = []
resolve_chain_ids networks (some by_name) = order_by ltb (seen_ids by_name networks)

-- The set of names that isMultichain fills.
unfoldable pub distinct_names : List Text → List Text
distinct_names [] = []
distinct_names (n ∷ names) =
    let rest = distinct_names names in
    if is_nil (trim n) || any_of (text_eq (trim n)) rest then rest else trim n ∷ rest

-- isMultichain
unfoldable pub is_multichain : List ℕ → List Text → Bool
is_multichain ids names = if ltb 1 (length ids) then true else ltb 1 (length (distinct_names names))

-- The constants of cafe-contracts that the event carries.
pub record EventNames : Type 0 where
  pub event_type : Text
  pub event_version : Text
  pub producer : Text
  pub subject_type : Text
  pub algorithm : Text

pub record Event : Type 0 where
  pub event_id : Text
  pub event_type : Text
  pub event_version : Text
  pub occurred_at : ℕ
  pub correlation_id : Text
  pub causation_id : Text
  pub producer : Text
  pub subject_type : Text
  pub subject_id : Text
  pub chain_ids : List ℕ
  pub account_kind : ObservedKind
  pub current_algorithm : Text
  pub public_key_exposed : Bool
  pub is_multichain : Bool
  pub observed_at : ℕ
  pub current_pq_posture : PqPosture

module _ (Real Delegation : Type 0) (names : EventNames) where
  -- mapAlgorithm: both branches answer the same.
  abbrev pub map_algorithm : ScanResult Real Delegation → Text
  map_algorithm scan = names.algorithm

  -- ToWalletObservedEvent, for a scan that is not nil.
  unfoldable pub to_wallet_observed_event :
      ExportMeta → ScanResult Real Delegation → Option (Text → Option ℕ) → Event
  to_wallet_observed_event meta scan by_name =
      let ids = resolve_chain_ids scan.networks by_name in
      record {
        event_id = meta.event_id;
        event_type = names.event_type;
        event_version = names.event_version;
        occurred_at = if meta.occurred_at == 0 then scan.scanned_at else meta.occurred_at;
        correlation_id = meta.correlation_id;
        causation_id = meta.causation_id;
        producer = names.producer;
        subject_type = names.subject_type;
        subject_id = wallet_subject_id scan.address;
        chain_ids = ids;
        account_kind = map_account_kind scan.type scan.is_eoa scan.is_erc4337;
        current_algorithm = map_algorithm scan;
        public_key_exposed = scan.key_exposed;
        is_multichain = is_multichain ids scan.networks;
        observed_at = scan.scanned_at;
        current_pq_posture = derive_current_pq_posture scan.nist_level;
      }
