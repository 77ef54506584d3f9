-- ===== src/Client/Wire.antt =====
-- internal/persistence/scanread/wire.go and scanpending/wire.go: the rows that cafe-persistence sends,
-- and their conversion. uuid.Parse and time.Parse are parameters (`Parsers`), instants are natural
-- numbers with 0 for the zero time, and float64 is an abstract type.
use cafe_discovery.Base.{
  ℕ, Bool, Option, none, some, is_nil, trim, ◌==◌, ℤ, Text, if◌then◌else◌, Result, ok, err, ◌>>=◌,
}

pub record Parsers : Type 0 where
  pub parse_uuid : Text → Option ℕ
  pub parse_rfc3339_nano : Text → Option ℕ
  pub parse_rfc3339 : Text → Option ℕ

pub data RowError : Type 0 where
  bad_id bad_user_id bad_created_at bad_updated_at : RowError

abbrev or_row_error : {A : Type 0} → Option A → RowError → Result RowError A
or_row_error none e = err e
or_row_error (some a) e = ok a

module _ (Real : Type 0) where
  -- WalletScanRowWire
  pub record WalletRowWire : Type 0 where
    pub id : Text
    pub user_id : Text
    pub address : Text
    pub type : Text
    pub algorithm : Text
    pub nist_level : ℤ
    pub key_exposed : Bool
    pub public_key : Text
    pub transaction_hash : Text
    pub exposed_network : Text
    pub public_key_recovery : Text
    pub is_eoa : Bool
    pub is_erc4337 : Bool
    pub risk_score : Real
    pub networks : Text
    pub delegations : Text
    pub connections : Text
    pub status : Text
    pub error : Text
    pub scanned_at : Text
    pub created_at : Text
    pub updated_at : Text

  -- ScanResultEntity
  pub record WalletEntity : Type 0 where
    pub id : ℕ
    pub user_id : ℕ
    pub address : Text
    pub type : Text
    pub algorithm : Text
    pub nist_level : ℤ
    pub key_exposed : Bool
    pub public_key : Text
    pub transaction_hash : Text
    pub exposed_network : Text
    pub public_key_recovery : Text
    pub is_eoa : Bool
    pub is_erc4337 : Bool
    pub risk_score : Real
    pub networks : Text
    pub delegations : Text
    pub connections : Text
    pub status : Text
    pub error : Text
    pub scanned_at : Option ℕ
    pub created_at : ℕ
    pub updated_at : ℕ

  -- TLSScanRowWire
  pub record TlsRowWire : Type 0 where
    pub id : Text
    pub user_id : Text
    pub url : Text
    pub host : Text
    pub port : ℤ
    pub protocol_version : Text
    pub nist_level : ℤ
    pub risk_score : Real
    pub pqc_risk : Text
    pub kex_algorithm : Text
    pub kex_pqc_ready : Bool
    pub pqc_mode : Text
    pub pfs : Bool
    pub alpn : Text
    pub ocsp_stapled : Bool
    pub curve : Text
    pub certificate : Text
    pub cipher_suites : Text
    pub supported_pqcs : Text
    pub recommendations : Text
    pub nist_levels : Text
    pub is_default : Bool
    pub status : Text
    pub error : Text
    pub created_at : Text
    pub updated_at : Text

  -- TLSScanResultEntity
  pub record TlsEntity : Type 0 where
    pub id : ℕ
    pub user_id : Option ℕ
    pub url : Text
    pub host : Text
    pub port : ℤ
    pub protocol_version : Text
    pub nist_level : ℤ
    pub risk_score : Real
    pub pqc_risk : Text
    pub kex_algorithm : Text
    pub kex_pqc_ready : Bool
    pub pqc_mode : Text
    pub pfs : Bool
    pub alpn : Text
    pub ocsp_stapled : Bool
    pub curve : Text
    pub certificate : Text
    pub cipher_suites : Text
    pub supported_pqcs : Text
    pub recommendations : Text
    pub nist_levels : Text
    pub is_default : Bool
    pub status : Text
    pub error : Text
    pub created_at : ℕ
    pub updated_at : ℕ

-- PendingScanRecordWire and scanpending.Record
pub record PendingWire : Type 0 where
  pub scan_id : Text
  pub user_id : Text
  pub family : Text
  pub address : Text
  pub endpoint : Text
  pub created_at : Text

pub record Record : Type 0 where
  pub scan_id : ℕ
  pub user_id : ℕ
  pub family : Text
  pub address : Text
  pub endpoint : Text
  pub created_at : ℕ

module _ (parsers : Parsers) where
  open parsers use {parse_uuid, parse_rfc3339_nano, parse_rfc3339}

  -- parseTime of both packages.
  unfoldable pub parse_time : Text → Option ℕ
  parse_time value =
      if is_nil (trim value) then some 0 else elim (parse_rfc3339_nano (trim value)) [
        | some t ↦ some t
        | none ↦ parse_rfc3339 (trim value)
      ]

  -- optionalTime
  unfoldable pub optional_time : Text → Option ℕ
  optional_time value = elim (parse_time value) [
    | none ↦ none
    | some t ↦ if t == 0 then none else some t
  ]

  -- WalletRowToEntity
  unfoldable pub wallet_row_to_entity :
      (Real : Type 0) → WalletRowWire Real → Result RowError (WalletEntity Real)
  wallet_row_to_entity Real w = do
    id ← or_row_error (parse_uuid (trim w.id)) bad_id
    user ← or_row_error (parse_uuid (trim w.user_id)) bad_user_id
    created ← or_row_error (parse_time w.created_at) bad_created_at
    updated ← or_row_error (parse_time w.updated_at) bad_updated_at
    ok (record {
      id = id;
      user_id = user;
      address = w.address;
      type = w.type;
      algorithm = w.algorithm;
      nist_level = w.nist_level;
      key_exposed = w.key_exposed;
      public_key = w.public_key;
      transaction_hash = w.transaction_hash;
      exposed_network = w.exposed_network;
      public_key_recovery = w.public_key_recovery;
      is_eoa = w.is_eoa;
      is_erc4337 = w.is_erc4337;
      risk_score = w.risk_score;
      networks = w.networks;
      delegations = w.delegations;
      connections = w.connections;
      status = w.status;
      error = w.error;
      scanned_at = optional_time w.scanned_at;
      created_at = created;
      updated_at = updated;
    })

  -- The owner of a TLS row, which a default endpoint has not.
  abbrev tls_owner : Text → Result RowError (Option ℕ)
  tls_owner user =
      if is_nil (trim user)
      then ok none
      else elim (parse_uuid (trim user)) [ none ↦ err bad_user_id | some id ↦ ok (some id) ]

  -- TLSRowToEntity
  unfoldable pub tls_row_to_entity :
      (Real : Type 0) → TlsRowWire Real → Result RowError (TlsEntity Real)
  tls_row_to_entity Real w = do
    id ← or_row_error (parse_uuid (trim w.id)) bad_id
    created ← or_row_error (parse_time w.created_at) bad_created_at
    updated ← or_row_error (parse_time w.updated_at) bad_updated_at
    owner ← tls_owner w.user_id
    ok (record {
      id = id;
      user_id = owner;
      url = w.url;
      host = w.host;
      port = w.port;
      protocol_version = w.protocol_version;
      nist_level = w.nist_level;
      risk_score = w.risk_score;
      pqc_risk = w.pqc_risk;
      kex_algorithm = w.kex_algorithm;
      kex_pqc_ready = w.kex_pqc_ready;
      pqc_mode = w.pqc_mode;
      pfs = w.pfs;
      alpn = w.alpn;
      ocsp_stapled = w.ocsp_stapled;
      curve = w.curve;
      certificate = w.certificate;
      cipher_suites = w.cipher_suites;
      supported_pqcs = w.supported_pqcs;
      recommendations = w.recommendations;
      nist_levels = w.nist_levels;
      is_default = w.is_default;
      status = w.status;
      error = w.error;
      created_at = created;
      updated_at = updated;
    })

  -- RecordFromWire
  unfoldable pub record_from_wire : PendingWire → Result RowError Record
  record_from_wire w = do
    scan ← or_row_error (parse_uuid (trim w.scan_id)) bad_id
    user ← or_row_error (parse_uuid (trim w.user_id)) bad_user_id
    created ← or_row_error (parse_time w.created_at) bad_created_at
    ok (record {
      scan_id = scan;
      user_id = user;
      family = w.family;
      address = w.address;
      endpoint = w.endpoint;
      created_at = created;
    })
