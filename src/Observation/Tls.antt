-- ===== src/Observation/Tls.antt =====
-- internal/domain/tls_scan_result.go, internal/cbom/tls.go and the TLS body of
-- internal/handler/discovery_v1_scan_result.go. The decoders of the JSON columns are parameters: what
-- json.Unmarshal leaves in the target for a text that is not empty, also after an error.
use cafe_discovery.Base.{
  ℕ, Bool, false, not, ◌||◌, Option, none, some, List, [], ◌∷◌, ◌++◌, map, ◌==◌, if◌then◌else◌,
  is_nil, ℤ, pos, leb_count, Text, codes,
}
use cafe_discovery.Client.Wire.{TlsEntity}
use cafe_discovery.Observation.Cbom.{ApiPosture, nist_level_to_pq_posture}

pub record CertificateInfo : Type 0 where
  pub subject : Text
  pub issuer : Text
  pub signature_algorithm : Text
  pub public_key_algorithm : Text
  pub key_size : ℤ
  pub not_before : ℕ
  pub not_after : ℕ
  pub serial_number : Text
  pub nist_level : ℤ
  pub is_pqc_ready : Bool

pub record CipherSuiteInfo : Type 0 where
  pub id : ℕ
  pub name : Text
  pub key_exchange : Text
  pub encryption : Text
  pub mac : Text
  pub nist_level : ℤ
  pub is_pqc_ready : Bool

-- The zero value.
abbrev pub no_certificate : CertificateInfo
no_certificate = record {
  subject = [];
  issuer = [];
  signature_algorithm = [];
  public_key_algorithm = [];
  key_size = pos 0;
  not_before = 0;
  not_after = 0;
  serial_number = [];
  nist_level = pos 0;
  is_pqc_ready = false;
}

-- What json.Unmarshal leaves in a zero target of each column's type. A map is a function into Option.
pub record Decoders : Type 0 where
  pub certificate : Text → CertificateInfo
  pub cipher_suites : Text → List CipherSuiteInfo
  pub strings : Text → List Text
  pub levels : Text → Text → Option ℤ

pub data ComponentKind : Type 0 where
  certificate_component key_exchange_component signature_component cipher_suite_component :
      ComponentKind

-- A component of the CBOM, with the keys that every kind has.
pub record Component : Type 0 where
  pub kind : ComponentKind
  pub name : Text
  pub nist_level : ℤ
  pub quantum_vulnerable : Bool

module _ (Real : Type 0) where
  pub record TlsScanResult : Type 0 where
    pub url : Text
    pub host : Text
    pub port : ℤ
    pub certificate : CertificateInfo
    pub cipher_suites : List CipherSuiteInfo
    pub protocol_version : Text
    pub nist_level : ℤ
    pub risk_score : Real
    pub pqc_risk : Text
    pub supported_pqcs : List Text
    pub recommendations : List Text
    pub scanned_at : ℕ
    pub kex_algorithm : Text
    pub kex_pqc_ready : Bool
    pub pqc_mode : Text
    pub pfs : Bool
    pub alpn : Text
    pub ocsp_stapled : Bool
    pub curve : Text
    pub nist_levels : Text → Option ℤ
    pub is_default : Bool

  abbrev decoded : {A : Type 0} → A → (Text → A) → Text → A
  decoded zero decode column = if is_nil column then zero else decode column

  -- ToTLSScanResult
  unfoldable pub to_tls_scan_result : Decoders → TlsEntity Real → TlsScanResult
  to_tls_scan_result d t = record {
    url = t.url;
    host = t.host;
    port = t.port;
    certificate = decoded no_certificate d.certificate t.certificate;
    cipher_suites = decoded [] d.cipher_suites t.cipher_suites;
    protocol_version = t.protocol_version;
    nist_level = t.nist_level;
    risk_score = t.risk_score;
    pqc_risk = t.pqc_risk;
    supported_pqcs = decoded [] d.strings t.supported_pqcs;
    recommendations = decoded [] d.strings t.recommendations;
    scanned_at = t.created_at;
    kex_algorithm = t.kex_algorithm;
    kex_pqc_ready = t.kex_pqc_ready;
    pqc_mode = t.pqc_mode;
    pfs = t.pfs;
    alpn = t.alpn;
    ocsp_stapled = t.ocsp_stapled;
    curve = t.curve;
    nist_levels = decoded (λ k. none) d.levels t.nist_levels;
    is_default = t.is_default;
  }

  abbrev component : ComponentKind → Text → ℤ → Component
  component kind name level = record {
    kind = kind;
    name = name;
    nist_level = level;
    quantum_vulnerable = leb_count level 1;
  }

  abbrev level_or : ℤ → Option ℤ → ℤ
  level_or default none = default
  level_or default (some level) = level

  abbrev when : Bool → Component → List Component
  when b c = if b then c ∷ [] else []

  -- The components that TLS appends, in order.
  unfoldable pub tls_components : TlsScanResult → List Component
  tls_components sr =
      when (not (is_nil sr.certificate.subject) || not (is_nil sr.certificate.issuer))
        (component certificate_component sr.certificate.subject sr.certificate.nist_level)
      ++ when (not (is_nil sr.kex_algorithm)) (
          component key_exchange_component sr.kex_algorithm
            (level_or (pos 1) (sr.nist_levels (codes "kex"))))
      ++ when (not (is_nil sr.certificate.signature_algorithm)) (
          component signature_component sr.certificate.signature_algorithm
            (level_or sr.certificate.nist_level (sr.nist_levels (codes "sig"))))
      ++ map (λ cs. component cipher_suite_component cs.name cs.nist_level) sr.cipher_suites

  pub record TlsCbom : Type 0 where
    pub scan : TlsScanResult
    pub timestamp : ℕ
    pub components : List Component

  -- TLS, for a result that is not nil.
  unfoldable pub tls_cbom : ℕ → TlsScanResult → TlsCbom
  tls_cbom now sr = record {
    scan = sr;
    timestamp = if sr.scanned_at == 0 then now else sr.scanned_at;
    components = tls_components sr;
  }

  -- The computed keys of tlsScanResultBodyV1, next to the result whose fields the others copy.
  pub record TlsBody : Type 0 where
    pub scan : TlsScanResult
    pub cipher_suite : Text
    pub key_exchange : Text
    pub current_pq_posture : ApiPosture

  abbrev first_suite : (CipherSuiteInfo → Text) → List CipherSuiteInfo → Text
  first_suite name_of [] = []
  first_suite name_of (cs ∷ suites) = name_of cs

  -- tlsScanResultBodyV1
  unfoldable pub tls_scan_result_body : Decoders → TlsEntity Real → TlsBody
  tls_scan_result_body d ent =
      let dto = to_tls_scan_result d ent in
      record {
        scan = dto;
        cipher_suite = first_suite (λ cs. cs.name) dto.cipher_suites;
        key_exchange = first_suite (λ cs. cs.key_exchange) dto.cipher_suites;
        current_pq_posture = nist_level_to_pq_posture dto.nist_level;
      }
