-- ===== src/Auth.antt =====
-- internal/service/auth.go: sessions as hybrid tokens with two signatures. Here are the tokens; the
-- accounts are in Auth/Accounts and the middleware in Auth/Gate. Base64, JSON, the two signature
-- schemes and the rounding of jwt.NewNumericDate are parameters (`Codec`, `Keys`); a decoder returns
-- none for its error, and instants are natural numbers.
pub mod Accounts
pub mod Gate
pub mod Hybrid
pub mod Sessions
mod Tests
use cafe_discovery.Base.{
  ℕ, ◌+◌, Bool, true, false, not, ◌&&◌, ◌||◌, String, Option, none, some, List, [], ◌∷◌, ◌++◌, leb,
  ltb, length, is_nil, Text, codes, text_eq, if◌then◌else◌, Result, ok, err, guard, ◌>>=◌, ◌>>◌,
}

-- JWTClaims
pub record Claims : Type 0 where
  pub user_id : ℕ
  pub email : Text
  pub expires_at : Option ℕ
  pub issued_at : Option ℕ
  pub not_before : Option ℕ

-- jwsHeader, jwsSignature and jwsJSON
pub record JwsHeader : Type 0 where
  pub alg : Text
  pub typ : Text
  pub kid : Text
  pub crit : List Text

pub record JwsSignature : Type 0 where
  pub protected : Text
  pub signature : Text

pub record JwsJson : Type 0 where
  pub payload : Text
  pub signatures : List JwsSignature

abbrev pub mldsa_alg : Text
mldsa_alg = codes "ML-DSA-65"

abbrev pub eddsa_alg : Text
eddsa_alg = codes "EdDSA"

-- base64.RawURLEncoding and encoding/json on the three types.
pub record Codec : Type 0 where
  pub b64u_encode : Text → Text
  pub b64u_decode : Text → Option Text
  pub marshal_claims : Claims → Text
  pub unmarshal_claims : Text → Option Claims
  pub marshal_header : JwsHeader → Text
  pub unmarshal_header : Text → Option JwsHeader
  pub marshal_jws : JwsJson → Text
  pub unmarshal_jws : Text → Option JwsJson
  pub numeric_date : ℕ → ℕ

-- serverKeys: the operations of crypto/ed25519 and pkg/pqc with the server's keys.
pub record Keys : Type 0 where
  pub ed_sign : Text → Text
  pub ed_verify : Text → Text → Bool
  pub pqc_sign : Text → Option Text
  pub pqc_verify : Text → Text → Option Bool

pub data TokenError : Type 0 where
  keys_missing signing_failed token_decode token_json parts_missing payload_decode claims_json
        token_expired protected_decode header_parse sig_decode pqc_failed signature_invalid :
      TokenError

abbrev or_fail : {A : Type 0} → Option A → TokenError → Result TokenError A
or_fail none e = err e
or_fail (some a) e = ok a

-- signingInput
unfoldable pub signing_input : Text → Text → Text
signing_input protected_b64 payload_b64 = protected_b64 ++ (codes "." ++ payload_b64)

abbrev pub ed_header : JwsHeader
ed_header = record { alg = eddsa_alg; typ = codes "JWT"; kid = codes "ed25519-cafe-1"; crit = [] }

abbrev pub pqc_header : JwsHeader
pqc_header = record {
  alg = mldsa_alg;
  typ = codes "JWT";
  kid = codes "mldsa65-cafe-1";
  crit = codes "alg" ∷ [];
}

module _ (codec : Codec) where
  open codec use {
    b64u_encode, b64u_decode, marshal_claims, unmarshal_claims, marshal_header, unmarshal_header,
    marshal_jws, unmarshal_jws, numeric_date,
  }

  abbrev pub protect : JwsHeader → Text
  protect h = b64u_encode (marshal_header h)

  -- The JWS that mintHybridJWT builds from the payload and the ML-DSA signature.
  unfoldable pub hybrid_jws : Keys → Text → Text → JwsJson
  hybrid_jws keys payload pqc_sig = record {
    payload = payload;
    signatures =
        (record {
          protected = protect ed_header;
          signature = b64u_encode (keys.ed_sign (signing_input (protect ed_header) payload));
        })
        ∷ (record { protected = protect pqc_header; signature = b64u_encode pqc_sig })
        ∷ [];
  }

  -- mintHybridJWT
  unfoldable pub mint_hybrid_jwt : Option Keys → Claims → Result TokenError Text
  mint_hybrid_jwt none claims = err keys_missing
  mint_hybrid_jwt (some keys) claims =
      let payload = b64u_encode (marshal_claims claims) in
      elim (keys.pqc_sign (signing_input (protect pqc_header) payload)) [
        | none ↦ err signing_failed
        | some sig ↦ ok (b64u_encode (marshal_jws (hybrid_jws keys payload sig)))
      ]

  -- The claims of generateToken.
  unfoldable pub session_claims : ℕ → ℕ → ℕ → Text → Claims
  session_claims expiry now user email = record {
    user_id = user;
    email = email;
    expires_at = some (numeric_date (now + expiry));
    issued_at = some (numeric_date now);
    not_before = some (numeric_date now);
  }

  -- generateToken
  unfoldable pub generate_token : Option Keys → ℕ → ℕ → ℕ → Text → Result TokenError Text
  generate_token keys expiry now user email =
      mint_hybrid_jwt keys (session_claims expiry now user email)

  -- parseHybridJWS
  unfoldable pub parse_hybrid_jws : Text → Result TokenError JwsJson
  parse_hybrid_jws token = do
    raw ← or_fail (b64u_decode token) token_decode
    obj ← or_fail (unmarshal_jws raw) token_json
    guard (not (is_nil obj.payload || ltb (length obj.signatures) 2)) parts_missing
    ok obj

  -- `c.ExpiresAt != nil && time.Now().After(c.ExpiresAt.Time)`
  abbrev pub expired : ℕ → Claims → Bool
  expired now c = elim c.expires_at [ none ↦ false | some t ↦ ltb t now ]

  -- parseAndValidateClaims
  unfoldable pub parse_and_validate_claims : ℕ → Text → Result TokenError Claims
  parse_and_validate_claims now payload_b64 = do
    payload ← or_fail (b64u_decode payload_b64) payload_decode
    c ← or_fail (unmarshal_claims payload) claims_json
    guard (not (expired now c)) token_expired
    ok c

  -- The switch of verifySignature on the algorithm.
  unfoldable pub check_signature : Keys → Text → Text → Text → Result TokenError (Bool × Bool)
  check_signature keys alg input sig =
      if text_eq alg eddsa_alg
      then ok (keys.ed_verify input sig, false)
      else if text_eq alg mldsa_alg
      then elim (keys.pqc_verify input sig) [
        | none ↦ err pqc_failed
        | some valid ↦ ok (false, valid)
      ]
      else ok (false, false)

  -- verifySignature
  unfoldable pub verify_signature : Keys → Text → JwsSignature → Result TokenError (Bool × Bool)
  verify_signature keys payload_b64 sig = do
    hb ← or_fail (b64u_decode sig.protected) protected_decode
    h ← or_fail (unmarshal_header hb) header_parse
    bytes ← or_fail (b64u_decode sig.signature) sig_decode
    check_signature keys h.alg (signing_input sig.protected payload_b64) bytes

  -- The loop over the signatures: which of the two kinds was verified.
  unfoldable pub verify_all :
      Keys → Text → List JwsSignature → Bool → Bool → Result TokenError (Bool × Bool)
  verify_all keys payload_b64 [] ed pqc = ok (ed, pqc)
  verify_all keys payload_b64 (sig ∷ sigs) ed pqc = elim (verify_signature keys payload_b64 sig) [
    | err e ↦ err e
    | ok (e, q) ↦ verify_all keys payload_b64 sigs (e || ed) (q || pqc)
  ]

  -- verifyHybridJWT; ValidateToken is this.
  unfoldable pub verify_hybrid_jwt : Option Keys → ℕ → Text → Result TokenError Claims
  verify_hybrid_jwt none now token = err keys_missing
  verify_hybrid_jwt (some keys) now token = do
    obj ← parse_hybrid_jws token
    c ← parse_and_validate_claims now obj.payload
    (ed, pqc) ← verify_all keys obj.payload obj.signatures false false
    guard (ed && pqc) signature_invalid
    ok c
