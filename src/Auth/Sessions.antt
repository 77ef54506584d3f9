-- ===== src/Auth/Sessions.antt =====
-- internal/service/auth.go: a token that the service issues is one that it accepts.
use cafe_discovery.Base.{
  ℕ, ◌+◌, ◌≤◌, true, false, ◌≡◌, refl, some, arith, Text, text_eq, is_nil, ok, Option-cases, inl,
  inr,
}
use cafe_discovery.Auth.{
  Claims, JwsHeader, JwsJson, mldsa_alg, eddsa_alg, Codec, Keys, signing_input, protect, ed_header,
  pqc_header, hybrid_jws, mint_hybrid_jwt, session_claims, generate_token, parse_hybrid_jws,
  parse_and_validate_claims, check_signature, verify_signature, verify_all, verify_hybrid_jwt,
}

-- Base64 and JSON decode what they encode, and no claims are encoded as the empty text.
pub record IsCodec (codec : Codec) : Type 0 where
  pub b64u_roundtrip : (s : Text) → codec.b64u_decode (codec.b64u_encode s) ≡ some s
  pub claims_roundtrip : (c : Claims) → codec.unmarshal_claims (codec.marshal_claims c) ≡ some c
  pub header_roundtrip : (h : JwsHeader) → codec.unmarshal_header (codec.marshal_header h) ≡ some h
  pub jws_roundtrip : (j : JwsJson) → codec.unmarshal_jws (codec.marshal_jws j) ≡ some j
  pub claims_written : (c : Claims) → is_nil (codec.b64u_encode (codec.marshal_claims c)) ≡ false

-- A signature made with the keys verifies with them.
pub record IsSigner (keys : Keys) : Type 0 where
  pub ed_correct : (m : Text) → keys.ed_verify m (keys.ed_sign m) ≡ true
  pub pqc_correct : (m s : Text) → keys.pqc_sign m ≡ some s → keys.pqc_verify m s ≡ some true

module _ (codec : Codec) (keys : Keys) (law : IsCodec codec) (signer : IsSigner keys) where
  -- A signature that the service made is taken apart again.
  verify_made :
      (h : JwsHeader) (bytes payload : Text)
      → verify_signature codec keys payload
          (record { protected = protect codec h; signature = codec.b64u_encode bytes })
        ≡ check_signature codec keys h.alg (signing_input (protect codec h) payload) bytes
  unfolding verify_signature
  verify_made h bytes payload =
      rw
        (
          law.b64u_roundtrip (codec.marshal_header h),
          law.header_roundtrip h,
          law.b64u_roundtrip bytes,
          verify_signature,
        )
        refl

  check_ed :
      (input : Text)
      → check_signature codec keys eddsa_alg input (keys.ed_sign input) ≡ ok (true, false)
  unfolding check_signature text_eq
  check_ed input = rw (signer.ed_correct input, check_signature) refl

  check_pqc :
      (input sig : Text)
      → keys.pqc_sign input ≡ some sig
      → check_signature codec keys mldsa_alg input sig ≡ ok (false, true)
  unfolding check_signature text_eq
  check_pqc input sig h = rw (signer.pqc_correct input sig h, check_signature) refl

  verify_hybrid_signatures :
      (payload sig : Text)
      → keys.pqc_sign (signing_input (protect codec pqc_header) payload) ≡ some sig
      → verify_all codec keys payload (hybrid_jws codec keys payload sig).signatures false false
        ≡ ok (true, true)
  unfolding verify_all hybrid_jws
  verify_hybrid_signatures payload sig h =
      rw
        (
          verify_made ed_header (keys.ed_sign (signing_input (protect codec ed_header) payload))
              payload,
          check_ed (signing_input (protect codec ed_header) payload),
          verify_made pqc_header sig payload,
          check_pqc (signing_input (protect codec pqc_header) payload) sig h,
          verify_all,
        )
        refl

  parse_made :
      (c : Claims) (sig : Text)
      → parse_hybrid_jws codec (
          codec.b64u_encode (
            codec.marshal_jws
              (hybrid_jws codec keys (codec.b64u_encode (codec.marshal_claims c)) sig)))
        ≡ ok (hybrid_jws codec keys (codec.b64u_encode (codec.marshal_claims c)) sig)
  unfolding parse_hybrid_jws hybrid_jws
  parse_made c sig =
      let payload = codec.b64u_encode (codec.marshal_claims c) in
      rw
        (
          law.b64u_roundtrip (codec.marshal_jws (hybrid_jws codec keys payload sig)),
          law.jws_roundtrip (hybrid_jws codec keys payload sig),
          law.claims_written c,
          parse_hybrid_jws,
        )
        refl

  claims_made :
      (now : ℕ) (c : Claims) (t : ℕ)
      → c.expires_at ≡ some t
      → now ≤ t
      → parse_and_validate_claims codec now (codec.b64u_encode (codec.marshal_claims c)) ≡ ok c
  unfolding parse_and_validate_claims
  claims_made now c t e fresh =
      ground (arith, law.b64u_roundtrip (codec.marshal_claims c), law.claims_roundtrip c, e)

  abbrev payload_of : Claims → Text
  payload_of c = codec.b64u_encode (codec.marshal_claims c)

  abbrev token_of : Claims → Text → Text
  token_of c sig = codec.b64u_encode (codec.marshal_jws (hybrid_jws codec keys (payload_of c) sig))

  verify_token :
      (now : ℕ) (c : Claims) (t : ℕ) (sig : Text)
      → c.expires_at ≡ some t
      → now ≤ t
      → keys.pqc_sign (signing_input (protect codec pqc_header) (payload_of c)) ≡ some sig
      → verify_hybrid_jwt codec (some keys) now (token_of c sig) ≡ ok c
  unfolding verify_hybrid_jwt hybrid_jws
  verify_token now c t sig e fresh signed =
      rw
        (
          parse_made c sig,
          claims_made now c t e fresh,
          verify_hybrid_signatures (payload_of c) sig signed,
          verify_hybrid_jwt,
        )
        refl

  mint_lem :
      (c : Claims) (token : Text)
      → mint_hybrid_jwt codec (some keys) c ≡ ok token
      → (sig : Text) × (keys.pqc_sign (signing_input (protect codec pqc_header) (payload_of c))
          ≡ some sig)
        × (token ≡ token_of c sig)
  unfolding mint_hybrid_jwt
  mint_lem c token h =
      elim (Option-cases
        (keys.pqc_sign (signing_input (protect codec pqc_header) (payload_of c)))) [
          | inl a ↦ absurd (ground (arith, a, h))
          | inr (sig, a) ↦ (sig, a, ground (arith, a, h))
        ]

  session_expires :
      (expiry issued user : ℕ) (email : Text)
      → (session_claims codec expiry issued user email).expires_at
        ≡ some (codec.numeric_date (issued + expiry))
  unfolding session_claims
  session_expires expiry issued user email = refl

  -- A token that generateToken issued at an instant is accepted, with its own claims, at every later
  -- instant up to its expiry, as NewNumericDate rounds it. Base64, JSON and the two schemes are
  -- assumed to undo themselves.
  pub verify-generate :
      (expiry issued later user : ℕ) (email token : Text)
      → generate_token codec (some keys) expiry issued user email ≡ ok token
      → later ≤ codec.numeric_date (issued + expiry)
      → verify_hybrid_jwt codec (some keys) later token
        ≡ ok (session_claims codec expiry issued user email)
  unfolding generate_token
  verify-generate expiry issued later user email token h fresh =
      let c = session_claims codec expiry issued user email in
      let (sig, signed, same) = mint_lem c token h in
      rw same (
        verify_token later c (codec.numeric_date (issued + expiry)) sig
          (session_expires expiry issued user email) fresh signed)
