-- ===== src/Auth/Hybrid.antt =====
-- internal/service/auth.go: what an accepted token must carry.
use cafe_discovery.Base.{
  ℕ, Bool, true, false, ◌||◌, ◌≡◌, refl, ◌⊎◌, inl, inr, some, List, [], ◌∷◌, arith, Text, text_eq,
  text_eq_iff, ok, Result-cases, Option-cases, Bool-cases,
}
use cafe_discovery.Auth.{
  Claims, JwsHeader, JwsSignature, JwsJson, mldsa_alg, eddsa_alg, Codec, Keys, signing_input,
  parse_hybrid_jws, expired, parse_and_validate_claims, check_signature, verify_signature,
  verify_all, verify_hybrid_jwt,
}

-- Some element of a list has a property.
abbrev pub Some : {A : Type 0} → (A → Type 0) → List A → Type 0
Some p [] = ⊥
Some p (x ∷ xs) = p x ⊎ Some p xs

module _ (codec : Codec) (keys : Keys) where
  open codec use {b64u_decode, unmarshal_claims, unmarshal_header, unmarshal_jws}

  -- A signature of the algorithm over the payload, whose bytes pass a test.
  pub record IsSigned (alg : Text) (valid : Text → Text → Type 0) (payload : Text)
      (sig : JwsSignature) : Type 0 where
    pub header_bytes : Text
    pub header : JwsHeader
    pub bytes : Text
    pub protected_decodes : b64u_decode sig.protected ≡ some header_bytes
    pub header_parses : unmarshal_header header_bytes ≡ some header
    pub algorithm : header.alg ≡ alg
    pub signature_decodes : b64u_decode sig.signature ≡ some bytes
    pub verified : valid (signing_input sig.protected payload) bytes

  abbrev pub EdSigned : Text → JwsSignature → Type 0
  EdSigned = IsSigned eddsa_alg (λ input bytes. keys.ed_verify input bytes ≡ true)

  abbrev pub PqcSigned : Text → JwsSignature → Type 0
  PqcSigned = IsSigned mldsa_alg (λ input bytes. keys.pqc_verify input bytes ≡ some true)

  ed_lem :
      (alg input bytes : Text) (r : Bool × Bool)
      → check_signature codec keys alg input bytes ≡ ok r
      → r.0 ≡ true
      → (alg ≡ eddsa_alg) × (keys.ed_verify input bytes ≡ true)
  unfolding check_signature
  ed_lem alg input bytes r h e = elim (Bool-cases (text_eq alg eddsa_alg)) [
    | inl f ↦ ((text_eq_iff alg eddsa_alg).0 f, ground (arith, f, h, e))
    | inr f ↦ elim (Option-cases (keys.pqc_verify input bytes)) [
      | inl g ↦ absurd (ground (arith, f, g, h, e))
      | inr (valid, g) ↦ absurd (ground (arith, f, g, h, e))
    ]
  ]

  pqc_lem :
      (alg input bytes : Text) (r : Bool × Bool)
      → check_signature codec keys alg input bytes ≡ ok r
      → r.1 ≡ true
      → (alg ≡ mldsa_alg) × (keys.pqc_verify input bytes ≡ some true)
  unfolding check_signature
  pqc_lem alg input bytes r h e = elim (Bool-cases (text_eq alg eddsa_alg)) [
    | inl f ↦ absurd (ground (arith, f, h, e))
    | inr f ↦ elim (Bool-cases (text_eq alg mldsa_alg)) [
      | inr k ↦ absurd (ground (arith, f, k, h, e))
      | inl k ↦ elim (Option-cases (keys.pqc_verify input bytes)) [
        | inl g ↦ absurd (ground (arith, f, k, g, h, e))
        | inr (valid, g) ↦ ((text_eq_iff alg mldsa_alg).0 k, ground (arith, f, k, g, h, e))
      ]
    ]
  ]

  -- The steps before the check of a signature.
  signature_cases :
      (payload : Text) (sig : JwsSignature) (r : Bool × Bool)
      → verify_signature codec keys payload sig ≡ ok r
      → (hb : Text) × (header : JwsHeader) × (bytes : Text) × (b64u_decode sig.protected ≡ some hb)
        × (unmarshal_header hb ≡ some header)
        × (b64u_decode sig.signature ≡ some bytes)
        × (check_signature codec keys header.alg (signing_input sig.protected payload) bytes ≡ ok r)
  unfolding verify_signature
  signature_cases payload sig r h = elim (Option-cases (b64u_decode sig.protected)) [
    | inl a ↦ absurd (ground (arith, a, h))
    | inr (hb, a) ↦ elim (Option-cases (unmarshal_header hb)) [
      | inl b ↦ absurd (ground (arith, a, b, h))
      | inr (header, b) ↦ elim (Option-cases (b64u_decode sig.signature)) [
        | inl c ↦ absurd (ground (arith, a, b, c, h))
        | inr (bytes, c) ↦ (hb, header, bytes, a, b, c, ground (arith, a, b, c, h))
      ]
    ]
  ]

  signature-EdSigned :
      (payload : Text) (sig : JwsSignature) (r : Bool × Bool)
      → verify_signature codec keys payload sig ≡ ok r
      → r.0 ≡ true
      → EdSigned payload sig
  signature-EdSigned payload sig r h e =
      let (hb, header, bytes, a, b, c, checked) = signature_cases payload sig r h in
      let (same, valid) =
        ed_lem header.alg (signing_input sig.protected payload) bytes r checked e in
      record {
        header_bytes = hb;
        header = header;
        bytes = bytes;
        protected_decodes = a;
        header_parses = b;
        algorithm = same;
        signature_decodes = c;
        verified = valid;
      }

  signature-PqcSigned :
      (payload : Text) (sig : JwsSignature) (r : Bool × Bool)
      → verify_signature codec keys payload sig ≡ ok r
      → r.1 ≡ true
      → PqcSigned payload sig
  signature-PqcSigned payload sig r h e =
      let (hb, header, bytes, a, b, c, checked) = signature_cases payload sig r h in
      let (same, valid) =
        pqc_lem header.alg (signing_input sig.protected payload) bytes r checked e in
      record {
        header_bytes = hb;
        header = header;
        bytes = bytes;
        protected_decodes = a;
        header_parses = b;
        algorithm = same;
        signature_decodes = c;
        verified = valid;
      }

  or_cases : (a b : Bool) → (a || b) ≡ true → (a ≡ true) ⊎ (b ≡ true)
  or_cases true b h = inl refl
  or_cases false b h = inr h

  all-EdSigned :
      (payload : Text) (sigs : List JwsSignature) (ed pqc : Bool) (r : Bool × Bool)
      → verify_all codec keys payload sigs ed pqc ≡ ok r
      → r.0 ≡ true
      → (ed ≡ true) ⊎ Some (EdSigned payload) sigs
  unfolding verify_all
  all-EdSigned payload [] ed pqc r h e = inl (ground (arith, h, e))
  all-EdSigned payload (sig ∷ sigs) ed pqc r h e =
      elim (Result-cases (verify_signature codec keys payload sig)) [
        | inr (x, a) ↦ absurd (ground (arith, a, h))
        | inl ((d, q), a) ↦
            elim (all-EdSigned payload sigs (d || ed) (q || pqc) r (ground (arith, a, h)) e) [
              | inr found ↦ inr (inr found)
              | inl now_true ↦ elim (or_cases d ed now_true) [
                | inr before ↦ inl before
                | inl here ↦ inr (inl (signature-EdSigned payload sig (d, q) a here))
              ]
            ]
      ]

  all-PqcSigned :
      (payload : Text) (sigs : List JwsSignature) (ed pqc : Bool) (r : Bool × Bool)
      → verify_all codec keys payload sigs ed pqc ≡ ok r
      → r.1 ≡ true
      → (pqc ≡ true) ⊎ Some (PqcSigned payload) sigs
  unfolding verify_all
  all-PqcSigned payload [] ed pqc r h e = inl (ground (arith, h, e))
  all-PqcSigned payload (sig ∷ sigs) ed pqc r h e =
      elim (Result-cases (verify_signature codec keys payload sig)) [
        | inr (x, a) ↦ absurd (ground (arith, a, h))
        | inl ((d, q), a) ↦
            elim (all-PqcSigned payload sigs (d || ed) (q || pqc) r (ground (arith, a, h)) e) [
              | inr found ↦ inr (inr found)
              | inl now_true ↦ elim (or_cases q pqc now_true) [
                | inr before ↦ inl before
                | inl here ↦ inr (inl (signature-PqcSigned payload sig (d, q) a here))
              ]
            ]
      ]

  started_false : {X : Type 0} → (false ≡ true) ⊎ X → X
  started_false (inl h) = absurd (ground (arith, h))
  started_false (inr x) = x

  -- What a token stands for: the parts that it decodes to, and both signatures over its payload.
  pub record IsHybrid (now : ℕ) (token : Text) (c : Claims) : Type 0 where
    pub raw : Text
    pub jws : JwsJson
    pub claims_bytes : Text
    pub token_decodes : b64u_decode token ≡ some raw
    pub jws_parses : unmarshal_jws raw ≡ some jws
    pub payload_decodes : b64u_decode jws.payload ≡ some claims_bytes
    pub claims_parse : unmarshal_claims claims_bytes ≡ some c
    pub unexpired : expired codec now c ≡ false
    pub ed_signed : Some (EdSigned jws.payload) jws.signatures
    pub pqc_signed : Some (PqcSigned jws.payload) jws.signatures

  parse_cases :
      (token : Text) (jws : JwsJson)
      → parse_hybrid_jws codec token ≡ ok jws
      → (raw : Text) × (b64u_decode token ≡ some raw) × (unmarshal_jws raw ≡ some jws)
  unfolding parse_hybrid_jws
  parse_cases token jws h = elim (Option-cases (b64u_decode token)) [
    | inl a ↦ absurd (ground (arith, a, h))
    | inr (raw, a) ↦ elim (Option-cases (unmarshal_jws raw)) [
      | inl b ↦ absurd (ground (arith, a, b, h))
      | inr (obj, b) ↦ (raw, a, ground (arith, a, b, h))
    ]
  ]

  claims_cases :
      (now : ℕ) (payload : Text) (c : Claims)
      → parse_and_validate_claims codec now payload ≡ ok c
      → (bytes : Text) × (b64u_decode payload ≡ some bytes)
        × (unmarshal_claims bytes ≡ some c)
        × (expired codec now c ≡ false)
  unfolding parse_and_validate_claims
  claims_cases now payload c h = elim (Option-cases (b64u_decode payload)) [
    | inl a ↦ absurd (ground (arith, a, h))
    | inr (bytes, a) ↦ elim (Option-cases (unmarshal_claims bytes)) [
      | inl b ↦ absurd (ground (arith, a, b, h))
      | inr (d, b) ↦ elim (Bool-cases (expired codec now d)) [
        | inl late ↦ absurd (ground (arith, a, b, late, h))
        | inr fresh ↦
            let same : d ≡ c = ground (arith, a, b, fresh, h) in
            (bytes, a, rw same at b, rw same at fresh)
      ]
    ]
  ]

  verify_cases :
      (now : ℕ) (token : Text) (c : Claims)
      → verify_hybrid_jwt codec (some keys) now token ≡ ok c
      → (jws : JwsJson) × (parse_hybrid_jws codec token ≡ ok jws)
        × (parse_and_validate_claims codec now jws.payload ≡ ok c)
        × (verify_all codec keys jws.payload jws.signatures false false ≡ ok (true, true))
  unfolding verify_hybrid_jwt
  verify_cases now token c h = elim (Result-cases (parse_hybrid_jws codec token)) [
    | inr (x, a) ↦ absurd (ground (arith, a, h))
    | inl (jws, a) ↦ elim (Result-cases (parse_and_validate_claims codec now jws.payload)) [
      | inr (x, b) ↦ absurd (ground (arith, a, b, h))
      | inl (d, b) ↦
          elim (Result-cases (verify_all codec keys jws.payload jws.signatures false false)) [
            | inr (x, v) ↦ absurd (ground (arith, a, b, v, h))
            | inl ((ed, pqc), v) ↦ (jws, a, ground (arith, a, b, v, h), ground (arith, a, b, v, h))
          ]
    ]
  ]

  -- A token that ValidateToken accepts carries an Ed25519 signature and an ML-DSA-65 signature that
  -- both verify over its own payload, the payload decodes to the claims returned, and those claims
  -- have not expired: neither kind of signature is enough alone.
  pub verify-IsHybrid :
      (now : ℕ) (token : Text) (c : Claims)
      → verify_hybrid_jwt codec (some keys) now token ≡ ok c
      → IsHybrid now token c
  verify-IsHybrid now token c h =
      let (jws, parsed, validated, verified) = verify_cases now token c h in
      let (raw, a, b) = parse_cases token jws parsed in
      let (bytes, d, e, fresh) = claims_cases now jws.payload c validated in
      record {
        raw = raw;
        jws = jws;
        claims_bytes = bytes;
        token_decodes = a;
        jws_parses = b;
        payload_decodes = d;
        claims_parse = e;
        unexpired = fresh;
        ed_signed =
            started_false
              (all-EdSigned jws.payload jws.signatures false false (true, true) verified refl);
        pqc_signed =
            started_false
              (all-PqcSigned jws.payload jws.signatures false false (true, true) verified refl);
      }
