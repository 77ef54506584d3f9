-- ===== src/Authz/RequestId.antt =====
-- internal/authz/scan_authz.go: what a request id in a response can be.
use mathlib.Core.Path.{subst}
use cafe_discovery.Base.{
  ℕ, ◌+◌, ◌≤◌, ◌<◌, true, false, ◌≡◌, refl, inl, inr, some, List, [], ◌∷◌, arith, ◌↔◌, Bool-cases,
  ◌/◌, ◌%◌, is_nil, length, all_of, Text,
}
use cafe_discovery.Authz.{
  is_id_char, sanitize_from, sanitize_request_id, hex_digit, hex, generate_request_id,
  ensure_request_id,
}

-- A text that SanitizeRequestID accepts as it stands.
abbrev pub IsRequestId : Text → Type 0
IsRequestId s = (all_of is_id_char s ≡ true) × (length s ≤ 128)

sanitize_from_lem :
    (n : ℕ) (s : Text)
    → n < 128
    → (all_of is_id_char (sanitize_from n s) ≡ true) × (n + length (sanitize_from n s) ≤ 128)
unfolding sanitize_from
sanitize_from_lem n [] h = (refl, omega arith)
sanitize_from_lem n (c ∷ s) h = ground (arith, sanitize_from_lem n s, sanitize_from_lem (n + 1) s)

sanitize_from-fixed :
    (n : ℕ) (s : Text) → all_of is_id_char s ≡ true → n + length s ≤ 128 → sanitize_from n s ≡ s
unfolding sanitize_from
sanitize_from-fixed n [] a h = refl
sanitize_from-fixed n (c ∷ []) a h = ground arith
sanitize_from-fixed n (c ∷ d ∷ s) a h = ground (arith, sanitize_from-fixed (n + 1) (d ∷ s))

sanitize-IsRequestId : (raw : Text) → IsRequestId (sanitize_request_id raw)
unfolding sanitize_request_id
sanitize-IsRequestId [] = (refl, omega arith)
sanitize-IsRequestId (c ∷ s) =
    let (allowed, short) = sanitize_from_lem 0 (c ∷ s) (omega arith) in
    (allowed, omega (arith, short))

sanitize-same : (raw : Text) → IsRequestId raw → sanitize_request_id raw ≡ raw
unfolding sanitize_request_id
sanitize-same [] h = refl
sanitize-same (c ∷ s) (allowed, short) =
    sanitize_from-fixed 0 (c ∷ s) allowed (omega (arith, short))

-- A request id is left as it is by SanitizeRequestID exactly when it has only ASCII letters,
-- digits, hyphens and underscores, and at most 128 of them.
pub sanitize_fixed : (raw : Text) → (sanitize_request_id raw ≡ raw) ↔ IsRequestId raw
sanitize_fixed raw = (λ e. subst IsRequestId e (sanitize-IsRequestId raw), sanitize-same raw)

hex_digit-is_id_char : (n : ℕ) → n < 16 → is_id_char (hex_digit n) ≡ true
unfolding hex_digit is_id_char
hex_digit-is_id_char n h = ground arith

hex_lem : (bytes : List ℕ) → all_of is_id_char (hex bytes) ≡ true
unfolding hex
hex_lem [] = refl
hex_lem (b ∷ bs) =
    ground (arith, hex_lem bs, hex_digit-is_id_char (b / 16 % 16), hex_digit-is_id_char (b % 16))

length-hex : (bytes : List ℕ) → length (hex bytes) ≡ length bytes + length bytes
unfolding hex
length-hex [] = omega arith
length-hex (b ∷ bs) = omega (arith, length-hex bs)

generate-IsRequestId :
    (bytes : List ℕ) → length bytes ≡ 12 → IsRequestId (generate_request_id (some bytes))
unfolding generate_request_id is_id_char
generate-IsRequestId bytes h = (hex_lem bytes, omega (arith, length-hex bytes))

-- What EnsureRequestID answers is never empty, and is a text that SanitizeRequestID leaves as it
-- is, whatever the header held and when rand.Read fills the twelve bytes.
pub ensure-IsRequestId :
    (bytes : List ℕ) (raw : Text)
    → length bytes ≡ 12
    → (is_nil (ensure_request_id (some bytes) raw) ≡ false)
      × IsRequestId (ensure_request_id (some bytes) raw)
unfolding ensure_request_id generate_request_id
ensure-IsRequestId bytes raw h = elim (Bool-cases (is_nil (sanitize_request_id raw))) [
  | inl e ↦ rw (e) (refl, generate-IsRequestId bytes h)
  | inr e ↦ rw (e) (e, sanitize-IsRequestId raw)
]
