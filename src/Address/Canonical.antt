-- ===== src/Address/Canonical.antt =====
-- Accepted addresses are canonical: the form is fixed, and normalising again changes nothing.
use cafe_discovery.Base.{
  ℕ, suc, Bool, true, false, ◌&&◌, ◌||◌, ◌≡◌, refl, ap, ◌∙◌, [], ◌∷◌, ◌++◌, arith, ◌==◌, leb,
  length, all_of, Text, codes, lower, to_lower, is_space, no_space, trim-no_space, has_prefix, ok,
}
use cafe_discovery.Address.{
  normalize_address, is_hex_digit, is_valid_address, validate_and_normalize_address,
}

unfoldable pub is_lower_hex : ℕ → Bool
is_lower_hex c = leb b'0' c && leb c b'9' || leb b'a' c && leb c b'f'

-- 0x and forty lower-case hexadecimal digits.
abbrev pub is_canonical : Text → Bool
is_canonical [] = false
is_canonical (c ∷ []) = false
is_canonical (c ∷ d ∷ s) = (c == b'0') && (d == b'x') && (length s == 40) && all_of is_lower_hex s

to_lower_idem : (c : ℕ) → to_lower (to_lower c) ≡ to_lower c
unfolding to_lower
to_lower_idem c = ground arith

lower_idem : (s : Text) → lower (lower s) ≡ lower s
lower_idem [] = refl
lower_idem (c ∷ s) = cc (to_lower_idem c, lower_idem s)

hex-lower : (c : ℕ) → is_hex_digit (to_lower c) ≡ true → is_lower_hex (to_lower c) ≡ true
unfolding to_lower is_hex_digit is_lower_hex
hex-lower c h = ground arith

all_hex-lower :
    (s : Text) → all_of is_hex_digit (lower s) ≡ true → all_of is_lower_hex (lower s) ≡ true
all_hex-lower [] h = refl
all_hex-lower (c ∷ s) h = ground (arith, hex-lower c, all_hex-lower s)

valid-canonical : (s : Text) → is_valid_address (lower s) ≡ true → is_canonical (lower s) ≡ true
unfolding is_valid_address has_prefix
valid-canonical [] h = cc
valid-canonical (c ∷ []) h = cc
valid-canonical (c ∷ d ∷ s) h = ground (arith, all_hex-lower s)

lower_form : (a : Text) → (x : Text) × (normalize_address a ≡ lower x)
unfolding normalize_address
lower_form a = (_, refl)

validate_cases :
    (a n : Text)
    → validate_and_normalize_address a ≡ ok n
    → (n ≡ normalize_address a) × (is_valid_address (normalize_address a) ≡ true)
unfolding validate_and_normalize_address
validate_cases a n h = ground arith

-- Nothing in a hexadecimal text is a space.
plain : (c : ℕ) → is_hex_digit c ≡ true → is_space c ≡ false
unfolding is_hex_digit is_space
plain c h = ground arith

hex-no_space : (s : Text) → all_of is_hex_digit s ≡ true → no_space s ≡ true
hex-no_space [] h = refl
hex-no_space (c ∷ s) h = ground (arith, plain c, hex-no_space s)

pub prefixed-no_space :
    (d : ℕ) (s : Text)
    → is_space d ≡ false
    → all_of is_hex_digit s ≡ true
    → no_space (b'0' ∷ d ∷ s) ≡ true
unfolding is_space
prefixed-no_space d s p h = ground (arith, hex-no_space s)

pub hex_of_lower : (s : Text) → all_of is_lower_hex s ≡ true → all_of is_hex_digit s ≡ true
unfolding is_lower_hex is_hex_digit
hex_of_lower [] h = refl
hex_of_lower (c ∷ s) h = ground (arith, hex_of_lower s)

pub lower-lower_hex : (s : Text) → all_of is_lower_hex s ≡ true → lower s ≡ s
unfolding is_lower_hex to_lower
lower-lower_hex [] h = refl
lower-lower_hex (c ∷ s) h = ground (arith, lower-lower_hex s)

hex-of_lower_hex : (c : ℕ) → is_hex_digit c ≡ true → is_lower_hex (to_lower c) ≡ true
unfolding to_lower is_hex_digit is_lower_hex
hex-of_lower_hex c h = ground arith

lower-hex : (s : Text) → all_of is_hex_digit s ≡ true → all_of is_lower_hex (lower s) ≡ true
lower-hex [] h = refl
lower-hex (c ∷ s) h = ground (arith, hex-of_lower_hex c, lower-hex s)

length-lower : (s : Text) → length (lower s) ≡ length s
length-lower [] = refl
length-lower (c ∷ s) = ap suc (length-lower s)

-- A text that is 0x and forty hexadecimal digits once it is in lower case passes the test.
accepted_form :
    (s : Text)
    → length s ≡ 40
    → all_of is_hex_digit s ≡ true
    → is_valid_address (codes "0x" ++ lower s) ≡ true
unfolding is_valid_address has_prefix
accepted_form s n h = ground (arith, length-lower s, hex_of_lower (lower s) (lower-hex s h))

normalize-0x :
    (s : Text)
    → all_of is_hex_digit s ≡ true
    → normalize_address (codes "0x" ++ s) ≡ codes "0x" ++ lower s
unfolding normalize_address has_prefix to_lower
normalize-0x s h =
    rw (trim-no_space (codes "0x" ++ s) (prefixed-no_space b'x' s (unfold is_space in refl) h))

normalize-0X :
    (s : Text)
    → all_of is_hex_digit s ≡ true
    → normalize_address (codes "0X" ++ s) ≡ codes "0x" ++ lower s
unfolding normalize_address has_prefix to_lower
normalize-0X s h =
    rw (trim-no_space (codes "0X" ++ s) (prefixed-no_space b'X' s (unfold is_space in refl) h))

no_prefix :
    (s : Text)
    → all_of is_hex_digit s ≡ true
    → (has_prefix (codes "0x") s ≡ false) × (has_prefix (codes "0X") s ≡ false)
unfolding has_prefix is_hex_digit
no_prefix [] h = (refl, refl)
no_prefix (c ∷ []) h = ground arith
no_prefix (c ∷ d ∷ s) h = ground arith

normalize_bare :
    (s : Text) → all_of is_hex_digit s ≡ true → normalize_address s ≡ codes "0x" ++ lower s
unfolding normalize_address to_lower
normalize_bare s h =
    let (small, large) = no_prefix s h in rw (trim-no_space s (hex-no_space s h), large, small)

accept :
    (a : Text) (s : Text)
    → normalize_address a ≡ codes "0x" ++ lower s
    → length s ≡ 40
    → all_of is_hex_digit s ≡ true
    → validate_and_normalize_address a ≡ ok (codes "0x" ++ lower s)
unfolding validate_and_normalize_address
accept a s e n h = rw (e, accepted_form s n h)

-- Forty hexadecimal digits in any case are accepted with the prefix 0x, with 0X and with none, and
-- the three spellings give one and the same address: 0x and the digits in lower case.
pub spellings_agree :
    (s : Text)
    → length s ≡ 40
    → all_of is_hex_digit s ≡ true
    → (validate_and_normalize_address (codes "0x" ++ s) ≡ ok (codes "0x" ++ lower s))
      × (validate_and_normalize_address (codes "0X" ++ s) ≡ ok (codes "0x" ++ lower s))
      × (validate_and_normalize_address s ≡ ok (codes "0x" ++ lower s))
spellings_agree s n h = (
  accept _ s (normalize-0x s h) n h,
  accept _ s (normalize-0X s h) n h,
  accept _ s (normalize_bare s h) n h,
)

canonical-accepted : (n : Text) → is_canonical n ≡ true → validate_and_normalize_address n ≡ ok n
canonical-accepted [] h = cc
canonical-accepted (c ∷ []) h = cc
canonical-accepted (c ∷ d ∷ s) h =
    let zero_x : c ∷ d ∷ s ≡ codes "0x" ++ s = ground arith in
    let digits : all_of is_lower_hex s ≡ true = ground arith in
    let forty : length s ≡ 40 = ground arith in
    rw zero_x (
      accept _ s (normalize-0x s (hex_of_lower s digits)) forty (hex_of_lower s digits)
      ∙ rw (lower-lower_hex s digits))

-- Whatever text is accepted, the result is canonical (0x and forty lower-case hexadecimal digits),
-- and accepting the result again gives it unchanged.
pub accepted_canonical :
    (a n : Text)
    → validate_and_normalize_address a ≡ ok n
    → (is_canonical n ≡ true) × (validate_and_normalize_address n ≡ ok n)
accepted_canonical a n h =
    let (e, v) = validate_cases a n h in
    let (x, form) = lower_form a in
    let canonical : is_canonical n ≡ true = rw (e, form) (valid-canonical x (rw form at v)) in
    (canonical, canonical-accepted n canonical)
