-- ===== src/Address.antt =====
-- internal/address/address.go. A text is a list of code points; the length test counts those, which
-- on texts with a code point above ASCII differs from Go's byte count, and such a text is refused
-- by the digit test in both.
pub mod Canonical
pub mod Tests
use cafe_discovery.Base.{
  ℕ, Bool, true, false, not, ◌&&◌, ◌||◌, List, [], ◌∷◌, ◌++◌, ◌==◌, leb, if◌then◌else◌, length,
  all_of, Text, codes, trim, lower, has_prefix, drop, Result, ok, err,
}

pub data AddressError : Type 0 where
  invalid_address : AddressError

-- normalizeAddress
unfoldable pub normalize_address : Text → Text
normalize_address address =
    let trimmed = trim address in
    let a = if has_prefix (codes "0X") trimmed then codes "0x" ++ drop 2 trimmed else trimmed in
    lower (if not (has_prefix (codes "0x") a) then codes "0x" ++ a else a)

unfoldable pub is_hex_digit : ℕ → Bool
is_hex_digit c = leb b'0' c && leb c b'9' || leb b'a' c && leb c b'f' || leb b'A' c && leb c b'F'

-- isValidAddress
unfoldable pub is_valid_address : Text → Bool
is_valid_address address =
    (length address == 42)
    && has_prefix (codes "0x") address
    && all_of is_hex_digit (drop 2 address)

-- ValidateAndNormalizeAddress
unfoldable pub validate_and_normalize_address : Text → Result AddressError Text
validate_and_normalize_address address =
    let normalized = normalize_address address in
    if is_valid_address normalized then ok normalized else err invalid_address
