-- ===== src/Address/Tests.antt =====
-- Runs of internal/address/address.go.
use cafe_discovery.Base.{true, ◌≡◌, refl, all_of, Text, codes, to_lower, ok}
use cafe_discovery.Address.{is_hex_digit, validate_and_normalize_address}
use cafe_discovery.Address.Canonical.{is_canonical, accepted_canonical, spellings_agree}

abbrev pub digits : Text
digits = codes "52908400098527886E0F7030069857D2E4169EE7"

abbrev pub canonical : Text
canonical = codes "0x52908400098527886e0f7030069857d2e4169ee7"

digits_hex : all_of is_hex_digit digits ≡ true
unfolding is_hex_digit
digits_hex = refl

pub digits_accepted : validate_and_normalize_address digits ≡ ok canonical
unfolding to_lower
digits_accepted = (spellings_agree digits refl digits_hex).2

accepted_canonical_example :
    (is_canonical canonical ≡ true) × (validate_and_normalize_address canonical ≡ ok canonical)
accepted_canonical_example = accepted_canonical digits canonical digits_accepted
