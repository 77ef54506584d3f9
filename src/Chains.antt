-- ===== src/Chains.antt =====
-- internal/config/chain.go, and the chain ids of a scan's networks in
-- internal/handler/discovery_v1_scans.go. A Go map from names is a function into Option, and an int64
-- that is read is an integer in its range.
pub mod Names
pub mod Ids
pub mod Tests
use cafe_discovery.Base.{
  ℕ, ◌+◌, ◌-◌, ◌*◌, ◌^◌, Bool, true, false, not, ◌&&◌, ◌||◌, Option, none, some, List, [], ◌∷◌,
  ◌++◌, ltb, leb, is_nil, any_of, mem, ◌==◌, ℤ, pos, sub_ℕ, is_positive, pos_part, Text, codes,
  text_eq, trim, if◌then◌else◌, Result, ok, err, guard, ◌>>◌, ◌>>=◌, map,
}

-- Blockchain, less its RPC endpoint.
pub record Blockchain : Type 0 where
  pub name : Text
  pub chain_id : ℤ

pub data ChainError : Type 0 where
  name_required duplicate_name id_not_positive duplicate_id : ChainError

abbrev pub has_trimmed_name : Text → Blockchain → Bool
has_trimmed_name n b = text_eq (trim b.name) n

abbrev pub has_id : ℕ → Blockchain → Bool
has_id id b = pos_part b.chain_id == id

-- The loop of Validate, with the blockchains that were seen before.
unfoldable pub validate_after : List Blockchain → List Blockchain → Result ChainError (Unit {0})
validate_after seen [] = ok tt
validate_after seen (b ∷ chains) =
    let rest = validate_after (b ∷ seen) chains in
    guard (not (is_nil (trim b.name))) name_required
    >> guard (not (any_of (has_trimmed_name (trim b.name)) seen)) duplicate_name
    >> guard (is_positive b.chain_id) id_not_positive
    >> guard (not (any_of (has_id (pos_part b.chain_id)) seen)) duplicate_id
    >> rest

-- Validate
unfoldable pub validate : List Blockchain → Result ChainError (Unit {0})
validate chains = validate_after [] chains

-- ChainIDByNetwork: of two blockchains with a name, the later one counts.
unfoldable pub chain_id_by_network : List Blockchain → Text → Option ℕ
chain_id_by_network [] n = none
chain_id_by_network (b ∷ chains) n = elim (chain_id_by_network chains n) [
  | some id ↦ some id
  | none ↦ if is_positive b.chain_id && text_eq b.name n then some (pos_part b.chain_id) else none
]

abbrev is_digit : ℕ → Bool
is_digit c = leb b'0' c && leb c b'9'

-- The value of decimal digits after a number read so far.
unfoldable pub read_digits : ℕ → Text → Option ℕ
read_digits n [] = some n
read_digits n (c ∷ s) =
    let rest = read_digits (n * 10 + (c - b'0')) s in if is_digit c then rest else none

unfoldable pub read_magnitude : Text → Option ℕ
read_magnitude [] = none
read_magnitude (c ∷ s) = read_digits 0 (c ∷ s)

abbrev at_most : ℕ → (ℕ → ℤ) → Option ℕ → Option ℤ
at_most limit sign none = none
at_most limit sign (some n) = if leb n limit then some (sign n) else none

-- strconv.ParseInt(s, 10, 64)
unfoldable pub parse_int64 : Text → Option ℤ
parse_int64 [] = none
parse_int64 (c ∷ s) =
    if c == b'+'
    then at_most (2 ^ 63 - 1) pos (read_magnitude s)
    else if c == b'-'
    then at_most (2 ^ 63) (sub_ℕ 0) (read_magnitude s)
    else at_most (2 ^ 63 - 1) pos (read_magnitude (c ∷ s))

-- `v, err := strconv.ParseInt(s, 10, 64)` with `err == nil && v > 0`.
unfoldable pub parse_positive : Text → Option ℕ
parse_positive s = elim (parse_int64 s) [
  | none ↦ none
  | some v ↦ if is_positive v then some (pos_part v) else none
]

-- parseNetworksFromEntity, given json.Unmarshal on an array of strings.
unfoldable pub parse_networks : (Text → Option (List Text)) → Text → List Text
parse_networks unmarshal json =
    if is_nil json || text_eq json (codes "[]")
    then []
    else elim (unmarshal json) [ none ↦ [] | some names ↦ names ]

-- What a name contributes in chainIDsForNetworks: its number, or else its configured chain.
unfoldable pub chain_of : (Text → Option ℕ) → Text → Option ℕ
chain_of by_name n = elim (parse_positive (trim n)) [ some id ↦ some id | none ↦ by_name n ]

-- The loop of chainIDsForNetworks, after the ids found so far.
unfoldable pub collect_ids : (Text → Option ℕ) → List ℕ → List Text → List ℕ
collect_ids by_name out [] = out
collect_ids by_name out (n ∷ names) = elim (chain_of by_name n) [
  | none ↦ collect_ids by_name out names
  | some id ↦ collect_ids by_name (if mem id out then out else out ++ id ∷ []) names
]

-- chainIDsForNetworks
unfoldable pub chain_ids_for_networks :
    (Text → Option (List Text)) → Option (List Blockchain) → Text → List ℕ
chain_ids_for_networks unmarshal none json = []
chain_ids_for_networks unmarshal (some chains) json =
    collect_ids (chain_id_by_network chains) [] (parse_networks unmarshal json)
