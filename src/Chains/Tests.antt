-- ===== src/Chains/Tests.antt =====
-- Runs on a configuration of two chains.
use cafe_discovery.Base.{
  ◌≡◌, refl, Option, some, List, [], ◌∷◌, pos, Text, codes, trim, trim_left, trim_right, is_space,
  text_eq, ok,
}
use cafe_discovery.Chains.{
  Blockchain, validate_after, validate, chain_id_by_network, read_digits, read_magnitude,
  parse_int64, parse_positive, parse_networks, chain_of, collect_ids, chain_ids_for_networks,
}

abbrev pub chains : List Blockchain
chains =
    (record { name = codes "ethereum"; chain_id = pos 1 })
    ∷ (record { name = codes "base"; chain_id = pos 8453 })
    ∷ []

abbrev pub unmarshal : Text → Option (List Text)
unmarshal json = some (codes "base" ∷ codes "1" ∷ codes "ethereum" ∷ codes "other" ∷ [])

ids_found : chain_ids_for_networks unmarshal (some chains) (codes "[..]") ≡ 8453 ∷ 1 ∷ []
unfolding chain_ids_for_networks collect_ids chain_of parse_positive parse_int64 read_magnitude
    read_digits parse_networks chain_id_by_network trim trim_left trim_right is_space text_eq
ids_found = refl

chains_valid : validate chains ≡ ok tt
unfolding validate validate_after trim trim_left trim_right is_space text_eq
chains_valid = refl
