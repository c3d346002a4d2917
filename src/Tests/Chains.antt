-- ===== src/Tests/Chains.antt =====
-- The properties of the consumption chain and of the key path at concrete inputs.
use bounded_authority_protoc.Base.{
  ◌%◌, ◌≡◌, ◌↔◌, ◌⊎◌, refl, none, [], ◌∷◌, ◌++◌, length, replicate, All, Bytes, codes, ok, invalid,
}
use bounded_authority_protoc.Base.Int.{pos, ◌+ℤ◌}
use bounded_authority_protoc.Base64url.{base64url_encode, decode_char, decode_loop, index}
use bounded_authority_protoc.Bounds.{maximum}
use bounded_authority_protoc.V1.Chain.{
  Domain, chain1, ChainInput, ExpectedChain, ChainFacts, row_domain_hash, check_chain,
}
use bounded_authority_protoc.V1.Chain.Entry.{encode_consumption_entry}
use bounded_authority_protoc.V1.Chain.Tamper.{Collision, check_chain-tamper_evident}
use bounded_authority_protoc.V1.Chain.Sequence.{IsCounted, check_chain-IsCounted}
use bounded_authority_protoc.V1.Chain.Canonical.{IsCanonical, check_chain-IsCanonical}
use bounded_authority_protoc.V1.KeyPath.{ExpectedAnchor, ExpectedKeyTransition, key_path_ok}
use bounded_authority_protoc.V1.KeyPath.Path.{IsPath, key_path_ok_iff}
use bounded_authority_protoc.Tests.{no_floats}

-- A function of the right type that collides as soon as two lengths agree.
abbrev by_length : Domain
by_length = chain1 (λ s. length s % 256 ∷ replicate 31 7)

abbrev zeros : Bytes
zeros = replicate 32 0

abbrev row : Bytes → Bytes → Bytes → Bytes
row commitment previous sequence =
    codes "{\"chain_id\":\"c\",\"commitment\":\""
    ++ (base64url_encode commitment
        ++ (codes "\",\"previous\":\""
            ++ (base64url_encode previous
                ++ (codes "\",\"sequence\":" ++ (sequence ++ codes ",\"v\":1}")))))

abbrev first_row : Bytes
first_row = row (replicate 32 1) zeros (codes "1")

abbrev second_row : Bytes
second_row = row (replicate 32 2) (row_domain_hash by_length first_row) (codes "2")

abbrev forged_row : Bytes
forged_row = row (replicate 32 9) zeros (codes "1")

abbrev input : ChainInput
input = record { rows = first_row ∷ second_row ∷ [] }

abbrev forged : ChainInput
forged = record { rows = forged_row ∷ second_row ∷ [] }

abbrev expected : ExpectedChain
expected = record {
  chain_id = codes "c";
  first_sequence = pos 1;
  last_sequence = pos 2;
  row_count = pos 2;
  previous_hash = zeros;
  head_hash = row_domain_hash by_length second_row;
  bounds = none;
}

abbrev facts : ChainFacts
facts = record {
  chain_id = codes "c";
  row_count = pos 2;
  first_sequence = pos 1;
  last_sequence = pos 2;
  previous_hash = zeros;
  head_hash = row_domain_hash by_length second_row;
}

input_accepted : check_chain by_length input expected ≡ ok facts
unfolding check_chain base64url_encode index decode_loop decode_char ◌+ℤ◌
input_accepted = refl

forged_accepted : check_chain by_length forged expected ≡ ok facts
unfolding check_chain base64url_encode index decode_loop decode_char ◌+ℤ◌
forged_accepted = refl

swapped_refused :
    check_chain by_length (record { rows = second_row ∷ first_row ∷ [] }) expected ≡ invalid
unfolding check_chain base64url_encode index decode_loop decode_char ◌+ℤ◌
swapped_refused = refl

check_chain-tamper_evident_example : (input.rows ≡ forged.rows) ⊎ Collision by_length
check_chain-tamper_evident_example =
    check_chain-tamper_evident by_length expected input forged facts facts input_accepted
      forged_accepted

check_chain-IsCounted_example : IsCounted by_length input expected facts
check_chain-IsCounted_example = check_chain-IsCounted by_length expected input facts input_accepted

check_chain-IsCanonical_example : All (IsCanonical maximum) (first_row ∷ second_row ∷ [])
check_chain-IsCanonical_example =
    check_chain-IsCanonical by_length expected input facts input_accepted

abbrev start : ExpectedAnchor
start = record {
  anchor_id = codes "s";
  anchored_at = pos 10;
  chain_hash = zeros;
  chain_id = codes "c";
  key_fingerprint = codes "f1";
  key_id = codes "k1";
  sequence = pos 1;
  bounds = none;
}

abbrev rotation : ExpectedKeyTransition
rotation = record {
  chain_id = codes "c";
  current_key_fingerprint = codes "f1";
  current_key_id = codes "k1";
  effective_at = pos 11;
  next_key_fingerprint = codes "f2";
  next_key_id = codes "k2";
  transition_id = codes "t";
  bounds = none;
}

abbrev end_anchor : ExpectedAnchor
end_anchor = record start {
  anchored_at = pos 11;
  key_fingerprint = codes "f2";
  key_id = codes "k2";
}

path_accepted : key_path_ok start (rotation ∷ []) end_anchor ≡ ok tt
unfolding key_path_ok
path_accepted = refl

key_path_ok_iff_example :
    (key_path_ok start (rotation ∷ []) end_anchor ≡ ok tt) ↔ IsPath start (rotation ∷ []) end_anchor
key_path_ok_iff_example = key_path_ok_iff start (rotation ∷ []) end_anchor

-- The first row is what its entry becomes.
first_entry :
    encode_consumption_entry by_length
      (record {
        chain_id = codes "c";
        commitment = replicate 32 1;
        previous_hash = zeros;
        sequence = pos 1;
      })
      maximum
    ≡ ok (first_row, row_domain_hash by_length first_row)
unfolding encode_consumption_entry index
first_entry = refl
