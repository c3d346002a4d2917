-- ===== src/Tests/Vouchers.antt =====
-- The properties of anchors, key transitions and the export's chronology at concrete inputs.
use bounded_authority_protoc.Ed25519.{verify}
use bounded_authority_protoc.Base.{
  ◌≡◌, ◌↔◌, refl, true, none, take, drop, [], ◌∷◌, ◌++◌, replicate, Bytes, codes, ok,
}
use bounded_authority_protoc.Base.Int.{pos}
use bounded_authority_protoc.Base64url.{base64url_encode, decode_char, decode_loop, index}
use bounded_authority_protoc.Crypto.{Crypto}
use bounded_authority_protoc.Jwk.{encode_unchecked, thumbprint_raw}
use bounded_authority_protoc.Major.{major1}
use bounded_authority_protoc.V1.Anchors.{bounded, unbounded}
use bounded_authority_protoc.V1.Anchors.Historical.{
  HistoricalPublicKey, AnchorFacts, verify_historical_anchor,
}
use bounded_authority_protoc.V1.Anchors.Historical.Vouched.{
  IsVouched, verify_historical_anchor-IsVouched,
}
use bounded_authority_protoc.V1.Anchors.Transition.{KeyTransitionFacts, verify_key_transition}
use bounded_authority_protoc.V1.Anchors.Transition.Passed.{IsPassed, verify_key_transition-IsPassed}
use bounded_authority_protoc.V1.Anchors.Chronology.{check_export_chronology}
use bounded_authority_protoc.V1.Anchors.Chronology.Ascending.{
  HaveDifferent, Ascending, check_export_chronology_iff,
}
use bounded_authority_protoc.V1.KeyPath.{ExpectedAnchor, ExpectedKeyTransition}
use bounded_authority_protoc.Tests.{no_floats}
use bounded_authority_protoc.Tests.Credentials.{toy, compact, issuer_key, holder_key}

abbrev first_print : Bytes
first_print = toy.sha256 (encode_unchecked issuer_key)

abbrev first_key : HistoricalPublicKey
first_key = record {
  key_id = codes "k";
  public_key = issuer_key;
  valid_from = pos 1;
  valid_before = bounded (pos 10);
}

abbrev anchor : Bytes
anchor = compact (codes "{\"alg\":\"EdDSA\",\"kid\":\"k\",\"typ\":\"ba+chain-anchor\"}") (
    codes "{\"anchor_id\":\"a\",\"anchored_at\":5,\"chain_hash\":\""
    ++ (base64url_encode (replicate 32 0)
        ++ (codes "\",\"chain_id\":\"c\",\"key_fingerprint\":\""
            ++ (base64url_encode first_print ++ codes "\",\"sequence\":0,\"v\":1}"))))

abbrev expected_anchor : ExpectedAnchor
expected_anchor = record {
  anchor_id = codes "a";
  anchored_at = pos 5;
  chain_hash = replicate 32 0;
  chain_id = codes "c";
  key_fingerprint = first_print;
  key_id = codes "k";
  sequence = pos 0;
  bounds = none;
}

abbrev anchor_facts : AnchorFacts
anchor_facts = record {
  anchor_id = codes "a";
  anchored_at = pos 5;
  chain_id = codes "c";
  sequence = pos 0;
  chain_hash = replicate 32 0;
  key_fingerprint = first_print;
  key_id = codes "k";
}

anchor_verifies : verify_historical_anchor major1 anchor first_key expected_anchor ≡ ok anchor_facts
unfolding verify_historical_anchor base64url_encode index encode_unchecked decode_loop decode_char
    thumbprint_raw verify
anchor_verifies = refl

verify_historical_anchor-IsVouched_example :
    IsVouched major1 anchor first_key expected_anchor anchor_facts
verify_historical_anchor-IsVouched_example =
    verify_historical_anchor-IsVouched major1 anchor first_key expected_anchor anchor_facts
      anchor_verifies

-- Of two keys, the second is of the other byte; the hash of the tests tells lengths alone apart, so that here the hash is
-- the last bytes.
abbrev tail_hash : Crypto
tail_hash = record {
  sha256 = λ s. take 32 (drop 33 s);
  is_point = λ _. true;
  verifies = λ _ _ _. true;
}

abbrev print : Bytes → Bytes
print key = tail_hash.sha256 (encode_unchecked key)

abbrev second_key : HistoricalPublicKey
second_key = record {
  key_id = codes "l";
  public_key = holder_key;
  valid_from = pos 4;
  valid_before = unbounded;
}

abbrev transition : Bytes
transition = compact (codes "{\"alg\":\"EdDSA\",\"kid\":\"k\",\"typ\":\"ba+key-transition\"}") (
    codes "{\"chain_id\":\"c\",\"effective_at\":6,\"from_key_fingerprint\":\""
    ++ (base64url_encode (print issuer_key)
        ++ (codes "\",\"to_key_fingerprint\":\""
            ++ (base64url_encode (print holder_key)
                ++ codes "\",\"to_key_id\":\"l\",\"transition_id\":\"t\",\"v\":1}"))))

abbrev expected_transition : ExpectedKeyTransition
expected_transition = record {
  chain_id = codes "c";
  current_key_fingerprint = print issuer_key;
  current_key_id = codes "k";
  effective_at = pos 6;
  next_key_fingerprint = print holder_key;
  next_key_id = codes "l";
  transition_id = codes "t";
  bounds = none;
}

abbrev transition_facts : KeyTransitionFacts
transition_facts = record {
  transition_id = codes "t";
  chain_id = codes "c";
  effective_at = pos 6;
  current_key_fingerprint = print issuer_key;
  current_key_id = codes "k";
  next_key_fingerprint = print holder_key;
  next_key_id = codes "l";
}

transition_verifies :
    verify_key_transition
      (major1 ⦃cr = tail_hash⦄)
      transition
      first_key
      second_key
      expected_transition
    ≡ ok transition_facts
unfolding verify_key_transition base64url_encode encode_unchecked index decode_loop decode_char
    thumbprint_raw verify
transition_verifies = refl

verify_key_transition-IsPassed_example :
    IsPassed
      (major1 ⦃cr = tail_hash⦄)
      transition
      first_key
      second_key
      expected_transition
      transition_facts
verify_key_transition-IsPassed_example =
    verify_key_transition-IsPassed (major1 ⦃cr = tail_hash⦄) transition first_key second_key
      expected_transition transition_facts transition_verifies

check_export_chronology_iff_example :
    (check_export_chronology
        (major1 ⦃cr = tail_hash⦄)
        (pos 5)
        (pos 9)
        (pos 6 ∷ [])
        (first_key ∷ second_key ∷ [])
      ≡ ok tt)
    ↔ (HaveDifferent (major1 ⦃cr = tail_hash⦄) (first_key ∷ second_key ∷ [])
        × Ascending (pos 5) (pos 6 ∷ []) (pos 9))
check_export_chronology_iff_example =
    check_export_chronology_iff (major1 ⦃cr = tail_hash⦄) (pos 5) (pos 9) (pos 6 ∷ [])
      (first_key ∷ second_key ∷ [])
