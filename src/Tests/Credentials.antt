-- ===== src/Tests/Credentials.antt =====
-- The properties of grants, proofs and envelopes at concrete inputs.
use bounded_authority_protoc.V1.Segments.{audience_matches}
use bounded_authority_protoc.Ed25519.{verify}
use bounded_authority_protoc.Selector.Lookup.{member_str, recognized_member_set}
use bounded_authority_protoc.Selector.Evaluate.{validate, validate_kind, eval_kind, evaluate}
use bounded_authority_protoc.Base.{
  ◌%◌, ◌≡◌, ◌⊎◌, equal, refl, true, none, [], ◌∷◌, ◌++◌, length, replicate, Bytes, codes, ok,
  invalid, arith,
}
use bounded_authority_protoc.Base.Int.{pos, ◌+ℤ◌}
use bounded_authority_protoc.Base64url.{
  base64url_encode, decode_char, decode_loop, index, base64url_decode,
}
use bounded_authority_protoc.Bounds.{maximum}
use bounded_authority_protoc.Bounds.Tightening.{maximum-IsTight}
use bounded_authority_protoc.Crypto.{Crypto}
use bounded_authority_protoc.Digest.{request_digest_with}
use bounded_authority_protoc.Jwk.{encode_unchecked, thumbprint_raw, jwk_decode_public}
use bounded_authority_protoc.Json.Value.{
  Json, null, int, string, array, object, no_items, item, no_members, member,
}
use bounded_authority_protoc.Major.{major1}
use bounded_authority_protoc.V1.Grant.{
  TrustedIssuer, ExpectedGrant, GrantFacts, GrantDecoded, decode_grant, verify_grant,
}
use bounded_authority_protoc.V1.Grant.Verified.{IsVerified, verify_grant-IsVerified}
use bounded_authority_protoc.V1.Envelope.Acceptance.{IsAdmissible, check_envelope_for-accepts}
use bounded_authority_protoc.V1.Envelope.{
  ExpectedRequest, Credentials, EnvelopeFacts, not_required, check_envelope_for, recomputed_request,
  extract_operations, find_named,
}
use bounded_authority_protoc.V1.Proof.{standard, normalize_for}
use bounded_authority_protoc.V1.Grant.{untrusted_key_locator}
use bounded_authority_protoc.V1.Grant.Locator.{untrusted_key_locator-decode_grant}
use bounded_authority_protoc.V1.Grant.Versions.{decode_grant-same_version}
use bounded_authority_protoc.V1.Envelope.Bound.{IsBound, check_envelope_for-IsBound}
use bounded_authority_protoc.V1.Envelope.Replay.{
  SameRequest, HashCollision, check_envelope_for-SameRequest,
}
use bounded_authority_protoc.V1.Grant.{GrantPayload, DecodedGrant, decode_grant_parts}
use bounded_authority_protoc.V1.Grant.Acceptance.{IsAcceptable, verify_grant-accepts}
use bounded_authority_protoc.V1.Proof.{DecodedProof, decode_proof_parts_for}
use bounded_authority_protoc.V1.Proof.Separation.{decode_proof_parts_for-same_profile}
use bounded_authority_protoc.V1.Proof.Widths.{HasWidths, decode_proof_parts_for-HasWidths}
use bounded_authority_protoc.Tests.{no_floats}

-- A hash that tells lengths apart, and a signature for every message.
instance abbrev pub toy : Crypto
toy = record {
  sha256 = λ s. length s % 256 ∷ replicate 31 7;
  is_point = λ _. true;
  verifies = λ _ _ _. true;
}

abbrev pub issuer_key : Bytes
issuer_key = replicate 32 3

abbrev pub holder_key : Bytes
holder_key = replicate 32 5

abbrev holder_thumbprint : Bytes
holder_thumbprint = toy.sha256 (encode_unchecked holder_key)

abbrev pub signature : Bytes
signature = replicate 32 3 ++ replicate 32 1

abbrev pub compact : Bytes → Bytes → Bytes
compact header payload =
    base64url_encode header
    ++ (b'.' ∷ (base64url_encode payload ++ (b'.' ∷ base64url_encode signature)))

abbrev grant_payload : Bytes
grant_payload =
    codes "{\"aud\":\"a\",\"cnf\":{\"jkt\":\""
    ++ (base64url_encode holder_thumbprint
        ++ codes
            "\"},\"exp\":200,\"iat\":100,\"iss\":\"i\",\"jti\":\"g\",\"nbf\":100,\"operations\":[{\"name\":\"op\",\"selectors\":[{\"kind\":\"all\"}]}],\"v\":1}")

abbrev pub grant : Bytes
grant = compact (codes "{\"alg\":\"EdDSA\",\"kid\":\"k\",\"typ\":\"ba+cap\"}") grant_payload

abbrev issuer : TrustedIssuer
issuer = record { key_id = codes "k"; public_key = issuer_key }

abbrev expected : ExpectedGrant
expected = record {
  issuer = codes "i";
  audience = codes "a";
  evaluation_time = pos 150;
  skew = 30;
  bounds = maximum;
}

abbrev view : GrantDecoded
view = record {
  key_id = codes "k";
  version = pos 1;
  issuer = codes "i";
  grant_id = codes "g";
  audiences = codes "a" ∷ [];
  holder_thumbprint = holder_thumbprint;
  issued_at = pos 100;
  not_before = pos 100;
  expires_at = pos 200;
}

abbrev facts : GrantFacts
facts = record {
  version = pos 1;
  issuer = codes "i";
  grant_id = codes "g";
  issuer_key_fingerprint = toy.sha256 (encode_unchecked issuer_key);
  holder_thumbprint = holder_thumbprint;
  matched_audience = codes "a";
  iat = pos 100;
  nbf = pos 100;
  exp = pos 200;
}

grant_decodes : decode_grant major1 grant maximum ≡ ok view
unfolding decode_grant base64url_encode index encode_unchecked decode_loop decode_char validate
    member_str recognized_member_set validate_kind
grant_decodes = refl

grant_verifies : verify_grant major1 grant issuer expected ≡ ok facts
unfolding verify_grant base64url_encode index encode_unchecked decode_loop decode_char validate
    member_str recognized_member_set validate_kind verify ◌+ℤ◌ thumbprint_raw
grant_verifies = refl

abbrev request_hash : Bytes
request_hash = 28 ∷ replicate 31 7

abbrev uuid : Bytes
uuid = codes "00000000-0000-4000-8000-000000000000"

abbrev proof_payload : Bytes
proof_payload =
    codes "{\"ath\":\""
    ++ (base64url_encode (toy.sha256 grant)
        ++ (codes "\",\"ba_inv\":\""
            ++ (uuid
                ++ (codes "\",\"ba_op\":\"op\",\"ba_req\":\""
                    ++ (base64url_encode request_hash
                        ++ codes
                            "\",\"htm\":\"GET\",\"htu\":\"https://a/\",\"iat\":140,\"jti\":\"p\",\"v\":1}")))))

abbrev proof : Bytes
proof =
    compact
      (codes "{\"alg\":\"EdDSA\",\"jwk\":"
        ++ (encode_unchecked holder_key ++ codes ",\"typ\":\"dpop+jwt\"}"))
      proof_payload

abbrev credentials : Credentials
credentials = record { grant = grant; proof = proof }

abbrev request : ExpectedRequest
request = record {
  issuer = codes "i";
  audience = codes "a";
  evaluation_time = pos 150;
  skew = 30;
  bounds = maximum;
  method = codes "GET";
  target_uri = codes "https://a/";
  invocation_id = uuid;
  operation = codes "op";
  cast_arguments = null;
  proof_max_age = 60;
  nonce_mode = not_required;
  trusted_issuer = issuer;
}

abbrev envelope_facts : EnvelopeFacts
envelope_facts = record {
  grant = facts;
  proof_id = codes "p";
  invocation_id = uuid;
  operation = codes "op";
  normalized_uri = codes "https://a/";
  grant_hash = toy.sha256 grant;
  request_hash = request_hash;
  proof_iat = pos 140;
}

envelope_accepted : check_envelope_for major1 credentials request standard ≡ ok envelope_facts
unfolding check_envelope_for base64url_encode index encode_unchecked decode_loop decode_char
    validate member_str recognized_member_set validate_kind verify ◌+ℤ◌ thumbprint_raw
    jwk_decode_public request_digest_with evaluate eval_kind
envelope_accepted = refl

-- An earlier evaluation, before the grant begins by more than the skew.
grant_too_early :
    verify_grant major1 grant issuer (record expected { evaluation_time = pos 69 }) ≡ invalid
unfolding verify_grant base64url_encode index encode_unchecked decode_loop decode_char validate
    member_str recognized_member_set validate_kind verify ◌+ℤ◌
grant_too_early = refl

verify_grant-IsVerified_example : IsVerified major1 grant issuer expected facts
verify_grant-IsVerified_example =
    verify_grant-IsVerified major1 grant issuer expected facts maximum-IsTight
      (omega arith, omega arith) grant_verifies

check_envelope_for-IsBound_example : IsBound major1 credentials request standard envelope_facts
check_envelope_for-IsBound_example =
    check_envelope_for-IsBound major1 credentials request standard envelope_facts maximum-IsTight
      (omega arith, omega arith) envelope_accepted

check_envelope_for-SameRequest_example :
    (standard ≡ standard)
    × SameRequest major1 request request
    × ((grant ≡ grant) ⊎ HashCollision toy.sha256)
check_envelope_for-SameRequest_example =
    check_envelope_for-SameRequest major1 proof maximum grant grant request request standard
      standard envelope_facts envelope_facts refl refl envelope_accepted envelope_accepted

untrusted_key_locator-decode_grant_example :
    untrusted_key_locator major1 grant maximum ≡ ok (record { key_id = codes "k" })
untrusted_key_locator-decode_grant_example =
    untrusted_key_locator-decode_grant major1 grant maximum view grant_decodes

decode_grant-same_version_example : pos 1 ≡ pos 1
decode_grant-same_version_example =
    decode_grant-same_version grant maximum major1 major1 view view grant_decodes grant_decodes

abbrev payload : GrantPayload
payload = record {
  version = pos 1;
  issuer = codes "i";
  grant_id = codes "g";
  audiences = codes "a" ∷ [];
  holder_thumbprint = holder_thumbprint;
  issued_at = pos 100;
  not_before = pos 100;
  expires_at = pos 200;
}

abbrev one_operation : Json
one_operation = object (
    member (codes "name") (string (codes "op")) (
      member (codes "selectors")
        (array (item (object (member (codes "kind") (string (codes "all")) no_members)) no_items))
        no_members))

abbrev parts : DecodedGrant
parts = record {
  protected_seg = base64url_encode (codes "{\"alg\":\"EdDSA\",\"kid\":\"k\",\"typ\":\"ba+cap\"}");
  payload_seg = base64url_encode grant_payload;
  signature_seg = base64url_encode signature;
  key_id = codes "k";
  payload = payload;
  payload_json = object (
      member (codes "aud") (string (codes "a")) (
        member (codes "cnf")
          (object (member (codes "jkt") (string (base64url_encode holder_thumbprint)) no_members))
          (member (codes "exp") (int (pos 200)) (
            member (codes "iat") (int (pos 100)) (
              member (codes "iss") (string (codes "i")) (
                member (codes "jti") (string (codes "g")) (
                  member (codes "nbf") (int (pos 100)) (
                    member (codes "operations") (array (item one_operation no_items))
                      (member (codes "v") (int (pos 1)) no_members)))))))));
}

parts_decoded : decode_grant_parts major1 grant maximum ≡ ok parts
unfolding decode_grant_parts base64url_encode index encode_unchecked decode_loop decode_char
    validate member_str recognized_member_set validate_kind
parts_decoded = refl

acceptable :
    IsAcceptable major1 grant issuer expected parts (toy.sha256 (encode_unchecked issuer_key))
unfolding base64url_decode base64url_encode decode_loop decode_char index equal verify
    audience_matches ◌+ℤ◌ thumbprint_raw
acceptable = record {
  signature = signature;
  signature_decoded = refl;
  signed = refl;
  skew_fits = omega arith;
  same_key = refl;
  same_issuer = refl;
  for_audience = refl;
  window = record { issued = omega arith; begun = omega arith; unexpired = omega arith };
  is_fingerprint = refl;
}

verify_grant-accepts_example : verify_grant major1 grant issuer expected ≡ ok facts
verify_grant-accepts_example =
    verify_grant-accepts major1 grant issuer expected parts
      (toy.sha256 (encode_unchecked issuer_key)) maximum-IsTight (omega arith, omega arith)
      ((omega arith, omega arith), (omega arith, omega arith), omega arith) parts_decoded acceptable

abbrev proof_parts : DecodedProof
proof_parts = record {
  protected_seg = base64url_encode (
      codes "{\"alg\":\"EdDSA\",\"jwk\":"
      ++ (encode_unchecked holder_key ++ codes ",\"typ\":\"dpop+jwt\"}"));
  payload_seg = base64url_encode proof_payload;
  signature_seg = base64url_encode signature;
  holder_public_key = holder_key;
  payload = record {
    proof_id = codes "p";
    method = codes "GET";
    target_uri = codes "https://a/";
    invocation_id = uuid;
    operation = codes "op";
    grant_hash = toy.sha256 grant;
    request_hash = request_hash;
    issued_at = pos 140;
    nonce = none;
  };
}

proof_decodes : decode_proof_parts_for major1 proof maximum standard ≡ ok proof_parts
unfolding decode_proof_parts_for base64url_encode encode_unchecked index decode_loop decode_char
    jwk_decode_public
proof_decodes = refl

decode_proof_parts_for-same_profile_example : standard ≡ standard
decode_proof_parts_for-same_profile_example =
    decode_proof_parts_for-same_profile major1 proof maximum standard standard proof_parts
      proof_parts proof_decodes proof_decodes

decode_proof_parts_for-HasWidths_example : HasWidths proof_parts.payload
decode_proof_parts_for-HasWidths_example =
    decode_proof_parts_for-HasWidths major1 maximum standard proof proof_parts proof_decodes

abbrev all_selector : Json
all_selector = object (member (codes "kind") (string (codes "all")) no_members)

admissible : IsAdmissible major1 credentials request standard facts parts proof_parts
unfolding base64url_decode base64url_encode index encode_unchecked decode_loop decode_char equal
    verify ◌+ℤ◌ thumbprint_raw recomputed_request request_digest_with normalize_for
    extract_operations find_named evaluate validate member_str recognized_member_set validate_kind
    eval_kind
admissible = record {
  some_age = omega arith;
  age_fits = omega arith;
  nonce_asked = λ h. absurd (cc h);
  holder = refl;
  signature = signature;
  signature_decoded = refl;
  signed = refl;
  ath = refl;
  request = refl;
  same_method = refl;
  normalized = refl;
  same_uri = refl;
  same_invocation = refl;
  same_operation = refl;
  operations = (codes "op", all_selector ∷ []) ∷ [];
  granted = refl;
  selectors = all_selector ∷ [];
  matched = refl;
  hold = (refl, tt);
  recent = omega arith;
  begun = omega arith;
  nonce = refl;
}

check_envelope_for-accepts_example :
    check_envelope_for major1 credentials request standard ≡ ok envelope_facts
check_envelope_for-accepts_example =
    check_envelope_for-accepts major1 credentials request standard facts parts proof_parts
      maximum-IsTight (omega arith, omega arith) (omega arith, omega arith) grant_verifies
      parts_decoded proof_decodes admissible
