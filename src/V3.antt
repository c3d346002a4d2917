-- ===== src/V3.antt =====
-- sdks/rust/src/v3.rs, the contract major of P-256 keys: its keys as JSON Web Keys, and its grants, proofs and envelopes.
use bounded_authority_protoc.Base.{
  true, not, Option, [], ◌∷◌, ◌++◌, ◌==◌, length, take, drop, Bytes, codes, equal, Result, ok,
  ◌>>=◌, ◌>>◌, refuse,
}
use bounded_authority_protoc.Base.Int.{pos, ℤ}
use bounded_authority_protoc.Base64url.{base64url_encode, base64url_decode}
use bounded_authority_protoc.Bounds.{Bounds, maximum}
use bounded_authority_protoc.Crypto.{Crypto}
use bounded_authority_protoc.Digest.{request_digest_v3}
use bounded_authority_protoc.Es256.{P256, validate_point, verify}
use bounded_authority_protoc.Json.Value.{Float64, Json, as_object}
use bounded_authority_protoc.Json.Closed.{unset, collect_closed, take_string, require_text}
use bounded_authority_protoc.Json.Decode.{json_decode}
use bounded_authority_protoc.Major.{Major}
use bounded_authority_protoc.Selector.Evaluate.{validate_v2, evaluate_v2}
use bounded_authority_protoc.V1.Grant.{
  TrustedIssuer, ExpectedGrant, KeyLocator, GrantPayload, GrantDecoded, GrantFacts, DecodedGrant,
}
use bounded_authority_protoc.V1.Grant
use bounded_authority_protoc.V1.Proof.{ProofPayload, ProofDecoded, DecodedProof, standard}
use bounded_authority_protoc.V1.Proof
use bounded_authority_protoc.V1.Envelope.{ExpectedRequest, Credentials, EnvelopeFacts}
use bounded_authority_protoc.V1.Envelope
use bounded_authority_protoc.V1.Claims
use bounded_authority_protoc.V1.Chain.{Domain, ChainInput, ExpectedChain, ChainFacts, ParsedRow}
use bounded_authority_protoc.V1.Chain
use bounded_authority_protoc.V1.Producer.{GrantInput, ProducedSigningInput}
use bounded_authority_protoc.V1.Producer
use bounded_authority_protoc.V1.Chain.Entry.{ConsumptionEntry}
use bounded_authority_protoc.V1.Chain.Entry
use bounded_authority_protoc.Base.{List}
use bounded_authority_protoc.V1.KeyPath.{ExpectedAnchor, ExpectedKeyTransition}
use bounded_authority_protoc.V1.Anchors.{AnchorPayload, TransitionPayload}
use bounded_authority_protoc.V1.Anchors.Historical.{HistoricalPublicKey, DecodedAnchor, AnchorFacts}
use bounded_authority_protoc.V1.Anchors.Historical
use bounded_authority_protoc.V1.Anchors.Transition.{DecodedTransition, KeyTransitionFacts}
use bounded_authority_protoc.V1.Anchors.Transition
use bounded_authority_protoc.V1.Anchors.Chronology

abbrev pub crv_nist : Bytes
crv_nist = codes "P-256"

abbrev pub kty_ec : Bytes
kty_ec = codes "EC"

module _ ⦃curve : P256⦄ where
  unfoldable pub jwk_encode_public : Bytes → Result Bytes
  unfolding validate_point base64url_encode
  jwk_encode_public public_key = do
    validate_point public_key
    let x = base64url_encode (take 32 (drop 1 public_key))
    let y = base64url_encode (take 32 (drop 33 public_key))
    ok (
        codes "{\"crv\":\""
        ++ (crv_nist
            ++ (codes "\",\"kty\":\""
                ++ (kty_ec
                    ++ (codes "\",\"x\":\""
                        ++ (x ++ (codes "\",\"y\":\"" ++ (y ++ codes "\"}"))))))))

  abbrev pub thumbprint_preimage : Bytes → Result Bytes
  thumbprint_preimage = jwk_encode_public

module _ ⦃cr : Crypto⦄ ⦃curve : P256⦄ where
  unfoldable pub thumbprint_raw : Bytes → Result Bytes
  unfolding jwk_encode_public
  thumbprint_raw public_key = do preimage ← thumbprint_preimage public_key; ok (cr.sha256 preimage)

  unfoldable pub thumbprint : Bytes → Result Bytes
  unfolding thumbprint_raw base64url_encode
  thumbprint public_key = do raw ← thumbprint_raw public_key; ok (base64url_encode raw)

module _ ⦃fl : Float64⦄ ⦃curve : P256⦄ where
  unfoldable pub jwk_decode_public : Bytes → Result Bytes
  unfolding json_decode collect_closed base64url_decode validate_point equal
  jwk_decode_public text = do
    value ← json_decode maximum text
    members ← as_object value
    vars ← collect_closed (codes "crv" ∷ codes "kty" ∷ codes "x" ∷ codes "y" ∷ []) members unset
    require_text (vars (codes "crv")) crv_nist
    require_text (vars (codes "kty")) kty_ec
    x_str ← take_string (vars (codes "x"))
    y_str ← take_string (vars (codes "y"))
    x_bytes ← base64url_decode x_str
    refuse (not (length x_bytes == 32))
    y_bytes ← base64url_decode y_str
    refuse (not (length y_bytes == 32))
    let public_key = 0x04 ∷ (x_bytes ++ y_bytes)
    validate_point public_key
    ok public_key

module _ ⦃fl : Float64⦄ ⦃cr : Crypto⦄ ⦃curve : P256⦄ where
  abbrev pub major3 : Major
  major3 = record {
    version = pos 3;
    alg = codes "ES256";
    selector_validate = validate_v2;
    selector_evaluate = evaluate_v2;
    request_digest = request_digest_v3;
    verify = verify;
    jwk_decode_public = jwk_decode_public;
    thumbprint_raw = thumbprint_raw;
    genesis_gate = true;
  }

module _ ⦃fl : Float64⦄ ⦃cr : Crypto⦄ ⦃curve : P256⦄ where
  abbrev pub validate_operations : Option Json → Bounds → Result (Unit {0})
  validate_operations json bounds = Claims.validate_operations major3 json bounds

  abbrev pub validate_grant_header : Json → Bounds → Result Bytes
  validate_grant_header json bounds = Grant.validate_grant_header major3 json bounds

  abbrev pub validate_grant_payload : Json → Bounds → Result GrantPayload
  validate_grant_payload json bounds = Grant.validate_grant_payload major3 json bounds

  abbrev pub untrusted_key_locator : Bytes → Bounds → Result KeyLocator
  untrusted_key_locator compact bounds = Grant.untrusted_key_locator major3 compact bounds

  abbrev pub decode_grant_parts : Bytes → Bounds → Result DecodedGrant
  decode_grant_parts compact bounds = Grant.decode_grant_parts major3 compact bounds

  abbrev pub decode_grant : Bytes → Bounds → Result GrantDecoded
  decode_grant compact bounds = Grant.decode_grant major3 compact bounds

  abbrev pub verify_grant : Bytes → TrustedIssuer → ExpectedGrant → Result GrantFacts
  verify_grant compact issuer expected = Grant.verify_grant major3 compact issuer expected

  abbrev pub validate_proof_header : Json → Bounds → Result Bytes
  validate_proof_header json bounds = Proof.validate_proof_header_for major3 json bounds standard

  abbrev pub validate_proof_payload : Json → Bounds → Result ProofPayload
  validate_proof_payload json bounds = Proof.validate_proof_payload_for major3 json bounds standard

  abbrev pub decode_proof_parts : Bytes → Bounds → Result DecodedProof
  decode_proof_parts compact bounds = Proof.decode_proof_parts_for major3 compact bounds standard

  abbrev pub decode_proof : Bytes → Bounds → Result ProofDecoded
  decode_proof compact bounds = Proof.decode_proof major3 compact bounds

  abbrev pub check_envelope : Credentials → ExpectedRequest → Result EnvelopeFacts
  check_envelope credentials expected = Envelope.check_envelope major3 credentials expected

  abbrev pub validate_anchor_header : Json → Bytes → Bounds → Result Bytes
  validate_anchor_header header header_bytes bounds =
      Historical.validate_anchor_header major3 header header_bytes bounds

  abbrev pub validate_anchor_payload : Json → Bytes → Bounds → Result AnchorPayload
  validate_anchor_payload payload payload_bytes bounds =
      Historical.validate_anchor_payload major3 payload payload_bytes bounds

  abbrev pub decode_anchor_parts : Bytes → Bounds → Result DecodedAnchor
  decode_anchor_parts compact bounds = Historical.decode_anchor_parts major3 compact bounds

  abbrev pub verify_historical_anchor :
      Bytes → HistoricalPublicKey → ExpectedAnchor → Result AnchorFacts
  verify_historical_anchor compact key expected =
      Historical.verify_historical_anchor major3 compact key expected

  abbrev pub validate_transition_header : Json → Bytes → Bounds → Result Bytes
  validate_transition_header header header_bytes bounds =
      Transition.validate_transition_header major3 header header_bytes bounds

  abbrev pub validate_transition_payload : Json → Bytes → Bounds → Result TransitionPayload
  validate_transition_payload payload payload_bytes bounds =
      Transition.validate_transition_payload major3 payload payload_bytes bounds

  abbrev pub decode_transition_parts : Bytes → Bounds → Result DecodedTransition
  decode_transition_parts compact bounds = Transition.decode_transition_parts major3 compact bounds

  abbrev pub verify_key_transition :
      Bytes
      → HistoricalPublicKey
      → HistoricalPublicKey
      → ExpectedKeyTransition
      → Result KeyTransitionFacts
  verify_key_transition compact current next expected =
      Transition.verify_key_transition major3 compact current next expected

  abbrev pub check_export_chronology : ℤ → ℤ → List ℤ → List HistoricalPublicKey → Result (Unit {0})
  check_export_chronology start_at end_at effective_times keys =
      Chronology.check_export_chronology major3 start_at end_at effective_times keys

abbrev pub chain_digest_prefix : Bytes
chain_digest_prefix = codes "BAP3-CHAIN" ++ (0 ∷ [])

module _ ⦃cr : Crypto⦄ where
  abbrev pub chain3 : Domain
  chain3 = record { sha256 = cr.sha256; digest_prefix = chain_digest_prefix; version = pos 3 }

  abbrev pub row_domain_hash : Bytes → Bytes
  row_domain_hash canonical_row = Chain.row_domain_hash chain3 canonical_row

module _ ⦃fl : Float64⦄ ⦃cr : Crypto⦄ where
  abbrev pub parse_row : Bytes → Bounds → Result ParsedRow
  parse_row row bounds = Chain.parse_row chain3 row bounds

  abbrev pub check_chain : ChainInput → ExpectedChain → Result ChainFacts
  check_chain input expected = Chain.check_chain chain3 input expected

  abbrev pub encode_consumption_entry : ConsumptionEntry → Bounds → Result (Bytes × Bytes)
  encode_consumption_entry entry bounds = Entry.encode_consumption_entry chain3 entry bounds

module _ ⦃fl : Float64⦄ ⦃cr : Crypto⦄ ⦃curve : P256⦄ where
  abbrev pub grant_signing_input : GrantInput → Bounds → Result ProducedSigningInput
  grant_signing_input grant bounds = Producer.grant_signing_input major3 grant bounds
