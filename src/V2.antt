-- ===== src/V2.antt =====
-- sdks/rust/src/v2.rs, the successor of v1.rs with ranges in its selectors: its grants, proofs and envelopes. Its code is
-- that of v1.rs with other constants and callees, less the loopback profile.
use bounded_authority_protoc.Base.{List, [], ◌∷◌, ◌++◌, Bytes, codes, Result, Option}
use bounded_authority_protoc.Bounds.{Bounds}
use bounded_authority_protoc.Crypto.{Crypto}
use bounded_authority_protoc.Json.Value.{Float64, Json}
use bounded_authority_protoc.Major.{major2}
use bounded_authority_protoc.V1.Grant.{
  TrustedIssuer, ExpectedGrant, KeyLocator, GrantPayload, GrantDecoded, GrantFacts, DecodedGrant,
}
use bounded_authority_protoc.V1.Grant
use bounded_authority_protoc.V1.Proof.{ProofPayload, ProofDecoded, DecodedProof, standard}
use bounded_authority_protoc.V1.Proof
use bounded_authority_protoc.V1.Envelope.{ExpectedRequest, Credentials, EnvelopeFacts}
use bounded_authority_protoc.V1.Envelope
use bounded_authority_protoc.V1.Claims
use bounded_authority_protoc.V1.Chain.{Domain, ChainInput, ExpectedChain, ChainFacts, ParsedRow}
use bounded_authority_protoc.V1.Chain
use bounded_authority_protoc.V1.Producer.{GrantInput, ProducedSigningInput}
use bounded_authority_protoc.V1.Producer
use bounded_authority_protoc.V1.Chain.Entry.{ConsumptionEntry}
use bounded_authority_protoc.V1.Chain.Entry
use bounded_authority_protoc.Base.{List}
use bounded_authority_protoc.Base.Int.{ℤ, pos}
use bounded_authority_protoc.V1.KeyPath.{ExpectedAnchor, ExpectedKeyTransition}
use bounded_authority_protoc.V1.Anchors.{AnchorPayload, TransitionPayload}
use bounded_authority_protoc.V1.Anchors.Historical.{HistoricalPublicKey, DecodedAnchor, AnchorFacts}
use bounded_authority_protoc.V1.Anchors.Historical
use bounded_authority_protoc.V1.Anchors.Transition.{DecodedTransition, KeyTransitionFacts}
use bounded_authority_protoc.V1.Anchors.Transition
use bounded_authority_protoc.V1.Anchors.Chronology

module _ ⦃fl : Float64⦄ ⦃cr : Crypto⦄ where
  abbrev pub validate_operations : Option Json → Bounds → Result (Unit {0})
  validate_operations json bounds = Claims.validate_operations major2 json bounds

  abbrev pub validate_grant_header : Json → Bounds → Result Bytes
  validate_grant_header json bounds = Grant.validate_grant_header major2 json bounds

  abbrev pub validate_grant_payload : Json → Bounds → Result GrantPayload
  validate_grant_payload json bounds = Grant.validate_grant_payload major2 json bounds

  abbrev pub untrusted_key_locator : Bytes → Bounds → Result KeyLocator
  untrusted_key_locator compact bounds = Grant.untrusted_key_locator major2 compact bounds

  abbrev pub decode_grant_parts : Bytes → Bounds → Result DecodedGrant
  decode_grant_parts compact bounds = Grant.decode_grant_parts major2 compact bounds

  abbrev pub decode_grant : Bytes → Bounds → Result GrantDecoded
  decode_grant compact bounds = Grant.decode_grant major2 compact bounds

  abbrev pub verify_grant : Bytes → TrustedIssuer → ExpectedGrant → Result GrantFacts
  verify_grant compact issuer expected = Grant.verify_grant major2 compact issuer expected

  abbrev pub validate_proof_header : Json → Bounds → Result Bytes
  validate_proof_header json bounds = Proof.validate_proof_header_for major2 json bounds standard

  abbrev pub validate_proof_payload : Json → Bounds → Result ProofPayload
  validate_proof_payload json bounds = Proof.validate_proof_payload_for major2 json bounds standard

  abbrev pub decode_proof_parts : Bytes → Bounds → Result DecodedProof
  decode_proof_parts compact bounds = Proof.decode_proof_parts_for major2 compact bounds standard

  abbrev pub decode_proof : Bytes → Bounds → Result ProofDecoded
  decode_proof compact bounds = Proof.decode_proof major2 compact bounds

  abbrev pub check_envelope : Credentials → ExpectedRequest → Result EnvelopeFacts
  check_envelope credentials expected = Envelope.check_envelope major2 credentials expected

  abbrev pub validate_anchor_header : Json → Bytes → Bounds → Result Bytes
  validate_anchor_header header header_bytes bounds =
      Historical.validate_anchor_header major2 header header_bytes bounds

  abbrev pub validate_anchor_payload : Json → Bytes → Bounds → Result AnchorPayload
  validate_anchor_payload payload payload_bytes bounds =
      Historical.validate_anchor_payload major2 payload payload_bytes bounds

  abbrev pub decode_anchor_parts : Bytes → Bounds → Result DecodedAnchor
  decode_anchor_parts compact bounds = Historical.decode_anchor_parts major2 compact bounds

  abbrev pub verify_historical_anchor :
      Bytes → HistoricalPublicKey → ExpectedAnchor → Result AnchorFacts
  verify_historical_anchor compact key expected =
      Historical.verify_historical_anchor major2 compact key expected

  abbrev pub validate_transition_header : Json → Bytes → Bounds → Result Bytes
  validate_transition_header header header_bytes bounds =
      Transition.validate_transition_header major2 header header_bytes bounds

  abbrev pub validate_transition_payload : Json → Bytes → Bounds → Result TransitionPayload
  validate_transition_payload payload payload_bytes bounds =
      Transition.validate_transition_payload major2 payload payload_bytes bounds

  abbrev pub decode_transition_parts : Bytes → Bounds → Result DecodedTransition
  decode_transition_parts compact bounds = Transition.decode_transition_parts major2 compact bounds

  abbrev pub verify_key_transition :
      Bytes
      → HistoricalPublicKey
      → HistoricalPublicKey
      → ExpectedKeyTransition
      → Result KeyTransitionFacts
  verify_key_transition compact current next expected =
      Transition.verify_key_transition major2 compact current next expected

  abbrev pub check_export_chronology : ℤ → ℤ → List ℤ → List HistoricalPublicKey → Result (Unit {0})
  check_export_chronology start_at end_at effective_times keys =
      Chronology.check_export_chronology major2 start_at end_at effective_times keys

abbrev pub chain_digest_prefix : Bytes
chain_digest_prefix = codes "BAP2-CHAIN" ++ (0 ∷ [])

module _ ⦃cr : Crypto⦄ where
  abbrev pub chain2 : Domain
  chain2 = record { sha256 = cr.sha256; digest_prefix = chain_digest_prefix; version = pos 2 }

  abbrev pub row_domain_hash : Bytes → Bytes
  row_domain_hash canonical_row = Chain.row_domain_hash chain2 canonical_row

module _ ⦃fl : Float64⦄ ⦃cr : Crypto⦄ where
  abbrev pub parse_row : Bytes → Bounds → Result ParsedRow
  parse_row row bounds = Chain.parse_row chain2 row bounds

  abbrev pub check_chain : ChainInput → ExpectedChain → Result ChainFacts
  check_chain input expected = Chain.check_chain chain2 input expected

  abbrev pub encode_consumption_entry : ConsumptionEntry → Bounds → Result (Bytes × Bytes)
  encode_consumption_entry entry bounds = Entry.encode_consumption_entry chain2 entry bounds

  abbrev pub grant_signing_input : GrantInput → Bounds → Result ProducedSigningInput
  grant_signing_input grant bounds = Producer.grant_signing_input major2 grant bounds
