-- ===== src/V1/Envelope.antt =====
-- `check_envelope` and `check_local_loopback_http_envelope` of sdks/rust/src/v1.rs: a holder proof, bound to a grant and
-- to the request that the caller expects.
pub mod Bindings
pub mod Window
pub mod Bound
pub mod Replay
pub mod Acceptance
use bounded_authority_protoc.Base.{
  ℕ, Bool, true, false, not, ◌&&◌, ◌||◌, Option, none, some, List, [], ◌∷◌, ltb, ◌==◌,
  if◌then◌else◌, length, Bytes, codes, equal, Result, ok, invalid, ◌>>=◌, ◌>>◌, refuse, ok_or,
}
use bounded_authority_protoc.Base.Int.{ℤ, ltb_ℤ, checked_add, checked_sub, as_i64}
use bounded_authority_protoc.Base64url.{base64url_decode}
use bounded_authority_protoc.Bounds.{Bounds}
use bounded_authority_protoc.Crypto.{Crypto}
use bounded_authority_protoc.Json.Value.{Float64, JsonValue, Json, as_object, as_array, as_string}
use bounded_authority_protoc.Major.{Major}
use bounded_authority_protoc.V1.Grant.{
  TrustedIssuer, ExpectedGrant, GrantFacts, DecodedGrant, decode_grant_parts, verify_grant,
  saturating_add, saturating_sub,
}
use bounded_authority_protoc.V1.Proof.{
  ProofProfile, standard, local_loopback_http, is_loopback, ProofPayload, DecodedProof,
  decode_proof_parts_for, normalize_for,
}
use bounded_authority_protoc.V1.Segments.{signing_input_bytes}

pub data NonceMode : Type 0 where
  not_required : NonceMode
  required : Bytes → NonceMode

abbrev pub is_required : NonceMode → Bool
is_required not_required = false
is_required (required n) = true

pub record ExpectedRequest ⦃fl : Float64⦄ : Type 0 where
  pub issuer : Bytes
  pub audience : Bytes
  pub evaluation_time : ℤ
  pub skew : ℕ
  pub bounds : Bounds
  pub method : Bytes
  pub target_uri : Bytes
  pub invocation_id : Bytes
  pub operation : Bytes
  pub cast_arguments : Json
  pub proof_max_age : ℕ
  pub nonce_mode : NonceMode
  pub trusted_issuer : TrustedIssuer

pub record Credentials : Type 0 where
  pub grant : Bytes
  pub proof : Bytes

pub record EnvelopeFacts : Type 0 where
  pub grant : GrantFacts
  pub proof_id : Bytes
  pub invocation_id : Bytes
  pub operation : Bytes
  pub normalized_uri : Bytes
  pub grant_hash : Bytes
  pub request_hash : Bytes
  pub proof_iat : ℤ

-- `iter().find(|(k, _)| k == name)`: the first pair of the name.
unfoldable pub find_named {ℓ} : {A : Type ℓ} → Bytes → List (Bytes × A) → Result A
unfolding equal
find_named name [] = invalid
find_named name ((k, v) ∷ rest) = if equal k name then ok v else find_named name rest

module _ {F : Type 0} where
  unfoldable pub extract_operation : JsonValue F → Result (Bytes × List (JsonValue F))
  unfolding find_named
  extract_operation op = do
    omembers ← as_object op
    name_value ← find_named (codes "name") omembers
    name ← as_string name_value
    selectors_value ← find_named (codes "selectors") omembers
    selectors ← as_array selectors_value
    ok (name, selectors)

  unfoldable pub extract_each : List (JsonValue F) → Result (List (Bytes × List (JsonValue F)))
  unfolding extract_operation
  extract_each [] = ok []
  extract_each (op ∷ ops) = do pair ← extract_operation op; out ← extract_each ops; ok (pair ∷ out)

  unfoldable pub extract_operations : JsonValue F → Result (List (Bytes × List (JsonValue F)))
  unfolding find_named extract_each
  extract_operations payload = do
    members ← as_object payload
    ops_value ← find_named (codes "operations") members
    ops ← as_array ops_value
    extract_each ops

unfoldable pub check_nonce : NonceMode → Option Bytes → Result (Unit {0})
unfolding equal
check_nonce not_required none = ok tt
check_nonce not_required (some n) = invalid
check_nonce (required expected_nonce) (some n) = refuse (not (equal n expected_nonce))
check_nonce (required expected_nonce) none = invalid

module _ ⦃fl : Float64⦄ where
  -- The time window of the proof.
  unfoldable pub check_proof_window : ℤ → ExpectedRequest → Result (Unit {0})
  unfolding checked_add checked_sub
  check_proof_window issued_at expected = do
    let eval = expected.evaluation_time
    let skew = as_i64 expected.skew
    let lower = saturating_sub (saturating_sub eval (as_i64 expected.proof_max_age)) skew
    let upper = saturating_add eval skew
    refuse (ltb_ℤ issued_at lower || ltb_ℤ upper issued_at)

  abbrev pub expected_grant : ExpectedRequest → ExpectedGrant
  expected_grant expected = record {
    issuer = expected.issuer;
    audience = expected.audience;
    evaluation_time = expected.evaluation_time;
    skew = expected.skew;
    bounds = expected.bounds;
  }

module _ ⦃fl : Float64⦄ (m : Major) where
  unfoldable pub selectors_hold : List Json → Json → Bounds → Result (Unit {0})
  selectors_hold [] cast_arguments bounds = ok tt
  selectors_hold (selector_value ∷ rest) cast_arguments bounds = do
    holds ← m.selector_evaluate selector_value cast_arguments bounds
    refuse (not holds)
    selectors_hold rest cast_arguments bounds

  unfoldable pub recomputed_request : ExpectedRequest → Result Bytes
  unfolding base64url_decode
  recomputed_request expected = do
    ba_req_b64u ← m.request_digest expected.operation expected.cast_arguments expected.bounds
    ba_req_raw ← base64url_decode ba_req_b64u
    refuse (not (length ba_req_raw == 32))
    ok ba_req_raw

module _ ⦃fl : Float64⦄ ⦃cr : Crypto⦄ (m : Major) where
  unfoldable pub check_envelope_for :
      Credentials → ExpectedRequest → ProofProfile → Result EnvelopeFacts
  unfolding verify_grant decode_grant_parts extract_operations decode_proof_parts_for equal
      base64url_decode signing_input_bytes recomputed_request normalize_for find_named
      selectors_hold check_proof_window check_nonce
  check_envelope_for credentials expected profile = do
    let bounds = expected.bounds
    refuse (ltb expected.proof_max_age 1 || ltb bounds.proof_max_age expected.proof_max_age)
    refuse (is_loopback profile && not (is_required expected.nonce_mode))
    grant_facts ← verify_grant m credentials.grant expected.trusted_issuer (expected_grant expected)
    grant_parts ← decode_grant_parts m credentials.grant bounds
    operations ← extract_operations grant_parts.payload_json
    proof ← decode_proof_parts_for m credentials.proof bounds profile
    holder_thumb ← m.thumbprint_raw proof.holder_public_key
    refuse (not (equal holder_thumb grant_facts.holder_thumbprint))
    proof_sig_raw ← base64url_decode proof.signature_seg
    refuse (not (length proof_sig_raw == 64))
    m.verify proof.holder_public_key (signing_input_bytes proof.protected_seg proof.payload_seg)
        proof_sig_raw
    let recomputed_ath = cr.sha256 credentials.grant
    refuse (not (equal proof.payload.grant_hash recomputed_ath))
    recomputed_ba_req ← recomputed_request m expected
    refuse (not (equal proof.payload.request_hash recomputed_ba_req))
    refuse (not (equal proof.payload.method expected.method))
    normalized_uri ← normalize_for profile expected.target_uri bounds
    refuse (not (equal normalized_uri expected.target_uri))
    refuse (not (equal proof.payload.target_uri normalized_uri))
    refuse (not (equal proof.payload.invocation_id expected.invocation_id))
    refuse (not (equal proof.payload.operation expected.operation))
    matched_op ← find_named expected.operation operations
    selectors_hold m matched_op expected.cast_arguments bounds
    check_proof_window proof.payload.issued_at expected
    check_nonce expected.nonce_mode proof.payload.nonce
    ok (record {
      grant = grant_facts;
      proof_id = proof.payload.proof_id;
      invocation_id = proof.payload.invocation_id;
      operation = proof.payload.operation;
      normalized_uri = normalized_uri;
      grant_hash = recomputed_ath;
      request_hash = recomputed_ba_req;
      proof_iat = proof.payload.issued_at;
    })

  abbrev pub check_envelope : Credentials → ExpectedRequest → Result EnvelopeFacts
  check_envelope credentials expected = check_envelope_for credentials expected standard

  abbrev pub check_local_loopback_http_envelope :
      Credentials → ExpectedRequest → Result EnvelopeFacts
  check_local_loopback_http_envelope credentials expected =
      check_envelope_for credentials expected local_loopback_http
