-- ===== src/V1/Proof.antt =====
-- Holder proofs in sdks/rust/src/v1.rs and types.rs: their header, their payload and `decode_proof`.
pub mod Parts
pub mod Separation
pub mod Widths
use bounded_authority_protoc.Base.{
  ℕ, Bool, true, false, not, ◌&&◌, ◌||◌, Option, none, some, List, [], ◌∷◌, ◌++◌, ltb, ◌==◌,
  if◌then◌else◌, length, Bytes, codes, equal, Result, ok, invalid, ◌>>=◌, ◌>>◌, refuse, ok_or,
}
use bounded_authority_protoc.Base.Int.{ℤ}
use bounded_authority_protoc.Base64url.{base64url_decode}
use bounded_authority_protoc.Bounds.{Bounds}
use bounded_authority_protoc.Compact.{parse_compact}
use bounded_authority_protoc.Jcs.Encode.{jcs_encode}
use bounded_authority_protoc.Json.Value.{Float64, JsonValue, Json, as_object, as_string}
use bounded_authority_protoc.Json.Closed.{
  unset, collect_closed, take_string, require_text, take_integral_date, require_int,
}
use bounded_authority_protoc.Json.Decode.{json_decode}
use bounded_authority_protoc.Major.{Major, typ_proof, typ_local_loopback_http_proof}
use bounded_authority_protoc.Uri.Normalize.{uri_normalize, local_loopback_http_uri_normalize}
use bounded_authority_protoc.V1.Claims.{
  take_string_or_uri, take_method_token, take_uuid, take_operation_name, take_digest_b64u,
}
use bounded_authority_protoc.V1.Segments.{decode_segment}

pub data ProofProfile : Type 0 where
  standard local_loopback_http : ProofProfile

abbrev pub proof_typ : ProofProfile → Bytes
proof_typ standard = typ_proof
proof_typ local_loopback_http = typ_local_loopback_http_proof

abbrev pub is_loopback : ProofProfile → Bool
is_loopback standard = false
is_loopback local_loopback_http = true

pub record ProofPayload : Type 0 where
  pub proof_id : Bytes
  pub method : Bytes
  pub target_uri : Bytes
  pub invocation_id : Bytes
  pub operation : Bytes
  pub grant_hash : Bytes
  pub request_hash : Bytes
  pub issued_at : ℤ
  pub nonce : Option Bytes

pub record DecodedProof : Type 0 where
  pub protected_seg : Bytes
  pub payload_seg : Bytes
  pub signature_seg : Bytes
  pub holder_public_key : Bytes
  pub payload : ProofPayload

pub record ProofDecoded : Type 0 where
  pub key_id : Bytes
  pub proof_id : Bytes
  pub method : Bytes
  pub target_uri : Bytes
  pub invocation_id : Bytes
  pub operation : Bytes
  pub grant_hash : Bytes
  pub request_hash : Bytes
  pub issued_at : ℤ
  pub holder_thumbprint : Bytes
  pub nonce : Option Bytes

-- The normalization that a profile's target URIs have passed.
unfoldable pub normalize_for : ProofProfile → Bytes → Bounds → Result Bytes
unfolding uri_normalize local_loopback_http_uri_normalize
normalize_for standard = uri_normalize
normalize_for local_loopback_http = local_loopback_http_uri_normalize

-- `nonce`, which may be absent.
unfoldable pub take_nonce : {F : Type 0} → Option (JsonValue F) → Bounds → Result (Option Bytes)
take_nonce none bounds = ok none
take_nonce (some v) bounds = do
  s ← as_string v
  refuse (length s == 0)
  refuse (ltb bounds.nonce_bytes (length s))
  ok (some s)

abbrev pub is_none {ℓ} : {A : Type ℓ} → Option A → Bool
is_none none = true
is_none (some a) = false

abbrev pub proof_claims : List Bytes
proof_claims =
    codes "v"
    ∷ codes "jti"
    ∷ codes "htm"
    ∷ codes "htu"
    ∷ codes "iat"
    ∷ codes "nonce"
    ∷ codes "ba_inv"
    ∷ codes "ba_op"
    ∷ codes "ath"
    ∷ codes "ba_req"
    ∷ []

module _ ⦃fl : Float64⦄ (m : Major) where
  unfoldable pub validate_proof_header_for : Json → Bounds → ProofProfile → Result Bytes
  unfolding collect_closed jcs_encode equal
  validate_proof_header_for header bounds profile = do
    members ← as_object header
    vars ← collect_closed (codes "alg" ∷ codes "typ" ∷ codes "jwk" ∷ []) members unset
    require_text (vars (codes "alg")) m.alg
    require_text (vars (codes "typ")) (proof_typ profile)
    jwk_val ← ok_or (vars (codes "jwk"))
    jwk_bytes ← jcs_encode bounds jwk_val
    m.jwk_decode_public jwk_bytes

  unfoldable pub validate_proof_payload_for : Json → Bounds → ProofProfile → Result ProofPayload
  unfolding collect_closed take_string_or_uri take_method_token take_uuid take_operation_name
      take_digest_b64u take_nonce normalize_for equal
  validate_proof_payload_for payload bounds profile = do
    members ← as_object payload
    vars ← collect_closed proof_claims members unset
    require_int (vars (codes "v")) m.version
    proof_id ← take_string_or_uri (vars (codes "jti")) bounds
    method ← take_method_token (vars (codes "htm")) bounds
    invocation_id ← take_uuid (vars (codes "ba_inv"))
    operation ← take_operation_name (vars (codes "ba_op")) bounds
    grant_hash ← take_digest_b64u (vars (codes "ath")) bounds
    request_hash ← take_digest_b64u (vars (codes "ba_req")) bounds
    issued_at ← take_integral_date (vars (codes "iat"))
    target_uri_input ← take_string (vars (codes "htu"))
    nonce ← take_nonce (vars (codes "nonce")) bounds
    refuse (is_loopback profile && is_none nonce)
    target_uri ← normalize_for profile target_uri_input bounds
    refuse (not (equal target_uri target_uri_input))
    ok (record {
      proof_id = proof_id;
      method = method;
      target_uri = target_uri;
      invocation_id = invocation_id;
      operation = operation;
      grant_hash = grant_hash;
      request_hash = request_hash;
      issued_at = issued_at;
      nonce = nonce;
    })

  unfoldable pub decode_proof_parts_for : Bytes → Bounds → ProofProfile → Result DecodedProof
  unfolding parse_compact decode_segment base64url_decode json_decode validate_proof_header_for
      validate_proof_payload_for
  decode_proof_parts_for compact bounds profile = do
    refuse (ltb bounds.compact_bytes (length compact))
    (protected_seg, payload_seg, signature_seg) ← parse_compact compact
    header_bytes ← decode_segment protected_seg bounds
    payload_bytes ← decode_segment payload_seg bounds
    sig_raw ← base64url_decode signature_seg
    refuse (not (length sig_raw == 64))
    header ← json_decode bounds header_bytes
    payload_json ← json_decode bounds payload_bytes
    holder_public_key ← validate_proof_header_for header bounds profile
    payload ← validate_proof_payload_for payload_json bounds profile
    ok (record {
      protected_seg = protected_seg;
      payload_seg = payload_seg;
      signature_seg = signature_seg;
      holder_public_key = holder_public_key;
      payload = payload;
    })

  unfoldable pub decode_proof_for : Bytes → Bounds → ProofProfile → Result ProofDecoded
  unfolding decode_proof_parts_for
  decode_proof_for compact bounds profile = do
    p ← decode_proof_parts_for compact bounds profile
    holder_thumbprint ← m.thumbprint_raw p.holder_public_key
    ok (record {
      key_id = [];
      proof_id = p.payload.proof_id;
      method = p.payload.method;
      target_uri = p.payload.target_uri;
      invocation_id = p.payload.invocation_id;
      operation = p.payload.operation;
      grant_hash = p.payload.grant_hash;
      request_hash = p.payload.request_hash;
      issued_at = p.payload.issued_at;
      holder_thumbprint = holder_thumbprint;
      nonce = p.payload.nonce;
    })

  abbrev pub decode_proof : Bytes → Bounds → Result ProofDecoded
  decode_proof compact bounds = decode_proof_for compact bounds standard

  abbrev pub decode_local_loopback_http_proof : Bytes → Bounds → Result ProofDecoded
  decode_local_loopback_http_proof compact bounds =
      decode_proof_for compact bounds local_loopback_http
