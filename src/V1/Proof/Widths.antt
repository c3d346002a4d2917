-- ===== src/V1/Proof/Widths.antt =====
-- The arrays of 32 bytes in the payloads of sdks/rust/src/v1.rs.
use bounded_authority_protoc.Base.{
  ◌≡◌, not, ◌&&◌, ◌==◌, ltb, equal, Option, length, Bytes, codes, ok, refuse, refuse-size_iff, OnOk,
  OnOk-bind, OnOk-check, OnOk-ok,
}
use bounded_authority_protoc.Base64url.{base64url_decode}
use bounded_authority_protoc.Bounds.{Bounds}
use bounded_authority_protoc.Json.Value.{Float64, JsonValue, Json, as_object}
use bounded_authority_protoc.Json.Closed.{
  unset, collect_closed, take_string, take_integral_date, require_int,
}
use bounded_authority_protoc.Major.{Major}
use bounded_authority_protoc.V1.Claims.{
  take_string_or_uri, take_method_token, take_uuid, take_operation_name, take_digest_b64u,
}
use bounded_authority_protoc.V1.Proof.{
  ProofProfile, ProofPayload, DecodedProof, is_loopback, is_none, proof_claims, take_nonce,
  normalize_for, validate_proof_payload_for, decode_proof_parts_for,
}
use bounded_authority_protoc.V1.Proof.Parts.{decode_proof_parts_for-Decoding}

-- 32 bytes.
abbrev Is32 : Bytes → Type 0
Is32 s = length s ≡ 32

pub take_digest_b64u-length :
    {F : Type 0}
    → (value : Option (JsonValue F)) (bounds : Bounds)
    → OnOk (λ s. length s ≡ 32) (take_digest_b64u value bounds)
unfolding take_digest_b64u
take_digest_b64u-length value bounds = OnOk-bind Is32 (take_string value) _ λ s _.
    OnOk-check Is32 (refuse (ltb bounds.encoded_segment_bytes (length s))) _ λ _.
      OnOk-bind Is32 (base64url_decode s) _ λ raw _.
        OnOk-check Is32 (refuse (not (length raw == 32))) _
          λ h. (refuse-size_iff (length raw) 32).0 h

-- Both hashes of a payload have 32 bytes.
abbrev pub HasWidths : ProofPayload → Type 0
HasWidths p = (length p.grant_hash ≡ 32) × (length p.request_hash ≡ 32)

module _ ⦃fl : Float64⦄ (m : Major) (bounds : Bounds) (profile : ProofProfile) where
  validate_proof_payload_for-HasWidths :
      (json : Json) → OnOk HasWidths (validate_proof_payload_for m json bounds profile)
  unfolding validate_proof_payload_for
  validate_proof_payload_for-HasWidths json = OnOk-bind HasWidths (as_object json) _ λ members _.
      OnOk-bind HasWidths (collect_closed proof_claims members unset) _ λ vars _.
        OnOk-check HasWidths (require_int (vars (codes "v")) m.version) _ λ _.
          OnOk-bind HasWidths (take_string_or_uri (vars (codes "jti")) bounds) _ λ proof_id _.
            OnOk-bind HasWidths (take_method_token (vars (codes "htm")) bounds) _ λ method _.
              OnOk-bind HasWidths (take_uuid (vars (codes "ba_inv"))) _ λ invocation _.
                OnOk-bind HasWidths (take_operation_name (vars (codes "ba_op")) bounds) _
                  λ operation _.
                    OnOk-bind HasWidths (take_digest_b64u (vars (codes "ath")) bounds) _
                      λ ath is_ath.
                        OnOk-bind HasWidths (take_digest_b64u (vars (codes "ba_req")) bounds) _
                          λ req is_req.
                            OnOk-bind HasWidths (take_integral_date (vars (codes "iat"))) _ λ iat _.
                              OnOk-bind HasWidths (take_string (vars (codes "htu"))) _ λ input _.
                                OnOk-bind HasWidths (take_nonce (vars (codes "nonce")) bounds) _
                                  λ nonce _.
                                    OnOk-check HasWidths
                                      (refuse (is_loopback profile && is_none nonce)) _
                                      λ _.
                                        OnOk-bind HasWidths (normalize_for profile input bounds) _
                                          λ uri _.
                                            OnOk-check HasWidths (refuse (not (equal uri input))) _
                                              λ _. (
                                                OnOk-ok Is32 _
                                                    (take_digest_b64u-length (vars (codes "ath"))
                                                      bounds)
                                                    is_ath,
                                                OnOk-ok Is32 _
                                                    (take_digest_b64u-length (vars (codes "ba_req"))
                                                      bounds)
                                                    is_req,
                                              )

  -- The grant hash and the request hash of every proof that is decoded have 32 bytes, as their types say.
  pub decode_proof_parts_for-HasWidths :
      (compact : Bytes) (p : DecodedProof)
      → decode_proof_parts_for m compact bounds profile ≡ ok p
      → HasWidths p.payload
  decode_proof_parts_for-HasWidths compact p h =
      let d = decode_proof_parts_for-Decoding m compact bounds profile p h in
      OnOk-ok HasWidths _ (validate_proof_payload_for-HasWidths d.payload_json) d.payload_valid
