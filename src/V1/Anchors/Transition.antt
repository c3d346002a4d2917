-- ===== src/V1/Anchors/Transition.antt =====
-- `verify_key_transition` of sdks/rust/src/v1.rs: the signed passing from one key to the next.
pub mod Passed
use bounded_authority_protoc.Base.{
  ℕ, Bool, not, ◌||◌, Option, List, [], ◌∷◌, ltb, ◌==◌, length, Bytes, codes, equal, Result, ok,
  invalid, ◌>>=◌, ◌>>◌, refuse,
}
use bounded_authority_protoc.Base.Int.{ℤ, eq_ℤ}
use bounded_authority_protoc.Base64url.{base64url_decode}
use bounded_authority_protoc.Bounds.{Bounds, resolve_bounds}
use bounded_authority_protoc.Compact.{parse_compact}
use bounded_authority_protoc.Jcs.Encode.{jcs_encode}
use bounded_authority_protoc.Json.Value.{Float64, Json, as_object}
use bounded_authority_protoc.Json.Closed.{
  unset, collect_closed, take_string, take_integral_date, require_int,
}
use bounded_authority_protoc.Json.Decode.{json_decode}
use bounded_authority_protoc.Major.{Major, typ_key_transition}
use bounded_authority_protoc.V1.Anchors.{TransitionPayload, in_interval}
use bounded_authority_protoc.V1.Anchors.Historical.{
  HistoricalPublicKey, check_validity, validate_typed_header,
}
use bounded_authority_protoc.V1.Claims.{validate_kid, take_string_or_uri, take_digest_b64u}
use bounded_authority_protoc.V1.KeyPath.{ExpectedKeyTransition}
use bounded_authority_protoc.V1.Segments.{decode_segment, decode_signature64, signing_input_bytes}

pub record DecodedTransition : Type 0 where
  pub protected_seg : Bytes
  pub payload_seg : Bytes
  pub signature_seg : Bytes
  pub key_id : Bytes
  pub payload : TransitionPayload

pub record KeyTransitionFacts : Type 0 where
  pub transition_id : Bytes
  pub chain_id : Bytes
  pub effective_at : ℤ
  pub current_key_fingerprint : Bytes
  pub current_key_id : Bytes
  pub next_key_fingerprint : Bytes
  pub next_key_id : Bytes

abbrev pub transition_members : List Bytes
transition_members =
    codes "chain_id"
    ∷ codes "effective_at"
    ∷ codes "from_key_fingerprint"
    ∷ codes "to_key_fingerprint"
    ∷ codes "to_key_id"
    ∷ codes "transition_id"
    ∷ codes "v"
    ∷ []

-- The checks of the signed fields against the keys, whose fingerprints are derived, and against the expectation.
unfoldable pub transition_fields :
    TransitionPayload
    → Bytes
    → Bytes
    → HistoricalPublicKey
    → ExpectedKeyTransition
    → Result (Unit {0})
unfolding equal
transition_fields p current_derived next_derived next expected = do
  refuse (
      not (equal p.from_fingerprint current_derived)
      || not (equal p.from_fingerprint expected.current_key_fingerprint))
  refuse (
      not (equal p.to_fingerprint next_derived)
      || not (equal p.to_fingerprint expected.next_key_fingerprint))
  refuse (
      not (equal p.to_key_id next.key_id)
      || (not (equal p.to_key_id expected.next_key_id)
          || (not (equal p.chain_id expected.chain_id)
              || (not (eq_ℤ p.effective_at expected.effective_at)
                  || not (equal p.transition_id expected.transition_id)))))

module _ ⦃fl : Float64⦄ (m : Major) where
  abbrev pub validate_transition_header : Json → Bytes → Bounds → Result Bytes
  validate_transition_header = validate_typed_header m typ_key_transition

  unfoldable pub validate_transition_payload : Json → Bytes → Bounds → Result TransitionPayload
  unfolding collect_closed take_string_or_uri validate_kid take_digest_b64u jcs_encode equal
  validate_transition_payload payload payload_bytes bounds = do
    members ← as_object payload
    vars ← collect_closed transition_members members unset
    require_int (vars (codes "v")) m.version
    chain_id ← take_string_or_uri (vars (codes "chain_id")) bounds
    transition_id ← take_string_or_uri (vars (codes "transition_id")) bounds
    to_key_id ← take_string (vars (codes "to_key_id"))
    validate_kid to_key_id bounds
    effective_at ← take_integral_date (vars (codes "effective_at"))
    from_fingerprint ← take_digest_b64u (vars (codes "from_key_fingerprint")) bounds
    to_fingerprint ← take_digest_b64u (vars (codes "to_key_fingerprint")) bounds
    encoded ← jcs_encode bounds payload
    refuse (not (equal encoded payload_bytes))
    ok (record {
      chain_id = chain_id;
      effective_at = effective_at;
      from_fingerprint = from_fingerprint;
      to_fingerprint = to_fingerprint;
      to_key_id = to_key_id;
      transition_id = transition_id;
    })

  unfoldable pub decode_transition_parts : Bytes → Bounds → Result DecodedTransition
  unfolding parse_compact decode_segment base64url_decode json_decode validate_typed_header
      validate_transition_payload
  decode_transition_parts compact bounds = do
    refuse (ltb bounds.compact_bytes (length compact))
    refuse (ltb bounds.anchor_bytes (length compact))
    (protected_seg, payload_seg, signature_seg) ← parse_compact compact
    header_bytes ← decode_segment protected_seg bounds
    payload_bytes ← decode_segment payload_seg bounds
    sig_raw ← base64url_decode signature_seg
    refuse (not (length sig_raw == 64))
    header ← json_decode bounds header_bytes
    payload_json ← json_decode bounds payload_bytes
    key_id ← validate_transition_header header header_bytes bounds
    payload ← validate_transition_payload payload_json payload_bytes bounds
    ok (record {
      protected_seg = protected_seg;
      payload_seg = payload_seg;
      signature_seg = signature_seg;
      key_id = key_id;
      payload = payload;
    })

  unfoldable pub verify_key_transition :
      Bytes
      → HistoricalPublicKey
      → HistoricalPublicKey
      → ExpectedKeyTransition
      → Result KeyTransitionFacts
  unfolding check_validity decode_transition_parts equal transition_fields in_interval
      decode_signature64 signing_input_bytes
  verify_key_transition compact current next expected = do
    let bounds = resolve_bounds expected.bounds
    check_validity current bounds
    check_validity next bounds
    t ← decode_transition_parts compact bounds
    refuse (not (equal t.key_id current.key_id) || not (equal t.key_id expected.current_key_id))
    current_derived ← m.thumbprint_raw current.public_key
    next_derived ← m.thumbprint_raw next.public_key
    transition_fields t.payload current_derived next_derived next expected
    refuse (equal current_derived next_derived)
    refuse (not (in_interval t.payload.effective_at current.valid_from current.valid_before))
    refuse (not (in_interval t.payload.effective_at next.valid_from next.valid_before))
    signature ← decode_signature64 t.signature_seg
    m.verify current.public_key (signing_input_bytes t.protected_seg t.payload_seg) signature
    ok (record {
      transition_id = t.payload.transition_id;
      chain_id = t.payload.chain_id;
      effective_at = t.payload.effective_at;
      current_key_fingerprint = current_derived;
      current_key_id = t.key_id;
      next_key_fingerprint = next_derived;
      next_key_id = t.payload.to_key_id;
    })
