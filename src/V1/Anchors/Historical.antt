-- ===== src/V1/Anchors/Historical.antt =====
-- `verify_historical_anchor` of sdks/rust/src/v1.rs: the signed boundary anchors of a chain.
pub mod Vouched
use bounded_authority_protoc.Base.{
  ℕ, ◌+◌, Bool, true, false, not, ◌&&◌, ◌||◌, Option, List, [], ◌∷◌, ltb, ◌==◌, length, any, Bytes,
  codes, equal, Result, ok, invalid, ◌>>=◌, ◌>>◌, refuse, ok_or,
}
use bounded_authority_protoc.Base.Int.{ℤ, pos, pos_part, neg_part, ltb_ℤ, leb_ℤ, eq_ℤ}
use bounded_authority_protoc.Base64url.{base64url_decode}
use bounded_authority_protoc.Bounds.{Bounds, resolve_bounds}
use bounded_authority_protoc.Compact.{parse_compact}
use bounded_authority_protoc.Jcs.Encode.{jcs_encode}
use bounded_authority_protoc.Json.Value.{Float64, Json, as_object}
use bounded_authority_protoc.Json.Closed.{
  unset, collect_closed, take_string, require_text, take_integral_date, require_int,
}
use bounded_authority_protoc.Json.Decode.{json_decode}
use bounded_authority_protoc.Major.{Major, typ_chain_anchor}
use bounded_authority_protoc.V1.Anchors.{
  AnchorPayload, ValidityUpperBound, bounded, unbounded, in_interval,
}
use bounded_authority_protoc.V1.Claims.{validate_kid, take_string_or_uri, take_digest_b64u}
use bounded_authority_protoc.V1.KeyPath.{ExpectedAnchor}
use bounded_authority_protoc.V1.Segments.{decode_segment, decode_signature64, signing_input_bytes}

pub record HistoricalPublicKey : Type 0 where
  pub key_id : Bytes
  pub public_key : Bytes
  pub valid_from : ℤ
  pub valid_before : ValidityUpperBound

pub record DecodedAnchor : Type 0 where
  pub protected_seg : Bytes
  pub payload_seg : Bytes
  pub signature_seg : Bytes
  pub key_id : Bytes
  pub payload : AnchorPayload

pub record AnchorFacts : Type 0 where
  pub anchor_id : Bytes
  pub anchored_at : ℤ
  pub chain_id : Bytes
  pub sequence : ℤ
  pub chain_hash : Bytes
  pub key_fingerprint : Bytes
  pub key_id : Bytes

abbrev pub unsigned_abs : ℤ → ℕ
unsigned_abs n = pos_part n + neg_part n

abbrev pub check_upper : ℤ → ValidityUpperBound → Bounds → Result (Unit {0})
check_upper valid_from unbounded bounds = ok tt
check_upper valid_from (bounded v) bounds = do
  refuse (ltb bounds.integer_magnitude (unsigned_abs v))
  refuse (leb_ℤ v valid_from)

-- The checks of a key's interval.
unfoldable pub check_validity : HistoricalPublicKey → Bounds → Result (Unit {0})
check_validity key bounds = do
  refuse (ltb bounds.integer_magnitude (unsigned_abs key.valid_from))
  check_upper key.valid_from key.valid_before bounds

abbrev pub any_nonzero : Bytes → Bool
any_nonzero s = any (λ b. not (b == 0)) s

abbrev pub anchor_members : List Bytes
anchor_members =
    codes "anchor_id"
    ∷ codes "anchored_at"
    ∷ codes "chain_hash"
    ∷ codes "chain_id"
    ∷ codes "key_fingerprint"
    ∷ codes "sequence"
    ∷ codes "v"
    ∷ []

module _ ⦃fl : Float64⦄ (m : Major) where
  -- `validate_anchor_header` and `validate_transition_header`, which differ in the type.
  unfoldable pub validate_typed_header : Bytes → Json → Bytes → Bounds → Result Bytes
  unfolding collect_closed validate_kid jcs_encode equal
  validate_typed_header typ header header_bytes bounds = do
    members ← as_object header
    vars ← collect_closed (codes "alg" ∷ codes "typ" ∷ codes "kid" ∷ []) members unset
    require_text (vars (codes "alg")) m.alg
    require_text (vars (codes "typ")) typ
    kid_str ← take_string (vars (codes "kid"))
    validate_kid kid_str bounds
    encoded ← jcs_encode bounds header
    refuse (not (equal encoded header_bytes))
    ok kid_str

  abbrev pub validate_anchor_header : Json → Bytes → Bounds → Result Bytes
  validate_anchor_header = validate_typed_header typ_chain_anchor

  unfoldable pub validate_anchor_payload : Json → Bytes → Bounds → Result AnchorPayload
  unfolding collect_closed take_string_or_uri take_digest_b64u jcs_encode equal
  validate_anchor_payload payload payload_bytes bounds = do
    members ← as_object payload
    vars ← collect_closed anchor_members members unset
    require_int (vars (codes "v")) m.version
    anchor_id ← take_string_or_uri (vars (codes "anchor_id")) bounds
    chain_id ← take_string_or_uri (vars (codes "chain_id")) bounds
    anchored_at ← take_integral_date (vars (codes "anchored_at"))
    sequence ← take_integral_date (vars (codes "sequence"))
    refuse (ltb_ℤ sequence (pos 0))
    chain_hash ← take_digest_b64u (vars (codes "chain_hash")) bounds
    refuse (m.genesis_gate && (eq_ℤ sequence (pos 0) && any_nonzero chain_hash))
    key_fingerprint ← take_digest_b64u (vars (codes "key_fingerprint")) bounds
    encoded ← jcs_encode bounds payload
    refuse (not (equal encoded payload_bytes))
    ok (record {
      anchor_id = anchor_id;
      anchored_at = anchored_at;
      chain_hash = chain_hash;
      chain_id = chain_id;
      key_fingerprint = key_fingerprint;
      sequence = sequence;
    })

  unfoldable pub decode_anchor_parts : Bytes → Bounds → Result DecodedAnchor
  unfolding parse_compact decode_segment base64url_decode json_decode validate_typed_header
      validate_anchor_payload
  decode_anchor_parts compact bounds = do
    refuse (ltb bounds.compact_bytes (length compact))
    refuse (ltb bounds.anchor_bytes (length compact))
    (protected_seg, payload_seg, signature_seg) ← parse_compact compact
    header_bytes ← decode_segment protected_seg bounds
    payload_bytes ← decode_segment payload_seg bounds
    sig_raw ← base64url_decode signature_seg
    refuse (not (length sig_raw == 64))
    header ← json_decode bounds header_bytes
    payload_json ← json_decode bounds payload_bytes
    key_id ← validate_anchor_header header header_bytes bounds
    payload ← validate_anchor_payload payload_json payload_bytes bounds
    ok (record {
      protected_seg = protected_seg;
      payload_seg = payload_seg;
      signature_seg = signature_seg;
      key_id = key_id;
      payload = payload;
    })

  unfoldable pub verify_historical_anchor :
      Bytes → HistoricalPublicKey → ExpectedAnchor → Result AnchorFacts
  unfolding check_validity decode_anchor_parts equal in_interval decode_signature64
      signing_input_bytes
  verify_historical_anchor compact key expected = do
    let bounds = resolve_bounds expected.bounds
    check_validity key bounds
    a ← decode_anchor_parts compact bounds
    refuse (not (equal a.key_id key.key_id) || not (equal a.key_id expected.key_id))
    derived ← m.thumbprint_raw key.public_key
    refuse (
        not (equal a.payload.key_fingerprint derived)
        || not (equal a.payload.key_fingerprint expected.key_fingerprint))
    refuse (
        not (equal a.payload.anchor_id expected.anchor_id)
        || (not (eq_ℤ a.payload.anchored_at expected.anchored_at)
            || (not (equal a.payload.chain_id expected.chain_id)
                || (not (eq_ℤ a.payload.sequence expected.sequence)
                    || not (equal a.payload.chain_hash expected.chain_hash)))))
    refuse (eq_ℤ a.payload.sequence (pos 0) && any_nonzero a.payload.chain_hash)
    refuse (not (in_interval a.payload.anchored_at key.valid_from key.valid_before))
    signature ← decode_signature64 a.signature_seg
    m.verify key.public_key (signing_input_bytes a.protected_seg a.payload_seg) signature
    ok (record {
      anchor_id = a.payload.anchor_id;
      anchored_at = a.payload.anchored_at;
      chain_id = a.payload.chain_id;
      sequence = a.payload.sequence;
      chain_hash = a.payload.chain_hash;
      key_fingerprint = derived;
      key_id = a.key_id;
    })
