-- ===== src/V1/Grant.antt =====
-- Grants in sdks/rust/src/v1.rs and types.rs: their header and payload, the key locator, and `verify_grant`.
pub mod Parts
pub mod Times
pub mod Verified
pub mod Versions
pub mod Locator
pub mod Acceptance
use bounded_authority_protoc.Base.{
  ℕ, Bool, true, false, not, ◌&&◌, ◌||◌, Option, none, some, List, [], ◌∷◌, ◌++◌, ltb, ◌==◌,
  if◌then◌else◌, length, any, Bytes, codes, equal, Result, ok, invalid, ◌>>=◌, ◌>>◌, refuse, ok_or,
}
use bounded_authority_protoc.Base.Int.{
  ℤ, ltb_ℤ, leb_ℤ, checked_add, checked_sub, unwrap_or, as_i64, i64_max, i64_min,
}
use bounded_authority_protoc.Base64url.{base64url_decode}
use bounded_authority_protoc.Bounds.{Bounds}
use bounded_authority_protoc.Compact.{parse_compact}
use bounded_authority_protoc.Json.Value.{Float64, Json, as_object}
use bounded_authority_protoc.Json.Closed.{
  unset, collect_closed, take_string, require_text, take_integral_date, require_int,
}
use bounded_authority_protoc.Json.Decode.{json_decode}
use bounded_authority_protoc.Major.{Major, typ_grant}
use bounded_authority_protoc.V1.Claims.{
  validate_kid, take_string_or_uri, take_audiences, take_cnf_jkt, validate_operations,
}
use bounded_authority_protoc.V1.Segments.{
  split_three_segments, decode_segment, signing_input_bytes, audience_matches,
}

pub record TrustedIssuer : Type 0 where
  pub key_id : Bytes
  pub public_key : Bytes

pub record ExpectedGrant : Type 0 where
  pub issuer : Bytes
  pub audience : Bytes
  pub evaluation_time : ℤ
  pub skew : ℕ
  pub bounds : Bounds

-- In this and the following results the members of the unit type `NotEvaluated` are left out.
pub record KeyLocator : Type 0 where
  pub key_id : Bytes

pub record GrantPayload : Type 0 where
  pub version : ℤ
  pub issuer : Bytes
  pub grant_id : Bytes
  pub audiences : List Bytes
  pub holder_thumbprint : Bytes
  pub issued_at : ℤ
  pub not_before : ℤ
  pub expires_at : ℤ

pub record GrantDecoded : Type 0 where
  pub key_id : Bytes
  pub version : ℤ
  pub issuer : Bytes
  pub grant_id : Bytes
  pub audiences : List Bytes
  pub holder_thumbprint : Bytes
  pub issued_at : ℤ
  pub not_before : ℤ
  pub expires_at : ℤ

pub record GrantFacts : Type 0 where
  pub version : ℤ
  pub issuer : Bytes
  pub grant_id : Bytes
  pub issuer_key_fingerprint : Bytes
  pub holder_thumbprint : Bytes
  pub matched_audience : Bytes
  pub iat : ℤ
  pub nbf : ℤ
  pub exp : ℤ

abbrev pub grant_claims : List Bytes
grant_claims =
    codes "v"
    ∷ codes "iss"
    ∷ codes "jti"
    ∷ codes "aud"
    ∷ codes "iat"
    ∷ codes "nbf"
    ∷ codes "exp"
    ∷ codes "cnf"
    ∷ codes "operations"
    ∷ []

-- `checked_add` and `checked_sub` that stop at the ends of `i64`.
abbrev pub saturating_add : ℤ → ℤ → ℤ
saturating_add a b = unwrap_or (checked_add a b) i64_max

abbrev pub saturating_sub : ℤ → ℤ → ℤ
saturating_sub a b = unwrap_or (checked_sub a b) i64_min

-- The time checks of `verify_grant`.
unfoldable pub check_grant_times : GrantPayload → ExpectedGrant → Result (Unit {0})
unfolding checked_add checked_sub
check_grant_times payload expected = do
  let upper = saturating_add expected.evaluation_time (as_i64 expected.skew)
  refuse (ltb_ℤ upper payload.issued_at || ltb_ℤ upper payload.not_before)
  let lower = saturating_sub expected.evaluation_time (as_i64 expected.skew)
  refuse (leb_ℤ payload.expires_at lower)

module _ ⦃fl : Float64⦄ where
  pub record DecodedGrant : Type 0 where
    pub protected_seg : Bytes
    pub payload_seg : Bytes
    pub signature_seg : Bytes
    pub key_id : Bytes
    pub payload : GrantPayload
    pub payload_json : Json

module _ ⦃fl : Float64⦄ (m : Major) where
  unfoldable pub validate_grant_header : Json → Bounds → Result Bytes
  unfolding collect_closed validate_kid equal
  validate_grant_header header bounds = do
    members ← as_object header
    vars ← collect_closed (codes "alg" ∷ codes "typ" ∷ codes "kid" ∷ []) members unset
    require_text (vars (codes "alg")) m.alg
    require_text (vars (codes "typ")) typ_grant
    kid_str ← take_string (vars (codes "kid"))
    validate_kid kid_str bounds
    ok kid_str

  unfoldable pub validate_grant_payload : Json → Bounds → Result GrantPayload
  unfolding collect_closed take_string_or_uri take_audiences take_cnf_jkt validate_operations
  validate_grant_payload payload bounds = do
    members ← as_object payload
    vars ← collect_closed grant_claims members unset
    require_int (vars (codes "v")) m.version
    issuer ← take_string_or_uri (vars (codes "iss")) bounds
    grant_id ← take_string_or_uri (vars (codes "jti")) bounds
    audiences ← take_audiences (vars (codes "aud")) bounds
    issued_at ← take_integral_date (vars (codes "iat"))
    not_before ← take_integral_date (vars (codes "nbf"))
    expires_at ← take_integral_date (vars (codes "exp"))
    holder_thumbprint ← take_cnf_jkt (vars (codes "cnf")) bounds
    validate_operations m (vars (codes "operations")) bounds
    refuse (not (ltb_ℤ issued_at expires_at && ltb_ℤ not_before expires_at))
    ok (record {
      version = m.version;
      issuer = issuer;
      grant_id = grant_id;
      audiences = audiences;
      holder_thumbprint = holder_thumbprint;
      issued_at = issued_at;
      not_before = not_before;
      expires_at = expires_at;
    })

  unfoldable pub untrusted_key_locator : Bytes → Bounds → Result KeyLocator
  unfolding split_three_segments base64url_decode json_decode validate_grant_header
  untrusted_key_locator compact bounds = do
    refuse (ltb bounds.compact_bytes (length compact))
    (protected, _, _) ← split_three_segments compact
    refuse (ltb bounds.encoded_segment_bytes (length protected))
    protected_bytes ← base64url_decode protected
    refuse (ltb bounds.decoded_segment_bytes (length protected_bytes))
    header ← json_decode bounds protected_bytes
    kid ← validate_grant_header header bounds
    ok (record { key_id = kid })

  unfoldable pub decode_grant_parts : Bytes → Bounds → Result DecodedGrant
  unfolding parse_compact decode_segment base64url_decode json_decode validate_grant_header
      validate_grant_payload
  decode_grant_parts compact bounds = do
    refuse (ltb bounds.compact_bytes (length compact))
    (protected_seg, payload_seg, signature_seg) ← parse_compact compact
    header_bytes ← decode_segment protected_seg bounds
    payload_bytes ← decode_segment payload_seg bounds
    sig_raw ← base64url_decode signature_seg
    refuse (not (length sig_raw == 64))
    header ← json_decode bounds header_bytes
    payload_json ← json_decode bounds payload_bytes
    key_id ← validate_grant_header header bounds
    payload ← validate_grant_payload payload_json bounds
    ok (record {
      protected_seg = protected_seg;
      payload_seg = payload_seg;
      signature_seg = signature_seg;
      key_id = key_id;
      payload = payload;
      payload_json = payload_json;
    })

  unfoldable pub decode_grant : Bytes → Bounds → Result GrantDecoded
  unfolding decode_grant_parts
  decode_grant compact bounds = do
    g ← decode_grant_parts compact bounds
    ok (record {
      key_id = g.key_id;
      version = g.payload.version;
      issuer = g.payload.issuer;
      grant_id = g.payload.grant_id;
      audiences = g.payload.audiences;
      holder_thumbprint = g.payload.holder_thumbprint;
      issued_at = g.payload.issued_at;
      not_before = g.payload.not_before;
      expires_at = g.payload.expires_at;
    })

  unfoldable pub verify_grant : Bytes → TrustedIssuer → ExpectedGrant → Result GrantFacts
  unfolding decode_grant_parts equal audience_matches base64url_decode signing_input_bytes
      check_grant_times
  verify_grant compact issuer expected = do
    refuse (ltb expected.bounds.clock_skew expected.skew)
    g ← decode_grant_parts compact expected.bounds
    refuse (not (equal g.key_id issuer.key_id))
    refuse (not (equal g.payload.issuer expected.issuer))
    refuse (not (audience_matches g.payload.audiences expected.audience))
    sig_raw ← base64url_decode g.signature_seg
    refuse (not (length sig_raw == 64))
    m.verify issuer.public_key (signing_input_bytes g.protected_seg g.payload_seg) sig_raw
    check_grant_times g.payload expected
    issuer_key_fingerprint ← m.thumbprint_raw issuer.public_key
    ok (record {
      version = g.payload.version;
      issuer = g.payload.issuer;
      grant_id = g.payload.grant_id;
      issuer_key_fingerprint = issuer_key_fingerprint;
      holder_thumbprint = g.payload.holder_thumbprint;
      matched_audience = expected.audience;
      iat = g.payload.issued_at;
      nbf = g.payload.not_before;
      exp = g.payload.expires_at;
    })
