-- ===== src/V1/Grant/Parts.antt =====
-- What `decode_grant_parts` of sdks/rust/src/v1.rs takes a grant apart into.
use bounded_authority_protoc.Base.{
  ◌≡◌, refl, ◌∙◌, subst, not, ◌&&◌, ◌∷◌, ◌++◌, ltb, ◌==◌, length, Bytes, codes, ok, refuse,
  refuse-size_iff, >>=-eq-ok, >>-eq-ok, ok-injective, OnOk, OnOk-bind, OnOk-check, arith,
}
use bounded_authority_protoc.Base.Int.{ℤ, ◌<ℤ◌, ltb_ℤ}
use bounded_authority_protoc.Base64url.{base64url_encode, base64url_decode}
use bounded_authority_protoc.Base64url.RoundTrip.{decode-eq-ok_iff}
use bounded_authority_protoc.Bounds.{Bounds}
use bounded_authority_protoc.Compact.{parse_compact}
use bounded_authority_protoc.Compact.Segments.{parse_compact-eq-ok_iff}
use bounded_authority_protoc.Json.Value.{Float64, Json, as_object}
use bounded_authority_protoc.Json.Decode.{json_decode}
use bounded_authority_protoc.Major.{Major}
use bounded_authority_protoc.V1.Grant.{
  GrantPayload, DecodedGrant, validate_grant_header, grant_claims, validate_grant_payload,
  decode_grant_parts,
}
use bounded_authority_protoc.Json.Closed.{unset, collect_closed, take_integral_date, require_int}
use bounded_authority_protoc.V1.Claims.{
  take_string_or_uri, take_audiences, take_cnf_jkt, validate_operations,
}
use bounded_authority_protoc.V1.Segments.{decode_segment, signing_input_bytes}
use bounded_authority_protoc.V1.Segments.Splitting.{joined}

-- The steps that have succeeded; `signature` is the decoded signature.
pub record Decoding ⦃fl : Float64⦄ (m : Major) (compact : Bytes) (bounds : Bounds)
    (g : DecodedGrant) : Type 0 where
  pub signature : Bytes
  pub header_bytes : Bytes
  pub payload_bytes : Bytes
  pub header : Json
  pub fits : refuse (ltb bounds.compact_bytes (length compact)) ≡ ok tt
  pub parsed : parse_compact compact ≡ ok (g.protected_seg, g.payload_seg, g.signature_seg)
  pub header_decoded : decode_segment g.protected_seg bounds ≡ ok header_bytes
  pub payload_decoded : decode_segment g.payload_seg bounds ≡ ok payload_bytes
  pub signature_decoded : base64url_decode g.signature_seg ≡ ok signature
  pub signature_size : length signature ≡ 64
  pub header_parsed : json_decode bounds header_bytes ≡ ok header
  pub payload_parsed : json_decode bounds payload_bytes ≡ ok g.payload_json
  pub header_valid : validate_grant_header m header bounds ≡ ok g.key_id
  pub payload_valid : validate_grant_payload m g.payload_json bounds ≡ ok g.payload

module _ ⦃fl : Float64⦄ (m : Major) (compact : Bytes) (bounds : Bounds) (g : DecodedGrant) where
  pub decode_grant_parts-Decoding :
      decode_grant_parts m compact bounds ≡ ok g → Decoding m compact bounds g
  unfolding decode_grant_parts
  decode_grant_parts-Decoding h =
      let (fits, h₁) = >>-eq-ok (refuse (ltb bounds.compact_bytes (length compact))) _ h in
      let ((a, b, c), parsed, h₂) = >>=-eq-ok (parse_compact compact) _ h₁ in
      let (hb, header_decoded, h₃) = >>=-eq-ok (decode_segment a bounds) _ h₂ in
      let (pb, payload_decoded, h₄) = >>=-eq-ok (decode_segment b bounds) _ h₃ in
      let (sig, signature_decoded, h₅) = >>=-eq-ok (base64url_decode c) _ h₄ in
      let (n, h₆) = >>-eq-ok (refuse (not (length sig == 64))) _ h₅ in
      let (header, header_parsed, h₇) = >>=-eq-ok (json_decode bounds hb) _ h₆ in
      let (json, payload_parsed, h₈) = >>=-eq-ok (json_decode bounds pb) _ h₇ in
      let (kid, header_valid, h₉) = >>=-eq-ok (validate_grant_header m header bounds) _ h₈ in
      let (payload, payload_valid, e) = >>=-eq-ok (validate_grant_payload m json bounds) _ h₉ in
      let parts : DecodedGrant = record {
        protected_seg = a;
        payload_seg = b;
        signature_seg = c;
        key_id = kid;
        payload = payload;
        payload_json = json;
      } in
      let same : parts ≡ g = ok-injective e in
      subst (Decoding m compact bounds) same (record {
        signature = sig;
        header_bytes = hb;
        payload_bytes = pb;
        header = header;
        fits = fits;
        parsed = parsed;
        header_decoded = header_decoded;
        payload_decoded = payload_decoded;
        signature_decoded = signature_decoded;
        signature_size = (refuse-size_iff (length sig) 64).0 n;
        header_parsed = header_parsed;
        payload_parsed = payload_parsed;
        header_valid = header_valid;
        payload_valid = payload_valid;
      })

  -- And back.
  pub Decoding-decode_grant_parts :
      Decoding m compact bounds g → decode_grant_parts m compact bounds ≡ ok g
  unfolding decode_grant_parts
  Decoding-decode_grant_parts d = simp (
    d.fits,
    d.parsed,
    d.header_decoded,
    d.payload_decoded,
    d.signature_decoded,
    (refuse-size_iff (length d.signature) 64).1 d.signature_size,
    d.header_parsed,
    d.payload_parsed,
    d.header_valid,
    d.payload_valid,
  )

  -- The received bytes are what is signed, a dot and the encoded signature.
  pub Decoding-compact :
      (d : Decoding m compact bounds g)
      → signing_input_bytes g.protected_seg g.payload_seg ++ (b'.' ∷ base64url_encode d.signature)
        ≡ compact
  unfolding signing_input_bytes
  Decoding-compact d =
      let (_, encoded) = (decode-eq-ok_iff g.signature_seg d.signature).0 d.signature_decoded in
      let (_, whole) =
        (parse_compact-eq-ok_iff compact g.protected_seg g.payload_seg g.signature_seg).0
          d.parsed in
      rw encoded (joined g.protected_seg g.payload_seg g.signature_seg ∙ whole)

before :
    (iat nbf exp : ℤ)
    → refuse (not (ltb_ℤ iat exp && ltb_ℤ nbf exp)) ≡ ok tt
    → (iat <ℤ exp) × (nbf <ℤ exp)
before iat nbf exp h = ground arith

-- What a payload states of its version and of its times.
abbrev pub Coherent : ⦃fl : Float64⦄ → Major → GrantPayload → Type 0
Coherent m payload =
    (payload.version ≡ m.version)
    × (payload.issued_at <ℤ payload.expires_at)
    × (payload.not_before <ℤ payload.expires_at)

module _ ⦃fl : Float64⦄ (m : Major) (json : Json) (bounds : Bounds) where
  pub validate_grant_payload-Coherent : OnOk (Coherent m) (validate_grant_payload m json bounds)
  unfolding validate_grant_payload
  validate_grant_payload-Coherent = OnOk-bind P (as_object json) _ λ members _.
      OnOk-bind P (collect_closed grant_claims members unset) _ λ vars _.
        OnOk-check P (require_int (vars (codes "v")) m.version) _ λ _.
          OnOk-bind P (take_string_or_uri (vars (codes "iss")) bounds) _ λ issuer _.
            OnOk-bind P (take_string_or_uri (vars (codes "jti")) bounds) _ λ grant_id _.
              OnOk-bind P (take_audiences (vars (codes "aud")) bounds) _ λ audiences _.
                OnOk-bind P (take_integral_date (vars (codes "iat"))) _ λ iat _.
                  OnOk-bind P (take_integral_date (vars (codes "nbf"))) _ λ nbf _.
                    OnOk-bind P (take_integral_date (vars (codes "exp"))) _ λ exp _.
                      OnOk-bind P (take_cnf_jkt (vars (codes "cnf")) bounds) _ λ holder _.
                        OnOk-check P (validate_operations m (vars (codes "operations")) bounds) _
                          λ _.
                            OnOk-check P (refuse (not (ltb_ℤ iat exp && ltb_ℤ nbf exp))) _
                              λ ordered. (
                                refl,
                                (before iat nbf exp ordered).0,
                                (before iat nbf exp ordered).1,
                              )
    where
      P : GrantPayload → Type 0
      P = Coherent m
