-- ===== src/V1/Proof/Parts.antt =====
-- What `decode_proof_parts_for` of sdks/rust/src/v1.rs takes a holder proof apart into.
use bounded_authority_protoc.Base.{
  ◌≡◌, ◌∙◌, subst, not, ◌∷◌, ◌++◌, ltb, ◌==◌, length, Bytes, ok, refuse, refuse-size_iff, >>=-eq-ok,
  >>-eq-ok, ok-injective,
}
use bounded_authority_protoc.Base64url.{base64url_encode, base64url_decode}
use bounded_authority_protoc.Base64url.RoundTrip.{decode-eq-ok_iff}
use bounded_authority_protoc.Bounds.{Bounds}
use bounded_authority_protoc.Compact.{parse_compact}
use bounded_authority_protoc.Compact.Segments.{parse_compact-eq-ok_iff}
use bounded_authority_protoc.Json.Value.{Float64, Json}
use bounded_authority_protoc.Json.Decode.{json_decode}
use bounded_authority_protoc.Major.{Major}
use bounded_authority_protoc.V1.Proof.{
  ProofProfile, DecodedProof, validate_proof_header_for, validate_proof_payload_for,
  decode_proof_parts_for,
}
use bounded_authority_protoc.V1.Segments.{decode_segment, signing_input_bytes}
use bounded_authority_protoc.V1.Segments.Splitting.{joined}

-- The steps that have succeeded; `signature` is the decoded signature.
pub record Decoding ⦃fl : Float64⦄ (m : Major) (compact : Bytes) (bounds : Bounds)
    (profile : ProofProfile) (p : DecodedProof) : Type 0 where
  pub signature : Bytes
  pub header_bytes : Bytes
  pub payload_bytes : Bytes
  pub header : Json
  pub payload_json : Json
  pub fits : refuse (ltb bounds.compact_bytes (length compact)) ≡ ok tt
  pub parsed : parse_compact compact ≡ ok (p.protected_seg, p.payload_seg, p.signature_seg)
  pub header_decoded : decode_segment p.protected_seg bounds ≡ ok header_bytes
  pub payload_decoded : decode_segment p.payload_seg bounds ≡ ok payload_bytes
  pub signature_decoded : base64url_decode p.signature_seg ≡ ok signature
  pub signature_size : length signature ≡ 64
  pub header_parsed : json_decode bounds header_bytes ≡ ok header
  pub payload_parsed : json_decode bounds payload_bytes ≡ ok payload_json
  pub header_valid : validate_proof_header_for m header bounds profile ≡ ok p.holder_public_key
  pub payload_valid : validate_proof_payload_for m payload_json bounds profile ≡ ok p.payload

module _ ⦃fl : Float64⦄ (m : Major) (compact : Bytes) (bounds : Bounds) (profile : ProofProfile)
    (p : DecodedProof) where
  pub decode_proof_parts_for-Decoding :
      decode_proof_parts_for m compact bounds profile ≡ ok p → Decoding m compact bounds profile p
  unfolding decode_proof_parts_for
  decode_proof_parts_for-Decoding h =
      let (fits, h₁) = >>-eq-ok (refuse (ltb bounds.compact_bytes (length compact))) _ h in
      let ((a, b, c), parsed, h₂) = >>=-eq-ok (parse_compact compact) _ h₁ in
      let (hb, header_decoded, h₃) = >>=-eq-ok (decode_segment a bounds) _ h₂ in
      let (pb, payload_decoded, h₄) = >>=-eq-ok (decode_segment b bounds) _ h₃ in
      let (sig, signature_decoded, h₅) = >>=-eq-ok (base64url_decode c) _ h₄ in
      let (n, h₆) = >>-eq-ok (refuse (not (length sig == 64))) _ h₅ in
      let (header, header_parsed, h₇) = >>=-eq-ok (json_decode bounds hb) _ h₆ in
      let (json, payload_parsed, h₈) = >>=-eq-ok (json_decode bounds pb) _ h₇ in
      let (key, header_valid, h₉) =
        >>=-eq-ok (validate_proof_header_for m header bounds profile) _ h₈ in
      let (payload, payload_valid, e) =
        >>=-eq-ok (validate_proof_payload_for m json bounds profile) _ h₉ in
      let parts : DecodedProof = record {
        protected_seg = a;
        payload_seg = b;
        signature_seg = c;
        holder_public_key = key;
        payload = payload;
      } in
      let same : parts ≡ p = ok-injective e in
      subst (Decoding m compact bounds profile) same (record {
        signature = sig;
        header_bytes = hb;
        payload_bytes = pb;
        header = header;
        payload_json = json;
        fits = fits;
        parsed = parsed;
        header_decoded = header_decoded;
        payload_decoded = payload_decoded;
        signature_decoded = signature_decoded;
        signature_size = (refuse-size_iff (length sig) 64).0 n;
        header_parsed = header_parsed;
        payload_parsed = payload_parsed;
        header_valid = header_valid;
        payload_valid = payload_valid;
      })

  -- The received bytes are what is signed, a dot and the encoded signature.
  pub Decoding-compact :
      (d : Decoding m compact bounds profile p)
      → signing_input_bytes p.protected_seg p.payload_seg ++ (b'.' ∷ base64url_encode d.signature)
        ≡ compact
  unfolding signing_input_bytes
  Decoding-compact d =
      let (_, encoded) = (decode-eq-ok_iff p.signature_seg d.signature).0 d.signature_decoded in
      let (_, whole) =
        (parse_compact-eq-ok_iff compact p.protected_seg p.payload_seg p.signature_seg).0
          d.parsed in
      rw encoded (joined p.protected_seg p.payload_seg p.signature_seg ∙ whole)
