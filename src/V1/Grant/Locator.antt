-- ===== src/V1/Grant/Locator.antt =====
-- `untrusted_key_locator` of sdks/rust/src/v1.rs beside `decode_grant`.
use bounded_authority_protoc.Base.{
  ◌≡◌, ap, ◌∙◌, ltb, length, Bytes, ok, refuse, >>=-eq-ok, >>-eq-ok, ok-injective,
}
use bounded_authority_protoc.Base64url.{base64url_decode}
use bounded_authority_protoc.Bounds.{Bounds}
use bounded_authority_protoc.Compact.{parse_compact}
use bounded_authority_protoc.Compact.Segments.{parse_compact-eq-ok_iff, IsSegment-Undotted}
use bounded_authority_protoc.Json.Value.{Float64}
use bounded_authority_protoc.Major.{Major}
use bounded_authority_protoc.V1.Grant.{
  GrantDecoded, decode_grant_parts, decode_grant, untrusted_key_locator,
}
use bounded_authority_protoc.V1.Grant.Parts.{decode_grant_parts-Decoding}
use bounded_authority_protoc.V1.Segments.{decode_segment, split_three_segments, signing_input_bytes}
use bounded_authority_protoc.V1.Segments.Splitting.{joined, split_three_segments-eq-ok_iff}

-- What is parsed is split in the same way.
parse_compact-split :
    (text a b c : Bytes)
    → parse_compact text ≡ ok (a, b, c)
    → split_three_segments text ≡ ok (a, b, c)
unfolding signing_input_bytes
parse_compact-split text a b c h =
    let ((ha, hb, hc), e) = (parse_compact-eq-ok_iff text a b c).0 h in
    (split_three_segments-eq-ok_iff text a b c).1 (
      (IsSegment-Undotted a ha, IsSegment-Undotted b hb, IsSegment-Undotted c hc),
      joined a b c ∙ e,
    )

-- The steps of `decode_segment`, which the locator takes one by one.
decode_segment-steps :
    (segment text : Bytes) (bounds : Bounds)
    → decode_segment segment bounds ≡ ok text
    → (refuse (ltb bounds.encoded_segment_bytes (length segment)) ≡ ok tt)
      × (base64url_decode segment ≡ ok text)
      × (refuse (ltb bounds.decoded_segment_bytes (length text)) ≡ ok tt)
unfolding decode_segment
decode_segment-steps segment text bounds h =
    let (fits, h₁) = >>-eq-ok (refuse (ltb bounds.encoded_segment_bytes (length segment))) _ h in
    let (raw, decoded, h₂) = >>=-eq-ok (base64url_decode segment) _ h₁ in
    let (small, e) = >>-eq-ok (refuse (ltb bounds.decoded_segment_bytes (length raw))) _ h₂ in
    let same : raw ≡ text = ok-injective e in (fits, decoded ∙ ap ok same, rw same at small)

module _ ⦃fl : Float64⦄ (m : Major) (compact : Bytes) (bounds : Bounds) (view : GrantDecoded) where
  -- Of every compact that is decoded as a grant the locator is the grant's key id.
  pub untrusted_key_locator-decode_grant :
      decode_grant m compact bounds ≡ ok view
      → untrusted_key_locator m compact bounds ≡ ok (record { key_id = view.key_id })
  unfolding decode_grant untrusted_key_locator
  untrusted_key_locator-decode_grant h =
      let (g, e, made) = >>=-eq-ok (decode_grant_parts m compact bounds) _ h in
      let d = decode_grant_parts-Decoding m compact bounds g e in
      let (fits, decoded, small) =
        decode_segment-steps g.protected_seg d.header_bytes bounds d.header_decoded in
      let kid : g.key_id ≡ view.key_id = ap (λ v. v.key_id) (ok-injective made) in
      let located : untrusted_key_locator m compact bounds ≡ ok (record { key_id = g.key_id }) =
        simp (
          d.fits,
          parse_compact-split compact g.protected_seg g.payload_seg g.signature_seg d.parsed,
          fits,
          decoded,
          small,
          d.header_parsed,
          d.header_valid,
        ) in
      rw kid at located
