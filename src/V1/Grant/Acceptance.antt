-- ===== src/V1/Grant/Acceptance.antt =====
-- When `verify_grant` of sdks/rust/src/v1.rs accepts a grant.
use bounded_authority_protoc.Base.{
  ◌^◌, ◌<◌, ◌≤◌, ◌≡◌, refl, sym, ◌∙◌, true, Bytes, ok, ok-injective, arith,
}
use bounded_authority_protoc.Base.Int.{◌<ℤ◌, IsI64, i64_min}
use bounded_authority_protoc.Base64url.{base64url_decode}
use bounded_authority_protoc.Bounds.Tightening.{IsTight}
use bounded_authority_protoc.Json.Value.{Float64}
use bounded_authority_protoc.Major.{Major}
use bounded_authority_protoc.V1.Grant.{
  TrustedIssuer, ExpectedGrant, DecodedGrant, decode_grant_parts, verify_grant,
}
use bounded_authority_protoc.V1.Grant.Parts.{decode_grant_parts-Decoding}
use bounded_authority_protoc.V1.Grant.Times.{InWindow, InWindow-check_grant_times}
use bounded_authority_protoc.V1.Grant.Verified.{Accepted-verify_grant, facts_of}
use bounded_authority_protoc.V1.Segments.{signing_input_bytes, audience_matches}

-- A decoded grant that is the expected one, signed, and in its time.
pub record IsAcceptable ⦃fl : Float64⦄ (m : Major) (compact : Bytes) (issuer : TrustedIssuer)
    (expected : ExpectedGrant) (g : DecodedGrant) (fingerprint : Bytes) : Type 0 where
  pub signature : Bytes
  pub signature_decoded : base64url_decode g.signature_seg ≡ ok signature
  pub signed :
      m.verify issuer.public_key (signing_input_bytes g.protected_seg g.payload_seg) signature
      ≡ ok tt
  pub skew_fits : expected.skew ≤ expected.bounds.clock_skew
  pub same_key : g.key_id ≡ issuer.key_id
  pub same_issuer : g.payload.issuer ≡ expected.issuer
  pub for_audience : audience_matches g.payload.audiences expected.audience ≡ true
  pub window : InWindow g.payload expected
  pub is_fingerprint : m.thumbprint_raw issuer.public_key ≡ ok fingerprint

module _ ⦃fl : Float64⦄ (m : Major) (compact : Bytes) (issuer : TrustedIssuer)
    (expected : ExpectedGrant) where
  -- Under bounds that the protocol admits, a grant that is decoded, with the trusted issuer's key id and signature, the
  -- expected issuer and audience, and times in the window, is verified, and its facts are reported, provided that the
  -- skew is at most the bounds' ceiling, the thumbprint of the issuer's key is computed, the grant's times and the
  -- evaluation time are of 64 bits, and the expiry is not the least of these.
  pub verify_grant-accepts :
      (g : DecodedGrant) (fingerprint : Bytes)
      → IsTight expected.bounds
      → IsI64 expected.evaluation_time
      → IsI64 g.payload.issued_at × IsI64 g.payload.not_before × (i64_min <ℤ g.payload.expires_at)
      → decode_grant_parts m compact expected.bounds ≡ ok g
      → IsAcceptable m compact issuer expected g fingerprint
      → verify_grant m compact issuer expected
        ≡ ok (facts_of g.payload expected.audience fingerprint)
  verify_grant-accepts g fingerprint tight in_range times decoded a =
      let d = decode_grant_parts-Decoding m compact expected.bounds g decoded in
      let small : expected.skew < 2 ^ 63 = omega (arith, a.skew_fits, tight) in
      let same : a.signature ≡ d.signature =
        ok-injective (sym a.signature_decoded ∙ d.signature_decoded) in
      Accepted-verify_grant m compact issuer expected
        (facts_of g.payload expected.audience fingerprint)
        (record {
          parts = g;
          decoding = d;
          skew_fits = a.skew_fits;
          same_key = a.same_key;
          same_issuer = a.same_issuer;
          for_audience = a.for_audience;
          signed = rw same at a.signed;
          times = InWindow-check_grant_times g.payload expected in_range small times a.window;
          fingerprint = a.is_fingerprint;
          reported = refl;
        })
