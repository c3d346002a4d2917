-- ===== src/V1/Envelope/Acceptance.antt =====
-- When `check_envelope` and its loopback variant of sdks/rust/src/v1.rs accept an envelope.
use bounded_authority_protoc.Base.{
  ℕ, ◌+◌, ◌^◌, ◌<◌, ◌≤◌, ◌≡◌, refl, sym, ap, ◌∙◌, Bool, true, false, not, ◌&&◌, ◌||◌, Option, none,
  some, List, [], ◌∷◌, ltb, length, All, Bytes, ok, ok-injective, >>=-ok, refuse, refuse-equal_iff,
  refuse-size_iff, arith,
}
use bounded_authority_protoc.Base.Int.{pos, IsI64, ◌+ℤ◌, ◌≤ℤ◌}
use bounded_authority_protoc.Base64url.{base64url_decode}
use bounded_authority_protoc.Bounds.{Bounds}
use bounded_authority_protoc.Bounds.Tightening.{IsTight}
use bounded_authority_protoc.Crypto.{Crypto}
use bounded_authority_protoc.Json.Value.{Float64, Json}
use bounded_authority_protoc.Major.{Major}
use bounded_authority_protoc.V1.Envelope.{
  ExpectedRequest, Credentials, NonceMode, not_required, required, is_required, find_named,
  extract_operations, check_nonce, expected_grant, selectors_hold, recomputed_request,
  check_envelope_for,
}
use bounded_authority_protoc.V1.Envelope.Bindings.{facts_of}
use bounded_authority_protoc.V1.Envelope.Bound.{nonce_of, Holds}
use bounded_authority_protoc.V1.Envelope.Window.{le-check_proof_window}
use bounded_authority_protoc.V1.Grant.{GrantFacts, DecodedGrant, decode_grant_parts, verify_grant}
use bounded_authority_protoc.V1.Grant.Verified.{verify_grant-IsVerified}
use bounded_authority_protoc.V1.Proof.{
  ProofProfile, is_loopback, DecodedProof, decode_proof_parts_for, normalize_for,
}
use bounded_authority_protoc.V1.Proof.Parts.{decode_proof_parts_for-Decoding}
use bounded_authority_protoc.V1.Segments.{signing_input_bytes}

nonce_of-check_nonce :
    (mode : NonceMode) (nonce : Option Bytes)
    → nonce ≡ nonce_of mode
    → check_nonce mode nonce ≡ ok tt
unfolding check_nonce
nonce_of-check_nonce not_required none h = refl
nonce_of-check_nonce not_required (some n) h = absurd (cc h)
nonce_of-check_nonce (required k) none h = absurd (cc h)
nonce_of-check_nonce (required k) (some n) h =
    let same : n ≡ k = cc h in (refuse-equal_iff n k).1 same

All-selectors_hold :
    ⦃fl : Float64⦄
    → (m : Major) (args : Json) (bounds : Bounds) (sels : List Json)
    → All (Holds m args bounds) sels
    → selectors_hold m sels args bounds ≡ ok tt
unfolding selectors_hold
All-selectors_hold m args bounds [] h = refl
All-selectors_hold m args bounds (s ∷ sels) h =
    simp (h.0, All-selectors_hold m args bounds sels h.1)

le-age : (limit age : ℕ) → 1 ≤ age → age ≤ limit → refuse (ltb age 1 || ltb limit age) ≡ ok tt
le-age limit age h k = ground arith

asked :
    (loopback req : Bool) → (loopback ≡ true → req ≡ true) → refuse (loopback && not req) ≡ ok tt
asked true true h = refl
asked true false h = absurd (cc (h refl))
asked false req h = refl

-- A grant and a proof that are for one another and for the request.
pub record IsAdmissible ⦃fl : Float64⦄ ⦃cr : Crypto⦄ (m : Major) (credentials : Credentials)
    (expected : ExpectedRequest) (profile : ProofProfile) (grant : GrantFacts)
    (grant_parts : DecodedGrant) (proof : DecodedProof) : Type 0 where
  pub some_age : 1 ≤ expected.proof_max_age
  pub age_fits : expected.proof_max_age ≤ expected.bounds.proof_max_age
  pub nonce_asked : is_loopback profile ≡ true → is_required expected.nonce_mode ≡ true
  pub holder : m.thumbprint_raw proof.holder_public_key ≡ ok grant.holder_thumbprint
  pub signature : Bytes
  pub signature_decoded : base64url_decode proof.signature_seg ≡ ok signature
  pub signed :
      m.verify proof.holder_public_key
        (signing_input_bytes proof.protected_seg proof.payload_seg)
        signature
      ≡ ok tt
  pub ath : proof.payload.grant_hash ≡ cr.sha256 credentials.grant
  pub request : recomputed_request m expected ≡ ok proof.payload.request_hash
  pub same_method : proof.payload.method ≡ expected.method
  pub normalized :
      normalize_for profile expected.target_uri expected.bounds ≡ ok expected.target_uri
  pub same_uri : proof.payload.target_uri ≡ expected.target_uri
  pub same_invocation : proof.payload.invocation_id ≡ expected.invocation_id
  pub same_operation : proof.payload.operation ≡ expected.operation
  pub operations : List (Bytes × List Json)
  pub granted : extract_operations grant_parts.payload_json ≡ ok operations
  pub selectors : List Json
  pub matched : find_named expected.operation operations ≡ ok selectors
  pub hold : All (Holds m expected.cast_arguments expected.bounds) selectors
  pub recent :
      expected.evaluation_time
      ≤ℤ proof.payload.issued_at +ℤ pos (expected.proof_max_age + expected.skew)
  pub begun : proof.payload.issued_at ≤ℤ expected.evaluation_time +ℤ pos expected.skew
  pub nonce : proof.payload.nonce ≡ nonce_of expected.nonce_mode

module _ ⦃fl : Float64⦄ ⦃cr : Crypto⦄ (m : Major) (credentials : Credentials)
    (expected : ExpectedRequest) (profile : ProofProfile) (grant : GrantFacts)
    (grant_parts : DecodedGrant) (proof : DecodedProof) where
  -- Under bounds that the protocol admits, and with an evaluation time and a proof's time of 64 bits, an envelope is
  -- accepted whose grant is verified and whose proof is decoded, provided that: the greatest age is positive and within
  -- the bounds, and the loopback profile is asked for with a nonce; the key in the proof's header has the thumbprint that
  -- the grant confirms and verifies the proof's signature; the proof carries the hash of the grant, the digest of the
  -- expected request, and the expected method, target, invocation, operation and nonce, the target being normalized;
  -- the grant has the operation, and all selectors of the first of that name hold; and the proof's time is not older than
  -- the greatest age and the skew and not ahead by more than the skew. The facts are the grant's and the proof's.
  pub check_envelope_for-accepts :
      IsTight expected.bounds
      → IsI64 expected.evaluation_time
      → IsI64 proof.payload.issued_at
      → verify_grant m credentials.grant expected.trusted_issuer (expected_grant expected)
        ≡ ok grant
      → decode_grant_parts m credentials.grant expected.bounds ≡ ok grant_parts
      → decode_proof_parts_for m credentials.proof expected.bounds profile ≡ ok proof
      → IsAdmissible m credentials expected profile grant grant_parts proof
      → check_envelope_for m credentials expected profile
        ≡ ok (
            facts_of grant proof.payload expected.target_uri
              (cr.sha256 credentials.grant)
              proof.payload.request_hash)
  unfolding check_envelope_for
  check_envelope_for-accepts tight eval_in iat_in verified parts_are proof_is a =
      let bounds = expected.bounds in
      let p = proof.payload in
      let d = decode_proof_parts_for-Decoding m credentials.proof bounds profile proof proof_is in
      let v =
        verify_grant-IsVerified m credentials.grant expected.trusted_issuer
          (expected_grant expected) grant tight eval_in verified in
      let same_signature : a.signature ≡ d.signature =
        ok-injective (sym a.signature_decoded ∙ d.signature_decoded) in
      let sized : length a.signature ≡ 64 = ap length same_signature ∙ d.signature_size in
      let skew : expected.skew < 2 ^ 63 = omega (arith, v.skew_fits, tight) in
      let age : expected.proof_max_age < 2 ^ 63 = omega (arith, a.age_fits, tight) in
      let aged = le-age bounds.proof_max_age expected.proof_max_age a.some_age a.age_fits in
      let mode = asked (is_loopback profile) (is_required expected.nonce_mode) a.nonce_asked in
      >>=-ok
        (refuse (ltb expected.proof_max_age 1 || ltb bounds.proof_max_age expected.proof_max_age)) _
        aged
        (>>=-ok (refuse (is_loopback profile && not (is_required expected.nonce_mode))) _ mode (
          >>=-ok
            (verify_grant m credentials.grant expected.trusted_issuer (expected_grant expected)) _
            verified
            (>>=-ok (decode_grant_parts m credentials.grant bounds) _ parts_are (
              >>=-ok (extract_operations grant_parts.payload_json) _ a.granted (
                >>=-ok (decode_proof_parts_for m credentials.proof bounds profile) _ proof_is (
                  simp (
                    a.holder,
                    (refuse-equal_iff grant.holder_thumbprint grant.holder_thumbprint).1 refl,
                    a.signature_decoded,
                    (refuse-size_iff (length a.signature) 64).1 sized,
                    a.signed,
                    (refuse-equal_iff p.grant_hash (cr.sha256 credentials.grant)).1 a.ath,
                    a.request,
                    (refuse-equal_iff p.request_hash p.request_hash).1 refl,
                    (refuse-equal_iff p.method expected.method).1 a.same_method,
                    a.normalized,
                    (refuse-equal_iff expected.target_uri expected.target_uri).1 refl,
                    (refuse-equal_iff p.target_uri expected.target_uri).1 a.same_uri,
                    (refuse-equal_iff p.invocation_id expected.invocation_id).1 a.same_invocation,
                    (refuse-equal_iff p.operation expected.operation).1 a.same_operation,
                    a.matched,
                    All-selectors_hold m expected.cast_arguments bounds a.selectors a.hold,
                    le-check_proof_window p.issued_at expected eval_in iat_in skew age a.recent
                        a.begun,
                    nonce_of-check_nonce expected.nonce_mode p.nonce a.nonce,
                  )))))))
