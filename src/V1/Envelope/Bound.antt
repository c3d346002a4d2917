-- ===== src/V1/Envelope/Bound.antt =====
-- The bindings of an accepted envelope, for `check_envelope` and its loopback variant of sdks/rust/src/v1.rs.
use bounded_authority_protoc.Base.{
  ℕ, ◌+◌, ◌^◌, ◌<◌, ◌≤◌, ◌≡◌, refl, sym, ap, ◌∙◌, subst, Option, none, some, true, not, List, [],
  ◌∷◌, ◌++◌, ltb, ◌||◌, All, Bytes, ok, refuse, refuse-not_iff, refuse-equal_iff, >>=-eq-ok,
  >>-eq-ok, arith,
}
use bounded_authority_protoc.Base.Int.{pos, IsI64, ◌+ℤ◌, ◌≤ℤ◌}
use bounded_authority_protoc.Base64url.{base64url_encode}
use bounded_authority_protoc.Bounds.{Bounds}
use bounded_authority_protoc.Bounds.Tightening.{IsTight}
use bounded_authority_protoc.Crypto.{Crypto}
use bounded_authority_protoc.Json.Value.{Float64, Json}
use bounded_authority_protoc.Major.{Major}
use bounded_authority_protoc.V1.Envelope.{
  ExpectedRequest, Credentials, EnvelopeFacts, NonceMode, not_required, required, find_named,
  extract_operations, check_nonce, expected_grant, selectors_hold, recomputed_request,
  check_envelope_for,
}
use bounded_authority_protoc.V1.Envelope.Bindings.{check_envelope_for-Accepted}
use bounded_authority_protoc.V1.Envelope.Window.{check_proof_window-le}
use bounded_authority_protoc.V1.Grant.{DecodedGrant, decode_grant_parts}
use bounded_authority_protoc.V1.Grant.Verified.{IsVerified, verify_grant-IsVerified}
use bounded_authority_protoc.V1.Proof.{
  ProofProfile, DecodedProof, decode_proof_parts_for, normalize_for,
}
use bounded_authority_protoc.V1.Proof.Parts.{Decoding-compact}
use bounded_authority_protoc.V1.Segments.{signing_input_bytes}

-- The nonce that a mode asks for.
abbrev pub nonce_of : NonceMode → Option Bytes
nonce_of not_required = none
nonce_of (required n) = some n

pub check_nonce-nonce_of :
    (mode : NonceMode) (nonce : Option Bytes)
    → check_nonce mode nonce ≡ ok tt
    → nonce ≡ nonce_of mode
unfolding check_nonce
check_nonce-nonce_of not_required none h = refl
check_nonce-nonce_of not_required (some n) h = cc
check_nonce-nonce_of (required k) none h = cc
check_nonce-nonce_of (required k) (some n) h = ap some ((refuse-equal_iff n k).0 h)

module _ ⦃fl : Float64⦄ (m : Major) (args : Json) (bounds : Bounds) where
  abbrev pub Holds : Json → Type 0
  Holds selector = m.selector_evaluate selector args bounds ≡ ok true

  pub selectors_hold-All :
      (sels : List Json) → selectors_hold m sels args bounds ≡ ok tt → All Holds sels
  unfolding selectors_hold
  selectors_hold-All [] h = tt
  selectors_hold-All (s ∷ sels) h =
      let (b, e, h₁) = >>=-eq-ok (m.selector_evaluate s args bounds) _ h in
      let (met, h₂) = >>-eq-ok (refuse (not b)) _ h₁ in
      (e ∙ ap ok ((refuse-not_iff b).0 met), selectors_hold-All sels h₂)

-- An envelope whose bindings hold: `payload` is the proof's, `holder_key` the key in its header.
pub record IsBound ⦃fl : Float64⦄ ⦃cr : Crypto⦄ (m : Major) (credentials : Credentials)
    (expected : ExpectedRequest) (profile : ProofProfile) (facts : EnvelopeFacts) : Type 0 where
  pub grant :
      IsVerified m credentials.grant expected.trusted_issuer (expected_grant expected) facts.grant
  pub proof : DecodedProof
  pub decoded : decode_proof_parts_for m credentials.proof expected.bounds profile ≡ ok proof
  pub holder : m.thumbprint_raw proof.holder_public_key ≡ ok facts.grant.holder_thumbprint
  pub signed_bytes : Bytes
  pub signature : Bytes
  pub received : signed_bytes ++ (b'.' ∷ base64url_encode signature) ≡ credentials.proof
  pub signed : m.verify proof.holder_public_key signed_bytes signature ≡ ok tt
  pub ath :
      (proof.payload.grant_hash ≡ cr.sha256 credentials.grant)
      × (facts.grant_hash ≡ cr.sha256 credentials.grant)
  pub request :
      (recomputed_request m expected ≡ ok proof.payload.request_hash)
      × (facts.request_hash ≡ proof.payload.request_hash)
  pub same_request :
      (proof.payload.method ≡ expected.method)
      × (proof.payload.target_uri ≡ expected.target_uri)
      × (proof.payload.invocation_id ≡ expected.invocation_id)
      × (proof.payload.operation ≡ expected.operation)
  pub normalized :
      normalize_for profile expected.target_uri expected.bounds ≡ ok expected.target_uri
  pub grant_parts : DecodedGrant
  pub grant_decoded : decode_grant_parts m credentials.grant expected.bounds ≡ ok grant_parts
  pub operations : List (Bytes × List Json)
  pub granted : extract_operations grant_parts.payload_json ≡ ok operations
  pub selectors : List Json
  pub matched : find_named expected.operation operations ≡ ok selectors
  pub hold : All (Holds m expected.cast_arguments expected.bounds) selectors
  pub recent :
      expected.evaluation_time ≤ℤ facts.proof_iat +ℤ pos (expected.proof_max_age + expected.skew)
  pub begun : facts.proof_iat ≤ℤ expected.evaluation_time +ℤ pos expected.skew
  pub nonce : proof.payload.nonce ≡ nonce_of expected.nonce_mode

age-le : (limit age : ℕ) → refuse (ltb age 1 || ltb limit age) ≡ ok tt → age ≤ limit
age-le limit age h = ground arith

module _ ⦃fl : Float64⦄ ⦃cr : Crypto⦄ (m : Major) (credentials : Credentials)
    (expected : ExpectedRequest) (profile : ProofProfile) (facts : EnvelopeFacts) where
  -- At an evaluation time of 64 bits and under bounds that the protocol admits, an envelope is accepted only if: its
  -- grant is verified for the request's issuer and audience; the key in the proof's header has the thumbprint that the
  -- grant confirms, and verifies the proof's signature over the bytes before its last dot, as they were received; the
  -- proof carries the hash of the grant as it was received and the digest of the expected operation and arguments; its
  -- method, target, invocation and operation are the expected ones, the target being normalized; every selector of the
  -- grant's first operation of that name holds of the arguments; its time is, in integers that do not overflow, not
  -- older than the greatest age and the skew and not ahead by more than the skew; and its nonce is the one asked for, or
  -- absent where none is.
  pub check_envelope_for-IsBound :
      IsTight expected.bounds
      → IsI64 expected.evaluation_time
      → check_envelope_for m credentials expected profile ≡ ok facts
      → IsBound m credentials expected profile facts
  check_envelope_for-IsBound tight in_range h =
      let a = check_envelope_for-Accepted m credentials expected profile facts h in
      let verified =
        verify_grant-IsVerified m credentials.grant expected.trusted_issuer
          (expected_grant expected) facts.grant tight in_range a.grant_verified in
      let made = a.reported in
      let sized : expected.skew < 2 ^ 63 = omega (arith, verified.skew_fits, tight) in
      let age : expected.proof_max_age < 2 ^ 63 =
        omega (arith, age-le expected.bounds.proof_max_age expected.proof_max_age a.age, tight) in
      let (recent, begun) =
        check_proof_window-le a.proof.payload.issued_at expected in_range sized age a.window in
      record {
        grant = verified;
        proof = a.proof;
        decoded = a.decoded;
        holder = a.holder;
        signed_bytes = signing_input_bytes a.proof.protected_seg a.proof.payload_seg;
        signature = a.decoding.signature;
        received = Decoding-compact m credentials.proof expected.bounds profile a.proof a.decoding;
        signed = a.signed;
        ath = (a.ath, sym (ap (λ f. f.grant_hash) made));
        request = (a.request, sym (ap (λ f. f.request_hash) made));
        same_request = (a.same_method, a.same_uri, a.same_invocation, a.same_operation);
        normalized = a.normalized;
        grant_parts = a.grant_parts;
        grant_decoded = a.grant_decoded;
        operations = a.operations;
        granted = a.extracted;
        selectors = a.selectors;
        matched = a.matched;
        hold = selectors_hold-All m expected.cast_arguments expected.bounds a.selectors a.hold;
        recent =
            subst
              (λ f.
                expected.evaluation_time
                ≤ℤ f.proof_iat +ℤ pos (expected.proof_max_age + expected.skew))
              made recent;
        begun =
            subst (λ f. f.proof_iat ≤ℤ expected.evaluation_time +ℤ pos expected.skew) made begun;
        nonce = check_nonce-nonce_of expected.nonce_mode a.proof.payload.nonce a.nonce;
      }
