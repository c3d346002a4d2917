-- ===== src/V1/Envelope/Replay.antt =====
-- Two requests with one proof, for `check_envelope` of sdks/rust/src/v1.rs.
use bounded_authority_protoc.Base.{
  ◌≡◌, ◌≢◌, sym, ap, ◌∙◌, ◌⊎◌, inl, inr, Bytes, equal, equal→eq, equal-false_iff, Bool-cases, ok,
  ok-injective,
}
use bounded_authority_protoc.Bounds.{Bounds}
use bounded_authority_protoc.Crypto.{Crypto}
use bounded_authority_protoc.Json.Value.{Float64}
use bounded_authority_protoc.Major.{Major}
use bounded_authority_protoc.V1.Envelope.{
  ExpectedRequest, EnvelopeFacts, recomputed_request, check_envelope_for,
}
use bounded_authority_protoc.V1.Envelope.Bindings.{Accepted, check_envelope_for-Accepted}
use bounded_authority_protoc.V1.Envelope.Bound.{nonce_of, check_nonce-nonce_of}
use bounded_authority_protoc.V1.Proof.{ProofProfile, decode_proof_parts_for}
use bounded_authority_protoc.V1.Proof.Separation.{decode_proof_parts_for-same_profile}

-- Two texts that differ and have the same hash.
abbrev pub HashCollision : (Bytes → Bytes) → Type 0
HashCollision sha256 = (x : Bytes) × (y : Bytes) × (x ≢ y) × (sha256 x ≡ sha256 y)

pub same_or_HashCollision :
    (sha256 : Bytes → Bytes) (x y : Bytes) → sha256 x ≡ sha256 y → (x ≡ y) ⊎ HashCollision sha256
same_or_HashCollision sha256 x y h = elim (Bool-cases (equal x y)) [
  | inl e ↦ inl (equal→eq x y e)
  | inr e ↦ inr (x, y, (equal-false_iff x y).0 e, h)
]

-- Two requests that one proof can be for.
pub record SameRequest ⦃fl : Float64⦄ (m : Major) (e e' : ExpectedRequest) : Type 0 where
  pub method : e.method ≡ e'.method
  pub target_uri : e.target_uri ≡ e'.target_uri
  pub invocation_id : e.invocation_id ≡ e'.invocation_id
  pub operation : e.operation ≡ e'.operation
  pub digest : recomputed_request m e ≡ recomputed_request m e'
  pub nonce : nonce_of e.nonce_mode ≡ nonce_of e'.nonce_mode

module _ ⦃fl : Float64⦄ ⦃cr : Crypto⦄ (m : Major) (proof : Bytes) (bounds : Bounds) where
  -- The profile and the decoded proof of two accepted envelopes are one.
  same_proof :
      (grant grant' : Bytes) (e e' : ExpectedRequest) (p p' : ProofProfile) (f f' : EnvelopeFacts)
      → e.bounds ≡ bounds
      → e'.bounds ≡ bounds
      → (a : Accepted m (record { grant = grant; proof = proof }) e p f)
      → (b : Accepted m (record { grant = grant'; proof = proof }) e' p' f')
      → (p ≡ p') × (a.proof ≡ b.proof)
  same_proof grant grant' e e' p p' f f' same same' a b =
      let x : decode_proof_parts_for m proof bounds p ≡ ok a.proof = rw (← same) a.decoded in
      let y : decode_proof_parts_for m proof bounds p' ≡ ok b.proof = rw (← same') b.decoded in
      let profile = decode_proof_parts_for-same_profile m proof bounds p p' a.proof b.proof x y in
      let z : decode_proof_parts_for m proof bounds p ≡ ok b.proof = rw profile y in
      (profile, ok-injective (sym x ∙ z))

  -- A proof that is accepted twice, under the same bounds, with any grants and for any requests, is accepted for one method, target, invocation, operation, request digest and
  -- nonce, in the same profile, and with one grant, unless two grants are at hand that the hash does not tell apart.
  pub check_envelope_for-SameRequest :
      (grant grant' : Bytes) (e e' : ExpectedRequest) (p p' : ProofProfile) (f f' : EnvelopeFacts)
      → e.bounds ≡ bounds
      → e'.bounds ≡ bounds
      → check_envelope_for m (record { grant = grant; proof = proof }) e p ≡ ok f
      → check_envelope_for m (record { grant = grant'; proof = proof }) e' p' ≡ ok f'
      → (p ≡ p') × SameRequest m e e' × ((grant ≡ grant') ⊎ HashCollision cr.sha256)
  check_envelope_for-SameRequest grant grant' e e' p p' f f' same same' h k =
      let a = check_envelope_for-Accepted m (record { grant = grant; proof = proof }) e p f h in
      let b = check_envelope_for-Accepted m (record { grant = grant'; proof = proof }) e' p' f' k in
      let (profile, one) = same_proof grant grant' e e' p p' f f' same same' a b in
      let payload = ap (λ q. q.payload) one in
      let nonce = check_nonce-nonce_of e.nonce_mode a.proof.payload.nonce a.nonce in
      let nonce' = check_nonce-nonce_of e'.nonce_mode b.proof.payload.nonce b.nonce in
      (
        profile,
        record {
          method = sym a.same_method ∙ ap (λ q. q.method) payload ∙ b.same_method;
          target_uri = sym a.same_uri ∙ ap (λ q. q.target_uri) payload ∙ b.same_uri;
          invocation_id =
              sym a.same_invocation ∙ ap (λ q. q.invocation_id) payload ∙ b.same_invocation;
          operation = sym a.same_operation ∙ ap (λ q. q.operation) payload ∙ b.same_operation;
          digest = a.request ∙ ap (λ q. ok q.request_hash) payload ∙ sym b.request;
          nonce = sym nonce ∙ ap (λ q. q.nonce) payload ∙ nonce';
        },
        same_or_HashCollision cr.sha256 grant grant'
            (sym a.ath ∙ ap (λ q. q.grant_hash) payload ∙ b.ath),
      )
