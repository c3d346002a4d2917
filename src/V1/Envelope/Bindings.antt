-- ===== src/V1/Envelope/Bindings.antt =====
-- What `check_envelope` and its loopback variant of sdks/rust/src/v1.rs have established of what they accept.
use bounded_authority_protoc.Base.{
  ◌≡◌, refl, sym, ap, ◌∙◌, not, ◌&&◌, ◌||◌, List, ltb, ◌==◌, length, Bytes, equal, ok, refuse,
  refuse-equal_iff, ok-injective, OnOk, OnOk-bind, OnOk-check, OnOk-ok,
}
use bounded_authority_protoc.Base64url.{base64url_decode}
use bounded_authority_protoc.Crypto.{Crypto}
use bounded_authority_protoc.Json.Value.{Float64, Json}
use bounded_authority_protoc.Major.{Major}
use bounded_authority_protoc.V1.Envelope.{
  ExpectedRequest, Credentials, EnvelopeFacts, find_named, extract_operations, check_nonce,
  is_required, check_proof_window, expected_grant, selectors_hold, recomputed_request,
  check_envelope_for,
}
use bounded_authority_protoc.V1.Grant.{GrantFacts, DecodedGrant, decode_grant_parts, verify_grant}
use bounded_authority_protoc.V1.Proof.{
  ProofProfile, is_loopback, ProofPayload, DecodedProof, decode_proof_parts_for, normalize_for,
}
use bounded_authority_protoc.V1.Proof.Parts.{Decoding, decode_proof_parts_for-Decoding}
use bounded_authority_protoc.V1.Segments.{signing_input_bytes}

-- The facts that are reported.
abbrev pub facts_of : GrantFacts → ProofPayload → Bytes → Bytes → Bytes → EnvelopeFacts
facts_of grant payload uri ath request = record {
  grant = grant;
  proof_id = payload.proof_id;
  invocation_id = payload.invocation_id;
  operation = payload.operation;
  normalized_uri = uri;
  grant_hash = ath;
  request_hash = request;
  proof_iat = payload.issued_at;
}

pub record Accepted ⦃fl : Float64⦄ ⦃cr : Crypto⦄ (m : Major) (credentials : Credentials)
    (expected : ExpectedRequest) (profile : ProofProfile) (facts : EnvelopeFacts) : Type 0 where
  pub age :
      refuse
        (ltb expected.proof_max_age 1 || ltb expected.bounds.proof_max_age expected.proof_max_age)
      ≡ ok tt
  pub mode : refuse (is_loopback profile && not (is_required expected.nonce_mode)) ≡ ok tt
  pub grant_verified :
      verify_grant m credentials.grant expected.trusted_issuer (expected_grant expected)
      ≡ ok facts.grant
  pub grant_parts : DecodedGrant
  pub grant_decoded : decode_grant_parts m credentials.grant expected.bounds ≡ ok grant_parts
  pub operations : List (Bytes × List Json)
  pub extracted : extract_operations grant_parts.payload_json ≡ ok operations
  pub proof : DecodedProof
  pub decoded : decode_proof_parts_for m credentials.proof expected.bounds profile ≡ ok proof
  pub decoding : Decoding m credentials.proof expected.bounds profile proof
  pub holder : m.thumbprint_raw proof.holder_public_key ≡ ok facts.grant.holder_thumbprint
  pub signed :
      m.verify proof.holder_public_key
        (signing_input_bytes proof.protected_seg proof.payload_seg)
        decoding.signature
      ≡ ok tt
  pub ath : proof.payload.grant_hash ≡ cr.sha256 credentials.grant
  pub request : recomputed_request m expected ≡ ok proof.payload.request_hash
  pub same_method : proof.payload.method ≡ expected.method
  pub normalized :
      normalize_for profile expected.target_uri expected.bounds ≡ ok expected.target_uri
  pub same_uri : proof.payload.target_uri ≡ expected.target_uri
  pub same_invocation : proof.payload.invocation_id ≡ expected.invocation_id
  pub same_operation : proof.payload.operation ≡ expected.operation
  pub selectors : List Json
  pub matched : find_named expected.operation operations ≡ ok selectors
  pub hold : selectors_hold m selectors expected.cast_arguments expected.bounds ≡ ok tt
  pub window : check_proof_window proof.payload.issued_at expected ≡ ok tt
  pub nonce : check_nonce expected.nonce_mode proof.payload.nonce ≡ ok tt
  pub reported :
      facts_of facts.grant proof.payload expected.target_uri
        (cr.sha256 credentials.grant)
        proof.payload.request_hash
      ≡ facts

module _ ⦃fl : Float64⦄ ⦃cr : Crypto⦄ (m : Major) (credentials : Credentials)
    (expected : ExpectedRequest) (profile : ProofProfile) where
  Accepted-OnOk :
      OnOk
        (Accepted m credentials expected profile)
        (check_envelope_for m credentials expected profile)
  unfolding check_envelope_for
  Accepted-OnOk =
      let bounds = expected.bounds in
      OnOk-check P
        (refuse (ltb expected.proof_max_age 1 || ltb bounds.proof_max_age expected.proof_max_age)) _
        λ age.
          OnOk-check P (refuse (is_loopback profile && not (is_required expected.nonce_mode))) _
            λ mode.
              OnOk-bind P
                (verify_grant m credentials.grant expected.trusted_issuer (expected_grant expected))
                _
                λ gf verified.
                  OnOk-bind P (decode_grant_parts m credentials.grant bounds) _ λ parts decoded.
                    OnOk-bind P (extract_operations parts.payload_json) _ λ ops extracted.
                      OnOk-bind P (decode_proof_parts_for m credentials.proof bounds profile) _
                        λ p proof_decoded.
                          OnOk-bind P (m.thumbprint_raw p.holder_public_key) _ λ thumb thumb_is.
                            OnOk-check P (refuse (not (equal thumb gf.holder_thumbprint))) _
                              λ holder.
                                OnOk-bind P (base64url_decode p.signature_seg) _ λ sig sig_is.
                                  OnOk-check P (refuse (not (length sig == 64))) _ λ _.
                                    OnOk-check P
                                      (m.verify p.holder_public_key
                                        (signing_input_bytes p.protected_seg p.payload_seg) sig)
                                      _
                                      λ signed.
                                        OnOk-check P
                                          (refuse (
                                            not (
                                              equal p.payload.grant_hash
                                                (cr.sha256 credentials.grant))))
                                          _
                                          λ ath.
                                            OnOk-bind P (recomputed_request m expected) _
                                              λ req req_is.
                                                OnOk-check P
                                                  (refuse (not (equal p.payload.request_hash req)))
                                                  _
                                                  λ request.
                                                    OnOk-check P
                                                      (refuse (
                                                        not
                                                          (equal p.payload.method expected.method)))
                                                      _
                                                      λ method.
                                                        OnOk-bind P
                                                          (normalize_for profile expected.target_uri
                                                            bounds)
                                                          _
                                                          λ uri uri_is.
                                                            OnOk-check P
                                                            (refuse
                                                            (not (equal uri expected.target_uri)))
                                                            _
                                                            λ normalized.
                                                            OnOk-check P
                                                            (refuse
                                                            (not (equal p.payload.target_uri uri)))
                                                            _
                                                            λ target.
                                                            OnOk-check P
                                                            (refuse (
                                                            not (
                                                            equal p.payload.invocation_id
                                                            expected.invocation_id)))
                                                            _
                                                            λ invocation.
                                                            OnOk-check P
                                                            (refuse (
                                                            not (
                                                            equal p.payload.operation
                                                            expected.operation)))
                                                            _
                                                            λ operation.
                                                            OnOk-bind P
                                                            (find_named expected.operation ops) _
                                                            λ sels matched.
                                                            OnOk-check P
                                                            (selectors_hold m sels
                                                            expected.cast_arguments bounds)
                                                            _
                                                            λ hold.
                                                            OnOk-check P
                                                            (check_proof_window p.payload.issued_at
                                                            expected)
                                                            _
                                                            λ window.
                                                            OnOk-check P
                                                            (check_nonce expected.nonce_mode
                                                            p.payload.nonce)
                                                            _
                                                            λ nonce.
                                                            let d =
                                                            decode_proof_parts_for-Decoding m
                                                            credentials.proof bounds profile p
                                                            proof_decoded in
                                                            let same_uri =
                                                            (refuse-equal_iff uri
                                                            expected.target_uri).0
                                                            normalized in
                                                            let same_request =
                                                            (refuse-equal_iff p.payload.request_hash
                                                            req).0
                                                            request in
                                                            record {
                                                            age = age;
                                                            mode = mode;
                                                            grant_verified = verified;
                                                            grant_parts = parts;
                                                            grant_decoded = decoded;
                                                            operations = ops;
                                                            extracted = extracted;
                                                            proof = p;
                                                            decoded = proof_decoded;
                                                            decoding = d;
                                                            holder =
                                                            thumb_is
                                                            ∙ ap ok (
                                                            (refuse-equal_iff thumb
                                                            gf.holder_thumbprint).0
                                                            holder);
                                                            signed =
                                                            rw
                                                            (← ok-injective
                                                            (sym sig_is ∙ d.signature_decoded))
                                                            signed;
                                                            ath =
                                                            (refuse-equal_iff p.payload.grant_hash
                                                            (cr.sha256 credentials.grant)).0
                                                            ath;
                                                            request =
                                                            req_is ∙ ap ok (sym same_request);
                                                            same_method =
                                                            (refuse-equal_iff p.payload.method
                                                            expected.method).0
                                                            method;
                                                            normalized = uri_is ∙ ap ok same_uri;
                                                            same_uri =
                                                            (refuse-equal_iff p.payload.target_uri
                                                            uri).0
                                                            target
                                                            ∙ same_uri;
                                                            same_invocation =
                                                            (refuse-equal_iff
                                                            p.payload.invocation_id
                                                            expected.invocation_id).0
                                                            invocation;
                                                            same_operation =
                                                            (refuse-equal_iff p.payload.operation
                                                            expected.operation).0
                                                            operation;
                                                            selectors = sels;
                                                            matched = matched;
                                                            hold = hold;
                                                            window = window;
                                                            nonce = nonce;
                                                            reported =
                                                            rw (same_uri, same_request) refl;
                                                            }
    where
      P : EnvelopeFacts → Type 0
      P = Accepted m credentials expected profile

  pub check_envelope_for-Accepted :
      (facts : EnvelopeFacts)
      → check_envelope_for m credentials expected profile ≡ ok facts
      → Accepted m credentials expected profile facts
  check_envelope_for-Accepted facts h =
      OnOk-ok (Accepted m credentials expected profile) _ Accepted-OnOk h
