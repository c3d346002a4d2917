-- ===== src/V1/Producer.antt =====
-- `grant_signing_input` and `build_produced` of sdks/rust/src/v1.rs: what an issuer signs.
use bounded_authority_protoc.Base.{
  ◌||◌, List, [], ◌∷◌, map, ltb, ◌==◌, length, any, Bytes, codes, equal, Result, ok, ◌>>=◌, ◌>>◌,
  refuse,
}
use bounded_authority_protoc.Base.Int.{ℤ}
use bounded_authority_protoc.Base64url.{base64url_encode}
use bounded_authority_protoc.Bounds.{Bounds}
use bounded_authority_protoc.Jcs.Encode.{jcs_encode}
use bounded_authority_protoc.Json.Value.{
  Float64, Json, int, string, array, object, no_members, member, of_items,
}
use bounded_authority_protoc.Major.{Major, typ_grant}
use bounded_authority_protoc.Utf8.{from_utf8}
use bounded_authority_protoc.V1.Claims.{validate_kid, validate_operation_name, validate_selectors}
use bounded_authority_protoc.V1.Identifier.{validate_identifier}
use bounded_authority_protoc.V1.Segments.{signing_input_bytes}

pub record ProducedSigningInput : Type 0 where
  pub protected_segment : Bytes
  pub payload_segment : Bytes
  pub message : Bytes

-- An audience that is valid and not met before.
unfoldable pub check_audiences : List Bytes → List Bytes → Bounds → Result (Unit {0})
unfolding validate_identifier equal
check_audiences seen [] bounds = ok tt
check_audiences seen (aud ∷ auds) bounds = do
  validate_identifier aud bounds
  refuse (any (equal aud) seen)
  check_audiences (aud ∷ seen) auds bounds

module _ ⦃fl : Float64⦄ where
  pub record GrantOperation : Type 0 where
    pub name : Bytes
    pub selectors : List Json

  pub record GrantInput : Type 0 where
    pub key_id : Bytes
    pub issuer : Bytes
    pub grant_id : Bytes
    pub audiences : List Bytes
    pub holder_thumbprint : Bytes
    pub issued_at : ℤ
    pub not_before : ℤ
    pub expires_at : ℤ
    pub operations : List GrantOperation

  unfoldable pub build_produced : Json → Json → Bounds → Result ProducedSigningInput
  unfolding jcs_encode base64url_encode signing_input_bytes
  build_produced header payload bounds = do
    header_jcs ← jcs_encode bounds header
    payload_jcs ← jcs_encode bounds payload
    let protected_segment = base64url_encode header_jcs
    let payload_segment = base64url_encode payload_jcs
    ok (record {
      protected_segment = protected_segment;
      payload_segment = payload_segment;
      message = signing_input_bytes protected_segment payload_segment;
    })

  abbrev pub operation_object : GrantOperation → Json
  operation_object op = object (
      member (codes "name") (string op.name)
        (member (codes "selectors") (array (of_items op.selectors)) no_members))

module _ ⦃fl : Float64⦄ (m : Major) where
  unfoldable pub check_operations : List Bytes → List GrantOperation → Bounds → Result (Unit {0})
  unfolding validate_operation_name equal validate_selectors
  check_operations seen [] bounds = ok tt
  check_operations seen (op ∷ ops) bounds = do
    validate_operation_name op.name bounds
    refuse (any (equal op.name) seen)
    refuse (length op.selectors == 0 || ltb bounds.selectors (length op.selectors))
    validate_selectors m op.selectors bounds
    check_operations (op.name ∷ seen) ops bounds

  abbrev pub grant_header : GrantInput → Json
  grant_header grant = object (
      member (codes "alg") (string m.alg) (
        member (codes "kid") (string grant.key_id)
          (member (codes "typ") (string typ_grant) no_members)))

  abbrev pub grant_object : GrantInput → Bytes → Json
  grant_object grant jkt = object (
      member (codes "aud") (array (of_items (map string grant.audiences))) (
        member (codes "cnf") (object (member (codes "jkt") (string jkt) no_members)) (
          member (codes "exp") (int grant.expires_at) (
            member (codes "iat") (int grant.issued_at) (
              member (codes "iss") (string grant.issuer) (
                member (codes "jti") (string grant.grant_id) (
                  member (codes "nbf") (int grant.not_before) (
                    member (codes "operations")
                      (array (of_items (map operation_object grant.operations)))
                      (member (codes "v") (int m.version) no_members)))))))))

  unfoldable pub grant_signing_input : GrantInput → Bounds → Result ProducedSigningInput
  unfolding validate_kid validate_identifier check_audiences check_operations base64url_encode
      from_utf8 build_produced
  grant_signing_input grant bounds = do
    validate_kid grant.key_id bounds
    validate_identifier grant.issuer bounds
    validate_identifier grant.grant_id bounds
    refuse (length grant.audiences == 0 || ltb bounds.audiences (length grant.audiences))
    check_audiences [] grant.audiences bounds
    refuse (length grant.operations == 0 || ltb bounds.operations (length grant.operations))
    check_operations [] grant.operations bounds
    jkt ← from_utf8 (base64url_encode grant.holder_thumbprint)
    build_produced (grant_header grant) (grant_object grant jkt) bounds
