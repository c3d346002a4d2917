-- ===== src/V1/Grant/Versions.antt =====
-- The claim `v` keeps the grants of sdks/rust/src/v1.rs and its successors apart.
use bounded_authority_protoc.Base.{
  ◌≡◌, sym, ◌∙◌, codes, Bytes, ok, ok-injective, >>=-eq-ok, OnOk, OnOk-bind, OnOk-check, OnOk-all,
  OnOk-ok, ◌>>=◌,
}
use bounded_authority_protoc.Bounds.{Bounds}
use bounded_authority_protoc.Json.Value.{Float64, Json, as_object}
use bounded_authority_protoc.Json.Closed.{unset, collect_closed, require_int}
use bounded_authority_protoc.Json.Closed.Reading.{member_int, require_int-take_integral_date}
use bounded_authority_protoc.Major.{Major}
use bounded_authority_protoc.V1.Grant.{
  GrantPayload, GrantDecoded, DecodedGrant, grant_claims, validate_grant_payload,
  decode_grant_parts, decode_grant,
}
use bounded_authority_protoc.V1.Grant.Parts.{Decoding, decode_grant_parts-Decoding}
use bounded_authority_protoc.V1.Segments.Objects.{payload_object, payload_object-ok}

module _ ⦃fl : Float64⦄ (m : Major) (json : Json) (bounds : Bounds) where
  validate_grant_payload-v :
      OnOk
        (λ _. member_int grant_claims json (codes "v") ≡ ok m.version)
        (validate_grant_payload m json bounds)
  unfolding validate_grant_payload member_int
  validate_grant_payload-v = OnOk-bind P (as_object json) _ λ members e.
      OnOk-bind P (collect_closed grant_claims members unset) _ λ vars k.
        OnOk-check P (require_int (vars (codes "v")) m.version) _ λ v.
          OnOk-all P _
            λ _ _. rw (e, ◌>>=◌, k) (require_int-take_integral_date (vars (codes "v")) m.version v)
    where
      P : GrantPayload → Type 0
      P _ = member_int grant_claims json (codes "v") ≡ ok m.version

module _ ⦃fl : Float64⦄ (compact : Bytes) (bounds : Bounds) where
  version_of :
      (m : Major) (g : DecodedGrant)
      → Decoding m compact bounds g
      → (payload_object compact bounds >>= λ json. member_int grant_claims json (codes "v"))
        ≡ ok m.version
  version_of m g d =
      let object =
        payload_object-ok compact bounds g.protected_seg g.payload_seg g.signature_seg
          d.payload_bytes g.payload_json d.parsed d.payload_decoded d.payload_parsed in
      let v =
        OnOk-ok (λ _. member_int grant_claims g.payload_json (codes "v") ≡ ok m.version) _
          (validate_grant_payload-v m g.payload_json bounds) d.payload_valid in
      rw (object, ◌>>=◌) v

  -- Under the same bounds a compact is decoded as a grant of one version only.
  pub decode_grant-same_version :
      (m n : Major) (a b : GrantDecoded)
      → decode_grant m compact bounds ≡ ok a
      → decode_grant n compact bounds ≡ ok b
      → m.version ≡ n.version
  unfolding decode_grant
  decode_grant-same_version m n a b h k =
      let (g, e, _) = >>=-eq-ok (decode_grant_parts m compact bounds) _ h in
      let (g', e', _) = >>=-eq-ok (decode_grant_parts n compact bounds) _ k in
      let x = version_of m g (decode_grant_parts-Decoding m compact bounds g e) in
      let y = version_of n g' (decode_grant_parts-Decoding n compact bounds g' e') in
      ok-injective (sym x ∙ y)
