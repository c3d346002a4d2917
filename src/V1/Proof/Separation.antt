-- ===== src/V1/Proof/Separation.antt =====
-- The member `typ` of a proof's header in sdks/rust/src/v1.rs keeps the profiles apart.
use bounded_authority_protoc.Base.{
  ◌≡◌, ◌≢◌, refl, sym, ◌∙◌, codes, List, [], ◌∷◌, Bytes, equal, equal-false_iff, ok, ok-injective,
  OnOk, OnOk-bind, OnOk-check, OnOk-all, OnOk-ok, ◌>>=◌,
}
use bounded_authority_protoc.Bounds.{Bounds}
use bounded_authority_protoc.Json.Value.{Float64, Json, as_object}
use bounded_authority_protoc.Json.Closed.{unset, collect_closed, require_text}
use bounded_authority_protoc.Json.Closed.Reading.{member_text, require_text-take_string}
use bounded_authority_protoc.Major.{Major, typ_proof, typ_local_loopback_http_proof}
use bounded_authority_protoc.V1.Proof.{
  ProofProfile, standard, local_loopback_http, proof_typ, DecodedProof, validate_proof_header_for,
  decode_proof_parts_for,
}
use bounded_authority_protoc.V1.Segments.Objects.{header_object, header_object-ok}
use bounded_authority_protoc.V1.Proof.Parts.{Decoding, decode_proof_parts_for-Decoding}

abbrev header_names : List Bytes
header_names = codes "alg" ∷ codes "typ" ∷ codes "jwk" ∷ []

module _ ⦃fl : Float64⦄ (m : Major) (header : Json) (bounds : Bounds) (profile : ProofProfile) where
  validate_proof_header_for-typ :
      OnOk
        (λ _. member_text header_names header (codes "typ") ≡ ok (proof_typ profile))
        (validate_proof_header_for m header bounds profile)
  unfolding validate_proof_header_for member_text
  validate_proof_header_for-typ = OnOk-bind P (as_object header) _ λ members e.
      OnOk-bind P (collect_closed header_names members unset) _ λ vars k.
        OnOk-check P (require_text (vars (codes "alg")) m.alg) _ λ _.
          OnOk-check P (require_text (vars (codes "typ")) (proof_typ profile)) _ λ typ.
            OnOk-all P _ λ _ _.
              rw (e, ◌>>=◌, k)
                (require_text-take_string (vars (codes "typ")) (proof_typ profile) typ)
    where
      P : Bytes → Type 0
      P _ = member_text header_names header (codes "typ") ≡ ok (proof_typ profile)

typ_apart : proof_typ standard ≢ proof_typ local_loopback_http
unfolding equal
typ_apart = (equal-false_iff typ_proof typ_local_loopback_http_proof).0 refl

proof_typ-injective : (p q : ProofProfile) → proof_typ p ≡ proof_typ q → p ≡ q
proof_typ-injective standard standard e = refl
proof_typ-injective local_loopback_http local_loopback_http e = refl
proof_typ-injective standard local_loopback_http e = absurd (typ_apart e)
proof_typ-injective local_loopback_http standard e = absurd (typ_apart (sym e))

module _ ⦃fl : Float64⦄ (m : Major) (compact : Bytes) (bounds : Bounds) where
  typ_of :
      (profile : ProofProfile) (p : DecodedProof)
      → Decoding m compact bounds profile p
      → (header_object compact bounds >>= λ h. member_text header_names h (codes "typ"))
        ≡ ok (proof_typ profile)
  typ_of profile p d =
      let object =
        header_object-ok compact bounds p.protected_seg p.payload_seg p.signature_seg d.header_bytes
          d.header d.parsed d.header_decoded d.header_parsed in
      let typ =
        OnOk-ok (λ _. member_text header_names d.header (codes "typ") ≡ ok (proof_typ profile)) _
          (validate_proof_header_for-typ m d.header bounds profile) d.header_valid in
      rw (object, ◌>>=◌) typ

  -- No compact is a proof of both profiles.
  pub decode_proof_parts_for-same_profile :
      (p q : ProofProfile) (a b : DecodedProof)
      → decode_proof_parts_for m compact bounds p ≡ ok a
      → decode_proof_parts_for m compact bounds q ≡ ok b
      → p ≡ q
  decode_proof_parts_for-same_profile p q a b h k =
      let x = typ_of p a (decode_proof_parts_for-Decoding m compact bounds p a h) in
      let y = typ_of q b (decode_proof_parts_for-Decoding m compact bounds q b k) in
      proof_typ-injective p q (ok-injective (sym x ∙ y))
