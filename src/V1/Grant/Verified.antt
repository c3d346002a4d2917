-- ===== src/V1/Grant/Verified.antt =====
-- What `verify_grant` of sdks/rust/src/v1.rs has established of a grant that it accepts.
use mathlib.Core.List.{Mem, mem-cons_self, mem-cons_of_mem}
use bounded_authority_protoc.Base.{
  ◌^◌, ◌<◌, ◌≤◌, ◌≡◌, refl, sym, ap, ◌∙◌, subst, true, not, List, [], ◌∷◌, ◌++◌, ltb, ◌==◌, length,
  Bytes, equal, equal→eq, Bool-cases, inl, inr, OnOk-ok, ok, refuse, refuse-not_iff,
  refuse-equal_iff, refuse-over_iff, refuse-size_iff, >>=-eq-ok, >>-eq-ok, ok-injective, arith,
  ◌>>=◌,
}
use bounded_authority_protoc.Base.Int.{pos, ◌+ℤ◌, ◌≤ℤ◌, ◌<ℤ◌, IsI64}
use bounded_authority_protoc.Base64url.{base64url_encode, base64url_decode}
use bounded_authority_protoc.Bounds.Tightening.{IsTight}
use bounded_authority_protoc.Json.Value.{Float64}
use bounded_authority_protoc.Major.{Major}
use bounded_authority_protoc.V1.Grant.{
  TrustedIssuer, ExpectedGrant, GrantFacts, GrantPayload, DecodedGrant, GrantDecoded, decode_grant,
  decode_grant_parts, verify_grant, check_grant_times,
}
use bounded_authority_protoc.V1.Grant.Parts.{
  Decoding, Decoding-compact, Coherent, validate_grant_payload-Coherent,
  decode_grant_parts-Decoding, Decoding-decode_grant_parts,
}
use bounded_authority_protoc.V1.Grant.Times.{check_grant_times-InWindow}
use bounded_authority_protoc.V1.Segments.{signing_input_bytes, audience_matches}

audience_matches-Mem : (xs : List Bytes) (a : Bytes) → audience_matches xs a ≡ true → Mem a xs
unfolding audience_matches
audience_matches-Mem [] a h = cc
audience_matches-Mem (x ∷ xs) a h = elim (Bool-cases (equal x a)) [
  | inl e ↦ rw (equal→eq x a e) mem-cons_self
  | inr e ↦ mem-cons_of_mem x (audience_matches-Mem xs a (ground arith))
]

-- The facts that are reported of a grant.
abbrev pub facts_of : GrantPayload → Bytes → Bytes → GrantFacts
facts_of payload audience fingerprint = record {
  version = payload.version;
  issuer = payload.issuer;
  grant_id = payload.grant_id;
  issuer_key_fingerprint = fingerprint;
  holder_thumbprint = payload.holder_thumbprint;
  matched_audience = audience;
  iat = payload.issued_at;
  nbf = payload.not_before;
  exp = payload.expires_at;
}

abbrev view_of : ⦃fl : Float64⦄ → DecodedGrant → GrantDecoded
view_of g = record {
  key_id = g.key_id;
  version = g.payload.version;
  issuer = g.payload.issuer;
  grant_id = g.payload.grant_id;
  audiences = g.payload.audiences;
  holder_thumbprint = g.payload.holder_thumbprint;
  issued_at = g.payload.issued_at;
  not_before = g.payload.not_before;
  expires_at = g.payload.expires_at;
}

-- The parts of the grant, whose signature is the issuer's over the signed bytes of the grant as it was received.
pub record Accepted ⦃fl : Float64⦄ (m : Major) (compact : Bytes) (issuer : TrustedIssuer)
    (expected : ExpectedGrant) (facts : GrantFacts) : Type 0 where
  pub parts : DecodedGrant
  pub decoding : Decoding m compact expected.bounds parts
  pub skew_fits : expected.skew ≤ expected.bounds.clock_skew
  pub same_key : parts.key_id ≡ issuer.key_id
  pub same_issuer : parts.payload.issuer ≡ expected.issuer
  pub for_audience : audience_matches parts.payload.audiences expected.audience ≡ true
  pub signed :
      m.verify issuer.public_key
        (signing_input_bytes parts.protected_seg parts.payload_seg)
        decoding.signature
      ≡ ok tt
  pub times : check_grant_times parts.payload expected ≡ ok tt
  pub fingerprint : m.thumbprint_raw issuer.public_key ≡ ok facts.issuer_key_fingerprint
  pub reported : facts_of parts.payload expected.audience facts.issuer_key_fingerprint ≡ facts

module _ ⦃fl : Float64⦄ (m : Major) (compact : Bytes) (issuer : TrustedIssuer)
    (expected : ExpectedGrant) (facts : GrantFacts) where
  pub verify_grant-Accepted :
      verify_grant m compact issuer expected ≡ ok facts → Accepted m compact issuer expected facts
  unfolding verify_grant
  verify_grant-Accepted h =
      let bounds = expected.bounds in
      let (skew, h₁) = >>-eq-ok (refuse (ltb bounds.clock_skew expected.skew)) _ h in
      let (g, decoded, h₂) = >>=-eq-ok (decode_grant_parts m compact bounds) _ h₁ in
      let (key, h₃) = >>-eq-ok (refuse (not (equal g.key_id issuer.key_id))) _ h₂ in
      let (iss, h₄) = >>-eq-ok (refuse (not (equal g.payload.issuer expected.issuer))) _ h₃ in
      let (aud, h₅) =
        >>-eq-ok (refuse (not (audience_matches g.payload.audiences expected.audience))) _ h₄ in
      let (sig, sig_is, h₆) = >>=-eq-ok (base64url_decode g.signature_seg) _ h₅ in
      let (_, h₇) = >>-eq-ok (refuse (not (length sig == 64))) _ h₆ in
      let (signed, h₈) =
        >>-eq-ok
          (m.verify issuer.public_key (signing_input_bytes g.protected_seg g.payload_seg) sig) _
          h₇ in
      let (times, h₉) = >>-eq-ok (check_grant_times g.payload expected) _ h₈ in
      let (fp, fp_is, e) = >>=-eq-ok (m.thumbprint_raw issuer.public_key) _ h₉ in
      let d = decode_grant_parts-Decoding m compact bounds g decoded in
      let same_sig : sig ≡ d.signature = ok-injective (sym sig_is ∙ d.signature_decoded) in
      let reported : facts_of g.payload expected.audience fp ≡ facts = ok-injective e in
      let same_fp : fp ≡ facts.issuer_key_fingerprint =
        ap (λ f. f.issuer_key_fingerprint) reported in
      record {
        parts = g;
        decoding = d;
        skew_fits = (refuse-over_iff bounds.clock_skew expected.skew).0 skew;
        same_key = (refuse-equal_iff g.key_id issuer.key_id).0 key;
        same_issuer = (refuse-equal_iff g.payload.issuer expected.issuer).0 iss;
        for_audience =
            (refuse-not_iff (audience_matches g.payload.audiences expected.audience)).0 aud;
        signed = rw (← same_sig) signed;
        times = times;
        fingerprint = fp_is ∙ ap ok same_fp;
        reported = rw same_fp at reported;
      }

  pub Accepted-verify_grant :
      Accepted m compact issuer expected facts → verify_grant m compact issuer expected ≡ ok facts
  unfolding verify_grant
  Accepted-verify_grant a =
      let d = a.decoding in
      let g = a.parts in
      let passed : verify_grant m compact issuer expected
          ≡ ok (facts_of g.payload expected.audience facts.issuer_key_fingerprint) =
        simp (
          (refuse-over_iff expected.bounds.clock_skew expected.skew).1 a.skew_fits,
          Decoding-decode_grant_parts m compact expected.bounds g d,
          (refuse-equal_iff g.key_id issuer.key_id).1 a.same_key,
          (refuse-equal_iff g.payload.issuer expected.issuer).1 a.same_issuer,
          a.for_audience,
          d.signature_decoded,
          (refuse-size_iff (length d.signature) 64).1 d.signature_size,
          a.signed,
          a.times,
          a.fingerprint,
        ) in
      passed ∙ ap ok a.reported

-- A grant that is verified, said without the code that takes it apart.
pub record IsVerified ⦃fl : Float64⦄ (m : Major) (compact : Bytes) (issuer : TrustedIssuer)
    (expected : ExpectedGrant) (facts : GrantFacts) : Type 0 where
  pub signed_bytes : Bytes
  pub signature : Bytes
  pub received : signed_bytes ++ (b'.' ∷ base64url_encode signature) ≡ compact
  pub signature_size : length signature ≡ 64
  pub signed : m.verify issuer.public_key signed_bytes signature ≡ ok tt
  pub skew_fits : expected.skew ≤ expected.bounds.clock_skew
  pub view : GrantDecoded
  pub decoded : decode_grant m compact expected.bounds ≡ ok view
  pub same_key : view.key_id ≡ issuer.key_id
  pub for_audience : Mem expected.audience view.audiences
  pub reported :
      (facts.version ≡ m.version)
      × (facts.issuer ≡ expected.issuer)
      × (facts.grant_id ≡ view.grant_id)
      × (facts.holder_thumbprint ≡ view.holder_thumbprint)
      × (facts.matched_audience ≡ expected.audience)
      × (m.thumbprint_raw issuer.public_key ≡ ok facts.issuer_key_fingerprint)
  pub same_times :
      (facts.iat ≡ view.issued_at) × (facts.nbf ≡ view.not_before) × (facts.exp ≡ view.expires_at)
  pub coherent : (facts.iat <ℤ facts.exp) × (facts.nbf <ℤ facts.exp)
  pub issued : facts.iat ≤ℤ expected.evaluation_time +ℤ pos expected.skew
  pub begun : facts.nbf ≤ℤ expected.evaluation_time +ℤ pos expected.skew
  pub unexpired : expected.evaluation_time <ℤ facts.exp +ℤ pos expected.skew

module _ ⦃fl : Float64⦄ (m : Major) (compact : Bytes) (issuer : TrustedIssuer)
    (expected : ExpectedGrant) (facts : GrantFacts) where
  -- At an evaluation time of 64 bits and under bounds that the protocol admits, a grant is verified only if: its last
  -- dot is followed by a signature of 64 bytes that the trusted key verifies over all that is before the dot, as it was
  -- received; its key id is the trusted issuer's and its issuer the expected one; the expected audience is one of its
  -- audiences; the facts are of this version and of these claims; it was issued and begins before it expires; and, in
  -- integers that do not overflow, neither of these times is later than the evaluation time by more than the skew and
  -- its expiry and the skew are past the evaluation time.
  pub verify_grant-IsVerified :
      IsTight expected.bounds
      → IsI64 expected.evaluation_time
      → verify_grant m compact issuer expected ≡ ok facts
      → IsVerified m compact issuer expected facts
  unfolding decode_grant
  verify_grant-IsVerified tight in_range h =
      let a = verify_grant-Accepted m compact issuer expected facts h in
      let p = a.parts.payload in
      let small : expected.skew < 2 ^ 63 = omega (arith, a.skew_fits, tight) in
      let window = check_grant_times-InWindow p expected in_range small a.times in
      let coherent =
        OnOk-ok (Coherent m) _
          (validate_grant_payload-Coherent m a.parts.payload_json expected.bounds)
          a.decoding.payload_valid in
      let made = a.reported in
      record {
        signed_bytes = signing_input_bytes a.parts.protected_seg a.parts.payload_seg;
        signature = a.decoding.signature;
        received = Decoding-compact m compact expected.bounds a.parts a.decoding;
        signature_size = a.decoding.signature_size;
        signed = a.signed;
        skew_fits = a.skew_fits;
        view = view_of a.parts;
        decoded =
            rw (Decoding-decode_grant_parts m compact expected.bounds a.parts a.decoding, ◌>>=◌)
              refl;
        same_key = a.same_key;
        for_audience = audience_matches-Mem p.audiences expected.audience a.for_audience;
        reported = (
          sym (ap (λ f. f.version) made) ∙ coherent.0,
          sym (ap (λ f. f.issuer) made) ∙ a.same_issuer,
          sym (ap (λ f. f.grant_id) made),
          sym (ap (λ f. f.holder_thumbprint) made),
          sym (ap (λ f. f.matched_audience) made),
          a.fingerprint,
        );
        same_times =
            (sym (ap (λ f. f.iat) made), sym (ap (λ f. f.nbf) made), sym (ap (λ f. f.exp) made));
        coherent = subst (λ f. (f.iat <ℤ f.exp) × (f.nbf <ℤ f.exp)) made (coherent.1, coherent.2);
        issued =
            subst (λ f. f.iat ≤ℤ expected.evaluation_time +ℤ pos expected.skew) made window.issued;
        begun =
            subst (λ f. f.nbf ≤ℤ expected.evaluation_time +ℤ pos expected.skew) made window.begun;
        unexpired =
            subst (λ f. expected.evaluation_time <ℤ f.exp +ℤ pos expected.skew) made
              window.unexpired;
      }
