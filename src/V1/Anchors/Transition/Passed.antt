-- ===== src/V1/Anchors/Transition/Passed.antt =====
-- What `verify_key_transition` of sdks/rust/src/v1.rs has established of a transition that it accepts.
use bounded_authority_protoc.Base.{
  ◌≡◌, ◌≢◌, refl, sym, ap, ◌∙◌, not, ◌||◌, ◌∷◌, ◌++◌, ltb, ◌==◌, length, Bytes, equal, equal_iff,
  equal-false_iff, ok, refuse, refuse_iff, OnOk, OnOk-bind, OnOk-check, OnOk-ok, >>-eq-ok, arith,
}
use bounded_authority_protoc.Base.Int.{eq_ℤ, eq_ℤ_iff}
use bounded_authority_protoc.Base64url.{base64url_encode, base64url_decode}
use bounded_authority_protoc.Bounds.{Bounds, resolve_bounds}
use bounded_authority_protoc.Compact.{parse_compact}
use bounded_authority_protoc.Json.Value.{Float64}
use bounded_authority_protoc.Json.Decode.{json_decode}
use bounded_authority_protoc.Major.{Major}
use bounded_authority_protoc.V1.Anchors.{TransitionPayload, in_interval}
use bounded_authority_protoc.V1.Anchors.Historical.{HistoricalPublicKey, check_validity}
use bounded_authority_protoc.V1.Anchors.Historical.Vouched.{
  InInterval, in_interval-InInterval, received-whole, either_iff,
}
use bounded_authority_protoc.V1.Anchors.Transition.{
  DecodedTransition, KeyTransitionFacts, transition_fields, validate_transition_header,
  validate_transition_payload, decode_transition_parts, verify_key_transition,
}
use bounded_authority_protoc.V1.KeyPath.{ExpectedKeyTransition}
use bounded_authority_protoc.V1.Segments.{decode_segment, decode_signature64, signing_input_bytes}

three_same :
    (p : TransitionPayload) (next : HistoricalPublicKey) (e : ExpectedKeyTransition)
    → refuse (
        not (equal p.to_key_id next.key_id)
        || (not (equal p.to_key_id e.next_key_id)
            || (not (equal p.chain_id e.chain_id)
                || (not (eq_ℤ p.effective_at e.effective_at)
                    || not (equal p.transition_id e.transition_id)))))
      ≡ ok tt
    → (p.to_key_id ≡ next.key_id)
      × (p.to_key_id ≡ e.next_key_id)
      × (p.chain_id ≡ e.chain_id)
      × (p.effective_at ≡ e.effective_at)
      × (p.transition_id ≡ e.transition_id)
three_same p next e h = ground (
  arith,
  equal_iff p.to_key_id next.key_id,
  equal_iff p.to_key_id e.next_key_id,
  equal_iff p.chain_id e.chain_id,
  eq_ℤ_iff p.effective_at e.effective_at,
  equal_iff p.transition_id e.transition_id,
)

-- A transition by which one key passes to the next.
pub record IsPassed ⦃fl : Float64⦄ (m : Major) (compact : Bytes)
    (current next : HistoricalPublicKey) (expected : ExpectedKeyTransition)
    (facts : KeyTransitionFacts) : Type 0 where
  pub signed_bytes : Bytes
  pub signature : Bytes
  pub received :
      (signed_bytes ++ (b'.' ∷ base64url_encode signature) ≡ compact) × (length signature ≡ 64)
  pub signed : m.verify current.public_key signed_bytes signature ≡ ok tt
  pub current_key :
      (current.key_id ≡ expected.current_key_id)
      × (m.thumbprint_raw current.public_key ≡ ok expected.current_key_fingerprint)
  pub next_key :
      (next.key_id ≡ expected.next_key_id)
      × (m.thumbprint_raw next.public_key ≡ ok expected.next_key_fingerprint)
  pub different : expected.current_key_fingerprint ≢ expected.next_key_fingerprint
  pub intervals : InInterval expected.effective_at current × InInterval expected.effective_at next
  pub reported :
      record {
        transition_id = expected.transition_id;
        chain_id = expected.chain_id;
        effective_at = expected.effective_at;
        current_key_fingerprint = expected.current_key_fingerprint;
        current_key_id = expected.current_key_id;
        next_key_fingerprint = expected.next_key_fingerprint;
        next_key_id = expected.next_key_id;
      }
      ≡ facts

module _ ⦃fl : Float64⦄ (m : Major) (compact : Bytes) (bounds : Bounds) where
  Parsed : DecodedTransition → Type 0
  Parsed t = parse_compact compact ≡ ok (t.protected_seg, t.payload_seg, t.signature_seg)

  decode_transition_parts-Parsed : OnOk Parsed (decode_transition_parts m compact bounds)
  unfolding decode_transition_parts Parsed
  decode_transition_parts-Parsed =
      OnOk-check Parsed (refuse (ltb bounds.compact_bytes (length compact))) _ λ _.
        OnOk-check Parsed (refuse (ltb bounds.anchor_bytes (length compact))) _ λ _.
          OnOk-bind Parsed (parse_compact compact) _ λ (a, b, c) parsed.
            OnOk-bind Parsed (decode_segment a bounds) _ λ hb _.
              OnOk-bind Parsed (decode_segment b bounds) _ λ pb _.
                OnOk-bind Parsed (base64url_decode c) _ λ sig _.
                  OnOk-check Parsed (refuse (not (length sig == 64))) _ λ _.
                    OnOk-bind Parsed (json_decode bounds hb) _ λ header _.
                      OnOk-bind Parsed (json_decode bounds pb) _ λ json _.
                        OnOk-bind Parsed (validate_transition_header m header hb bounds) _ λ kid _.
                          OnOk-bind Parsed (validate_transition_payload m json pb bounds) _
                            λ payload _. parsed

  decoded-Parsed :
      (t : DecodedTransition)
      → decode_transition_parts m compact bounds ≡ ok t
      → parse_compact compact ≡ ok (t.protected_seg, t.payload_seg, t.signature_seg)
  unfolding Parsed
  decoded-Parsed t h = OnOk-ok Parsed _ decode_transition_parts-Parsed h

-- The compared fields of a transition.
transition_fields-same :
    (p : TransitionPayload) (c n : Bytes) (next : HistoricalPublicKey) (e : ExpectedKeyTransition)
    → transition_fields p c n next e ≡ ok tt
    → (c ≡ e.current_key_fingerprint)
      × (n ≡ e.next_key_fingerprint)
      × (p.to_key_id ≡ next.key_id)
      × (p.to_key_id ≡ e.next_key_id)
      × (p.chain_id ≡ e.chain_id)
      × (p.effective_at ≡ e.effective_at)
      × (p.transition_id ≡ e.transition_id)
unfolding transition_fields
transition_fields-same p c n next e h =
    let (from, h₁) =
      >>-eq-ok
        (refuse (
          not (equal p.from_fingerprint c)
          || not (equal p.from_fingerprint e.current_key_fingerprint)))
        _ h in
    let (to, h₂) =
      >>-eq-ok
        (refuse
          (not (equal p.to_fingerprint n) || not (equal p.to_fingerprint e.next_key_fingerprint)))
        _ h₁ in
    let (f₁, f₂) =
      either_iff p.from_fingerprint c p.from_fingerprint e.current_key_fingerprint from in
    let (t₁, t₂) = either_iff p.to_fingerprint n p.to_fingerprint e.next_key_fingerprint to in
    let (s₁, s₂, s₃, s₄, s₅) = three_same p next e h₂ in
    (sym f₁ ∙ f₂, sym t₁ ∙ t₂, s₁, s₂, s₃, s₄, s₅)

module _ ⦃fl : Float64⦄ (m : Major) (compact : Bytes) (current next : HistoricalPublicKey)
    (expected : ExpectedKeyTransition) where
  IsPassed-OnOk :
      OnOk
        (IsPassed m compact current next expected)
        (verify_key_transition m compact current next expected)
  unfolding verify_key_transition
  IsPassed-OnOk =
      let bounds = resolve_bounds expected.bounds in
      OnOk-check P (check_validity current bounds) _ λ _.
        OnOk-check P (check_validity next bounds) _ λ _.
          OnOk-bind P (decode_transition_parts m compact bounds) _ λ t decoded.
            OnOk-check P
              (refuse (
                not (equal t.key_id current.key_id)
                || not (equal t.key_id expected.current_key_id)))
              _
              λ ids. OnOk-bind P (m.thumbprint_raw current.public_key) _ λ c is_c.
                OnOk-bind P (m.thumbprint_raw next.public_key) _ λ n is_n.
                  OnOk-check P (transition_fields t.payload c n next expected) _ λ fields.
                    OnOk-check P (refuse (equal c n)) _ λ different.
                      OnOk-check P
                        (refuse (
                          not (
                            in_interval t.payload.effective_at current.valid_from
                              current.valid_before)))
                        _
                        λ inside.
                          OnOk-check P
                            (refuse (
                              not (
                                in_interval t.payload.effective_at next.valid_from
                                  next.valid_before)))
                            _
                            λ inside'.
                              OnOk-bind P (decode_signature64 t.signature_seg) _
                                λ signature is_signature.
                                  OnOk-check P
                                    (m.verify current.public_key
                                      (signing_input_bytes t.protected_seg t.payload_seg) signature)
                                    _
                                    λ signed.
                                      let (k₁, k₂) =
                                        either_iff t.key_id current.key_id t.key_id
                                          expected.current_key_id ids in
                                      let (c_is, n_is, s₁, s₂, s₃, s₄, s₅) =
                                        transition_fields-same t.payload c n next expected fields in
                                      record {
                                        signed_bytes =
                                            signing_input_bytes t.protected_seg t.payload_seg;
                                        signature = signature;
                                        received =
                                            received-whole compact t.protected_seg t.payload_seg
                                              t.signature_seg signature
                                              (decoded-Parsed m compact bounds t decoded)
                                              is_signature;
                                        signed = signed;
                                        current_key = (sym k₁ ∙ k₂, is_c ∙ ap ok c_is);
                                        next_key = (sym s₁ ∙ s₂, is_n ∙ ap ok n_is);
                                        different = λ e.
                                            (equal-false_iff c n).0
                                              (refuse_iff (equal c n) different)
                                              (c_is ∙ e ∙ sym n_is);
                                        intervals = (
                                          rw s₄ at (
                                              in_interval-InInterval t.payload.effective_at current
                                                inside),
                                          rw s₄ at (
                                              in_interval-InInterval t.payload.effective_at next
                                                inside'),
                                        );
                                        reported = rw (s₂, s₃, s₄, s₅, c_is, n_is, k₂) refl;
                                      }
    where
      P : KeyTransitionFacts → Type 0
      P = IsPassed m compact current next expected

  -- A transition is accepted only if its last dot is followed by a signature of 64 bytes that the current key verifies over
  -- the bytes before the dot, as they were received; both keys have the expected ids and fingerprints, which differ; the
  -- expected time is in the interval of each; and the facts are exactly the expected fields.
  pub verify_key_transition-IsPassed :
      (facts : KeyTransitionFacts)
      → verify_key_transition m compact current next expected ≡ ok facts
      → IsPassed m compact current next expected facts
  verify_key_transition-IsPassed facts h =
      OnOk-ok (IsPassed m compact current next expected) _ IsPassed-OnOk h
