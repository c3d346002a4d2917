-- ===== src/V1/Anchors/Historical/Vouched.antt =====
-- What `verify_historical_anchor` of sdks/rust/src/v1.rs has established of an anchor that it accepts.
use bounded_authority_protoc.Base.{
  ◌≡◌, refl, sym, ap, ◌∙◌, false, not, ◌&&◌, ◌||◌, [], ◌∷◌, ◌++◌, ltb, ◌==◌, length, All, Bytes,
  equal, equal_iff, ok, refuse, refuse_iff, refuse-size_iff, OnOk, OnOk-bind, OnOk-check, OnOk-ok,
  >>=-eq-ok, >>-eq-ok, ok-injective, arith,
}
use bounded_authority_protoc.Base.Int.{ℤ, pos, eq_ℤ, eq_ℤ_iff, ◌≤ℤ◌, ◌<ℤ◌}
use bounded_authority_protoc.Base64url.{base64url_encode, base64url_decode}
use bounded_authority_protoc.Base64url.RoundTrip.{decode-eq-ok_iff}
use bounded_authority_protoc.Bounds.{Bounds, resolve_bounds}
use bounded_authority_protoc.Compact.{parse_compact}
use bounded_authority_protoc.Compact.Segments.{parse_compact-eq-ok_iff}
use bounded_authority_protoc.Json.Value.{Float64}
use bounded_authority_protoc.Json.Decode.{json_decode}
use bounded_authority_protoc.Major.{Major}
use bounded_authority_protoc.V1.Anchors.{
  AnchorPayload, ValidityUpperBound, bounded, unbounded, below, in_interval,
}
use bounded_authority_protoc.V1.Anchors.Historical.{
  HistoricalPublicKey, DecodedAnchor, AnchorFacts, check_validity, any_nonzero,
  validate_anchor_header, validate_anchor_payload, decode_anchor_parts, verify_historical_anchor,
}
use bounded_authority_protoc.V1.KeyPath.{ExpectedAnchor}
use bounded_authority_protoc.V1.Segments.{decode_segment, decode_signature64, signing_input_bytes}
use bounded_authority_protoc.V1.Segments.Splitting.{joined}

-- Before the end of an interval, if it has one.
abbrev pub Before : ℤ → ValidityUpperBound → Type 0
Before t (bounded v) = t <ℤ v
Before t unbounded = Unit

-- From the beginning of a key's interval on, and before its end.
abbrev pub InInterval : ℤ → HistoricalPublicKey → Type 0
InInterval t key = (key.valid_from ≤ℤ t) × Before t key.valid_before

pub in_interval-InInterval :
    (t : ℤ) (key : HistoricalPublicKey)
    → refuse (not (in_interval t key.valid_from key.valid_before)) ≡ ok tt
    → InInterval t key
unfolding in_interval below
in_interval-InInterval t key h =
    elim key.valid_before
        as (λ v.
          refuse (not (in_interval t key.valid_from v)) ≡ ok tt
          → (key.valid_from ≤ℤ t) × Before t v) [
            | bounded v ↦ λ k. ground (arith, k)
            | unbounded ↦ λ k. ground (arith, k)
          ]
      h

-- The bytes that were received, from the segments and the decoded signature.
pub received-whole :
    (compact a b c signature : Bytes)
    → parse_compact compact ≡ ok (a, b, c)
    → decode_signature64 c ≡ ok signature
    → (signing_input_bytes a b ++ (b'.' ∷ base64url_encode signature) ≡ compact)
      × (length signature ≡ 64)
unfolding signing_input_bytes decode_signature64
received-whole compact a b c signature parsed decoded =
    let (raw, is_raw, h) = >>=-eq-ok (base64url_decode c) _ decoded in
    let (size, e) = >>-eq-ok (refuse (not (length raw == 64))) _ h in
    let same : raw ≡ signature = ok-injective e in
    let (_, encoded) = (decode-eq-ok_iff c signature).0 (is_raw ∙ ap ok same) in
    let (_, whole) = (parse_compact-eq-ok_iff compact a b c).0 parsed in
    (rw encoded (joined a b c ∙ whole), rw same at ((refuse-size_iff (length raw) 64).0 size))

pub either_iff :
    (a b c d : Bytes) → refuse (not (equal a b) || not (equal c d)) ≡ ok tt → (a ≡ b) × (c ≡ d)
either_iff a b c d h = ground (arith, equal_iff a b, equal_iff c d)

-- The five fields that are compared at once, and the hash at sequence 0.
fields_same :
    (p : AnchorPayload) (e : ExpectedAnchor)
    → refuse (
        not (equal p.anchor_id e.anchor_id)
        || (not (eq_ℤ p.anchored_at e.anchored_at)
            || (not (equal p.chain_id e.chain_id)
                || (not (eq_ℤ p.sequence e.sequence) || not (equal p.chain_hash e.chain_hash)))))
      ≡ ok tt
    → (p.anchor_id ≡ e.anchor_id)
      × (p.anchored_at ≡ e.anchored_at)
      × (p.chain_id ≡ e.chain_id)
      × (p.sequence ≡ e.sequence)
      × (p.chain_hash ≡ e.chain_hash)
fields_same p e h = ground (
  arith,
  equal_iff p.anchor_id e.anchor_id,
  eq_ℤ_iff p.anchored_at e.anchored_at,
  equal_iff p.chain_id e.chain_id,
  eq_ℤ_iff p.sequence e.sequence,
  equal_iff p.chain_hash e.chain_hash,
)

any_nonzero-All : (s : Bytes) → any_nonzero s ≡ false → All (λ b. b ≡ 0) s
any_nonzero-All [] h = tt
any_nonzero-All (b ∷ s) h =
    let zero_byte : b ≡ 0 = ground (arith, h) in
    let rest : any_nonzero s ≡ false = ground (arith, h) in (zero_byte, any_nonzero-All s rest)

genesis :
    (n : ℤ) (s : Bytes)
    → refuse (eq_ℤ n (pos 0) && any_nonzero s) ≡ ok tt
    → n ≡ pos 0
    → All (λ b. b ≡ 0) s
genesis n s h e =
    let first = (eq_ℤ_iff n (pos 0)).1 e in
    any_nonzero-All s (rw first at (refuse_iff (eq_ℤ n (pos 0) && any_nonzero s) h))

-- An anchor that a key vouches for.
pub record IsVouched ⦃fl : Float64⦄ (m : Major) (compact : Bytes) (key : HistoricalPublicKey)
    (expected : ExpectedAnchor) (facts : AnchorFacts) : Type 0 where
  pub signed_bytes : Bytes
  pub signature : Bytes
  pub received :
      (signed_bytes ++ (b'.' ∷ base64url_encode signature) ≡ compact) × (length signature ≡ 64)
  pub signed : m.verify key.public_key signed_bytes signature ≡ ok tt
  pub same_key :
      (key.key_id ≡ expected.key_id)
      × (m.thumbprint_raw key.public_key ≡ ok expected.key_fingerprint)
  pub interval : InInterval expected.anchored_at key
  pub start : expected.sequence ≡ pos 0 → All (λ b. b ≡ 0) expected.chain_hash
  pub reported :
      record {
        anchor_id = expected.anchor_id;
        anchored_at = expected.anchored_at;
        chain_id = expected.chain_id;
        sequence = expected.sequence;
        chain_hash = expected.chain_hash;
        key_fingerprint = expected.key_fingerprint;
        key_id = expected.key_id;
      }
      ≡ facts

module _ ⦃fl : Float64⦄ (m : Major) (compact : Bytes) (bounds : Bounds) where
  Parsed : DecodedAnchor → Type 0
  Parsed a = parse_compact compact ≡ ok (a.protected_seg, a.payload_seg, a.signature_seg)

  decode_anchor_parts-Parsed : OnOk Parsed (decode_anchor_parts m compact bounds)
  unfolding decode_anchor_parts Parsed
  decode_anchor_parts-Parsed =
      OnOk-check Parsed (refuse (ltb bounds.compact_bytes (length compact))) _ λ _.
        OnOk-check Parsed (refuse (ltb bounds.anchor_bytes (length compact))) _ λ _.
          OnOk-bind Parsed (parse_compact compact) _ λ (a, b, c) parsed.
            OnOk-bind Parsed (decode_segment a bounds) _ λ hb _.
              OnOk-bind Parsed (decode_segment b bounds) _ λ pb _.
                OnOk-bind Parsed (base64url_decode c) _ λ sig _.
                  OnOk-check Parsed (refuse (not (length sig == 64))) _ λ _.
                    OnOk-bind Parsed (json_decode bounds hb) _ λ header _.
                      OnOk-bind Parsed (json_decode bounds pb) _ λ json _.
                        OnOk-bind Parsed (validate_anchor_header m header hb bounds) _ λ kid _.
                          OnOk-bind Parsed (validate_anchor_payload m json pb bounds) _
                            λ payload _. parsed

  decoded-Parsed :
      (a : DecodedAnchor)
      → decode_anchor_parts m compact bounds ≡ ok a
      → parse_compact compact ≡ ok (a.protected_seg, a.payload_seg, a.signature_seg)
  unfolding Parsed
  decoded-Parsed a h = OnOk-ok Parsed _ decode_anchor_parts-Parsed h

module _ ⦃fl : Float64⦄ (m : Major) (compact : Bytes) (key : HistoricalPublicKey)
    (expected : ExpectedAnchor) where
  IsVouched-OnOk :
      OnOk (IsVouched m compact key expected) (verify_historical_anchor m compact key expected)
  unfolding verify_historical_anchor
  IsVouched-OnOk =
      let bounds = resolve_bounds expected.bounds in
      OnOk-check P (check_validity key bounds) _ λ _.
        OnOk-bind P (decode_anchor_parts m compact bounds) _ λ a decoded.
          OnOk-check P
            (refuse (not (equal a.key_id key.key_id) || not (equal a.key_id expected.key_id))) _
            λ ids. OnOk-bind P (m.thumbprint_raw key.public_key) _ λ derived is_derived.
              OnOk-check P
                (refuse (
                  not (equal a.payload.key_fingerprint derived)
                  || not (equal a.payload.key_fingerprint expected.key_fingerprint)))
                _
                λ prints. OnOk-check P _ _ λ fields.
                  OnOk-check P
                    (refuse (eq_ℤ a.payload.sequence (pos 0) && any_nonzero a.payload.chain_hash)) _
                    λ start.
                      OnOk-check P
                        (refuse
                          (not (in_interval a.payload.anchored_at key.valid_from key.valid_before)))
                        _
                        λ inside.
                          OnOk-bind P (decode_signature64 a.signature_seg) _
                            λ signature is_signature.
                              OnOk-check P
                                (m.verify key.public_key
                                  (signing_input_bytes a.protected_seg a.payload_seg) signature)
                                _
                                λ signed.
                                  let (k₁, k₂) =
                                    either_iff a.key_id key.key_id a.key_id expected.key_id ids in
                                  let (f₁, f₂) =
                                    either_iff a.payload.key_fingerprint derived
                                      a.payload.key_fingerprint expected.key_fingerprint prints in
                                  let (s₁, s₂, s₃, s₄, s₅) =
                                    fields_same a.payload expected fields in
                                  let derived_is : derived ≡ expected.key_fingerprint =
                                    sym f₁ ∙ f₂ in
                                  record {
                                    signed_bytes =
                                        signing_input_bytes a.protected_seg a.payload_seg;
                                    signature = signature;
                                    received =
                                        received-whole compact a.protected_seg a.payload_seg
                                          a.signature_seg signature
                                          (decoded-Parsed m compact bounds a decoded) is_signature;
                                    signed = signed;
                                    same_key = (sym k₁ ∙ k₂, is_derived ∙ ap ok derived_is);
                                    interval =
                                        rw s₂ at
                                          (in_interval-InInterval a.payload.anchored_at key inside);
                                    start = λ e. rw s₅ at (
                                        genesis a.payload.sequence a.payload.chain_hash start
                                          (s₄ ∙ e));
                                    reported = rw (s₁, s₂, s₃, s₄, s₅, derived_is, k₂) refl;
                                  }
    where
      P : AnchorFacts → Type 0
      P = IsVouched m compact key expected

  -- An anchor is accepted only if its last dot is followed by a signature of 64 bytes that the key verifies over the bytes
  -- before the dot, as they were received; the key has the expected id and fingerprint, and the expected time of the anchor
  -- is in its interval; the hash at sequence 0 is all zeros; and the facts are exactly the expected fields.
  pub verify_historical_anchor-IsVouched :
      (facts : AnchorFacts)
      → verify_historical_anchor m compact key expected ≡ ok facts
      → IsVouched m compact key expected facts
  verify_historical_anchor-IsVouched facts h =
      OnOk-ok (IsVouched m compact key expected) _ IsVouched-OnOk h
