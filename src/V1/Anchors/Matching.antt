-- ===== src/V1/Anchors/Matching.antt =====
-- What `transition_matches` and `key_path_ok` of sdks/rust/src/v1.rs say together of signed
-- transitions.
use bounded_authority_protoc.Base.{◌≡◌, ◌↔◌, true, arith, Bytes, equal_iff}
use bounded_authority_protoc.Base.Int.{eq_ℤ_iff}
use bounded_authority_protoc.V1.KeyPath.{ExpectedAnchor, ExpectedKeyTransition}
use bounded_authority_protoc.V1.Anchors.{
  AnchorPayload, TransitionPayload, anchor_matches, transition_matches,
}

-- A signed transition is matched exactly when its seven signed fields are the expected ones.
pub transition_matches_iff :
    (payload : TransitionPayload) (kid : Bytes) (exp : ExpectedKeyTransition)
    → (transition_matches payload kid exp ≡ true) ↔ (
        ((payload.transition_id ≡ exp.transition_id)
          × (payload.chain_id ≡ exp.chain_id)
          × (payload.effective_at ≡ exp.effective_at)
          × (kid ≡ exp.current_key_id))
        × ((payload.from_fingerprint ≡ exp.current_key_fingerprint)
            × (payload.to_key_id ≡ exp.next_key_id)
            × (payload.to_fingerprint ≡ exp.next_key_fingerprint)))
unfolding transition_matches
transition_matches_iff payload kid exp = ground (
  arith,
  equal_iff payload.transition_id exp.transition_id,
  equal_iff payload.chain_id exp.chain_id,
  eq_ℤ_iff payload.effective_at exp.effective_at,
  equal_iff kid exp.current_key_id,
  equal_iff payload.from_fingerprint exp.current_key_fingerprint,
  equal_iff payload.to_key_id exp.next_key_id,
  equal_iff payload.to_fingerprint exp.next_key_fingerprint,
)

-- A signed anchor is matched exactly when its seven signed fields are the expected ones.
pub anchor_matches_iff :
    (payload : AnchorPayload) (kid : Bytes) (expected : ExpectedAnchor)
    → (anchor_matches payload kid expected ≡ true) ↔ (
        ((payload.anchor_id ≡ expected.anchor_id)
          × (payload.anchored_at ≡ expected.anchored_at)
          × (payload.chain_id ≡ expected.chain_id)
          × (payload.sequence ≡ expected.sequence))
        × ((kid ≡ expected.key_id)
            × (payload.chain_hash ≡ expected.chain_hash)
            × (payload.key_fingerprint ≡ expected.key_fingerprint)))
unfolding anchor_matches
anchor_matches_iff payload kid expected = ground (
  arith,
  equal_iff payload.anchor_id expected.anchor_id,
  eq_ℤ_iff payload.anchored_at expected.anchored_at,
  equal_iff payload.chain_id expected.chain_id,
  eq_ℤ_iff payload.sequence expected.sequence,
  equal_iff kid expected.key_id,
  equal_iff payload.chain_hash expected.chain_hash,
  equal_iff payload.key_fingerprint expected.key_fingerprint,
)
