-- ===== src/V1/Anchors.antt =====
-- `anchor_matches`, `transition_matches` and `in_interval` of sdks/rust/src/v1.rs.
pub mod Matching
pub mod Historical
pub mod Transition
pub mod Chronology
use bounded_authority_protoc.Base.{Bool, true, false, ◌&&◌, if◌then◌else◌, Bytes, equal}
use bounded_authority_protoc.Base.Int.{ℤ, eq_ℤ, ltb_ℤ}
use bounded_authority_protoc.V1.KeyPath.{ExpectedAnchor, ExpectedKeyTransition}

pub record AnchorPayload : Type 0 where
  pub anchor_id : Bytes
  pub anchored_at : ℤ
  pub chain_hash : Bytes
  pub chain_id : Bytes
  pub key_fingerprint : Bytes
  pub sequence : ℤ

pub record TransitionPayload : Type 0 where
  pub transition_id : Bytes
  pub chain_id : Bytes
  pub effective_at : ℤ
  pub from_fingerprint : Bytes
  pub to_fingerprint : Bytes
  pub to_key_id : Bytes

unfoldable pub anchor_matches : AnchorPayload → Bytes → ExpectedAnchor → Bool
anchor_matches payload key_id expected =
    equal payload.anchor_id expected.anchor_id
    && (eq_ℤ payload.anchored_at expected.anchored_at
        && (equal payload.chain_id expected.chain_id
            && (eq_ℤ payload.sequence expected.sequence
                && (equal key_id expected.key_id
                    && (equal payload.chain_hash expected.chain_hash
                        && equal payload.key_fingerprint expected.key_fingerprint)))))

unfoldable pub transition_matches : TransitionPayload → Bytes → ExpectedKeyTransition → Bool
transition_matches payload current_kid exp =
    equal payload.transition_id exp.transition_id
    && (equal payload.chain_id exp.chain_id
        && (eq_ℤ payload.effective_at exp.effective_at
            && (equal current_kid exp.current_key_id
                && (equal payload.from_fingerprint exp.current_key_fingerprint
                    && (equal payload.to_key_id exp.next_key_id
                        && equal payload.to_fingerprint exp.next_key_fingerprint)))))

pub data ValidityUpperBound : Type 0 where
  bounded : ℤ → ValidityUpperBound
  unbounded : ValidityUpperBound

unfoldable pub below : ℤ → ValidityUpperBound → Bool
below t (bounded v) = ltb_ℤ t v
below t unbounded = true

unfoldable pub in_interval : ℤ → ℤ → ValidityUpperBound → Bool
unfolding below
in_interval t valid_from upper = if ltb_ℤ t valid_from then false else below t upper
