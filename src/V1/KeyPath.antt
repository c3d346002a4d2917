-- ===== src/V1/KeyPath.antt =====
-- `key_path_ok` of sdks/rust/src/v1.rs: the walk over the expected key transitions, and
-- `in_interval`.
pub mod Path
use bounded_authority_protoc.Base.{
  ℕ, Bool, true, false, not, ◌&&◌, ◌||◌, Option, none, some, List, [], ◌∷◌, if◌then◌else◌, any,
  Bytes, equal, Result, ok, invalid, ◌>>=◌, ◌>>◌, refuse,
}
use bounded_authority_protoc.Base.Int.{ℤ, leb_ℤ, ltb_ℤ}
use bounded_authority_protoc.Bounds.{Bounds}

pub record ExpectedAnchor : Type 0 where
  pub anchor_id : Bytes
  pub anchored_at : ℤ
  pub chain_hash : Bytes
  pub chain_id : Bytes
  pub key_fingerprint : Bytes
  pub key_id : Bytes
  pub sequence : ℤ
  pub bounds : Option Bounds

pub record ExpectedKeyTransition : Type 0 where
  pub chain_id : Bytes
  pub current_key_fingerprint : Bytes
  pub current_key_id : Bytes
  pub effective_at : ℤ
  pub next_key_fingerprint : Bytes
  pub next_key_id : Bytes
  pub transition_id : Bytes
  pub bounds : Option Bounds

-- The loop's variables.
pub record Walk : Type 0 where
  pub current_key_id : Bytes
  pub current_fingerprint : Bytes
  pub previous_time : ℤ
  pub seen : List Bytes

-- One round; `seen` grows at its front here, and only membership is asked of it.
unfoldable pub walk_step : Walk → ExpectedKeyTransition → Result Walk
unfolding equal
walk_step w t = do
  refuse (
      not (equal t.current_key_id w.current_key_id)
      || not (equal t.current_key_fingerprint w.current_fingerprint))
  refuse (leb_ℤ t.effective_at w.previous_time)
  refuse (any (equal t.next_key_fingerprint) w.seen)
  ok (record {
    current_key_id = t.next_key_id;
    current_fingerprint = t.next_key_fingerprint;
    previous_time = t.effective_at;
    seen = t.next_key_fingerprint ∷ w.seen;
  })

unfoldable pub walk : Walk → List ExpectedKeyTransition → Result Walk
unfolding walk_step
walk w [] = ok w
walk w (t ∷ ts) = do w' ← walk_step w t; walk w' ts

abbrev pub begin : ExpectedAnchor → Walk
begin start = record {
  current_key_id = start.key_id;
  current_fingerprint = start.key_fingerprint;
  previous_time = start.anchored_at;
  seen = start.key_fingerprint ∷ [];
}

unfoldable pub check_end : Walk → ExpectedAnchor → Result (Unit {0})
unfolding equal
check_end w end_anchor = do
  refuse (
      not (equal w.current_key_id end_anchor.key_id)
      || not (equal w.current_fingerprint end_anchor.key_fingerprint))
  refuse (ltb_ℤ end_anchor.anchored_at w.previous_time)
  ok tt

unfoldable pub key_path_ok :
    ExpectedAnchor → List ExpectedKeyTransition → ExpectedAnchor → Result (Unit {0})
unfolding walk check_end
key_path_ok start transitions end_anchor = do
  w ← walk (begin start) transitions
  check_end w end_anchor
