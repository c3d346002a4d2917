-- ===== src/Compact.antt =====
-- sdks/rust/src/compact.rs: three base64url segments with dots between them.
pub mod Segments
use bounded_authority_protoc.Base.{
  ℕ, Bool, true, false, List, [], ◌∷◌, ◌++◌, Bytes, Result, ok, invalid, ◌>>=◌, ◌>>◌, refuse,
}
use bounded_authority_protoc.Base.Split.{split}
use bounded_authority_protoc.Base64url.{base64url_encode, base64url_decode}

pub data SigningKind : Type 0 where
  grant proof local_loopback_http_proof role_attestation content_assertion chain_anchor
        key_transition :
      SigningKind

pub record SigningInput : Type 0 where
  pub kind : SigningKind
  pub protected_segment : Bytes
  pub payload_segment : Bytes

abbrev is_empty : Bytes → Bool
is_empty [] = true
is_empty (c ∷ s) = false

unfoldable pub validate_segment : Bytes → Result (Unit {0})
unfolding base64url_decode
validate_segment seg = do refuse (is_empty seg); _ ← base64url_decode seg; ok tt

-- The pieces between the dots have to be three.
abbrev pub three : Bytes × List Bytes → Result (Bytes × Bytes × Bytes)
three (seg0, seg1 ∷ seg2 ∷ []) = ok (seg0, seg1, seg2)
three (seg0, _) = invalid

unfoldable pub parse_compact : Bytes → Result (Bytes × Bytes × Bytes)
unfolding validate_segment split
parse_compact text = do
  (seg0, seg1, seg2) ← three (split b'.' text)
  validate_segment seg0
  validate_segment seg1
  validate_segment seg2
  ok (seg0, seg1, seg2)

-- The text that `compose_compact` builds, before it is parsed.
abbrev pub compact_text : SigningInput → Bytes → Bytes
compact_text input signature =
    input.protected_segment
    ++ (b'.' ∷ (input.payload_segment ++ (b'.' ∷ base64url_encode signature)))

unfoldable pub compose_compact : SigningInput → Bytes → Result Bytes
unfolding parse_compact
compose_compact input signature = do
  let out = compact_text input signature
  _ ← parse_compact out
  ok out
