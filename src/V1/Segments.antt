-- ===== src/V1/Segments.antt =====
-- The segments of a compact in sdks/rust/src/v1.rs: the split that does not decode, the bounded
-- decoding of one segment, and the bytes that are signed.
pub mod Splitting
pub mod Scanning
pub mod Objects
use bounded_authority_protoc.Base.{
  ℕ, Option, none, some, ok_or, ◌||◌, Bool, true, false, not, List, [], ◌∷◌, ◌++◌, any, equal, ltb,
  ◌==◌, length, Bytes, Result, ok, invalid, ◌>>=◌, ◌>>◌, refuse,
}
use bounded_authority_protoc.Base.Split.{split}
use bounded_authority_protoc.Base64url.{base64url_decode}
use bounded_authority_protoc.Bounds.{Bounds}
use bounded_authority_protoc.Compact.{three}

unfoldable pub split_three_segments : Bytes → Result (Bytes × Bytes × Bytes)
unfolding split
split_three_segments compact = three (split b'.' compact)

unfoldable pub decode_segment : Bytes → Bounds → Result Bytes
unfolding base64url_decode
decode_segment segment bounds = do
  refuse (ltb bounds.encoded_segment_bytes (length segment))
  decoded ← base64url_decode segment
  refuse (ltb bounds.decoded_segment_bytes (length decoded))
  ok decoded

-- The 64 bytes that `out` receives.
unfoldable pub decode_signature64 : Bytes → Result Bytes
unfolding base64url_decode
decode_signature64 signature_seg = do
  sig_raw ← base64url_decode signature_seg
  refuse (not (length sig_raw == 64))
  ok sig_raw

unfoldable pub signing_input_bytes : Bytes → Bytes → Bytes
signing_input_bytes protected_seg payload_seg = protected_seg ++ (b'.' ∷ payload_seg)

unfoldable pub audience_matches : List Bytes → Bytes → Bool
unfolding equal
audience_matches grant_audiences expected = any (λ a. equal a expected) grant_audiences

-- `position` of the first dot: what is before it, and what is after it.
unfoldable pub cut : Bytes → Option (Bytes × Bytes)
cut [] = none
cut (c ∷ s) = elim (c == b'.') [
  | true ↦ some ([], s)
  | false ↦ elim (cut s) [ none ↦ none | some (p, r) ↦ some (c ∷ p, r) ]
]

abbrev pub empty_or_long : Bytes → Bounds → Bool
empty_or_long s bounds = length s == 0 || ltb bounds.encoded_segment_bytes (length s)

unfoldable pub scan_compact : Bytes → Bounds → Result (Unit {0})
unfolding cut
scan_compact compact bounds = do
  refuse (ltb bounds.compact_bytes (length compact))
  (first, after1) ← ok_or (cut compact)
  refuse (empty_or_long first bounds)
  (second, signature) ← ok_or (cut after1)
  refuse (empty_or_long second bounds)
  refuse (empty_or_long signature bounds)
  refuse (any (λ c. c == b'.') signature)
