-- ===== src/V1/Segments/Objects.antt =====
-- The JSON values in the first two segments of a compact, for sdks/rust/src/v1.rs: one value for each, whichever way the
-- compact is then read.
use bounded_authority_protoc.Base.{◌≡◌, Bytes, Result, ok, ◌>>=◌}
use bounded_authority_protoc.Bounds.{Bounds}
use bounded_authority_protoc.Compact.{parse_compact}
use bounded_authority_protoc.Json.Value.{Float64, Json}
use bounded_authority_protoc.Json.Decode.{json_decode}
use bounded_authority_protoc.V1.Segments.{decode_segment}

module _ ⦃fl : Float64⦄ (compact : Bytes) (bounds : Bounds) where
  unfoldable pub header_object : Result Json
  unfolding parse_compact decode_segment json_decode
  header_object = do
    (protected, _, _) ← parse_compact compact
    text ← decode_segment protected bounds
    json_decode bounds text

  unfoldable pub payload_object : Result Json
  unfolding parse_compact decode_segment json_decode
  payload_object = do
    (_, payload, _) ← parse_compact compact
    text ← decode_segment payload bounds
    json_decode bounds text

  module _ (a b c text : Bytes) (value : Json) where
    pub header_object-ok :
        parse_compact compact ≡ ok (a, b, c)
        → decode_segment a bounds ≡ ok text
        → json_decode bounds text ≡ ok value
        → header_object ≡ ok value
    unfolding header_object
    header_object-ok e f g = rw (e, ◌>>=◌, f, ◌>>=◌) g

    pub payload_object-ok :
        parse_compact compact ≡ ok (a, b, c)
        → decode_segment b bounds ≡ ok text
        → json_decode bounds text ≡ ok value
        → payload_object ≡ ok value
    unfolding payload_object
    payload_object-ok e f g = rw (e, ◌>>=◌, f, ◌>>=◌) g
