-- ===== src/Tests/Targets.antt =====
-- The properties of target URIs, keys, signatures and digests at concrete inputs.
use bounded_authority_protoc.Base.{
  ◌<◌, ◌≡◌, ◌↔◌, refl, true, [], ◌++◌, replicate, Bytes, codes, ok, invalid, arith,
}
use bounded_authority_protoc.Bounds.{maximum}
use bounded_authority_protoc.Ed25519.{canonical, scalar_below_group_order}
use bounded_authority_protoc.Ed25519.Canonical.{
  IsCanonicalPoint, canonical_iff, little_endian, group_order, scalar_below_group_order_iff,
}
use bounded_authority_protoc.Es256.{validate_rs_range}
use bounded_authority_protoc.Es256.Range.{InRange, validate_rs_range-eq-ok_iff}
use bounded_authority_protoc.Uri.Dots.{dot_loop, remove_dot_segments}
use bounded_authority_protoc.Uri.Dots.Rounds.{Runs, dot_loop-terminates}
use bounded_authority_protoc.Uri.Normalize.{uri_normalize, local_loopback_http_uri_normalize}
use bounded_authority_protoc.Uri.Normalize.Shape.{IsNormalized, uri_normalize-IsNormalized}
use bounded_authority_protoc.Tests.{no_floats}

-- The dots of the path are escaped.
abbrev written : Bytes
written = codes "HTTPS://Example.com:443/a/%2e%2E/b/./c"

normalized : uri_normalize written maximum ≡ ok (codes "https://example.com/b/c")
unfolding uri_normalize
normalized = refl

-- A host that is an address once its escapes are decoded, and then is refused.
escaped_host :
    (uri_normalize (codes "https://%31.2.3.256/") maximum ≡ ok (codes "https://1.2.3.256/"))
    × (uri_normalize (codes "https://1.2.3.256/") maximum ≡ invalid)
unfolding uri_normalize
escaped_host = (refl, refl)

loopback :
    local_loopback_http_uri_normalize (codes "http://127.0.0.1:08080/x") maximum
    ≡ ok (codes "http://127.0.0.1:8080/x")
unfolding local_loopback_http_uri_normalize
loopback = refl

uri_normalize-IsNormalized_example : IsNormalized written maximum (codes "https://example.com/b/c")
uri_normalize-IsNormalized_example =
    uri_normalize-IsNormalized written maximum (codes "https://example.com/b/c") normalized

dot_loop-terminates_example :
    Runs (codes "/a/../b") [] (dot_loop 9 (codes "/a/../b") [])
    × (dot_loop 9 (codes "/a/../b") [] ≡ remove_dot_segments (codes "/a/../b"))
dot_loop-terminates_example = dot_loop-terminates 9 (codes "/a/../b") (omega arith)

abbrev signature : Bytes
signature = replicate 32 3 ++ replicate 32 1

validate_rs_range-eq-ok_iff_example : (validate_rs_range signature ≡ ok tt) ↔ InRange signature
validate_rs_range-eq-ok_iff_example = validate_rs_range-eq-ok_iff signature (omega arith) refl

canonical_iff_example : (canonical (replicate 32 3) ≡ true) ↔ IsCanonicalPoint (replicate 32 3)
canonical_iff_example = canonical_iff (replicate 32 3) (omega arith) refl

scalar_below_group_order_iff_example :
    (scalar_below_group_order (replicate 32 1) ≡ true)
    ↔ (little_endian (replicate 32 1) < group_order)
scalar_below_group_order_iff_example =
    scalar_below_group_order_iff (replicate 32 1) (omega arith) refl
