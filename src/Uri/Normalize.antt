-- ===== src/Uri/Normalize.antt =====
-- `uri_normalize` and `local_loopback_http_uri_normalize` of sdks/rust/src/uri.rs.
pub mod Shape
use bounded_authority_protoc.Base.{
  ℕ, ◌-◌, ◌^◌, Bool, true, false, not, ◌&&◌, ◌||◌, Option, none, some, List, [], ◌∷◌, ◌++◌, map,
  ltb, leb, ◌==◌, within, if◌then◌else◌, length, take, drop, all, any, Bytes, codes, equal,
  is_ascii_digit, to_ascii_lowercase, Result, ok, invalid, ◌>>=◌, ◌>>◌, refuse, ok_or,
}
use bounded_authority_protoc.Bounds.{Bounds}
use bounded_authority_protoc.Utf8.{from_utf8}
use bounded_authority_protoc.Jcs.Text.{decimal}
use bounded_authority_protoc.Json.Number.{digits_value}
use bounded_authority_protoc.Uri.Dots.{starts_with, segment, from_slash, normalize_path}
use bounded_authority_protoc.Uri.Host.{is_empty, parse_authority}

abbrev pub rejected_byte : ℕ → Bool
rejected_byte b = b == b'?' || (b == b'#' || (ltb b 0x20 || (b == 0x7f || leb 0x80 b)))

-- Eight bytes that spell `https://`, the scheme in any case.
unfoldable pub has_https : Bytes → Bool
unfolding equal
has_https bytes =
    not (ltb (length bytes) 8)
    && (equal (take 3 (drop 5 bytes)) (codes "://")
        && equal (map to_ascii_lowercase (take 5 bytes)) (codes "https"))

-- `:` and the port, if it is kept.
abbrev pub port_suffix : Option Bytes → Bytes
port_suffix none = []
port_suffix (some p) = b':' ∷ p

unfoldable pub uri_normalize : Bytes → Bounds → Result Bytes
unfolding has_https segment from_slash parse_authority normalize_path from_utf8
uri_normalize text bounds = do
  refuse (ltb bounds.uri_bytes (length text))
  refuse (any rejected_byte text)
  refuse (not (has_https text))
  let rest = drop 8 text
  (host, port) ← parse_authority (segment rest)
  path ← normalize_path (from_slash rest)
  normalized ← from_utf8 (codes "https://" ++ (host ++ (port_suffix port ++ path)))
  refuse (ltb bounds.uri_bytes (length normalized))
  ok normalized

-- `windows(3).position(|window| window == b"://")`: what is before it, and behind it.
unfoldable pub cut_mark : Bytes → Option (Bytes × Bytes)
unfolding starts_with
cut_mark [] = none
cut_mark (c ∷ s) =
    let later = cut_mark s in
    if starts_with (c ∷ s) (codes "://")
    then some ([], drop 3 (c ∷ s))
    else elim later [ none ↦ none | some (before, after) ↦ some (c ∷ before, after) ]

-- The host of an authority, and the digits of its port, if there are any.
unfoldable pub loopback_host : Bytes → Result (Bytes × Option Bytes)
unfolding equal starts_with
loopback_host authority =
    if equal authority (codes "127.0.0.1") || equal authority (codes "[::1]")
    then ok (authority, none)
    else if starts_with authority (codes "127.0.0.1:")
    then ok (codes "127.0.0.1", some (drop 10 authority))
    else if starts_with authority (codes "[::1]:")
    then ok (codes "[::1]", some (drop 6 authority))
    else invalid

-- The port, unless it is the default; `parse::<u32>` fails from 2^32 on.
unfoldable pub loopback_port : Option Bytes → Result (Option ℕ)
unfolding digits_value
loopback_port none = ok none
loopback_port (some digits) =
    let value = digits_value 0 digits in
    do
      refuse (is_empty digits || not (all is_ascii_digit digits))
      refuse (leb (2 ^ 32) value)
      refuse (not (within 1 65535 value))
      ok (if value == 80 then none else some value)

abbrev pub number_suffix : Option ℕ → Bytes
number_suffix none = []
number_suffix (some p) = b':' ∷ decimal p

unfoldable pub local_loopback_http_uri_normalize : Bytes → Bounds → Result Bytes
unfolding cut_mark loopback_host loopback_port segment from_slash normalize_path from_utf8 decimal
    equal
local_loopback_http_uri_normalize text bounds = do
  refuse (ltb bounds.uri_bytes (length text))
  refuse (any (λ b. not (within 0x21 0x7e b) || (b == b'?' || b == b'#')) text)
  (scheme, rest) ← ok_or (cut_mark text)
  refuse (not (equal (map to_ascii_lowercase scheme) (codes "http")))
  (host, raw_port) ← loopback_host (segment rest)
  port ← loopback_port raw_port
  path ← normalize_path (from_slash rest)
  normalized ← from_utf8 (codes "http://" ++ (host ++ (number_suffix port ++ path)))
  refuse (ltb bounds.uri_bytes (length normalized))
  ok normalized
