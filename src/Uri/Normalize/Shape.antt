-- ===== src/Uri/Normalize/Shape.antt =====
-- What `uri_normalize` of sdks/rust/src/uri.rs returns.
use bounded_authority_protoc.Base.{
  ◌≡◌, ◌≤◌, not, Option, ◌++◌, any, ltb, length, drop, Bytes, codes, ok, refuse, refuse-over_iff,
  OnOk, OnOk-bind, OnOk-check, OnOk-ok,
}
use bounded_authority_protoc.Bounds.{Bounds}
use bounded_authority_protoc.Utf8.{from_utf8}
use bounded_authority_protoc.Utf8.Laws.{from_utf8-eq-ok}
use bounded_authority_protoc.Uri.Dots.{segment, from_slash, normalize_path}
use bounded_authority_protoc.Uri.Dots.Plain.{Plain, from_slash-Absolute, normalize_path-Plain}
use bounded_authority_protoc.Uri.Host.{parse_authority}
use bounded_authority_protoc.Uri.Normalize.{rejected_byte, has_https, port_suffix, uri_normalize}

-- The scheme, a host and a port that the authority of the text parses to, and a path without dot segments.
pub record IsNormalized (text : Bytes) (bounds : Bounds) (out : Bytes) : Type 0 where
  pub host : Bytes
  pub port : Option Bytes
  pub path : Bytes
  pub authority : parse_authority (segment (drop 8 text)) ≡ ok (host, port)
  pub plain : Plain path
  pub whole : codes "https://" ++ (host ++ (port_suffix port ++ path)) ≡ out
  pub fits : length out ≤ bounds.uri_bytes

IsNormalized-OnOk :
    (text : Bytes) (bounds : Bounds) → OnOk (IsNormalized text bounds) (uri_normalize text bounds)
unfolding uri_normalize
IsNormalized-OnOk text bounds =
    let rest = drop 8 text in
    OnOk-check P (refuse (ltb bounds.uri_bytes (length text))) _ λ _.
      OnOk-check P (refuse (any rejected_byte text)) _ λ _.
        OnOk-check P (refuse (not (has_https text))) _ λ _.
          OnOk-bind P (parse_authority (segment rest)) _ λ (host, port) authority.
            OnOk-bind P (normalize_path (from_slash rest)) _ λ path is_path.
              OnOk-bind P (from_utf8 (codes "https://" ++ (host ++ (port_suffix port ++ path)))) _
                λ out is_out. OnOk-check P (refuse (ltb bounds.uri_bytes (length out))) _ λ fits.
                  record {
                    host = host;
                    port = port;
                    path = path;
                    authority = authority;
                    plain =
                        OnOk-ok Plain _
                          (normalize_path-Plain (from_slash rest) (from_slash-Absolute rest))
                          is_path;
                    whole =
                        (from_utf8-eq-ok (codes "https://" ++ (host ++ (port_suffix port ++ path)))
                          out is_out).0;
                    fits = (refuse-over_iff bounds.uri_bytes (length out)).0 fits;
                  }
  where
    P : Bytes → Type 0
    P = IsNormalized text bounds

-- A text that is normalized becomes the scheme in small letters, the host and the port that its authority is parsed to,
-- and a path of segments that each follow a slash and are not dot segments; and it fits the bounds.
pub uri_normalize-IsNormalized :
    (text : Bytes) (bounds : Bounds) (out : Bytes)
    → uri_normalize text bounds ≡ ok out
    → IsNormalized text bounds out
uri_normalize-IsNormalized text bounds out h =
    OnOk-ok (IsNormalized text bounds) _ (IsNormalized-OnOk text bounds) h
