-- ===== src/Jwk.antt =====
-- sdks/rust/src/jwk.rs: Ed25519 keys as JSON Web Keys, and their thumbprints.
use bounded_authority_protoc.Base.{
  not, [], ◌∷◌, ◌++◌, ◌==◌, length, Bytes, codes, equal, Result, ok, ◌>>=◌, ◌>>◌, refuse,
}
use bounded_authority_protoc.Base64url.{base64url_encode, base64url_decode}
use bounded_authority_protoc.Bounds.{maximum}
use bounded_authority_protoc.Crypto.{Crypto}
use bounded_authority_protoc.Ed25519.{acceptable_public_key}
use bounded_authority_protoc.Json.Value.{Float64, as_object}
use bounded_authority_protoc.Json.Closed.{unset, collect_closed, take_string, require_text}
use bounded_authority_protoc.Json.Decode.{json_decode}

abbrev pub crv_ed25519 : Bytes
crv_ed25519 = codes "Ed25519"

abbrev pub kty_okp : Bytes
kty_okp = codes "OKP"

unfoldable pub encode_unchecked : Bytes → Bytes
unfolding base64url_encode
encode_unchecked public_key =
    codes "{\"crv\":\""
    ++ (crv_ed25519
        ++ (codes "\",\"kty\":\""
            ++ (kty_okp ++ (codes "\",\"x\":\"" ++ (base64url_encode public_key ++ codes "\"}")))))

module _ ⦃cr : Crypto⦄ where
  unfoldable pub jwk_encode_public : Bytes → Result Bytes
  unfolding acceptable_public_key encode_unchecked
  jwk_encode_public public_key = do
    refuse (not (acceptable_public_key public_key))
    ok (encode_unchecked public_key)

  abbrev pub thumbprint_digest_unchecked : Bytes → Bytes
  thumbprint_digest_unchecked public_key = cr.sha256 (encode_unchecked public_key)

  unfoldable pub thumbprint_raw : Bytes → Result Bytes
  unfolding acceptable_public_key encode_unchecked
  thumbprint_raw public_key = do
    refuse (not (acceptable_public_key public_key))
    ok (thumbprint_digest_unchecked public_key)

  unfoldable pub thumbprint : Bytes → Result Bytes
  unfolding thumbprint_raw base64url_encode
  thumbprint public_key = do raw ← thumbprint_raw public_key; ok (base64url_encode raw)

module _ ⦃fl : Float64⦄ ⦃cr : Crypto⦄ where
  unfoldable pub jwk_decode_public : Bytes → Result Bytes
  unfolding json_decode collect_closed base64url_decode acceptable_public_key equal
  jwk_decode_public text = do
    value ← json_decode maximum text
    members ← as_object value
    vars ← collect_closed (codes "crv" ∷ codes "kty" ∷ codes "x" ∷ []) members unset
    require_text (vars (codes "crv")) crv_ed25519
    require_text (vars (codes "kty")) kty_okp
    x_str ← take_string (vars (codes "x"))
    x_bytes ← base64url_decode x_str
    refuse (not (length x_bytes == 32))
    refuse (not (acceptable_public_key x_bytes))
    ok x_bytes
