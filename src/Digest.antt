-- ===== src/Digest.antt =====
-- sdks/rust/src/digest.rs: the typed projection of the arguments and the digest of a request.
use bounded_authority_protoc.Base.{
  ℕ, ◌+◌, not, [], ◌∷◌, ◌++◌, ltb, length, Bytes, codes, Result, ok, ◌>>=◌, ◌>>◌, refuse,
}
use bounded_authority_protoc.Base64url.{base64url_encode}
use bounded_authority_protoc.Bounds.{Bounds}
use bounded_authority_protoc.Crypto.{Crypto}
use bounded_authority_protoc.Jcs.Encode.{jcs_encode}
use bounded_authority_protoc.Json.Value.{
  Float64, JsonItems, JsonMembers, Json, null, bool, int, float, string, array, object, no_items,
  item, no_members, member, item_list, member_list,
}

abbrev pub request_digest_prefix : Bytes
request_digest_prefix = codes "BAP1-REQUEST" ++ (0 ∷ [])

abbrev pub successor_request_digest_prefix : Bytes
successor_request_digest_prefix = codes "BAP2-REQUEST" ++ (0 ∷ [])

abbrev pub ecdsa_request_digest_prefix : Bytes
ecdsa_request_digest_prefix = codes "BAP3-REQUEST" ++ (0 ∷ [])

module _ ⦃fl : Float64⦄ where
  abbrev pub tag1 : Bytes → Json
  tag1 tag = array (item (string tag) no_items)

  abbrev pub tag2 : Bytes → Json → Json
  tag2 tag value = array (item (string tag) (item value no_items))

  unfoldable mutual
    pub typed : Json → Result Json
    typed null = ok (tag1 (codes "null"))
    typed (bool b) = ok (tag2 (codes "boolean") (bool b))
    typed (int n) = ok (tag2 (codes "integer") (int n))
    typed (float f) = do refuse (not (fl.is_finite f)); ok (tag2 (codes "float") (float f))
    typed (string s) = ok (tag2 (codes "string") (string s))
    typed (array vs) = do projected ← typed_items vs; ok (tag2 (codes "array") (array projected))
    typed (object ms) = do
      projected ← typed_members ms
      ok (tag2 (codes "object") (object projected))

    pub typed_items : JsonItems fl.Carrier → Result (JsonItems fl.Carrier)
    typed_items no_items = ok no_items
    typed_items (item v vs) = do
      projected ← typed v
      rest ← typed_items vs
      ok (item projected rest)

    pub typed_members : JsonMembers fl.Carrier → Result (JsonMembers fl.Carrier)
    typed_members no_members = ok no_members
    typed_members (member k v ms) = do
      projected ← typed v
      rest ← typed_members ms
      ok (member k projected rest)

  -- The counter of nodes goes in and comes out.
  unfoldable mutual
    pub validate_bounds : Json → ℕ → Bounds → ℕ → Result ℕ
    validate_bounds null depth bounds nodes = do
      refuse (ltb bounds.total_nodes (nodes + 1))
      ok (nodes + 1)
    validate_bounds (bool b) depth bounds nodes = do
      refuse (ltb bounds.total_nodes (nodes + 1))
      ok (nodes + 1)
    validate_bounds (int n) depth bounds nodes = do
      refuse (ltb bounds.total_nodes (nodes + 1))
      ok (nodes + 1)
    validate_bounds (float f) depth bounds nodes = do
      refuse (ltb bounds.total_nodes (nodes + 1))
      ok (nodes + 1)
    validate_bounds (string s) depth bounds nodes = do
      refuse (ltb bounds.total_nodes (nodes + 1))
      refuse (ltb bounds.string_bytes (length s))
      ok (nodes + 1)
    validate_bounds (array vs) depth bounds nodes = do
      refuse (ltb bounds.total_nodes (nodes + 1))
      refuse (ltb bounds.depth depth)
      refuse (ltb bounds.array_items (length (item_list vs)))
      validate_items vs (depth + 1) bounds (nodes + 1)
    validate_bounds (object ms) depth bounds nodes = do
      refuse (ltb bounds.total_nodes (nodes + 1))
      refuse (ltb bounds.depth depth)
      refuse (ltb bounds.object_members (length (member_list ms)))
      validate_members ms (depth + 1) bounds (nodes + 1)

    pub validate_items : JsonItems fl.Carrier → ℕ → Bounds → ℕ → Result ℕ
    validate_items no_items depth bounds nodes = ok nodes
    validate_items (item v vs) depth bounds nodes = do
      nodes' ← validate_bounds v depth bounds nodes
      validate_items vs depth bounds nodes'

    pub validate_members : JsonMembers fl.Carrier → ℕ → Bounds → ℕ → Result ℕ
    validate_members no_members depth bounds nodes = ok nodes
    validate_members (member k v ms) depth bounds nodes = do
      refuse (ltb bounds.key_bytes (length k))
      nodes' ← validate_bounds v depth bounds nodes
      validate_members ms depth bounds nodes'

  module _ ⦃cr : Crypto⦄ where
    unfoldable pub request_digest_with : Bytes → Bytes → Json → Bounds → Result Bytes
    unfolding typed validate_bounds jcs_encode base64url_encode
    request_digest_with prefix operation cast_arguments bounds = do
      refuse (ltb bounds.operation_bytes (length operation))
      projected ← typed cast_arguments
      let signing_array = array (item (string operation) (item projected no_items))
      _ ← validate_bounds signing_array 1 bounds 0
      jcs_bytes ← jcs_encode bounds signing_array
      ok (base64url_encode (cr.sha256 (prefix ++ jcs_bytes)))

    abbrev pub request_digest : Bytes → Json → Bounds → Result Bytes
    request_digest = request_digest_with request_digest_prefix

    abbrev pub request_digest_successor : Bytes → Json → Bounds → Result Bytes
    request_digest_successor = request_digest_with successor_request_digest_prefix

    abbrev pub request_digest_v3 : Bytes → Json → Bounds → Result Bytes
    request_digest_v3 = request_digest_with ecdsa_request_digest_prefix
