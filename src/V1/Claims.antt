-- ===== src/V1/Claims.antt =====
-- The claims of grants and proofs in sdks/rust/src/v1.rs: `validate_*` and `take_*`.
use bounded_authority_protoc.Base.{
  ℕ, ◌+◌, Bool, true, false, not, ◌&&◌, ◌||◌, Option, some, List, [], ◌∷◌, ltb, ◌==◌, within,
  if◌then◌else◌, length, all, any, Bytes, codes, equal, is_ascii_digit, is_ascii_alphanumeric,
  Result, ok, invalid, ◌>>=◌, ◌>>◌, refuse, ok_or,
}
use bounded_authority_protoc.Base64url.{base64url_decode}
use bounded_authority_protoc.Bounds.{Bounds}
use bounded_authority_protoc.Json.Value.{
  Float64, JsonValue, Json, string, array, as_object, as_array, as_string, item_list,
}
use bounded_authority_protoc.Json.Closed.{unset, collect_closed, take_string}
use bounded_authority_protoc.Major.{Major}
use bounded_authority_protoc.V1.Identifier.{validate_identifier}

abbrev is_empty : Bytes → Bool
is_empty [] = true
is_empty (c ∷ s) = false

abbrev pub is_kid_byte : ℕ → Bool
is_kid_byte b = is_ascii_alphanumeric b || (b == b'-' || (b == b'.' || (b == b'_' || b == b'~')))

abbrev pub is_htm_byte : ℕ → Bool
is_htm_byte b = is_ascii_alphanumeric b || any (λ c. b == c) (codes "!#$%&'*+-.^_`|~")

abbrev pub is_printable_ascii : ℕ → Bool
is_printable_ascii = within 0x20 0x7e

unfoldable pub validate_kid : Bytes → Bounds → Result (Unit {0})
validate_kid s bounds = do
  refuse (is_empty s || ltb bounds.kid_bytes (length s))
  refuse (not (all is_kid_byte s))

unfoldable pub validate_method_token : Bytes → Bounds → Result (Unit {0})
validate_method_token s bounds = do
  refuse (is_empty s || ltb bounds.method_bytes (length s))
  refuse (not (all is_htm_byte s))

unfoldable pub validate_operation_name : Bytes → Bounds → Result (Unit {0})
validate_operation_name s bounds = do
  refuse (is_empty s || ltb bounds.operation_bytes (length s))
  refuse (not (all is_printable_ascii s))

-- The arm of the loop at index `i`.
abbrev pub is_uuid_byte : ℕ → ℕ → Bool
is_uuid_byte i b =
    if i == 8 || (i == 13 || (i == 18 || i == 23))
    then b == b'-'
    else is_ascii_digit b || within b'a' b'f' b

unfoldable pub uuid_loop : ℕ → Bytes → Bool
uuid_loop i [] = true
uuid_loop i (b ∷ s) = is_uuid_byte i b && uuid_loop (i + 1) s

unfoldable pub validate_uuid : Bytes → Result (Unit {0})
unfolding uuid_loop
validate_uuid s = do refuse (not (length s == 36)); refuse (not (uuid_loop 0 s))

-- `BTreeSet::insert` in a loop: the strings of a list, all different, and each accepted by `check`.
unfoldable pub take_distinct :
    {F : Type 0}
    → (Bytes → Result (Unit {0}))
    → List Bytes
    → List (JsonValue F)
    → Result (List Bytes)
unfolding equal
take_distinct check seen [] = ok []
take_distinct check seen (v ∷ vs) = do
  s ← as_string v
  check s
  refuse (any (equal s) seen)
  rest ← take_distinct check (s ∷ seen) vs
  ok (s ∷ rest)

module _ {F : Type 0} where
  unfoldable pub take_string_or_uri : Option (JsonValue F) → Bounds → Result Bytes
  unfolding validate_identifier
  take_string_or_uri value bounds = do s ← take_string value; validate_identifier s bounds; ok s

  unfoldable pub audiences_of : JsonValue F → Bounds → Result (List Bytes)
  unfolding validate_identifier take_distinct
  audiences_of (string s) bounds = do validate_identifier s bounds; ok (s ∷ [])
  audiences_of (array items) bounds = do
    refuse (length (item_list items) == 0 || ltb bounds.audiences (length (item_list items)))
    take_distinct (λ s. validate_identifier s bounds) [] (item_list items)
  audiences_of _ bounds = invalid

  unfoldable pub take_audiences : Option (JsonValue F) → Bounds → Result (List Bytes)
  unfolding audiences_of
  take_audiences value bounds = do v ← ok_or value; audiences_of v bounds

  unfoldable pub take_digest_b64u : Option (JsonValue F) → Bounds → Result Bytes
  unfolding base64url_decode
  take_digest_b64u value bounds = do
    s ← take_string value
    refuse (ltb bounds.encoded_segment_bytes (length s))
    raw ← base64url_decode s
    refuse (not (length raw == 32))
    ok raw

  -- The one member of a closed object of one member.
  abbrev pub only_member : List (Bytes × JsonValue F) → Result (Bytes × JsonValue F)
  only_member (m ∷ []) = ok m
  only_member _ = invalid

  unfoldable pub take_cnf_jkt : Option (JsonValue F) → Bounds → Result Bytes
  unfolding take_digest_b64u equal
  take_cnf_jkt value bounds = do
    v ← ok_or value
    members ← as_object v
    (name, val) ← only_member members
    refuse (not (equal name (codes "jkt")))
    take_digest_b64u (some val) bounds

  unfoldable pub take_method_token : Option (JsonValue F) → Bounds → Result Bytes
  unfolding validate_method_token
  take_method_token value bounds = do s ← take_string value; validate_method_token s bounds; ok s

  unfoldable pub take_operation_name : Option (JsonValue F) → Bounds → Result Bytes
  unfolding validate_operation_name
  take_operation_name value bounds = do
    s ← take_string value
    validate_operation_name s bounds
    ok s

  unfoldable pub take_uuid : Option (JsonValue F) → Result Bytes
  unfolding validate_uuid
  take_uuid value = do s ← take_string value; validate_uuid s; ok s

-- `selector::validate` or its successor, by the contract major.
module _ ⦃fl : Float64⦄ (m : Major) where
  unfoldable pub validate_selectors : List Json → Bounds → Result (Unit {0})
  validate_selectors [] bounds = ok tt
  validate_selectors (sel ∷ sels) bounds = do
    m.selector_validate sel bounds
    validate_selectors sels bounds

  -- One operation; its name.
  unfoldable pub validate_operation : Json → List Bytes → Bounds → Result Bytes
  unfolding collect_closed validate_operation_name validate_selectors equal
  validate_operation op seen_names bounds = do
    members ← as_object op
    refuse (not (length members == 2))
    vars ← collect_closed (codes "name" ∷ codes "selectors" ∷ []) members unset
    name_str ← take_string (vars (codes "name"))
    validate_operation_name name_str bounds
    refuse (any (equal name_str) seen_names)
    selectors ← ok_or (vars (codes "selectors"))
    sel_items ← as_array selectors
    refuse (length sel_items == 0 || ltb bounds.selectors (length sel_items))
    validate_selectors sel_items bounds
    ok name_str

  unfoldable pub operations_loop : List Json → List Bytes → Bounds → Result (Unit {0})
  unfolding validate_operation
  operations_loop [] seen_names bounds = ok tt
  operations_loop (op ∷ ops) seen_names bounds = do
    name ← validate_operation op seen_names bounds
    operations_loop ops (name ∷ seen_names) bounds

  unfoldable pub validate_operations : Option Json → Bounds → Result (Unit {0})
  unfolding operations_loop
  validate_operations value bounds = do
    v ← ok_or value
    items ← as_array v
    refuse (length items == 0 || ltb bounds.operations (length items))
    operations_loop items [] bounds
