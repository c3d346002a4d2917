-- ===== src/Bounds.antt =====
-- sdks/rust/src/bounds.rs: the profile maxima, and overrides that may only tighten them.
pub mod Tightening
use bounded_authority_protoc.Base.{
  ℕ, zero, suc, ◌≤◌, ◌<◌, ◌≡◌, Bool, true, false, not, ◌&&◌, Option, none, some, List, [], ◌∷◌, ltb,
  leb, ◌==◌, if◌then◌else◌, Bytes, codes, equal, Result, ok, invalid, ◌>>=◌, ◌>>◌, refuse,
}
use bounded_authority_protoc.Base.Int.{ℤ, pos, negsuc}
use bounded_authority_protoc.Json.Value.{
  Float64, JsonValue, JsonMembers, Json, Members, object, member_list, as_object, as_int,
}

pub record Bounds : Type 0 where
  pub compact_bytes : ℕ
  pub encoded_segment_bytes : ℕ
  pub decoded_segment_bytes : ℕ
  pub json_bytes : ℕ
  pub depth : ℕ
  pub object_members : ℕ
  pub array_items : ℕ
  pub total_nodes : ℕ
  pub string_bytes : ℕ
  pub key_bytes : ℕ
  pub number_lexeme_bytes : ℕ
  pub integer_magnitude : ℕ
  pub float_magnitude : ℕ
  pub kid_bytes : ℕ
  pub jcs_bytes : ℕ
  pub uri_bytes : ℕ
  pub identifier_bytes : ℕ
  pub nonce_bytes : ℕ
  pub method_bytes : ℕ
  pub operation_bytes : ℕ
  pub audiences : ℕ
  pub operations : ℕ
  pub selectors : ℕ
  pub path_segments : ℕ
  pub one_of_values : ℕ
  pub clock_skew : ℕ
  pub proof_max_age : ℕ
  pub chain_row_bytes : ℕ
  pub chain_rows : ℕ
  pub anchor_bytes : ℕ
  pub archive_header_bytes : ℕ
  pub key_transitions : ℕ
  pub archive_chunks : ℕ
  pub archive_bytes : ℕ
  pub object_version_bytes : ℕ
  pub content_bytes : ℕ

-- `Bounds::maximum`, the `MAX_*` constants.
abbrev pub maximum : Bounds
maximum = record {
  compact_bytes = 65536;
  encoded_segment_bytes = 32768;
  decoded_segment_bytes = 24576;
  json_bytes = 65536;
  depth = 32;
  object_members = 64;
  array_items = 256;
  total_nodes = 4096;
  string_bytes = 8192;
  key_bytes = 128;
  number_lexeme_bytes = 64;
  integer_magnitude = 9007199254740991;
  float_magnitude = 9007199254740991;
  kid_bytes = 128;
  jcs_bytes = 65536;
  uri_bytes = 8192;
  identifier_bytes = 512;
  nonce_bytes = 512;
  method_bytes = 32;
  operation_bytes = 128;
  audiences = 64;
  operations = 64;
  selectors = 64;
  path_segments = 32;
  one_of_values = 256;
  clock_skew = 60;
  proof_max_age = 300;
  chain_row_bytes = 4096;
  chain_rows = 65536;
  anchor_bytes = 8192;
  archive_header_bytes = 8192;
  key_transitions = 256;
  archive_chunks = 65796;
  archive_bytes = 270820384;
  object_version_bytes = 512;
  content_bytes = 65536;
}

-- `FIXED_DIGEST_BYTES`, `FIXED_PUBLIC_KEY_BYTES` and `FIXED_SIGNATURE_BYTES`.
abbrev pub fixed_widths : List (Bytes × ℕ)
fixed_widths =
    (codes "digest_bytes", 32) ∷ (codes "public_key_bytes", 32) ∷ (codes "signature_bytes", 64) ∷ []

-- A field of `Bounds`: what `&mut self.field` in `apply_override` reads and writes.
pub record Limit : Type 0 where
  pub name : Bytes
  pub get : Bounds → ℕ
  pub put : ℕ → Bounds → Bounds

-- The arms of the `match` on the key, in order.
abbrev pub limits : List Limit
limits =
    record {
      name = codes "compact_bytes";
      get = λ b. b.compact_bytes;
      put = λ v b. record b { compact_bytes = v };
    }
    ∷ record {
      name = codes "encoded_segment_bytes";
      get = λ b. b.encoded_segment_bytes;
      put = λ v b. record b { encoded_segment_bytes = v };
    }
    ∷ record {
      name = codes "decoded_segment_bytes";
      get = λ b. b.decoded_segment_bytes;
      put = λ v b. record b { decoded_segment_bytes = v };
    }
    ∷ record {
      name = codes "json_bytes";
      get = λ b. b.json_bytes;
      put = λ v b. record b { json_bytes = v };
    }
    ∷ record { name = codes "depth"; get = λ b. b.depth; put = λ v b. record b { depth = v } }
    ∷ record {
      name = codes "object_members";
      get = λ b. b.object_members;
      put = λ v b. record b { object_members = v };
    }
    ∷ record {
      name = codes "array_items";
      get = λ b. b.array_items;
      put = λ v b. record b { array_items = v };
    }
    ∷ record {
      name = codes "total_nodes";
      get = λ b. b.total_nodes;
      put = λ v b. record b { total_nodes = v };
    }
    ∷ record {
      name = codes "string_bytes";
      get = λ b. b.string_bytes;
      put = λ v b. record b { string_bytes = v };
    }
    ∷ record {
      name = codes "key_bytes";
      get = λ b. b.key_bytes;
      put = λ v b. record b { key_bytes = v };
    }
    ∷ record {
      name = codes "number_lexeme_bytes";
      get = λ b. b.number_lexeme_bytes;
      put = λ v b. record b { number_lexeme_bytes = v };
    }
    ∷ record {
      name = codes "integer_magnitude";
      get = λ b. b.integer_magnitude;
      put = λ v b. record b { integer_magnitude = v };
    }
    ∷ record {
      name = codes "float_magnitude";
      get = λ b. b.float_magnitude;
      put = λ v b. record b { float_magnitude = v };
    }
    ∷ record {
      name = codes "kid_bytes";
      get = λ b. b.kid_bytes;
      put = λ v b. record b { kid_bytes = v };
    }
    ∷ record {
      name = codes "jcs_bytes";
      get = λ b. b.jcs_bytes;
      put = λ v b. record b { jcs_bytes = v };
    }
    ∷ record {
      name = codes "uri_bytes";
      get = λ b. b.uri_bytes;
      put = λ v b. record b { uri_bytes = v };
    }
    ∷ record {
      name = codes "identifier_bytes";
      get = λ b. b.identifier_bytes;
      put = λ v b. record b { identifier_bytes = v };
    }
    ∷ record {
      name = codes "nonce_bytes";
      get = λ b. b.nonce_bytes;
      put = λ v b. record b { nonce_bytes = v };
    }
    ∷ record {
      name = codes "method_bytes";
      get = λ b. b.method_bytes;
      put = λ v b. record b { method_bytes = v };
    }
    ∷ record {
      name = codes "operation_bytes";
      get = λ b. b.operation_bytes;
      put = λ v b. record b { operation_bytes = v };
    }
    ∷ record {
      name = codes "audiences";
      get = λ b. b.audiences;
      put = λ v b. record b { audiences = v };
    }
    ∷ record {
      name = codes "operations";
      get = λ b. b.operations;
      put = λ v b. record b { operations = v };
    }
    ∷ record {
      name = codes "selectors";
      get = λ b. b.selectors;
      put = λ v b. record b { selectors = v };
    }
    ∷ record {
      name = codes "path_segments";
      get = λ b. b.path_segments;
      put = λ v b. record b { path_segments = v };
    }
    ∷ record {
      name = codes "one_of_values";
      get = λ b. b.one_of_values;
      put = λ v b. record b { one_of_values = v };
    }
    ∷ record {
      name = codes "clock_skew";
      get = λ b. b.clock_skew;
      put = λ v b. record b { clock_skew = v };
    }
    ∷ record {
      name = codes "proof_max_age";
      get = λ b. b.proof_max_age;
      put = λ v b. record b { proof_max_age = v };
    }
    ∷ record {
      name = codes "chain_row_bytes";
      get = λ b. b.chain_row_bytes;
      put = λ v b. record b { chain_row_bytes = v };
    }
    ∷ record {
      name = codes "chain_rows";
      get = λ b. b.chain_rows;
      put = λ v b. record b { chain_rows = v };
    }
    ∷ record {
      name = codes "anchor_bytes";
      get = λ b. b.anchor_bytes;
      put = λ v b. record b { anchor_bytes = v };
    }
    ∷ record {
      name = codes "archive_header_bytes";
      get = λ b. b.archive_header_bytes;
      put = λ v b. record b { archive_header_bytes = v };
    }
    ∷ record {
      name = codes "key_transitions";
      get = λ b. b.key_transitions;
      put = λ v b. record b { key_transitions = v };
    }
    ∷ record {
      name = codes "archive_chunks";
      get = λ b. b.archive_chunks;
      put = λ v b. record b { archive_chunks = v };
    }
    ∷ record {
      name = codes "archive_bytes";
      get = λ b. b.archive_bytes;
      put = λ v b. record b { archive_bytes = v };
    }
    ∷ record {
      name = codes "object_version_bytes";
      get = λ b. b.object_version_bytes;
      put = λ v b. record b { object_version_bytes = v };
    }
    ∷ record {
      name = codes "content_bytes";
      get = λ b. b.content_bytes;
      put = λ v b. record b { content_bytes = v };
    }
    ∷ []

-- Writes the value if it is positive and at most the maximum.
unfoldable pub tighten : Limit → ℕ → Bounds → Result Bounds
tighten l value b = if ltb 0 value && leb value (l.get maximum) then ok (l.put value b) else invalid

unfoldable pub fixed : ℕ → ℕ → Bounds → Result Bounds
fixed width value b = if value == width then ok b else invalid

-- The last arms: the fixed widths, and any other key.
unfoldable pub apply_fixed : List (Bytes × ℕ) → Bytes → ℕ → Bounds → Result Bounds
unfolding fixed
apply_fixed [] key value b = invalid
apply_fixed ((name, width) ∷ rest) key value b =
    if equal key name then fixed width value b else apply_fixed rest key value b

unfoldable pub apply_limits : List Limit → Bytes → ℕ → Bounds → Result Bounds
unfolding tighten apply_fixed
apply_limits [] key value b = apply_fixed fixed_widths key value b
apply_limits (l ∷ rest) key value b =
    if equal key l.name then tighten l value b else apply_limits rest key value b

unfoldable pub apply_override : Bytes → ℕ → Bounds → Result Bounds
unfolding apply_limits
apply_override = apply_limits limits

-- `n as u64` behind the test `n <= 0`.
abbrev pub positive : ℤ → Result ℕ
positive (pos (suc n)) = ok (suc n)
positive _ = invalid

module _ {F : Type 0} where
  -- The loop over the members.
  unfoldable pub override_all : List (Bytes × JsonValue F) → Bounds → Result Bounds
  override_all [] b = ok b
  override_all ((key, value) ∷ rest) b = do
    n ← as_int value
    v ← positive n
    b' ← apply_override key v b
    override_all rest b'

  -- `Bounds::new`.
  unfoldable pub new : Option (JsonValue F) → Result Bounds
  unfolding override_all
  new none = ok maximum
  new (some overrides) = do members ← as_object overrides; override_all members maximum

-- `resolve_bounds` of sdks/rust/src/v1.rs.
abbrev pub resolve_bounds : Option Bounds → Bounds
resolve_bounds none = maximum
resolve_bounds (some b) = b
