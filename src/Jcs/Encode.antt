-- ===== src/Jcs/Encode.antt =====
-- `jcs_encode` and `encode_value` of sdks/rust/src/jcs.rs. The encoder of a member's value is made
-- where the member stands and run in sorted order, with the state of that moment, as in the source.
pub mod MemberOrder
use bounded_authority_protoc.Base.{
  ℕ, zero, suc, ◌+◌, Bool, true, false, not, ◌&&◌, ◌||◌, List, [], ◌∷◌, ◌++◌, map, ltb,
  if◌then◌else◌, length, any, Bytes, codes, equal, Result, ok, invalid, ◌>>=◌, ◌>>◌, refuse,
}
use bounded_authority_protoc.Base.Int.{ℤ, pos, sub_ℕ, ltb_ℤ}
use bounded_authority_protoc.Json.Value.{
  Float64, JsonValue, JsonItems, JsonMembers, Json, null, bool, int, float, string, array, object,
  no_items, item, no_members, member, item_list,
}
use bounded_authority_protoc.Bounds.{Bounds}
use bounded_authority_protoc.Jcs.Text.{encode_string, encode_int}
use bounded_authority_protoc.Jcs.Order.{sort_by_name}

pub record Output : Type 0 where
  pub out : Bytes
  pub nodes : ℕ

abbrev pub push : Bytes → Output → Output
push bytes o = record o { out = o.out ++ bytes }

-- The nesting level, then the state.
abbrev pub Encoder : Type 0
Encoder = ℕ → Output → Result Output

-- A name that is too long, or that stands already in `seen`.
unfoldable pub check_names : ℕ → List Bytes → List Bytes → Result (Unit {0})
check_names key_bytes seen [] = ok tt
check_names key_bytes seen (k ∷ ks) = do
  refuse (ltb key_bytes (length k) || any (equal k) seen)
  check_names key_bytes (k ∷ seen) ks

-- The loop over the sorted members; the flag is `rank > 0`.
unfoldable pub run_members : Bool → List (Bytes × Encoder) → Encoder
run_members later [] depth o = ok o
run_members later ((k, encode) ∷ rest) depth o = do
  let o₁ = if later then push (b',' ∷ []) o else o
  o₂ ← encode depth (push (b':' ∷ []) (push (encode_string k) o₁))
  run_members true rest depth o₂

module _ ⦃fl : Float64⦄ (bounds : Bounds) where
  -- What stands before and after the `match` on the value: the node count, and the output's ceiling.
  unfoldable pub counted : (Output → Result Output) → Output → Result Output
  counted body o = do
    let o₁ = record o { nodes = o.nodes + 1 }
    refuse (ltb bounds.total_nodes o₁.nodes)
    o₂ ← body o₁
    refuse (ltb bounds.jcs_bytes (length o₂.out))
    ok o₂

  -- `n < -mag || n > mag`
  unfoldable pub int_out_of_range : ℤ → Bool
  int_out_of_range n =
      ltb_ℤ n (sub_ℕ 0 bounds.integer_magnitude) || ltb_ℤ (pos bounds.integer_magnitude) n

  -- `encode_float`.
  unfoldable pub encode_float : fl.Carrier → Result Bytes
  encode_float f = do refuse (not (fl.is_finite f)); ok (fl.format_finite f)

  -- The arm of an object, on its members' names and encoders.
  unfoldable pub encode_object : List (Bytes × Encoder) → Encoder
  unfolding check_names run_members sort_by_name
  encode_object members depth o = do
    refuse (ltb bounds.depth depth)
    refuse (ltb bounds.object_members (length members))
    check_names bounds.key_bytes [] (map (λ m. m.0) members)
    o' ← run_members false (sort_by_name members) (depth + 1) (push (b'{' ∷ []) o)
    ok (push (b'}' ∷ []) o')

  unfoldable mutual
    unfolding counted encode_object encode_string encode_int int_out_of_range encode_float

    pub encode_value : Json → Encoder
    encode_value null depth = counted λ o. ok (push (codes "null") o)
    encode_value (bool b) depth =
        counted λ o. ok (push (if b then codes "true" else codes "false") o)
    encode_value (int n) depth =
        counted λ o. do refuse (int_out_of_range n); ok (push (encode_int n) o)
    encode_value (float f) depth = counted λ o. do
      refuse (not (fl.is_finite f) || fl.exceeds f bounds.float_magnitude)
      s ← encode_float f
      ok (push s o)
    encode_value (string s) depth =
        counted λ o. do refuse (ltb bounds.string_bytes (length s)); ok (push (encode_string s) o)
    encode_value (array items) depth = counted λ o. do
      refuse (ltb bounds.depth depth)
      refuse (ltb bounds.array_items (length (item_list items)))
      o' ← encode_items items false (depth + 1) (push (b'[' ∷ []) o)
      ok (push (b']' ∷ []) o')
    encode_value (object members) depth = counted (encode_object (member_encoders members) depth)

    -- The flag is `i > 0`.
    pub encode_items : JsonItems fl.Carrier → Bool → Encoder
    encode_items no_items later depth o = ok o
    encode_items (item v vs) later depth o = do
      o' ← encode_value v depth (if later then push (b',' ∷ []) o else o)
      encode_items vs true depth o'

    pub member_encoders : JsonMembers fl.Carrier → List (Bytes × Encoder)
    member_encoders no_members = []
    member_encoders (member k v ms) = (k, encode_value v) ∷ member_encoders ms

  unfoldable pub jcs_encode : Json → Result Bytes
  unfolding encode_value equal
  jcs_encode value = do
    o ← encode_value value 1 (record { out = []; nodes = 0 })
    refuse (ltb bounds.jcs_bytes (length o.out))
    ok o.out
