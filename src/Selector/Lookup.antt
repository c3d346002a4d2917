-- ===== src/Selector/Lookup.antt =====
-- The members of a selector and the path through the arguments, of sdks/rust/src/selector.rs.
pub mod Reaching
use bounded_authority_protoc.Base.{
  ℕ, ◌+◌, Bool, ◌&&◌, ◌||◌, List, [], ◌∷◌, ltb, ◌==◌, if◌then◌else◌, length, Bytes, codes, equal,
  Result, ok, invalid, ◌>>=◌, ◌>>◌, refuse,
}
use mathlib.Core.Bool.{xor}
use bounded_authority_protoc.Json.Value.{Float64, Json, Members, as_object, as_array, as_string}
use bounded_authority_protoc.Bounds.{Bounds}

-- How many members have the name.
unfoldable pub count {ℓ} : {A : Type ℓ} → Bytes → List (Bytes × A) → ℕ
count name [] = 0
count name (m ∷ ms) = (if equal m.0 name then 1 else 0) + count name ms

module _ {ℓ} {A : Type ℓ} where
  -- The one or three members that a selector may have.
  unfoldable pub recognized_member_set : List (Bytes × A) → Bool
  unfolding count
  recognized_member_set members =
      let kind = count (codes "kind") members == 1 in
      let path = count (codes "path") members == 1 in
      let value = count (codes "value") members == 1 in
      let values = count (codes "values") members == 1 in
      length members == 1 && kind || length members == 3 && (kind && (path && xor value values))

  -- The first member of the name.
  unfoldable pub member_value : List (Bytes × A) → Bytes → Result A
  member_value [] name = invalid
  member_value (m ∷ ms) name = if equal m.0 name then ok m.1 else member_value ms name

module _ ⦃fl : Float64⦄ where
  unfoldable pub member_str : Members → Bytes → Result Bytes
  unfolding member_value
  member_str members name = do v ← member_value members name; as_string v

  -- The loop over the segments.
  unfoldable pub path_segments : ℕ → List Json → Result (List Bytes)
  path_segments key_bytes [] = ok []
  path_segments key_bytes (elem ∷ rest) = do
    s ← as_string elem
    refuse (length s == 0)
    refuse (ltb key_bytes (length s))
    path ← path_segments key_bytes rest
    ok (s ∷ path)

  unfoldable pub extract_path : Members → Bytes → Bounds → Result (List Bytes)
  unfolding member_value path_segments
  extract_path members name bounds = do
    raw ← member_value members name
    arr ← as_array raw
    refuse (length arr == 0)
    refuse (ltb bounds.path_segments (length arr))
    path_segments bounds.key_bytes arr

  -- Down the members named, through objects only.
  unfoldable pub traverse : Json → List Bytes → Result Json
  unfolding member_value
  traverse current [] = ok current
  traverse current (seg ∷ path) = do
    members ← as_object current
    next ← member_value members seg
    traverse next path
