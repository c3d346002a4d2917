-- ===== src/Selector/Evaluate.antt =====
-- `validate`, `evaluate` and their contract-major 2 versions, of sdks/rust/src/selector.rs.
pub mod Versions
pub mod Ranges
pub mod Binding
use bounded_authority_protoc.Base.{
  ℕ, Bool, true, false, not, ◌||◌, List, [], ◌∷◌, ltb, ◌==◌, if◌then◌else◌, length, any, Bytes,
  codes, equal, Result, ok, invalid, ◌>>=◌, ◌>>◌, refuse,
}
use bounded_authority_protoc.Base.Int.{ℤ, leb_ℤ}
use bounded_authority_protoc.Json.Value.{
  Float64, JsonValue, Json, Members, int, float, as_object, as_array,
}
use bounded_authority_protoc.Bounds.{Bounds}
use bounded_authority_protoc.Jcs.Encode.{jcs_encode}
use bounded_authority_protoc.Selector.Lookup.{
  recognized_member_set, member_value, member_str, extract_path, traverse,
}
use bounded_authority_protoc.Selector.Identity.{semantic_identity}

-- `RangeOrder`.
pub data RangeOrder : Type 0 where
  lte gte : RangeOrder

module _ ⦃fl : Float64⦄ where
  -- `jcs_encode(value, bounds)?;` for every value.
  unfoldable pub encodable_all : List Json → Bounds → Result (Unit {0})
  encodable_all [] bounds = ok tt
  encodable_all (v ∷ vs) bounds = do _ ← jcs_encode bounds v; encodable_all vs bounds

  -- The arms of `validate`.
  unfoldable pub validate_equals : Members → Bounds → Result (Unit {0})
  validate_equals members bounds = do
    _ ← extract_path members (codes "path") bounds
    v ← member_value members (codes "value")
    _ ← jcs_encode bounds v
    ok tt

  unfoldable pub validate_one_of : Members → Bounds → Result (Unit {0})
  unfolding encodable_all
  validate_one_of members bounds = do
    _ ← extract_path members (codes "path") bounds
    raw ← member_value members (codes "values")
    values ← as_array raw
    refuse (length values == 0 || ltb bounds.one_of_values (length values))
    encodable_all values bounds

  abbrev pub is_numeric : Json → Bool
  is_numeric (int _) = true
  is_numeric (float _) = true
  is_numeric _ = false

  unfoldable pub validate_range : Members → Bounds → Result (Unit {0})
  validate_range members bounds = do
    _ ← extract_path members (codes "path") bounds
    bound ← member_value members (codes "value")
    refuse (not (is_numeric bound))
    _ ← jcs_encode bounds bound
    ok tt

  unfoldable pub validate_kind : Bytes → Members → Bounds → Result (Unit {0})
  validate_kind kind members bounds =
      if equal kind (codes "all")
      then ok tt
      else if equal kind (codes "equals")
      then validate_equals members bounds
      else if equal kind (codes "one_of")
      then validate_one_of members bounds
      else invalid

  unfoldable pub validate_kind_v2 : Bytes → Members → Bounds → Result (Unit {0})
  validate_kind_v2 kind members bounds =
      if equal kind (codes "all")
      then ok tt
      else if equal kind (codes "equals")
      then validate_equals members bounds
      else if equal kind (codes "one_of")
      then validate_one_of members bounds
      else if equal kind (codes "lte") || equal kind (codes "gte")
      then validate_range members bounds
      else invalid

  unfoldable pub validate : Json → Bounds → Result (Unit {0})
  validate selector bounds = do
    members ← as_object selector
    kind ← member_str members (codes "kind")
    refuse (not (recognized_member_set members))
    validate_kind kind members bounds

  unfoldable pub validate_v2 : Json → Bounds → Result (Unit {0})
  validate_v2 selector bounds = do
    members ← as_object selector
    kind ← member_str members (codes "kind")
    refuse (not (recognized_member_set members))
    validate_kind_v2 kind members bounds

  unfoldable pub eval_equals : Members → Json → Bounds → Result Bool
  eval_equals members cast_arguments bounds = do
    refuse (not (length members == 3))
    path ← extract_path members (codes "path") bounds
    value ← member_value members (codes "value")
    found ← traverse cast_arguments path
    ok (semantic_identity found value)

  unfoldable pub eval_one_of : Members → Json → Bounds → Result Bool
  eval_one_of members cast_arguments bounds = do
    refuse (not (length members == 3))
    path ← extract_path members (codes "path") bounds
    raw ← member_value members (codes "values")
    values ← as_array raw
    refuse (length values == 0)
    refuse (ltb bounds.one_of_values (length values))
    found ← traverse cast_arguments path
    ok (any (λ v. semantic_identity v found) values)

  -- The same tag on both sides, and the order; all else never matches.
  unfoldable pub in_range : RangeOrder → Json → Json → Bool
  in_range lte (int a) (int b) = leb_ℤ a b
  in_range gte (int a) (int b) = leb_ℤ b a
  in_range lte (float a) (float b) = fl.le a b
  in_range gte (float a) (float b) = fl.le b a
  in_range _ _ _ = false

  unfoldable pub eval_range : Members → Json → Bounds → RangeOrder → Result Bool
  unfolding in_range
  eval_range members cast_arguments bounds order = do
    refuse (not (length members == 3))
    path ← extract_path members (codes "path") bounds
    bound ← member_value members (codes "value")
    found ← traverse cast_arguments path
    ok (in_range order found bound)

  unfoldable pub eval_kind : Bytes → Members → Json → Bounds → Result Bool
  eval_kind kind members cast_arguments bounds =
      if equal kind (codes "all")
      then ok true
      else if equal kind (codes "equals")
      then eval_equals members cast_arguments bounds
      else if equal kind (codes "one_of")
      then eval_one_of members cast_arguments bounds
      else invalid

  unfoldable pub eval_kind_v2 : Bytes → Members → Json → Bounds → Result Bool
  eval_kind_v2 kind members cast_arguments bounds =
      if equal kind (codes "all")
      then ok true
      else if equal kind (codes "equals")
      then eval_equals members cast_arguments bounds
      else if equal kind (codes "one_of")
      then eval_one_of members cast_arguments bounds
      else if equal kind (codes "lte")
      then eval_range members cast_arguments bounds lte
      else if equal kind (codes "gte")
      then eval_range members cast_arguments bounds gte
      else invalid

  unfoldable pub evaluate : Json → Json → Bounds → Result Bool
  evaluate selector cast_arguments bounds = do
    validate selector bounds
    members ← as_object selector
    kind ← member_str members (codes "kind")
    refuse (not (recognized_member_set members))
    eval_kind kind members cast_arguments bounds

  unfoldable pub evaluate_v2 : Json → Json → Bounds → Result Bool
  evaluate_v2 selector cast_arguments bounds = do
    validate_v2 selector bounds
    members ← as_object selector
    kind ← member_str members (codes "kind")
    refuse (not (recognized_member_set members))
    eval_kind_v2 kind members cast_arguments bounds
