-- ===== src/Selector/Evaluate/Versions.antt =====
-- The selector algebras of both majors side by side, for sdks/rust/src/selector.rs.
use bounded_authority_protoc.Base.{◌≡◌, not, arith, Bytes, codes, ok, refuse, >>=-eq-ok, >>-eq-ok}
use bounded_authority_protoc.Json.Value.{Float64, Json, Members, as_object}
use bounded_authority_protoc.Bounds.{Bounds}
use bounded_authority_protoc.Selector.Lookup.{recognized_member_set, member_str}
use bounded_authority_protoc.Selector.Evaluate.{
  validate_kind, validate_kind_v2, validate, validate_v2, eval_kind, eval_kind_v2, evaluate,
  evaluate_v2,
}

module _ ⦃fl : Float64⦄ where
  validate_kind-v2 :
      (kind : Bytes) (members : Members) (bounds : Bounds)
      → validate_kind kind members bounds ≡ ok tt
      → validate_kind_v2 kind members bounds ≡ ok tt
  unfolding validate_kind validate_kind_v2
  validate_kind-v2 kind members bounds h = ground arith

  eval_kind-v2 :
      (kind : Bytes) (members : Members) (args : Json) (bounds : Bounds)
      → validate_kind kind members bounds ≡ ok tt
      → eval_kind_v2 kind members args bounds ≡ eval_kind kind members args bounds
  unfolding validate_kind eval_kind eval_kind_v2
  eval_kind-v2 kind members args bounds h = ground arith

  -- A selector that major 1 accepts is accepted by major 2, and evaluates there to the same verdict
  -- on every request.
  pub evaluate_v2-extends :
      (selector args : Json) (bounds : Bounds)
      → validate selector bounds ≡ ok tt
      → (validate_v2 selector bounds ≡ ok tt)
        × (evaluate_v2 selector args bounds ≡ evaluate selector args bounds)
  unfolding validate validate_v2 evaluate evaluate_v2
  evaluate_v2-extends selector args bounds h =
      let (members, e₁, h₁) = >>=-eq-ok (as_object selector) _ h in
      let (kind, e₂, h₂) = >>=-eq-ok (member_str members (codes "kind")) _ h₁ in
      let (e₃, h₃) = >>-eq-ok (refuse (not (recognized_member_set members))) _ h₂ in
      let v₂ = validate_kind-v2 kind members bounds h₃ in
      (simp (e₁, e₂, e₃, v₂), simp (e₁, e₂, e₃, h₃, v₂, eval_kind-v2 kind members args bounds h₃))
