-- ===== src/Selector/Evaluate/Ranges.antt =====
-- The values that `eval_range` and `eval_one_of` of sdks/rust/src/selector.rs look for.
use bounded_authority_protoc.Base.{
  ◌≡◌, ◌↔◌, true, List, ◌∷◌, [], any, ◌||◌, Bool, inl, inr, Bool-cases, arith,
}
use bounded_authority_protoc.Base.Int.{ℤ, ◌≤ℤ◌}
use bounded_authority_protoc.Json.Value.{Float64, Json, int, float}
use bounded_authority_protoc.Selector.Identity.{semantic_identity}
use bounded_authority_protoc.Selector.Identity.Same.{Same, semantic_identity_iff}
use bounded_authority_protoc.Selector.Evaluate.{RangeOrder, lte, gte, in_range}

module _ ⦃fl : Float64⦄ where
  -- Numbers of one tag in their order; an integer and a float are in none.
  pub data AtMost : Json → Json → Type 0 where
    ints : {a b : ℤ} → a ≤ℤ b → AtMost (int a) (int b)
    floats : {a b : fl.Carrier} → fl.le a b ≡ true → AtMost (float a) (float b)

  -- `lte`: the value found is at most the bound; `gte`: the bound is at most the value found.
  abbrev pub InRange : RangeOrder → Json → Json → Type 0
  InRange lte found bound = AtMost found bound
  InRange gte found bound = AtMost bound found

  in_range-InRange :
      (order : RangeOrder) (found bound : Json)
      → in_range order found bound ≡ true
      → InRange order found bound
  unfolding in_range
  in_range-InRange lte (int a) (int b) h = ints (ground arith)
  in_range-InRange gte (int a) (int b) h = ints (ground arith)
  in_range-InRange lte (float a) (float b) h = floats h
  in_range-InRange gte (float a) (float b) h = floats h
  in_range-InRange _ _ _ h = absurd (cc h)

  InRange-in_range :
      (order : RangeOrder) (found bound : Json)
      → InRange order found bound
      → in_range order found bound ≡ true
  unfolding in_range
  InRange-in_range lte _ _ (ints h) = ground (arith, h)
  InRange-in_range lte _ _ (floats h) = h
  InRange-in_range gte _ _ (ints h) = ground (arith, h)
  InRange-in_range gte _ _ (floats h) = h

  pub in_range_iff :
      (order : RangeOrder) (found bound : Json)
      → (in_range order found bound ≡ true) ↔ InRange order found bound
  in_range_iff order found bound =
      (in_range-InRange order found bound, InRange-in_range order found bound)

  -- One of the values is the same as the value found.
  pub data OneOf (found : Json) : List Json → Type 0 where
    this_one : {v : Json} {vs : List Json} → Same v found → OneOf found (v ∷ vs)
    later_one : {v : Json} {vs : List Json} → OneOf found vs → OneOf found (v ∷ vs)

  any-OneOf :
      (found : Json) (vs : List Json)
      → any (λ v. semantic_identity v found) vs ≡ true
      → OneOf found vs
  any-OneOf found [] h = absurd (cc h)
  any-OneOf found (v ∷ vs) h = elim (Bool-cases (semantic_identity v found)) [
    | inl e ↦ this_one ((semantic_identity_iff v found).0 e)
    | inr e ↦ later_one (any-OneOf found vs (rw (e, ◌||◌) at h))
  ]

  OneOf-any :
      {found : Json} {vs : List Json}
      → OneOf found vs
      → any (λ v. semantic_identity v found) vs ≡ true
  OneOf-any {found} {vs = []} o = elim o [ ]
  OneOf-any {found} {vs = v ∷ vs} (this_one same) = simp ((semantic_identity_iff v found).1 same)
  OneOf-any {found} {vs = v ∷ vs} (later_one o) =
      or_true (semantic_identity v found) _ (OneOf-any o)
    where
      or_true : (a b : Bool) → b ≡ true → (a || b) ≡ true
      or_true a b h = ground arith

  pub any_iff :
      (found : Json) (vs : List Json)
      → (any (λ v. semantic_identity v found) vs ≡ true) ↔ OneOf found vs
  any_iff found vs = (any-OneOf found vs, OneOf-any)
