-- ===== src/Selector/Evaluate/Binding.antt =====
-- When a selector holds of a request's arguments, for `evaluate_v2` of sdks/rust/src/selector.rs.
use bounded_authority_protoc.Base.{
  ◌≡◌, refl, sym, ap, ◌∙◌, subst, ◌↔◌, inl, inr, true, not, ◌||◌, List, [], ◌∷◌, ltb, ◌==◌, length,
  arith, Bytes, codes, equal, equal→eq, ok, refuse, refuse_iff, ◌>>◌, >>=-eq-ok, >>-eq-ok,
  ok-injective, Bool-cases, ||_parts,
}
use bounded_authority_protoc.Json.Value.{
  Float64, Json, JsonItems, JsonMembers, Members, string, array, object, item_list, member_list,
  as_array, as_string,
}
use bounded_authority_protoc.Bounds.{Bounds}
use bounded_authority_protoc.Selector.Lookup.{
  recognized_member_set, member_value, member_str, extract_path, traverse,
}
use bounded_authority_protoc.Selector.Lookup.Reaching.{
  IsFirst, as_array-items, member_value-IsFirst, IsFirst-member_value, IsPath, extract_path_iff,
  Reaches, traverse_iff,
}
use bounded_authority_protoc.Selector.Identity.Same.{Same, semantic_identity_iff}
use bounded_authority_protoc.Selector.Evaluate.{
  RangeOrder, lte, gte, validate_v2, validate_kind_v2, validate_one_of, eval_equals, eval_one_of,
  eval_range, eval_kind_v2, evaluate_v2,
}
use bounded_authority_protoc.Selector.Evaluate.Ranges.{InRange, in_range_iff, OneOf, any_iff}

-- A recognized member set that has a path has its three members.
three_members {ℓ} :
    {A : Type ℓ} (ms : List (Bytes × A)) (v : A)
    → recognized_member_set ms ≡ true
    → member_value ms (codes "path") ≡ ok v
    → (length ms == 3) ≡ true
unfolding recognized_member_set member_value
three_members [] v r e = ground arith
three_members (m ∷ []) v r e =
    ground (arith, equal→eq m.0 (codes "kind"), equal→eq m.0 (codes "path"))
three_members (m ∷ m' ∷ ms) v r e = ground arith

module _ ⦃fl : Float64⦄ (members : Members) (args : Json) (bounds : Bounds) where
  -- The value at the selector's path, which must be there.
  pub record Finds (found : Json) : Type 0 where
    pub path : List Bytes
    pub path_is : IsPath members bounds path
    pub reached : Reaches args path found

  -- The selector's condition on the arguments, for each kind of the closed set.
  pub data Holds : Bytes → Type 0 where
    by_all : Holds (codes "all")
    by_equals :
        {found value : Json}
        → Finds found
        → IsFirst members (codes "value") value
        → Same found value
        → Holds (codes "equals")
    by_one_of :
        {found : Json} {values : JsonItems fl.Carrier}
        → Finds found
        → IsFirst members (codes "values") (array values)
        → OneOf found (item_list values)
        → Holds (codes "one_of")
    by_lte :
        {found bound : Json}
        → Finds found
        → IsFirst members (codes "value") bound
        → InRange lte found bound
        → Holds (codes "lte")
    by_gte :
        {found bound : Json}
        → Finds found
        → IsFirst members (codes "value") bound
        → InRange gte found bound
        → Holds (codes "gte")

  -- What the evaluator computes on the way to the value found.
  finds :
      {path : List Bytes} {found : Json}
      → extract_path members (codes "path") bounds ≡ ok path
      → traverse args path ≡ ok found
      → Finds found
  finds {path} {found} e f = record {
    path = path;
    path_is = (extract_path_iff members bounds path).0 e;
    reached = (traverse_iff args path found).0 f;
  }

  extracted :
      {found : Json} → (f : Finds found) → extract_path members (codes "path") bounds ≡ ok f.path
  extracted f = (extract_path_iff members bounds f.path).1 f.path_is

  traversed : {found : Json} → (f : Finds found) → traverse args f.path ≡ ok found
  traversed {found} f = (traverse_iff args f.path found).1 f.reached

  length-recognized :
      {found : Json}
      → recognized_member_set members ≡ true
      → Finds found
      → (length members == 3) ≡ true
  unfolding extract_path
  length-recognized r f =
      let (raw, e, _) = >>=-eq-ok (member_value members (codes "path")) _ (extracted f) in
      three_members members raw r e

  eval_equals-Holds : eval_equals members args bounds ≡ ok true → Holds (codes "equals")
  unfolding eval_equals
  eval_equals-Holds h =
      let (_, h₁) = >>-eq-ok (refuse (not (length members == 3))) _ h in
      let (path, e₁, h₂) = >>=-eq-ok (extract_path members (codes "path") bounds) _ h₁ in
      let (value, e₂, h₃) = >>=-eq-ok (member_value members (codes "value")) _ h₂ in
      let (found, e₃, h₄) = >>=-eq-ok (traverse args path) _ h₃ in
      by_equals (finds e₁ e₃) (member_value-IsFirst members (codes "value") value e₂)
        ((semantic_identity_iff found value).0 (ok-injective h₄))

  eval_one_of-Holds : eval_one_of members args bounds ≡ ok true → Holds (codes "one_of")
  unfolding eval_one_of
  eval_one_of-Holds h =
      let (_, h₁) = >>-eq-ok (refuse (not (length members == 3))) _ h in
      let (path, e₁, h₂) = >>=-eq-ok (extract_path members (codes "path") bounds) _ h₁ in
      let (raw, e₂, h₃) = >>=-eq-ok (member_value members (codes "values")) _ h₂ in
      let (values, e₃, h₄) = >>=-eq-ok (as_array raw) _ h₃ in
      let (_, h₅) = >>-eq-ok (refuse (length values == 0)) _ h₄ in
      let (_, h₆) = >>-eq-ok (refuse (ltb bounds.one_of_values (length values))) _ h₅ in
      let (found, e₄, h₇) = >>=-eq-ok (traverse args path) _ h₆ in
      let (items, raw_is, items_are) = as_array-items raw values e₃ in
      let one = (any_iff found values).0 (ok-injective h₇) in
      by_one_of (finds e₁ e₄)
        (member_value-IsFirst members (codes "values") (array items) (e₂ ∙ ap ok raw_is))
        (subst (OneOf found) (sym items_are) one)

  eval_range-parts :
      (order : RangeOrder)
      → eval_range members args bounds order ≡ ok true
      → (found bound : Json) × Finds found
        × IsFirst members (codes "value") bound
        × InRange order found bound
  unfolding eval_range
  eval_range-parts order h =
      let (_, h₁) = >>-eq-ok (refuse (not (length members == 3))) _ h in
      let (path, e₁, h₂) = >>=-eq-ok (extract_path members (codes "path") bounds) _ h₁ in
      let (bound, e₂, h₃) = >>=-eq-ok (member_value members (codes "value")) _ h₂ in
      let (found, e₃, h₄) = >>=-eq-ok (traverse args path) _ h₃ in
      (
        found,
        bound,
        finds e₁ e₃,
        member_value-IsFirst members (codes "value") bound e₂,
        (in_range_iff order found bound).0 (ok-injective h₄),
      )

  eval_kind-Holds : (kind : Bytes) → eval_kind_v2 kind members args bounds ≡ ok true → Holds kind
  unfolding eval_kind_v2
  eval_kind-Holds kind h = elim (Bool-cases (equal kind (codes "all"))) [
    | inl e ↦ rw (equal→eq kind (codes "all") e) by_all
    | inr n₁ ↦ elim (Bool-cases (equal kind (codes "equals"))) [
      | inl e ↦ rw (equal→eq kind (codes "equals") e) (eval_equals-Holds (rw (n₁, e) at h))
      | inr n₂ ↦ elim (Bool-cases (equal kind (codes "one_of"))) [
        | inl e ↦ rw (equal→eq kind (codes "one_of") e) (eval_one_of-Holds (rw (n₁, n₂, e) at h))
        | inr n₃ ↦ elim (Bool-cases (equal kind (codes "lte"))) [
          | inl e ↦
              let (found, bound, f, b, r) = eval_range-parts lte (rw (n₁, n₂, n₃, e) at h) in
              rw (equal→eq kind (codes "lte") e) (by_lte f b r)
          | inr n₄ ↦ elim (Bool-cases (equal kind (codes "gte"))) [
            | inl e ↦
                let (found, bound, f, b, r) = eval_range-parts gte (rw (n₁, n₂, n₃, n₄, e) at h) in
                rw (equal→eq kind (codes "gte") e) (by_gte f b r)
            | inr n₅ ↦ absurd (cc (rw (n₁, n₂, n₃, n₄, n₅) at h))
          ]
        ]
      ]
    ]
  ]

  -- The other way: what holds evaluates to true, once the selector is valid.
  eval_range-true :
      (order : RangeOrder) {found bound : Json}
      → recognized_member_set members ≡ true
      → Finds found
      → IsFirst members (codes "value") bound
      → InRange order found bound
      → eval_range members args bounds order ≡ ok true
  unfolding eval_range
  eval_range-true order {found} {bound} rec f b r = simp (
    length-recognized rec f,
    extracted f,
    IsFirst-member_value b,
    traversed f,
    (in_range_iff order found bound).1 r,
  )

  eval_one_of-true :
      {found : Json} {values : JsonItems fl.Carrier}
      → recognized_member_set members ≡ true
      → validate_one_of members bounds ≡ ok tt
      → Finds found
      → IsFirst members (codes "values") (array values)
      → OneOf found (item_list values)
      → eval_one_of members args bounds ≡ ok true
  unfolding eval_one_of validate_one_of
  eval_one_of-true {found} {values} rec val f v o =
      let n = length (item_list values) in
      let a = IsFirst-member_value v in
      let (size, _) =
        >>-eq-ok (refuse (n == 0 || ltb bounds.one_of_values n)) _ (simp (extracted f, a) at val) in
      let (some_values, few) = ||_parts (n == 0) _ (refuse_iff _ size) in
      simp (
        length-recognized rec f,
        extracted f,
        a,
        some_values,
        few,
        traversed f,
        (any_iff found (item_list values)).1 o,
      )

  Holds-eval_kind :
      {kind : Bytes}
      → recognized_member_set members ≡ true
      → validate_kind_v2 kind members bounds ≡ ok tt
      → Holds kind
      → eval_kind_v2 kind members args bounds ≡ ok true
  unfolding eval_kind_v2 equal eval_equals validate_one_of validate_kind_v2
  Holds-eval_kind rec val by_all = refl
  Holds-eval_kind rec val (by_equals {found} {value} f v s) = simp (
    length-recognized rec f,
    extracted f,
    IsFirst-member_value v,
    traversed f,
    (semantic_identity_iff found value).1 s,
  )
  Holds-eval_kind rec val (by_one_of f v o) = eval_one_of-true rec val f v o
  Holds-eval_kind rec val (by_lte f b r) = eval_range-true lte rec f b r
  Holds-eval_kind rec val (by_gte f b r) = eval_range-true gte rec f b r

module _ ⦃fl : Float64⦄ where
  -- A valid selector, with its kind, whose condition holds of the arguments.
  pub data Binds : Json → Json → Bounds → Type 0 where
    binds :
        {ms : JsonMembers fl.Carrier} {args : Json} {bounds : Bounds} {kind : Bytes}
        → validate_v2 (object ms) bounds ≡ ok tt
        → IsFirst (member_list ms) (codes "kind") (string kind)
        → Holds (member_list ms) args bounds kind
        → Binds (object ms) args bounds

  member_str_iff :
      (members : Members) (name s : Bytes)
      → (member_str members name ≡ ok s) ↔ IsFirst members name (string s)
  unfolding member_str
  member_str_iff members name s = (
    λ h.
        let (v, e, h₁) = >>=-eq-ok (member_value members name) _ h in
        member_value-IsFirst members name (string s) (e ∙ ap ok (is_string v h₁)),
    λ f. rw (IsFirst-member_value f) refl,
  )
    where
      is_string : (v : Json) → as_string v ≡ ok s → v ≡ string s
      is_string (string t) h = ap string (ok-injective h)
      is_string _ h = absurd (cc h)

  evaluate_v2-Binds :
      (selector args : Json) (bounds : Bounds)
      → evaluate_v2 selector args bounds ≡ ok true
      → Binds selector args bounds
  unfolding evaluate_v2
  evaluate_v2-Binds (object ms) args bounds h =
      let (v, h₁) = >>-eq-ok (validate_v2 (object ms) bounds) _ h in
      let (kind, e₂, h₃) = >>=-eq-ok (member_str (member_list ms) (codes "kind")) _ h₁ in
      let (_, h₄) = >>-eq-ok (refuse (not (recognized_member_set (member_list ms)))) _ h₃ in
      binds v ((member_str_iff (member_list ms) (codes "kind") kind).0 e₂)
        (eval_kind-Holds (member_list ms) args bounds kind h₄)
  evaluate_v2-Binds selector args bounds h =
      let (_, k) = >>-eq-ok (validate_v2 selector bounds) _ h in absurd (cc k)

  validate_v2-parts :
      (members : Members) (bounds : Bounds) (kind : Bytes)
      → (refuse (not (recognized_member_set members)) >> validate_kind_v2 kind members bounds)
        ≡ ok tt
      → (recognized_member_set members ≡ true) × (validate_kind_v2 kind members bounds ≡ ok tt)
  validate_v2-parts members bounds kind v =
      let (r, k) = >>-eq-ok (refuse (not (recognized_member_set members))) _ v in
      (ground (arith, refuse_iff _ r), k)

  Binds-evaluate_v2 :
      (selector args : Json) (bounds : Bounds)
      → Binds selector args bounds
      → evaluate_v2 selector args bounds ≡ ok true
  unfolding evaluate_v2 validate_v2
  Binds-evaluate_v2 selector args bounds (binds {ms} {kind = kind} v first holds) =
      let members = member_list ms in
      let e = (member_str_iff members (codes "kind") kind).1 first in
      let (rec, k) = validate_v2-parts members bounds kind (simp e at v) in
      simp (e, rec, k, Holds-eval_kind members args bounds rec k holds)

  -- A selector of major 2 evaluates to true on a request exactly when it is valid and the condition of its kind holds of
  -- the arguments. For each kind but `all`, which always holds, the path leads through objects, by the first members of
  -- its names, to a value; for `equals` it is the same as the selector's value, for `one_of` as one of its values, where
  -- values are the same that have one tag and the same content, objects without repeated names as sets of members; for
  -- `lte` it is at most the selector's value, for `gte` at least, both being integers or both floats.
  pub evaluate_v2-true_iff :
      (selector args : Json) (bounds : Bounds)
      → (evaluate_v2 selector args bounds ≡ ok true) ↔ Binds selector args bounds
  evaluate_v2-true_iff selector args bounds =
      (evaluate_v2-Binds selector args bounds, Binds-evaluate_v2 selector args bounds)
