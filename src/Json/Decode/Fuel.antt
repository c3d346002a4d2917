-- ===== src/Json/Decode/Fuel.antt =====
-- The fuel of the model's `parse_value`, `parse_array` and `parse_object`, for sdks/rust/src/json.rs.
pub mod Runs
use bounded_authority_protoc.Base.{
  ℕ, zero, suc, ◌+◌, ◌*◌, ◌≤◌, ◌<◌, ◌≡◌, ◌≢◌, refl, Bool, true, false, not, ◌||◌, List, [], ◌∷◌,
  arith, ltb, ◌==◌, if◌then◌else◌, length, any, Bytes, codes, equal, Result, ok, invalid, OnOk-ok,
}
use bounded_authority_protoc.Bounds.{Bounds}
use bounded_authority_protoc.Json.Value.{
  Float64, JsonItems, JsonMembers, Json, bool, string, array, object, no_items, item, no_members,
  member, null,
}
use bounded_authority_protoc.Json.Text.{looks_at, advance, skip_ws, expect_literal, parse_string}
use bounded_authority_protoc.Json.Text.Consumed.{
  length-advance, length-advance_pos, looks_at_pos, length-skip_ws, expect_literal-Leaves,
  parse_string-Leaves,
}
use bounded_authority_protoc.Json.Number.{at_digit, parse_number}
use bounded_authority_protoc.Json.Number.Consumed.{parse_number-Leaves}
use bounded_authority_protoc.Json.Decode.{
  Run, done, fail, out_of_fuel, ◌>>=◌, ◌>>◌, fail_if, lift, Decoder, at, is_empty, literal,
  parse_scalar, parse_value, parse_array, items_loop, parse_object, members_loop, decode_run,
}
use bounded_authority_protoc.Json.Decode.Fuel.Runs.{
  OnRun, OnRun-fail_if, OnRun-if, OnRun-lift, OnRun-bind, OnRun-out_of_fuel,
}

module _ ⦃fl : Float64⦄ (bounds : Bounds) where
  -- The run ends, and leaves less than `n` bytes.
  abbrev Ends {ℓ} : {A : Type ℓ} → ℕ → Run (A × Decoder) → Type 0
  Ends n r = OnRun (λ p. length p.1.rest < n) r

  literal-Ends :
      (lit : Bytes) (v : Json) (d : Decoder)
      → 0 < length lit
      → Ends (length d.rest) (literal bounds lit v d)
  literal-Ends lit v d h =
      OnRun-lift _ (expect_literal lit d.rest) _
        λ s e. let left = OnOk-ok _ _ (expect_literal-Leaves lit d.rest) e in omega arith

  parse_scalar-Ends : (d : Decoder) → Ends (length d.rest) (parse_scalar bounds d)
  unfolding parse_scalar
  parse_scalar-Ends d =
      OnRun-if _ (looks_at b'"' d.rest) _ _
        (λ _.
          OnRun-lift _ (parse_string bounds.string_bytes d.rest) _
            λ (s, r) e. OnOk-ok _ _ (parse_string-Leaves bounds.string_bytes d.rest) e)
        λ _.
          OnRun-if _ (looks_at b't' d.rest) _ _
            (λ _. literal-Ends (codes "true") (bool true) d (omega arith))
            λ _.
              OnRun-if _ (looks_at b'f' d.rest) _ _
                (λ _. literal-Ends (codes "false") (bool false) d (omega arith))
                λ _.
                  OnRun-if _ (looks_at b'n' d.rest) _ _
                    (λ _. literal-Ends (codes "null") null d (omega arith))
                    λ _.
                      OnRun-if _ (looks_at b'-' d.rest || at_digit d.rest) _ _
                        (λ _.
                          OnRun-lift _ (parse_number bounds d.rest) _
                            λ (v, r) e. OnOk-ok _ _ (parse_number-Leaves bounds d.rest) e)
                        λ _. tt

  -- With this fuel each of the five calls ends.
  record Enough (f : ℕ) : Type 0 where
    value :
        (depth : ℕ) (d : Decoder)
        → 3 * length d.rest < f
        → Ends (length d.rest) (parse_value bounds f depth d)
    array_end :
        (depth : ℕ) (d : Decoder)
        → 0 < length d.rest
        → 3 * length d.rest ≤ f
        → Ends (length d.rest) (parse_array bounds f depth d)
    items :
        (depth count : ℕ) (d : Decoder)
        → 3 * length d.rest + 1 < f
        → Ends (length d.rest) (items_loop bounds f depth count d)
    object_end :
        (depth : ℕ) (d : Decoder)
        → 0 < length d.rest
        → 3 * length d.rest ≤ f
        → Ends (length d.rest) (parse_object bounds f depth d)
    members :
        (depth : ℕ) (seen : List Bytes) (d : Decoder)
        → 3 * length d.rest + 1 < f
        → Ends (length d.rest) (members_loop bounds f depth seen d)

  length-skip_advance : (s : Bytes) → length (skip_ws (advance s)) ≤ length s
  length-skip_advance s = omega (arith, length-skip_ws (advance s), length-advance s)

  length-skip_advance_pos : (s : Bytes) → 0 < length s → length (skip_ws (advance s)) < length s
  length-skip_advance_pos s h = omega (arith, length-skip_ws (advance s), length-advance_pos s h)

  parse_value-Ends :
      (f depth : ℕ) (d : Decoder)
      → Enough f
      → 3 * length d.rest < suc f
      → Ends (length d.rest) (parse_value bounds (suc f) depth d)
  unfolding parse_value
  parse_value-Ends f depth d ih h =
      let d₁ = record d { nodes = d.nodes + 1 } in
      OnRun-fail_if _ (ltb bounds.total_nodes (d.nodes + 1)) _ (
        OnRun-if _ (looks_at b'{' d.rest) _ _
          (λ e. ih.object_end depth d₁ (looks_at_pos b'{' d.rest e) (omega arith))
          λ _.
            OnRun-if _ (looks_at b'[' d.rest) _ _
              (λ e. ih.array_end depth d₁ (looks_at_pos b'[' d.rest e) (omega arith))
              λ _. parse_scalar-Ends d₁)

  parse_array-Ends :
      (f depth : ℕ) (d : Decoder)
      → Enough f
      → 0 < length d.rest
      → 3 * length d.rest ≤ suc f
      → Ends (length d.rest) (parse_array bounds (suc f) depth d)
  unfolding parse_array
  parse_array-Ends f depth d ih p h =
      let s = skip_ws (advance d.rest) in
      let shorter : length s < length d.rest = length-skip_advance_pos d.rest p in
      OnRun-fail_if _ (ltb bounds.depth depth) _ (
        OnRun-if _ (looks_at b']' s) _ _ (λ _. omega (arith, length-advance s))
          λ _.
            OnRun-bind _ (λ q. length q.1.rest < length s) (items_loop bounds f depth 0 (at s d)) _
              (ih.items depth 0 (at s d) (omega arith)) λ (vs, d') l. omega arith)

  items_loop-Ends :
      (f depth count : ℕ) (d : Decoder)
      → Enough f
      → 3 * length d.rest + 1 < suc f
      → Ends (length d.rest) (items_loop bounds (suc f) depth count d)
  unfolding items_loop
  items_loop-Ends f depth count d ih h = OnRun-fail_if _ (not (ltb count bounds.array_items)) _ (
      OnRun-bind _ (λ q. length q.1.rest < length d.rest) (parse_value bounds f (depth + 1) d) _
        (ih.value (depth + 1) d (omega arith))
        λ (v, d₁) l.
          let s = skip_ws d₁.rest in
          let m : length s ≤ length d₁.rest = length-skip_ws d₁.rest in
          let k : length (skip_ws (advance s)) ≤ length s = length-skip_advance s in
          let next = at (skip_ws (advance s)) d₁ in
          OnRun-if _ (looks_at b',' s) _ _
            (λ _.
              OnRun-bind _ (λ q. length q.1.rest < length next.rest)
                (items_loop bounds f depth (count + 1) next) _
                (ih.items depth (count + 1) next (omega arith)) λ (vs, d₂) n. omega arith)
            λ _. OnRun-if _ (looks_at b']' s) _ _ (λ _. omega (arith, length-advance s)) λ _. tt)

  parse_object-Ends :
      (f depth : ℕ) (d : Decoder)
      → Enough f
      → 0 < length d.rest
      → 3 * length d.rest ≤ suc f
      → Ends (length d.rest) (parse_object bounds (suc f) depth d)
  unfolding parse_object
  parse_object-Ends f depth d ih p h =
      let s = skip_ws (advance d.rest) in
      let shorter : length s < length d.rest = length-skip_advance_pos d.rest p in
      OnRun-fail_if _ (ltb bounds.depth depth) _ (
        OnRun-if _ (looks_at b'}' s) _ _ (λ _. omega (arith, length-advance s))
          λ _.
            OnRun-bind _ (λ q. length q.1.rest < length s) (members_loop bounds f depth [] (at s d))
              _ (ih.members depth [] (at s d) (omega arith)) λ (vs, d') l. omega arith)

  members_loop-Ends :
      (f depth : ℕ) (seen : List Bytes) (d : Decoder)
      → Enough f
      → 3 * length d.rest + 1 < suc f
      → Ends (length d.rest) (members_loop bounds (suc f) depth seen d)
  unfolding members_loop
  members_loop-Ends f depth seen d ih h =
      OnRun-fail_if _ (not (ltb (length seen) bounds.object_members)) _ (
        OnRun-lift _ (parse_string bounds.key_bytes d.rest) _ λ (name, s) e.
          let l₀ : length s < length d.rest =
            OnOk-ok (λ q. length q.1 < length d.rest) _
              (parse_string-Leaves bounds.key_bytes d.rest) e in
          let s₁ = skip_ws s in
          let start = at (skip_ws (advance s₁)) d in
          let l₁ : length start.rest ≤ length s =
            omega (arith, length-skip_ws s, length-skip_advance s₁) in
          OnRun-fail_if _ (not (looks_at b':' s₁)) _ (
            OnRun-bind _ (λ q. length q.1.rest < length start.rest)
              (parse_value bounds f (depth + 1) start) _ (ih.value (depth + 1) start (omega arith))
              λ (v, d₁) l.
                let s₂ = skip_ws d₁.rest in
                let m : length s₂ ≤ length d₁.rest = length-skip_ws d₁.rest in
                let k : length (skip_ws (advance s₂)) ≤ length s₂ = length-skip_advance s₂ in
                let next = at (skip_ws (advance s₂)) d₁ in
                OnRun-fail_if _ (any (equal name) seen) _ (
                  OnRun-if _ (looks_at b',' s₂) _ _
                    (λ _.
                      OnRun-bind _ (λ q. length q.1.rest < length next.rest)
                        (members_loop bounds f depth (name ∷ seen) next) _
                        (ih.members depth (name ∷ seen) next (omega arith))
                        λ (vs, d₂) n. omega arith)
                    λ _.
                      OnRun-if _ (looks_at b'}' s₂) _ _ (λ _. omega (arith, length-advance s₂))
                        λ _. tt)))

  enough : (f : ℕ) → Enough f
  unfolding items_loop members_loop
  enough zero = record {
    value = λ depth d h. absurd (omega arith);
    array_end = λ depth d p h. absurd (omega arith);
    items = λ depth count d h. absurd (omega arith);
    object_end = λ depth d p h. absurd (omega arith);
    members = λ depth seen d h. absurd (omega arith);
  }
  enough (suc f) = record {
    value = λ depth d h. parse_value-Ends f depth d (enough f) h;
    array_end = λ depth d p h. parse_array-Ends f depth d (enough f) p h;
    items = λ depth count d h. items_loop-Ends f depth count d (enough f) h;
    object_end = λ depth d p h. parse_object-Ends f depth d (enough f) p h;
    members = λ depth seen d h. members_loop-Ends f depth seen d (enough f) h;
  }

  -- Whatever the bounds and the bytes, the decoder's recursion ends within the fuel that the model
  -- gives it: three calls for each byte of the text, and one.
  pub decode_run-terminates : (text : Bytes) → decode_run bounds text ≢ out_of_fuel
  unfolding decode_run
  decode_run-terminates text =
      let start = skip_ws text in
      let l : length start ≤ length text = length-skip_ws text in
      let d : Decoder = record { rest = start; nodes = 0 } in
      OnRun-out_of_fuel (λ _. Unit) _
        (OnRun-fail_if _ (ltb bounds.json_bytes (length text)) _ (
          OnRun-bind _ (λ q. length q.1.rest < length start)
            (parse_value bounds (3 * length text + 1) 1 d) _
            ((enough (3 * length text + 1)).value 1 d (omega arith))
            λ (v, d') m. OnRun-fail_if _ (not (is_empty (skip_ws d'.rest))) _ tt))
