-- ===== src/Json/Decode.antt =====
-- `json_decode` and the structural part of the decoder of sdks/rust/src/json.rs.
pub mod Fuel
pub mod Quotes
use bounded_authority_protoc.Base.{
  ℕ, zero, suc, ◌+◌, ◌*◌, Bool, true, false, not, ◌||◌, List, [], ◌∷◌, ltb, ◌==◌, if◌then◌else◌,
  length, any, Bytes, codes, equal, is_ascii_digit, Result, ok, invalid,
}
use bounded_authority_protoc.Bounds.{Bounds}
use bounded_authority_protoc.Json.Value.{
  Float64, JsonValue, JsonItems, JsonMembers, Json, null, bool, string, array, object, no_items,
  item, no_members, member,
}
use bounded_authority_protoc.Json.Text.{looks_at, advance, skip_ws, expect_literal, parse_string}
use bounded_authority_protoc.Json.Number.{at_digit, parse_number}

-- `Result<T>`, with a third outcome that the source does not have: the model's fuel ran out.
pub data Run {ℓ} (A : Type ℓ) : Type ℓ where
  done : A → Run A
  fail out_of_fuel : Run A

infixl 5 ◌>>=◌ ◌>>◌
abbrev pub ◌>>=◌ {ℓ κ} : {A : Type ℓ} {B : Type κ} → Run A → (A → Run B) → Run B
fail >>= next = fail
out_of_fuel >>= next = out_of_fuel
done value >>= next = next value

abbrev pub ◌>>◌ {ℓ} : {B : Type ℓ} → Run (Unit {0}) → Run B → Run B
check >> next = check >>= λ _. next

abbrev pub fail_if : Bool → Run (Unit {0})
fail_if true = fail
fail_if false = done tt

abbrev pub lift {ℓ} : {A : Type ℓ} → Result A → Run A
lift (ok a) = done a
lift invalid = fail

-- `input[pos..]` and `nodes`.
pub record Decoder : Type 0 where
  pub rest : Bytes
  pub nodes : ℕ

abbrev pub at : Bytes → Decoder → Decoder
at s d = record d { rest = s }

abbrev pub is_empty : Bytes → Bool
is_empty [] = true
is_empty (_ ∷ _) = false

abbrev pub result {ℓ} : {A : Type ℓ} → Run A → Result A
result (done v) = ok v
result fail = invalid
result out_of_fuel = invalid

module _ ⦃fl : Float64⦄ (bounds : Bounds) where
  abbrev pub literal : Bytes → Json → Decoder → Run (Json × Decoder)
  literal lit v d = do s ← lift (expect_literal lit d.rest); done (v, at s d)

  -- The arms of `parse_value` that call no other value.
  unfoldable pub parse_scalar : Decoder → Run (Json × Decoder)
  unfolding expect_literal parse_string parse_number
  parse_scalar d =
      if looks_at b'"' d.rest
      then (do (s, r) ← lift (parse_string bounds.string_bytes d.rest); done (string s, at r d))
      else if looks_at b't' d.rest
      then literal (codes "true") (bool true) d
      else if looks_at b'f' d.rest
      then literal (codes "false") (bool false) d
      else if looks_at b'n' d.rest
      then literal (codes "null") null d
      else if looks_at b'-' d.rest || at_digit d.rest
      then (do (v, r) ← lift (parse_number bounds d.rest); done (v, at r d))
      else fail

  unfoldable mutual
    unfolding parse_scalar skip_ws parse_string

    pub parse_value : ℕ → ℕ → Decoder → Run (Json × Decoder)
    parse_value zero depth d = out_of_fuel
    parse_value (suc fuel) depth d =
        let d₁ = record d { nodes = d.nodes + 1 } in
        let as_object = parse_object fuel depth d₁ in
        let as_array = parse_array fuel depth d₁ in
        do
          fail_if (ltb bounds.total_nodes d₁.nodes)
          if looks_at b'{' d₁.rest
              then as_object
              else if looks_at b'[' d₁.rest
              then as_array
              else parse_scalar d₁

    pub parse_array : ℕ → ℕ → Decoder → Run (Json × Decoder)
    parse_array zero depth d = out_of_fuel
    parse_array (suc fuel) depth d =
        let s = skip_ws (advance d.rest) in
        let loop = (do (vs, d') ← items_loop fuel depth 0 (at s d); done (array vs, d')) in
        do
          fail_if (ltb bounds.depth depth)
          if looks_at b']' s then done (array no_items, at (advance s) d) else loop

    -- The loop over the items; `count` is `items.len()`.
    pub items_loop : ℕ → ℕ → ℕ → Decoder → Run (JsonItems fl.Carrier × Decoder)
    items_loop zero depth count d = out_of_fuel
    items_loop (suc fuel) depth count d = do
      fail_if (not (ltb count bounds.array_items))
      (v, d₁) ← parse_value fuel (depth + 1) d
      let s = skip_ws d₁.rest
      let more = do
        (vs, d₂) ← items_loop fuel depth (count + 1) (at (skip_ws (advance s)) d₁)
        done (item v vs, d₂)
      if looks_at b',' s
          then more
          else if looks_at b']' s
          then done (item v no_items, at (advance s) d₁)
          else fail

    pub parse_object : ℕ → ℕ → Decoder → Run (Json × Decoder)
    parse_object zero depth d = out_of_fuel
    parse_object (suc fuel) depth d =
        let s = skip_ws (advance d.rest) in
        let loop = (do (ms, d') ← members_loop fuel depth [] (at s d); done (object ms, d')) in
        do
          fail_if (ltb bounds.depth depth)
          if looks_at b'}' s then done (object no_members, at (advance s) d) else loop

    -- The loop over the members; `seen` has the names read so far.
    pub members_loop : ℕ → ℕ → List Bytes → Decoder → Run (JsonMembers fl.Carrier × Decoder)
    members_loop zero depth seen d = out_of_fuel
    members_loop (suc fuel) depth seen d = do
      fail_if (not (ltb (length seen) bounds.object_members))
      (name, s) ← lift (parse_string bounds.key_bytes d.rest)
      let s₁ = skip_ws s
      fail_if (not (looks_at b':' s₁))
      (v, d₁) ← parse_value fuel (depth + 1) (at (skip_ws (advance s₁)) d)
      fail_if (any (equal name) seen)
      let s₂ = skip_ws d₁.rest
      let more = do
        (ms, d₂) ← members_loop fuel depth (name ∷ seen) (at (skip_ws (advance s₂)) d₁)
        done (member name v ms, d₂)
      if looks_at b',' s₂
          then more
          else if looks_at b'}' s₂
          then done (member name v no_members, at (advance s₂) d₁)
          else fail

  -- Three calls are made for a byte at most.
  unfoldable pub decode_run : Bytes → Run Json
  unfolding parse_value
  decode_run text = do
    fail_if (ltb bounds.json_bytes (length text))
    let start = skip_ws text
    (v, d) ← parse_value (3 * length text + 1) 1 (record { rest = start; nodes = 0 })
    fail_if (not (is_empty (skip_ws d.rest)))
    done v

  unfoldable pub json_decode : Bytes → Result Json
  unfolding decode_run equal
  json_decode text = result (decode_run text)
