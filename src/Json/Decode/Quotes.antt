-- ===== src/Json/Decode/Quotes.antt =====
-- The opening quote of a member's name in `parse_object` of sdks/rust/src/json.rs.
use bounded_authority_protoc.Base.{
  ℕ, zero, suc, ◌+◌, ◌*◌, length, ◌≡◌, refl, false, List, [], ◌∷◌, ◌==◌, Bytes,
}
use bounded_authority_protoc.Bounds.{Bounds}
use bounded_authority_protoc.Json.Value.{Float64}
use bounded_authority_protoc.Json.Text.{is_ws, skip_ws, parse_string}
use bounded_authority_protoc.Json.Decode.{
  parse_value, parse_object, members_loop, decode_run, json_decode,
}

module _ ⦃fl : Float64⦄ (bounds : Bounds) where
  members_loop-quote :
      (fuel depth : ℕ) (seen : List Bytes) (c : ℕ) (s : Bytes) (n : ℕ)
      → members_loop bounds fuel depth seen (record { rest = c ∷ s; nodes = n })
        ≡ members_loop bounds fuel depth seen (record { rest = b'"' ∷ s; nodes = n })
  unfolding members_loop parse_string
  members_loop-quote zero depth seen c s n = refl
  members_loop-quote (suc fuel) depth seen c s n = refl

  parse_object-quote :
      (fuel depth : ℕ) (c : ℕ) (s : Bytes) (n : ℕ)
      → is_ws c ≡ false
      → (c == b'}') ≡ false
      → parse_object bounds fuel depth (record { rest = b'{' ∷ c ∷ s; nodes = n })
        ≡ parse_object bounds fuel depth (record { rest = b'{' ∷ b'"' ∷ s; nodes = n })
  unfolding parse_object skip_ws
  parse_object-quote zero depth c s n h k = refl
  parse_object-quote (suc fuel) depth c s n h k =
      rw (h, k, members_loop-quote fuel depth [] c s n, skip_ws) refl

  parse_value-quote :
      (fuel depth : ℕ) (c : ℕ) (s : Bytes)
      → is_ws c ≡ false
      → (c == b'}') ≡ false
      → parse_value bounds fuel depth (record { rest = b'{' ∷ c ∷ s; nodes = 0 })
        ≡ parse_value bounds fuel depth (record { rest = b'{' ∷ b'"' ∷ s; nodes = 0 })
  unfolding parse_value
  parse_value-quote zero depth c s h k = refl
  parse_value-quote (suc fuel) depth c s h k =
      rw (parse_object-quote fuel depth c s 1 h k, parse_value) refl

  -- A text that begins with `{` and then a byte other than whitespace and `}` is decoded as if that
  -- byte were a quote.
  pub json_decode-quote :
      (c : ℕ) (s : Bytes)
      → is_ws c ≡ false
      → (c == b'}') ≡ false
      → json_decode bounds (b'{' ∷ c ∷ s) ≡ json_decode bounds (b'{' ∷ b'"' ∷ s)
  unfolding json_decode decode_run parse_value skip_ws
  json_decode-quote c s h k = rw (parse_value-quote (3 * length (b'{' ∷ c ∷ s) + 1) 1 c s h k) refl
