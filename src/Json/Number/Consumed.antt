-- ===== src/Json/Number/Consumed.antt =====
-- How much of the input the scanner of numbers of sdks/rust/src/json.rs takes.
use bounded_authority_protoc.Base.{
  ◌-◌, ◌≤◌, ◌<◌, not, [], ◌∷◌, arith, length, take, Bytes, refuse, OnOk, OnOk-ok, OnOk-bind,
  OnOk-if, OnOk-check, OnOk-all,
}
use bounded_authority_protoc.Bounds.{Bounds}
use bounded_authority_protoc.Json.Value.{Float64}
use bounded_authority_protoc.Json.Text.{advance}
use bounded_authority_protoc.Json.Text.Consumed.{length-advance}
use bounded_authority_protoc.Json.Number.{
  skip_digits, at_digit, skip_sign, scan_integer, scan_fraction, at_exponent, skip_exponent_sign,
  scan_exponent, scan_number_lexeme, lexeme_value, parse_number,
}

length-skip_digits : (s : Bytes) → length (skip_digits s) ≤ length s
unfolding skip_digits
length-skip_digits [] = omega arith
length-skip_digits (c ∷ s) = ground (arith, length-skip_digits s)

length-skip_sign : (s : Bytes) → length (skip_sign s) ≤ length s
length-skip_sign s = ground (arith, length-advance s)

length-skip_exponent_sign : (s : Bytes) → length (skip_exponent_sign s) ≤ length s
length-skip_exponent_sign s = ground (arith, length-advance s)

scan_integer-Leaves : (s : Bytes) → OnOk (λ r. length r < length s) (scan_integer s)
unfolding scan_integer skip_digits
scan_integer-Leaves [] = tt
scan_integer-Leaves (c ∷ s) = ground (arith, length-skip_digits s)

scan_fraction-Leaves : (s : Bytes) → OnOk (λ r. length r ≤ length s) (scan_fraction s)
unfolding scan_fraction
scan_fraction-Leaves s = ground (arith, length-skip_digits (advance s), length-advance s)

scan_exponent-Leaves : (s : Bytes) → OnOk (λ r. length r ≤ length s) (scan_exponent s)
unfolding scan_exponent
scan_exponent-Leaves s =
    let after = skip_exponent_sign (advance s) in
    OnOk-if _ (at_exponent s) _ _
      (OnOk-check _ (refuse (not (at_digit after))) _ λ _.
        omega (
          arith,
          length-skip_digits after,
          length-skip_exponent_sign (advance s),
          length-advance s,
        ))
      (omega arith)

pub scan_number_lexeme-Leaves : (s : Bytes) → OnOk (λ r. length r < length s) (scan_number_lexeme s)
unfolding scan_number_lexeme
scan_number_lexeme-Leaves s = OnOk-bind _ (scan_integer (skip_sign s)) _ λ s₁ e.
    OnOk-bind _ (scan_fraction s₁) _ λ s₂ f.
      OnOk-all (λ r. length r < length s) (scan_exponent s₂)
        λ s₃ g.
          let a : length s₁ < length (skip_sign s) =
            OnOk-ok _ _ (scan_integer-Leaves (skip_sign s)) e in
          let b : length s₂ ≤ length s₁ = OnOk-ok _ _ (scan_fraction-Leaves s₁) f in
          let c : length s₃ ≤ length s₂ = OnOk-ok _ _ (scan_exponent-Leaves s₂) g in
          omega (arith, length-skip_sign s)

pub parse_number-Leaves :
    ⦃fl : Float64⦄
    → (bounds : Bounds) (s : Bytes) → OnOk (λ p. length p.1 < length s) (parse_number bounds s)
unfolding parse_number
parse_number-Leaves bounds s = OnOk-bind _ (scan_number_lexeme s) _ λ rest e.
    OnOk-bind _ (lexeme_value bounds (take (length s - length rest) s)) _
      λ v _. OnOk-ok _ _ (scan_number_lexeme-Leaves s) e
