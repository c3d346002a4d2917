-- ===== src/Json/Number.antt =====
-- Numbers of the decoder of sdks/rust/src/json.rs: the lexeme, its exact decimal magnitude, its value.
pub mod Consumed
use bounded_authority_protoc.Base.{
  ℕ, zero, suc, ◌+◌, ◌-◌, ◌*◌, ◌^◌, Bool, true, false, not, ◌&&◌, ◌||◌, Option, none, some, List,
  [], ◌∷◌, ◌++◌, ltb, leb, ◌==◌, within, if◌then◌else◌, length, take, replicate, any, Bytes,
  is_ascii_digit, Result, ok, invalid, ◌>>=◌, ◌>>◌, refuse, ok_or,
}
use bounded_authority_protoc.Base.Int.{ℤ, pos, negsuc, sub_ℕ, ◌-ℤ◌, is_i64}
use bounded_authority_protoc.Bounds.{Bounds}
use bounded_authority_protoc.Jcs.Text.{decimal}
use bounded_authority_protoc.Json.Value.{Float64, Json, int, float}
use bounded_authority_protoc.Json.Text.{looks_at, advance}

-- `while matches!(self.peek(), Some(b'0'..=b'9'))`, and the digits that it passes.
unfoldable pub skip_digits : Bytes → Bytes
skip_digits [] = []
skip_digits (c ∷ rest) = if is_ascii_digit c then skip_digits rest else c ∷ rest

unfoldable pub digits_of : Bytes → Bytes
digits_of [] = []
digits_of (c ∷ rest) = if is_ascii_digit c then c ∷ digits_of rest else []

abbrev pub at_digit : Bytes → Bool
at_digit [] = false
at_digit (c ∷ rest) = is_ascii_digit c

abbrev pub skip_sign : Bytes → Bytes
skip_sign s = if looks_at b'-' s then advance s else s

unfoldable pub scan_integer : Bytes → Result Bytes
unfolding skip_digits
scan_integer s =
    if looks_at b'0' s then ok (advance s) else if at_digit s then ok (skip_digits s) else invalid

unfoldable pub scan_fraction : Bytes → Result Bytes
unfolding skip_digits
scan_fraction s =
    if looks_at b'.' s
    then (do refuse (not (at_digit (advance s))); ok (skip_digits (advance s)))
    else ok s

abbrev pub at_exponent : Bytes → Bool
at_exponent s = looks_at b'e' s || looks_at b'E' s

-- Past a sign of the exponent.
abbrev pub skip_exponent_sign : Bytes → Bytes
skip_exponent_sign s = if looks_at b'+' s || looks_at b'-' s then advance s else s

unfoldable pub scan_exponent : Bytes → Result Bytes
unfolding skip_digits
scan_exponent s =
    if at_exponent s
    then (do
      let after = skip_exponent_sign (advance s)
      refuse (not (at_digit after))
      ok (skip_digits after))
    else ok s

-- What follows the lexeme.
unfoldable pub scan_number_lexeme : Bytes → Result Bytes
unfolding scan_integer scan_fraction scan_exponent
scan_number_lexeme s = do s₁ ← scan_integer (skip_sign s); s₂ ← scan_fraction s₁; scan_exponent s₂

-- The number that digits write, first digit first.
unfoldable pub digits_value : ℕ → Bytes → ℕ
digits_value acc [] = acc
digits_value acc (c ∷ rest) = digits_value (acc * 10 + (c - b'0')) rest

pub record Decomposed : Type 0 where
  pub digits : Bytes
  pub frac_count : ℕ
  pub exp : ℤ

-- The fraction's digits, and what follows them.
abbrev pub fraction_digits : Bytes → Bytes
fraction_digits s = if looks_at b'.' s then digits_of (advance s) else []

abbrev pub after_fraction : Bytes → Bytes
after_fraction s = if looks_at b'.' s then skip_digits (advance s) else s

-- `ev`, saturated at 1000. With more than three digits the value summed is not used, so that the
-- source's `i64` wraps (or, with overflow checks, panics) there changes no result.
unfoldable pub exponent_value : Bytes → ℕ
unfolding digits_value
exponent_value ds =
    if ltb 3 (length ds) || ltb 999 (digits_value 0 ds) then 1000 else digits_value 0 ds

-- `esign * ev`
abbrev pub signed : Bool → ℕ → ℤ
signed true n = sub_ℕ 0 n
signed false n = pos n

unfoldable pub exponent_of : Bytes → ℤ
unfolding exponent_value digits_of
exponent_of s =
    if at_exponent s
    then signed (looks_at b'-' (advance s))
        (exponent_value (digits_of (skip_exponent_sign (advance s))))
    else pos 0

unfoldable pub decompose_number : Bytes → Decomposed
unfolding exponent_of digits_of skip_digits
decompose_number lexeme =
    let s = skip_sign lexeme in
    let after = skip_digits s in
    let frac = fraction_digits after in
    record {
      digits = digits_of s ++ frac;
      frac_count = length frac;
      exp = exponent_of (after_fraction after);
    }

unfoldable pub trim_zeros : Bytes → Bytes
trim_zeros [] = []
trim_zeros (c ∷ rest) = if c == b'0' then trim_zeros rest else c ∷ rest

abbrev or_zero : Bytes → Bytes
or_zero [] = b'0' ∷ []
or_zero (c ∷ rest) = c ∷ rest

unfoldable pub strip_leading_zeros : Bytes → Bytes
unfolding trim_zeros
strip_leading_zeros s = or_zero (trim_zeros s)

-- `<=` on `&str`.
unfoldable pub le_str : Bytes → Bytes → Bool
le_str [] t = true
le_str (x ∷ s) [] = false
le_str (x ∷ s) (y ∷ t) = if ltb x y then true else if ltb y x then false else le_str s t

-- `magnitude_ok` with `scale >= 0`, and with `scale = -k`, past the test for zero.
unfoldable pub magnitude_up : Bytes → ℕ → Bytes → Bool
unfolding le_str
magnitude_up digits scale bound_str =
    let eff_len = length digits + scale in
    if ltb (length bound_str) eff_len
    then false
    else if ltb eff_len (length bound_str)
    then true
    else le_str (digits ++ replicate scale b'0') bound_str

unfoldable pub magnitude_down : Bytes → ℕ → Bytes → Bool
unfolding le_str
magnitude_down digits k bound_str =
    let thresh_len = length bound_str + k in
    if ltb thresh_len (length digits)
    then false
    else if ltb (length digits) thresh_len
    then true
    else le_str digits (bound_str ++ replicate k b'0')

abbrev is_zero : Bytes → Bool
is_zero (c ∷ []) = c == b'0'
is_zero _ = false

unfoldable pub magnitude_ok : Bytes → ℤ → ℕ → Bool
unfolding magnitude_up magnitude_down decimal
magnitude_ok digits (pos scale) bound =
    if is_zero digits then true else magnitude_up digits scale (decimal bound)
magnitude_ok digits (negsuc n) bound =
    if is_zero digits then true else magnitude_down digits (suc n) (decimal bound)

abbrev is_float_byte : ℕ → Bool
is_float_byte c = c == b'.' || c == b'e' || c == b'E'

-- `s.parse::<i64>()` of an integer lexeme.
unfoldable pub parse_i64 : Bytes → Result ℤ
unfolding digits_value
parse_i64 lexeme =
    let n = signed (looks_at b'-' lexeme) (digits_value 0 (skip_sign lexeme)) in
    if is_i64 n then ok n else invalid

module _ ⦃fl : Float64⦄ (bounds : Bounds) where
  unfoldable pub lexeme_value : Bytes → Result Json
  unfolding decompose_number strip_leading_zeros magnitude_ok parse_i64 ◌-ℤ◌
  lexeme_value lexeme = do
    let is_float = any is_float_byte lexeme
    refuse (ltb bounds.number_lexeme_bytes (length lexeme))
    let d = decompose_number lexeme
    let scale = d.exp -ℤ pos d.frac_count
    let bound = if is_float then bounds.float_magnitude else bounds.integer_magnitude
    refuse (not (magnitude_ok (strip_leading_zeros d.digits) scale bound))
    if is_float
        then (do f ← ok_or (fl.parse lexeme); refuse (not (fl.is_finite f)); ok (float f))
        else (do n ← parse_i64 lexeme; ok (int n))

  -- The value, and what follows its lexeme.
  unfoldable pub parse_number : Bytes → Result (Json × Bytes)
  unfolding scan_number_lexeme lexeme_value
  parse_number input = do
    rest ← scan_number_lexeme input
    v ← lexeme_value (take (length input - length rest) input)
    ok (v, rest)
