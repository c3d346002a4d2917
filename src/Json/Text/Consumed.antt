-- ===== src/Json/Text/Consumed.antt =====
-- How much of the input the decoder's scanners take.
use bounded_authority_protoc.Base.{
  ℕ, zero, suc, ◌+◌, ◌≤◌, ◌<◌, ◌≡◌, true, not, [], ◌∷◌, ◌++◌, arith, ltb, ◌==◌, within,
  if◌then◌else◌, length, Bytes, Result, ok, ◌>>=◌, refuse, ok_or, OnOk, OnOk-ok, OnOk-bind, OnOk-if,
  OnOk-check, OnOk-all, Bool-cases, inl, inr,
}
use bounded_authority_protoc.Utf8.{from_utf8}
use bounded_authority_protoc.Json.Text.{
  looks_at, advance, skip_ws, expect_literal, hex_digit, parse_hex4, encode_codepoint, parse_escape,
  string_step, string_loop, parse_string,
}

-- What a scanner leaves is at most, or less than, what it was given.
abbrev pub Leaves {ℓ} : {A : Type ℓ} → ℕ → Result (A × Bytes) → Type 0
Leaves n r = OnOk (λ p. length p.1 ≤ n) r

pub length-advance : (s : Bytes) → length (advance s) ≤ length s
length-advance [] = omega arith
length-advance (c ∷ s) = omega arith

pub length-advance_pos : (s : Bytes) → 0 < length s → length (advance s) < length s
length-advance_pos [] h = h
length-advance_pos (c ∷ s) h = omega arith

pub looks_at_pos : (c : ℕ) (s : Bytes) → looks_at c s ≡ true → 0 < length s
looks_at_pos c [] h = ground arith
looks_at_pos c (x ∷ s) h = omega arith

pub length-skip_ws : (s : Bytes) → length (skip_ws s) ≤ length s
unfolding skip_ws
length-skip_ws [] = omega arith
length-skip_ws (c ∷ s) = ground (arith, length-skip_ws s)

pub expect_literal-Leaves :
    (lit s : Bytes) → OnOk (λ r. length r + length lit ≤ length s) (expect_literal lit s)
unfolding expect_literal
expect_literal-Leaves [] s = omega arith
expect_literal-Leaves (l ∷ lit) [] = tt
expect_literal-Leaves (l ∷ lit) (c ∷ s) = ground (arith, expect_literal-Leaves lit s)

parse_hex4-Leaves : (s : Bytes) → Leaves (length s) (parse_hex4 s)
unfolding parse_hex4
parse_hex4-Leaves (c₀ ∷ c₁ ∷ c₂ ∷ c₃ ∷ rest) = OnOk-bind _ (ok_or (hex_digit c₀)) _ λ d₀ _.
    OnOk-bind _ (ok_or (hex_digit c₁)) _ λ d₁ _.
      OnOk-bind _ (ok_or (hex_digit c₂)) _
        λ d₂ _. OnOk-bind _ (ok_or (hex_digit c₃)) _ λ d₃ _. omega arith
parse_hex4-Leaves _ = tt

encode_codepoint-Leaves : (cp : ℕ) (s : Bytes) → Leaves (length s) (encode_codepoint cp s)
unfolding encode_codepoint
encode_codepoint-Leaves cp s =
    OnOk-if _ (within 0xD800 0xDBFF cp) _ _
      (OnOk-check _ (refuse (not (looks_at b'\\' s))) _ λ _.
        OnOk-check _ (refuse (not (looks_at b'u' (advance s)))) _ λ _.
          OnOk-bind _ (parse_hex4 (advance (advance s))) _ λ (lo, rest') e.
            OnOk-check _ (refuse (not (within 0xDC00 0xDFFF lo))) _ λ _.
              let left = OnOk-ok _ _ (parse_hex4-Leaves (advance (advance s))) e in
              omega (arith, length-advance s, length-advance (advance s)))
      (OnOk-if _ (within 0xDC00 0xDFFF cp) _ _ tt (omega arith))

parse_escape-Leaves : (s : Bytes) → Leaves (length s) (parse_escape s)
unfolding parse_escape
parse_escape-Leaves [] = tt
parse_escape-Leaves (esc ∷ rest) = simple b'"' _ _ (
    simple b'\\' _ _ (
      simple b'/' _ _ (
        simple b'b' _ _ (
          simple b'f' _ _ (
            simple b'n' _ _
              (simple b'r' _ _ (simple b't' _ _ (OnOk-if _ (esc == b'u') _ _ unicode tt))))))))
  where
    simple :
        (c x : ℕ) (r : Result (Bytes × Bytes))
        → OnOk (λ p. length p.1 ≤ suc (length rest)) r
        → OnOk (λ p. length p.1 ≤ suc (length rest)) (if esc == c then ok (x ∷ [], rest) else r)
    simple c x r h = OnOk-if _ (esc == c) _ r (omega arith) h

    unicode :
        OnOk
          (λ p. length p.1 ≤ suc (length rest))
          (parse_hex4 rest >>= λ (cp, rest'). encode_codepoint cp rest')
    unicode = OnOk-bind _ (parse_hex4 rest) _ λ (cp, rest') e.
        let left = OnOk-ok _ _ (parse_hex4-Leaves rest) e in
        OnOk-all (λ p. length p.1 ≤ suc (length rest)) (encode_codepoint cp rest')
          λ p f. let left' = OnOk-ok _ _ (encode_codepoint-Leaves cp rest') f in omega arith

pub string_step-Leaves : (c : ℕ) (s : Bytes) → Leaves (length s) (string_step c s)
unfolding string_step
string_step-Leaves c s = ground (arith, parse_escape-Leaves s)

-- The loop leaves less than it was given.
string_loop-Leaves :
    (fuel : ℕ) (s buf : Bytes) → OnOk (λ p. length p.1 < length s) (string_loop fuel s buf)
unfolding string_loop
string_loop-Leaves fuel [] buf = tt
string_loop-Leaves zero (c ∷ s) buf = tt
string_loop-Leaves (suc fuel) (c ∷ s) buf = elim (Bool-cases (c == b'"')) [
  | inl e ↦ rw (e, OnOk) (omega arith)
  | inr e ↦
      rw (e, OnOk)
        (OnOk-bind (λ p. length p.1 < suc (length s)) (string_step c s) _
          λ (bytes, rest') f.
            let left = OnOk-ok _ _ (string_step-Leaves c s) f in
            OnOk-all (λ p. length p.1 < suc (length s)) (string_loop fuel rest' (buf ++ bytes))
              λ p g.
                let left' =
                  OnOk-ok (λ p. length p.1 < length rest') _
                    (string_loop-Leaves fuel rest' (buf ++ bytes)) g in
                omega arith)
]

pub parse_string-Leaves :
    (limit : ℕ) (s : Bytes) → OnOk (λ p. length p.1 < length s) (parse_string limit s)
unfolding parse_string
parse_string-Leaves limit s =
    let start = advance s in
    OnOk-bind _ (string_loop (length start) start []) _ λ (buf, rest) e.
      OnOk-check _ (refuse (ltb limit (length buf))) _ λ _. OnOk-bind _ (from_utf8 buf) _ λ _ _.
        let left = OnOk-ok _ _ (string_loop-Leaves (length start) start []) e in
        omega (arith, length-advance s)
