-- ===== src/Json/Text.antt =====
-- Whitespace, literals and strings of the decoder of sdks/rust/src/json.rs. The decoder's `input` and
-- `pos` are the bytes from `pos` on; past the end there are none, and `peek` answers `None`.
pub mod Consumed
pub mod Rounds
use bounded_authority_protoc.Base.{
  ℕ, zero, suc, ◌+◌, ◌-◌, ◌*◌, Bool, true, false, not, ◌&&◌, ◌||◌, Option, none, some, List, [],
  ◌∷◌, ◌++◌, ltb, ◌==◌, within, if◌then◌else◌, length, Bytes, Result, ok, invalid, ◌>>=◌, ◌>>◌,
  refuse, ok_or,
}
use bounded_authority_protoc.Utf8.{push_utf8, from_utf8}

abbrev pub peek : Bytes → Option ℕ
peek [] = none
peek (c ∷ rest) = some c

-- `self.peek() == Some(c)`
abbrev pub looks_at : ℕ → Bytes → Bool
looks_at c [] = false
looks_at c (x ∷ rest) = x == c

-- `self.pos += 1`
abbrev pub advance : Bytes → Bytes
advance [] = []
advance (c ∷ rest) = rest

abbrev pub is_ws : ℕ → Bool
is_ws c = c == b' ' || c == b'\t' || c == b'\n' || c == b'\r'

unfoldable pub skip_ws : Bytes → Bytes
skip_ws [] = []
skip_ws (c ∷ rest) = if is_ws c then skip_ws rest else c ∷ rest

-- `self.input[self.pos..].starts_with(lit)`, and the bytes behind it.
unfoldable pub expect_literal : Bytes → Bytes → Result Bytes
expect_literal [] rest = ok rest
expect_literal (l ∷ lit) [] = invalid
expect_literal (l ∷ lit) (c ∷ rest) = if l == c then expect_literal lit rest else invalid

unfoldable pub hex_digit : ℕ → Option ℕ
hex_digit c =
    if within b'0' b'9' c
    then some (c - b'0')
    else if within b'a' b'f' c
    then some (c - b'a' + 10)
    else if within b'A' b'F' c
    then some (c - b'A' + 10)
    else none

-- Four rounds of `v = v * 16 + d`.
unfoldable pub parse_hex4 : Bytes → Result (ℕ × Bytes)
unfolding hex_digit
parse_hex4 (c₀ ∷ c₁ ∷ c₂ ∷ c₃ ∷ rest) = do
  d₀ ← ok_or (hex_digit c₀)
  d₁ ← ok_or (hex_digit c₁)
  d₂ ← ok_or (hex_digit c₂)
  d₃ ← ok_or (hex_digit c₃)
  ok (((d₀ * 16 + d₁) * 16 + d₂) * 16 + d₃, rest)
parse_hex4 _ = invalid

-- What is appended for `\uXXXX`, and the rest: a high surrogate wants a low one behind it.
unfoldable pub encode_codepoint : ℕ → Bytes → Result (Bytes × Bytes)
unfolding parse_hex4 push_utf8
encode_codepoint cp rest =
    if within 0xD800 0xDBFF cp
    then (do
      refuse (not (looks_at b'\\' rest))
      let after = advance rest
      refuse (not (looks_at b'u' after))
      (lo, rest') ← parse_hex4 (advance after)
      refuse (not (within 0xDC00 0xDFFF lo))
      ok (push_utf8 (0x10000 + (cp - 0xD800) * 1024 + (lo - 0xDC00)), rest'))
    else if within 0xDC00 0xDFFF cp
    then invalid
    else ok (push_utf8 cp, rest)

-- What is appended for the escape behind a backslash, and the rest.
unfoldable pub parse_escape : Bytes → Result (Bytes × Bytes)
unfolding encode_codepoint
parse_escape [] = invalid
parse_escape (esc ∷ rest) =
    if esc == b'"'
    then ok (b'"' ∷ [], rest)
    else if esc == b'\\'
    then ok (b'\\' ∷ [], rest)
    else if esc == b'/'
    then ok (b'/' ∷ [], rest)
    else if esc == b'b'
    then ok (0x08 ∷ [], rest)
    else if esc == b'f'
    then ok (0x0c ∷ [], rest)
    else if esc == b'n'
    then ok (b'\n' ∷ [], rest)
    else if esc == b'r'
    then ok (b'\r' ∷ [], rest)
    else if esc == b't'
    then ok (b'\t' ∷ [], rest)
    else if esc == b'u'
    then (do (cp, rest') ← parse_hex4 rest; encode_codepoint cp rest')
    else invalid

-- One round of the loop in `parse_string` at a byte other than the quote: what it appends, and the rest.
unfoldable pub string_step : ℕ → Bytes → Result (Bytes × Bytes)
unfolding parse_escape
string_step c rest =
    if c == b'\\' then parse_escape rest else if ltb c 0x20 then invalid else ok (c ∷ [], rest)

-- The loop. Each round takes a byte at least, so the length of what is left is fuel enough.
unfoldable pub string_loop : ℕ → Bytes → Bytes → Result (Bytes × Bytes)
unfolding string_step
string_loop fuel [] buf = invalid
string_loop zero (c ∷ rest) buf = invalid
string_loop (suc fuel) (c ∷ rest) buf = elim (c == b'"') [
  | true ↦ ok (buf, rest)
  | false ↦ do (bytes, rest') ← string_step c rest; string_loop fuel rest' (buf ++ bytes)
]

-- The byte at the cursor is taken for the opening quote, whatever it is.
unfoldable pub parse_string : ℕ → Bytes → Result (Bytes × Bytes)
unfolding string_loop from_utf8
parse_string byte_limit input = do
  let start = advance input
  (buf, rest) ← string_loop (length start) start []
  refuse (ltb byte_limit (length buf))
  s ← from_utf8 buf
  ok (s, rest)
