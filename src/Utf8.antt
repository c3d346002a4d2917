-- ===== src/Utf8.antt =====
-- UTF-8 and UTF-16 as the crate uses them: `push_utf8` of sdks/rust/src/json.rs, and the language's
-- `str::chars`, `String::from_utf8` and `str::encode_utf16`. `0xC0 | x` is `192 + x` where `x` has
-- none of the upper bits, and `x & 0x3F` is `x % 64`.
pub mod Laws
use bounded_authority_protoc.Base.{
  ℕ, zero, suc, ◌+◌, ◌-◌, ◌*◌, ◌/◌, ◌%◌, ◌≡◌, Bool, not, ◌&&◌, Option, none, some, List, [], ◌∷◌,
  ◌++◌, leb, within, if◌then◌else◌, length, Bytes, Result, ok, invalid,
}

-- A Unicode scalar value: no surrogate, and at most 0x10FFFF.
abbrev pub is_scalar : ℕ → Bool
is_scalar c = leb c 0x10FFFF && not (within 0xD800 0xDFFF c)

-- What `push_utf8` appends, and `char::encode_utf8`.
unfoldable pub push_utf8 : ℕ → Bytes
push_utf8 cp =
    if leb cp 0x7F
    then cp ∷ []
    else if leb cp 0x7FF
    then (192 + cp / 64) ∷ (128 + cp % 64) ∷ []
    else if leb cp 0xFFFF
    then (224 + cp / 4096) ∷ (128 + cp / 64 % 64) ∷ (128 + cp % 64) ∷ []
    else (240 + cp / 262144) ∷ (128 + cp / 4096 % 64) ∷ (128 + cp / 64 % 64) ∷ (128 + cp % 64) ∷ []

abbrev pub is_continuation : ℕ → Bool
is_continuation = within 0x80 0xBF

-- A character of more than one byte, in the shortest form and a scalar value.
abbrev pub checked : ℕ → ℕ → Bytes → Option (ℕ × Bytes)
checked least c rest = if leb least c && is_scalar c then some (c, rest) else none

unfoldable pub two_bytes : ℕ → Bytes → Option (ℕ × Bytes)
two_bytes a (b ∷ rest) =
    if is_continuation b then checked 0x80 ((a - 192) * 64 + (b - 128)) rest else none
two_bytes a _ = none

unfoldable pub three_bytes : ℕ → Bytes → Option (ℕ × Bytes)
three_bytes a (b ∷ c ∷ rest) =
    if is_continuation b && is_continuation c
    then checked 0x800 ((a - 224) * 4096 + (b - 128) * 64 + (c - 128)) rest
    else none
three_bytes a _ = none

unfoldable pub four_bytes : ℕ → Bytes → Option (ℕ × Bytes)
four_bytes a (b ∷ c ∷ d ∷ rest) =
    if is_continuation b && is_continuation c && is_continuation d
    then checked 0x10000 ((a - 240) * 262144 + (b - 128) * 4096 + (c - 128) * 64 + (d - 128)) rest
    else none
four_bytes a _ = none

-- The next character and what follows it; `none` where the bytes are not UTF-8.
unfoldable pub next_char : Bytes → Option (ℕ × Bytes)
unfolding two_bytes three_bytes four_bytes
next_char [] = none
next_char (a ∷ rest) =
    if leb a 0x7F
    then some (a, rest)
    else if within 192 223 a
    then two_bytes a rest
    else if within 224 239 a
    then three_bytes a rest
    else if within 240 247 a
    then four_bytes a rest
    else none

-- Every character takes a byte at least, so the length is fuel enough.
unfoldable pub chars_loop : ℕ → Bytes → Option (List ℕ)
chars_loop fuel [] = some []
chars_loop zero (a ∷ rest) = none
chars_loop (suc fuel) (a ∷ rest) = elim (next_char (a ∷ rest)) [
  | none ↦ none
  | some (c, rest') ↦ elim (chars_loop fuel rest') [ none ↦ none | some cs ↦ some (c ∷ cs) ]
]

-- The characters of a byte string, if it is UTF-8.
unfoldable pub chars? : Bytes → Option (List ℕ)
unfolding chars_loop next_char
chars? s = chars_loop (length s) s

abbrev chars_or_none : Option (List ℕ) → List ℕ
chars_or_none none = []
chars_or_none (some cs) = cs

-- `s.chars()`, for a `String`.
unfoldable pub chars : Bytes → List ℕ
unfolding chars?
chars s = chars_or_none (chars? s)

-- `String::from_utf8(buf)`: the same bytes, checked.
unfoldable pub from_utf8 : Bytes → Result Bytes
unfolding chars?
from_utf8 s = elim (chars? s) [ none ↦ invalid | some _ ↦ ok s ]

-- The bytes of a `String`.
abbrev pub IsUtf8 : Bytes → Type 0
IsUtf8 s = (cs : List ℕ) × (chars? s ≡ some cs)

unfoldable pub push_all : List ℕ → Bytes
unfolding push_utf8
push_all [] = []
push_all (c ∷ cs) = push_utf8 c ++ push_all cs

-- The UTF-16 code units of a character.
abbrev pub encode_utf16 : ℕ → List ℕ
encode_utf16 c =
    if leb c 0xFFFF
    then c ∷ []
    else (0xD800 + (c - 0x10000) / 1024) ∷ (0xDC00 + (c - 0x10000) % 1024) ∷ []
