-- ===== src/Base64url.antt =====
-- sdks/rust/src/base64url.rs: canonical unpadded base64url.
-- A shift by k bits is a division or multiplication by 2^k, `& 0x3F` is `% 64`, and `|` of words with
-- no bit in common is `+`; `as u8` is `% 256`.
pub mod RoundTrip
use bounded_authority_protoc.Base.{
  ℕ, zero, suc, ◌+◌, ◌-◌, ◌*◌, ◌/◌, ◌%◌, ◌^◌, Bool, not, Option, none, some, List, [], ◌∷◌, ◌++◌,
  ◌==◌, within, if◌then◌else◌, length, Bytes, codes, equal, Result, ok, invalid, ◌>>=◌, ◌>>◌,
  refuse, ok_or,
}

-- `ENCODE_ALPHABET`.
abbrev pub encode_alphabet : Bytes
encode_alphabet = codes "ABCDEFGHIJKLMNOPQRSTUVWXYZabcdefghijklmnopqrstuvwxyz0123456789-_"

-- Indexing; the source's indices are below 64, so the last clause is never used.
unfoldable pub index : Bytes → ℕ → ℕ
index (x ∷ xs) zero = x
index (x ∷ xs) (suc n) = index xs n
index [] n = 0

abbrev pub encode_char : ℕ → ℕ
encode_char n = index encode_alphabet n

-- The 24-bit word of a chunk.
abbrev pub word : ℕ → ℕ → ℕ → ℕ
word b0 b1 b2 = b0 * 2 ^ 16 + b1 * 2 ^ 8 + b2

-- The loop over `input.chunks(3)`; a short last chunk emits fewer characters.
unfoldable pub base64url_encode : Bytes → Bytes
base64url_encode [] = []
base64url_encode (b0 ∷ []) =
    let n = word b0 0 0 in encode_char (n / 2 ^ 18 % 64) ∷ encode_char (n / 2 ^ 12 % 64) ∷ []
base64url_encode (b0 ∷ b1 ∷ []) =
    let n = word b0 b1 0 in
    encode_char (n / 2 ^ 18 % 64)
    ∷ encode_char (n / 2 ^ 12 % 64)
    ∷ encode_char (n / 2 ^ 6 % 64)
    ∷ []
base64url_encode (b0 ∷ b1 ∷ b2 ∷ rest) =
    let n = word b0 b1 b2 in
    encode_char (n / 2 ^ 18 % 64)
    ∷ encode_char (n / 2 ^ 12 % 64)
    ∷ encode_char (n / 2 ^ 6 % 64)
    ∷ encode_char (n % 64)
    ∷ base64url_encode rest

unfoldable pub decode_char : ℕ → Option ℕ
decode_char c =
    if within b'A' b'Z' c
    then some (c - b'A')
    else if within b'a' b'z' c
    then some (c - b'a' + 26)
    else if within b'0' b'9' c
    then some (c - b'0' + 52)
    else if c == b'-'
    then some 62
    else if c == b'_'
    then some 63
    else none

-- The three bytes that a group of four characters may give.
abbrev pub first_byte : ℕ → ℕ → ℕ
first_byte c0 c1 = (c0 * 4 + c1 / 16) % 256

abbrev pub second_byte : ℕ → ℕ → ℕ
second_byte c1 c2 = (c1 % 16 * 16 + c2 / 4) % 256

abbrev pub third_byte : ℕ → ℕ → ℕ
third_byte c2 c3 = (c2 % 4 * 64 + c3) % 256

-- The `while` loop, four characters a round. A lone last character is refused before the loop, where
-- the source would index past the end.
unfoldable pub decode_loop : Bytes → Result Bytes
decode_loop [] = ok []
decode_loop (x0 ∷ []) = invalid
decode_loop (x0 ∷ x1 ∷ []) = do
  c0 ← ok_or (decode_char x0)
  c1 ← ok_or (decode_char x1)
  ok (first_byte c0 c1 ∷ [])
decode_loop (x0 ∷ x1 ∷ x2 ∷ []) = do
  c0 ← ok_or (decode_char x0)
  c1 ← ok_or (decode_char x1)
  c2 ← ok_or (decode_char x2)
  ok (first_byte c0 c1 ∷ second_byte c1 c2 ∷ [])
decode_loop (x0 ∷ x1 ∷ x2 ∷ x3 ∷ rest) = do
  c0 ← ok_or (decode_char x0)
  c1 ← ok_or (decode_char x1)
  c2 ← ok_or (decode_char x2)
  c3 ← ok_or (decode_char x3)
  out ← decode_loop rest
  ok (first_byte c0 c1 ∷ second_byte c1 c2 ∷ third_byte c2 c3 ∷ out)

-- The length rule, the loop, and the canonical check by encoding again.
unfoldable pub base64url_decode : Bytes → Result Bytes
base64url_decode input = do
  refuse (length input % 4 == 1)
  out ← decode_loop input
  refuse (not (equal (base64url_encode out) input))
  ok out
