-- ===== src/Jcs/Text.antt =====
-- `encode_string`, `encode_int` and `hex_nibble` of sdks/rust/src/jcs.rs.
use bounded_authority_protoc.Base.{
  ℕ, zero, suc, ◌+◌, ◌-◌, ◌/◌, ◌%◌, List, [], ◌∷◌, ◌++◌, leb, ◌==◌, if◌then◌else◌, Bytes, codes,
}
use bounded_authority_protoc.Base.Int.{ℤ, pos, negsuc}
use bounded_authority_protoc.Utf8.{chars, push_utf8}

unfoldable pub hex_nibble : ℕ → ℕ
hex_nibble n = if leb n 9 then b'0' + n else b'a' + (n - 10)

-- What `encode_string` appends for one character.
unfoldable pub escape_char : ℕ → Bytes
unfolding hex_nibble push_utf8
escape_char cp =
    if leb cp 0x1f
    then (if cp == 0x08
        then codes "\\b"
        else if cp == 0x09
        then codes "\\t"
        else if cp == 0x0a
        then codes "\\n"
        else if cp == 0x0c
        then codes "\\f"
        else if cp == 0x0d
        then codes "\\r"
        else codes "\\u00" ++ (hex_nibble (cp / 16) ∷ hex_nibble (cp % 16) ∷ []))
    else if cp == 0x5c
    then codes "\\\\"
    else if cp == 0x22
    then b'\\' ∷ b'"' ∷ []
    else push_utf8 cp

unfoldable pub escape_all : List ℕ → Bytes
unfolding escape_char
escape_all [] = []
escape_all (c ∷ cs) = escape_char c ++ escape_all cs

unfoldable pub encode_string : Bytes → Bytes
unfolding escape_all chars
encode_string s = b'"' ∷ (escape_all (chars s) ++ (b'"' ∷ []))

-- `to_string` of an integer: the decimal digits, last digit first onto `acc`. A number has fewer
-- digits than its successor has units.
unfoldable pub decimal_loop : ℕ → ℕ → Bytes → Bytes
decimal_loop zero n acc = acc
decimal_loop (suc fuel) n acc =
    let acc' = (b'0' + n % 10) ∷ acc in
    let rest = decimal_loop fuel (n / 10) acc' in if n / 10 == 0 then acc' else rest

unfoldable pub decimal : ℕ → Bytes
unfolding decimal_loop
decimal n = decimal_loop (suc n) n []

unfoldable pub encode_int : ℤ → Bytes
unfolding decimal
encode_int (pos n) = decimal n
encode_int (negsuc n) = b'-' ∷ decimal (suc n)
