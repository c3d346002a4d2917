-- ===== src/V1/Identifier.antt =====
-- `validate_identifier` of sdks/rust/src/v1.rs and the checks that it calls.
use bounded_authority_protoc.Base.{
  ℕ, Bool, true, false, not, ◌&&◌, ◌||◌, Option, none, some, List, [], ◌∷◌, ltb, ◌==◌, within,
  if◌then◌else◌, length, all, any, Bytes, codes, is_ascii_digit, is_ascii_alphabetic,
  is_ascii_alphanumeric, Result, ok, invalid, ◌>>◌, refuse,
}
use bounded_authority_protoc.Base.Split.{split}
use bounded_authority_protoc.Bounds.{Bounds}

abbrev is_empty : Bytes → Bool
is_empty [] = true
is_empty (c ∷ s) = false

abbrev is_hex : ℕ → Bool
is_hex b = is_ascii_digit b || within 0x41 0x46 b || within 0x61 0x66 b

abbrev starts_alphabetic : Bytes → Bool
starts_alphabetic [] = false
starts_alphabetic (c ∷ s) = is_ascii_alphabetic c

abbrev is_scheme_byte : ℕ → Bool
is_scheme_byte b = is_ascii_alphanumeric b || (b == b'+' || (b == b'-' || b == b'.'))

unfoldable pub validate_scheme : Bytes → Result (Unit {0})
validate_scheme scheme = do
  refuse (not (starts_alphabetic scheme))
  refuse (not (all is_scheme_byte scheme))

abbrev is_uri_byte : ℕ → Bool
is_uri_byte b = is_ascii_alphanumeric b || any (λ c. c == b) (codes "-._~:/?#[]@!$&'()*+,;=")

-- The loop over `i`: what is left of the bytes from `i` on.
unfoldable pub validate_uri_bytes : Bytes → Result (Unit {0})
validate_uri_bytes [] = ok tt
validate_uri_bytes (b ∷ []) = refuse (not (is_uri_byte b))
validate_uri_bytes (b ∷ h ∷ []) = do refuse (not (is_uri_byte b)); validate_uri_bytes (h ∷ [])
validate_uri_bytes (b ∷ h ∷ l ∷ rest) = elim (is_uri_byte b) [
  | true ↦ validate_uri_bytes (h ∷ l ∷ rest)
  | false ↦ elim (b == b'%' && is_hex h && is_hex l) [
    | true ↦ validate_uri_bytes rest
    | false ↦ invalid
  ]
]

-- `value.find("://")`, and what follows it.
unfoldable pub after_mark : Bytes → Option Bytes
after_mark (x ∷ y ∷ z ∷ rest) =
    if x == b':' && y == b'/' && z == b'/' then some rest else after_mark (y ∷ z ∷ rest)
after_mark _ = none

-- Up to the first of `/`, `?` and `#`.
unfoldable pub authority_of : Bytes → Bytes
authority_of [] = []
authority_of (c ∷ s) = if c == b'/' || c == b'?' || c == b'#' then [] else c ∷ authority_of s

-- What follows the last separator, from the pieces behind the first.
unfoldable pub last_piece : List Bytes → Option Bytes
last_piece [] = none
last_piece (p ∷ []) = some p
last_piece (p ∷ q ∷ ps) = last_piece (q ∷ ps)

abbrev check_port : Option Bytes → Result (Unit {0})
check_port none = ok tt
check_port (some port) = refuse (is_empty port || not (all is_ascii_digit port))

abbrev starts_bracket : Bytes → Bool
starts_bracket [] = false
starts_bracket (c ∷ s) = c == b'['

abbrev check_authority : Option Bytes → Result (Unit {0})
check_authority none = ok tt
check_authority (some after) =
    let authority = authority_of after in
    if starts_bracket authority then ok tt else check_port (last_piece (split b':' authority).1)

unfoldable pub validate_authority_port : Bytes → Result (Unit {0})
unfolding after_mark authority_of last_piece split
validate_authority_port value = check_authority (after_mark value)

-- With no colon there is one piece.
abbrev check_pieces : Bytes → Bytes × List Bytes → Result (Unit {0})
check_pieces s (scheme, []) = ok tt
check_pieces s (scheme, p ∷ ps) = do
  validate_scheme scheme
  validate_uri_bytes s
  validate_authority_port s

unfoldable pub validate_identifier : Bytes → Bounds → Result (Unit {0})
unfolding split validate_scheme validate_uri_bytes validate_authority_port
validate_identifier s bounds = do
  refuse (is_empty s || ltb bounds.identifier_bytes (length s))
  check_pieces s (split b':' s)
