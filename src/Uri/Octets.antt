-- ===== src/Uri/Octets.antt =====
-- Character classes of sdks/rust/src/uri.rs, and the loop over a text with percent escapes that
-- `normalize_reg_name` and `normalize_path` share.
use bounded_authority_protoc.Base.{
  ℕ, ◌+◌, ◌-◌, ◌*◌, Bool, true, false, not, ◌||◌, [], ◌∷◌, ◌++◌, ◌==◌, within, if◌then◌else◌, any,
  Bytes, codes, is_ascii_digit, is_ascii_alphanumeric, is_ascii_hexdigit, to_ascii_uppercase,
  Result, ok, ◌>>=◌, ◌>>◌, refuse,
}

abbrev pub is_unreserved : ℕ → Bool
is_unreserved c = is_ascii_alphanumeric c || (c == b'-' || (c == b'.' || (c == b'_' || c == b'~')))

abbrev pub is_sub_delim : ℕ → Bool
is_sub_delim c = any (λ d. c == d) (codes "!$&'()*+,;=")

abbrev pub hex_val : ℕ → ℕ
hex_val c =
    if is_ascii_digit c
    then c - b'0'
    else if within b'a' b'f' c
    then c - b'a' + 10
    else if within b'A' b'F' c
    then c - b'A' + 10
    else 0

-- What is pushed for `%` and two hex digits: an unreserved octet itself, any other escape in capitals.
unfoldable pub push_escape : (ℕ → ℕ) → ℕ → ℕ → Bytes
push_escape emit h1 h2 =
    let decoded = hex_val h1 * 16 + hex_val h2 in
    if is_unreserved decoded
    then emit decoded ∷ []
    else b'%' ∷ to_ascii_uppercase h1 ∷ to_ascii_uppercase h2 ∷ []

-- The loop over `i`. `allowed` bytes are pushed as `emit` makes them; `%` is no allowed byte.
unfoldable pub normalize_octets : (ℕ → Bool) → (ℕ → ℕ) → Bytes → Result Bytes
unfolding push_escape
normalize_octets allowed emit [] = ok []
normalize_octets allowed emit (c ∷ []) = do refuse (not (allowed c)); ok (emit c ∷ [])
normalize_octets allowed emit (c ∷ d ∷ []) = do
  refuse (not (allowed c))
  out ← normalize_octets allowed emit (d ∷ [])
  ok (emit c ∷ out)
normalize_octets allowed emit (c ∷ h1 ∷ h2 ∷ rest) = elim (allowed c) [
  | true ↦ do out ← normalize_octets allowed emit (h1 ∷ h2 ∷ rest); ok (emit c ∷ out)
  | false ↦ do
    refuse (not (c == b'%'))
    refuse (not (is_ascii_hexdigit h1) || not (is_ascii_hexdigit h2))
    out ← normalize_octets allowed emit rest
    ok (push_escape emit h1 h2 ++ out)
]
