-- ===== src/Uri/Host.antt =====
-- Hosts and ports of sdks/rust/src/uri.rs: IP literals, dotted addresses and registered names.
use bounded_authority_protoc.Base.{
  ℕ, ◌+◌, ◌-◌, ◌*◌, ◌^◌, Bool, true, false, not, ◌&&◌, ◌||◌, Option, none, some, List, [], ◌∷◌,
  ◌++◌, map, ltb, leb, ◌==◌, within, if◌then◌else◌, length, all, any, Bytes, codes, equal,
  is_ascii_digit, is_ascii_hexdigit, to_ascii_lowercase, Result, ok, invalid, ◌>>=◌, ◌>>◌, refuse,
  ok_or,
}
use bounded_authority_protoc.Base.Split.{split}
use bounded_authority_protoc.Uri.Octets.{is_unreserved, is_sub_delim, normalize_octets}

abbrev pub is_empty : Bytes → Bool
is_empty [] = true
is_empty (c ∷ s) = false

-- `s.first() == Some(&c)`
abbrev pub starts_by : ℕ → Bytes → Bool
starts_by c [] = false
starts_by c (x ∷ s) = x == c

-- The pieces between separators, as `split` yields them.
abbrev pub pieces : ℕ → Bytes → List Bytes
pieces sep s = let (piece, others) = split sep s in piece ∷ others

unfoldable pub normalize_reg_name : Bytes → Result Bytes
unfolding normalize_octets
normalize_reg_name s =
    normalize_octets (λ c. is_unreserved c || is_sub_delim c) to_ascii_lowercase s

unfoldable pub is_ipv4_candidate : Bytes → Bool
unfolding split
is_ipv4_candidate s =
    not (is_empty s)
    && (length (pieces b'.' s) == 4
        && all (λ p. not (is_empty p) && all is_ascii_digit p) (pieces b'.' s))

unfoldable pub is_dec_octet : Bytes → Bool
is_dec_octet (a ∷ []) = is_ascii_digit a
is_dec_octet (a ∷ b ∷ []) = within b'1' b'9' a && is_ascii_digit b
is_dec_octet (a ∷ b ∷ c ∷ []) =
    not (a == b'0') && within 100 255 ((a - b'0') * 100 + (b - b'0') * 10 + (c - b'0'))
is_dec_octet _ = false

abbrev pub is_h16 : Bytes → Bool
is_h16 s = within 1 4 (length s) && all is_ascii_hexdigit s

-- `::` somewhere in the text.
unfoldable pub has_elision : Bytes → Bool
has_elision (c ∷ d ∷ s) = (c == b':' && d == b':') || has_elision (d ∷ s)
has_elision _ = false

abbrev prepend : ℕ → Option (Bytes × Bytes) → Option (Bytes × Bytes)
prepend c none = none
prepend c (some (l, r)) = some (c ∷ l, r)

abbrev prepend_found : ℕ → Option (Option (Bytes × Bytes)) → Option (Option (Bytes × Bytes))
prepend_found c none = none
prepend_found c (some o) = some (prepend c o)

-- The scan for the elision: `none` where the text is malformed, and what is on either side of the one
-- elision, if there is one.
unfoldable pub find_elision : Bytes → Option (Option (Bytes × Bytes))
unfolding has_elision
find_elision (c ∷ d ∷ s) =
    if c == b':' && d == b':'
    then (if starts_by b':' s || has_elision s then none else some (some ([], s)))
    else prepend_found c (find_elision (d ∷ s))
find_elision _ = some none

abbrev hextets : Bytes → List Bytes
hextets s = if is_empty s then [] else pieces b':' s

abbrev check_hextets : Bytes → Option (Bytes × Bytes) → Result (Unit {0})
check_hextets s none = do
  refuse (not (all is_h16 (hextets s)))
  refuse (not (length (hextets s) == 8))
check_hextets s (some (l, r)) = do
  refuse (not (all is_h16 (hextets l)) || not (all is_h16 (hextets r)))
  refuse (ltb 7 (length (hextets l) + length (hextets r)))

unfoldable pub validate_ipv6 : Bytes → Result (Unit {0})
unfolding find_elision split
validate_ipv6 s = do refuse (is_empty s); found ← ok_or (find_elision s); check_hextets s found

unfoldable pub skip_hex : Bytes → Bytes
skip_hex [] = []
skip_hex (c ∷ s) = if is_ascii_hexdigit c then skip_hex s else c ∷ s

abbrev starts_hex : Bytes → Bool
starts_hex [] = false
starts_hex (c ∷ s) = is_ascii_hexdigit c

unfoldable pub is_ipvfuture_shape : Bytes → Bool
unfolding skip_hex
is_ipvfuture_shape [] = false
is_ipvfuture_shape (c ∷ s) =
    not (ltb (length (c ∷ s)) 3) && (c == b'v' && (starts_hex s && starts_by b'.' (skip_hex s)))

abbrev tail_of : Bytes → Bytes
tail_of [] = []
tail_of (c ∷ s) = s

unfoldable pub validate_ipvfuture : Bytes → Bool
unfolding skip_hex
validate_ipvfuture s =
    let tail = tail_of (skip_hex (tail_of s)) in
    all (λ c. is_unreserved c || (is_sub_delim c || c == b':')) tail && not (is_empty tail)

unfoldable pub validate_ip_literal : Bytes → Result Bytes
unfolding is_ipvfuture_shape validate_ipvfuture validate_ipv6
validate_ip_literal content =
    let lower = map to_ascii_lowercase content in
    do
      refuse (is_empty content)
      if is_ipvfuture_shape lower
          then (if validate_ipvfuture lower then ok lower else invalid)
          else (do validate_ipv6 lower; ok lower)

-- The loop over the digits of a port; `u64` arithmetic is checked.
unfoldable pub port_value : ℕ → Bytes → Result ℕ
port_value val [] = ok val
port_value val (c ∷ s) = do
  refuse (leb (2 ^ 64) (val * 10 + (c - b'0')))
  port_value (val * 10 + (c - b'0')) s

unfoldable pub skip_zeros : Bytes → Bytes
skip_zeros [] = []
skip_zeros (c ∷ s) = if c == b'0' then skip_zeros s else c ∷ s

abbrev or_zero : Bytes → Bytes
or_zero [] = b'0' ∷ []
or_zero (c ∷ s) = c ∷ s

unfoldable pub parse_port : Bytes → Result (Option Bytes)
unfolding port_value skip_zeros equal
parse_port digits = do
  refuse (is_empty digits)
  refuse (not (all is_ascii_digit digits))
  val ← port_value 0 digits
  refuse (val == 0 || ltb 65535 val)
  let stripped = or_zero (skip_zeros digits)
  ok (if equal stripped (codes "443") then none else some stripped)

unfoldable pub parse_port_after_literal : Bytes → Result (Option Bytes)
unfolding parse_port
parse_port_after_literal [] = ok none
parse_port_after_literal (c ∷ s) = if c == b':' then parse_port s else invalid

-- Up to the first `c`, and what follows it, if there is one.
unfoldable pub cut_at : ℕ → Bytes → Bytes × Option Bytes
cut_at c [] = ([], none)
cut_at c (x ∷ s) =
    let (before, after) = cut_at c s in if x == c then ([], some s) else (x ∷ before, after)

abbrev optional_port : Option Bytes → Result (Option Bytes)
optional_port none = ok none
optional_port (some digits) = parse_port digits

unfoldable pub parse_literal : Bytes → Result (Bytes × Option Bytes)
unfolding cut_at validate_ip_literal parse_port_after_literal
parse_literal rest =
    let (content, after) = cut_at b']' rest in
    do
      behind ← ok_or after
      normalized_content ← validate_ip_literal content
      port ← parse_port_after_literal behind
      ok (b'[' ∷ (normalized_content ++ (b']' ∷ [])), port)

unfoldable pub parse_named : Bytes → Result (Bytes × Option Bytes)
unfolding cut_at parse_port is_ipv4_candidate is_dec_octet normalize_reg_name split
parse_named auth =
    let (host_str, digits) = cut_at b':' auth in
    do
      port ← optional_port digits
      refuse (is_empty host_str)
      host ←
          if is_ipv4_candidate host_str
          then (do refuse (not (all is_dec_octet (pieces b'.' host_str))); ok host_str)
          else normalize_reg_name host_str
      ok (host, port)

unfoldable pub parse_authority : Bytes → Result (Bytes × Option Bytes)
unfolding parse_literal parse_named
parse_authority [] = invalid
parse_authority (c ∷ s) = do
  refuse (any (λ b. b == b'@') (c ∷ s))
  if c == b'[' then parse_literal s else parse_named (c ∷ s)
