-- ===== src/Base64url/RoundTrip.antt =====
-- Decoding against encoding, for sdks/rust/src/base64url.rs.
use bounded_authority_protoc.Base.{
  ℕ, zero, suc, ◌+◌, ◌*◌, ◌/◌, ◌%◌, ◌^◌, ◌<◌, ◌≡◌, refl, ◌↔◌, inl, inr, Bool, true, false, ◌&&◌,
  Option, none, some, [], ◌∷◌, arith, ◌==◌, length, Bytes, IsBytes, equal_refl, equal→eq, ok,
  Result-cases, OnOk, OnOk-ok,
}
use bounded_authority_protoc.Base64url.{
  index, encode_char, word, base64url_encode, decode_char, first_byte, second_byte, third_byte,
  decode_loop, base64url_decode,
}

-- A test of every number below a bound.
holds_below : (ℕ → Bool) → ℕ → Bool
holds_below test zero = true
holds_below test (suc k) = holds_below test k && test k

holds_below_lem : (test : ℕ → Bool) (k m : ℕ) → m < k → holds_below test k ≡ true → test m ≡ true
unfolding holds_below
holds_below_lem test zero m small h = absurd (omega arith)
holds_below_lem test (suc k) m small h = ground (arith, holds_below_lem test k m)

is_some_of : ℕ → Option ℕ → Bool
is_some_of n none = false
is_some_of n (some m) = m == n

is_some_of_sound : (n : ℕ) (o : Option ℕ) → is_some_of n o ≡ true → o ≡ some n
unfolding is_some_of
is_some_of_sound n o h = ground arith

alphabet_table : holds_below (λ n. is_some_of n (decode_char (encode_char n))) 64 ≡ true
unfolding holds_below is_some_of decode_char index
alphabet_table = refl

pub decode_char-encode_char : (n : ℕ) → n < 64 → decode_char (encode_char n) ≡ some n
decode_char-encode_char n h = is_some_of_sound n _ (holds_below_lem _ 64 n h alphabet_table)

-- The bytes of one group, from the six-bit values that the encoder cuts from its word.
first_byte-word :
    (b0 b1 b2 : ℕ)
    → b0 < 256
    → b1 < 256
    → b2 < 256
    → first_byte (word b0 b1 b2 / 2 ^ 18 % 64) (word b0 b1 b2 / 2 ^ 12 % 64) ≡ b0
first_byte-word b0 b1 b2 h0 h1 h2 = omega arith

second_byte-word :
    (b0 b1 b2 : ℕ)
    → b0 < 256
    → b1 < 256
    → b2 < 256
    → second_byte (word b0 b1 b2 / 2 ^ 12 % 64) (word b0 b1 b2 / 2 ^ 6 % 64) ≡ b1
second_byte-word b0 b1 b2 h0 h1 h2 = omega arith

third_byte-word :
    (b0 b1 b2 : ℕ)
    → b0 < 256
    → b1 < 256
    → b2 < 256
    → third_byte (word b0 b1 b2 / 2 ^ 6 % 64) (word b0 b1 b2 % 64) ≡ b2
third_byte-word b0 b1 b2 h0 h1 h2 = omega arith

decode_char-sextet : (n : ℕ) → decode_char (encode_char (n % 64)) ≡ some (n % 64)
decode_char-sextet n = decode_char-encode_char (n % 64) (omega arith)

decode_loop-encode : (b : Bytes) → IsBytes b → decode_loop (base64url_encode b) ≡ ok b
unfolding decode_loop base64url_encode
decode_loop-encode [] h = refl
decode_loop-encode (b0 ∷ []) h =
    simp (decode_char-sextet, first_byte-word b0 0 0 h.0 (omega arith) (omega arith))
decode_loop-encode (b0 ∷ b1 ∷ []) h = simp (
  decode_char-sextet,
  first_byte-word b0 b1 0 h.0 h.1.0 (omega arith),
  second_byte-word b0 b1 0 h.0 h.1.0 (omega arith),
)
decode_loop-encode (b0 ∷ b1 ∷ b2 ∷ rest) h = simp (
  decode_char-sextet,
  decode_loop-encode rest h.1.1.1,
  first_byte-word b0 b1 b2 h.0 h.1.0 h.1.1.0,
  second_byte-word b0 b1 b2 h.0 h.1.0 h.1.1.0,
  third_byte-word b0 b1 b2 h.0 h.1.0 h.1.1.0,
)

-- The length of an encoding, which is never 1 modulo 4.
pub length-encode : (b : Bytes) → length (base64url_encode b) ≡ (4 * length b + 2) / 3
unfolding base64url_encode
length-encode [] = omega arith
length-encode (b0 ∷ []) = omega arith
length-encode (b0 ∷ b1 ∷ []) = omega arith
length-encode (b0 ∷ b1 ∷ b2 ∷ rest) = omega (arith, length-encode rest)

-- What was encoded decodes to the same bytes.
pub decode-encode : (b : Bytes) → IsBytes b → base64url_decode (base64url_encode b) ≡ ok b
unfolding base64url_decode
decode-encode b h =
    let length_ok : (length (base64url_encode b) % 4 == 1) ≡ false =
      ground (arith, length-encode b) in
    simp (length_ok, decode_loop-encode b h, equal_refl)

decode_loop-IsBytes : (t : Bytes) → OnOk IsBytes (decode_loop t)
unfolding decode_loop
decode_loop-IsBytes [] = tt
decode_loop-IsBytes (x0 ∷ []) = tt
decode_loop-IsBytes (x0 ∷ x1 ∷ []) = ground arith
decode_loop-IsBytes (x0 ∷ x1 ∷ x2 ∷ []) = ground arith
decode_loop-IsBytes (x0 ∷ x1 ∷ x2 ∷ x3 ∷ rest) = ground (arith, decode_loop-IsBytes rest)

pub decode-IsBytes : (t : Bytes) → OnOk IsBytes (base64url_decode t)
unfolding base64url_decode
decode-IsBytes t = ground (arith, decode_loop-IsBytes t)

-- The canonical check: what was decoded encodes to the input again.
encode-decode : (t : Bytes) → OnOk (λ b. base64url_encode b ≡ t) (base64url_decode t)
unfolding base64url_decode
encode-decode t = elim (Result-cases (decode_loop t)) [
  | inl (out, e) ↦ rw e (ground (arith, equal→eq (base64url_encode out) t))
  | inr e ↦ rw e (ground arith)
]

-- The decoder accepts exactly the encodings of byte strings, each to the bytes that it encodes.
pub decode-eq-ok_iff :
    (t b : Bytes) → (base64url_decode t ≡ ok b) ↔ (IsBytes b × (base64url_encode b ≡ t))
decode-eq-ok_iff t b = (
  λ h. (OnOk-ok _ _ (decode-IsBytes t) h, OnOk-ok _ _ (encode-decode t) h),
  λ h. rw (← h.1) (decode-encode b h.0),
)
