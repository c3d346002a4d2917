-- ===== src/Utf8/Laws.antt =====
-- UTF-8: decoding gives back the characters that were encoded, and the bytes that were decoded.
use bounded_authority_protoc.Base.{
  ℕ, zero, suc, ◌<◌, ◌≤◌, ◌≡◌, refl, sym, ap, ◌∙◌, Bool, true, false, inl, inr, Option, none, some,
  List, [], ◌∷◌, ◌++◌, arith, leb, within, if◌then◌else◌, length, length-append, Bytes, All, ok,
  Option-cases,
}
use bounded_authority_protoc.Utf8.{
  is_scalar, push_utf8, two_bytes, three_bytes, four_bytes, next_char, chars_loop, chars?, chars,
  from_utf8, push_all, IsUtf8,
}

abbrev pub IsScalar : ℕ → Type 0
IsScalar c = is_scalar c ≡ true

pub next_char-push_utf8 :
    (c : ℕ) (rest : Bytes) → IsScalar c → next_char (push_utf8 c ++ rest) ≡ some (c, rest)
unfolding next_char push_utf8
next_char-push_utf8 c rest h = ground arith

-- What a step of the decoder reads.
abbrev Read : Bytes → Option (ℕ × Bytes) → Type 0
Read s none = Unit
Read s (some (c, rest)) = (push_utf8 c ++ rest ≡ s) × IsScalar c

two_bytes-Read : (a : ℕ) (s : Bytes) → within 192 223 a ≡ true → Read (a ∷ s) (two_bytes a s)
unfolding two_bytes push_utf8
two_bytes-Read a [] h = tt
two_bytes-Read a (b ∷ rest) h = ground arith

three_bytes-Read : (a : ℕ) (s : Bytes) → within 224 239 a ≡ true → Read (a ∷ s) (three_bytes a s)
unfolding three_bytes push_utf8
three_bytes-Read a [] h = tt
three_bytes-Read a (b ∷ []) h = tt
three_bytes-Read a (b ∷ c ∷ rest) h = ground arith

four_bytes-Read : (a : ℕ) (s : Bytes) → within 240 247 a ≡ true → Read (a ∷ s) (four_bytes a s)
unfolding four_bytes push_utf8
four_bytes-Read a [] h = tt
four_bytes-Read a (b ∷ []) h = tt
four_bytes-Read a (b ∷ c ∷ []) h = tt
four_bytes-Read a (b ∷ c ∷ d ∷ rest) h = ground arith

one_byte-Read : (a : ℕ) (s : Bytes) → leb a 0x7F ≡ true → Read (a ∷ s) (some (a, s))
unfolding push_utf8
one_byte-Read a s h = ground arith

Read-if :
    (s : Bytes) (b : Bool) (x y : Option (ℕ × Bytes))
    → (b ≡ true → Read s x)
    → (b ≡ false → Read s y)
    → Read s (if b then x else y)
Read-if s true x y h k = h refl
Read-if s false x y h k = k refl

next_char-Read : (s : Bytes) → Read s (next_char s)
unfolding next_char
next_char-Read [] = tt
next_char-Read (a ∷ rest) = Read-if _ _ _ _ (one_byte-Read a rest) λ _.
    Read-if _ (within 192 223 a) _ _ (two_bytes-Read a rest) λ _.
      Read-if _ (within 224 239 a) _ _ (three_bytes-Read a rest)
        λ _. Read-if _ (within 240 247 a) _ _ (four_bytes-Read a rest) λ _. tt

-- The characters decoded encode to the bytes read, and are scalar values.
abbrev Decoded : Bytes → Option (List ℕ) → Type 0
Decoded s none = Unit
Decoded s (some cs) = (push_all cs ≡ s) × All IsScalar cs

chars_loop-Decoded : (fuel : ℕ) (s : Bytes) → Decoded s (chars_loop fuel s)
unfolding chars_loop push_all
chars_loop-Decoded fuel [] = (refl, tt)
chars_loop-Decoded zero (a ∷ rest) = tt
chars_loop-Decoded (suc fuel) (a ∷ rest) = go (next_char (a ∷ rest)) (chars_loop-Decoded fuel) refl
  where
    more :
        (c : ℕ) (rest' : Bytes)
        → (push_utf8 c ++ rest' ≡ a ∷ rest) × IsScalar c
        → (o : Option (List ℕ)) → Decoded rest' o
        → Decoded (a ∷ rest) (elim o [ none ↦ none | some cs ↦ some (c ∷ cs) ])
    more c rest' r none d = tt
    more c rest' r (some cs) d = (rw d.0 r.0, (r.1, d.1))

    go :
        (o : Option (ℕ × Bytes))
        → ((r : Bytes) → Decoded r (chars_loop fuel r))
        → next_char (a ∷ rest) ≡ o
        → Decoded (a ∷ rest) (chars_loop (suc fuel) (a ∷ rest))
    go none ih e = rw (e, chars_loop) tt
    go (some (c, rest')) ih e =
        rw (e, chars_loop) (more c rest' (rw e at (next_char-Read (a ∷ rest))) _ (ih rest'))

chars?-Decoded : (s : Bytes) → Decoded s (chars? s)
unfolding chars?
chars?-Decoded s = chars_loop-Decoded (length s) s

-- A string is the encoding of its characters.
pub push_all-chars : (s : Bytes) → IsUtf8 s → push_all (chars s) ≡ s
unfolding chars
push_all-chars s (cs, e) = rw e (rw e at (chars?-Decoded s)).0

pub chars-IsScalar : (s : Bytes) → All IsScalar (chars s)
unfolding chars
chars-IsScalar s = elim (Option-cases (chars? s)) [
  | inl e ↦ rw e tt
  | inr (cs, e) ↦ rw e (rw e at (chars?-Decoded s)).1
]

length-push_utf8_pos : (c : ℕ) → 0 < length (push_utf8 c)
unfolding push_utf8
length-push_utf8_pos c = ground arith

chars_loop-next_char :
    (s : Bytes) (fuel c : ℕ) (rest : Bytes) {cs : List ℕ}
    → next_char s ≡ some (c, rest)
    → chars_loop fuel rest ≡ some cs
    → chars_loop (suc fuel) s ≡ some (c ∷ cs)
unfolding chars_loop
chars_loop-next_char [] fuel c rest e k = unfold next_char in cc
chars_loop-next_char (a ∷ s) fuel c rest e k = rw (e, chars_loop) (rw (k, chars_loop))

chars_loop-push_all :
    (cs : List ℕ) (fuel : ℕ)
    → length (push_all cs) ≤ fuel
    → All IsScalar cs
    → chars_loop fuel (push_all cs) ≡ some cs
unfolding push_all
chars_loop-push_all [] fuel h s = unfold chars_loop in refl
chars_loop-push_all (c ∷ cs) zero h s =
    absurd (omega (arith, length-append (push_utf8 c) (push_all cs), length-push_utf8_pos c))
chars_loop-push_all (c ∷ cs) (suc fuel) h s =
    chars_loop-next_char _ fuel c (push_all cs) (next_char-push_utf8 c (push_all cs) s.0) (
      chars_loop-push_all cs fuel
        (omega (arith, length-append (push_utf8 c) (push_all cs), length-push_utf8_pos c)) s.1)

-- The bytes that `push_utf8` writes for a list of Unicode scalar values decode to this list.
pub chars?-push_all : (cs : List ℕ) → All IsScalar cs → chars? (push_all cs) ≡ some cs
unfolding chars?
chars?-push_all cs h = chars_loop-push_all cs (length (push_all cs)) (omega arith) h

pub push_all-IsUtf8 : (cs : List ℕ) → All IsScalar cs → IsUtf8 (push_all cs)
push_all-IsUtf8 cs h = (cs, chars?-push_all cs h)

-- On strings, `chars` loses nothing.
pub chars-injective : (s t : Bytes) → IsUtf8 s → IsUtf8 t → chars s ≡ chars t → s ≡ t
chars-injective s t hs ht e = sym (push_all-chars s hs) ∙ ap push_all e ∙ push_all-chars t ht

pub from_utf8-eq-ok : (s t : Bytes) → from_utf8 s ≡ ok t → (s ≡ t) × IsUtf8 s
unfolding from_utf8
from_utf8-eq-ok s t h = elim (Option-cases (chars? s)) [
  | inl e ↦ absurd (cc (rw (e, from_utf8) at h))
  | inr (cs, e) ↦ (ground (arith, h, e), (cs, e))
]

pub from_utf8-IsUtf8 : (s : Bytes) → IsUtf8 s → from_utf8 s ≡ ok s
unfolding from_utf8
from_utf8-IsUtf8 s (cs, e) = rw (e, from_utf8)
