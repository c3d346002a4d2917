-- ===== src/V1/Frames/RoundTrip.antt =====
-- Reading frames against writing them, for `read_frame` and `frame_into` of sdks/rust/src/v1.rs.
use bounded_authority_protoc.Base.{
  ℕ, zero, suc, ◌/◌, ◌%◌, ◌^◌, ◌≤◌, ◌<◌, ◌≡◌, ◌↔◌, refl, sym, ap, ◌∙◌, false, [], ◌∷◌, ◌++◌, arith,
  ltb, ◌==◌, length, take, drop, take-append-drop, take-length, drop-length, length-append, Bytes,
  IsBytes, ok, ◌>>=◌, refuse, refuse_iff, >>=-eq-ok, >>-eq-ok,
}
use bounded_authority_protoc.V1.Frames.{
  to_be_bytes, from_be_bytes, frame_into, read_frame, read_frame_bounded,
}

length-take : (n : ℕ) (s : Bytes) → n ≤ length s → length (take n s) ≡ n
length-take zero s h = refl
length-take (suc n) [] h = absurd (omega arith)
length-take (suc n) (c ∷ s) h = ap suc (length-take n s (omega arith))

from-to_be_bytes :
    (n : ℕ)
    → n < 2 ^ 32
    → from_be_bytes (n / 2 ^ 24 % 256) (n / 2 ^ 16 % 256) (n / 2 ^ 8 % 256) (n % 256) ≡ n
from-to_be_bytes n h = omega arith

to-from_be_bytes :
    (b₀ b₁ b₂ b₃ : ℕ)
    → b₀ < 256
    → b₁ < 256
    → b₂ < 256
    → b₃ < 256
    → to_be_bytes (from_be_bytes b₀ b₁ b₂ b₃) ≡ b₀ ∷ b₁ ∷ b₂ ∷ b₃ ∷ []
to-from_be_bytes b₀ b₁ b₂ b₃ h₀ h₁ h₂ h₃ = ground arith

read_frame-frame_into :
    (content rest : Bytes)
    → 0 < length content
    → length content < 2 ^ 32
    → read_frame (frame_into content [] ++ rest) ≡ ok (content, rest)
unfolding read_frame frame_into
read_frame-frame_into content rest h k =
    let n = from-to_be_bytes (length content) k in
    let some_byte : (length content == 0) ≡ false = ground arith in
    let enough : ltb (length (content ++ rest)) (length content) ≡ false =
      ground (arith, length-append content rest) in
    rw (n, some_byte, enough, take-length content rest, drop-length content rest) refl

read_frame-eq-ok :
    (buf content rest : Bytes)
    → IsBytes buf
    → read_frame buf ≡ ok (content, rest)
    → (0 < length content) × (length content < 2 ^ 32) × (frame_into content [] ++ rest ≡ buf)
unfolding read_frame frame_into
read_frame-eq-ok (b₀ ∷ b₁ ∷ b₂ ∷ b₃ ∷ s) content rest (h₀, (h₁, (h₂, (h₃, _)))) h =
    let len = from_be_bytes b₀ b₁ b₂ b₃ in
    let (e, k) = >>-eq-ok (refuse (len == 0)) _ h in
    let (e', k') = >>-eq-ok (refuse (ltb (length s) len)) _ k in
    let nonzero : 0 < len = ground (arith, refuse_iff (len == 0) e) in
    let enough : len ≤ length s = ground (arith, refuse_iff (ltb (length s) len) e') in
    let taken : take len s ≡ content = cc k' in
    let dropped : drop len s ≡ rest = cc k' in
    let width : length content ≡ len = rw (sym taken) (length-take len s enough) in
    let prefix = to-from_be_bytes b₀ b₁ b₂ b₃ h₀ h₁ h₂ h₃ in
    let parts : content ++ rest ≡ s = rw (sym taken, sym dropped) (take-append-drop len s) in
    (omega arith, omega arith, rw (width, parts) (ap (λ p. p ++ s) prefix))
read_frame-eq-ok [] content rest b h = cc
read_frame-eq-ok (b₀ ∷ []) content rest b h = cc
read_frame-eq-ok (b₀ ∷ b₁ ∷ []) content rest b h = cc
read_frame-eq-ok (b₀ ∷ b₁ ∷ b₂ ∷ []) content rest b h = cc

-- Of a buffer of bytes below 256, a frame is read from the front exactly when it begins with this frame as it is
-- written, its content has one byte at least and at most as many as the ceiling and 32 bits allow.
pub read_frame_bounded-eq-ok_iff :
    (buf content rest : Bytes) (ceiling : ℕ)
    → IsBytes buf
    → (read_frame_bounded buf ceiling ≡ ok (content, rest)) ↔ (
        ((0 < length content) × (length content ≤ ceiling) × (length content < 2 ^ 32))
        × (frame_into content [] ++ rest ≡ buf))
unfolding read_frame_bounded
read_frame_bounded-eq-ok_iff buf content rest ceiling hb = (
  λ h.
      let (p, e, k) = >>=-eq-ok (read_frame buf) _ h in
      let (small, same) = >>-eq-ok (refuse (ltb ceiling (length p.0))) (ok p) k in
      let e' : read_frame buf ≡ ok (content, rest) = e ∙ same in
      let q : p ≡ (content, rest) = cc same in
      let small' : refuse (ltb ceiling (length content)) ≡ ok tt = rw q at small in
      let (nonempty, word, framed) = read_frame-eq-ok buf content rest hb e' in
      ((nonempty, ground (arith, refuse_iff (ltb ceiling (length content)) small'), word), framed),
  λ ((nonempty, small, word), framed).
      let r = read_frame-frame_into content rest nonempty word in
      let r' : read_frame buf ≡ ok (content, rest) = rw framed at r in
      let small' : ltb ceiling (length content) ≡ false = ground arith in
      rw (r', small', ◌>>=◌) refl,
)
