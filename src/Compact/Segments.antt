-- ===== src/Compact/Segments.antt =====
-- What `parse_compact` and `compose_compact` of sdks/rust/src/compact.rs accept.
use bounded_authority_protoc.Base.{
  ℕ, ◌%◌, ◌≡◌, ◌≢◌, ◌↔◌, refl, sym, ap, ◌∙◌, none, some, List, [], ◌∷◌, ◌++◌, arith, length, All,
  Bytes, IsBytes, ok, ◌>>=◌, ◌>>◌, >>=-eq-ok, >>-eq-ok, append-nil,
}
use bounded_authority_protoc.Base.Split.{split, join, split-join, split-piece, split-append}
use bounded_authority_protoc.Base64url.{
  encode_char, decode_char, base64url_encode, base64url_decode,
}
use bounded_authority_protoc.Base64url.RoundTrip.{decode_char-encode_char, decode-eq-ok_iff}
use bounded_authority_protoc.Compact.{
  SigningInput, validate_segment, three, parse_compact, compact_text, compose_compact,
}

-- The encoding of some bytes, one at least.
abbrev pub IsSegment : Bytes → Type 0
IsSegment seg = (b : Bytes) × (IsBytes b × (b ≢ [])) × (base64url_encode b ≡ seg)

abbrev pub Undotted : Bytes → Type 0
Undotted = All (λ c. c ≢ b'.')

decode_char_dot : decode_char b'.' ≡ none
unfolding decode_char
decode_char_dot = refl

encode_char_undotted : (n : ℕ) → encode_char (n % 64) ≢ b'.'
encode_char_undotted n e =
    let k = decode_char-encode_char (n % 64) (omega arith) in
    let d : decode_char b'.' ≡ some (n % 64) = rw e at k in cc (d, decode_char_dot)

base64url_encode-Undotted : (b : Bytes) → Undotted (base64url_encode b)
unfolding base64url_encode
base64url_encode-Undotted [] = tt
base64url_encode-Undotted (b0 ∷ []) = (encode_char_undotted _, (encode_char_undotted _, tt))
base64url_encode-Undotted (b0 ∷ b1 ∷ []) =
    (encode_char_undotted _, (encode_char_undotted _, (encode_char_undotted _, tt)))
base64url_encode-Undotted (b0 ∷ b1 ∷ b2 ∷ b) = (
  encode_char_undotted _,
  (
    encode_char_undotted _,
    (encode_char_undotted _, (encode_char_undotted _, base64url_encode-Undotted b)),
  ),
)

pub IsSegment-Undotted : (seg : Bytes) → IsSegment seg → Undotted seg
IsSegment-Undotted seg (b, h, e) = let u = base64url_encode-Undotted b in rw e at u

encode-empty : (b : Bytes) → base64url_encode b ≡ [] → b ≡ []
unfolding base64url_encode
encode-empty [] e = refl
encode-empty (b0 ∷ []) e = cc
encode-empty (b0 ∷ b1 ∷ []) e = cc
encode-empty (b0 ∷ b1 ∷ b2 ∷ b) e = cc

encode-nonempty : (b : Bytes) (c : ℕ) (s : Bytes) → base64url_encode b ≡ c ∷ s → b ≢ []
unfolding base64url_encode
encode-nonempty [] c s e = cc
encode-nonempty (b0 ∷ b) c s e = λ z. cc

-- A segment is validated exactly when it is the encoding of at least one byte.
pub validate_segment_iff : (seg : Bytes) → (validate_segment seg ≡ ok tt) ↔ IsSegment seg
unfolding validate_segment
validate_segment_iff [] = (λ h. cc, λ (b, (h, ne), e). absurd (ne (encode-empty b e)))
validate_segment_iff (c ∷ s) = (
  λ h.
      let (b, e, _) = >>=-eq-ok (base64url_decode (c ∷ s)) _ h in
      let (isb, enc) = (decode-eq-ok_iff (c ∷ s) b).0 e in
      (b, (isb, encode-nonempty b c s enc), enc),
  λ (b, (isb, ne), enc). rw ((decode-eq-ok_iff (c ∷ s) b).1 (isb, enc), ◌>>=◌) refl,
)

pub three-eq-ok :
    (p : Bytes × List Bytes) (a b c : Bytes) → three p ≡ ok (a, b, c) → p ≡ (a, b ∷ c ∷ [])
three-eq-ok (s, []) a b c h = cc
three-eq-ok (s, t ∷ []) a b c h = cc
three-eq-ok (s, t ∷ u ∷ []) a b c h = cc
three-eq-ok (s, t ∷ u ∷ v ∷ ps) a b c h = cc

pub split-three :
    (a b c : Bytes)
    → Undotted a
    → Undotted b
    → Undotted c
    → split b'.' (a ++ (b'.' ∷ (b ++ (b'.' ∷ c)))) ≡ (a, b ∷ c ∷ [])
split-three a b c ha hb hc =
    rw (split-append b'.' a (b ++ (b'.' ∷ c)) ha, split-append b'.' b c hb, split-piece b'.' c hc)
      refl

pub join-three :
    (text a b c : Bytes)
    → split b'.' text ≡ (a, b ∷ c ∷ [])
    → a ++ (b'.' ∷ (b ++ (b'.' ∷ c))) ≡ text
unfolding join
join-three text a b c e =
    let h = split-join b'.' text in let k = rw e at h in rw (append-nil c) at k

validated-eq-ok :
    (p : Bytes × Bytes × Bytes) (a b c : Bytes)
    → (validate_segment p.0 >> (validate_segment p.1 >> (validate_segment p.2 >> ok p)))
      ≡ ok (a, b, c)
    → (IsSegment a × IsSegment b × IsSegment c) × (p ≡ (a, b, c))
validated-eq-ok (x, y, z) a b c h =
    let (hx, h₁) = >>-eq-ok (validate_segment x) _ h in
    let (hy, h₂) = >>-eq-ok (validate_segment y) _ h₁ in
    let (hz, h₃) = >>-eq-ok (validate_segment z) _ h₂ in
    let ex : x ≡ a = cc h₃ in
    let ey : y ≡ b = cc h₃ in
    let ez : z ≡ c = cc h₃ in
    let sx = (validate_segment_iff x).0 hx in
    let sy = (validate_segment_iff y).0 hy in
    let sz = (validate_segment_iff z).0 hz in rw (sym ex, sym ey, sym ez) ((sx, sy, sz), refl)

-- A text is parsed into three segments exactly when it is these three, each the encoding of at least
-- one byte, with dots between them.
pub parse_compact-eq-ok_iff :
    (text a b c : Bytes)
    → (parse_compact text ≡ ok (a, b, c))
      ↔ ((IsSegment a × IsSegment b × IsSegment c) × (a ++ (b'.' ∷ (b ++ (b'.' ∷ c))) ≡ text))
unfolding parse_compact
parse_compact-eq-ok_iff text a b c = (
  λ h.
      let (p, e, h₁) = >>=-eq-ok (three (split b'.' text)) _ h in
      let (segments, same) = validated-eq-ok p a b c h₁ in
      let e' : three (split b'.' text) ≡ ok (a, b, c) = e ∙ ap ok same in
      (segments, join-three text a b c (three-eq-ok (split b'.' text) a b c e')),
  λ ((ha, hb, hc), e).
      let pieces =
        split-three a b c (IsSegment-Undotted a ha) (IsSegment-Undotted b hb)
          (IsSegment-Undotted c hc) in
      let pieces' : split b'.' text ≡ (a, b ∷ c ∷ []) = rw e at pieces in
      simp (
        pieces',
        (validate_segment_iff a).1 ha,
        (validate_segment_iff b).1 hb,
        (validate_segment_iff c).1 hc,
      ),
)

-- A signing input of two segments and a signature of 64 bytes compose, and the result is parsed into
-- the same two segments and the signature's encoding.
pub compose_compact-parse_compact :
    (input : SigningInput) (signature : Bytes)
    → IsSegment input.protected_segment
    → IsSegment input.payload_segment
    → IsBytes signature
    → length signature ≡ 64
    → (compose_compact input signature ≡ ok (compact_text input signature))
      × (parse_compact (compact_text input signature)
          ≡ ok (input.protected_segment, input.payload_segment, base64url_encode signature))
unfolding compose_compact
compose_compact-parse_compact input signature hp hq hs n =
    let some_byte : signature ≢ [] = λ z. (let k = rw z at n in omega (arith, k)) in
    let seg : IsSegment (base64url_encode signature) = (signature, (hs, some_byte), refl) in
    let parsed : parse_compact (compact_text input signature)
        ≡ ok (input.protected_segment, input.payload_segment, base64url_encode signature) =
      (parse_compact-eq-ok_iff (compact_text input signature) input.protected_segment
          input.payload_segment (base64url_encode signature)).1
        ((hp, hq, seg), refl) in
    (rw (parsed, ◌>>=◌) refl, parsed)
