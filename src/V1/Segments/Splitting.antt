-- ===== src/V1/Segments/Splitting.antt =====
-- What `split_three_segments` of sdks/rust/src/v1.rs splits.
use bounded_authority_protoc.Base.{
  ◌≡◌, ◌≢◌, ◌↔◌, refl, sym, ap, ◌∙◌, inl, inr, [], ◌∷◌, ◌++◌, arith, All, ◌==◌, Bool-cases, Bytes,
  ok,
}
use bounded_authority_protoc.Base.Split.{split}
use bounded_authority_protoc.Compact.Segments.{Undotted, three-eq-ok, split-three, join-three}
use bounded_authority_protoc.V1.Segments.{split_three_segments, signing_input_bytes}

split-Undotted : (s : Bytes) → Undotted (split b'.' s).0 × All Undotted (split b'.' s).1
unfolding split
split-Undotted [] = (tt, tt)
split-Undotted (c ∷ s) = elim (Bool-cases (c == b'.')) [
  | inl e ↦ rw (e, split) (tt, split-Undotted s)
  | inr e ↦
      (let ne : c ≢ b'.' = ground arith in
        let (h, k) = split-Undotted s in rw (e, split) ((ne, h), k))
]

pub joined : (a b c : Bytes) → (a ++ (b'.' ∷ b)) ++ (b'.' ∷ c) ≡ a ++ (b'.' ∷ (b ++ (b'.' ∷ c)))
joined [] b c = refl
joined (x ∷ a) b c = ap (λ s. x ∷ s) (joined a b c)

-- A compact is split into three segments exactly when these have no dot and make it up with dots
-- between them, the first two and their dot being the bytes that are signed.
pub split_three_segments-eq-ok_iff :
    (text a b c : Bytes)
    → (split_three_segments text ≡ ok (a, b, c))
      ↔ ((Undotted a × Undotted b × Undotted c) × (signing_input_bytes a b ++ (b'.' ∷ c) ≡ text))
unfolding split_three_segments signing_input_bytes
split_three_segments-eq-ok_iff text a b c = (
  λ h.
      let e = three-eq-ok (split b'.' text) a b c h in
      let u = split-Undotted text in
      let u' : Undotted a × All Undotted (b ∷ c ∷ []) = rw e at u in
      ((u'.0, u'.1.0, u'.1.1.0), joined a b c ∙ join-three text a b c e),
  λ ((ha, hb, hc), e).
      let pieces = split-three a b c ha hb hc in
      let pieces' : split b'.' text ≡ (a, b ∷ c ∷ []) = rw (sym (joined a b c) ∙ e) at pieces in
      rw pieces' refl,
)
