-- ===== src/V1/Segments/Scanning.antt =====
-- The scan of a compact against its split, for `scan_compact` of sdks/rust/src/v1.rs.
use bounded_authority_protoc.Base.{
  ℕ, ◌≤◌, ◌<◌, ◌≡◌, ◌≢◌, ◌↔◌, refl, sym, ap, ◌∙◌, inl, inr, Option, none, some, false, [], ◌∷◌,
  ◌++◌, arith, any, length, ltb, ◌==◌, Bool-cases, Bytes, ok, refuse, ok_or, refuse_iff, OnOk,
  OnOk-ok, >>=-eq-ok, >>-eq-ok,
}
use bounded_authority_protoc.Bounds.{Bounds}
use bounded_authority_protoc.Compact.Segments.{Undotted}
use bounded_authority_protoc.V1.Segments.{
  split_three_segments, signing_input_bytes, cut, empty_or_long, scan_compact,
}
use bounded_authority_protoc.V1.Segments.Splitting.{joined, split_three_segments-eq-ok_iff}

cut-append : (p r : Bytes) → Undotted p → cut (p ++ (b'.' ∷ r)) ≡ some (p, r)
unfolding cut
cut-append [] r h = refl
cut-append (c ∷ p) r h =
    let ne : (c == b'.') ≡ false = ground (arith, h.0) in rw (ne, cut-append p r h.1, cut) refl

-- What a cut gives of a text.
abbrev Cuts : Bytes → Bytes × Bytes → Type 0
Cuts s q = Undotted q.0 × (q.0 ++ (b'.' ∷ q.1) ≡ s)

cut_later :
    (c : ℕ) (s : Bytes) (o : Option (Bytes × Bytes))
    → c ≢ b'.'
    → OnOk (Cuts s) (ok_or o)
    → OnOk (Cuts (c ∷ s)) (ok_or (elim o [ none ↦ none | some (p, r) ↦ some (c ∷ p, r) ]))
cut_later c s none ne h = tt
cut_later c s (some (p, r)) ne h = ((ne, h.0), ap (λ z. c ∷ z) h.1)

cut-Cuts : (s : Bytes) → OnOk (Cuts s) (ok_or (cut s))
unfolding cut
cut-Cuts [] = tt
cut-Cuts (c ∷ s) = elim (Bool-cases (c == b'.')) [
  | inl e ↦ (let same : c ≡ b'.' = ground arith in rw (e, cut) (tt, ap (λ z. z ∷ s) (sym same)))
  | inr e ↦
      (let ne : c ≢ b'.' = ground arith in rw (e, cut) (cut_later c s (cut s) ne (cut-Cuts s)))
]

cut-eq-some : (s p r : Bytes) → ok_or (cut s) ≡ ok (p, r) → Undotted p × (p ++ (b'.' ∷ r) ≡ s)
cut-eq-some s p r h = OnOk-ok (Cuts s) _ (cut-Cuts s) h

any-Undotted_iff : (s : Bytes) → (any (λ c. c == b'.') s ≡ false) ↔ Undotted s
any-Undotted_iff [] = (λ _. tt, λ _. refl)
any-Undotted_iff (c ∷ s) = ground (arith, any-Undotted_iff s)

-- A segment that the bounds allow.
abbrev pub Fits : Bytes → Bounds → Type 0
Fits s bounds = (0 < length s) × (length s ≤ bounds.encoded_segment_bytes)

empty_or_long_iff : (s : Bytes) (bounds : Bounds) → (empty_or_long s bounds ≡ false) ↔ Fits s bounds
empty_or_long_iff s bounds = ground arith

signed_whole :
    (a b c : Bytes) → signing_input_bytes a b ++ (b'.' ∷ c) ≡ a ++ (b'.' ∷ (b ++ (b'.' ∷ c)))
unfolding signing_input_bytes
signed_whole a b c = joined a b c

-- The three segments of a text that has no others, each allowed.
pub record Scanned (text : Bytes) (bounds : Bounds) : Type 0 where
  pub first : Bytes
  pub second : Bytes
  pub signature : Bytes
  pub split_is : split_three_segments text ≡ ok (first, second, signature)
  pub first_fits : Fits first bounds
  pub second_fits : Fits second bounds
  pub signature_fits : Fits signature bounds

scan_compact-Scanned :
    (text : Bytes) (bounds : Bounds)
    → scan_compact text bounds ≡ ok tt
    → (length text ≤ bounds.compact_bytes) × Scanned text bounds
unfolding scan_compact
scan_compact-Scanned text bounds h =
    let (e₀, h₀) = >>-eq-ok (refuse (ltb bounds.compact_bytes (length text))) _ h in
    let ((a, r), e₁, h₁) = >>=-eq-ok (ok_or (cut text)) _ h₀ in
    let (e₂, h₂) = >>-eq-ok (refuse (empty_or_long a bounds)) _ h₁ in
    let ((b, c), e₃, h₃) = >>=-eq-ok (ok_or (cut r)) _ h₂ in
    let (e₄, h₄) = >>-eq-ok (refuse (empty_or_long b bounds)) _ h₃ in
    let (e₅, h₅) = >>-eq-ok (refuse (empty_or_long c bounds)) _ h₄ in
    let long : ltb bounds.compact_bytes (length text) ≡ false = refuse_iff _ e₀ in
    let (ua, ja) = cut-eq-some text a r e₁ in
    let (ub, jb) = cut-eq-some r b c e₃ in
    let uc = (any-Undotted_iff c).0 (refuse_iff _ h₅) in
    let whole : a ++ (b'.' ∷ (b ++ (b'.' ∷ c))) ≡ text = ap (λ z. a ++ (b'.' ∷ z)) jb ∙ ja in
    (
      ground arith,
      record {
        first = a;
        second = b;
        signature = c;
        split_is =
            (split_three_segments-eq-ok_iff text a b c).1
              ((ua, ub, uc), signed_whole a b c ∙ whole);
        first_fits = (empty_or_long_iff a bounds).0 (refuse_iff _ e₂);
        second_fits = (empty_or_long_iff b bounds).0 (refuse_iff _ e₄);
        signature_fits = (empty_or_long_iff c bounds).0 (refuse_iff _ e₅);
      },
    )

Scanned-scan_compact :
    (text : Bytes) (bounds : Bounds)
    → length text ≤ bounds.compact_bytes
    → Scanned text bounds
    → scan_compact text bounds ≡ ok tt
unfolding scan_compact
Scanned-scan_compact text bounds l s =
    let ((ua, ub, uc), j) =
      (split_three_segments-eq-ok_iff text s.first s.second s.signature).0 s.split_is in
    let whole = sym (signed_whole s.first s.second s.signature) ∙ j in
    let k₁ = cut-append s.first (s.second ++ (b'.' ∷ s.signature)) ua in
    let k₁' : cut text ≡ some (s.first, s.second ++ (b'.' ∷ s.signature)) = rw whole at k₁ in
    let k₂ = cut-append s.second s.signature ub in
    let short : ltb bounds.compact_bytes (length text) ≡ false = ground arith in
    simp (
      short,
      k₁',
      k₂,
      (empty_or_long_iff s.first bounds).1 s.first_fits,
      (empty_or_long_iff s.second bounds).1 s.second_fits,
      (empty_or_long_iff s.signature bounds).1 s.signature_fits,
      (any-Undotted_iff s.signature).1 uc,
    )

-- `scan_compact` accepts a text exactly when it is short enough and is split into three segments, none
-- of them empty or longer than the bounds allow.
pub scan_compact-eq-ok_iff :
    (text : Bytes) (bounds : Bounds)
    → (scan_compact text bounds ≡ ok tt)
      ↔ ((length text ≤ bounds.compact_bytes) × Scanned text bounds)
scan_compact-eq-ok_iff text bounds =
    (scan_compact-Scanned text bounds, λ h. Scanned-scan_compact text bounds h.0 h.1)
