-- ===== src/V1/Chain/Tamper.antt =====
-- Two accepted chains side by side, for `check_chain` of sdks/rust/src/v1.rs.
use bounded_authority_protoc.Base.{
  ℕ, suc, ◌≡◌, ◌≢◌, refl, sym, ap, ◌∙◌, ◌⊎◌, inl, inr, List, [], ◌∷◌, arith, length, Bytes, equal,
  equal→eq, equal-false_iff, Bool-cases, ok,
}
use bounded_authority_protoc.Base.Int.{pos}
use bounded_authority_protoc.Bounds.{Bounds, resolve_bounds}
use bounded_authority_protoc.Json.Value.{Float64}
use bounded_authority_protoc.V1.Chain.{
  Domain, ChainInput, ExpectedChain, ChainFacts, ParsedRow, row_domain_hash, parse_row, parse_rows,
  check_links, last_row, check_chain,
}
use bounded_authority_protoc.V1.Chain.Rows.{
  check_links-cons, parse_row-hash, parse_rows-cons, length-parse_rows, check_chain-Chained,
}

-- Two rows that differ and have the same domain hash.
abbrev pub Collision : Domain → Type 0
Collision domain =
    (x : Bytes) × (y : Bytes) × (x ≢ y) × (row_domain_hash domain x ≡ row_domain_hash domain y)

same_or_Collision :
    (domain : Domain) (x y : Bytes)
    → row_domain_hash domain x ≡ row_domain_hash domain y
    → (x ≡ y) ⊎ Collision domain
same_or_Collision domain x y h = elim (Bool-cases (equal x y)) [
  | inl e ↦ inl (equal→eq x y e)
  | inr e ↦ inr (x, y, (equal-false_iff x y).0 e, h)
]

module _ ⦃fl : Float64⦄ (domain : Domain) (bounds : Bounds) where
  row_or_Collision :
      (x y : Bytes) (p q : ParsedRow)
      → parse_row domain x bounds ≡ ok p
      → parse_row domain y bounds ≡ ok q
      → p.hash ≡ q.hash
      → (x ≡ y) ⊎ Collision domain
  row_or_Collision x y p q hx hy e =
      same_or_Collision domain x y
        (sym (parse_row-hash domain x bounds p hx) ∙ e ∙ parse_row-hash domain y bounds q hy)

  -- The rows as long as each is linked to the one before it, from the last back to the first.
  rows_or_Collision :
      (rows rows' : List Bytes) (p : ParsedRow) (ps : List ParsedRow) (q : ParsedRow)
      (qs : List ParsedRow)
      → parse_rows domain rows bounds ≡ ok (p ∷ ps)
      → parse_rows domain rows' bounds ≡ ok (q ∷ qs)
      → check_links p ps ≡ ok tt
      → check_links q qs ≡ ok tt
      → length ps ≡ length qs
      → (last_row p ps).hash ≡ (last_row q qs).hash
      → (rows ≡ rows') ⊎ Collision domain
  rows_or_Collision [] rows' p ps q qs hp hq lp lq n e =
      absurd (omega (arith, length-parse_rows domain [] bounds (p ∷ ps) hp))
  rows_or_Collision (x ∷ xs) [] p ps q qs hp hq lp lq n e =
      absurd (omega (arith, length-parse_rows domain [] bounds (q ∷ qs) hq))
  rows_or_Collision (x ∷ xs) (y ∷ ys) p [] q (q' ∷ qs) hp hq lp lq n e = absurd (omega arith)
  rows_or_Collision (x ∷ xs) (y ∷ ys) p (p' ∷ ps) q [] hp hq lp lq n e = absurd (omega arith)
  rows_or_Collision (x ∷ xs) (y ∷ ys) p [] q [] hp hq lp lq n e =
      let (a, a') = parse_rows-cons domain x xs bounds p [] hp in
      let (b, b') = parse_rows-cons domain y ys bounds q [] hq in
      let none_left : xs ≡ [] = none xs (length-parse_rows domain xs bounds [] a') in
      let none_left' : ys ≡ [] = none ys (length-parse_rows domain ys bounds [] b') in
      elim (row_or_Collision x y p q a b e) [
        | inl s ↦ inl (rw (s, none_left, none_left') refl)
        | inr c ↦ inr c
      ]
    where
      none : (zs : List Bytes) → 0 ≡ length zs → zs ≡ []
      none [] h = refl
      none (z ∷ zs) h = absurd (omega arith)
  rows_or_Collision (x ∷ xs) (y ∷ ys) p (p' ∷ ps) q (q' ∷ qs) hp hq lp lq n e =
      let (a, a') = parse_rows-cons domain x xs bounds p (p' ∷ ps) hp in
      let (b, b') = parse_rows-cons domain y ys bounds q (q' ∷ qs) hq in
      let (up, lp') = check_links-cons p p' ps lp in
      let (uq, lq') = check_links-cons q q' qs lq in
      elim (rows_or_Collision xs ys p' ps q' qs a' b' lp' lq' (omega arith) e) [
        | inl s ↦
            let c : parse_rows domain ys bounds ≡ ok (p' ∷ ps) = rw s at a' in
            let same : p' ≡ q' = cc (c, b') in
            let hashes : p.hash ≡ q.hash = sym up ∙ ap (λ r. r.previous) same ∙ uq in
            elim (row_or_Collision x y p q a b hashes) [
              | inl s' ↦ inl (rw (s', s) refl)
              | inr k ↦ inr k
            ]
        | inr k ↦ inr k
      ]

-- Two lists of rows that `check_chain` accepts against the same expectation are the same rows, or
-- they exhibit two rows that differ and have the same domain hash.
pub check_chain-tamper_evident :
    ⦃fl : Float64⦄
    → (domain : Domain) (expected : ExpectedChain) (a b : ChainInput) (facts facts' : ChainFacts)
    → check_chain domain a expected ≡ ok facts
    → check_chain domain b expected ≡ ok facts'
    → (a.rows ≡ b.rows) ⊎ Collision domain
check_chain-tamper_evident domain expected a b facts facts' h k =
    let x = check_chain-Chained domain a expected facts h in
    let y = check_chain-Chained domain b expected facts' k in
    rows_or_Collision domain (resolve_bounds expected.bounds) a.rows b.rows x.first x.others y.first
      y.others x.parsed y.parsed x.accepted.links y.accepted.links
      (same_length (x.accepted.count ∙ sym y.accepted.count))
      (x.accepted.head ∙ sym y.accepted.head)
  where
    same_length : {m n : ℕ} → pos (suc m) ≡ pos (suc n) → m ≡ n
    same_length e = cc e
