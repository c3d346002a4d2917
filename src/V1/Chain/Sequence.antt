-- ===== src/V1/Chain/Sequence.antt =====
-- The sequence numbers of the rows that `check_chain` of sdks/rust/src/v1.rs accepts.
use native.Mathlib.Nat.{zero-add}
use bounded_authority_protoc.Base.{
  ℕ, suc, ◌+◌, ◌≡◌, refl, sym, ap, ◌∙◌, subst, not, ◌||◌, List, [], ◌∷◌, arith, ltb, ◌==◌, length,
  Bytes, equal, ok, refuse, ok_or, refuse_iff, >>=-eq-ok, >>-eq-ok, OnOk, OnOk-ok, OnOk-bind,
  OnOk-check,
}
use bounded_authority_protoc.Base.Int.{ℤ, pos, ◌+ℤ◌, eq_ℤ, eq_ℤ_iff, checked_add, int_laws}
use bounded_authority_protoc.Bounds.{Bounds, resolve_bounds}
use bounded_authority_protoc.Json.Value.{Float64}
use bounded_authority_protoc.V1.Identifier.{validate_identifier}
use bounded_authority_protoc.V1.Chain.{
  Domain, ChainInput, ExpectedChain, ChainFacts, ParsedRow, parse_row, parse_rows, check_identities,
  check_sequences, check_genesis, check_links, last_row, check_parsed, too_long, check_chain,
}
use bounded_authority_protoc.V1.Chain.Rows.{check_chain-Chained, parse_rows-cons, length-parse_rows}

checked_add-eq-ok : (a b n : ℤ) → ok_or (checked_add a b) ≡ ok n → n ≡ a +ℤ b
unfolding checked_add
checked_add-eq-ok a b n h = ground arith

check_sequences-head :
    (first : ℤ) (i : ℕ) (p : ParsedRow) (ps : List ParsedRow)
    → check_sequences first i (p ∷ ps) ≡ ok tt
    → (p.sequence ≡ first +ℤ pos i) × (check_sequences first (i + 1) ps ≡ ok tt)
unfolding check_sequences
check_sequences-head first i p ps h =
    let (want, e, h₁) = >>=-eq-ok (ok_or (checked_add first (pos i))) _ h in
    let (e', h₂) = >>-eq-ok (refuse (not (eq_ℤ p.sequence want))) _ h₁ in
    let same : p.sequence ≡ want =
      (eq_ℤ_iff p.sequence want).0 (ground (arith, refuse_iff (not (eq_ℤ p.sequence want)) e')) in
    (same ∙ checked_add-eq-ok first (pos i) want e, h₂)

check_sequences-last :
    (first : ℤ) (i : ℕ) (p : ParsedRow) (ps : List ParsedRow)
    → check_sequences first i (p ∷ ps) ≡ ok tt
    → (last_row p ps).sequence ≡ first +ℤ pos (i + length ps)
check_sequences-last first i p [] h =
    let n : i + 0 ≡ i = omega arith in rw n ((check_sequences-head first i p [] h).0)
check_sequences-last first i p (q ∷ ps) h =
    let ih =
      check_sequences-last first (i + 1) q ps (check_sequences-head first i p (q ∷ ps) h).1 in
    let n : i + 1 + length ps ≡ i + suc (length ps) = omega arith in rw n at ih

shift : (a : ℤ) (n : ℕ) → (a +ℤ pos n) +ℤ pos 1 ≡ a +ℤ pos (suc n)
shift a n = grind int_laws

module _ ⦃fl : Float64⦄ (domain : Domain) where
  -- Each row is parsed, and its sequence number is one more than that of the row before it.
  abbrev pub Numbered : Bounds → ℤ → ℕ → List Bytes → Type 0
  Numbered bounds first i [] = Unit
  Numbered bounds first i (row ∷ rows) =
      ((p : ParsedRow) × (parse_row domain row bounds ≡ ok p) × (p.sequence ≡ first +ℤ pos i))
      × Numbered bounds first (i + 1) rows

  check_sequences-Numbered :
      (bounds : Bounds) (first : ℤ) (i : ℕ) (rows : List Bytes) (ps : List ParsedRow)
      → parse_rows domain rows bounds ≡ ok ps
      → check_sequences first i ps ≡ ok tt
      → Numbered bounds first i rows
  check_sequences-Numbered bounds first i [] ps e h = tt
  check_sequences-Numbered bounds first i (row ∷ rows) [] e h =
      let n = length-parse_rows domain (row ∷ rows) bounds [] e in absurd (omega (arith, n))
  check_sequences-Numbered bounds first i (row ∷ rows) (p ∷ ps) e h =
      let (parsed, others) = parse_rows-cons domain row rows bounds p ps e in
      let (here, behind) = check_sequences-head first i p ps h in
      ((p, parsed, here), check_sequences-Numbered bounds first (i + 1) rows ps others behind)

  -- The rows are numbered from the first number on, the last number is behind them all but one, and the facts say so.
  pub record IsCounted (input : ChainInput) (expected : ExpectedChain) (facts : ChainFacts)
      : Type 0 where
    pub numbered : Numbered (resolve_bounds expected.bounds) expected.first_sequence 0 input.rows
    pub count_is : facts.row_count ≡ pos (length input.rows)
    pub first_is : facts.first_sequence ≡ expected.first_sequence
    pub last_is : facts.last_sequence ≡ expected.last_sequence
    pub last : facts.last_sequence +ℤ pos 1 ≡ facts.first_sequence +ℤ pos (length input.rows)

  Reports : ExpectedChain → ℕ → ChainFacts → Type 0
  Reports expected n facts =
      (facts.row_count ≡ pos n)
      × (facts.first_sequence ≡ expected.first_sequence)
      × (facts.last_sequence ≡ expected.last_sequence)

  check_parsed-Reports :
      (ps : List ParsedRow) (expected : ExpectedChain) (bounds : Bounds)
      → OnOk (Reports expected (length ps)) (check_parsed ps expected bounds)
  unfolding check_parsed Reports
  check_parsed-Reports [] expected bounds = tt
  check_parsed-Reports (p ∷ ps) expected bounds =
      let P = Reports expected (length (p ∷ ps)) in
      OnOk-check P (validate_identifier expected.chain_id bounds) _ λ _.
        OnOk-check P (check_identities expected.chain_id bounds (p ∷ ps)) _ λ _.
          OnOk-check P (check_sequences expected.first_sequence 0 (p ∷ ps)) _ λ _.
            OnOk-check P (check_genesis p expected) _ λ _. OnOk-check P (check_links p ps) _ λ _.
              OnOk-check P (refuse (not (eq_ℤ (pos (length (p ∷ ps))) expected.row_count))) _ λ _.
                OnOk-check P (refuse (not (eq_ℤ (last_row p ps).sequence expected.last_sequence))) _
                  λ _.
                    OnOk-check P (refuse (not (equal (last_row p ps).hash expected.head_hash))) _
                      λ _. (refl, refl, refl)

  check_chain-Reports :
      (input : ChainInput) (expected : ExpectedChain)
      → OnOk (Reports expected (length input.rows)) (check_chain domain input expected)
  unfolding check_chain
  check_chain-Reports input expected =
      let bounds = resolve_bounds expected.bounds in
      let P = Reports expected (length input.rows) in
      OnOk-check P (refuse (length input.rows == 0 || ltb bounds.chain_rows (length input.rows))) _
        λ _. OnOk-check P (refuse (too_long bounds.chain_row_bytes input.rows)) _ λ _.
          OnOk-bind P (parse_rows domain input.rows bounds) _ λ ps e.
            subst (λ n. OnOk (Reports expected n) (check_parsed ps expected bounds))
              (length-parse_rows domain input.rows bounds ps e)
              (check_parsed-Reports ps expected bounds)

-- In an accepted chain each row that was given is parsed, and its sequence number is the expected first one and the
-- number of rows before it; the count reported is the number of the rows given, the first and the last sequence number
-- reported are the expected ones, and the last is the first and the number of the rows given, less one.
pub check_chain-IsCounted :
    ⦃fl : Float64⦄
    → (domain : Domain) (expected : ExpectedChain) (input : ChainInput) (facts : ChainFacts)
    → check_chain domain input expected ≡ ok facts
    → IsCounted domain input expected facts
unfolding Reports
check_chain-IsCounted domain expected input facts h =
    let c = check_chain-Chained domain input expected facts h in
    let first = expected.first_sequence in
    let rows : suc (length c.others) ≡ length input.rows =
      length-parse_rows domain input.rows (resolve_bounds expected.bounds) (c.first ∷ c.others)
        c.parsed in
    let (count, first_is, last_is) = OnOk-ok _ _ (check_chain-Reports domain input expected) h in
    let e : expected.last_sequence ≡ first +ℤ pos (length c.others) =
      sym c.accepted.end_sequence
      ∙ check_sequences-last first 0 c.first c.others c.accepted.sequences
      ∙ ap (λ n. first +ℤ pos n) (zero-add (length c.others)) in
    let last : expected.last_sequence +ℤ pos 1 ≡ first +ℤ pos (length input.rows) =
      ap (λ z. z +ℤ pos 1) e ∙ shift first (length c.others) ∙ ap (λ n. first +ℤ pos n) rows in
    record {
      numbered =
          check_sequences-Numbered domain (resolve_bounds expected.bounds) first 0 input.rows
            (c.first ∷ c.others) c.parsed c.accepted.sequences;
      count_is = count;
      first_is = first_is;
      last_is = last_is;
      last = rw (first_is, last_is) last;
    }
