-- ===== src/V1/Chain/Rows.antt =====
-- What an accepted chain says of its rows, for `check_chain` of sdks/rust/src/v1.rs.
use bounded_authority_protoc.Base.{
  suc, ◌≡◌, refl, sym, ap, ◌∙◌, not, ◌||◌, List, [], ◌∷◌, arith, ltb, ◌==◌, length, Bytes, equal,
  equal→eq, ok, refuse, ok_or, refuse_iff, >>=-eq-ok, >>-eq-ok, OnOk, OnOk-bind, OnOk-check,
  OnOk-ok,
}
use bounded_authority_protoc.Base.Int.{ℤ, pos, eq_ℤ, eq_ℤ_iff}
use bounded_authority_protoc.Bounds.{Bounds, resolve_bounds}
use bounded_authority_protoc.Json.Value.{Float64, as_object, as_string, as_int}
use bounded_authority_protoc.Json.Decode.{json_decode}
use bounded_authority_protoc.Jcs.Encode.{jcs_encode}
use bounded_authority_protoc.V1.Identifier.{validate_identifier}
use bounded_authority_protoc.V1.Chain.{
  Domain, ChainInput, ExpectedChain, ChainFacts, ParsedRow, no_slots, collect, take_b64url_32,
  row_domain_hash, parse_row, parse_rows, check_identities, check_sequences, check_genesis,
  check_links, last_row, check_parsed, too_long, check_chain,
}

-- The first row and the others, as parsed, and the checks that tie them together.
pub record Accepted (expected : ExpectedChain) (first : ParsedRow) (others : List ParsedRow)
    : Type 0 where
  pub sequences : check_sequences expected.first_sequence 0 (first ∷ others) ≡ ok tt
  pub genesis : check_genesis first expected ≡ ok tt
  pub links : check_links first others ≡ ok tt
  pub count : pos (length (first ∷ others)) ≡ expected.row_count
  pub end_sequence : (last_row first others).sequence ≡ expected.last_sequence
  pub head : (last_row first others).hash ≡ expected.head_hash

pub check_parsed-Accepted :
    (first : ParsedRow) (others : List ParsedRow) (expected : ExpectedChain) (bounds : Bounds)
    (facts : ChainFacts)
    → check_parsed (first ∷ others) expected bounds ≡ ok facts
    → Accepted expected first others
unfolding check_parsed
check_parsed-Accepted first others expected bounds facts h =
    let (_, h₁) = >>-eq-ok (validate_identifier expected.chain_id bounds) _ h in
    let (_, h₂) = >>-eq-ok (check_identities expected.chain_id bounds (first ∷ others)) _ h₁ in
    let (e₃, h₃) = >>-eq-ok (check_sequences expected.first_sequence 0 (first ∷ others)) _ h₂ in
    let (e₄, h₄) = >>-eq-ok (check_genesis first expected) _ h₃ in
    let (e₅, h₅) = >>-eq-ok (check_links first others) _ h₄ in
    let (e₆, h₆) =
      >>-eq-ok (refuse (not (eq_ℤ (pos (length (first ∷ others))) expected.row_count))) _ h₅ in
    let (e₇, h₇) =
      >>-eq-ok (refuse (not (eq_ℤ (last_row first others).sequence expected.last_sequence))) _ h₆ in
    let (e₈, _) =
      >>-eq-ok (refuse (not (equal (last_row first others).hash expected.head_hash))) _ h₇ in
    let same = λ (a b : ℤ) (r : refuse (not (eq_ℤ a b)) ≡ ok tt).
      (eq_ℤ_iff a b).0 (ground (arith, refuse_iff (not (eq_ℤ a b)) r)) in
    let same_bytes = λ (a b : Bytes) (r : refuse (not (equal a b)) ≡ ok tt).
      equal→eq a b (ground (arith, refuse_iff (not (equal a b)) r)) in
    record {
      sequences = e₃;
      genesis = e₄;
      links = e₅;
      count = same _ _ e₆;
      end_sequence = same _ _ e₇;
      head = same_bytes _ _ e₈;
    }

pub check_links-cons :
    (before p : ParsedRow) (ps : List ParsedRow)
    → check_links before (p ∷ ps) ≡ ok tt
    → (p.previous ≡ before.hash) × (check_links p ps ≡ ok tt)
unfolding check_links
check_links-cons before p ps h =
    let (e, k) = >>-eq-ok (refuse (not (equal p.previous before.hash))) _ h in
    (equal→eq _ _ (ground (arith, refuse_iff (not (equal p.previous before.hash)) e)), k)

module _ ⦃fl : Float64⦄ (domain : Domain) where
  parse_row-OnOk :
      (row : Bytes) (bounds : Bounds)
      → OnOk (λ p. p.hash ≡ row_domain_hash domain row) (parse_row domain row bounds)
  unfolding parse_row
  parse_row-OnOk row bounds = OnOk-bind _ (json_decode bounds row) _ λ value _.
      OnOk-bind _ (as_object value) _ λ members _. OnOk-bind _ (collect members no_slots) _ λ s _.
        OnOk-bind _ (ok_or s.version) _ λ version _. OnOk-bind _ (as_int version) _ λ v _.
          OnOk-check _ (refuse (not (eq_ℤ v domain.version))) _ λ _.
            OnOk-bind _ (ok_or s.chain_id) _ λ c _. OnOk-bind _ (as_string c) _ λ chain_id _.
              OnOk-bind _ (ok_or s.sequence) _ λ n _. OnOk-bind _ (as_int n) _ λ sequence _.
                OnOk-bind _ (take_b64url_32 s.commitment) _ λ _ _.
                  OnOk-bind _ (take_b64url_32 s.previous) _ λ previous _.
                    OnOk-bind _ (jcs_encode bounds value) _
                      λ reencoded _. OnOk-check _ (refuse (not (equal reencoded row))) _ λ _. refl

  pub parse_row-hash :
      (row : Bytes) (bounds : Bounds) (p : ParsedRow)
      → parse_row domain row bounds ≡ ok p
      → p.hash ≡ row_domain_hash domain row
  parse_row-hash row bounds p h =
      OnOk-ok (λ q. q.hash ≡ row_domain_hash domain row) _ (parse_row-OnOk row bounds) h

  pub parse_rows-cons :
      (row : Bytes) (rows : List Bytes) (bounds : Bounds) (p : ParsedRow) (ps : List ParsedRow)
      → parse_rows domain (row ∷ rows) bounds ≡ ok (p ∷ ps)
      → (parse_row domain row bounds ≡ ok p) × (parse_rows domain rows bounds ≡ ok ps)
  unfolding parse_rows
  parse_rows-cons row rows bounds p ps h =
      let (q, e, h₁) = >>=-eq-ok (parse_row domain row bounds) _ h in
      let (qs, e', h₂) = >>=-eq-ok (parse_rows domain rows bounds) (λ z. ok (q ∷ z)) h₁ in
      let a : q ≡ p = cc h₂ in let b : qs ≡ ps = cc h₂ in (e ∙ ap ok a, e' ∙ ap ok b)

  pub length-parse_rows :
      (rows : List Bytes) (bounds : Bounds) (ps : List ParsedRow)
      → parse_rows domain rows bounds ≡ ok ps
      → length ps ≡ length rows
  unfolding parse_rows
  length-parse_rows [] bounds ps h = let e : [] ≡ ps = cc h in rw (sym e) refl
  length-parse_rows (row ∷ rows) bounds ps h =
      let (q, e, h₁) = >>=-eq-ok (parse_row domain row bounds) _ h in
      let (qs, e', h₂) = >>=-eq-ok (parse_rows domain rows bounds) (λ z. ok (q ∷ z)) h₁ in
      let same : (q ∷ qs) ≡ ps = cc h₂ in
      rw (sym same) (ap suc (length-parse_rows rows bounds qs e'))

  -- An accepted chain has a first row, and its rows parse to accepted ones.
  pub record Chained (input : ChainInput) (expected : ExpectedChain) : Type 0 where
    pub first : ParsedRow
    pub others : List ParsedRow
    pub parsed : parse_rows domain input.rows (resolve_bounds expected.bounds) ≡ ok (first ∷ others)
    pub accepted : Accepted expected first others

  pub check_chain-Chained :
      (input : ChainInput) (expected : ExpectedChain) (facts : ChainFacts)
      → check_chain domain input expected ≡ ok facts
      → Chained input expected
  unfolding check_chain
  check_chain-Chained input expected facts h =
      let bounds = resolve_bounds expected.bounds in
      let (_, h₁) =
        >>-eq-ok (refuse (length input.rows == 0 || ltb bounds.chain_rows (length input.rows))) _
          h in
      let (_, h₂) = >>-eq-ok (refuse (too_long bounds.chain_row_bytes input.rows)) _ h₁ in
      let (ps, e, h₃) = >>=-eq-ok (parse_rows domain input.rows bounds) _ h₂ in chained ps e h₃
    where
      chained :
          (ps : List ParsedRow)
          → parse_rows domain input.rows (resolve_bounds expected.bounds) ≡ ok ps
          → check_parsed ps expected (resolve_bounds expected.bounds) ≡ ok facts
          → Chained input expected
      chained [] e k = absurd (cc k)
      chained (first ∷ others) e k = record {
        first = first;
        others = others;
        parsed = e;
        accepted =
            check_parsed-Accepted first others expected (resolve_bounds expected.bounds) facts k;
      }
