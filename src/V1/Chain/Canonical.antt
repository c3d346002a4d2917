-- ===== src/V1/Chain/Canonical.antt =====
-- Rows and their canonical encodings, for `check_chain` of sdks/rust/src/v1.rs.
use bounded_authority_protoc.Base.{
  ◌≡◌, ◌∙◌, ap, not, List, [], ◌∷◌, arith, All, Bytes, equal, equal→eq, ok, ◌>>=◌, refuse, ok_or,
  refuse_iff, OnOk, OnOk-ok, OnOk-bind, OnOk-check,
}
use bounded_authority_protoc.Base.Int.{eq_ℤ}
use bounded_authority_protoc.Bounds.{Bounds, resolve_bounds}
use bounded_authority_protoc.Json.Value.{Float64, as_object, as_string, as_int}
use bounded_authority_protoc.Json.Decode.{json_decode}
use bounded_authority_protoc.Jcs.Encode.{jcs_encode}
use bounded_authority_protoc.V1.Chain.{
  Domain, ChainInput, ExpectedChain, ChainFacts, no_slots, collect, take_b64url_32, parse_row,
  parse_rows, check_chain,
}
use bounded_authority_protoc.V1.Chain.Rows.{check_chain-Chained}

module _ ⦃fl : Float64⦄ where
  -- The row decodes, and what it decodes to encodes to the row.
  abbrev pub IsCanonical : Bounds → Bytes → Type 0
  IsCanonical bounds row = (json_decode bounds row >>= jcs_encode bounds) ≡ ok row

  module _ (domain : Domain) where
    parse_row-IsCanonical :
        (row : Bytes) (bounds : Bounds)
        → OnOk (λ _. IsCanonical bounds row) (parse_row domain row bounds)
    unfolding parse_row
    parse_row-IsCanonical row bounds = OnOk-bind _ (json_decode bounds row) _ λ value decoded.
        OnOk-bind _ (as_object value) _ λ members _. OnOk-bind _ (collect members no_slots) _ λ s _.
          OnOk-bind _ (ok_or s.version) _ λ version _. OnOk-bind _ (as_int version) _ λ v _.
            OnOk-check _ (refuse (not (eq_ℤ v domain.version))) _ λ _.
              OnOk-bind _ (ok_or s.chain_id) _ λ c _. OnOk-bind _ (as_string c) _ λ chain_id _.
                OnOk-bind _ (ok_or s.sequence) _ λ n _. OnOk-bind _ (as_int n) _ λ sequence _.
                  OnOk-bind _ (take_b64url_32 s.commitment) _ λ _ _.
                    OnOk-bind _ (take_b64url_32 s.previous) _ λ previous _.
                      OnOk-bind _ (jcs_encode bounds value) _ λ reencoded encoded.
                        OnOk-check _ (refuse (not (equal reencoded row))) _ λ same.
                          let e =
                            equal→eq reencoded row
                              (ground (arith, refuse_iff (not (equal reencoded row)) same)) in
                          rw (decoded, ◌>>=◌) (encoded ∙ ap ok e)

    parse_rows-IsCanonical :
        (rows : List Bytes) (bounds : Bounds)
        → OnOk (λ _. All (IsCanonical bounds) rows) (parse_rows domain rows bounds)
    unfolding parse_rows
    parse_rows-IsCanonical [] bounds = tt
    parse_rows-IsCanonical (row ∷ rows) bounds = OnOk-bind _ (parse_row domain row bounds) _ λ p e.
        OnOk-bind _ (parse_rows domain rows bounds) _ λ ps f. (
          OnOk-ok (λ _. IsCanonical bounds row) _ (parse_row-IsCanonical row bounds) e,
          OnOk-ok (λ _. All (IsCanonical bounds) rows) _ (parse_rows-IsCanonical rows bounds) f,
        )

    -- Every row of an accepted chain is the canonical encoding of the value that it decodes to.
    pub check_chain-IsCanonical :
        (expected : ExpectedChain) (input : ChainInput) (facts : ChainFacts)
        → check_chain domain input expected ≡ ok facts
        → All (IsCanonical (resolve_bounds expected.bounds)) input.rows
    check_chain-IsCanonical expected input facts h =
        let c = check_chain-Chained domain input expected facts h in
        OnOk-ok (λ _. All (IsCanonical (resolve_bounds expected.bounds)) input.rows) _
          (parse_rows-IsCanonical input.rows (resolve_bounds expected.bounds)) c.parsed
