-- ===== src/Json/Text/Rounds.antt =====
-- The rounds of the loop in `parse_string` of sdks/rust/src/json.rs.
use bounded_authority_protoc.Base.{
  ℕ, zero, suc, ◌≤◌, ◌≡◌, true, false, [], ◌∷◌, ◌++◌, arith, ◌==◌, length, Bytes, Result, ok,
  invalid, ◌>>=◌, Result-cases, OnOk-ok, Bool-cases, inl, inr,
}
use bounded_authority_protoc.Json.Text.{string_step, string_loop}
use bounded_authority_protoc.Json.Text.Consumed.{string_step-Leaves}

-- The loop without fuel: the input ends, a quote ends the string, a round is refused, or a round is made
-- and the loop goes on. What goes on for ever has no result here.
pub data Runs : Bytes → Bytes → Result (Bytes × Bytes) → Type 0 where
  unclosed : (buf : Bytes) → Runs [] buf invalid
  closed : {c : ℕ} (rest buf : Bytes) → (c == b'"') ≡ true → Runs (c ∷ rest) buf (ok (buf, rest))
  refused :
      {c : ℕ} {rest : Bytes} (buf : Bytes)
      → (c == b'"') ≡ false
      → string_step c rest ≡ invalid
      → Runs (c ∷ rest) buf invalid
  round :
      {c : ℕ} {rest rest' bytes buf : Bytes} {result : Result (Bytes × Bytes)}
      → (c == b'"') ≡ false
      → string_step c rest ≡ ok (bytes, rest')
      → Runs rest' (buf ++ bytes) result
      → Runs (c ∷ rest) buf result

-- With as much fuel as there are bytes, or more, the string loop ends of itself, after finitely many rounds, by the end
-- of its input, by a quote or by a round that is refused, and its result is that of these rounds: it does not stop
-- because the fuel does.
pub string_loop-Runs :
    (fuel : ℕ) (s buf : Bytes) → length s ≤ fuel → Runs s buf (string_loop fuel s buf)
unfolding string_loop
string_loop-Runs fuel [] buf h = unclosed buf
string_loop-Runs zero (c ∷ s) buf h = absurd (omega arith)
string_loop-Runs (suc fuel) (c ∷ s) buf h = elim (Bool-cases (c == b'"')) [
  | inl e ↦ rw (e, string_loop) (closed s buf e)
  | inr e ↦ elim (Result-cases (string_step c s)) [
    | inl ((bytes, rest'), f) ↦
        (let left = OnOk-ok (λ p. length p.1 ≤ length s) _ (string_step-Leaves c s) f in
          let onward = string_loop-Runs fuel rest' (buf ++ bytes) (omega arith) in
          rw (e, string_loop, f, ◌>>=◌) (round e f onward))
    | inr f ↦ rw (e, string_loop, f, ◌>>=◌) (refused buf e f)
  ]
]
