-- ===== src/V1/Envelope/Window.antt =====
-- The window of a proof's time in `check_envelope` of sdks/rust/src/v1.rs, in integers without ends.
use bounded_authority_protoc.Base.{ℕ, ◌+◌, ◌^◌, ◌<◌, ◌≡◌, ◌↔◌, ◌||◌, ok, refuse, arith}
use bounded_authority_protoc.Base.Int.{
  ℤ, pos, IsI64, i64_min, checked_sub, ◌+ℤ◌, ◌-ℤ◌, ◌≤ℤ◌, as_i64, ltb_ℤ,
}
use bounded_authority_protoc.Json.Value.{Float64}
use bounded_authority_protoc.V1.Envelope.{ExpectedRequest, check_proof_window}
use bounded_authority_protoc.V1.Grant.{saturating_add, saturating_sub}
use bounded_authority_protoc.V1.Grant.Times.{
  saturating_add-le, le-saturating_add, saturating_sub-le, le-saturating_sub, saturating_sub-IsI64,
  as_i64-small,
}

within_iff :
    (lower upper t : ℤ)
    → (refuse (ltb_ℤ t lower || ltb_ℤ upper t) ≡ ok tt) ↔ ((lower ≤ℤ t) × (t ≤ℤ upper))
within_iff lower upper t = ground arith

regroup : (e t : ℤ) (skew age : ℕ) → e ≤ℤ (t +ℤ pos skew) +ℤ pos age → e ≤ℤ t +ℤ pos (age + skew)
unfolding ◌+ℤ◌
regroup e t skew age h = ground arith

regroup_back :
    (e t : ℤ) (skew age : ℕ) → e ≤ℤ t +ℤ pos (age + skew) → e ≤ℤ (t +ℤ pos skew) +ℤ pos age
unfolding ◌+ℤ◌
regroup_back e t skew age h = ground arith

above_min : (t : ℤ) (n : ℕ) → IsI64 t → i64_min ≤ℤ t +ℤ pos n
unfolding ◌+ℤ◌
above_min t n ht = ground arith

le-saturating_sub_low :
    (e x : ℤ) (n : ℕ) → IsI64 e → i64_min ≤ℤ x → e ≤ℤ x +ℤ pos n → saturating_sub e (pos n) ≤ℤ x
unfolding checked_sub ◌-ℤ◌ ◌+ℤ◌
le-saturating_sub_low e x n he hx h = ground arith

module _ ⦃fl : Float64⦄ (t : ℤ) (expected : ExpectedRequest) where
  -- The time is not before the evaluation time by more than the age and the skew, and not after it by more than the skew.
  pub check_proof_window-le :
      IsI64 expected.evaluation_time
      → expected.skew < 2 ^ 63
      → expected.proof_max_age < 2 ^ 63
      → check_proof_window t expected ≡ ok tt
      → (expected.evaluation_time ≤ℤ t +ℤ pos (expected.proof_max_age + expected.skew))
        × (t ≤ℤ expected.evaluation_time +ℤ pos expected.skew)
  unfolding check_proof_window
  check_proof_window-le he hs ha h =
      let e = expected.evaluation_time in
      let n = expected.skew in
      let a = expected.proof_max_age in
      let lower = saturating_sub (saturating_sub e (as_i64 a)) (as_i64 n) in
      let (k₁, k₂) = (within_iff lower (saturating_add e (as_i64 n)) t).0 h in
      let l₁ : saturating_sub (saturating_sub e (pos a)) (pos n) ≤ℤ t =
        rw (as_i64-small n hs, as_i64-small a ha) at k₁ in
      let l₂ : t ≤ℤ saturating_add e (pos n) = rw (as_i64-small n hs) at k₂ in
      let m₁ = saturating_sub-le (saturating_sub e (pos a)) t n (saturating_sub-IsI64 e a he) l₁ in
      (regroup e t n a (saturating_sub-le e (t +ℤ pos n) a he m₁), saturating_add-le e t n he l₂)

  -- The other way, for a time of 64 bits.
  pub le-check_proof_window :
      IsI64 expected.evaluation_time
      → IsI64 t
      → expected.skew < 2 ^ 63
      → expected.proof_max_age < 2 ^ 63
      → expected.evaluation_time ≤ℤ t +ℤ pos (expected.proof_max_age + expected.skew)
      → t ≤ℤ expected.evaluation_time +ℤ pos expected.skew
      → check_proof_window t expected ≡ ok tt
  unfolding check_proof_window
  le-check_proof_window he ht hs ha recent begun =
      let e = expected.evaluation_time in
      let n = expected.skew in
      let a = expected.proof_max_age in
      let first : saturating_sub e (pos a) ≤ℤ t +ℤ pos n =
        le-saturating_sub_low e (t +ℤ pos n) a he (above_min t n ht)
          (regroup_back e t n a recent) in
      let lower : saturating_sub (saturating_sub e (pos a)) (pos n) ≤ℤ t =
        le-saturating_sub (saturating_sub e (pos a)) t n (saturating_sub-IsI64 e a he) ht first in
      let upper = le-saturating_add e t n he ht begun in
      rw (as_i64-small n hs, as_i64-small a ha)
        ((within_iff (saturating_sub (saturating_sub e (pos a)) (pos n)) (saturating_add e (pos n))
            t).1
          (lower, upper))
