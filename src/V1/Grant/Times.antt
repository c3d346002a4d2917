-- ===== src/V1/Grant/Times.antt =====
-- The time windows of sdks/rust/src/v1.rs, whose arithmetic stops at the ends of `i64`, in integers without ends.
use bounded_authority_protoc.Base.{ℕ, ◌^◌, ◌<◌, ◌≡◌, ◌↔◌, ◌||◌, ◌>>◌, ok, refuse, arith}
use bounded_authority_protoc.Base.Int.{
  ℤ, pos, IsI64, i64_min, checked_add, checked_sub, ◌+ℤ◌, ◌-ℤ◌, ◌≤ℤ◌, ◌<ℤ◌, as_i64, ltb_ℤ, leb_ℤ,
}
use bounded_authority_protoc.V1.Grant.{
  GrantPayload, ExpectedGrant, saturating_add, saturating_sub, check_grant_times,
}

module _ (e t : ℤ) (n : ℕ) where
  pub saturating_add-le : IsI64 e → t ≤ℤ saturating_add e (pos n) → t ≤ℤ e +ℤ pos n
  unfolding checked_add ◌+ℤ◌
  saturating_add-le he h = ground arith

  pub le-saturating_add : IsI64 e → IsI64 t → t ≤ℤ e +ℤ pos n → t ≤ℤ saturating_add e (pos n)
  unfolding checked_add ◌+ℤ◌
  le-saturating_add he ht h = ground arith

  pub saturating_sub-le : IsI64 e → saturating_sub e (pos n) ≤ℤ t → e ≤ℤ t +ℤ pos n
  unfolding checked_sub ◌-ℤ◌ ◌+ℤ◌
  saturating_sub-le he h = ground arith

  pub saturating_sub-lt : IsI64 e → saturating_sub e (pos n) <ℤ t → e <ℤ t +ℤ pos n
  unfolding checked_sub ◌-ℤ◌ ◌+ℤ◌
  saturating_sub-lt he h = ground arith

  pub lt-saturating_sub : IsI64 e → i64_min <ℤ t → e <ℤ t +ℤ pos n → saturating_sub e (pos n) <ℤ t
  unfolding checked_sub ◌-ℤ◌ ◌+ℤ◌
  lt-saturating_sub he ht h = ground arith

  pub le-saturating_sub : IsI64 e → IsI64 t → e ≤ℤ t +ℤ pos n → saturating_sub e (pos n) ≤ℤ t
  unfolding checked_sub ◌-ℤ◌ ◌+ℤ◌
  le-saturating_sub he ht h = ground arith

pub saturating_sub-IsI64 : (e : ℤ) (n : ℕ) → IsI64 e → IsI64 (saturating_sub e (pos n))
unfolding checked_sub
saturating_sub-IsI64 e n he = ground arith

-- The three conditions on the times of a grant.
pub record InWindow (payload : GrantPayload) (expected : ExpectedGrant) : Type 0 where
  pub issued : payload.issued_at ≤ℤ expected.evaluation_time +ℤ pos expected.skew
  pub begun : payload.not_before ≤ℤ expected.evaluation_time +ℤ pos expected.skew
  pub unexpired : expected.evaluation_time <ℤ payload.expires_at +ℤ pos expected.skew

pub as_i64-small : (n : ℕ) → n < 2 ^ 63 → as_i64 n ≡ pos n
as_i64-small n h = ground arith

between_iff :
    (upper lower a b x : ℤ)
    → (refuse (ltb_ℤ upper a || ltb_ℤ upper b) >> refuse (leb_ℤ x lower) ≡ ok tt)
      ↔ ((a ≤ℤ upper) × (b ≤ℤ upper) × (lower <ℤ x))
between_iff upper lower a b x = ground arith

module _ (payload : GrantPayload) (expected : ExpectedGrant) where
  pub check_grant_times-InWindow :
      IsI64 expected.evaluation_time
      → expected.skew < 2 ^ 63
      → check_grant_times payload expected ≡ ok tt
      → InWindow payload expected
  unfolding check_grant_times
  check_grant_times-InWindow he hs h =
      let e = expected.evaluation_time in
      let n = expected.skew in
      let same = as_i64-small n hs in
      let upper = saturating_add e (as_i64 n) in
      let lower = saturating_sub e (as_i64 n) in
      let (k₁, k₂, k₃) =
        (between_iff upper lower payload.issued_at payload.not_before payload.expires_at).0 h in
      let l₁ : payload.issued_at ≤ℤ saturating_add e (pos n) = rw same at k₁ in
      let l₂ : payload.not_before ≤ℤ saturating_add e (pos n) = rw same at k₂ in
      let l₃ : saturating_sub e (pos n) <ℤ payload.expires_at = rw same at k₃ in
      record {
        issued = saturating_add-le e payload.issued_at n he l₁;
        begun = saturating_add-le e payload.not_before n he l₂;
        unexpired = saturating_sub-lt e payload.expires_at n he l₃;
      }

  pub InWindow-check_grant_times :
      IsI64 expected.evaluation_time
      → expected.skew < 2 ^ 63
      → IsI64 payload.issued_at × IsI64 payload.not_before × (i64_min <ℤ payload.expires_at)
      → InWindow payload expected
      → check_grant_times payload expected ≡ ok tt
  unfolding check_grant_times
  InWindow-check_grant_times he hs (ia, ib, ix) w =
      let e = expected.evaluation_time in
      let n = expected.skew in
      let same = as_i64-small n hs in
      let k₁ = le-saturating_add e payload.issued_at n he ia w.issued in
      let k₂ = le-saturating_add e payload.not_before n he ib w.begun in
      let k₃ = lt-saturating_sub e payload.expires_at n he ix w.unexpired in
      rw same (
        (between_iff (saturating_add e (pos n)) (saturating_sub e (pos n)) payload.issued_at
            payload.not_before payload.expires_at).1
          (k₁, k₂, k₃))
