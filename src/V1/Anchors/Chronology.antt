-- ===== src/V1/Anchors/Chronology.antt =====
-- `check_export_chronology` of sdks/rust/src/v1.rs.
pub mod Ascending
use bounded_authority_protoc.Base.{
  Bool, not, List, [], ◌∷◌, any, Bytes, equal, Result, ok, invalid, ◌>>=◌, ◌>>◌, refuse,
}
use bounded_authority_protoc.Base.Int.{ℤ, leb_ℤ, ltb_ℤ}
use bounded_authority_protoc.Json.Value.{Float64}
use bounded_authority_protoc.Major.{Major}
use bounded_authority_protoc.V1.Anchors.Historical.{HistoricalPublicKey}

module _ ⦃fl : Float64⦄ (m : Major) where
  -- No two keys have one fingerprint; `seen` grows at its front here, and only membership is asked of it.
  unfoldable pub distinct_keys : List Bytes → List HistoricalPublicKey → Result (Unit {0})
  unfolding equal
  distinct_keys seen [] = ok tt
  distinct_keys seen (k ∷ keys) = do
    fp ← m.thumbprint_raw k.public_key
    refuse (any (λ s. equal s fp) seen)
    distinct_keys (fp ∷ seen) keys

-- The times behind `before` grow.
unfoldable pub increasing : ℤ → List ℤ → Result (Unit {0})
increasing before [] = ok tt
increasing before (t ∷ times) = do refuse (leb_ℤ t before); increasing t times

abbrev pub last_time : ℤ → List ℤ → ℤ
last_time t [] = t
last_time t (u ∷ times) = last_time u times

unfoldable pub check_times : ℤ → ℤ → List ℤ → Result (Unit {0})
unfolding increasing
check_times start_at end_at [] = refuse (ltb_ℤ end_at start_at)
check_times start_at end_at (t ∷ times) = do
  increasing t times
  refuse (leb_ℤ t start_at)
  refuse (ltb_ℤ end_at (last_time t times))

module _ ⦃fl : Float64⦄ (m : Major) where
  unfoldable pub check_export_chronology :
      ℤ → ℤ → List ℤ → List HistoricalPublicKey → Result (Unit {0})
  unfolding distinct_keys check_times
  check_export_chronology start_at end_at effective_times keys = do
    distinct_keys m [] keys
    check_times start_at end_at effective_times
