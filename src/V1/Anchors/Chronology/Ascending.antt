-- ===== src/V1/Anchors/Chronology/Ascending.antt =====
-- The keys and the order of times that `check_export_chronology` of sdks/rust/src/v1.rs asks for.
use bounded_authority_protoc.Base.{
  ◌≡◌, ◌≢◌, ◌↔◌, refl, List, [], ◌∷◌, All, any, Bytes, equal, equal-false_iff, ok, refuse, arith,
  ◌>>◌, >>=-eq-ok, >>-eq-ok,
}
use bounded_authority_protoc.Base.Distinct.{Different, Apart, Apart-cons, Apart-none}
use bounded_authority_protoc.Base.Int.{ℤ, ◌≤ℤ◌, ◌<ℤ◌, leb_ℤ, ltb_ℤ}
use bounded_authority_protoc.Json.Value.{Float64}
use bounded_authority_protoc.Major.{Major}
use bounded_authority_protoc.V1.Anchors.Historical.{HistoricalPublicKey}
use bounded_authority_protoc.V1.Anchors.Chronology.{
  distinct_keys, increasing, last_time, check_times, check_export_chronology,
}

-- Each time is later than the one before it, and the end is not before the last.
abbrev pub Ascending : ℤ → List ℤ → ℤ → Type 0
Ascending before [] end = before ≤ℤ end
Ascending before (t ∷ times) end = (before <ℤ t) × Ascending t times end

increasing_iff :
    (t end : ℤ) (times : List ℤ)
    → ((increasing t times ≡ ok tt) × (last_time t times ≤ℤ end)) ↔ Ascending t times end
unfolding increasing
increasing_iff t end [] = (λ h. h.1, λ h. (refl, h))
increasing_iff t end (u ∷ times) = (
  λ (h, k).
      let (later, rest) = >>-eq-ok (refuse (leb_ℤ u t)) _ h in
      let up : t <ℤ u = ground (arith, later) in (up, (increasing_iff u end times).0 (rest, k)),
  λ (up, rest).
      let later : refuse (leb_ℤ u t) ≡ ok tt = ground (arith, up) in
      let (h, k) = (increasing_iff u end times).1 rest in (rw (later, ◌>>◌) h, k),
)

check_times_iff :
    (start end : ℤ) (times : List ℤ)
    → (check_times start end times ≡ ok tt) ↔ Ascending start times end
unfolding check_times
check_times_iff start end [] = ground arith
check_times_iff start end (t ∷ times) = (
  λ h.
      let (rise, h₁) = >>-eq-ok (increasing t times) _ h in
      let (first, last) = >>-eq-ok (refuse (leb_ℤ t start)) _ h₁ in
      let up : start <ℤ t = ground (arith, first) in
      let within : last_time t times ≤ℤ end = ground (arith, last) in
      (up, (increasing_iff t end times).0 (rise, within)),
  λ (up, rest).
      let (rise, within) = (increasing_iff t end times).1 rest in
      let first : refuse (leb_ℤ t start) ≡ ok tt = ground (arith, up) in
      let last : refuse (ltb_ℤ end (last_time t times)) ≡ ok tt = ground (arith, within) in
      rw (rise, first) last,
)

unseen_iff :
    (fp : Bytes) (seen : List Bytes)
    → (refuse (any (λ s. equal s fp) seen) ≡ ok tt) ↔ All (λ s. s ≢ fp) seen
unseen_iff fp [] = (λ _. tt, λ _. refl)
unseen_iff fp (s ∷ seen) = ground (arith, equal-false_iff s fp, unseen_iff fp seen)

module _ ⦃fl : Float64⦄ (m : Major) where
  -- The fingerprints of the keys, one by one.
  pub data AreFingerprints : List HistoricalPublicKey → List Bytes → Type 0 where
    no_keys : AreFingerprints [] []
    and_key :
        {k : HistoricalPublicKey} {fp : Bytes} {keys : List HistoricalPublicKey} {fps : List Bytes}
        → m.thumbprint_raw k.public_key ≡ ok fp
        → AreFingerprints keys fps
        → AreFingerprints (k ∷ keys) (fp ∷ fps)

  distinct_keys-Different :
      (seen : List Bytes) (keys : List HistoricalPublicKey)
      → distinct_keys m seen keys ≡ ok tt
      → (fps : List Bytes) × AreFingerprints keys fps × Apart seen fps × Different fps
  unfolding distinct_keys
  distinct_keys-Different seen [] h = ([], no_keys, tt, tt)
  distinct_keys-Different seen (k ∷ keys) h =
      let (fp, e, h₁) = >>=-eq-ok (m.thumbprint_raw k.public_key) _ h in
      let (new, h₂) = >>-eq-ok (refuse (any (λ s. equal s fp) seen)) _ h₁ in
      let (fps, are, apart, different) = distinct_keys-Different (fp ∷ seen) keys h₂ in
      let (later, others) = (Apart-cons fp seen fps).0 apart in
      (fp ∷ fps, and_key e are, ((unseen_iff fp seen).0 new, others), (later, different))

  Different-distinct_keys :
      (seen fps : List Bytes) (keys : List HistoricalPublicKey)
      → AreFingerprints keys fps
      → Apart seen fps
      → Different fps
      → distinct_keys m seen keys ≡ ok tt
  unfolding distinct_keys
  Different-distinct_keys seen [] (k ∷ keys) are apart different = elim are [ ]
  Different-distinct_keys seen (fp ∷ fps) [] are apart different = elim are [ ]
  Different-distinct_keys seen [] [] no_keys apart different = refl
  Different-distinct_keys seen (fp ∷ fps) (k ∷ keys) (and_key e are) apart different =
      let rest =
        Different-distinct_keys (fp ∷ seen) fps keys are
          ((Apart-cons fp seen fps).1 (different.0, apart.1)) different.1 in
      simp (e, (unseen_iff fp seen).1 apart.0, rest)

  -- The keys' fingerprints are computed, and no two of them are the same.
  pub record HaveDifferent (keys : List HistoricalPublicKey) : Type 0 where
    pub fingerprints : List Bytes
    pub computed : AreFingerprints keys fingerprints
    pub different : Different fingerprints

module _ ⦃fl : Float64⦄ (m : Major) (start end : ℤ) (times : List ℤ)
    (keys : List HistoricalPublicKey) where
  -- An export's chronology is accepted exactly when the fingerprints of its keys are computed and no two of them are the
  -- same, and its start, the times of the transitions and its end are in order: each transition is later than what is
  -- before it, and the end is not before the last.
  pub check_export_chronology_iff :
      (check_export_chronology m start end times keys ≡ ok tt)
      ↔ (HaveDifferent m keys × Ascending start times end)
  unfolding check_export_chronology
  check_export_chronology_iff = (
    λ h.
        (let (fresh, k) = >>-eq-ok (distinct_keys m [] keys) _ h in
          let (fps, are, _, different) = distinct_keys-Different m [] keys fresh in
          (
            record { fingerprints = fps; computed = are; different = different },
            (check_times_iff start end times).0 k,
          )),
    λ (d, k).
        (let fresh =
            Different-distinct_keys m [] d.fingerprints keys d.computed (Apart-none d.fingerprints)
              d.different in
          rw fresh ((check_times_iff start end times).1 k)),
  )
