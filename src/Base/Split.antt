-- ===== src/Base/Split.antt =====
-- `split` of slices at a byte: as many pieces as separators, and one.
use Prim.Native.Nat.{ℕ}
use mathlib.Core.Path.{◌≡◌, refl}
use mathlib.Core.Logic.{◌≢◌, inl, inr}
use mathlib.Core.Bool.{true, false}
use mathlib.Core.List.{List, [], ◌∷◌, ◌++◌}
use native.Mathlib.Omega.{arith}
use bounded_authority_protoc.Base.Tests.{◌==◌, if◌then◌else◌, Bool-cases}
use bounded_authority_protoc.Base.Lists.{All}
use bounded_authority_protoc.Base.Ascii.{Bytes}

-- The first piece, and the others: there is always one.
unfoldable pub split : ℕ → Bytes → Bytes × List Bytes
split sep [] = ([], [])
split sep (c ∷ s) =
    let (piece, pieces) = split sep s in
    if c == sep then ([], piece ∷ pieces) else (c ∷ piece, pieces)

-- The pieces after the first, each behind a separator.
unfoldable pub join : ℕ → List Bytes → Bytes
join sep [] = []
join sep (p ∷ ps) = sep ∷ p ++ join sep ps

pub split-join : (sep : ℕ) (s : Bytes) → (split sep s).0 ++ join sep (split sep s).1 ≡ s
unfolding split join
split-join sep [] = refl
split-join sep (c ∷ s) = elim (Bool-cases (c == sep)) [
  | inl e ↦ rw (e, split-join sep s) (ground arith)
  | inr e ↦ rw (e, split-join sep s) refl
]

-- A piece without separator in front of nothing, and in front of a separator.
pub split-piece : (sep : ℕ) (p : Bytes) → All (λ c. c ≢ sep) p → split sep p ≡ (p, [])
unfolding split
split-piece sep [] h = refl
split-piece sep (c ∷ p) h =
    let ne : (c == sep) ≡ false = ground (arith, h.0) in rw (ne, split-piece sep p h.1) refl

pub split-append :
    (sep : ℕ) (p s : Bytes)
    → All (λ c. c ≢ sep) p
    → split sep (p ++ sep ∷ s) ≡ (p, (split sep s).0 ∷ (split sep s).1)
unfolding split
split-append sep [] s h = let same : (sep == sep) ≡ true = ground arith in rw (same, split) refl
split-append sep (c ∷ p) s h =
    let ne : (c == sep) ≡ false = ground (arith, h.0) in rw (ne, split-append sep p s h.1) refl
