-- ===== src/Base/Distinct.antt =====
-- Lists of names of which no two are the same, and names that are not among the ones seen before.
use mathlib.Core.Logic.{◌≢◌, ◌↔◌}
use mathlib.Core.List.{List, [], ◌∷◌}
use bounded_authority_protoc.Base.Ascii.{Bytes}
use bounded_authority_protoc.Base.Lists.{All}

-- No name comes twice.
abbrev pub Different : List Bytes → Type 0
Different [] = Unit
Different (x ∷ xs) = All (λ y. x ≢ y) xs × Different xs

-- No name of the second list is in the first.
abbrev pub Apart : List Bytes → List Bytes → Type 0
Apart seen xs = All (λ x. All (λ s. s ≢ x) seen) xs

pub Apart-cons :
    (fp : Bytes) (seen xs : List Bytes)
    → Apart (fp ∷ seen) xs ↔ (All (λ x. fp ≢ x) xs × Apart seen xs)
Apart-cons fp seen [] = (λ _. (tt, tt), λ _. tt)
Apart-cons fp seen (x ∷ xs) = (
  λ ((here, others), rest). let (h, k) = (Apart-cons fp seen xs).0 rest in ((here, h), (others, k)),
  λ ((here, h), (others, k)). ((here, others), (Apart-cons fp seen xs).1 (h, k)),
)

pub Apart-none : (xs : List Bytes) → Apart [] xs
Apart-none [] = tt
Apart-none (x ∷ xs) = (tt, Apart-none xs)
