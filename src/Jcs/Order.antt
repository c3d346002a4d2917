-- ===== src/Jcs/Order.antt =====
-- `utf16_compare` of sdks/rust/src/jcs.rs, and the sort by it.
pub mod Laws
pub mod Sorting
use bounded_authority_protoc.Base.{
  ℕ, List, [], ◌∷◌, ◌++◌, Bool, true, false, ltb, if◌then◌else◌, Bytes,
}
use bounded_authority_protoc.Utf8.{chars, encode_utf16}

-- `std::cmp::Ordering`.
pub data Ordering : Type 0 where
  less equal greater : Ordering

unfoldable pub units : List ℕ → List ℕ
units [] = []
units (c ∷ cs) = encode_utf16 c ++ units cs

-- The loop over both iterators.
unfoldable pub compare_units : List ℕ → List ℕ → Ordering
compare_units [] [] = equal
compare_units [] (y ∷ ys) = less
compare_units (x ∷ xs) [] = greater
compare_units (x ∷ xs) (y ∷ ys) =
    if ltb x y then less else if ltb y x then greater else compare_units xs ys

unfoldable pub utf16_compare : Bytes → Bytes → Ordering
unfolding units compare_units chars
utf16_compare a b = compare_units (units (chars a)) (units (chars b))

abbrev pub is_less : Ordering → Bool
is_less less = true
is_less _ = false

-- What the sort asks of its comparison.
unfoldable pub precedes : Bytes → Bytes → Bool
precedes a b = is_less (utf16_compare a b)

-- `sort_unstable_by` on names that are all different, where every sort gives the same order: here by
-- insertion. `A` is what hangs on a name.
module _ {ℓ} {A : Type ℓ} where
  unfoldable pub insert : Bytes × A → List (Bytes × A) → List (Bytes × A)
  unfolding precedes utf16_compare
  insert p [] = p ∷ []
  insert p (q ∷ qs) = if precedes p.0 q.0 then p ∷ q ∷ qs else q ∷ insert p qs

  unfoldable pub sort_by_name : List (Bytes × A) → List (Bytes × A)
  unfolding insert
  sort_by_name [] = []
  sort_by_name (p ∷ ps) = insert p (sort_by_name ps)
