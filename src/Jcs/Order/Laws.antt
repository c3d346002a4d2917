-- ===== src/Jcs/Order/Laws.antt =====
-- `utf16_compare` is a strict total order on strings.
use bounded_authority_protoc.Base.{ℕ, ◌≡◌, refl, ap, true, false, List, [], ◌∷◌, arith, Bytes, All}
use bounded_authority_protoc.Utf8.{chars, IsUtf8}
use bounded_authority_protoc.Utf8.Laws.{IsScalar, chars-IsScalar, chars-injective}
use bounded_authority_protoc.Jcs.Order.{
  Ordering, less, equal, greater, units, compare_units, utf16_compare, is_less, precedes,
}

units-injective :
    (cs ds : List ℕ) → All IsScalar cs → All IsScalar ds → units cs ≡ units ds → cs ≡ ds
unfolding units
units-injective [] [] h k e = refl
units-injective [] (d ∷ ds) h k e = ground arith
units-injective (c ∷ cs) [] h k e = ground arith
units-injective (c ∷ cs) (d ∷ ds) h k e = ground (arith, units-injective cs ds h.1 k.1)

compare_units-equal : (xs ys : List ℕ) → compare_units xs ys ≡ equal → xs ≡ ys
unfolding compare_units
compare_units-equal [] [] h = refl
compare_units-equal [] (y ∷ ys) h = ground arith
compare_units-equal (x ∷ xs) [] h = ground arith
compare_units-equal (x ∷ xs) (y ∷ ys) h = ground (arith, compare_units-equal xs ys)

compare_units_refl : (xs : List ℕ) → compare_units xs xs ≡ equal
unfolding compare_units
compare_units_refl [] = refl
compare_units_refl (x ∷ xs) = ground (arith, compare_units_refl xs)

abbrev flip : Ordering → Ordering
flip less = greater
flip equal = equal
flip greater = less

compare_units-flip : (xs ys : List ℕ) → compare_units ys xs ≡ flip (compare_units xs ys)
unfolding compare_units
compare_units-flip [] [] = refl
compare_units-flip [] (y ∷ ys) = refl
compare_units-flip (x ∷ xs) [] = refl
compare_units-flip (x ∷ xs) (y ∷ ys) = ground (arith, compare_units-flip xs ys)

compare_units_trans :
    (xs ys zs : List ℕ)
    → compare_units xs ys ≡ less
    → compare_units ys zs ≡ less
    → compare_units xs zs ≡ less
unfolding compare_units
compare_units_trans [] [] zs h k = ground arith
compare_units_trans [] (y ∷ ys) [] h k = ground arith
compare_units_trans [] (y ∷ ys) (z ∷ zs) h k = refl
compare_units_trans (x ∷ xs) [] zs h k = ground arith
compare_units_trans (x ∷ xs) (y ∷ ys) [] h k = ground arith
compare_units_trans (x ∷ xs) (y ∷ ys) (z ∷ zs) h k = ground (arith, compare_units_trans xs ys zs)

is_less→eq : (o : Ordering) → is_less o ≡ true → o ≡ less
is_less→eq o h = ground arith

pub precedes_asym : (a b : Bytes) → precedes a b ≡ true → precedes b a ≡ false
unfolding precedes utf16_compare
precedes_asym a b h = ground (arith, compare_units-flip (units (chars a)) (units (chars b)))

pub precedes_trans :
    (a b c : Bytes) → precedes a b ≡ true → precedes b c ≡ true → precedes a c ≡ true
unfolding precedes utf16_compare
precedes_trans a b c h k = ap is_less (
    compare_units_trans (units (chars a)) (units (chars b)) (units (chars c)) (is_less→eq _ h)
      (is_less→eq _ k))

-- Two strings of which neither precedes the other are one.
pub precedes_total :
    (a b : Bytes) → IsUtf8 a → IsUtf8 b → precedes a b ≡ false → precedes b a ≡ false → a ≡ b
unfolding precedes utf16_compare
precedes_total a b ha hb h k =
    chars-injective a b ha hb
      (units-injective _ _ (chars-IsScalar a) (chars-IsScalar b) (compare_units-equal _ _ same))
  where
    same : compare_units (units (chars a)) (units (chars b)) ≡ equal
    same = ground (arith, compare_units-flip (units (chars a)) (units (chars b)))
