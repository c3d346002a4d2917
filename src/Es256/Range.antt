-- ===== src/Es256/Range.antt =====
-- The ranges in sdks/rust/src/es256.rs as ranges of numbers.
use native.Mathlib.Nat.{mul-le-mul_right}
use bounded_authority_protoc.Base.{
  ℕ, suc, ◌+◌, ◌*◌, ◌/◌, ◌<◌, ◌≤◌, ◌≡◌, ◌↔◌, refl, sym, ap, ◌∙◌, Bool, true, false, not, ◌||◌, ◌⊎◌,
  [], ◌∷◌, length, take, drop, replicate, All, All-left, All-right, take-append-drop, length-append,
  length-drop, ◌++◌, refuse, ◌>>◌, Bytes, equal, arith, ok,
}
use bounded_authority_protoc.Es256.{array_ltb, group_order, half_n, validate_rs_range}

-- The number that bytes stand for, the most significant first, and the first number that takes more bytes.
pub weight : Bytes → ℕ
weight [] = 1
weight (b ∷ s) = 256 * weight s

unfoldable pub big_endian : Bytes → ℕ
unfolding weight
big_endian [] = 0
big_endian (b ∷ s) = b * weight s + big_endian s

abbrev pub AreBytes : Bytes → Type 0
AreBytes = All (λ b. b < 256)

next-le : (x y w : ℕ) → x < y → x * w + w ≤ y * w
next-le x y w h = let m : suc x * w ≤ y * w = mul-le-mul_right w h in omega (arith, m)

big_endian-lt : (s : Bytes) → AreBytes s → big_endian s < weight s
unfolding big_endian weight
big_endian-lt [] h = omega arith
big_endian-lt (b ∷ s) (h, k) = omega (arith, big_endian-lt s k, next-le b 256 (weight s) h)

weight-length : (s t : Bytes) → length s ≡ length t → weight s ≡ weight t
unfolding weight
weight-length [] [] n = refl
weight-length [] (y ∷ t) n = absurd (omega (arith, n))
weight-length (x ∷ s) [] n = absurd (omega (arith, n))
weight-length (x ∷ s) (y ∷ t) n = ap (λ w. 256 * w) (weight-length s t (omega (arith, n)))

-- Numbers of one length in another base: by the first digit, and then by what follows.
digits_iff :
    (x y w a b : ℕ) → a < w → b < w → (x * w + a < y * w + b) ↔ ((x < y) ⊎ ((x ≡ y) × (a < b)))
digits_iff x y w a b ha hb =
    let up : x < y → x * w + w ≤ y * w = next-le x y w in
    let down : y < x → y * w + w ≤ x * w = next-le y x w in
    let level : x ≡ y → x * w ≡ y * w = ap (λ z. z * w) in ground (arith, up, down, level)

pub array_ltb_iff :
    (s t : Bytes)
    → AreBytes s
    → AreBytes t
    → length s ≡ length t
    → (array_ltb s t ≡ true) ↔ (big_endian s < big_endian t)
unfolding array_ltb big_endian
array_ltb_iff [] [] hs ht n = ground arith
array_ltb_iff [] (y ∷ t) hs ht n = absurd (omega (arith, n))
array_ltb_iff (x ∷ s) [] hs ht n = absurd (omega (arith, n))
array_ltb_iff (x ∷ s) (y ∷ t) (hx, hs) (hy, ht) n =
    let n' : length s ≡ length t = omega (arith, n) in
    let same = weight-length s t n' in
    let ls : big_endian s < weight t = rw same at (big_endian-lt s hs) in
    let lt = big_endian-lt t ht in
    let ih = array_ltb_iff s t hs ht n' in
    let d = digits_iff x y (weight t) (big_endian s) (big_endian t) ls lt in
    rw same (ground (arith, ih, d))

weight-positive : (s : Bytes) → 0 < weight s
unfolding weight
weight-positive [] = omega arith
weight-positive (b ∷ s) = omega (arith, weight-positive s)

zero_iff : (s : Bytes) → (equal s (replicate (length s) 0) ≡ true) ↔ (big_endian s ≡ 0)
unfolding equal big_endian
zero_iff [] = (λ _. refl, λ _. refl)
zero_iff (b ∷ s) =
    let some_digit : 0 < b → 0 * weight s + weight s ≤ b * weight s = next-le 0 b (weight s) in
    let no_digit : b ≡ 0 → b * weight s ≡ 0 * weight s = ap (λ z. z * weight s) in
    ground (arith, zero_iff s, some_digit, no_digit, weight-positive s)

-- The order of the curve's group, and half of it.
abbrev pub n : ℕ
n = 0xffffffff00000000ffffffffffffffffbce6faada7179e84f3b9cac2fc632551

abbrev pub InRange : Bytes → Type 0
InRange signature =
    (0 < big_endian (take 32 signature))
    × (big_endian (take 32 signature) < n)
    × (0 < big_endian (drop 32 signature))
    × (big_endian (drop 32 signature) ≤ n / 2)

group_order-n : big_endian group_order ≡ n
unfolding big_endian
group_order-n = refl

half_n-n : big_endian half_n ≡ n / 2
unfolding big_endian half_n
half_n-n = refl

half_n-AreBytes : AreBytes half_n
unfolding half_n
half_n-AreBytes = omega arith

half_n-length : length half_n ≡ 32
unfolding half_n
half_n-length = refl

-- The checks on the two halves of a signature.
halves_iff :
    (r s : Bytes)
    → AreBytes r
    → AreBytes s
    → length r ≡ 32
    → length s ≡ 32
    → ((equal r (replicate 32 0) || equal s (replicate 32 0) ≡ false)
        × (not (array_ltb r group_order) || not (array_ltb s group_order) ≡ false)
        × (array_ltb half_n s ≡ false))
      ↔ ((0 < big_endian r) × (big_endian r < n) × (0 < big_endian s) × (big_endian s ≤ n / 2))
halves_iff r s hr hs lr ls =
    let zr : (equal r (replicate 32 0) ≡ true) ↔ (big_endian r ≡ 0) = rw lr at (zero_iff r) in
    let zs : (equal s (replicate 32 0) ≡ true) ↔ (big_endian s ≡ 0) = rw ls at (zero_iff s) in
    let br = rw group_order-n at (array_ltb_iff r group_order hr (omega arith) lr) in
    let bs = rw group_order-n at (array_ltb_iff s group_order hs (omega arith) ls) in
    let hb : (array_ltb half_n s ≡ true) ↔ (n / 2 < big_endian s) =
      rw half_n-n at (array_ltb_iff half_n s half_n-AreBytes hs (half_n-length ∙ sym ls)) in
    ground (arith, zr, zs, br, bs, hb)

three_checks_iff :
    (a b c : Bool)
    → (refuse a >> (refuse b >> refuse c) ≡ ok tt) ↔ ((a ≡ false) × (b ≡ false) × (c ≡ false))
three_checks_iff a b c = ground arith

-- A signature of 64 bytes passes exactly when its first half, as a number, is positive and less than the group order, and
-- its second half is positive and at most half of the group order.
pub validate_rs_range-eq-ok_iff :
    (signature : Bytes)
    → AreBytes signature
    → length signature ≡ 64
    → (validate_rs_range signature ≡ ok tt) ↔ InRange signature
unfolding validate_rs_range
validate_rs_range-eq-ok_iff signature bytes size =
    let r = take 32 signature in
    let s = drop 32 signature in
    let whole = take-append-drop 32 signature in
    let split : AreBytes (r ++ s) = rw (← whole) at bytes in
    let ls : length s ≡ 32 = omega (arith, length-drop 32 signature, size) in
    let lr : length r ≡ 32 = omega (arith, length-append r s, ap length whole, ls, size) in
    let halves =
      halves_iff r s (All-left (λ b. b < 256) r s split) (All-right (λ b. b < 256) r s split) lr
        ls in
    let checks =
      three_checks_iff (equal r (replicate 32 0) || equal s (replicate 32 0))
        (not (array_ltb r group_order) || not (array_ltb s group_order)) (array_ltb half_n s) in
    (λ h. halves.0 (checks.0 h), λ k. checks.1 (halves.1 k))
