-- ===== src/Ed25519/Canonical.antt =====
-- The byte tests of sdks/rust/src/ed25519.rs as conditions on the numbers that the bytes stand for.
use native.Mathlib.Nat.{pow-succ'}
use bounded_authority_protoc.Base.{
  ℕ, zero, suc, ◌+◌, ◌-◌, ◌*◌, ◌^◌, ◌/◌, ◌%◌, ◌<◌, ◌≡◌, ◌≢◌, ◌↔◌, refl, sym, ap, ◌∙◌, Bool, true,
  not, ◌&&◌, ◌||◌, subst, ◌⊎◌, [], ◌∷◌, ◌++◌, length, take, drop, all, All, All-left, All-right,
  take-append-drop, length-append, length-drop, Bytes, equal, arith, ◌==◌, leb,
}
use bounded_authority_protoc.Base64url.{index}
use bounded_authority_protoc.Ed25519.{
  canonical, middle, below_le, group_order_le, scalar_below_group_order,
}

-- The number that bytes stand for, the least significant first.
unfoldable pub little_endian : Bytes → ℕ
little_endian [] = 0
little_endian (b ∷ s) = b + 256 * little_endian s

abbrev pub AreBytes : Bytes → Type 0
AreBytes = All (λ b. b < 256)

equal_iff_number :
    (s t : Bytes)
    → AreBytes s
    → AreBytes t
    → length s ≡ length t
    → (equal s t ≡ true) ↔ (little_endian s ≡ little_endian t)
unfolding equal little_endian
equal_iff_number [] [] hs ht n = (λ _. refl, λ _. refl)
equal_iff_number [] (y ∷ t) hs ht n = absurd (omega (arith, n))
equal_iff_number (x ∷ s) [] hs ht n = absurd (omega (arith, n))
equal_iff_number (x ∷ s) (y ∷ t) (hx, hs) (hy, ht) n =
    let n' : length s ≡ length t = omega (arith, n) in
    let ih = equal_iff_number s t hs ht n' in ground (arith, ih)

below_le_iff :
    (s t : Bytes)
    → AreBytes s
    → AreBytes t
    → length s ≡ length t
    → (below_le s t ≡ true) ↔ (little_endian s < little_endian t)
unfolding below_le little_endian
below_le_iff [] [] hs ht n = ground arith
below_le_iff [] (y ∷ t) hs ht n = absurd (omega (arith, n))
below_le_iff (x ∷ s) [] hs ht n = absurd (omega (arith, n))
below_le_iff (x ∷ s) (y ∷ t) (hx, hs) (hy, ht) n =
    let n' : length s ≡ length t = omega (arith, n) in
    ground (arith, equal_iff_number s t hs ht n', below_le_iff s t hs ht n')

-- The order of the group, 2^252 and a remainder.
abbrev pub group_order : ℕ
group_order = 2 ^ 252 + 27742317777372353535851937790883648493

order-number :
    (little_endian group_order_le ≡ group_order)
    × AreBytes group_order_le
    × (length group_order_le ≡ 32)
unfolding little_endian group_order_le
order-number = (refl, omega arith, refl)

-- A scalar of 32 bytes passes exactly when its number is less than the group order.
pub scalar_below_group_order_iff :
    (s : Bytes)
    → AreBytes s
    → length s ≡ 32
    → (scalar_below_group_order s ≡ true) ↔ (little_endian s < group_order)
unfolding scalar_below_group_order
scalar_below_group_order_iff s bytes size =
    let (value, order_bytes, width) = order-number in
    rw value at (below_le_iff s group_order_le bytes order_bytes (size ∙ sym width))

weight : Bytes → ℕ
weight [] = 1
weight (b ∷ s) = 256 * weight s

weight-length : (s : Bytes) → weight s ≡ 256 ^ length s
unfolding weight
weight-length [] = refl
weight-length (b ∷ s) = ap (λ w. 256 * w) (weight-length s) ∙ sym (pow-succ' 256 (length s))

little_endian-lt : (s : Bytes) → AreBytes s → little_endian s < weight s
unfolding little_endian weight
little_endian-lt [] h = omega arith
little_endian-lt (b ∷ s) (h, k) = omega (arith, h, little_endian-lt s k)

all_ones_iff :
    (s : Bytes) → AreBytes s → (all (λ x. x == 0xff) s ≡ true) ↔ (little_endian s + 1 ≡ weight s)
unfolding little_endian weight
all_ones_iff [] h = ground arith
all_ones_iff (b ∷ s) (h, k) = ground (arith, all_ones_iff s k, little_endian-lt s k)

all_zeros_iff : (s : Bytes) → (all (λ x. x == 0x00) s ≡ true) ↔ (little_endian s ≡ 0)
unfolding little_endian
all_zeros_iff [] = ground arith
all_zeros_iff (b ∷ s) = ground (arith, all_zeros_iff s)

little_endian-snoc :
    (s : Bytes) (h : ℕ) → little_endian (s ++ (h ∷ [])) ≡ little_endian s + weight s * h
unfolding little_endian weight
little_endian-snoc [] h = omega arith
little_endian-snoc (b ∷ s) h = omega (arith, little_endian-snoc s h)

index-drop : (s rest : Bytes) (n h : ℕ) → drop n s ≡ h ∷ rest → index s n ≡ h
unfolding index
index-drop [] rest zero h e = cc
index-drop [] rest (suc n) h e = cc
index-drop (x ∷ s) rest zero h e = cc
index-drop (x ∷ s) rest (suc n) h e = index-drop s rest n h e

one : (s : Bytes) → length s ≡ 1 → (h : ℕ) × (s ≡ h ∷ [])
one [] n = absurd (omega (arith, n))
one (h ∷ []) n = (h, refl)
one (h ∷ k ∷ s) n = absurd (omega (arith, n))

-- 32 bytes are the first, 30 in the middle and the last.
parts :
    (b : Bytes)
    → length b ≡ 32
    → (b ≡ index b 0 ∷ (middle b ++ (index b 31 ∷ []))) × (length (middle b) ≡ 30)
unfolding index
parts [] n = absurd (omega (arith, n))
parts (x ∷ s) n =
    let (h, e) = one (drop 30 s) (omega (arith, length-drop 30 s, n)) in
    let at : index s 30 ≡ h = index-drop s [] 30 h e in
    let whole = take-append-drop 30 s in
    let whole' : take 30 s ++ (h ∷ []) ≡ s = rw e at whole in
    let size = ap length whole' in
    (rw (at, whole') refl, omega (arith, length-append (take 30 s) (h ∷ []), size, n))

abbrev pub field_prime : ℕ
field_prime = 2 ^ 255 - 19

-- The y-coordinate of an encoded point is reduced, and the sign of an x-coordinate of 0 is not set.
abbrev pub IsCanonicalPoint : Bytes → Type 0
IsCanonicalPoint b =
    (little_endian b % 2 ^ 255 < field_prime)
    × ((little_endian b / 2 ^ 255 ≡ 0)
        ⊎ ((little_endian b % 2 ^ 255 ≢ 1) × (little_endian b % 2 ^ 255 ≢ field_prime - 1)))

-- `canonical` by its first byte, its last byte and the two tests of the bytes between.
abbrev canonical_by : ℕ → ℕ → Bool → Bool → Bool
canonical_by low high ones zeros =
    not (high % 128 == 0x7f && (ones && leb 0xed low))
    && not (
        leb 0x80 high
        && (low == 0x01 && (zeros && high == 0x80) || low == 0xec && (ones && high == 0xff)))

-- `y` is the coordinate, whose top seven bits are `top`; `sign` is the bit above.
canonical_by_iff :
    (low m top sign y : ℕ) (ones zeros : Bool)
    → low < 256
    → m < 256 ^ 30
    → top < 128
    → sign < 2
    → (ones ≡ true) ↔ (m + 1 ≡ 256 ^ 30)
    → (zeros ≡ true) ↔ (m ≡ 0)
    → y ≡ low + 256 * m + 256 ^ 31 * top
    → (canonical_by low (top + 128 * sign) ones zeros ≡ true)
      ↔ ((y < field_prime) × ((sign ≡ 0) ⊎ ((y ≢ 1) × (y ≢ field_prime - 1))))
canonical_by_iff low m top sign y ones zeros hl hm ht hs ho hz e = ground arith

-- The coordinate and the sign in an encoding.
coordinate :
    (low m high : ℕ)
    → low < 256
    → m < 256 ^ 30
    → high < 256
    → ((low + 256 * (m + 256 ^ 30 * high)) % 2 ^ 255 ≡ low + 256 * m + 256 ^ 31 * (high % 128))
      × ((low + 256 * (m + 256 ^ 30 * high)) / 2 ^ 255 ≡ high / 128)
coordinate low m high hl hm hh = (omega (arith, hl, hm, hh), omega (arith, hl, hm, hh))

value_of :
    (b : Bytes)
    → length b ≡ 32
    → little_endian b ≡ index b 0 + 256 * (little_endian (middle b) + 256 ^ 30 * index b 31)
unfolding little_endian
value_of b size =
    let (shape, width) = parts b size in
    let room : weight (middle b) ≡ 256 ^ 30 = weight-length (middle b) ∙ ap (λ n. 256 ^ n) width in
    let last = little_endian-snoc (middle b) (index b 31) in
    let last' : little_endian (middle b ++ (index b 31 ∷ []))
        ≡ little_endian (middle b) + 256 ^ 30 * index b 31 =
      rw room at last in
    ap little_endian shape ∙ ap (λ n. index b 0 + 256 * n) last'

-- 32 bytes are canonical exactly when the coordinate that they stand for is less than 2^255 - 19 and, unless the sign
-- bit is clear, neither 1 nor -1, the two coordinates of points whose other coordinate is 0.
pub canonical_iff :
    (b : Bytes) → AreBytes b → length b ≡ 32 → (canonical b ≡ true) ↔ IsCanonicalPoint b
unfolding canonical
canonical_iff b bytes size =
    let low = index b 0 in
    let mid = middle b in
    let high = index b 31 in
    let (shape, width) = parts b size in
    let (hl, rest) : (low < 256) × AreBytes (mid ++ (high ∷ [])) = rw shape at bytes in
    let hm = All-left (λ x. x < 256) mid (high ∷ []) rest in
    let hh = (All-right (λ x. x < 256) mid (high ∷ []) rest).0 in
    let room : weight mid ≡ 256 ^ 30 = weight-length mid ∙ ap (λ n. 256 ^ n) width in
    let small : little_endian mid < 256 ^ 30 = omega (arith, little_endian-lt mid hm, room) in
    let ones : (all (λ x. x == 0xff) mid ≡ true) ↔ (little_endian mid + 1 ≡ 256 ^ 30) =
      rw room at (all_ones_iff mid hm) in
    let value = value_of b size in
    let (y_is, sign_is) = coordinate low (little_endian mid) high hl small hh in
    let y : little_endian b % 2 ^ 255 ≡ low + 256 * little_endian mid + 256 ^ 31 * (high % 128) =
      rw (← value) at y_is in
    let sign : little_endian b / 2 ^ 255 ≡ high / 128 = rw (← value) at sign_is in
    let whole : high % 128 + 128 * (little_endian b / 2 ^ 255) ≡ high = omega (arith, sign) in
    let test =
      λ (h : ℕ). canonical_by low h (all (λ x. x == 0xff) mid) (all (λ x. x == 0x00) mid) in
    subst (λ h. (test h ≡ true) ↔ IsCanonicalPoint b) whole
      (canonical_by_iff low (little_endian mid) (high % 128) (little_endian b / 2 ^ 255)
        (little_endian b % 2 ^ 255) (all (λ x. x == 0xff) mid) (all (λ x. x == 0x00) mid) hl small
        (omega arith) (omega (arith, sign, hh)) ones (all_zeros_iff mid) y)
