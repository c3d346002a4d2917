-- ===== src/Es256.antt =====
-- sdks/rust/src/es256.rs: the gate on P-256 keys and signatures in front of the library's verification.
pub mod Range
use bounded_authority_protoc.Base.{
  ℕ, ◌+◌, ◌*◌, ◌/◌, ◌%◌, Bool, true, false, not, ◌&&◌, ◌||◌, List, [], ◌∷◌, ltb, ◌==◌,
  if◌then◌else◌, take, drop, replicate, Bytes, equal, Result, ok, invalid, ◌>>◌, ◌>>=◌, refuse,
}
use bounded_authority_protoc.Base64url.{index}

-- What is taken of p256: whether an uncompressed point is on the curve (its coordinates in range), and the verification
-- of a signature over a message, by the key, the message and the signature.
pub record P256 : Type 0 where
  pub on_curve : Bytes → Bool
  pub verifies : Bytes → Bytes → Bytes → Bool

-- `N`, most significant byte first.
abbrev pub group_order : Bytes
group_order =
    0xff ∷ 0xff ∷ 0xff ∷ 0xff ∷ 0x00 ∷ 0x00 ∷ 0x00 ∷ 0x00 ∷ 0xff ∷ 0xff ∷ 0xff ∷ 0xff ∷ 0xff ∷ 0xff
    ∷ 0xff ∷ 0xff ∷ 0xbc ∷ 0xe6 ∷ 0xfa ∷ 0xad ∷ 0xa7 ∷ 0x17 ∷ 0x9e ∷ 0x84 ∷ 0xf3 ∷ 0xb9 ∷ 0xca
    ∷ 0xc2 ∷ 0xfc ∷ 0x63 ∷ 0x25 ∷ 0x51 ∷ []

-- The bytes shifted right by one bit, behind a byte whose last bit moves in.
unfoldable pub shr1_after : ℕ → Bytes → Bytes
shr1_after before [] = []
shr1_after before (b ∷ v) = (b / 2 + before % 2 * 128) ∷ shr1_after b v

abbrev pub shr1 : Bytes → Bytes
shr1 = shr1_after 0

unfoldable pub half_n : Bytes
unfolding shr1_after
half_n = shr1 group_order

-- `<` on arrays of one length.
unfoldable pub array_ltb : Bytes → Bytes → Bool
array_ltb (x ∷ s) (y ∷ t) = let rest = array_ltb s t in ltb x y || (x == y && rest)
array_ltb _ _ = false

unfoldable pub validate_rs_range : Bytes → Result (Unit {0})
unfolding array_ltb equal half_n
validate_rs_range signature = do
  let r = take 32 signature
  let s = drop 32 signature
  let zero = replicate 32 0
  refuse (equal r zero || equal s zero)
  refuse (not (array_ltb r group_order) || not (array_ltb s group_order))
  refuse (array_ltb half_n s)

module _ ⦃curve : P256⦄ where
  unfoldable pub validate_point : Bytes → Result (Unit {0})
  unfolding index
  validate_point public_key = do
    refuse (not (index public_key 0 == 0x04))
    refuse (not (curve.on_curve public_key))

  unfoldable pub verify : Bytes → Bytes → Bytes → Result (Unit {0})
  unfolding validate_point validate_rs_range
  verify public_key message signature = do
    validate_point public_key
    validate_rs_range signature
    refuse (not (curve.verifies public_key message signature))
