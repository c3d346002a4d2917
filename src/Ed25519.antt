-- ===== src/Ed25519.antt =====
-- sdks/rust/src/ed25519.rs: the strict gate in front of the library's verification.
pub mod Canonical
use bounded_authority_protoc.Base.{
  ℕ, zero, suc, ◌+◌, ◌-◌, ◌*◌, ◌/◌, ◌%◌, Bool, true, false, not, ◌&&◌, ◌||◌, List, [], ◌∷◌, ltb,
  leb, ◌==◌, within, if◌then◌else◌, length, take, drop, all, any, Bytes, codes, equal, Result, ok,
  invalid, ◌>>◌, refuse, is_ok,
}
use bounded_authority_protoc.Base64url.{index}
use bounded_authority_protoc.Crypto.{Crypto}

abbrev pub hex_nibble : ℕ → ℕ
hex_nibble c = if within b'0' b'9' c then c - b'0' else c - b'a' + 10

-- `hex32`: two digits for a byte.
unfoldable pub hex32 : Bytes → Bytes
hex32 (h ∷ l ∷ s) = (hex_nibble h * 16 + hex_nibble l) ∷ hex32 s
hex32 _ = []

-- `SMALL_ORDER`.
unfoldable pub small_order : List Bytes
unfolding hex32
small_order =
    hex32 (codes "0100000000000000000000000000000000000000000000000000000000000000")
    ∷ hex32 (codes "ecffffffffffffffffffffffffffffffffffffffffffffffffffffffffffff7f")
    ∷ hex32 (codes "0000000000000000000000000000000000000000000000000000000000000000")
    ∷ hex32 (codes "0000000000000000000000000000000000000000000000000000000000000080")
    ∷ hex32 (codes "26e8958fc2b227b045c3f489f2ef98f0d5dfac05d3c63339b13802886d53fc05")
    ∷ hex32 (codes "26e8958fc2b227b045c3f489f2ef98f0d5dfac05d3c63339b13802886d53fc85")
    ∷ hex32 (codes "c7176a703d4dd84fba3c0b760d10670f2a2053fa2c39ccc64ec7fd7792ac037a")
    ∷ hex32 (codes "c7176a703d4dd84fba3c0b760d10670f2a2053fa2c39ccc64ec7fd7792ac03fa")
    ∷ []

-- `GROUP_ORDER_LE`.
unfoldable pub group_order_le : Bytes
unfolding hex32
group_order_le = hex32 (codes "edd3f55c1a631258d69cf7a2def9de1400000000000000000000000000000010")

unfoldable pub is_small_order : Bytes → Bool
unfolding small_order equal
is_small_order encoding = any (λ entry. equal entry encoding) small_order

-- `b[1..31]`
abbrev pub middle : Bytes → Bytes
middle b = take 30 (drop 1 b)

-- `& 0x7f` is `% 128`, and `& 0x80 != 0` holds from 128 on.
unfoldable pub canonical : Bytes → Bool
unfolding index
canonical b =
    let low = index b 0 in
    let high = index b 31 in
    not (high % 128 == 0x7f && (all (λ x. x == 0xff) (middle b) && leb 0xed low))
    && not (
        leb 0x80 high
        && (low == 0x01 && (all (λ x. x == 0x00) (middle b) && high == 0x80)
            || low == 0xec && (all (λ x. x == 0xff) (middle b) && high == 0xff)))

-- The comparison of two encodings of one length, from the last byte down to the first.
unfoldable pub below_le : Bytes → Bytes → Bool
below_le (x ∷ s) (y ∷ t) = let above = below_le s t in if equal s t then ltb x y else above
below_le _ _ = false

unfoldable pub scalar_below_group_order : Bytes → Bool
unfolding below_le group_order_le equal
scalar_below_group_order s = below_le s group_order_le

unfoldable pub signature_gate : Bytes → Bool
unfolding canonical is_small_order scalar_below_group_order
signature_gate signature =
    let r = take 32 signature in
    canonical r && (not (is_small_order r) && scalar_below_group_order (drop 32 signature))

unfoldable pub strict_gate : Bytes → Bytes → Bool
unfolding canonical is_small_order signature_gate
strict_gate signature public_key =
    canonical public_key && (not (is_small_order public_key) && signature_gate signature)

module _ ⦃cr : Crypto⦄ where
  unfoldable pub verify : Bytes → Bytes → Bytes → Result (Unit {0})
  unfolding strict_gate
  verify public_key message signature = do
    refuse (not (strict_gate signature public_key))
    refuse (not (cr.is_point public_key))
    refuse (not (cr.verifies public_key message signature))

  unfoldable pub verify_strict : Bytes → Bytes → Bytes → Bool
  unfolding verify
  verify_strict message signature public_key =
      length signature == 64
      && (length public_key == 32 && is_ok (verify public_key message signature))

  unfoldable pub acceptable_public_key : Bytes → Bool
  unfolding canonical is_small_order
  acceptable_public_key key =
      length key == 32 && (canonical key && (not (is_small_order key) && cr.is_point key))
