-- ===== src/Base/Ascii.antt =====
-- Bytes and byte strings: `Vec<u8>`, `&[u8]` and, as its UTF-8 bytes, `String` are lists of numbers.
use Prim.Native.Nat.{ℕ, ◌+◌, ◌-◌, ◌<◌}
use Prim.Native.Char.{code}
use Prim.Native.String.{String}
use mathlib.Core.Path.{◌≡◌, refl}
use mathlib.Core.Logic.{◌↔◌, ◌≢◌, inl, inr}
use mathlib.Core.Bool.{Bool, true, false, ◌&&◌, ◌||◌}
use mathlib.Core.List.{List, [], ◌∷◌}
use native.Mathlib.Omega.{arith}
use bounded_authority_protoc.Base.Tests.{◌==◌, within, if◌then◌else◌, Bool-cases}
use bounded_authority_protoc.Base.Lists.{All}

abbrev pub Bytes : Type 0
Bytes = List ℕ

abbrev pub IsByte : ℕ → Type 0
IsByte b = b < 256

abbrev pub IsBytes : Bytes → Type 0
IsBytes = All IsByte

-- The bytes of an ASCII literal.
abbrev pub codes : String → Bytes
codes String.[] = []
codes (String.◌∷◌ c s) = code c ∷ codes s

-- `a == b` on slices, vectors, arrays and strings.
unfoldable pub equal : Bytes → Bytes → Bool
equal [] [] = true
equal (x ∷ xs) (y ∷ ys) = x == y && equal xs ys
equal _ _ = false

pub equal_iff : (s t : Bytes) → (equal s t ≡ true) ↔ (s ≡ t)
unfolding equal
equal_iff [] [] = (λ h. refl, λ e. refl)
equal_iff [] (d ∷ t) = ground arith
equal_iff (c ∷ s) [] = ground arith
equal_iff (c ∷ s) (d ∷ t) = ground (arith, equal_iff s t)

pub equal→eq : (a b : Bytes) → equal a b ≡ true → a ≡ b
equal→eq a b = (equal_iff a b).0

pub equal_refl : (a : Bytes) → equal a a ≡ true
equal_refl a = (equal_iff a a).1 refl

-- `u8::is_ascii_digit`, `is_ascii_alphabetic`, `is_ascii_alphanumeric`, `is_ascii_hexdigit`.
abbrev pub is_ascii_digit : ℕ → Bool
is_ascii_digit = within b'0' b'9'

abbrev pub is_ascii_alphabetic : ℕ → Bool
is_ascii_alphabetic c = within b'A' b'Z' c || within b'a' b'z' c

abbrev pub is_ascii_alphanumeric : ℕ → Bool
is_ascii_alphanumeric c = is_ascii_alphabetic c || is_ascii_digit c

abbrev pub is_ascii_hexdigit : ℕ → Bool
is_ascii_hexdigit c = is_ascii_digit c || within b'A' b'F' c || within b'a' b'f' c

abbrev pub to_ascii_lowercase : ℕ → ℕ
to_ascii_lowercase c = if within b'A' b'Z' c then c + 32 else c

abbrev pub to_ascii_uppercase : ℕ → ℕ
to_ascii_uppercase c = if within b'a' b'z' c then c - 32 else c

pub equal-false_iff : (a b : Bytes) → (equal a b ≡ false) ↔ (a ≢ b)
equal-false_iff a b = (
  λ h e. ground (arith, (equal_iff a b).1 e),
  λ ne. elim (Bool-cases (equal a b)) [ inl e ↦ absurd (ne (equal→eq a b e)) | inr e ↦ e ],
)
