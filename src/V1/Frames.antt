-- ===== src/V1/Frames.antt =====
-- The frames of an archive in sdks/rust/src/v1.rs: `frame_into`, `read_frame`, `read_frame_bounded`.
-- The buffer and its cursor are the bytes from the cursor on.
pub mod RoundTrip
use bounded_authority_protoc.Base.{
  ℕ, ◌+◌, ◌*◌, ◌/◌, ◌%◌, ◌^◌, Bool, true, false, List, [], ◌∷◌, ◌++◌, ltb, ◌==◌, length, take, drop,
  Bytes, Result, ok, invalid, ◌>>=◌, ◌>>◌, refuse,
}

-- `(n as u32).to_be_bytes()`
abbrev pub to_be_bytes : ℕ → Bytes
to_be_bytes n = n / 2 ^ 24 % 256 ∷ n / 2 ^ 16 % 256 ∷ n / 2 ^ 8 % 256 ∷ n % 256 ∷ []

-- `u32::from_be_bytes`
abbrev pub from_be_bytes : ℕ → ℕ → ℕ → ℕ → ℕ
from_be_bytes b₀ b₁ b₂ b₃ = ((b₀ * 256 + b₁) * 256 + b₂) * 256 + b₃

unfoldable pub frame_into : Bytes → Bytes → Bytes
frame_into content out = out ++ (to_be_bytes (length content) ++ content)

-- The frame, and what follows it.
unfoldable pub read_frame : Bytes → Result (Bytes × Bytes)
read_frame (b₀ ∷ b₁ ∷ b₂ ∷ b₃ ∷ rest) = do
  let len = from_be_bytes b₀ b₁ b₂ b₃
  refuse (len == 0)
  refuse (ltb (length rest) len)
  ok (take len rest, drop len rest)
read_frame _ = invalid

unfoldable pub read_frame_bounded : Bytes → ℕ → Result (Bytes × Bytes)
unfolding read_frame
read_frame_bounded buf ceiling = do
  (frame, rest) ← read_frame buf
  refuse (ltb ceiling (length frame))
  ok (frame, rest)
