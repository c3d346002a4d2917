-- ===== src/Crypto.antt =====
-- What the crate takes of sha2 and ed25519-dalek.
use bounded_authority_protoc.Base.{Bool, Bytes}

pub record Crypto : Type 0 where
  -- `Sha256` over the concatenation of all updates.
  pub sha256 : Bytes → Bytes
  -- `VerifyingKey::from_bytes(key).is_ok()`
  pub is_point : Bytes → Bool
  -- `vk.verify(message, &sig).is_ok()`, for the key, the message and the signature.
  pub verifies : Bytes → Bytes → Bytes → Bool
