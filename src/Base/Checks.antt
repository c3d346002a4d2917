-- ===== src/Base/Checks.antt =====
-- What the checks of a chain of steps say, when they are passed.
use mathlib.Core.Path.{◌≡◌, refl}
use mathlib.Core.Bool.{Bool, true, false, not}
use mathlib.Core.Logic.{◌↔◌}
use Prim.Native.Nat.{ℕ, ◌≤◌}
use native.Mathlib.Omega.{arith}
use bounded_authority_protoc.Base.Tests.{ltb, ◌==◌}
use bounded_authority_protoc.Base.Ascii.{Bytes, equal, equal_iff}
use bounded_authority_protoc.Base.Outcome.{ok, refuse}

pub refuse-not_iff : (b : Bool) → (refuse (not b) ≡ ok tt) ↔ (b ≡ true)
refuse-not_iff true = (λ _. refl, λ _. refl)
refuse-not_iff false = (λ h. cc, λ h. cc)

-- `if a != b { return Err(Invalid); }`
pub refuse-equal_iff : (a b : Bytes) → (refuse (not (equal a b)) ≡ ok tt) ↔ (a ≡ b)
refuse-equal_iff a b = (
  λ h. (equal_iff a b).0 ((refuse-not_iff (equal a b)).0 h),
  λ e. (refuse-not_iff (equal a b)).1 ((equal_iff a b).1 e),
)

-- `if a > limit { return Err(Invalid); }`
pub refuse-over_iff : (limit a : ℕ) → (refuse (ltb limit a) ≡ ok tt) ↔ (a ≤ limit)
refuse-over_iff limit a = ground arith

pub refuse-size_iff : (a n : ℕ) → (refuse (not (a == n)) ≡ ok tt) ↔ (a ≡ n)
refuse-size_iff a n = ground arith
