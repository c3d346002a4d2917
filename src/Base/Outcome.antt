-- ===== src/Base/Outcome.antt =====
-- `crate::error`: `Result<T>` with its one error value, and the `?` operator as a bind.
use mathlib.Core.Path.{◌≡◌, refl}
use mathlib.Core.Logic.{◌⊎◌, inl, inr}
use mathlib.Core.Bool.{Bool, true, false}
use mathlib.Core.Option.{Option, none, some}
use bounded_authority_protoc.Base.Tests.{if◌then◌else◌}

-- `Invalid` is a unit struct, so the error case carries nothing.
pub data Result {ℓ} (T : Type ℓ) : Type ℓ where
  invalid : Result T
  ok : T → Result T

infixl 5 ◌>>=◌ ◌>>◌
abbrev pub ◌>>=◌ {ℓ κ} : {A : Type ℓ} {B : Type κ} → Result A → (A → Result B) → Result B
invalid >>= next = invalid
ok value >>= next = next value

-- `check?;`
abbrev pub ◌>>◌ {ℓ} : {B : Type ℓ} → Result (Unit {0}) → Result B → Result B
check >> next = check >>= λ _. next

-- `if bad { return Err(Invalid); }` is `refuse bad`.
abbrev pub refuse : Bool → Result (Unit {0})
refuse true = invalid
refuse false = ok tt

-- `o.ok_or(Invalid)?`
abbrev pub ok_or {ℓ} : {A : Type ℓ} → Option A → Result A
ok_or none = invalid
ok_or (some a) = ok a

abbrev pub is_ok {ℓ} : {A : Type ℓ} → Result A → Bool
is_ok (ok _) = true
is_ok invalid = false

-- What a chain of steps that ends well has passed.
module _ {ℓ} {B : Type ℓ} {out : B} where
  pub >>=-eq-ok {κ} :
      {A : Type κ} (step : Result A) (next : A → Result B)
      → step >>= next ≡ ok out
      → (value : A) × (step ≡ ok value) × (next value ≡ ok out)
  >>=-eq-ok invalid next h = cc
  >>=-eq-ok (ok value) next h = (value, refl, h)

  pub >>-eq-ok :
      (check : Result (Unit {0})) (next : Result B)
      → check >> next ≡ ok out
      → (check ≡ ok tt) × (next ≡ ok out)
  >>-eq-ok invalid next h = cc
  >>-eq-ok (ok tt) next h = (refl, h)

-- A chain goes on behind a step that ends well.
pub >>=-ok {ℓ κ} :
    {A : Type ℓ} {B : Type κ} {value : A} {out : Result B} (step : Result A) (next : A → Result B)
    → step ≡ ok value
    → next value ≡ out
    → step >>= next ≡ out
>>=-ok step next e h = rw (e, ◌>>=◌) h

pub refuse_iff : (b : Bool) → refuse b ≡ ok tt → b ≡ false
refuse_iff true h = cc
refuse_iff false h = refl

pub Result-cases {ℓ} : {A : Type ℓ} (r : Result A) → ((a : A) × (r ≡ ok a)) ⊎ (r ≡ invalid)
Result-cases (ok a) = inl (a, refl)
Result-cases invalid = inr refl

-- `P` holds of the value, if there is one.
abbrev pub OnOk {ℓ κ} : {A : Type ℓ} → (A → Type κ) → Result A → Type κ
OnOk P (ok a) = P a
OnOk P invalid = Unit

pub OnOk-ok {ℓ κ} : {A : Type ℓ} (P : A → Type κ) (r : Result A) {a : A} → OnOk P r → r ≡ ok a → P a
OnOk-ok P r h e = rw e at h

pub OnOk-bind {ℓ κ ι} :
    {A : Type ℓ} {B : Type κ} (P : B → Type ι) (m : Result A) (f : A → Result B)
    → ((a : A) → m ≡ ok a → OnOk P (f a))
    → OnOk P (m >>= f)
OnOk-bind P (ok a) f h = h a refl
OnOk-bind P invalid f h = tt

pub Check-cases : (r : Result (Unit {0})) → (r ≡ ok tt) ⊎ (r ≡ invalid)
Check-cases (ok tt) = inl refl
Check-cases invalid = inr refl

-- Rules for a condition on the value of a chain of steps.
module _ {ℓ κ} {A : Type ℓ} (P : A → Type κ) where
  pub OnOk-if : (b : Bool) (x y : Result A) → OnOk P x → OnOk P y → OnOk P (if b then x else y)
  OnOk-if true x y h k = h
  OnOk-if false x y h k = k

  pub OnOk-check : (m : Result (Unit {0})) (r : Result A) → (m ≡ ok tt → OnOk P r) → OnOk P (m >> r)
  OnOk-check (ok tt) r h = h refl
  OnOk-check invalid r h = tt

  pub OnOk-all : (r : Result A) → ((a : A) → r ≡ ok a → P a) → OnOk P r
  OnOk-all (ok a) h = h a refl
  OnOk-all invalid h = tt

pub ok-injective {ℓ} : {A : Type ℓ} {a b : A} → ok a ≡ ok b → a ≡ b
ok-injective e = cc e
