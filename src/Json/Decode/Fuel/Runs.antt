-- ===== src/Json/Decode/Fuel/Runs.antt =====
-- Rules for a condition on the value of a run that has to end.
use bounded_authority_protoc.Base.{
  ◌≡◌, ◌≢◌, refl, Bool, true, false, if◌then◌else◌, Result, ok, invalid,
}
use bounded_authority_protoc.Json.Decode.{Run, done, fail, out_of_fuel, ◌>>=◌, ◌>>◌, fail_if, lift}

-- The fuel suffices, and `P` holds of the value, if there is one.
abbrev pub OnRun {ℓ} : {A : Type ℓ} → (A → Type 0) → Run A → Type 0
OnRun P (done a) = P a
OnRun P fail = Unit
OnRun P out_of_fuel = ⊥

pub OnRun-out_of_fuel {ℓ} : {A : Type ℓ} (P : A → Type 0) (r : Run A) → OnRun P r → r ≢ out_of_fuel
OnRun-out_of_fuel P (done a) h = λ e. cc
OnRun-out_of_fuel P fail h = λ e. cc
OnRun-out_of_fuel P out_of_fuel h = absurd h

module _ {ℓ} {A : Type ℓ} (P : A → Type 0) where
  pub OnRun-fail_if : (b : Bool) (r : Run A) → OnRun P r → OnRun P (fail_if b >> r)
  OnRun-fail_if true r h = tt
  OnRun-fail_if false r h = h

  pub OnRun-if :
      (b : Bool) (x y : Run A)
      → (b ≡ true → OnRun P x)
      → (b ≡ false → OnRun P y)
      → OnRun P (if b then x else y)
  OnRun-if true x y h k = h refl
  OnRun-if false x y h k = k refl

  pub OnRun-lift {κ} :
      {B : Type κ} (m : Result B) (f : B → Run A)
      → ((b : B) → m ≡ ok b → OnRun P (f b))
      → OnRun P (lift m >>= f)
  OnRun-lift (ok b) f h = h b refl
  OnRun-lift invalid f h = tt

  pub OnRun-bind {κ} :
      {B : Type κ} (Q : B → Type 0) (m : Run B) (f : B → Run A)
      → OnRun Q m
      → ((b : B) → Q b → OnRun P (f b))
      → OnRun P (m >>= f)
  OnRun-bind Q (done b) f h k = k b h
  OnRun-bind Q fail f h k = tt
  OnRun-bind Q out_of_fuel f h k = absurd h
