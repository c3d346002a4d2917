-- ===== src/Bounds/Tightening.antt =====
-- The bounds that overrides give, for `Bounds::new` of sdks/rust/src/bounds.rs.
use bounded_authority_protoc.Base.{
  ℕ, ◌≤◌, ◌<◌, inl, inr, ◌&&◌, Option, none, some, List, [], ◌∷◌, arith, ltb, leb, ◌==◌, All, Bytes,
  equal, OnOk, OnOk-ok, OnOk-bind, Bool-cases,
}
use bounded_authority_protoc.Json.Value.{JsonValue, as_object, as_int}
use bounded_authority_protoc.Bounds.{
  Bounds, maximum, fixed_widths, Limit, limits, tighten, apply_fixed, apply_limits, apply_override,
  positive, override_all, new,
}

-- A value that a limit may have.
abbrev pub Fits : Limit → ℕ → Type 0
Fits l v = (0 < v) × (v ≤ l.get maximum)

-- Every limit is positive and at most its maximum.
abbrev pub IsTight : Bounds → Type 0
IsTight b = All (λ l. Fits l (l.get b)) limits

pub maximum-IsTight : IsTight maximum
maximum-IsTight = omega arith

abbrev KeepsTight : Limit → Type 0
KeepsTight l = (b : Bounds) (v : ℕ) → IsTight b → Fits l v → IsTight (l.put v b)

limits-KeepTight : All KeepsTight limits
limits-KeepTight = assumption

tighten-IsTight :
    (l : Limit) (v : ℕ) (b : Bounds) → KeepsTight l → IsTight b → OnOk IsTight (tighten l v b)
unfolding tighten
tighten-IsTight l v b keep h = elim (Bool-cases (ltb 0 v && leb v (l.get maximum))) [
  | inl e ↦ rw e (keep b v h (ground arith, ground arith))
  | inr e ↦ rw e tt
]

apply_fixed-IsTight :
    (ws : List (Bytes × ℕ)) (key : Bytes) (v : ℕ) (b : Bounds)
    → IsTight b
    → OnOk IsTight (apply_fixed ws key v b)
unfolding apply_fixed
apply_fixed-IsTight [] key v b h = tt
apply_fixed-IsTight ((name, width) ∷ rest) key v b h = elim (Bool-cases (equal key name)) [
  | inl e ↦ rw e (elim (Bool-cases (v == width)) [ inl w ↦ rw w h | inr w ↦ rw w tt ])
  | inr e ↦ rw e (apply_fixed-IsTight rest key v b h)
]

apply_limits-IsTight :
    (ls : List Limit) (key : Bytes) (v : ℕ) (b : Bounds)
    → All KeepsTight ls
    → IsTight b
    → OnOk IsTight (apply_limits ls key v b)
unfolding apply_limits
apply_limits-IsTight [] key v b keep h = apply_fixed-IsTight fixed_widths key v b h
apply_limits-IsTight (l ∷ rest) key v b keep h = elim (Bool-cases (equal key l.name)) [
  | inl e ↦ rw e (tighten-IsTight l v b keep.0 h)
  | inr e ↦ rw e (apply_limits-IsTight rest key v b keep.1 h)
]

pub apply_override-IsTight :
    (key : Bytes) (v : ℕ) (b : Bounds) → IsTight b → OnOk IsTight (apply_override key v b)
unfolding apply_override
apply_override-IsTight key v b h = apply_limits-IsTight limits key v b limits-KeepTight h

module _ {F : Type 0} where
  override_all-IsTight :
      (ms : List (Bytes × JsonValue F)) (b : Bounds) → IsTight b → OnOk IsTight (override_all ms b)
  unfolding override_all
  override_all-IsTight [] b h = h
  override_all-IsTight ((key, value) ∷ rest) b h = OnOk-bind _ (as_int value) _ λ n _.
      OnOk-bind _ (positive n) _ λ v _.
        OnOk-bind _ (apply_override key v b) _
          λ b' e. override_all-IsTight rest b' (OnOk-ok _ _ (apply_override-IsTight key v b h) e)

  -- Whatever overrides are given, if `new` returns bounds then each of them is positive and at most its
  -- maximum.
  pub new-IsTight : (overrides : Option (JsonValue F)) → OnOk IsTight (new overrides)
  unfolding new
  new-IsTight none = maximum-IsTight
  new-IsTight (some overrides) =
      OnOk-bind _ (as_object overrides) _ λ ms _. override_all-IsTight ms maximum maximum-IsTight
