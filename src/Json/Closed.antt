-- ===== src/Json/Closed.antt =====
-- The loops that read an object with a closed set of members, in sdks/rust/src/v1.rs and jwk.rs: each
-- known name has a variable, which holds the last member of the name, and any other name is refused.
pub mod Reading
use bounded_authority_protoc.Base.{
  ℕ, Bool, not, Option, none, some, List, [], ◌∷◌, if◌then◌else◌, any, Bytes, equal, Result, ok,
  invalid, ◌>>=◌, ◌>>◌, refuse, ok_or,
}
use bounded_authority_protoc.Base.Int.{ℤ, pos, eq_ℤ}
use bounded_authority_protoc.Json.Value.{Float64, JsonValue, as_string, as_int}

-- The variables, by the names of their members.
abbrev pub Variables : Type 0 → Type 0
Variables F = Bytes → Option (JsonValue F)

module _ {F : Type 0} where
  abbrev pub unset : Variables F
  unset name = none

  unfoldable pub assign : Bytes → JsonValue F → Variables F → Variables F
  unfolding equal
  assign name val vars other = if equal other name then some val else vars other

  unfoldable pub collect_closed :
      List Bytes → List (Bytes × JsonValue F) → Variables F → Result (Variables F)
  unfolding assign
  collect_closed names [] vars = ok vars
  collect_closed names ((name, val) ∷ ms) vars = do
    refuse (not (any (equal name) names))
    collect_closed names ms (assign name val vars)

  -- `match v { Some(JsonValue::String(s)) => s, _ => return Err(Invalid) }`
  abbrev pub take_string : Option (JsonValue F) → Result Bytes
  take_string value = do v ← ok_or value; as_string v

  -- The same for one string, and for the number 1.
  abbrev pub require_text : Option (JsonValue F) → Bytes → Result (Unit {0})
  require_text value text = do s ← take_string value; refuse (not (equal s text))

  abbrev pub take_integral_date : Option (JsonValue F) → Result ℤ
  take_integral_date value = do v ← ok_or value; as_int v

  abbrev pub require_int : Option (JsonValue F) → ℤ → Result (Unit {0})
  require_int value k = do n ← take_integral_date value; refuse (not (eq_ℤ n k))
