-- ===== src/Json/Closed/Reading.antt =====
-- What a closed object says under one of its names, for the checks on headers and payloads in sdks/rust/src/v1.rs.
use bounded_authority_protoc.Base.{
  ◌≡◌, ap, ◌∙◌, Option, List, Bytes, Result, ok, refuse-equal_iff, refuse-not_iff, >>=-eq-ok, ◌>>=◌,
}
use bounded_authority_protoc.Base.Int.{ℤ, eq_ℤ, eq_ℤ_iff}
use bounded_authority_protoc.Json.Value.{JsonValue, as_object}
use bounded_authority_protoc.Json.Closed.{
  unset, collect_closed, take_string, require_text, take_integral_date, require_int,
}

module _ {F : Type 0} (names : List Bytes) (value : JsonValue F) (name : Bytes) where
  unfoldable pub member_text : Result Bytes
  unfolding collect_closed
  member_text = do
    members ← as_object value
    vars ← collect_closed names members unset
    take_string (vars name)

  unfoldable pub member_int : Result ℤ
  unfolding collect_closed
  member_int = do
    members ← as_object value
    vars ← collect_closed names members unset
    take_integral_date (vars name)

module _ {F : Type 0} (v : Option (JsonValue F)) where
  pub require_text-take_string : (t : Bytes) → require_text v t ≡ ok tt → take_string v ≡ ok t
  require_text-take_string t h =
      let (s, e, k) = >>=-eq-ok (take_string v) _ h in e ∙ ap ok ((refuse-equal_iff s t).0 k)

  pub require_int-take_integral_date :
      (n : ℤ) → require_int v n ≡ ok tt → take_integral_date v ≡ ok n
  require_int-take_integral_date n h =
      let (k, e, same) = >>=-eq-ok (take_integral_date v) _ h in
      e ∙ ap ok ((eq_ℤ_iff k n).0 ((refuse-not_iff (eq_ℤ k n)).0 same))
