-- ===== src/Tests/Values.antt =====
-- The properties of the JSON values, bounds and selectors at concrete inputs.
use bounded_authority_protoc.Selector.Identity.{semantic_identity}
use mathlib.Core.Bool.{xor}
use bounded_authority_protoc.Selector.Lookup.{
  extract_path, member_str, recognized_member_set, traverse,
}
use mathlib.Core.List.{Permᴰ}
use mathlib.Core.List.Permᴰ.{swap}
use bounded_authority_protoc.Base.{
  ◌≡◌, ◌≢◌, ◌↔◌, refl, true, some, [], ◌∷◌, arith, codes, ok, OnOk, equal,
}
use bounded_authority_protoc.Base.Int.{pos}
use bounded_authority_protoc.Bounds.{maximum, new}
use bounded_authority_protoc.Bounds.Tightening.{IsTight, new-IsTight}
use bounded_authority_protoc.Utf8.{IsUtf8, chars?}
use bounded_authority_protoc.Json.Value.{
  Json, Members, null, int, string, array, object, no_items, item, no_members, member, of_members,
}
use bounded_authority_protoc.Json.Text.{string_loop}
use bounded_authority_protoc.Json.Text.Rounds.{Runs, string_loop-Runs}
use bounded_authority_protoc.Json.Decode.{out_of_fuel, decode_run, json_decode}
use bounded_authority_protoc.Json.Decode.Fuel.{decode_run-terminates}
use bounded_authority_protoc.Json.Decode.Quotes.{json_decode-quote}
use bounded_authority_protoc.Jcs.Encode.{jcs_encode}
use bounded_authority_protoc.Jcs.Encode.MemberOrder.{jcs_encode-perm}
use bounded_authority_protoc.Selector.Evaluate.{
  validate, validate_v2, evaluate, evaluate_v2, eval_equals, eval_kind_v2, validate_equals,
  validate_kind, validate_kind_v2,
}
use bounded_authority_protoc.Selector.Evaluate.Versions.{evaluate_v2-extends}
use bounded_authority_protoc.Selector.Evaluate.Binding.{Binds, evaluate_v2-true_iff}
use bounded_authority_protoc.Tests.{no_floats}

decode_run-terminates_example : decode_run maximum (codes "[[1,{\"a\":2}") ≢ out_of_fuel
decode_run-terminates_example = decode_run-terminates maximum (codes "[[1,{\"a\":2}")

json_decode-quote_example :
    json_decode maximum (codes "{xa\":1}") ≡ json_decode maximum (codes "{\"a\":1}")
json_decode-quote_example = json_decode-quote maximum b'x' (codes "a\":1}") refl refl

string_loop-Runs_example : Runs (codes "ab\\n\"") [] (string_loop 5 (codes "ab\\n\"") [])
string_loop-Runs_example = string_loop-Runs 5 (codes "ab\\n\"") [] (omega arith)

abbrev a_b : Members
a_b = (codes "a", int (pos 1)) ∷ (codes "b", null) ∷ []

abbrev b_a : Members
b_a = (codes "b", null) ∷ (codes "a", int (pos 1)) ∷ []

a_IsUtf8 : IsUtf8 (codes "a")
unfolding chars?
a_IsUtf8 = (codes "a", refl)

b_IsUtf8 : IsUtf8 (codes "b")
unfolding chars?
b_IsUtf8 = (codes "b", refl)

two_swapped : Permᴰ a_b b_a
two_swapped = swap refl refl

jcs_encode-perm_example :
    jcs_encode maximum (object (of_members a_b)) ≡ jcs_encode maximum (object (of_members b_a))
jcs_encode-perm_example = jcs_encode-perm maximum a_b b_a two_swapped (a_IsUtf8, (b_IsUtf8, tt))

abbrev overrides : Json
overrides = object (member (codes "depth") (int (pos 3)) no_members)

new-IsTight_example : OnOk IsTight (new (some overrides))
new-IsTight_example = new-IsTight (some overrides)

abbrev selector : Json
selector = object (
    member (codes "kind") (string (codes "equals")) (
      member (codes "path") (array (item (string (codes "x")) no_items))
        (member (codes "value") (int (pos 3)) no_members)))

abbrev args : Json
args = object (member (codes "x") (int (pos 3)) no_members)

valid : validate selector maximum ≡ ok tt
unfolding validate member_str equal recognized_member_set xor validate_kind validate_equals
    extract_path jcs_encode
valid = refl

binds : evaluate_v2 selector args maximum ≡ ok true
unfolding evaluate_v2 validate_v2 member_str equal recognized_member_set xor validate_kind_v2
    validate_equals extract_path jcs_encode eval_kind_v2 eval_equals traverse semantic_identity
binds = refl

evaluate_v2-extends_example :
    (validate_v2 selector maximum ≡ ok tt)
    × (evaluate_v2 selector args maximum ≡ evaluate selector args maximum)
evaluate_v2-extends_example = evaluate_v2-extends selector args maximum valid

evaluate_v2-true_iff_example :
    (evaluate_v2 selector args maximum ≡ ok true) ↔ Binds selector args maximum
evaluate_v2-true_iff_example = evaluate_v2-true_iff selector args maximum
