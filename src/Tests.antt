-- ===== src/Tests.antt =====
-- Runs of the definitions at concrete inputs; the modules below apply the properties at inputs that
-- meet their hypotheses.
mod Codecs
mod Values
mod Chains
mod Credentials
mod Targets
mod Vouchers
use bounded_authority_protoc.Base.{
  ℕ, ◌≡◌, refl, Bool, true, false, Option, none, some, List, [], ◌∷◌, ◌++◌, arith, Bytes, codes,
  Result, ok, invalid,
}
use bounded_authority_protoc.Base.Int.{ℤ, pos, negsuc}
use bounded_authority_protoc.Bounds.{Bounds, maximum}
use bounded_authority_protoc.Json.Value.{
  Float64, Json, null, int, float, string, array, object, no_items, item, no_members, member,
}
use bounded_authority_protoc.Json.Decode.{json_decode}
use bounded_authority_protoc.Jcs.Encode.{jcs_encode}

-- Floats for the tests: none is ever parsed.
instance abbrev pub no_floats : Float64
no_floats = record {
  Carrier = ℕ;
  is_finite = λ _. true;
  exceeds = λ _ _. false;
  eq = λ _ _. true;
  le = λ _ _. true;
  parse = λ _. some 0;
  format_finite = λ _. [];
}

abbrev sample : Json
sample = object (
    member (codes "b") (array (item (int (pos 12)) (item null no_items)))
      (member (codes "a") (string (codes "x\n")) no_members))

decode_sample : json_decode maximum (codes " {\"b\" : [12,null], \"a\":\"x\\n\"} ") ≡ ok sample
unfolding json_decode
decode_sample = refl

encode_sample : jcs_encode maximum sample ≡ ok (codes "{\"a\":\"x\\n\",\"b\":[12,null]}")
unfolding jcs_encode
encode_sample = refl

-- The opening byte of a member's name is not looked at.
decode_unquoted :
    json_decode maximum (codes "{xa\":1,}b\":-2}")
    ≡ ok
        (object (member (codes "a") (int (pos 1)) (member (codes "b") (int (negsuc 1)) no_members)))
unfolding json_decode
decode_unquoted = refl

decode_duplicate : json_decode maximum (codes "{\"a\":1,\"a\":2}") ≡ invalid
unfolding json_decode
decode_duplicate = refl

-- An exponent of more than three digits is taken for 1000, its leading zeros counted.
decode_exponent :
    (json_decode maximum (codes "1e1") ≡ ok (float 0))
    × (json_decode maximum (codes "1e0001") ≡ invalid)
unfolding json_decode
decode_exponent = (refl, refl)

decode_too_big : json_decode maximum (codes "9007199254740992") ≡ invalid
unfolding json_decode
decode_too_big = refl

decode_biggest : json_decode maximum (codes "9007199254740991") ≡ ok (int (pos 9007199254740991))
unfolding json_decode
decode_biggest = refl
