-- ===== src/Json/Value.antt =====
-- `JsonValue` of sdks/rust/src/json.rs. `Vec<JsonValue>` and `Vec<(String, JsonValue)>` are list types
-- of their own, with their conversions to lists.
use bounded_authority_protoc.Base.{
  ℕ, ◌≡◌, refl, ap, Bool, Option, List, [], ◌∷◌, Bytes, Result, ok, invalid,
}
use bounded_authority_protoc.Base.Int.{ℤ}

-- `f64` with the operations that the crate uses: the language's, and `ryu_js` for `format_finite`.
-- `exceeds f n` is `f.abs() > n as f64`.
pub record Float64 : Type 1 where
  pub Carrier : Type 0
  pub is_finite : Carrier → Bool
  pub exceeds : Carrier → ℕ → Bool
  pub eq : Carrier → Carrier → Bool
  pub le : Carrier → Carrier → Bool
  pub parse : Bytes → Option Carrier
  pub format_finite : Carrier → Bytes

mutual
  pub data JsonValue (F : Type 0) : Type 0 where
    null : JsonValue F
    bool : Bool → JsonValue F
    int : ℤ → JsonValue F
    float : F → JsonValue F
    string : Bytes → JsonValue F
    array : JsonItems F → JsonValue F
    object : JsonMembers F → JsonValue F

  pub data JsonItems (F : Type 0) : Type 0 where
    no_items : JsonItems F
    item : JsonValue F → JsonItems F → JsonItems F

  pub data JsonMembers (F : Type 0) : Type 0 where
    no_members : JsonMembers F
    member : Bytes → JsonValue F → JsonMembers F → JsonMembers F

module _ {F : Type 0} where
  abbrev pub item_list : JsonItems F → List (JsonValue F)
  item_list no_items = []
  item_list (item v vs) = v ∷ item_list vs

  abbrev pub of_items : List (JsonValue F) → JsonItems F
  of_items [] = no_items
  of_items (v ∷ vs) = item v (of_items vs)

  abbrev pub member_list : JsonMembers F → List (Bytes × JsonValue F)
  member_list no_members = []
  member_list (member k v ms) = (k, v) ∷ member_list ms

  abbrev pub of_members : List (Bytes × JsonValue F) → JsonMembers F
  of_members [] = no_members
  of_members ((k, v) ∷ ms) = member k v (of_members ms)

  pub item_list-of_items : (vs : List (JsonValue F)) → item_list (of_items vs) ≡ vs
  item_list-of_items [] = refl
  item_list-of_items (v ∷ vs) = ap (◌∷◌ v) (item_list-of_items vs)

  pub member_list-of_members : (ms : List (Bytes × JsonValue F)) → member_list (of_members ms) ≡ ms
  member_list-of_members [] = refl
  member_list-of_members ((k, v) ∷ ms) = ap (◌∷◌ (k, v)) (member_list-of_members ms)

  -- `match v { JsonValue::Object(m) => m, _ => return Err(Invalid) }`, and so for the other tags.
  abbrev pub as_object : JsonValue F → Result (List (Bytes × JsonValue F))
  as_object (object ms) = ok (member_list ms)
  as_object _ = invalid

  abbrev pub as_array : JsonValue F → Result (List (JsonValue F))
  as_array (array vs) = ok (item_list vs)
  as_array _ = invalid

  abbrev pub as_string : JsonValue F → Result Bytes
  as_string (string s) = ok s
  as_string _ = invalid

  abbrev pub as_int : JsonValue F → Result ℤ
  as_int (int n) = ok n
  as_int _ = invalid

-- The values over the floats at hand.
abbrev pub Json : ⦃fl : Float64⦄ → Type 0
Json ⦃fl⦄ = JsonValue fl.Carrier

abbrev pub Members : ⦃fl : Float64⦄ → Type 0
Members ⦃fl⦄ = List (Bytes × JsonValue fl.Carrier)
