-- ===== src/Selector/Identity.antt =====
-- `semantic_identity` of sdks/rust/src/selector.rs.
pub mod Same
use bounded_authority_protoc.Base.{
  Bool, true, false, not, ◌&&◌, List, [], ◌∷◌, ◌==◌, if◌then◌else◌, length, any, Bytes, equal, ok,
  invalid,
}
use bounded_authority_protoc.Base.Int.{eq_ℤ}
use bounded_authority_protoc.Json.Value.{
  Float64, JsonItems, JsonMembers, Json, Members, null, bool, int, float, string, array, object,
  no_items, item, no_members, member, item_list, member_list,
}
use bounded_authority_protoc.Selector.Lookup.{member_value}

-- `seen.insert(k)` for every name.
unfoldable pub unique_from {ℓ} : {A : Type ℓ} → List Bytes → List (Bytes × A) → Bool
unique_from seen [] = true
unique_from seen (m ∷ ms) = not (any (equal m.0) seen) && unique_from (m.0 ∷ seen) ms

unfoldable pub unique_keys {ℓ} : {A : Type ℓ} → List (Bytes × A) → Bool
unfolding unique_from
unique_keys members = unique_from [] members

-- `==` on booleans.
abbrev pub bool_eq : Bool → Bool → Bool
bool_eq true b = b
bool_eq false b = not b

module _ ⦃fl : Float64⦄ where
  unfoldable mutual
    unfolding unique_keys member_value

    pub semantic_identity : Json → Json → Bool
    semantic_identity null null = true
    semantic_identity (bool x) (bool y) = bool_eq x y
    semantic_identity (int x) (int y) = eq_ℤ x y
    semantic_identity (float x) (float y) = fl.eq x y
    semantic_identity (string x) (string y) = equal x y
    semantic_identity (array x) (array y) =
        length (item_list x) == length (item_list y) && identical_items x (item_list y)
    semantic_identity (object x) (object y) =
        if not (unique_keys (member_list x))
        then false
        else if not (unique_keys (member_list y))
        then false
        else length (member_list x) == length (member_list y) && identical_members x (member_list y)
    semantic_identity _ _ = false

    -- `x.iter().zip(y).all(…)`
    pub identical_items : JsonItems fl.Carrier → List Json → Bool
    identical_items no_items ys = true
    identical_items (item x xs) [] = true
    identical_items (item x xs) (y ∷ ys) = semantic_identity x y && identical_items xs ys

    -- Every member of `x` is in `y`, with an identical value.
    pub identical_members : JsonMembers fl.Carrier → Members → Bool
    identical_members no_members ys = true
    identical_members (member k v xs) ys =
        elim (member_value ys k) [ invalid ↦ false | ok w ↦ semantic_identity v w ]
        && identical_members xs ys
