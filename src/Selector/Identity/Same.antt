-- ===== src/Selector/Identity/Same.antt =====
-- Which values `semantic_identity` of sdks/rust/src/selector.rs takes for the same.
use bounded_authority_protoc.Base.{
  ◌≡◌, ◌↔◌, refl, sym, Bool, true, false, not, ◌&&◌, List, [], ◌∷◌, ◌==◌, if◌then◌else◌, length,
  any, map, All, ◌≢◌, ℕ, suc, Bytes, equal, equal_iff, equal-false_iff, Result, ok, invalid,
  &&_parts, arith,
}
use bounded_authority_protoc.Base.Distinct.{Different, Apart, Apart-cons, Apart-none}
use bounded_authority_protoc.Base.Int.{ℤ, eq_ℤ_iff}
use bounded_authority_protoc.Json.Value.{
  Float64, JsonItems, JsonMembers, Json, Members, null, bool, int, float, string, array, object,
  no_items, item, no_members, member, item_list, member_list,
}
use bounded_authority_protoc.Selector.Lookup.{member_value}
use bounded_authority_protoc.Selector.Lookup.Reaching.{
  IsFirst, member_value-IsFirst, IsFirst-member_value,
}
use bounded_authority_protoc.Selector.Identity.{
  unique_from, unique_keys, bool_eq, semantic_identity, identical_items, identical_members,
}

abbrev pub names {ℓ} : {A : Type ℓ} → List (Bytes × A) → List Bytes
names ms = map (λ m. m.0) ms

module _ ⦃fl : Float64⦄ where
  mutual
    -- Values of one tag, with the same content: arrays item by item, objects without repeated names as sets of
    -- members. Floats are compared as floats, and never with integers.
    pub data Same : Json → Json → Type 0 where
      nulls : Same null null
      bools : {b : Bool} → Same (bool b) (bool b)
      ints : {n : ℤ} → Same (int n) (int n)
      floats : {x y : fl.Carrier} → fl.eq x y ≡ true → Same (float x) (float y)
      strings : {s : Bytes} → Same (string s) (string s)
      arrays :
          {xs ys : JsonItems fl.Carrier} → SameItems xs (item_list ys) → Same (array xs) (array ys)
      objects :
          {xs ys : JsonMembers fl.Carrier}
          → Different (names (member_list xs))
          → Different (names (member_list ys))
          → length (member_list xs) ≡ length (member_list ys)
          → SameMembers xs (member_list ys)
          → Same (object xs) (object ys)

    pub data SameItems : JsonItems fl.Carrier → List Json → Type 0 where
      no_more : SameItems no_items []
      and_item :
          {x y : Json} {xs : JsonItems fl.Carrier} {ys : List Json}
          → Same x y
          → SameItems xs ys
          → SameItems (item x xs) (y ∷ ys)

    -- Each member of the first object has its name in the second, with the same value.
    pub data SameMembers : JsonMembers fl.Carrier → Members → Type 0 where
      none_left : {ys : Members} → SameMembers no_members ys
      and_member :
          {k : Bytes} {v w : Json} {xs : JsonMembers fl.Carrier} {ys : Members}
          → IsFirst ys k w
          → Same v w
          → SameMembers xs ys
          → SameMembers (member k v xs) ys

unseen_iff : (k : Bytes) (seen : List Bytes) → (any (equal k) seen ≡ false) ↔ All (λ s. s ≢ k) seen
unseen_iff k [] = (λ _. tt, λ _. refl)
unseen_iff k (s ∷ seen) = ground (arith, equal-false_iff k s, unseen_iff k seen)

unique_from_iff {ℓ} :
    {A : Type ℓ} (seen : List Bytes) (ms : List (Bytes × A))
    → (unique_from seen ms ≡ true) ↔ (Apart seen (names ms) × Different (names ms))
unfolding unique_from
unique_from_iff seen [] = (λ _. (tt, tt), λ _. refl)
unique_from_iff seen (m ∷ ms) = (
  λ h.
      let (new, rest) = &&_parts (not (any (equal m.0) seen)) _ h in
      let (apart, different) = (unique_from_iff (m.0 ∷ seen) ms).0 rest in
      let (later, others) = (Apart-cons m.0 seen (names ms)).0 apart in
      let unseen : any (equal m.0) seen ≡ false = ground (arith, new) in
      (((unseen_iff m.0 seen).0 unseen, others), (later, different)),
  λ ((new, others), (later, different)).
      let rest =
        (unique_from_iff (m.0 ∷ seen) ms).1
          ((Apart-cons m.0 seen (names ms)).1 (later, others), different) in
      simp ((unseen_iff m.0 seen).1 new, rest),
)

unique_keys_iff {ℓ} :
    {A : Type ℓ} (ms : List (Bytes × A)) → (unique_keys ms ≡ true) ↔ Different (names ms)
unfolding unique_keys
unique_keys_iff ms = (
  λ h. ((unique_from_iff [] ms).0 h).1,
  λ d. (unique_from_iff [] ms).1 (Apart-none (names ms), d),
)

bool_eq_iff : (x y : Bool) → (bool_eq x y ≡ true) ↔ (x ≡ y)
bool_eq_iff true y = (λ h. sym h, λ e. sym e)
bool_eq_iff false true = (λ h. cc, λ e. cc)
bool_eq_iff false false = (λ h. refl, λ e. refl)

module _ ⦃fl : Float64⦄ where
  object_parts :
      (a b n k : Bool)
      → (if not a then false else if not b then false else n && k) ≡ true
      → (a ≡ true) × (b ≡ true) × (n ≡ true) × (k ≡ true)
  object_parts a b n k h = ground arith

  objects_parts :
      (a b n k : Bool)
      → a ≡ true
      → b ≡ true
      → n ≡ true
      → k ≡ true
      → (if not a then false else if not b then false else n && k) ≡ true
  objects_parts a b n k ha hb hn hk = ground arith

  same_length : (a b : ℕ) → (a == b) ≡ true → a ≡ b
  same_length a b h = ground arith

  equal_length : (a b : ℕ) → a ≡ b → (a == b) ≡ true
  equal_length a b h = ground arith

  tail_length : (a b : ℕ) → (suc a == suc b) ≡ true → (a == b) ≡ true
  tail_length a b h = ground arith

  longer : (a b : ℕ) → (a == b) ≡ true → (suc a == suc b) ≡ true
  longer a b h = ground arith

  -- A match on what is found under a name.
  found :
      (v : Json) (r : Result Json)
      → elim r [ invalid ↦ false | ok w ↦ semantic_identity v w ] ≡ true
      → (w : Json) × (r ≡ ok w) × (semantic_identity v w ≡ true)
  found v invalid h = absurd (cc h)
  found v (ok w) h = (w, refl, h)

  mutual
    unfolding semantic_identity

    semantic_identity-Same : (x y : Json) → semantic_identity x y ≡ true → Same x y
    semantic_identity-Same null null h = nulls
    semantic_identity-Same (bool x) (bool y) h = rw ((bool_eq_iff x y).0 h) bools
    semantic_identity-Same (int x) (int y) h = rw ((eq_ℤ_iff x y).0 h) ints
    semantic_identity-Same (float x) (float y) h = floats h
    semantic_identity-Same (string x) (string y) h = rw ((equal_iff x y).0 h) strings
    semantic_identity-Same (array xs) (array ys) h =
        let (n, k) = &&_parts (length (item_list xs) == length (item_list ys)) _ h in
        arrays (identical_items-SameItems xs (item_list ys) n k)
    semantic_identity-Same (object xs) (object ys) h =
        let (a, b, n, k) =
          object_parts (unique_keys (member_list xs)) (unique_keys (member_list ys)) _ _ h in
        objects ((unique_keys_iff (member_list xs)).0 a) ((unique_keys_iff (member_list ys)).0 b)
          (same_length (length (member_list xs)) (length (member_list ys)) n)
          (identical_members-SameMembers xs (member_list ys) k)
    semantic_identity-Same _ _ h = absurd (cc h)

    identical_items-SameItems :
        (xs : JsonItems fl.Carrier) (ys : List Json)
        → (length (item_list xs) == length ys) ≡ true
        → identical_items xs ys ≡ true
        → SameItems xs ys
    identical_items-SameItems no_items [] n h = no_more
    identical_items-SameItems no_items (y ∷ ys) n h =
        let e = same_length 0 (suc (length ys)) n in absurd (omega (arith, e))
    identical_items-SameItems (item x xs) [] n h =
        let e = same_length (suc (length (item_list xs))) 0 n in absurd (omega (arith, e))
    identical_items-SameItems (item x xs) (y ∷ ys) n h =
        let (same, rest) = &&_parts (semantic_identity x y) _ h in
        and_item (semantic_identity-Same x y same)
          (identical_items-SameItems xs ys (tail_length (length (item_list xs)) (length ys) n) rest)

    identical_members-SameMembers :
        (xs : JsonMembers fl.Carrier) (ys : Members)
        → identical_members xs ys ≡ true
        → SameMembers xs ys
    identical_members-SameMembers no_members ys h = none_left
    identical_members-SameMembers (member k v xs) ys h =
        let (here, rest) =
          &&_parts (elim (member_value ys k) [ invalid ↦ false | ok w ↦ semantic_identity v w ]) _
            h in
        let (w, e, same) = found v (member_value ys k) here in
        and_member (member_value-IsFirst ys k w e) (semantic_identity-Same v w same)
          (identical_members-SameMembers xs ys rest)

  mutual
    unfolding semantic_identity

    Same-semantic_identity : {x y : Json} → Same x y → semantic_identity x y ≡ true
    Same-semantic_identity nulls = refl
    Same-semantic_identity (bools {b}) = (bool_eq_iff b b).1 refl
    Same-semantic_identity (ints {n}) = (eq_ℤ_iff n n).1 refl
    Same-semantic_identity (floats h) = h
    Same-semantic_identity (strings {s}) = (equal_iff s s).1 refl
    Same-semantic_identity (arrays {xs} {ys} h) = SameItems-identical_items h
    Same-semantic_identity (objects {xs} {ys} a b n h) =
        objects_parts (unique_keys (member_list xs)) (unique_keys (member_list ys)) _ _
          ((unique_keys_iff (member_list xs)).1 a) ((unique_keys_iff (member_list ys)).1 b)
          (equal_length (length (member_list xs)) (length (member_list ys)) n)
          (SameMembers-identical_members h)

    SameItems-identical_items :
        {xs : JsonItems fl.Carrier} {ys : List Json}
        → SameItems xs ys
        → ((length (item_list xs) == length ys) && identical_items xs ys) ≡ true
    SameItems-identical_items no_more = refl
    SameItems-identical_items (and_item {xs = xs} {ys} same rest) =
        let (n, k) =
          &&_parts (length (item_list xs) == length ys) _ (SameItems-identical_items rest) in
        simp (Same-semantic_identity same, longer (length (item_list xs)) (length ys) n, k)

    SameMembers-identical_members :
        {xs : JsonMembers fl.Carrier} {ys : Members}
        → SameMembers xs ys
        → identical_members xs ys ≡ true
    SameMembers-identical_members none_left = refl
    SameMembers-identical_members (and_member first same rest) = simp (
      IsFirst-member_value first,
      Same-semantic_identity same,
      SameMembers-identical_members rest,
    )

  -- Two values are identical for the selectors exactly when they are the same: of one tag, with the same content.
  pub semantic_identity_iff : (x y : Json) → (semantic_identity x y ≡ true) ↔ Same x y
  semantic_identity_iff x y = (semantic_identity-Same x y, Same-semantic_identity)
