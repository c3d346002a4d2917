-- ===== src/Selector/Lookup/Reaching.antt =====
-- What the lookups of sdks/rust/src/selector.rs find: the first member of a name, a selector's path, and
-- the value behind a path.
use bounded_authority_protoc.Base.{
  ℕ, suc, ◌≡◌, ◌≢◌, ◌↔◌, refl, sym, ap, ◌∙◌, List, [], ◌∷◌, ◌==◌, ◌<◌, ◌≤◌, All, map, ltb, length,
  Bytes, codes, equal, equal→eq, equal_refl, equal-false_iff, ok, ◌>>=◌, refuse, >>=-eq-ok,
  >>-eq-ok, ok-injective, Bool-cases, inl, inr, arith,
}
use bounded_authority_protoc.Bounds.{Bounds}
use bounded_authority_protoc.Json.Value.{
  Float64, Json, Members, JsonItems, JsonMembers, string, array, object, item_list, member_list,
  as_array,
}
use bounded_authority_protoc.Selector.Lookup.{member_value, path_segments, extract_path, traverse}

-- The first member of the name has the value.
pub data IsFirst {ℓ} {A : Type ℓ} : List (Bytes × A) → Bytes → A → Type ℓ where
  here : {k : Bytes} {v : A} {ms : List (Bytes × A)} → IsFirst ((k, v) ∷ ms) k v
  behind :
      {k : Bytes} {v : A} {m : Bytes × A} {ms : List (Bytes × A)}
      → m.0 ≢ k
      → IsFirst ms k v
      → IsFirst (m ∷ ms) k v

module _ {ℓ} {A : Type ℓ} where
  pub member_value-IsFirst :
      (ms : List (Bytes × A)) (k : Bytes) (v : A) → member_value ms k ≡ ok v → IsFirst ms k v
  unfolding member_value
  member_value-IsFirst [] k v h = absurd (cc h)
  member_value-IsFirst ((n, w) ∷ ms) k v h = elim (Bool-cases (equal n k)) [
    | inl e ↦
        (let h' : ok w ≡ ok v = rw (e, member_value) at h in
          let same : w ≡ v = ok-injective h' in
          let name : n ≡ k = equal→eq n k e in rw (sym name, sym same) here)
    | inr e ↦
        behind ((equal-false_iff n k).0 e) (member_value-IsFirst ms k v (rw (e, member_value) at h))
  ]

  pub IsFirst-member_value :
      {ms : List (Bytes × A)} {k : Bytes} {v : A} → IsFirst ms k v → member_value ms k ≡ ok v
  unfolding member_value
  IsFirst-member_value {ms = []} f = elim f [ ]
  IsFirst-member_value {ms = (k, v) ∷ ms} here = rw (equal_refl k) refl
  IsFirst-member_value {ms = m ∷ ms} {k} (behind ne f) =
      rw ((equal-false_iff m.0 k).1 ne) (IsFirst-member_value f)

module _ ⦃fl : Float64⦄ where
  -- A path as a selector may have it: it is not empty, and its names are not empty and fit the bounds.
  pub record IsPath (members : Members) (bounds : Bounds) (path : List Bytes) : Type 0 where
    pub items : JsonItems fl.Carrier
    pub is_member : IsFirst members (codes "path") (array items)
    pub names : item_list items ≡ map string path
    pub some_name : 0 < length path
    pub few : length path ≤ bounds.path_segments
    pub fit : All (λ s. (0 < length s) × (length s ≤ bounds.key_bytes)) path

  -- The value behind a path: at each name the first member of it, through objects only.
  pub data Reaches : Json → List Bytes → Json → Type 0 where
    arrived : {v : Json} → Reaches v [] v
    through :
        {ms : JsonMembers fl.Carrier} {seg : Bytes} {path : List Bytes} {next v : Json}
        → IsFirst (member_list ms) seg next
        → Reaches next path v
        → Reaches (object ms) (seg ∷ path) v

  abbrev Fits : ℕ → Bytes → Type 0
  Fits key_bytes s = (0 < length s) × (length s ≤ key_bytes)

  path_segments-names :
      (key_bytes : ℕ) (arr : List Json) (path : List Bytes)
      → path_segments key_bytes arr ≡ ok path
      → (arr ≡ map string path) × All (Fits key_bytes) path
  unfolding path_segments
  path_segments-names key_bytes [] path h =
      let e : [] ≡ path = ok-injective h in rw (sym e) (refl, tt)
  path_segments-names key_bytes (string s ∷ rest) path h =
      let (some, h₁) = >>-eq-ok (refuse (length s == 0)) _ h in
      let (few, h₂) = >>-eq-ok (refuse (ltb key_bytes (length s))) _ h₁ in
      let (names, e, h₃) = >>=-eq-ok (path_segments key_bytes rest) (λ p. ok (s ∷ p)) h₂ in
      let (same, fit) = path_segments-names key_bytes rest names e in
      let whole : (s ∷ names) ≡ path = ok-injective h₃ in
      let fits : Fits key_bytes s = (ground (arith, some), ground (arith, few)) in
      rw (sym whole, same) (refl, (fits, fit))
  path_segments-names key_bytes (_ ∷ rest) path h = absurd (cc h)

  names-path_segments :
      (key_bytes : ℕ) (path : List Bytes)
      → All (Fits key_bytes) path
      → path_segments key_bytes (map string path) ≡ ok path
  unfolding path_segments
  names-path_segments key_bytes [] fit = refl
  names-path_segments key_bytes (s ∷ path) fit =
      let some : refuse (length s == 0) ≡ ok tt = ground (arith, fit.0.0) in
      let few : refuse (ltb key_bytes (length s)) ≡ ok tt = ground (arith, fit.0.1) in
      simp (some, few, names-path_segments key_bytes path fit.1)

  pub as_array-items :
      (raw : Json) (arr : List Json)
      → as_array raw ≡ ok arr
      → (items : JsonItems fl.Carrier) × (raw ≡ array items) × (item_list items ≡ arr)
  as_array-items (array items) arr h = (items, refl, ok-injective h)
  as_array-items _ arr h = absurd (cc h)

  length-map : (path : List Bytes) → length {A = Json} (map string path) ≡ length path
  length-map [] = refl
  length-map (s ∷ path) = ap suc (length-map path)

  extract_path-IsPath :
      (members : Members) (bounds : Bounds) (path : List Bytes)
      → extract_path members (codes "path") bounds ≡ ok path
      → IsPath members bounds path
  unfolding extract_path
  extract_path-IsPath members bounds path h =
      let (raw, e, h₁) = >>=-eq-ok (member_value members (codes "path")) _ h in
      let (arr, e₁, h₂) = >>=-eq-ok (as_array raw) _ h₁ in
      let (some, h₃) = >>-eq-ok (refuse (length arr == 0)) _ h₂ in
      let (few, h₄) = >>-eq-ok (refuse (ltb bounds.path_segments (length arr))) _ h₃ in
      let (names, fit) = path_segments-names bounds.key_bytes arr path h₄ in
      let (items, raw_is, items_are) = as_array-items raw arr e₁ in
      let n : length arr ≡ length path = ap length names ∙ length-map path in
      record {
        items = items;
        is_member = member_value-IsFirst members (codes "path") (array items) (e ∙ ap ok raw_is);
        names = items_are ∙ names;
        some_name = rw n at (not_empty (length arr) some);
        few = rw n at (not_over bounds.path_segments (length arr) few);
        fit = fit;
      }
    where
      not_empty : (n : ℕ) → refuse (n == 0) ≡ ok tt → 0 < n
      not_empty n h = ground arith

      not_over : (limit n : ℕ) → refuse (ltb limit n) ≡ ok tt → n ≤ limit
      not_over limit n h = ground arith

  IsPath-extract_path :
      (members : Members) (bounds : Bounds) (path : List Bytes)
      → IsPath members bounds path
      → extract_path members (codes "path") bounds ≡ ok path
  unfolding extract_path
  IsPath-extract_path members bounds path p =
      let n = length-map path in
      let some : refuse (length path == 0) ≡ ok tt = ground (arith, p.some_name) in
      let few : refuse (ltb bounds.path_segments (length path)) ≡ ok tt = ground (arith, p.few) in
      simp (
        IsFirst-member_value p.is_member,
        p.names,
        n,
        some,
        few,
        names-path_segments bounds.key_bytes path p.fit,
      )

  pub extract_path_iff :
      (members : Members) (bounds : Bounds) (path : List Bytes)
      → (extract_path members (codes "path") bounds ≡ ok path) ↔ IsPath members bounds path
  extract_path_iff members bounds path =
      (extract_path-IsPath members bounds path, IsPath-extract_path members bounds path)

  traverse-Reaches :
      (current : Json) (path : List Bytes) (v : Json)
      → traverse current path ≡ ok v
      → Reaches current path v
  unfolding traverse
  traverse-Reaches current [] v h = rw (sym (ok-injective h)) arrived
  traverse-Reaches (object ms) (seg ∷ path) v h =
      let (next, e, h₁) = >>=-eq-ok (member_value (member_list ms) seg) _ h in
      through (member_value-IsFirst (member_list ms) seg next e) (traverse-Reaches next path v h₁)
  traverse-Reaches _ (seg ∷ path) v h = absurd (cc h)

  Reaches-traverse :
      {current : Json} {path : List Bytes} {v : Json}
      → Reaches current path v
      → traverse current path ≡ ok v
  unfolding traverse
  Reaches-traverse arrived = refl
  Reaches-traverse (through f r) = rw (IsFirst-member_value f, ◌>>=◌) (Reaches-traverse r)

  pub traverse_iff :
      (current : Json) (path : List Bytes) (v : Json)
      → (traverse current path ≡ ok v) ↔ Reaches current path v
  traverse_iff current path v = (traverse-Reaches current path v, Reaches-traverse)
