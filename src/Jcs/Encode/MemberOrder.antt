-- ===== src/Jcs/Encode/MemberOrder.antt =====
-- The order of an object's members, for the encoder of sdks/rust/src/jcs.rs.
use mathlib.Core.Path.{fun_ext}
use mathlib.Core.List.{Permᴰ}
use mathlib.Core.List.Permᴰ
use mathlib.Core.List.Permᴰ.{nil, cons, swap, trans}
use bounded_authority_protoc.Base.{
  ℕ, suc, ◌≤◌, ◌≡◌, ◌≢◌, refl, sym, ap, ◌∙◌, inl, inr, false, ◌||◌, List, [], ◌∷◌, arith, ltb,
  Bytes, All, length, map, any, equal, Result, ok, invalid, refuse, Check-cases, equal-false_iff,
  >>-eq-ok, refuse_iff, ||_parts,
}
use bounded_authority_protoc.Utf8.{IsUtf8}
use bounded_authority_protoc.Json.Value.{Float64, Json, Members, object, of_members}
use bounded_authority_protoc.Bounds.{Bounds}
use bounded_authority_protoc.Jcs.Order.Sorting.{
  Names, Distinct, Names-perm, Distinct-perm, sort_by_name-perm,
}
use bounded_authority_protoc.Jcs.Encode.{
  Output, Encoder, check_names, counted, encode_object, encode_value, member_encoders, jcs_encode,
}

module _ {ℓ} {A : Type ℓ} where
  abbrev names : List (Bytes × A) → List Bytes
  names = map (λ m. m.0)

  -- What `check_names` accepts: short names, new to `seen` and to one another.
  record IsFresh (key_bytes : ℕ) (seen : List Bytes) (ms : List (Bytes × A)) : Type ℓ where
    short : Names (λ k. length k ≤ key_bytes) ms
    unseen : Names (λ k. any (equal k) seen ≡ false) ms
    distinct : Distinct ms

  Names-tail :
      (k : Bytes) (seen : List Bytes) (ms : List (Bytes × A))
      → Names (λ k'. any (equal k') (k ∷ seen) ≡ false) ms
      → Names (λ k'. any (equal k') seen ≡ false) ms × All (λ q. k ≢ q.0) ms
  Names-tail k seen [] h = (tt, tt)
  Names-tail k seen (m ∷ ms) h =
      let rest = Names-tail k seen ms h.1 in
      let (ne, fresh) = ||_parts (equal m.0 k) _ h.0 in
      ((fresh, rest.0), (λ e. (equal-false_iff m.0 k).0 ne (sym e), rest.1))

  Names-extend :
      (k : Bytes) (seen : List Bytes) (ms : List (Bytes × A))
      → Names (λ k'. any (equal k') seen ≡ false) ms
      → All (λ q. k ≢ q.0) ms
      → Names (λ k'. any (equal k') (k ∷ seen) ≡ false) ms
  Names-extend k seen [] h d = tt
  Names-extend k seen (m ∷ ms) h d =
      (simp ((equal-false_iff m.0 k).1 (λ e. d.0 (sym e)), h.0), Names-extend k seen ms h.1 d.1)

  check_names-IsFresh :
      (key_bytes : ℕ) (seen : List Bytes) (ms : List (Bytes × A))
      → check_names key_bytes seen (names ms) ≡ ok tt
      → IsFresh key_bytes seen ms
  unfolding check_names
  check_names-IsFresh key_bytes seen [] h = record { short = tt; unseen = tt; distinct = tt }
  check_names-IsFresh key_bytes seen (m ∷ ms) h =
      let (here, later) =
        >>-eq-ok (refuse (ltb key_bytes (length m.0) || any (equal m.0) seen)) _ h in
      let (fits, fresh) = ||_parts _ _ (refuse_iff _ here) in
      let rest = check_names-IsFresh key_bytes (m.0 ∷ seen) ms later in
      let tails = Names-tail m.0 seen ms rest.unseen in
      record {
        short = (ground arith, rest.short);
        unseen = (fresh, tails.0);
        distinct = (tails.1, rest.distinct);
      }

  IsFresh-check_names :
      (key_bytes : ℕ) (seen : List Bytes) (ms : List (Bytes × A))
      → IsFresh key_bytes seen ms
      → check_names key_bytes seen (names ms) ≡ ok tt
  unfolding check_names
  IsFresh-check_names key_bytes seen [] f = refl
  IsFresh-check_names key_bytes seen (m ∷ ms) f =
      let fits : ltb key_bytes (length m.0) ≡ false = ground arith in
      rw (fits, f.unseen.0)
        (IsFresh-check_names key_bytes (m.0 ∷ seen) ms (record {
          short = f.short.1;
          unseen = Names-extend m.0 seen ms f.unseen.1 f.distinct.0;
          distinct = f.distinct.1;
        }))

  IsFresh-perm :
      (key_bytes : ℕ) {ms ns : List (Bytes × A)}
      → Permᴰ ms ns
      → IsFresh key_bytes [] ms
      → IsFresh key_bytes [] ns
  IsFresh-perm key_bytes r f = record {
    short = Names-perm _ r f.short;
    unseen = Names-perm _ r f.unseen;
    distinct = Distinct-perm r f.distinct;
  }

  length-perm : {ms ns : List (Bytes × A)} → Permᴰ ms ns → length ms ≡ length ns
  length-perm nil = refl
  length-perm (cons e r) = ap suc (length-perm r)
  length-perm (swap e f) = refl
  length-perm (trans r s) = length-perm r ∙ length-perm s

  check_names-kept :
      (key_bytes : ℕ) {ms ns : List (Bytes × A)}
      → Permᴰ ms ns
      → check_names key_bytes [] (names ms) ≡ ok tt
      → check_names key_bytes [] (names ns) ≡ ok tt
  check_names-kept key_bytes {ms} {ns} r e =
      IsFresh-check_names key_bytes [] ns
        (IsFresh-perm key_bytes r (check_names-IsFresh key_bytes [] ms e))

  -- The check answers alike for every order.
  check_names-perm :
      (key_bytes : ℕ) {ms ns : List (Bytes × A)}
      → Permᴰ ms ns
      → check_names key_bytes [] (names ms) ≡ check_names key_bytes [] (names ns)
  check_names-perm key_bytes {ms} {ns} r =
      elim (Check-cases (check_names key_bytes [] (names ms))) [
        | inl e ↦ e ∙ sym (check_names-kept key_bytes r e)
        | inr e ↦ elim (Check-cases (check_names key_bytes [] (names ns))) [
          | inl f ↦ absurd (cc (check_names-kept key_bytes (Permᴰ.symm r) f))
          | inr f ↦ e ∙ sym f
        ]
      ]

module _ ⦃fl : Float64⦄ (bounds : Bounds) where
  abbrev encoder : Bytes × Json → Bytes × Encoder
  encoder m = (m.0, encode_value bounds m.1)

  member_encoders-map : (ms : Members) → member_encoders bounds (of_members ms) ≡ map encoder ms
  unfolding encode_value
  member_encoders-map [] = refl
  member_encoders-map (m ∷ ms) = ap (◌∷◌ (encoder m)) (member_encoders-map ms)

  Names-map : (P : Bytes → Type 0) (ms : Members) → Names P ms → Names P (map encoder ms)
  Names-map P [] h = tt
  Names-map P (m ∷ ms) h = (h.0, Names-map P ms h.1)

  encode_object-perm :
      {es fs : List (Bytes × Encoder)} (depth : ℕ) (o : Output)
      → Permᴰ es fs
      → Names IsUtf8 es
      → encode_object bounds es depth o ≡ encode_object bounds fs depth o
  unfolding encode_object
  encode_object-perm {es} {fs} depth o r u =
      elim (Check-cases (check_names bounds.key_bytes [] (names es))) [
        | inl e ↦
            let fresh = check_names-IsFresh bounds.key_bytes [] es e in
            rw (
              length-perm r,
              check_names-perm bounds.key_bytes r,
              sort_by_name-perm r u fresh.distinct,
            )
        | inr e ↦
            let f : check_names bounds.key_bytes [] (names fs) ≡ invalid =
              sym (check_names-perm bounds.key_bytes r) ∙ e in
            rw (length-perm r, e, f)
      ]

  -- Two orders of one set of members, their names strings, encode alike at every depth and state,
  -- the refusals included.
  pub encode_value-perm :
      {ms ns : Members} (depth : ℕ) (o : Output)
      → Permᴰ ms ns
      → Names IsUtf8 ms
      → encode_value bounds (object (of_members ms)) depth o
        ≡ encode_value bounds (object (of_members ns)) depth o
  unfolding encode_value
  encode_value-perm {ms} {ns} depth o r u =
      rw (member_encoders-map ms, member_encoders-map ns)
        (ap (λ (body : Output → Result Output). counted bounds body o)
          (fun_ext λ o'. encode_object-perm depth o' (Permᴰ.map encoder r) (Names-map IsUtf8 ms u)))

  -- Two objects with the same members in different orders, their names valid UTF-8, encode to the same
  -- canonical bytes or are both refused, whatever the bounds.
  pub jcs_encode-perm :
      (ms ns : Members)
      → Permᴰ ms ns
      → Names IsUtf8 ms
      → jcs_encode bounds (object (of_members ms)) ≡ jcs_encode bounds (object (of_members ns))
  unfolding jcs_encode
  jcs_encode-perm ms ns r u = rw (encode_value-perm 1 (record { out = []; nodes = 0 }) r u)
