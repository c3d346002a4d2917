-- ===== src/Jcs/Order/Sorting.antt =====
-- The sort by name gives one result for every order of members whose names differ.
use bounded_authority_protoc.Base.{
  ◌≡◌, ◌≢◌, refl, sym, ◌∙◌, ◌⊎◌, inl, inr, true, List, [], ◌∷◌, Bytes, All, Bool-cases, subst,
}
use bounded_authority_protoc.Utf8.{IsUtf8}
use bounded_authority_protoc.Jcs.Order.{precedes, insert, sort_by_name}
use bounded_authority_protoc.Jcs.Order.Laws.{precedes_asym, precedes_trans, precedes_total}
use mathlib.Core.List.{Permᴰ}
use mathlib.Core.List.Permᴰ.{nil, cons, swap, trans}

-- One of two different names stands first.
precedes_ne :
    (a b : Bytes) → IsUtf8 a → IsUtf8 b → a ≢ b → (precedes a b ≡ true) ⊎ (precedes b a ≡ true)
precedes_ne a b ha hb ne = elim (Bool-cases (precedes a b)) [
  | inl e ↦ inl e
  | inr e ↦ elim (Bool-cases (precedes b a)) [
    | inl f ↦ inr f
    | inr f ↦ absurd (ne (precedes_total a b ha hb e f))
  ]
]

module _ {ℓ} {A : Type ℓ} where
  insert_swap :
      (p q : Bytes × A) (xs : List (Bytes × A))
      → precedes p.0 q.0 ≡ true
      → insert p (insert q xs) ≡ insert q (insert p xs)
  unfolding insert
  insert_swap p q [] pq = simp (pq, precedes_asym p.0 q.0 pq)
  insert_swap p q (x ∷ xs) pq =
      let qp = precedes_asym p.0 q.0 pq in
      elim (Bool-cases (precedes q.0 x.0)) [
        | inl qx ↦ let px = precedes_trans p.0 q.0 x.0 pq qx in simp (pq, qp, px, qx)
        | inr qx ↦ elim (Bool-cases (precedes p.0 x.0)) [
          | inl px ↦ simp (qp, px, qx)
          | inr px ↦ simp (px, qx, insert_swap p q xs pq)
        ]
      ]

  insert_comm :
      (p q : Bytes × A) (xs : List (Bytes × A))
      → (precedes p.0 q.0 ≡ true) ⊎ (precedes q.0 p.0 ≡ true)
      → insert p (insert q xs) ≡ insert q (insert p xs)
  insert_comm p q xs (inl pq) = insert_swap p q xs pq
  insert_comm p q xs (inr qp) = sym (insert_swap q p xs qp)

  abbrev pub Names : (Bytes → Type 0) → List (Bytes × A) → Type 0
  Names P ps = All (λ p. P p.0) ps

  -- No two members have one name.
  abbrev pub Distinct : List (Bytes × A) → Type 0
  Distinct [] = Unit
  Distinct (p ∷ ps) = All (λ q. p.0 ≢ q.0) ps × Distinct ps

  All-perm : (P : Bytes × A → Type 0) {ps qs : List (Bytes × A)} → Permᴰ ps qs → All P ps → All P qs
  All-perm P nil h = tt
  All-perm P (cons e r) h = (subst P e h.0, All-perm P r h.1)
  All-perm P (swap e f) h = (subst P f h.1.0, (subst P e h.0, h.1.1))
  All-perm P (trans r s) h = All-perm P s (All-perm P r h)

  pub Names-perm :
      (P : Bytes → Type 0) {ps qs : List (Bytes × A)} → Permᴰ ps qs → Names P ps → Names P qs
  Names-perm P r = All-perm (λ p. P p.0) r

  pub Distinct-perm : {ps qs : List (Bytes × A)} → Permᴰ ps qs → Distinct ps → Distinct qs
  Distinct-perm nil h = tt
  Distinct-perm (cons {b = b} e r) h =
      (All-perm (λ q. b.0 ≢ q.0) r (rw (← e) h.0), Distinct-perm r h.1)
  Distinct-perm (swap {l = l} e f) h =
      let differs = λ (p : Bytes × A). All (λ q. p.0 ≢ q.0) l in
      ((λ x. h.0.0 (rw (e, f, x)), subst differs f h.1.0), (subst differs e h.0.1, h.1.1))
  Distinct-perm (trans r s) h = Distinct-perm s (Distinct-perm r h)

  -- Members with different names sort to one list, however they are ordered.
  pub sort_by_name-perm :
      {ps qs : List (Bytes × A)}
      → Permᴰ ps qs
      → Names IsUtf8 ps
      → Distinct ps
      → sort_by_name ps ≡ sort_by_name qs
  unfolding sort_by_name
  sort_by_name-perm nil u d = refl
  sort_by_name-perm (cons {a} {b} e r) u d = rw (e, sort_by_name-perm r u.1 d.1)
  sort_by_name-perm (swap {a} {b} {l = l} e f) u d =
      rw (← e, ← f) (insert_comm a b (sort_by_name l) (precedes_ne a.0 b.0 u.0 u.1.0 d.0.0))
  sort_by_name-perm (trans r s) u d =
      sort_by_name-perm r u d ∙ sort_by_name-perm s (Names-perm IsUtf8 r u) (Distinct-perm r d)
