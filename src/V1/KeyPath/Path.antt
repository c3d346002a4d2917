-- ===== src/V1/KeyPath/Path.antt =====
-- The key path that `key_path_ok` of sdks/rust/src/v1.rs accepts, said without a walk.
use bounded_authority_protoc.Base.{
  ◌≡◌, ◌≢◌, ◌↔◌, refl, sym, ap, false, not, ◌||◌, List, [], ◌∷◌, ◌++◌, map, arith, All, any, Bytes,
  equal, equal→eq, equal_refl, equal-false_iff, ok, ◌>>=◌, refuse, refuse_iff, >>=-eq-ok, >>-eq-ok,
}
use bounded_authority_protoc.Base.Int.{ℤ, leb_ℤ, ltb_ℤ, ◌≤ℤ◌, ◌<ℤ◌}
use bounded_authority_protoc.V1.KeyPath.{
  ExpectedAnchor, ExpectedKeyTransition, Walk, walk_step, walk, begin, check_end, key_path_ok,
}

abbrev pub Key : Type 0
Key = Bytes × Bytes

abbrev pub current_key : ExpectedKeyTransition → Key
current_key t = (t.current_key_id, t.current_key_fingerprint)

abbrev pub next_key : ExpectedKeyTransition → Key
next_key t = (t.next_key_id, t.next_key_fingerprint)

abbrev pub key_of : ExpectedAnchor → Key
key_of a = (a.key_id, a.key_fingerprint)

-- Each time is after the one before it, the last excepted, which may equal it.
abbrev pub Chronological : ℤ → List ℤ → ℤ → Type 0
Chronological t [] end_time = t ≤ℤ end_time
Chronological t (u ∷ us) end_time = (t <ℤ u) × Chronological u us end_time

-- No name is in `seen` or comes twice.
abbrev pub Fresh : List Bytes → List Bytes → Type 0
Fresh seen [] = Unit
Fresh seen (x ∷ xs) = All (λ s. x ≢ s) seen × Fresh (x ∷ seen) xs

-- From the first key, each transition starts at the key where the one before it ended, and the last
-- ends at the last key; the times run on; no fingerprint comes back.
pub record IsPath (start : ExpectedAnchor) (ts : List ExpectedKeyTransition)
    (end_anchor : ExpectedAnchor) : Type 0 where
  pub linked : map current_key ts ++ (key_of end_anchor ∷ []) ≡ key_of start ∷ map next_key ts
  pub chronological :
      Chronological start.anchored_at (map (λ t. t.effective_at) ts) end_anchor.anchored_at
  pub fresh : Fresh (start.key_fingerprint ∷ []) (map (λ t. t.next_key_fingerprint) ts)

any-equal_iff : (x : Bytes) (xs : List Bytes) → (any (equal x) xs ≡ false) ↔ All (λ s. x ≢ s) xs
any-equal_iff x [] = (λ _. tt, λ _. refl)
any-equal_iff x (y ∷ xs) = ground (arith, equal-false_iff x y, any-equal_iff x xs)

abbrev key : Walk → Key
key w = (w.current_key_id, w.current_fingerprint)

-- The variables after a round.
abbrev next : Walk → ExpectedKeyTransition → Walk
next w t = record {
  current_key_id = t.next_key_id;
  current_fingerprint = t.next_key_fingerprint;
  previous_time = t.effective_at;
  seen = t.next_key_fingerprint ∷ w.seen;
}

differs_iff :
    (a b c d : Bytes) → (not (equal a c) || not (equal b d) ≡ false) ↔ ◌≡◌ {A = Key} (a, b) (c, d)
differs_iff a b c d = (
  λ h.
      let p : a ≡ c = ground (arith, equal→eq a c) in
      let q : b ≡ d = ground (arith, equal→eq b d) in rw (p, q) refl,
  λ e.
      let p : a ≡ c = ap (λ z. z.0) e in
      let q : b ≡ d = ap (λ z. z.1) e in simp (p, q, equal_refl c, equal_refl d),
)

walk_step-eq-ok :
    (w : Walk) (t : ExpectedKeyTransition) (w' : Walk)
    → walk_step w t ≡ ok w'
    → ((current_key t ≡ key w)
        × (w.previous_time <ℤ t.effective_at)
        × All (λ s. t.next_key_fingerprint ≢ s) w.seen)
      × (w' ≡ next w t)
unfolding walk_step
walk_step-eq-ok w t w' h =
    let (e₁, h₁) =
      >>-eq-ok
        (refuse (
          not (equal t.current_key_id w.current_key_id)
          || not (equal t.current_key_fingerprint w.current_fingerprint)))
        _ h in
    let (e₂, h₂) = >>-eq-ok (refuse (leb_ℤ t.effective_at w.previous_time)) _ h₁ in
    let (e₃, h₃) =
      >>-eq-ok (refuse (any (equal t.next_key_fingerprint) w.seen)) (ok (next w t)) h₂ in
    let k₁ = (differs_iff _ _ _ _).0 (refuse_iff _ e₁) in
    let k₂ : leb_ℤ t.effective_at w.previous_time ≡ false = refuse_iff _ e₂ in
    let k₃ = (any-equal_iff t.next_key_fingerprint w.seen).0 (refuse_iff _ e₃) in
    let same : w' ≡ next w t = cc h₃ in ((k₁, ground arith, k₃), same)

walk_step-ok :
    (w : Walk) (t : ExpectedKeyTransition)
    → current_key t ≡ key w
    → w.previous_time <ℤ t.effective_at
    → All (λ s. t.next_key_fingerprint ≢ s) w.seen
    → walk_step w t ≡ ok (next w t)
unfolding walk_step
walk_step-ok w t h₁ h₂ h₃ =
    let k₁ =
      (differs_iff t.current_key_id t.current_key_fingerprint w.current_key_id
          w.current_fingerprint).1
        h₁ in
    let k₂ : leb_ℤ t.effective_at w.previous_time ≡ false = ground arith in
    let k₃ = (any-equal_iff t.next_key_fingerprint w.seen).1 h₃ in simp (k₁, k₂, k₃)

check_end-eq-ok_iff :
    (w : Walk) (a : ExpectedAnchor)
    → (check_end w a ≡ ok tt) ↔ ((key w ≡ key_of a) × (w.previous_time ≤ℤ a.anchored_at))
unfolding check_end
check_end-eq-ok_iff w a = (
  λ h.
      let (e₁, h₁) =
        >>-eq-ok
          (refuse (
            not (equal w.current_key_id a.key_id)
            || not (equal w.current_fingerprint a.key_fingerprint)))
          _ h in
      let (e₂, _) = >>-eq-ok (refuse (ltb_ℤ a.anchored_at w.previous_time)) _ h₁ in
      let k₂ : ltb_ℤ a.anchored_at w.previous_time ≡ false = refuse_iff _ e₂ in
      ((differs_iff _ _ _ _).0 (refuse_iff _ e₁), ground arith),
  λ (e, l).
      let k₁ =
        (differs_iff w.current_key_id w.current_fingerprint a.key_id a.key_fingerprint).1 e in
      let k₂ : ltb_ℤ a.anchored_at w.previous_time ≡ false = ground arith in simp (k₁, k₂),
)

-- What is left to walk, from the walk's variables.
record Follows (w : Walk) (ts : List ExpectedKeyTransition) (a : ExpectedAnchor) : Type 0 where
  links : map current_key ts ++ (key_of a ∷ []) ≡ key w ∷ map next_key ts
  times : Chronological w.previous_time (map (λ t. t.effective_at) ts) a.anchored_at
  names : Fresh w.seen (map (λ t. t.next_key_fingerprint) ts)

head-eq : (x y : Key) (xs ys : List Key) → (x ∷ xs) ≡ (y ∷ ys) → x ≡ y
head-eq x y xs ys e = cc

tail-eq : (x y : Key) (xs ys : List Key) → (x ∷ xs) ≡ (y ∷ ys) → xs ≡ ys
tail-eq x y xs ys e = cc

walk-Follows :
    (ts : List ExpectedKeyTransition) (w : Walk) (a : ExpectedAnchor)
    → (walk w ts >>= λ w'. check_end w' a) ≡ ok tt
    → Follows w ts a
unfolding walk
walk-Follows [] w a h =
    let (e, l) = (check_end-eq-ok_iff w a).0 h in
    record { links = ap (λ k. k ∷ []) (sym e); times = l; names = tt }
walk-Follows (t ∷ ts) w a h =
    let (w'', e, h₁) = >>=-eq-ok (walk w (t ∷ ts)) _ h in
    let (w', e', h₂) = >>=-eq-ok (walk_step w t) _ e in
    let ((k₁, k₂, k₃), same) = walk_step-eq-ok w t w' e' in
    let on : walk (next w t) ts ≡ ok w'' = rw same at h₂ in
    let onward : (walk (next w t) ts >>= λ v. check_end v a) ≡ ok tt = rw (on, ◌>>=◌) h₁ in
    let ih = walk-Follows ts (next w t) a onward in
    record { links = rw (k₁, ih.links) refl; times = (k₂, ih.times); names = (k₃, ih.names) }

Follows-walk :
    (ts : List ExpectedKeyTransition) (w : Walk) (a : ExpectedAnchor)
    → Follows w ts a
    → (walk w ts >>= λ w'. check_end w' a) ≡ ok tt
unfolding walk
Follows-walk [] w a f =
    (check_end-eq-ok_iff w a).1 (sym (head-eq (key_of a) (key w) [] [] f.links), f.times)
Follows-walk (t ∷ ts) w a f =
    let here =
      head-eq (current_key t) (key w) (map current_key ts ++ (key_of a ∷ []))
        (map next_key (t ∷ ts)) f.links in
    let rest =
      tail-eq (current_key t) (key w) (map current_key ts ++ (key_of a ∷ []))
        (map next_key (t ∷ ts)) f.links in
    rw (walk_step-ok w t here f.times.0 f.names.0, ◌>>=◌)
      (Follows-walk ts (next w t) a (record { links = rest; times = f.times.1; names = f.names.1 }))

-- `key_path_ok` accepts exactly the key paths: each transition starts at the key where the one before
-- it ended, the first at the start anchor's, and the last ends at the end anchor's; each time is after
-- the one before it, and the end anchor's not before the last; no fingerprint comes back.
pub key_path_ok_iff :
    (start : ExpectedAnchor) (ts : List ExpectedKeyTransition) (end_anchor : ExpectedAnchor)
    → (key_path_ok start ts end_anchor ≡ ok tt) ↔ IsPath start ts end_anchor
unfolding key_path_ok
key_path_ok_iff start ts end_anchor = (
  λ h.
      let f = walk-Follows ts (begin start) end_anchor h in
      record { linked = f.links; chronological = f.times; fresh = f.names },
  λ p.
      Follows-walk ts (begin start) end_anchor
        (record { links = p.linked; times = p.chronological; names = p.fresh }),
)
