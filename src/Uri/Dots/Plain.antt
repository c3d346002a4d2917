-- ===== src/Uri/Dots/Plain.antt =====
-- The paths that `remove_dot_segments` of sdks/rust/src/uri.rs leaves have no dot segments.
use bounded_authority_protoc.Base.{
  ℕ, zero, suc, ◌≡◌, ◌≢◌, refl, sym, ap, ◌∙◌, Bool, true, false, ◌⊎◌, inl, inr, Bool-cases, none,
  some, [], ◌∷◌, ◌++◌, append-nil, length, drop, All, Bytes, codes, equal, equal-false_iff, ==_iff,
  OnOk, OnOk-bind, OnOk-ok, arith, ◌==◌, if◌then◌else◌,
}
use bounded_authority_protoc.Uri.Dots.{
  starts_with, before_last, segment, from_slash, move_segment, pop_last_segment, dot_step, dot_loop,
  remove_dot_segments, or_slash, is_path_byte, normalize_path,
}
use bounded_authority_protoc.Uri.Octets.{normalize_octets}

abbrev pub Slashless : Bytes → Type 0
Slashless = All (λ c. c ≢ b'/')

-- A segment that is neither `.` nor `..`.
abbrev pub IsPlain : Bytes → Type 0
IsPlain seg = Slashless seg × (seg ≢ codes ".") × (seg ≢ codes "..")

-- A path of plain segments, each behind a slash.
pub data Plain : Bytes → Type 0 where
  empty : Plain []
  snoc : {path : Bytes} → Plain path → (seg : Bytes) → IsPlain seg → Plain (path ++ (b'/' ∷ seg))

-- Empty, or from a slash on.
pub data Absolute : Bytes → Type 0 where
  end : Absolute []
  slash : (s : Bytes) → Absolute (b'/' ∷ s)

segment-Slashless : (s : Bytes) → Slashless (segment s)
unfolding segment
segment-Slashless [] = tt
segment-Slashless (c ∷ s) = elim (Bool-cases (c == b'/')) [
  | inl e ↦ rw (e, segment) tt
  | inr e ↦ (let ne : c ≢ b'/' = ground arith in rw (e, segment) (ne, segment-Slashless s))
]

pub from_slash-Absolute : (s : Bytes) → Absolute (from_slash s)
unfolding from_slash
from_slash-Absolute [] = end
from_slash-Absolute (c ∷ s) = elim (Bool-cases (c == b'/')) [
  | inl e ↦ (let same : c ≡ b'/' = (==_iff c b'/').0 e in rw (e, from_slash, same) (slash s))
  | inr e ↦ rw (e, from_slash) (from_slash-Absolute s)
]

segment-from_slash : (s : Bytes) → segment s ++ from_slash s ≡ s
unfolding segment from_slash
segment-from_slash [] = refl
segment-from_slash (c ∷ s) = elim (Bool-cases (c == b'/')) [
  | inl e ↦ rw e refl
  | inr e ↦ rw e (ap (λ t. c ∷ t) (segment-from_slash s))
]

before_last-Slashless : (s : Bytes) → Slashless s → before_last s ≡ none
unfolding before_last
before_last-Slashless [] h = refl
before_last-Slashless (c ∷ s) (h, k) =
    let ne : (c == b'/') ≡ false = ground (arith, h) in rw (before_last-Slashless s k, ne) refl

before_last-append :
    (path seg : Bytes) → Slashless seg → before_last (path ++ (b'/' ∷ seg)) ≡ some path
unfolding before_last
before_last-append [] seg h = rw (before_last-Slashless seg h) refl
before_last-append (c ∷ path) seg h = rw (before_last-append path seg h) refl

pop_last_segment-Plain : (path : Bytes) → Plain path → Plain (pop_last_segment path)
unfolding pop_last_segment before_last
pop_last_segment-Plain _ empty = empty
pop_last_segment-Plain _ (snoc {path} h seg (k, _, _)) = rw (before_last-append path seg k) h

Absolute-cases : (s : Bytes) → Absolute s → (s ≡ []) ⊎ ((r : Bytes) × (s ≡ b'/' ∷ r))
Absolute-cases _ end = inl refl
Absolute-cases _ (slash r) = inr (r, refl)

-- The first segment is the whole text, or a slash follows it.
segment-cases : (s t : Bytes) → segment s ≡ t → (s ≡ t) ⊎ ((r : Bytes) × (s ≡ t ++ (b'/' ∷ r)))
segment-cases s t e = elim (Absolute-cases (from_slash s) (from_slash-Absolute s)) [
  | inl rest ↦
      inl (sym (segment-from_slash s) ∙ ap (λ r. segment s ++ r) rest ∙ append-nil (segment s) ∙ e)
  | inr (r, rest) ↦
      inr (
        r,
        sym (segment-from_slash s) ∙ ap (λ z. segment s ++ z) rest ∙ ap (λ z. z ++ (b'/' ∷ r)) e,
      )
]

-- So a segment of dots is met by a test before it is moved.
one_dot-met :
    (s : Bytes)
    → starts_with (b'/' ∷ s) (codes "/./") ≡ false
    → equal (b'/' ∷ s) (codes "/.") ≡ false
    → segment s ≢ codes "."
unfolding starts_with
one_dot-met s f g e = elim (segment-cases s (codes ".") e) [
  | inl same ↦ (equal-false_iff (b'/' ∷ s) (codes "/.")).0 g (ap (λ t. b'/' ∷ t) same)
  | inr (r, same) ↦ (let k = rw same at f in cc k)
]

two_dots-met :
    (s : Bytes)
    → starts_with (b'/' ∷ s) (codes "/../") ≡ false
    → equal (b'/' ∷ s) (codes "/..") ≡ false
    → segment s ≢ codes ".."
unfolding starts_with
two_dots-met s f g e = elim (segment-cases s (codes "..") e) [
  | inl same ↦ (equal-false_iff (b'/' ∷ s) (codes "/..")).0 g (ap (λ t. b'/' ∷ t) same)
  | inr (r, same) ↦ (let k = rw same at f in cc k)
]

abbrev Kept : Bytes × Bytes → Type 0
Kept (input, output) = Absolute input × Plain output

Kept-if :
    (b : Bool) (x y : Bytes × Bytes) → Kept x → (b ≡ false → Kept y) → Kept (if b then x else y)
Kept-if true x y h k = h
Kept-if false x y h k = k refl

dot_step-Kept : (s output : Bytes) → Plain output → Kept (dot_step (b'/' ∷ s) output)
unfolding dot_step starts_with equal move_segment
dot_step-Kept s output h =
    let t : Bytes = b'/' ∷ s in
    let popped = pop_last_segment-Plain output h in
    Kept-if (starts_with t (codes "/./")) _ _ (slash (drop 3 t), h)
      λ f₁.
        Kept-if (equal t (codes "/.")) _ _ (slash [], h)
          λ f₂.
            Kept-if (starts_with t (codes "/../")) _ _ (slash (drop 4 t), popped)
              λ f₃.
                Kept-if (equal t (codes "/..")) _ _ (slash [], popped)
                  λ f₄. (
                    from_slash-Absolute s,
                    snoc h (segment s)
                        (segment-Slashless s, one_dot-met s f₁ f₂, two_dots-met s f₃ f₄),
                  )

dot_loop-Plain :
    (fuel : ℕ) (input output : Bytes)
    → Absolute input
    → Plain output
    → Plain (dot_loop fuel input output)
unfolding dot_loop
dot_loop-Plain zero _ output end h = h
dot_loop-Plain (suc fuel) _ output end h = h
dot_loop-Plain zero _ output (slash s) h = h
dot_loop-Plain (suc fuel) _ output (slash s) h =
    let (a, k) = dot_step-Kept s output h in
    let next = dot_step (b'/' ∷ s) output in dot_loop-Plain fuel next.0 next.1 a k

-- A path that is empty or begins with a slash becomes one of segments that each follow a slash and are neither of the
-- two dot segments.
pub remove_dot_segments-Plain : (path : Bytes) → Absolute path → Plain (remove_dot_segments path)
unfolding remove_dot_segments
remove_dot_segments-Plain path h = dot_loop-Plain (length path) path [] h empty

or_slash-Plain : (path : Bytes) → Plain path → Plain (or_slash path)
or_slash-Plain [] h = snoc empty [] (tt, (λ e. cc e), (λ e. cc e))
or_slash-Plain (c ∷ s) h = h

normalize_octets-Absolute :
    (path : Bytes) → Absolute path → OnOk Absolute (normalize_octets is_path_byte (λ c. c) path)
unfolding normalize_octets
normalize_octets-Absolute _ end = end
normalize_octets-Absolute _ (slash []) = slash []
normalize_octets-Absolute _ (slash (c ∷ [])) =
    OnOk-bind Absolute (normalize_octets is_path_byte (λ c. c) (c ∷ [])) _ λ out _. slash out
normalize_octets-Absolute _ (slash (c ∷ d ∷ s)) =
    OnOk-bind Absolute (normalize_octets is_path_byte (λ c. c) (c ∷ d ∷ s)) _ λ out _. slash out

-- What such a path is normalized to, if it can be, has no dot segments either, whether or not these were written with
-- escapes.
pub normalize_path-Plain : (path : Bytes) → Absolute path → OnOk Plain (normalize_path path)
unfolding normalize_path
normalize_path-Plain path h = OnOk-bind Plain (normalize_octets is_path_byte (λ c. c) path) _ λ p e.
    or_slash-Plain (remove_dot_segments p)
      (remove_dot_segments-Plain p (OnOk-ok Absolute _ (normalize_octets-Absolute path h) e))
