-- ===== src/Uri/Dots/Rounds.antt =====
-- The rounds of `remove_dot_segments` in sdks/rust/src/uri.rs.
use bounded_authority_protoc.Base.{
  ℕ, zero, suc, ◌-◌, ◌<◌, ◌≤◌, ◌≡◌, refl, ap, Bool, true, false, ◌||◌, [], ◌∷◌, length, drop,
  length-drop, Bytes, codes, equal, equal→eq, arith, if◌then◌else◌,
}
use bounded_authority_protoc.Uri.Dots.{
  starts_with, from_slash, move_segment, dot_step, dot_loop, remove_dot_segments,
}

starts_with-length : (s p : Bytes) → starts_with s p ≡ true → length p ≤ length s
unfolding starts_with
starts_with-length s [] h = omega arith
starts_with-length [] (p ∷ ps) h = cc
starts_with-length (c ∷ s) (p ∷ ps) h = ground (arith, starts_with-length s ps)

from_slash-length : (s : Bytes) → length (from_slash s) ≤ length s
unfolding from_slash
from_slash-length [] = omega arith
from_slash-length (c ∷ s) = ground (arith, from_slash-length s)

move_segment-length :
    (c : ℕ) (s output : Bytes) → length (move_segment (c ∷ s) output).0 < length (c ∷ s)
unfolding move_segment from_slash
move_segment-length c s output = ground (arith, from_slash-length s)

shorter-if :
    (b : Bool) (n : ℕ) (p q : Bytes × Bytes)
    → (b ≡ true → length p.0 < n)
    → length q.0 < n
    → length (if b then p else q).0 < n
shorter-if true n p q h k = h refl
shorter-if false n p q h k = k

-- Every round of the loop leaves a shorter input.
dot_step-length : (c : ℕ) (s output : Bytes) → length (dot_step (c ∷ s) output).0 < length (c ∷ s)
unfolding dot_step
dot_step-length c s output =
    let t = c ∷ s in
    let long = starts_with-length t in
    let cut : (k : ℕ) → length (drop k t) ≡ length t - k = λ k. length-drop k t in
    let n = length t in
    let same : (p : Bytes) → equal t p ≡ true → n ≡ length p = λ p e. ap length (equal→eq t p e) in
    shorter-if (starts_with t (codes "../")) n _ _ (λ h. omega (arith, long (codes "../") h, cut 3))
      (shorter-if (starts_with t (codes "./")) n _ _
        (λ h. omega (arith, long (codes "./") h, cut 2))
        (shorter-if (starts_with t (codes "/./")) n _ _
          (λ h. omega (arith, long (codes "/./") h, cut 3))
          (shorter-if (equal t (codes "/.")) n _ _ (λ h. omega (arith, same (codes "/.") h))
            (shorter-if (starts_with t (codes "/../")) n _ _
              (λ h. omega (arith, long (codes "/../") h, cut 4))
              (shorter-if (equal t (codes "/..")) n _ _ (λ h. omega (arith, same (codes "/..") h))
                (shorter-if (equal t (codes ".") || equal t (codes "..")) n _ _ (λ h. omega arith)
                  (move_segment-length c s output)))))))

-- The loop's result with fuel for the length of its input is its result with any more fuel.
pub dot_loop-fuel :
    (m n : ℕ) (input output : Bytes)
    → length input ≤ m
    → length input ≤ n
    → dot_loop m input output ≡ dot_loop n input output
unfolding dot_loop
dot_loop-fuel zero zero input output h k = refl
dot_loop-fuel zero (suc n) [] output h k = refl
dot_loop-fuel zero (suc n) (c ∷ s) output h k = absurd (omega (arith, h))
dot_loop-fuel (suc m) zero [] output h k = refl
dot_loop-fuel (suc m) zero (c ∷ s) output h k = absurd (omega (arith, k))
dot_loop-fuel (suc m) (suc n) [] output h k = refl
dot_loop-fuel (suc m) (suc n) (c ∷ s) output h k =
    let shorter = dot_step-length c s output in
    let next = dot_step (c ∷ s) output in
    dot_loop-fuel m n next.0 next.1 (omega (arith, shorter, h)) (omega (arith, shorter, k))

-- With fuel for its length an input is used up: the loop does not stop because the fuel does.
pub data Runs : Bytes → Bytes → Bytes → Type 0 where
  done : (output : Bytes) → Runs [] output output
  round :
      (c : ℕ) (s output : Bytes) {result : Bytes}
      → Runs (dot_step (c ∷ s) output).0 (dot_step (c ∷ s) output).1 result
      → Runs (c ∷ s) output result

pub dot_loop-Runs :
    (n : ℕ) (input output : Bytes) → length input ≤ n → Runs input output (dot_loop n input output)
unfolding dot_loop
dot_loop-Runs zero [] output h = done output
dot_loop-Runs (suc n) [] output h = done output
dot_loop-Runs zero (c ∷ s) output h = absurd (omega (arith, h))
dot_loop-Runs (suc n) (c ∷ s) output h =
    let next = dot_step (c ∷ s) output in
    round c s output (dot_loop-Runs n next.0 next.1 (omega (arith, dot_step-length c s output, h)))

-- With fuel for the length of the path, or more, the loop ends because its input is used up, and its result is that of `remove_dot_segments`.
pub dot_loop-terminates :
    (fuel : ℕ) (path : Bytes)
    → length path ≤ fuel
    → Runs path [] (dot_loop fuel path []) × (dot_loop fuel path [] ≡ remove_dot_segments path)
unfolding remove_dot_segments
dot_loop-terminates fuel path h =
    (dot_loop-Runs fuel path [] h, dot_loop-fuel fuel (length path) path [] h (omega arith))
