-- ===== src/Uri/Dots.antt =====
-- `remove_dot_segments` and `normalize_path` of sdks/rust/src/uri.rs.
pub mod Rounds
pub mod Plain
use bounded_authority_protoc.Base.{
  ℕ, zero, suc, Bool, true, false, ◌&&◌, ◌||◌, Option, none, some, List, [], ◌∷◌, ◌++◌, ◌==◌,
  if◌then◌else◌, length, drop, Bytes, codes, equal, Result, ok, invalid, ◌>>=◌,
}
use bounded_authority_protoc.Uri.Octets.{is_unreserved, is_sub_delim, normalize_octets}

-- `input.starts_with(prefix)`
unfoldable pub starts_with : Bytes → Bytes → Bool
starts_with s [] = true
starts_with [] (p ∷ ps) = false
starts_with (c ∷ s) (p ∷ ps) = c == p && starts_with s ps

-- What is before the last `/`.
unfoldable pub before_last : Bytes → Option Bytes
before_last [] = none
before_last (c ∷ s) = elim (before_last s) [
  | some p ↦ some (c ∷ p)
  | none ↦ if c == b'/' then some [] else none
]

abbrev or_empty : Option Bytes → Bytes
or_empty none = []
or_empty (some p) = p

unfoldable pub pop_last_segment : Bytes → Bytes
unfolding before_last
pop_last_segment output = or_empty (before_last output)

-- The bytes up to the next `/`, and from it on.
unfoldable pub segment : Bytes → Bytes
segment [] = []
segment (c ∷ s) = if c == b'/' then [] else c ∷ segment s

unfoldable pub from_slash : Bytes → Bytes
from_slash [] = []
from_slash (c ∷ s) = if c == b'/' then c ∷ s else from_slash s

-- E: the first segment with its leading `/`, if any, goes to the output.
unfoldable pub move_segment : Bytes → Bytes → Bytes × Bytes
unfolding segment from_slash
move_segment [] output = ([], output)
move_segment (c ∷ s) output =
    if c == b'/'
    then (from_slash s, output ++ (c ∷ segment s))
    else (from_slash (c ∷ s), output ++ segment (c ∷ s))

-- One round of the loop: the input and the output after it.
unfoldable pub dot_step : Bytes → Bytes → Bytes × Bytes
unfolding starts_with equal pop_last_segment move_segment
dot_step input output =
    if starts_with input (codes "../")
    then (drop 3 input, output)
    else if starts_with input (codes "./")
    then (drop 2 input, output)
    else if starts_with input (codes "/./")
    then (b'/' ∷ drop 3 input, output)
    else if equal input (codes "/.")
    then (b'/' ∷ [], output)
    else if starts_with input (codes "/../")
    then (b'/' ∷ drop 4 input, pop_last_segment output)
    else if equal input (codes "/..")
    then (b'/' ∷ [], pop_last_segment output)
    else if equal input (codes ".") || equal input (codes "..")
    then ([], output)
    else move_segment input output

-- Every round takes a byte of the input, so its length is fuel enough.
unfoldable pub dot_loop : ℕ → Bytes → Bytes → Bytes
unfolding dot_step
dot_loop fuel [] output = output
dot_loop zero (c ∷ s) output = output
dot_loop (suc fuel) (c ∷ s) output =
    let (input', output') = dot_step (c ∷ s) output in dot_loop fuel input' output'

unfoldable pub remove_dot_segments : Bytes → Bytes
unfolding dot_loop
remove_dot_segments path = dot_loop (length path) path []

abbrev pub is_path_byte : ℕ → Bool
is_path_byte c = is_unreserved c || (is_sub_delim c || (c == b':' || (c == b'@' || c == b'/')))

abbrev pub or_slash : Bytes → Bytes
or_slash [] = b'/' ∷ []
or_slash (c ∷ s) = c ∷ s

unfoldable pub normalize_path : Bytes → Result Bytes
unfolding normalize_octets remove_dot_segments
normalize_path path = do
  normalized ← normalize_octets is_path_byte (λ c. c) path
  ok (or_slash (remove_dot_segments normalized))
