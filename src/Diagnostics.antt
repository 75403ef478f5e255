-- ===== src/Diagnostics.antt =====
-- src/detail/diagnostic_state.cpp: the allocation state of every block, and the check that the
-- free list agrees with it.
pub mod Validation
mod Examples
use Prim.Native.String.{String}
use fixed_size_memory_pool.Base.{
  ℕ, Bool, true, false, not, ◌==◌, leb, if◌then◌else◌, List, [], ◌∷◌, length, get_or, set,
  replicate, Result, ok, err, double_free, memory_corruption, ◌>>=◌, ◌>>◌, throw_if,
}

pub data BlockState : Type 0 where
  free allocated : BlockState

abbrev pub is_free : BlockState → Bool
is_free free = true
is_free allocated = false

-- `DiagnosticState(block_count)`.
unfoldable pub initial_states : ℕ → List BlockState
initial_states block_count = replicate block_count free

unfoldable pub try_mark_allocated : List BlockState → ℕ → List BlockState × Bool
try_mark_allocated states index =
    if not (is_free (get_or states index free))
    then (states, false)
    else (set states index allocated, true)

unfoldable pub mark_free : List BlockState → ℕ → Result (List BlockState)
mark_free states index =
    if is_free (get_or states index free) then err double_free else ok (set states index free)

unfoldable pub is_allocated : List BlockState → ℕ → Bool
is_allocated states index = not (is_free (get_or states index free))

unfoldable pub state_name : List BlockState → ℕ → String
state_name states index = if is_allocated states index then "allocated" else "free"

-- The first loop of `validate_free_blocks`: `seen` after the indices, or the exception.
unfoldable pub mark_seen : List BlockState → List ℕ → List Bool → Result (List Bool)
mark_seen states [] seen = ok seen
mark_seen states (index ∷ rest) seen =
    let marked = mark_seen states rest (set seen index true) in
    do
      throw_if (leb (length states) index) memory_corruption
      throw_if (get_or seen index false) memory_corruption
      throw_if (not (is_free (get_or states index free))) memory_corruption
      marked

abbrev pub bool_ne : Bool → Bool → Bool
bool_ne true b = not b
bool_ne false b = b

-- The second loop, over both tables at once.
unfoldable pub compare_states : List BlockState → List Bool → Result (Unit {0})
compare_states [] seen = ok tt
compare_states (state ∷ states) [] =
    let rest = compare_states states [] in
    do throw_if (bool_ne (is_free state) false) memory_corruption; rest
compare_states (state ∷ states) (mark ∷ seen) =
    let rest = compare_states states seen in
    do throw_if (bool_ne (is_free state) mark) memory_corruption; rest

unfoldable pub validate_free_blocks : List BlockState → List ℕ → ℕ → Result (Unit {0})
validate_free_blocks states free_indices expected_free_count = do
  throw_if (not (length free_indices == expected_free_count)) memory_corruption
  seen ← mark_seen states free_indices (replicate (length states) false)
  compare_states states seen
