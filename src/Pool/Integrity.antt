-- ===== src/Pool/Integrity.antt =====
-- src/fixed_size_memory_pool.cpp, the queries and checks that compare the list of free blocks with
-- the table of states.
use fixed_size_memory_pool.Base.{
  ℕ, zero, suc, ◌%◌, Bool, false, not, ◌&&◌, ◌==◌, if◌then◌else◌, none, some, List, [], ◌∷◌, Result,
  ok, err, logic_error, memory_corruption, double_free, ◌>>=◌, ◌>>◌, throw_if, sub_word,
}
use fixed_size_memory_pool.Memory.{Ptr, null, Memory, load_word}
use fixed_size_memory_pool.Diagnostics.{
  BlockState, initial_states, try_mark_allocated, mark_free, validate_free_blocks,
}
use fixed_size_memory_pool.Diagnostics
use fixed_size_memory_pool.Pool.{Pool, owns, block_index, raw_block_index}

unfoldable pub is_raw_block_start : Pool → Ptr → Bool
is_raw_block_start p pointer =
    if pointer == null
    then false
    else owns p pointer && (sub_word pointer p.storage % p.block_stride == 0)

unfoldable pub is_allocated : Pool → Ptr → Result Bool
is_allocated p pointer = elim p.diagnostic_state [
  | none ↦ err logic_error
  | some states ↦ do index ← block_index p pointer; ok (Diagnostics.is_allocated states index)
]

-- The walk of `validate_integrity`: `left` is the capacity less the indices collected so far.
unfoldable pub collect_free : ℕ → Memory → Pool → Ptr → Result (List ℕ)
collect_free zero m p node = if node == null then ok [] else err memory_corruption
collect_free (suc left) m p node =
    let rest = collect_free left m p (load_word m node) in
    if node == null then ok [] else do
      throw_if (not (is_raw_block_start p node)) memory_corruption
      indices ← rest
      ok (raw_block_index p node ∷ indices)

unfoldable pub validate_integrity : Memory → Pool → Result (Unit {0})
validate_integrity m p = elim p.diagnostic_state [
  | none ↦ err logic_error
  | some states ↦ do
    free_indices ← collect_free p.block_count m p p.free_head
    validate_free_blocks states free_indices p.free_blocks
]

unfoldable pub validate_allocated_pointer : Pool → Ptr → Result (Unit {0})
validate_allocated_pointer p pointer = do
  index ← block_index p pointer
  elim p.diagnostic_state [
    | none ↦ ok tt
    | some states ↦ throw_if (not (Diagnostics.is_allocated states index)) double_free
  ]
