-- ===== src/Layout.antt =====
-- src/detail/block_layout.cpp: the dimensions of the blocks of a pool or a chunk.
-- `std::size_t` arithmetic is written out with its wrap-around.
pub mod Rounding
pub mod Ideal
pub mod Geometry
mod Examples
use fixed_size_memory_pool.Base.{
  ℕ, ◌-◌, ◌*◌, ◌/◌, ◌≤◌, max, bit_and, Bool, true, false, not, ◌&&◌, ◌||◌, ltb, ◌==◌, if◌then◌else◌,
  Result, ok, err, Error, invalid_argument, length_error, ◌>>=◌, ◌>>◌, throw_if, add_word, sub_word,
  size_max,
}
use fixed_size_memory_pool.Base.{size_mod, ◌%◌}

pub record BlockLayout : Type 0 where
  pub block_size : ℕ
  pub block_count : ℕ
  pub alignment : ℕ
  pub payload_offset : ℕ
  pub block_stride : ℕ
  pub storage_size : ℕ

unfoldable pub validate_alignment : ℕ → Result (Unit {0})
validate_alignment alignment =
    throw_if ((alignment == 0) || not (bit_and alignment (sub_word alignment 1) == 0))
      invalid_argument

unfoldable pub checked_add : ℕ → ℕ → Result ℕ
checked_add left right = do
  throw_if (ltb (sub_word size_max right) left) length_error
  ok (add_word left right)

unfoldable pub checked_multiply : ℕ → ℕ → Result ℕ
checked_multiply left right = do
  throw_if (not (right == 0) && ltb (size_max / right) left) length_error
  ok ((left * right) % size_mod)

unfoldable pub round_up : ℕ → ℕ → Result ℕ
round_up size alignment = do
  validate_alignment alignment
  throw_if (ltb (sub_word size_max (sub_word alignment 1)) size) length_error
  ok (bit_and (sub_word (add_word size alignment) 1) (size_max - sub_word alignment 1))

-- The payload offset: the front guard shares the raw block's start with the free-list node.
unfoldable pub guarded_offset : Bool → ℕ → ℕ → ℕ → Result ℕ
guarded_offset true guard_size free_node_size alignment =
    round_up (max guard_size free_node_size) alignment
guarded_offset false guard_size free_node_size alignment = ok 0

unfoldable pub guarded_stride : Bool → ℕ → ℕ → ℕ → ℕ → Result ℕ
guarded_stride true payload_offset block_size guard_size alignment = do
  payload_end ← checked_add payload_offset block_size
  round_up (← checked_add payload_end guard_size) alignment
guarded_stride false payload_offset block_size guard_size alignment = ok block_size

unfoldable pub make_block_layout :
    (requested_block_size block_count requested_alignment : ℕ)
    → (guard_bytes : Bool) → (free_node_size free_node_alignment guard_size : ℕ)
    → Result BlockLayout
make_block_layout requested_block_size block_count requested_alignment guard_bytes free_node_size
      free_node_alignment guard_size =
    do
      throw_if (block_count == 0) invalid_argument
      validate_alignment requested_alignment
      let alignment = max requested_alignment free_node_alignment
      block_size ← round_up (max requested_block_size free_node_size) alignment
      payload_offset ← guarded_offset guard_bytes guard_size free_node_size alignment
      block_stride ← guarded_stride guard_bytes payload_offset block_size guard_size alignment
      storage_size ← checked_multiply block_stride block_count
      ok (record {
        block_size = block_size;
        block_count = block_count;
        alignment = alignment;
        payload_offset = payload_offset;
        block_stride = block_stride;
        storage_size = storage_size;
      })
