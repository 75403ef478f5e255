-- ===== src/ArenaChunk.antt =====
-- src/detail/arena_chunk.cpp: one backing allocation of the arena, with a cursor that moves up.
pub mod Bounds
mod Examples
use fixed_size_memory_pool.Base.{
  ℕ, zero, suc, ◌+◌, ◌-◌, ◌*◌, ◌/◌, ◌%◌, Bool, true, false, not, ◌&&◌, ◌||◌, ltb, leb, ◌==◌,
  if◌then◌else◌, max_of, min_of, Option, none, some, List, [], ◌∷◌, ◌++◌, length, get_elem?, set,
  Result, ok, err, invalid_argument, logic_error, add_word, sub_word, size_mod, size_max, ◌>>=◌,
  ◌>>◌, throw_if,
}
use fixed_size_memory_pool.Memory.{Ptr, null}

pub record ArenaChunk : Type 0 where
  pub storage : Ptr
  pub capacity : ℕ
  pub alignment : ℕ
  pub offset : ℕ

pub record ArenaAllocation : Type 0 where
  pub pointer : Ptr
  pub previous_offset : ℕ
  pub consumed_bytes : ℕ

-- `std::align`: the first aligned address, if `size` bytes still fit into the space behind it.
abbrev pub align : (alignment size : ℕ) → Ptr → (space : ℕ) → Option Ptr
align alignment size pointer space =
    let padding = (alignment - pointer % alignment) % alignment in
    if leb (padding + size) space then some (pointer + padding) else none

-- The chunk and the allocation once `std::align` has found an address.
unfoldable pub bump : ArenaChunk → ℕ → Ptr → ArenaChunk × ArenaAllocation
bump chunk size aligned =
    let offset = add_word (sub_word aligned chunk.storage) size in
    (
      record chunk { offset = offset },
      record {
        pointer = aligned;
        previous_offset = chunk.offset;
        consumed_bytes = sub_word offset chunk.offset;
      },
    )

unfoldable pub try_allocate : ArenaChunk → ℕ → ℕ → Option (ArenaChunk × ArenaAllocation)
try_allocate chunk size alignment =
    if ltb chunk.alignment alignment || ltb chunk.capacity chunk.offset
    then none
    else elim (align alignment size (chunk.storage + chunk.offset)
        (chunk.capacity - chunk.offset)) [
          | none ↦ none
          | some aligned ↦ some (bump chunk size aligned)
        ]

unfoldable pub rewind : ArenaChunk → ℕ → ArenaChunk
rewind chunk previous_offset =
    if leb previous_offset chunk.offset then record chunk { offset = previous_offset } else chunk

unfoldable pub chunk_owns : ArenaChunk → Ptr → Bool
chunk_owns chunk pointer =
    if pointer == null
    then false
    else leb chunk.storage pointer && ltb (sub_word pointer chunk.storage) chunk.capacity
