-- ===== src/FreeList.antt =====
-- The intrusive free list of src/memory_chunk.cpp and src/fixed_size_memory_pool.cpp: the first
-- word of a free block holds the address of the next one.
pub mod Chain
pub mod Region
use fixed_size_memory_pool.Base.{ℕ, zero, suc, ◌+◌, ◌*◌}
use fixed_size_memory_pool.Memory.{Ptr, null, Memory, store_word}

-- `sizeof(FreeNode)` and `alignof(FreeNode)`: one 64-bit pointer.
abbrev pub free_node_size : ℕ
free_node_size = 8

abbrev pub free_node_alignment : ℕ
free_node_alignment = 8

abbrev pub block_at : ℕ → ℕ → ℕ → Ptr
block_at storage stride index = storage + index * stride

-- The loop that links the blocks `index - 1`, ..., 0 in front of `head`.
unfoldable pub link_blocks : (storage stride index : ℕ) → Memory → Ptr → Memory × Ptr
link_blocks storage stride zero m head = (m, head)
link_blocks storage stride (suc index) m head =
    link_blocks storage stride index (store_word m (block_at storage stride index) head)
      (block_at storage stride index)

unfoldable pub initialize_free_list : (storage stride count : ℕ) → Memory → Memory × Ptr
unfolding link_blocks
initialize_free_list storage stride count m = link_blocks storage stride count m null
