-- ===== src/Chunk/Examples.antt =====
-- The chunk theorems at a chunk of two blocks of 16 bytes at address 64.
use fixed_size_memory_pool.Base.{
  ℕ, ◌<◌, ◌≡◌, ◌⊎◌, ◌↔◌, refl, [], ◌∷◌, true, arith, ok, err, invalid_pool_pointer, double_free,
}
use fixed_size_memory_pool.Memory.{Memory, load_bytes, store_bytes, write_byte}
use fixed_size_memory_pool.Layout.{BlockLayout}
use fixed_size_memory_pool.FreeList.{initialize_free_list}
use fixed_size_memory_pool.Chunk.{
  Chunk, build, allocate, release, deallocate, is_block_start, block_index,
}
use fixed_size_memory_pool.Chunk.Invariant.{IsChunk, IsStorage, build-IsChunk}
use fixed_size_memory_pool.Chunk.Ownership.{block, is_block_start_iff}
use fixed_size_memory_pool.Chunk.Operations.{deallocate-allocate}
use fixed_size_memory_pool.Chunk.Reach.{
  WellFormed, Reach-build, here, next, take, deallocate-WellFormed,
}

abbrev two_blocks : BlockLayout
two_blocks = record {
  block_size = 16;
  block_count = 2;
  alignment = 16;
  payload_offset = 0;
  block_stride = 16;
  storage_size = 32;
}

two_blocks-IsStorage : IsStorage two_blocks 64
two_blocks-IsStorage = omega arith

abbrev blank : Memory
blank _ = 0

abbrev memory : Memory
memory = (build two_blocks 64 blank).0

abbrev chunk : Chunk
chunk = (build two_blocks 64 blank).1

chunk-IsChunk : IsChunk memory chunk (0 ∷ 1 ∷ [])
chunk-IsChunk = build-IsChunk two_blocks 64 blank two_blocks-IsStorage

-- The blocks come in address order, then null.
allocates_in_order :
    ((allocate memory chunk).1 ≡ 64)
    × ((allocate memory (allocate memory chunk).0).1 ≡ 80)
    × ((allocate memory (allocate memory (allocate memory chunk).0).0).1 ≡ 0)
unfolding build allocate block_index initialize_free_list load_bytes store_bytes write_byte
allocates_in_order = (refl, refl, refl)

Reach-build_example : WellFormed memory (allocate memory chunk).0
Reach-build_example =
    Reach-build two_blocks 64 blank memory (allocate memory chunk).0 two_blocks-IsStorage
      (next here take)

deallocate-allocate_example :
    let (taken, p) = allocate memory chunk in
    (deallocate memory taken p ≡ ok (release memory taken p))
    × IsChunk (release memory taken p).0 (release memory taken p).1 (0 ∷ 1 ∷ [])
    × ((allocate (release memory taken p).0 (release memory taken p).1).1 ≡ p)
deallocate-allocate_example = deallocate-allocate memory chunk 0 (1 ∷ []) chunk-IsChunk

deallocate-WellFormed_example :
    (deallocate memory chunk 65 ≡ err invalid_pool_pointer)
    ⊎ (deallocate memory chunk 65 ≡ err double_free)
    ⊎ ((m' : Memory) × (c' : Chunk) × (deallocate memory chunk 65 ≡ ok (m', c')) × WellFormed m' c')
deallocate-WellFormed_example =
    deallocate-WellFormed memory chunk (0 ∷ 1 ∷ []) 65 chunk-IsChunk (omega arith)

is_block_start_iff_example :
    (is_block_start chunk 80 ≡ true) ↔ ((i : ℕ) × (i < chunk.block_count) × (80 ≡ block chunk i))
is_block_start_iff_example = is_block_start_iff chunk-IsChunk 80 (omega arith)
