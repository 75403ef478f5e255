-- ===== src/Chunk.antt =====
-- src/memory_chunk.cpp: one backing allocation of equal blocks, with a state byte for each block.
-- `Chunk` is `MemoryChunk::Impl` without its provider pointer, which the calls that use it take.
pub mod Invariant
pub mod Operations
pub mod Ownership
pub mod Reach
mod Examples
use fixed_size_memory_pool.Base.{
  ℕ, ◌+◌, ◌/◌, ◌%◌, Bool, true, false, not, ◌&&◌, ltb, leb, ◌==◌, if◌then◌else◌, Option, none, some,
  List, replicate, get_or, set, Result, ok, err, invalid_argument, invalid_pool_pointer,
  double_free, ◌>>=◌, ◌>>◌, throw_if, add_word, sub_word,
}
use fixed_size_memory_pool.Memory.{Ptr, null, Memory, load_word, store_word}
use fixed_size_memory_pool.Provider.{Provider, World}
use fixed_size_memory_pool.Layout.{BlockLayout, make_block_layout}
use fixed_size_memory_pool.FreeList.{free_node_size, free_node_alignment, initialize_free_list}

pub record Chunk : Type 0 where
  pub storage : Ptr
  pub free_head : Ptr
  pub states : List ℕ
  pub block_size : ℕ
  pub block_count : ℕ
  pub alignment : ℕ
  pub block_stride : ℕ
  pub storage_size : ℕ
  pub free_blocks : ℕ

-- The constructor once the provider has answered: the states are cleared and the blocks linked.
unfoldable pub build : BlockLayout → Ptr → Memory → Memory × Chunk
build l storage m =
    let (linked, head) = initialize_free_list storage l.block_stride l.block_count m in
    (
      linked,
      record {
        storage = storage;
        free_head = head;
        states = replicate l.block_count 0;
        block_size = l.block_size;
        block_count = l.block_count;
        alignment = l.alignment;
        block_stride = l.block_stride;
        storage_size = l.storage_size;
        free_blocks = l.block_count;
      },
    )

module _ {S : Type 0} where
  unfoldable pub acquire : Provider S → BlockLayout → World S → World S × Result Chunk
  acquire provider l w =
      let (heap, answer) = provider.allocate w.heap l.storage_size l.alignment in
      elim answer [
        | err e ↦ (record w { heap = heap }, err e)
        | ok storage ↦
            let (linked, chunk) = build l storage w.memory in
            (record { heap = heap; memory = linked }, ok chunk)
      ]

  -- `MemoryChunk::MemoryChunk`. A null provider is `none`.
  unfoldable pub construct : Option (Provider S) → ℕ → ℕ → ℕ → World S → World S × Result Chunk
  construct none block_size block_count alignment w = (w, err invalid_argument)
  construct (some provider) block_size block_count alignment w =
      elim (make_block_layout block_size block_count alignment false free_node_size
        free_node_alignment 0) [ err e ↦ (w, err e) | ok l ↦ acquire provider l w ]

  -- `~Impl`.
  unfoldable pub destroy : Provider S → Chunk → World S → World S
  destroy provider c w = record w {
    heap = provider.deallocate w.heap c.storage c.storage_size c.alignment;
  }

unfoldable pub block_index : Chunk → Ptr → ℕ
block_index c p = sub_word p c.storage / c.block_stride

-- The chunk afterwards, and the block or null.
unfoldable pub allocate : Memory → Chunk → Chunk × Ptr
allocate m c = if c.free_head == null then (c, null) else (
  record c {
    free_head = load_word m c.free_head;
    free_blocks = sub_word c.free_blocks 1;
    states = set c.states (block_index c c.free_head) 1;
  },
  c.free_head,
)

unfoldable pub owns : Chunk → Ptr → Bool
owns c p = if p == null then false else leb c.storage p && ltb (sub_word p c.storage) c.storage_size

unfoldable pub is_block_start : Chunk → Ptr → Bool
is_block_start c p = if not (owns c p) then false else sub_word p c.storage % c.block_stride == 0

-- The block is marked free and becomes the head of the list.
unfoldable pub release : Memory → Chunk → Ptr → Memory × Chunk
release m c p = (
  store_word m p c.free_head,
  record c {
    states = set c.states (block_index c p) 0;
    free_head = p;
    free_blocks = add_word c.free_blocks 1;
  },
)

unfoldable pub deallocate : Memory → Chunk → Ptr → Result (Memory × Chunk)
deallocate m c p = if p == null then ok (m, c) else do
  throw_if (not (is_block_start c p)) invalid_pool_pointer
  throw_if (get_or c.states (block_index c p) 0 == 0) double_free
  ok (release m c p)

unfoldable pub empty : Chunk → Bool
empty c = c.free_blocks == c.block_count

unfoldable pub available : Chunk → ℕ
available c = c.free_blocks

unfoldable pub in_use : Chunk → ℕ
in_use c = sub_word c.block_count c.free_blocks
