-- ===== src/Chunk/Invariant.antt =====
-- The well-formed chunks: the links in memory, the counter and the state bytes describe one list of
-- free blocks. Construction establishes it.
use fixed_size_memory_pool.Base.{
  ℕ, ◌+◌, ◌*◌, ◌<◌, ◌≤◌, ◌≡◌, List, [], has, length, get_or, arith, size_mod, if◌then◌else◌,
  get_or-replicate, length-replicate,
}
use fixed_size_memory_pool.Memory.{Ptr, Memory}
use fixed_size_memory_pool.Layout.{BlockLayout}
use fixed_size_memory_pool.FreeList.Region.{IsRegion}
use fixed_size_memory_pool.FreeList.Chain.{
  IsFreeList, indices, has-indices, initialize_free_list-IsFreeList,
}
use fixed_size_memory_pool.Chunk.{Chunk, build}

-- A state byte is 0 exactly at the free blocks, and 1 at the live ones.
abbrev pub StatesAgree : List ℕ → ℕ → List ℕ → Type 0
StatesAgree states count free =
    (i : ℕ) → i < count → get_or states i 0 ≡ (if has i free then 0 else 1)

pub record IsChunk (m : Memory) (c : Chunk) (free : List ℕ) : Type 0 where
  pub region : IsRegion c.storage c.block_stride c.block_count
  pub whole : c.storage_size ≡ c.block_stride * c.block_count
  pub list : IsFreeList c.storage c.block_stride c.block_count m c.free_head c.free_blocks free
  pub tracked : length c.states ≡ c.block_count
  pub agree : StatesAgree c.states c.block_count free

-- What the constructor relies on: the layout's storage at an address that is not null, below the
-- top of the address space.
pub record IsStorage (l : BlockLayout) (storage : Ptr) : Type 0 where
  pub node_fits : 8 ≤ l.block_stride
  pub whole : l.storage_size ≡ l.block_stride * l.block_count
  pub positive : 0 < storage
  pub fits : storage + l.storage_size < size_mod

pub build-IsChunk :
    (l : BlockLayout) (storage : Ptr) (m : Memory)
    → IsStorage l storage
    → IsChunk (build l storage m).0 (build l storage m).1 (indices l.block_count [])
unfolding build
build-IsChunk l storage m v =
    let region : IsRegion storage l.block_stride l.block_count = record {
      positive = v.positive;
      node_fits = v.node_fits;
      fits = omega (arith, v.fits, v.whole);
    } in
    record {
      region = region;
      whole = v.whole;
      list = initialize_free_list-IsFreeList region m;
      tracked = length-replicate l.block_count 0;
      agree = λ i h.
          ground
            (arith, has-indices l.block_count i [], get_or-replicate {A = ℕ} l.block_count i 0 0);
    }
