-- ===== src/ArenaOptions/Examples.antt =====
-- The growth of an arena whose chunks double up to 6000 bytes.
use fixed_size_memory_pool.Base.{◌*◌, ◌≡◌, refl, arith, min_of}
use fixed_size_memory_pool.Base.Saturation.{growth_limit}
use fixed_size_memory_pool.ArenaOptions.{
  MonotonicArenaOptions, geometric, retain_all_chunks, calculate_next_chunk_size,
}
use fixed_size_memory_pool.ArenaOptions.Growth.{calculate_next_chunk_size-geometric}

abbrev doubling : MonotonicArenaOptions
doubling = record {
  initial_chunk_size = 4096;
  initial_alignment = 16;
  growth = record { mode = geometric; factor = 2; maximum_chunk_size = 6000 };
  reset_policy = retain_all_chunks;
}

calculate_next_chunk_size-geometric_example :
    calculate_next_chunk_size doubling 4096 ≡ min_of (4096 * 2) (growth_limit 6000)
calculate_next_chunk_size-geometric_example =
    calculate_next_chunk_size-geometric doubling 4096 refl (omega arith) (omega arith)
