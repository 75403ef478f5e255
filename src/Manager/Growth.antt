-- ===== src/Manager/Growth.antt =====
-- The size of the next chunk.
use fixed_size_memory_pool.Base.{ℕ, ◌*◌, ◌<◌, ◌≡◌, min_of, size_mod}
use fixed_size_memory_pool.Base.Saturation.{growth_limit, saturated-min}
use fixed_size_memory_pool.Manager.{ChunkManagerOptions, geometric, calculate_next_growth}

-- With geometric growth by a factor that is not zero and a maximum that is a word, the next chunk
-- gets the exact product of the current block count and the factor, or the limit if that is less.
-- The limit is the configured maximum, or the largest std::size_t where no maximum is configured.
pub calculate_next_growth-geometric :
    (options : ChunkManagerOptions) (current_blocks : ℕ)
    → options.growth.mode ≡ geometric
    → 0 < options.growth.factor
    → options.growth.maximum_blocks_per_chunk < size_mod
    → calculate_next_growth options current_blocks
      ≡ min_of
          (current_blocks * options.growth.factor)
          (growth_limit options.growth.maximum_blocks_per_chunk)
unfolding calculate_next_growth
calculate_next_growth-geometric options current_blocks mode positive word = rw mode (
    saturated-min current_blocks options.growth.factor options.growth.maximum_blocks_per_chunk
      positive word)
