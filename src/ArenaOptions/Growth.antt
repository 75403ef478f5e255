-- ===== src/ArenaOptions/Growth.antt =====
-- The size of the next chunk of an arena.
use fixed_size_memory_pool.Base.{ℕ, ◌*◌, ◌<◌, ◌≡◌, min_of, size_mod}
use fixed_size_memory_pool.Base.Saturation.{growth_limit, saturated-min}
use fixed_size_memory_pool.ArenaOptions.{
  MonotonicArenaOptions, geometric, calculate_next_chunk_size,
}

-- With geometric growth by a factor that is not zero and a maximum that is a word, the next chunk
-- of an arena gets the exact product of the current size and the factor, or the limit if that is
-- less. The limit is the configured maximum, or the largest std::size_t where none is configured.
pub calculate_next_chunk_size-geometric :
    (options : MonotonicArenaOptions) (current_size : ℕ)
    → options.growth.mode ≡ geometric
    → 0 < options.growth.factor
    → options.growth.maximum_chunk_size < size_mod
    → calculate_next_chunk_size options current_size
      ≡ min_of
          (current_size * options.growth.factor)
          (growth_limit options.growth.maximum_chunk_size)
unfolding calculate_next_chunk_size
calculate_next_chunk_size-geometric options current_size mode positive word = rw mode (
    saturated-min current_size options.growth.factor options.growth.maximum_chunk_size positive
      word)
