-- ===== src/Segregated/Construction.antt =====
-- The constructor, the destructor and the queries of src/segregated_allocator.cpp.
use fixed_size_memory_pool.Base.{
  ℕ, Bool, ◌||◌, ◌==◌, if◌then◌else◌, is_some, Option, none, some, List, [], ◌∷◌, ◌++◌, get_or,
  Result, ok, err, invalid_argument, ◌>>=◌,
}
use fixed_size_memory_pool.Base.Maps.{lookup}
use fixed_size_memory_pool.Memory.{Ptr}
use fixed_size_memory_pool.Provider.{Provider, Operators, World, or_default}
use fixed_size_memory_pool.SizeClass
use fixed_size_memory_pool.Manager.{ChunkManagerOptions}
use fixed_size_memory_pool.ChunkPool
use fixed_size_memory_pool.ChunkPool.{ChunkPool, grow_on_exhaustion}
use fixed_size_memory_pool.SegregatedOptions.{
  SegregatedAllocatorOptions, SizeClassStatistics, new_class, no_statistics,
}
use fixed_size_memory_pool.Segregated.{Segregated, GrowingChunkPool, Fallbacks, owning_class}

abbrev pub pool_options : SegregatedAllocatorOptions → ℕ → ChunkManagerOptions
pool_options options class_size = record {
  block_size = class_size;
  initial_blocks = options.initial_blocks_per_class;
  alignment = class_size;
  growth = options.growth;
  spare_empty_chunks = options.spare_empty_chunks;
}

unfoldable pub class_statistics : List ℕ → List SizeClassStatistics
class_statistics [] = []
class_statistics (class_size ∷ rest) = new_class class_size ∷ class_statistics rest

module _ {S : Type 0} where
  unfoldable pub destroy_pools : List (GrowingChunkPool S) → World S → World S
  destroy_pools [] w = w
  destroy_pools (pool ∷ rest) w = destroy_pools rest (ChunkPool.destroy grow_on_exhaustion pool w)

  -- The loop of the constructor; an exception destroys the pools that are there already.
  unfoldable pub construct_pools :
      Operators S
      → SegregatedAllocatorOptions
      → Provider S
      → List ℕ
      → List (GrowingChunkPool S)
      → World S
      → World S × Result (List (GrowingChunkPool S))
  construct_pools operators options provider [] pools w = (w, ok pools)
  construct_pools operators options provider (class_size ∷ rest) pools w =
      let (after, answer) =
        ChunkPool.construct grow_on_exhaustion operators (pool_options options class_size)
          (some provider) tt w in
      elim answer [
        | err e ↦ (destroy_pools pools after, err e)
        | ok pool ↦ construct_pools operators options provider rest (pools ++ (pool ∷ [])) after
      ]

  abbrev pub assembled : Provider S → List ℕ → List (GrowingChunkPool S) → Segregated S
  assembled provider selector pools = record {
    selector = selector;
    provider = provider;
    pools = pools;
    fallback_allocations = [];
    statistics = record no_statistics { size_classes = class_statistics selector };
  }

  -- `SegregatedAllocator::SegregatedAllocator`.
  unfoldable pub construct :
      Operators S
      → SegregatedAllocatorOptions
      → Option (Provider S)
      → World S
      → World S × Result (Segregated S)
  construct operators options provider w = elim (SizeClass.construct options.size_classes) [
    | err e ↦ (w, err e)
    | ok selector ↦
        if options.initial_blocks_per_class == 0
        then (w, err invalid_argument)
        else (let backing = or_default operators provider in
            let (after, answer) = construct_pools operators options backing selector [] w in
            (after, answer >>= λ pools. ok (assembled backing selector pools)))
  ]

  unfoldable pub return_fallbacks : Provider S → Fallbacks → S → S
  return_fallbacks provider [] heap = heap
  return_fallbacks provider ((pointer, f) ∷ rest) heap =
      return_fallbacks provider rest (provider.deallocate heap pointer f.size f.alignment)

  -- `~Impl`: the fallback allocations, then the pools.
  unfoldable pub destroy : Segregated S → World S → World S
  destroy a w =
      destroy_pools a.pools
        (record w { heap = return_fallbacks a.provider a.fallback_allocations w.heap })

  unfoldable pub owns : Segregated S → Ptr → Bool
  owns a pointer =
      is_some (owning_class a.pools pointer) || is_some (lookup pointer a.fallback_allocations)

  unfoldable pub owning_size_class : Segregated S → Ptr → Option ℕ
  owning_size_class a pointer = elim (owning_class a.pools pointer) [
    | none ↦ none
    | some (index, pool) ↦ some (get_or a.selector index 0)
  ]
