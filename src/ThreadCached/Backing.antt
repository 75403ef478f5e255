-- ===== src/ThreadCached/Backing.antt =====
-- The central allocator of src/detail/thread_cache_state.cpp, which is a segregated allocator, and the
-- constructor of the shared part.
use fixed_size_memory_pool.Base.{ℕ, Bool, List, [], Option, Result, ok, err, ◌>>=◌}
use fixed_size_memory_pool.Memory.{Ptr}
use fixed_size_memory_pool.Provider.{Provider, Operators, World}
use fixed_size_memory_pool.SizeClass
use fixed_size_memory_pool.SegregatedOptions.{SegregatedAllocatorOptions}
use fixed_size_memory_pool.Segregated
use fixed_size_memory_pool.Segregated.{Segregated, Fallbacks}
use fixed_size_memory_pool.Segregated.Construction
use fixed_size_memory_pool.ThreadCacheOptions.{
  ThreadCacheOptions, validate_cache_options, no_statistics,
}
use fixed_size_memory_pool.ThreadCache.{Central, ThreadCacheState}

abbrev pub Backing : Type 0 → Type 0
Backing S = World S × Segregated S

module _ {S : Type 0} where
  unfoldable pub segregated_central : (can_insert : Fallbacks → Ptr → Bool) → Central (Backing S)
  segregated_central can_insert = record {
    allocate = λ (w, a) size alignment.
        let (after, changed, answer) = Segregated.allocate can_insert a size alignment w in
        ((after, changed), answer);
    deallocate = λ (w, a) pointer.
        let (after, changed, answer) = Segregated.deallocate a pointer w in
        ((after, changed), answer);
    deallocate_sized = λ (w, a) pointer size alignment.
        let (after, changed, answer) = Segregated.deallocate_sized a pointer size alignment w in
        ((after, changed), answer);
  }

  abbrev pub initial : ThreadCacheOptions → List ℕ → Backing S → ThreadCacheState (Backing S)
  initial options selector central = record {
    cache_options = options;
    selector = selector;
    central = central;
    shards = λ i. [];
    statistics = no_statistics;
  }

  -- `ThreadCacheState::ThreadCacheState`, whose members are initialised in this order. The
  -- result keeps what the central allocator holds.
  unfoldable pub construct :
      Operators S
      → SegregatedAllocatorOptions
      → ThreadCacheOptions
      → Option (Provider S)
      → World S
      → World S × Result (ThreadCacheState (Backing S))
  construct operators options cache_options provider w =
      elim (validate_cache_options cache_options) [
        | err e ↦ (w, err e)
        | ok checked ↦ elim (SizeClass.construct options.size_classes) [
          | err e ↦ (w, err e)
          | ok selector ↦
              let (after, answer) = Construction.construct operators options provider w in
              (after, answer >>= λ central. ok (initial checked selector (after, central)))
        ]
      ]
