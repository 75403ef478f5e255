-- ===== src/ThreadCached/Examples.antt =====
-- The theorems on cached threads at two threads over a central allocator that never reuses a block.
use fixed_size_memory_pool.Base.{
  ℕ, ◌+◌, ◌≡◌, refl, Bool, true, false, [], ◌∷◌, none, ok, err, double_free, length, ◌≤◌, get_or,
}
use fixed_size_memory_pool.Base.Bits.{is_power_of_two}
use fixed_size_memory_pool.Base.Maps.{lookup, assign}
use fixed_size_memory_pool.Memory.{Ptr}
use fixed_size_memory_pool.SizeClass.{select, lower_bound}
use fixed_size_memory_pool.ThreadCacheOptions.{
  no_statistics, validate_cache_options, note_live_allocation, note_cached, update_peak,
}
use fixed_size_memory_pool.ThreadCache.{
  Central, Shard, flush_bin, find_record, shard_for, with_shard, tally, central_allocate,
  count_allocation,
}
use fixed_size_memory_pool.ThreadCache.Allocate
use fixed_size_memory_pool.ThreadCache.Allocate.{
  record_allocation, recorded, acquired, acquire_recorded, refill_rest, next_round, refilled,
  continue_refill, refill, allocate_cached,
}
use fixed_size_memory_pool.ThreadCache.Deallocate
use fixed_size_memory_pool.ThreadCache.Deallocate.{note_return}
use fixed_size_memory_pool.ThreadCache.Bin.{IsBin}
use fixed_size_memory_pool.ThreadCache.Draining.{Drains, flush_bin-Drains}
use fixed_size_memory_pool.ThreadCache.Capacity.{thrown}
use fixed_size_memory_pool.ThreadCache.Usage
use fixed_size_memory_pool.ThreadCache.Usage.{begins, returns, Uses-Within}
use fixed_size_memory_pool.ThreadCached.{get, allocate, deallocate}
use fixed_size_memory_pool.ThreadCached.Threads.{System, IsConsistent}
use fixed_size_memory_pool.ThreadCached.Steps.{
  IsFresh, Reach, start, later, allocates, thread_allocates, Reach-IsConsistent,
}
use fixed_size_memory_pool.ThreadCached.Promises.{
  holds, cached_once, deallocate-cached, allocate-cached,
}

-- The next address.
abbrev central : Central ℕ
central = record {
  allocate = λ next size alignment. (next + 16, ok next);
  deallocate = λ next p. (next, ok tt);
  deallocate_sized = λ next p size alignment. (next, ok tt);
}

abbrev room : Shard → Ptr → Bool
room shard p = true

abbrev living : ℕ → Bool
living id = false

abbrev quiet : System ℕ
quiet = record {
  shared = record {
    cache_options = record { low_watermark = 1; high_watermark = 2; refill_batch = 2 };
    selector = 16 ∷ 32 ∷ [];
    central = 64;
    shards = λ i. [];
    statistics = no_statistics;
  };
  registries = λ t. [];
}

-- After the first allocation of thread 1, which has the block at 64 and caches that at 80.
abbrev busy : System ℕ
busy = thread_allocates central room living 5 quiet 1 10 8

quiet-IsFresh : IsFresh central room living 5 quiet
unfolding lookup
quiet-IsFresh t = refl

quiet-Reach : Reach central room living 5 quiet busy
quiet-Reach = later start (allocates 1 10 8)

Reach-IsConsistent_example : IsConsistent 5 busy
Reach-IsConsistent_example = Reach-IsConsistent central room living 5 quiet-IsFresh quiet-Reach

busy-holds : holds central room living 5 busy 1 0 80 ≡ true
unfolding lookup assign is_power_of_two select lower_bound note_live_allocation note_cached
    update_peak find_record shard_for with_shard central_allocate count_allocation record_allocation
    recorded acquired acquire_recorded refill_rest next_round refilled continue_refill refill
    allocate_cached Allocate.allocate get allocate
busy-holds = refl

cached_once_example : ◌≡◌ {A = ℕ} 1 1 × ◌≡◌ {A = ℕ} 0 0
cached_once_example =
    cached_once central room living 5 quiet-IsFresh quiet-Reach 1 0 1 0 80 busy-holds busy-holds

-- Thread 2 returns a block that thread 1 has cached.
deallocate-cached_example :
    ((deallocate central room living 5 2 busy.shared (busy.registries 2) 80 none).0
      ≡ tally busy.shared note_return)
    × ((deallocate central room living 5 2 busy.shared (busy.registries 2) 80 none).2
        ≡ err double_free)
deallocate-cached_example =
    deallocate-cached central room living 5 quiet-IsFresh quiet-Reach 1 0 2 80 none busy-holds refl

allocate-cached_example :
    ((allocate central room living 5 1 busy.shared (busy.registries 1) 12 16).2 ≡ ok 80)
    × ((allocate central room living 5 1 busy.shared (busy.registries 1) 12 16).0.central
        ≡ busy.shared.central)
unfolding lookup assign is_power_of_two select lower_bound note_live_allocation note_cached
    update_peak find_record shard_for with_shard central_allocate count_allocation record_allocation
    recorded acquired acquire_recorded refill_rest next_round refilled continue_refill refill
    allocate_cached Allocate.allocate get allocate
allocate-cached_example =
    allocate-cached central room living 5 quiet-IsFresh quiet-Reach 1 0 12 16 80
      ((80 ∷ []) ∷ [] ∷ []) [] refl refl refl refl

busy-IsBin : IsBin busy.shared 1 0 (80 ∷ [])
unfolding lookup assign is_power_of_two select lower_bound note_live_allocation note_cached
    update_peak find_record shard_for with_shard central_allocate count_allocation record_allocation
    recorded acquired acquire_recorded refill_rest next_round refilled continue_refill refill
    allocate_cached Allocate.allocate get allocate
busy-IsBin = held 1 0
  where
    held : IsConsistent 5 busy
    held = Reach-IsConsistent central room living 5 quiet-IsFresh quiet-Reach

flush_bin-Drains_example : Drains central (80 ∷ []) 0 (flush_bin central busy.shared (80 ∷ []) 0)
flush_bin-Drains_example = flush_bin-Drains central 1 0 busy.shared (80 ∷ []) 0 busy-IsBin

-- Thread 1 has returned the block that it was given, without an exception.
Uses-Within_example :
    length
      (get_or ((Deallocate.deallocate central busy.shared 1 ((80 ∷ []) ∷ [] ∷ []) 64 none).1) 0 [])
    ≤ 2
      + (0 + thrown ((Deallocate.deallocate central busy.shared 1 ((80 ∷ []) ∷ [] ∷ []) 64 none).2))
unfolding lookup assign is_power_of_two select lower_bound note_live_allocation note_cached
    update_peak find_record shard_for with_shard central_allocate count_allocation record_allocation
    recorded acquired acquire_recorded refill_rest next_round refilled continue_refill refill
    allocate_cached Allocate.allocate get allocate validate_cache_options
Uses-Within_example =
    Uses-Within central room busy.shared.cache_options refl
      (returns busy.shared 1 64 none refl (Usage.allocates quiet.shared 1 10 8 refl (begins 2))) 0
