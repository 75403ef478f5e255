-- ===== src/ThreadCache/Options.antt =====
-- The options of src/detail/thread_cache_state.cpp stay as they are while a block is acquired.
use fixed_size_memory_pool.Base.{
  ◌≡◌, ◌∙◌, refl, Bool, not, ◌==◌, either_branch, is_some, Result, ok, err, Error,
}
use fixed_size_memory_pool.Memory.{Ptr, null}
use fixed_size_memory_pool.ThreadCacheOptions.{ThreadCacheOptions}
use fixed_size_memory_pool.ThreadCache.{
  Central, AllocationRecord, ThreadCacheState, Shard, find_record, with_shard, count_allocation,
  count_central, central_allocate, central_deallocate_sized, shard_for,
}
use fixed_size_memory_pool.ThreadCache.Allocate.{
  record_allocation, rethrown, undo_central, recorded, acquired, acquire_recorded,
}

module _ {C : Type 0} where
  -- The state that an operation ends in has the options.
  abbrev pub Under {κ} : {A : Type κ} → ThreadCacheOptions → ThreadCacheState C × A → Type 0
  Under options x = x.0.cache_options ≡ options

  count_allocation-Under :
      (s : ThreadCacheState C) (x : C × Result Ptr) → Under s.cache_options (count_allocation s x)
  unfolding count_allocation
  count_allocation-Under s (central, err e) = refl
  count_allocation-Under s (central, ok pointer) = refl

  count_central-Under :
      (s : ThreadCacheState C) (x : C × Result (Unit {0}))
      → Under s.cache_options (count_central s x)
  unfolding count_central
  count_central-Under s (central, err e) = refl
  count_central-Under s (central, ok _) = refl

  rethrown-Under :
      (options : ThreadCacheOptions) (e : Error) (x : ThreadCacheState C × Result (Unit {0}))
      → Under options x
      → Under options (rethrown e x)
  unfolding rethrown
  rethrown-Under options e (after, err e') under = under
  rethrown-Under options e (after, ok _) under = under

  module _ (ops : Central C) (can_insert : Shard → Ptr → Bool) where
    record_allocation-Under :
        (s : ThreadCacheState C) (p : Ptr) (r : AllocationRecord)
        → Under s.cache_options (record_allocation ops can_insert s p r)
    unfolding record_allocation with_shard
    record_allocation-Under s p r =
        either_branch (Under s.cache_options) (not (can_insert (s.shards (shard_for p)) p)) _ _ refl
          (either_branch (Under s.cache_options) (is_some (find_record s p)) _ _ refl refl)

    undo_central-Under :
        (s : ThreadCacheState C) (p : Ptr) (size alignment : _) (e : Error)
        → Under s.cache_options (undo_central ops can_insert s p size alignment e)
    unfolding undo_central central_deallocate_sized
    undo_central-Under s p size alignment e =
        either_branch (Under s.cache_options) (p == null) _ _ refl
          (rethrown-Under s.cache_options e _ (count_central-Under s _))

    recorded-Under :
        (options : ThreadCacheOptions) (r : AllocationRecord) (p : Ptr)
        (x : ThreadCacheState C × Result (Unit {0}))
        → Under options x
        → Under options (recorded ops can_insert r p x)
    unfolding recorded
    recorded-Under options r p (after, err e) under = undo_central-Under after p _ _ e ∙ under
    recorded-Under options r p (after, ok _) under = under

    acquired-Under :
        (options : ThreadCacheOptions) (r : AllocationRecord) (x : ThreadCacheState C × Result Ptr)
        → Under options x
        → Under options (acquired ops can_insert r x)
    unfolding acquired
    acquired-Under options r (after, err e) under = under
    acquired-Under options r (after, ok p) under =
        recorded-Under options r p _ (record_allocation-Under after p r ∙ under)

    pub acquire_recorded-Under :
        (s : ThreadCacheState C) (r : AllocationRecord)
        → Under s.cache_options (acquire_recorded ops can_insert s r)
    unfolding acquire_recorded central_allocate
    acquire_recorded-Under s r = acquired-Under s.cache_options r _ (count_allocation-Under s _)
