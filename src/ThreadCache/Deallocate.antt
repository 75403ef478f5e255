-- ===== src/ThreadCache/Deallocate.antt =====
-- `deallocate` of src/detail/thread_cache_state.cpp. The size and the alignment, which come together,
-- are `none` where the source's pointers to them are null.
use fixed_size_memory_pool.Base.{
  ℕ, Bool, false, not, ◌||◌, ◌==◌, ltb, if◌then◌else◌, Option, none, some, List, [], ◌∷◌, length,
  get_or, set, Result, ok, err, invalid_pool_pointer, double_free, add_word, sub_word,
}
use fixed_size_memory_pool.Base.Maps.{erase, assign}
use fixed_size_memory_pool.Memory.{Ptr}
use fixed_size_memory_pool.ThreadCacheOptions.{ThreadCacheStatistics, note_local}
use fixed_size_memory_pool.ThreadCache.{
  Central, AllocationRecord, ThreadCacheState, Bins, fallback_class, find_record, with_shard, tally,
  central_deallocate, central_deallocate_sized, validate_sized_deallocation, flush_bin,
}

abbrev pub note_return : ThreadCacheStatistics → ThreadCacheStatistics
note_return t = record t { deallocation_requests = add_word t.deallocation_requests 1 }

abbrev pub note_central : (remote : Bool) → ThreadCacheStatistics → ThreadCacheStatistics
note_central remote t = record t {
  remote_deallocations =
      if remote then add_word t.remote_deallocations 1 else t.remote_deallocations;
  live_allocations = sub_word t.live_allocations 1;
}

abbrev pub accepted :
    {C : Type 0} → ThreadCacheState C → AllocationRecord → Option (ℕ × ℕ) → Result (Unit {0})
accepted s r none = ok tt
accepted s r (some (size, alignment)) = validate_sized_deallocation s r size alignment

-- The erasure of the record of a block that the central allocator has taken.
unfoldable pub erase_central :
    {C : Type 0}
    → Ptr
    → (remote : Bool) → ThreadCacheState C × Result (Unit {0})
    → ThreadCacheState C × Result (Unit {0})
erase_central pointer remote (after, err e) = (after, err e)
erase_central pointer remote (after, ok _) =
    (tally (with_shard after pointer (erase pointer)) (note_central remote), ok tt)

module _ {C : Type 0} (ops : Central C) where
  unfoldable pub return_central :
      ThreadCacheState C → Ptr → Option (ℕ × ℕ) → ThreadCacheState C × Result (Unit {0})
  return_central s pointer none = central_deallocate ops s pointer
  return_central s pointer (some (size, alignment)) =
      central_deallocate_sized ops s pointer size alignment

  -- A block of another thread, or without a size class.
  unfoldable pub deallocate_central :
      ThreadCacheState C
      → Ptr
      → Option (ℕ × ℕ)
      → (remote : Bool) → ThreadCacheState C × Result (Unit {0})
  deallocate_central s pointer supplied remote =
      erase_central pointer remote (return_central s pointer supplied)

  -- The push into the bin, and the flush of a bin that has become too long.
  unfoldable pub push_cached :
      ThreadCacheState C → List Ptr → Ptr → ThreadCacheState C × List Ptr × Result (Unit {0})
  push_cached s bin pointer =
      if ltb s.cache_options.high_watermark (length (pointer ∷ bin))
      then (let (after, left, answer) =
            flush_bin ops s (pointer ∷ bin) s.cache_options.low_watermark in
          (after, left, elim answer [ err e ↦ err e | ok _ ↦ ok tt ]))
      else (s, pointer ∷ bin, ok tt)

  unfoldable pub deallocate_local :
      ThreadCacheState C
      → Bins
      → Ptr
      → AllocationRecord
      → ThreadCacheState C × Bins × Result (Unit {0})
  deallocate_local s bins pointer r =
      let freed = with_shard s pointer (assign pointer (record r { active = false })) in
      let (after, bin, answer) =
        push_cached (tally freed note_local) (get_or bins r.class_index []) pointer in
      (after, set bins r.class_index bin, answer)

  -- An active block whose supplied size and alignment, if there are any, have been accepted.
  unfoldable pub deallocate_active :
      ThreadCacheState C
      → (thread : ℕ) → Bins
      → Ptr
      → Option (ℕ × ℕ)
      → AllocationRecord
      → ThreadCacheState C × Bins × Result (Unit {0})
  deallocate_active s thread bins pointer supplied r =
      let remote = not (r.owner_thread == thread) in
      if remote || (r.class_index == fallback_class)
      then (let (after, answer) = deallocate_central s pointer supplied remote in
          (after, bins, answer))
      else deallocate_local s bins pointer r

  unfoldable pub deallocate :
      ThreadCacheState C
      → (thread : ℕ) → Bins
      → Ptr
      → Option (ℕ × ℕ)
      → ThreadCacheState C × Bins × Result (Unit {0})
  deallocate s thread bins pointer supplied =
      let requested = tally s note_return in
      elim (find_record s pointer) [
        | none ↦ (requested, bins, err invalid_pool_pointer)
        | some r ↦
            if not r.active
            then (requested, bins, err double_free)
            else elim (accepted s r supplied) [
              | err e ↦ (requested, bins, err e)
              | ok _ ↦ deallocate_active requested thread bins pointer supplied r
            ]
      ]
