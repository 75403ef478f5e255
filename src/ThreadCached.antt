-- ===== src/ThreadCached.antt =====
-- src/thread_cached_allocator.cpp: the allocator that callers see, which finds the bins of the calling
-- thread in the registry of that thread. A registry is `std::unordered_map` from the identifiers
-- of allocators to bins; the end of an allocator's life makes its entries expired.
pub mod Threads
pub mod Steps
pub mod Promises
pub mod Backing
mod Examples
use fixed_size_memory_pool.Base.{
  ℕ, ◌+◌, Bool, not, ◌==◌, if◌then◌else◌, Option, none, some, List, [], ◌∷◌, length, replicate,
  Result, ok, err,
}
use fixed_size_memory_pool.Base.Maps.{lookup, insert, erase, assign}
use fixed_size_memory_pool.Memory.{Ptr, null}
use fixed_size_memory_pool.ThreadCacheOptions.{
  no_statistics, ThreadCacheOptions, validate_cache_options,
}
use fixed_size_memory_pool.ThreadCache
use fixed_size_memory_pool.ThreadCache.{Central, ThreadCacheState, Shard, Bins, flush_bins}
use fixed_size_memory_pool.ThreadCache.Allocate
use fixed_size_memory_pool.ThreadCache.Deallocate

-- `ThreadRegistry::caches`; the bins are those of a `LocalCache`.
abbrev pub Registry : Type 0
Registry = List (ℕ × Bins)

module _ {C : Type 0} where
  abbrev pub class_count : ThreadCacheState C → ℕ
  class_count s = length s.selector

  abbrev pub empty_bins : ThreadCacheState C → Bins
  empty_bins s = replicate (class_count s) []

  -- `ThreadRegistry::get`: the entry of the allocator, made anew if there is none, or if it was
  -- that of an allocator that is gone.
  unfoldable pub get :
      (expired : ℕ → Bool) → Registry → (id : ℕ) → ThreadCacheState C → Registry × Bins
  get expired caches id s = elim (lookup id caches) [
    | none ↦ (insert id (empty_bins s) caches, empty_bins s)
    | some bins ↦
        if not (expired id) then (caches, bins) else (assign id (empty_bins s) caches, empty_bins s)
  ]

  -- The end of `ThreadRegistry::release`: an exception leaves the entry in place.
  unfoldable pub released :
      Registry
      → (id : ℕ) → ThreadCacheState C × Bins × Result ℕ
      → ThreadCacheState C × Registry × Result ℕ
  released caches id (after, left, err e) = (after, assign id left caches, err e)
  released caches id (after, left, ok n) = (after, erase id caches, ok n)

module _ {C : Type 0} (ops : Central C) where
  -- `ThreadRegistry::release`, for an allocator that is alive.
  unfoldable pub release :
      Registry → (id : ℕ) → ThreadCacheState C → ThreadCacheState C × Registry × Result ℕ
  release caches id s = elim (lookup id caches) [
    | none ↦ (s, caches, ok 0)
    | some bins ↦ released caches id (flush_bins ops s bins 0)
  ]

  -- `~Impl`, which drops the exceptions of the release.
  unfoldable pub destroy : Registry → (id : ℕ) → ThreadCacheState C → ThreadCacheState C × Registry
  destroy caches id s = let (after, left, _) = release caches id s in (after, left)

  -- `~ThreadRegistry` for the entry of one allocator that is alive, whose exceptions it drops.
  unfoldable pub leave_thread : Registry → (id : ℕ) → ThreadCacheState C → ThreadCacheState C
  leave_thread caches id s = elim (lookup id caches) [
    | none ↦ s
    | some bins ↦ (flush_bins ops s bins 0).0
  ]

  module _ (can_insert : Shard → Ptr → Bool) (expired : ℕ → Bool) where
    unfoldable pub allocate :
        (id thread : ℕ)
        → ThreadCacheState C
        → Registry
        → (size alignment : ℕ) → ThreadCacheState C × Registry × Result Ptr
    allocate id thread s registry size alignment =
        let (caches, bins) = get expired registry id s in
        let (after, kept, answer) =
          ThreadCache.Allocate.allocate ops can_insert s thread bins size alignment in
        (after, assign id kept caches, answer)

    unfoldable pub deallocate :
        (id thread : ℕ)
        → ThreadCacheState C
        → Registry
        → Ptr
        → Option (ℕ × ℕ)
        → ThreadCacheState C × Registry × Result (Unit {0})
    deallocate id thread s registry pointer supplied =
        if pointer == null
        then (s, registry, ok tt)
        else (let (caches, bins) = get expired registry id s in
            let (after, kept, answer) =
              ThreadCache.Deallocate.deallocate ops s thread bins pointer supplied in
            (after, assign id kept caches, answer))
