-- ===== src/ThreadCacheOptions.antt =====
-- include/memory_pool/concurrency_options.hpp and concurrency_statistics.hpp, and the functions of
-- src/detail/thread_cache_state.cpp on them. A relaxed atomic counter is a number, since each
-- operation on one is indivisible.
use fixed_size_memory_pool.Base.{
  ℕ, ◌||◌, ◌==◌, ltb, if◌then◌else◌, Result, ok, invalid_argument, size_max, add_word, sub_word,
  ◌>>◌, throw_if,
}

pub record ThreadCacheOptions : Type 0 where
  pub low_watermark : ℕ
  pub high_watermark : ℕ
  pub refill_batch : ℕ

pub record ThreadCacheStatistics : Type 0 where
  pub allocation_requests : ℕ
  pub deallocation_requests : ℕ
  pub cache_hits : ℕ
  pub central_allocations : ℕ
  pub central_deallocations : ℕ
  pub local_deallocations : ℕ
  pub remote_deallocations : ℕ
  pub batch_refills : ℕ
  pub batch_flushes : ℕ
  pub cached_blocks : ℕ
  pub peak_cached_blocks : ℕ
  pub live_allocations : ℕ
  pub peak_live_allocations : ℕ

abbrev pub no_statistics : ThreadCacheStatistics
no_statistics = record {
  allocation_requests = 0;
  deallocation_requests = 0;
  cache_hits = 0;
  central_allocations = 0;
  central_deallocations = 0;
  local_deallocations = 0;
  remote_deallocations = 0;
  batch_refills = 0;
  batch_flushes = 0;
  cached_blocks = 0;
  peak_cached_blocks = 0;
  live_allocations = 0;
  peak_live_allocations = 0;
}

unfoldable pub validate_cache_options : ThreadCacheOptions → Result ThreadCacheOptions
validate_cache_options options = do
  throw_if (options.high_watermark == 0) invalid_argument
  throw_if (options.high_watermark == size_max) invalid_argument
  throw_if (ltb options.high_watermark options.low_watermark) invalid_argument
  throw_if ((options.refill_batch == 0) || ltb options.high_watermark options.refill_batch)
      invalid_argument
  ok options

-- The value that `update_peak` leaves in a counter that no other thread writes meanwhile.
unfoldable pub update_peak : ℕ → ℕ → ℕ
update_peak peak candidate = if ltb peak candidate then candidate else peak

unfoldable pub note_live_allocation : ThreadCacheStatistics → ThreadCacheStatistics
note_live_allocation s =
    let live = add_word s.live_allocations 1 in
    record s {
      live_allocations = live;
      peak_live_allocations = update_peak s.peak_live_allocations live;
    }

unfoldable pub note_cached : ThreadCacheStatistics → ThreadCacheStatistics
note_cached s =
    let cached = add_word s.cached_blocks 1 in
    record s {
      cached_blocks = cached;
      peak_cached_blocks = update_peak s.peak_cached_blocks cached;
    }

unfoldable pub note_hit : ThreadCacheStatistics → ThreadCacheStatistics
note_hit s =
    note_live_allocation (record s {
      cache_hits = add_word s.cache_hits 1;
      cached_blocks = sub_word s.cached_blocks 1;
    })

unfoldable pub note_local : ThreadCacheStatistics → ThreadCacheStatistics
note_local s = note_cached (record s {
  local_deallocations = add_word s.local_deallocations 1;
  live_allocations = sub_word s.live_allocations 1;
})
