-- ===== src/Statistics.antt =====
-- src/detail/statistics_tracker.cpp and include/memory_pool/pool_statistics.hpp: the optional
-- counters of a fixed pool.
pub mod Gauges
mod Examples
use fixed_size_memory_pool.Base.{ℕ, ◌-◌, ltb, if◌then◌else◌, add_word, sub_word, size_max}

pub record PoolStatistics : Type 0 where
  pub allocation_requests : ℕ
  pub successful_allocations : ℕ
  pub deallocation_requests : ℕ
  pub failed_allocations : ℕ
  pub currently_allocated : ℕ
  pub peak_allocated : ℕ
  pub requested_bytes : ℕ
  pub reserved_bytes : ℕ

abbrev pub no_statistics : PoolStatistics
no_statistics = record {
  allocation_requests = 0;
  successful_allocations = 0;
  deallocation_requests = 0;
  failed_allocations = 0;
  currently_allocated = 0;
  peak_allocated = 0;
  requested_bytes = 0;
  reserved_bytes = 0;
}

unfoldable pub record_allocation_request : PoolStatistics → ℕ → PoolStatistics
record_allocation_request s block_size = record s {
  allocation_requests = add_word s.allocation_requests 1;
  requested_bytes =
      if ltb (size_max - block_size) s.requested_bytes
      then size_max
      else add_word s.requested_bytes block_size;
}

unfoldable pub record_successful_allocation : PoolStatistics → PoolStatistics
record_successful_allocation s =
    let current = add_word s.currently_allocated 1 in
    record s {
      successful_allocations = add_word s.successful_allocations 1;
      currently_allocated = current;
      peak_allocated = if ltb s.peak_allocated current then current else s.peak_allocated;
    }

unfoldable pub record_failed_allocation : PoolStatistics → PoolStatistics
record_failed_allocation s = record s { failed_allocations = add_word s.failed_allocations 1 }

unfoldable pub record_deallocation : PoolStatistics → PoolStatistics
record_deallocation s = record s {
  deallocation_requests = add_word s.deallocation_requests 1;
  currently_allocated = sub_word s.currently_allocated 1;
}
