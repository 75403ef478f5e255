-- ===== src/Statistics/Gauges.antt =====
-- What the counters of a fixed pool say.
use fixed_size_memory_pool.Base.{ℕ, ◌+◌, ◌<◌, ◌≤◌, ◌≡◌, arith, min_of, size_mod, size_max}
use fixed_size_memory_pool.Statistics.{
  PoolStatistics, record_allocation_request, record_successful_allocation, record_deallocation,
}

-- The number of blocks in use is at most the capacity and has never been above the peak.
pub record IsGauged (capacity : ℕ) (s : PoolStatistics) : Type 0 where
  pub bounded : s.currently_allocated ≤ capacity
  pub peaked : s.currently_allocated ≤ s.peak_allocated
  pub reached : s.peak_allocated ≤ capacity

-- A successful allocation while a block was free adds exactly one block in use, and keeps that number
-- at most the peak and the peak at most the capacity of a pool, which is below 2^64.
pub record_successful_allocation-IsGauged :
    (capacity : ℕ) (s : PoolStatistics)
    → capacity < size_mod
    → IsGauged capacity s
    → s.currently_allocated < capacity
    → IsGauged capacity (record_successful_allocation s)
      × ((record_successful_allocation s).currently_allocated ≡ s.currently_allocated + 1)
unfolding record_successful_allocation
record_successful_allocation-IsGauged capacity s word v free =
    let peaked = v.peaked in
    let reached = v.reached in
    (record { bounded = omega arith; peaked = ground arith; reached = ground arith }, omega arith)

-- A deallocation while a block was in use takes exactly one off, and keeps the same bounds.
pub record_deallocation-IsGauged :
    (capacity : ℕ) (s : PoolStatistics)
    → capacity < size_mod
    → IsGauged capacity s
    → 0 < s.currently_allocated
    → IsGauged capacity (record_deallocation s)
      × ((record_deallocation s).currently_allocated + 1 ≡ s.currently_allocated)
unfolding record_deallocation
record_deallocation-IsGauged capacity s word v used =
    let bounded = v.bounded in
    let peaked = v.peaked in
    let reached = v.reached in
    (record { bounded = omega arith; peaked = omega arith; reached = omega arith }, omega arith)

-- The total of requested bytes is the exact sum, or the largest std::size_t where that is less.
record_allocation_request-saturates :
    (s : PoolStatistics) (block_size : ℕ)
    → s.requested_bytes < size_mod
    → block_size < size_mod
    → (record_allocation_request s block_size).requested_bytes
      ≡ min_of (s.requested_bytes + block_size) size_max
unfolding record_allocation_request
record_allocation_request-saturates s block_size total word = ground arith
