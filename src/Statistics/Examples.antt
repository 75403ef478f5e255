-- ===== src/Statistics/Examples.antt =====
-- The counters of a pool of four blocks, two of them in use.
use fixed_size_memory_pool.Base.{◌+◌, ◌≡◌, arith}
use fixed_size_memory_pool.Statistics.{
  PoolStatistics, no_statistics, record_successful_allocation, record_deallocation,
}
use fixed_size_memory_pool.Statistics.Gauges.{
  IsGauged, record_successful_allocation-IsGauged, record_deallocation-IsGauged,
}

abbrev two_of_four : PoolStatistics
two_of_four = record no_statistics { currently_allocated = 2; peak_allocated = 3 }

two_of_four-IsGauged : IsGauged 4 two_of_four
two_of_four-IsGauged = record { bounded = omega arith; peaked = omega arith; reached = omega arith }

record_successful_allocation-IsGauged_example :
    IsGauged 4 (record_successful_allocation two_of_four)
    × ((record_successful_allocation two_of_four).currently_allocated ≡ 2 + 1)
record_successful_allocation-IsGauged_example =
    record_successful_allocation-IsGauged 4 two_of_four (omega arith) two_of_four-IsGauged
      (omega arith)

record_deallocation-IsGauged_example :
    IsGauged 4 (record_deallocation two_of_four)
    × ((record_deallocation two_of_four).currently_allocated + 1 ≡ 2)
record_deallocation-IsGauged_example =
    record_deallocation-IsGauged 4 two_of_four (omega arith) two_of_four-IsGauged (omega arith)
