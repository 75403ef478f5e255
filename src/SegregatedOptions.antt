-- ===== src/SegregatedOptions.antt =====
-- include/memory_pool/segregated_allocator_options.hpp and segregated_allocator_statistics.hpp, and
-- what src/segregated_allocator.cpp does to the counters.
use fixed_size_memory_pool.Base.{ℕ, max_of, List, [], add_word, sub_word}
use fixed_size_memory_pool.Manager.{GrowthPolicy}

pub record SegregatedAllocatorOptions : Type 0 where
  pub size_classes : List ℕ
  pub initial_blocks_per_class : ℕ
  pub growth : GrowthPolicy
  pub spare_empty_chunks : ℕ

pub record SizeClassStatistics : Type 0 where
  pub class_size : ℕ
  pub allocation_requests : ℕ
  pub successful_allocations : ℕ
  pub deallocations : ℕ
  pub currently_allocated : ℕ
  pub peak_allocated : ℕ
  pub requested_bytes : ℕ
  pub served_bytes : ℕ
  pub internal_fragmentation_bytes : ℕ

pub record SegregatedAllocatorStatistics : Type 0 where
  pub size_classes : List SizeClassStatistics
  pub allocation_requests : ℕ
  pub successful_allocations : ℕ
  pub deallocations : ℕ
  pub failed_allocations : ℕ
  pub fallback_allocations : ℕ
  pub fallback_deallocations : ℕ
  pub current_fallback_allocations : ℕ
  pub peak_fallback_allocations : ℕ
  pub fallback_requested_bytes : ℕ

pub record FallbackAllocation : Type 0 where
  pub size : ℕ
  pub alignment : ℕ

abbrev pub normalize_size : ℕ → ℕ
normalize_size size = max_of size 1

abbrev pub new_class : ℕ → SizeClassStatistics
new_class class_size = record {
  class_size = class_size;
  allocation_requests = 0;
  successful_allocations = 0;
  deallocations = 0;
  currently_allocated = 0;
  peak_allocated = 0;
  requested_bytes = 0;
  served_bytes = 0;
  internal_fragmentation_bytes = 0;
}

abbrev pub no_statistics : SegregatedAllocatorStatistics
no_statistics = record {
  size_classes = [];
  allocation_requests = 0;
  successful_allocations = 0;
  deallocations = 0;
  failed_allocations = 0;
  fallback_allocations = 0;
  fallback_deallocations = 0;
  current_fallback_allocations = 0;
  peak_fallback_allocations = 0;
  fallback_requested_bytes = 0;
}

-- What a pooled allocation of `requested` bytes adds to the counters of its class, before and after.
unfoldable pub request_class : SizeClassStatistics → SizeClassStatistics
request_class c = record c { allocation_requests = add_word c.allocation_requests 1 }

unfoldable pub serve_class : ℕ → SizeClassStatistics → SizeClassStatistics
serve_class requested c =
    let current = add_word c.currently_allocated 1 in
    record c {
      successful_allocations = add_word c.successful_allocations 1;
      currently_allocated = current;
      peak_allocated = max_of c.peak_allocated current;
      requested_bytes = add_word c.requested_bytes requested;
      served_bytes = add_word c.served_bytes c.class_size;
      internal_fragmentation_bytes =
          add_word c.internal_fragmentation_bytes (sub_word c.class_size requested);
    }

unfoldable pub return_class : SizeClassStatistics → SizeClassStatistics
return_class c = record c {
  deallocations = add_word c.deallocations 1;
  currently_allocated = sub_word c.currently_allocated 1;
}

unfoldable pub count_fallback : ℕ → SegregatedAllocatorStatistics → SegregatedAllocatorStatistics
count_fallback requested s =
    let current = add_word s.current_fallback_allocations 1 in
    record s {
      successful_allocations = add_word s.successful_allocations 1;
      fallback_allocations = add_word s.fallback_allocations 1;
      current_fallback_allocations = current;
      peak_fallback_allocations = max_of s.peak_fallback_allocations current;
      fallback_requested_bytes = add_word s.fallback_requested_bytes requested;
    }

unfoldable pub count_fallback_return : SegregatedAllocatorStatistics → SegregatedAllocatorStatistics
count_fallback_return s = record s {
  deallocations = add_word s.deallocations 1;
  fallback_deallocations = add_word s.fallback_deallocations 1;
  current_fallback_allocations = sub_word s.current_fallback_allocations 1;
}
