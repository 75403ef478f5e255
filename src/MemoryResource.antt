-- ===== src/MemoryResource.antt =====
-- src/pool_memory_resource.cpp: the segregated allocator as a `std::pmr::memory_resource` over another
-- one. The upstream resource is not in the repository and is a parameter.
mod RoundTrip
mod Examples
use fixed_size_memory_pool.Base.{
  ℕ, Bool, ◌==◌, Option, none, some, Result, ok, err, invalid_argument, ◌>>=◌,
}
use fixed_size_memory_pool.Memory.{Ptr}
use fixed_size_memory_pool.Provider.{Provider, Operators, World}
use fixed_size_memory_pool.SegregatedOptions.{
  SegregatedAllocatorOptions, SegregatedAllocatorStatistics,
}
use fixed_size_memory_pool.Segregated
use fixed_size_memory_pool.Segregated.{Segregated, Fallbacks}
use fixed_size_memory_pool.Segregated.Construction

-- `std::pmr::memory_resource`, as far as it is called.
pub record Upstream (S : Type 0) : Type 0 where
  pub allocate : S → (bytes alignment : ℕ) → S × Result Ptr
  pub deallocate : S → Ptr → (bytes alignment : ℕ) → S

-- `PoolMemoryResource::Impl`.
pub record PoolMemoryResource (S : Type 0) : Type 0 where
  pub upstream : Upstream S
  pub allocator : Segregated S

module _ {S : Type 0} where
  unfoldable pub validate_upstream : Option (Upstream S) → Result (Upstream S)
  validate_upstream none = err invalid_argument
  validate_upstream (some upstream) = ok upstream

  -- `PmrUpstreamProvider`.
  unfoldable pub upstream_provider : Upstream S → Provider S
  upstream_provider upstream = record {
    allocate = upstream.allocate;
    deallocate = upstream.deallocate;
  }

  unfoldable pub construct :
      Operators S
      → SegregatedAllocatorOptions
      → Option (Upstream S)
      → World S
      → World S × Result (PoolMemoryResource S)
  construct operators options upstream_resource w = elim (validate_upstream upstream_resource) [
    | err e ↦ (w, err e)
    | ok upstream ↦
        let (after, answer) =
          Construction.construct operators options (some (upstream_provider upstream)) w in
        (after, answer >>= λ allocator. ok (record { upstream = upstream; allocator = allocator }))
  ]

  unfoldable pub do_allocate :
      (can_insert : Fallbacks → Ptr → Bool)
      → PoolMemoryResource S
      → (bytes alignment : ℕ) → World S
      → World S × PoolMemoryResource S × Result Ptr
  do_allocate can_insert r bytes alignment w =
      let (after, allocator, answer) =
        Segregated.allocate can_insert r.allocator bytes alignment w in
      (after, record r { allocator = allocator }, answer)

  unfoldable pub do_deallocate :
      PoolMemoryResource S
      → Ptr
      → (bytes alignment : ℕ) → World S
      → World S × PoolMemoryResource S × Result (Unit {0})
  do_deallocate r pointer bytes alignment w =
      let (after, allocator, answer) =
        Segregated.deallocate_sized r.allocator pointer bytes alignment w in
      (after, record r { allocator = allocator }, answer)

-- `this == &other`.
unfoldable pub do_is_equal : (this other : Ptr) → Bool
do_is_equal this other = this == other
