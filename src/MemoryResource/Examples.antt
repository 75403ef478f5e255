-- ===== src/MemoryResource/Examples.antt =====
-- A resource with one size class over an upstream that hands out ever higher addresses.
use fixed_size_memory_pool.Base.{ℕ, ◌+◌, ◌≡◌, refl, Bool, true, [], ◌∷◌, ok, err, some}
use fixed_size_memory_pool.Base.Bits.{is_power_of_two}
use fixed_size_memory_pool.Base.Maps.{lookup}
use fixed_size_memory_pool.Memory.{Ptr}
use fixed_size_memory_pool.Provider.{World, Operators}
use fixed_size_memory_pool.Manager.{fixed}
use fixed_size_memory_pool.SizeClass.{select, lower_bound}
use fixed_size_memory_pool.SegregatedOptions.{SegregatedAllocatorOptions, no_statistics}
use fixed_size_memory_pool.Segregated.{
  Fallbacks, allocate, allocate_fallback, provided, record_fallback, owning_class,
}
use fixed_size_memory_pool.Chunk
use fixed_size_memory_pool.ChunkPool
use fixed_size_memory_pool.FreeList
use fixed_size_memory_pool.Layout
use fixed_size_memory_pool.Manager
use fixed_size_memory_pool.Provider
use fixed_size_memory_pool.SizeClass
use fixed_size_memory_pool.Segregated.Construction
use fixed_size_memory_pool.MemoryResource.{
  Upstream, PoolMemoryResource, upstream_provider, construct, validate_upstream, do_allocate,
  do_deallocate,
}
use fixed_size_memory_pool.MemoryResource.RoundTrip.{Reach, constructed, do_deallocate-do_allocate}

abbrev bump : Upstream ℕ
bump = record {
  allocate = λ next bytes alignment. (next + bytes, ok next);
  deallocate = λ next p bytes alignment. p;
}

abbrev room : Fallbacks → Ptr → Bool
room m p = true

abbrev operators : Operators ℕ
operators = record {
  new_plain = λ s bytes. (s, ok 16);
  new_aligned = λ s bytes alignment. (s, ok 16);
  delete_plain = λ s p. s;
  delete_aligned = λ s p alignment. s;
  default_alignment = 16;
}

abbrev options : SegregatedAllocatorOptions
options = record {
  size_classes = 16 ∷ [];
  initial_blocks_per_class = 1;
  growth = record { mode = fixed; factor = 2; maximum_blocks_per_chunk = 0 };
  spare_empty_chunks = 1;
}

abbrev world : World ℕ
world = record { heap = 64; memory = λ _. 0 }

abbrev unused : PoolMemoryResource ℕ
unused = record {
  upstream = bump;
  allocator = record {
    selector = [];
    provider = upstream_provider bump;
    pools = [];
    fallback_allocations = [];
    statistics = no_statistics;
  };
}

abbrev resource : PoolMemoryResource ℕ
resource = elim (construct operators options (some bump) world).1 [ ok r ↦ r | err e ↦ unused ]

abbrev running : World ℕ
running = (construct operators options (some bump) world).0

resource-Reach : Reach room bump resource
unfolding construct is_power_of_two validate_upstream Construction.construct SizeClass.construct
    SizeClass.validate_classes Construction.construct_pools ChunkPool.construct Manager.construct
    Manager.validate_options Manager.grow Chunk.construct Layout.make_block_layout
    Layout.validate_alignment Layout.round_up Layout.guarded_offset Layout.guarded_stride
    Layout.checked_add Layout.checked_multiply Manager.add_chunk Manager.adopt Chunk.build
    Chunk.acquire upstream_provider Manager.calculate_next_growth Provider.or_default
    FreeList.initialize_free_list
resource-Reach = constructed operators options world refl

do_deallocate-do_allocate_example :
    let (after, served, _) = do_allocate room resource 40 8 running in
    (bump.allocate running.heap 40 8 ≡ (after.heap, ok 80))
    × ((do_deallocate served 80 40 8 after).2 ≡ ok tt)
    × ((do_deallocate served 80 40 8 after).0.heap ≡ bump.deallocate after.heap 80 40 8)
unfolding construct is_power_of_two validate_upstream Construction.construct SizeClass.construct
    SizeClass.validate_classes Construction.construct_pools ChunkPool.construct Manager.construct
    Manager.validate_options Manager.grow Chunk.construct Layout.make_block_layout
    Layout.validate_alignment Layout.round_up Layout.guarded_offset Layout.guarded_stride
    Layout.checked_add Layout.checked_multiply Manager.add_chunk Manager.adopt Chunk.build
    Chunk.acquire upstream_provider Manager.calculate_next_growth Provider.or_default
    FreeList.initialize_free_list select lower_bound allocate allocate_fallback provided
    record_fallback lookup owning_class do_allocate ChunkPool.owns ChunkPool.grow_on_exhaustion
    Manager.find_chunk Chunk.owns
do_deallocate-do_allocate_example =
    do_deallocate-do_allocate room bump resource 40 8 running 80 resource-Reach refl refl refl refl
