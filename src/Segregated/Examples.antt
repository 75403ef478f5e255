-- ===== src/Segregated/Examples.antt =====
-- The theorems on the segregated allocator at a request above the only size class.
use fixed_size_memory_pool.Base.{ℕ, ◌+◌, ◌≡◌, refl, Bool, true, [], ◌∷◌, ok, add_word}
use fixed_size_memory_pool.Base.Bits.{is_power_of_two}
use fixed_size_memory_pool.Base.Maps.{lookup}
use fixed_size_memory_pool.Memory.{Ptr}
use fixed_size_memory_pool.Provider.{Provider, World}
use fixed_size_memory_pool.SizeClass.{select, lower_bound}
use fixed_size_memory_pool.SegregatedOptions.{no_statistics}
use fixed_size_memory_pool.Segregated.{
  Segregated, Fallbacks, allocate, allocate_fallback, provided, record_fallback, deallocate,
  deallocate_sized, owning_class,
}
use fixed_size_memory_pool.Segregated.Accounting.{Answered, allocate-accounts}
use fixed_size_memory_pool.Segregated.Fallback.{deallocate-allocate_fallback}

-- A provider that hands out ever higher addresses, and takes the last one back.
abbrev stack_provider : Provider ℕ
stack_provider = record {
  allocate = λ next bytes alignment. (next + bytes, ok next);
  deallocate = λ next p bytes alignment. p;
}

abbrev room : Fallbacks → Ptr → Bool
room m p = true

abbrev empty_handed : Segregated ℕ
empty_handed = record {
  selector = 16 ∷ [];
  provider = stack_provider;
  pools = [];
  fallback_allocations = [];
  statistics = no_statistics;
}

abbrev world : World ℕ
world = record { heap = 64; memory = λ _. 0 }

allocate-accounts_example :
    let (_, after, answer) = allocate room empty_handed 40 8 world in
    (after.statistics.allocation_requests ≡ add_word empty_handed.statistics.allocation_requests 1)
    × Answered empty_handed.statistics after.statistics answer
allocate-accounts_example = allocate-accounts room empty_handed 40 8 world

deallocate-allocate_fallback_example :
    let (after, served, _) = allocate room empty_handed 40 8 world in
    ((deallocate served 64 after).0.heap ≡ stack_provider.deallocate after.heap 64 40 8)
    × ((deallocate served 64 after).2 ≡ ok tt)
    × (lookup 64 (deallocate served 64 after).1.fallback_allocations
        ≡ lookup 64 empty_handed.fallback_allocations)
    × ((deallocate served 64 after).1.pools ≡ empty_handed.pools)
    × (deallocate_sized served 64 40 8 after ≡ deallocate served 64 after)
unfolding select lower_bound is_power_of_two allocate allocate_fallback provided record_fallback
    lookup owning_class
deallocate-allocate_fallback_example =
    deallocate-allocate_fallback room empty_handed 40 8 world 64 64 refl refl refl refl
