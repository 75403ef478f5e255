-- ===== src/ChunkPool/Fallback.antt =====
-- The blocks that the heap fallback hands out and takes back.
use fixed_size_memory_pool.Base.{
  ◌≡◌, refl, ap, ◌∙◌, Bool, true, false, ==_self, List, ◌∷◌, has, Result, ok, err,
}
use fixed_size_memory_pool.Memory.{Ptr}
use fixed_size_memory_pool.Provider.{World}
use fixed_size_memory_pool.Manager.{Manager}
use fixed_size_memory_pool.ChunkPool.{
  allocate_fallback, record_fallback, deallocate_fallback, give_back,
}

module _ {S : Type 0} (can_insert : List Ptr → Ptr → Bool) (manager : Manager S)
    (allocations : List Ptr) (w : World S) (heap : S) (pointer : Ptr)
    (answered : manager.provider.allocate w.heap manager.block_size manager.alignment
      ≡ (heap, ok pointer)) where
  allocate_fallback_answered :
      allocate_fallback can_insert allocations manager w
      ≡ record_fallback can_insert allocations manager pointer (record w { heap = heap })
  unfolding allocate_fallback
  allocate_fallback_answered =
      ap
        (λ (a : S × Result Ptr). elim a.1 [
          | err e ↦ (record w { heap = a.0 }, allocations, manager, err e)
          | ok q ↦ record_fallback can_insert allocations manager q (record w { heap = a.0 })
        ])
        answered

  -- A fresh pointer from the fallback is recorded and, when it is given back, accepted, taken off the
  -- set, and returned to the provider with the size and the alignment it was requested with.
  pub deallocate_fallback-allocate :
      can_insert allocations pointer ≡ true
      → has pointer allocations ≡ false
      → (allocate_fallback can_insert allocations manager w
          ≡ (record w { heap = heap }, pointer ∷ allocations, manager, ok pointer))
        × (deallocate_fallback (pointer ∷ allocations) pointer manager (record w { heap = heap })
            ≡ (
              record w {
                heap =
                    manager.provider.deallocate heap pointer manager.block_size manager.alignment;
              },
              allocations,
              true,
            ))
  unfolding record_fallback deallocate_fallback give_back
  deallocate_fallback-allocate can fresh =
      (allocate_fallback_answered ∙ rw (can, fresh) refl, rw (==_self pointer) refl)
