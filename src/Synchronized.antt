-- ===== src/Synchronized.antt =====
-- include/memory_pool/synchronized_allocator.hpp: a segregated allocator behind one mutex, whose
-- `lock` and `unlock` are parameters, since the type of the mutex is one of the template.
use fixed_size_memory_pool.Base.{ℕ, Bool, Option, List, Result, ok, err}
use fixed_size_memory_pool.Memory.{Ptr}
use fixed_size_memory_pool.Provider.{World}
use fixed_size_memory_pool.SegregatedOptions.{SegregatedAllocatorStatistics}
use fixed_size_memory_pool.Segregated
use fixed_size_memory_pool.Segregated.{Segregated, Fallbacks}
use fixed_size_memory_pool.Segregated.Construction

pub record Mutex (M : Type 0) : Type 0 where
  pub lock : M → M × Result (Unit {0})
  pub unlock : M → M

-- `BasicSynchronizedAllocator`, with the world that its allocator changes.
pub record Synchronized (M S : Type 0) : Type 0 where
  pub mutex : M
  pub allocator : Segregated S
  pub world : World S

module _ {M S : Type 0} (mutex : Mutex M) where
  -- The body of a function whose first line is `const std::lock_guard<Mutex> lock(mutex_)`; the
  -- guard unlocks the mutex when the body returns, and when it throws.
  unfoldable pub guarded {ℓ} :
      {A : Type ℓ}
      → (World S → Segregated S → World S × Segregated S × Result A)
      → Synchronized M S
      → Synchronized M S × Result A
  guarded body s =
      let (locked, answer) = mutex.lock s.mutex in
      elim answer [
        | err e ↦ (record s { mutex = locked }, err e)
        | ok _ ↦
            let (world, allocator, result) = body s.world s.allocator in
            (record { mutex = mutex.unlock locked; allocator = allocator; world = world }, result)
      ]

  unfoldable pub allocate :
      (can_insert : Fallbacks → Ptr → Bool)
      → Synchronized M S
      → (size alignment : ℕ) → Synchronized M S × Result Ptr
  allocate can_insert s size alignment =
      guarded (λ w a. Segregated.allocate can_insert a size alignment w) s

  unfoldable pub deallocate : Synchronized M S → Ptr → Synchronized M S × Result (Unit {0})
  deallocate s pointer = guarded (λ w a. Segregated.deallocate a pointer w) s

  unfoldable pub deallocate_sized :
      Synchronized M S → Ptr → (size alignment : ℕ) → Synchronized M S × Result (Unit {0})
  deallocate_sized s pointer size alignment =
      guarded (λ w a. Segregated.deallocate_sized a pointer size alignment w) s

  unfoldable pub owns : Synchronized M S → Ptr → Synchronized M S × Result Bool
  owns s pointer = guarded (λ w a. (w, a, ok (Construction.owns a pointer))) s

  unfoldable pub owning_size_class : Synchronized M S → Ptr → Synchronized M S × Result (Option ℕ)
  owning_size_class s pointer =
      guarded (λ w a. (w, a, ok (Construction.owning_size_class a pointer))) s

  unfoldable pub size_classes : Synchronized M S → Synchronized M S × Result (List ℕ)
  size_classes s = guarded (λ w a. (w, a, ok a.selector)) s

  unfoldable pub statistics :
      Synchronized M S → Synchronized M S × Result SegregatedAllocatorStatistics
  statistics s = guarded (λ w a. (w, a, ok a.statistics)) s
