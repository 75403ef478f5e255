-- ===== src/Segregated.antt =====
-- src/segregated_allocator.cpp: requests of mixed sizes, routed to one growing chunk pool for each
-- size class, or to the provider itself. `std::unordered_map` is an association list, and whether
-- it finds the memory for a new entry is a parameter.
pub mod Construction
pub mod Accounting
pub mod Fallback
pub mod Origin
mod Examples
use fixed_size_memory_pool.Base.{
  ℕ, zero, suc, ◌+◌, Bool, true, false, not, ◌&&◌, ◌||◌, ◌==◌, if◌then◌else◌, max_of, is_some,
  Option, none, some, List, [], ◌∷◌, get_elem?, get_or, set, modify, Result, ok, err, Error,
  invalid_argument, invalid_pool_pointer, logic_error, bad_alloc, allocation_mismatch, ◌>>=◌, ◌>>◌,
  add_word, sub_word,
}
use fixed_size_memory_pool.Base.Maps.{lookup, insert, erase}
use fixed_size_memory_pool.Memory.{Ptr, null}
use fixed_size_memory_pool.Provider.{Provider, Operators, World, or_default}
use fixed_size_memory_pool.SizeClass
use fixed_size_memory_pool.SizeClass.{select}
use fixed_size_memory_pool.Manager.{GrowthPolicy, ChunkManagerOptions}
use fixed_size_memory_pool.ChunkPool
use fixed_size_memory_pool.ChunkPool.{ChunkPool, grow_on_exhaustion}
use fixed_size_memory_pool.SegregatedOptions.{
  SegregatedAllocatorOptions, FallbackAllocation, SizeClassStatistics,
  SegregatedAllocatorStatistics, normalize_size, new_class, no_statistics, request_class,
  serve_class, return_class, count_fallback, count_fallback_return,
}

abbrev pub GrowingChunkPool : Type 0 → Type 0
GrowingChunkPool S = ChunkPool S (Unit {0})

abbrev pub Fallbacks : Type 0
Fallbacks = List (Ptr × FallbackAllocation)

-- `SegregatedAllocator::Impl`.
pub record Segregated (S : Type 0) : Type 0 where
  pub selector : List ℕ
  pub provider : Provider S
  pub pools : List (GrowingChunkPool S)
  pub fallback_allocations : Fallbacks
  pub statistics : SegregatedAllocatorStatistics

-- Whether a supplied size and alignment select the class of a position.
unfoldable pub check_class : List ℕ → ℕ → ℕ → ℕ → Result (Unit {0})
check_class selector size alignment owner = do
  supplied_class ← select selector size alignment
  elim supplied_class [
    | none ↦ err allocation_mismatch
    | some index ↦ if not (index == owner) then err allocation_mismatch else ok tt
  ]

module _ {S : Type 0} where
  -- The pool that owns a pointer, with its position.
  unfoldable pub owning_class : List (GrowingChunkPool S) → Ptr → Option (ℕ × GrowingChunkPool S)
  owning_class [] pointer = none
  owning_class (pool ∷ rest) pointer =
      let later = owning_class rest pointer in
      if ChunkPool.owns grow_on_exhaustion pool pointer
      then some (0, pool)
      else elim later [ none ↦ none | some (i, found) ↦ some (suc i, found) ]

  abbrev pub counted : Segregated S → Segregated S
  counted a = record a {
    statistics = record a.statistics {
      allocation_requests = add_word a.statistics.allocation_requests 1;
    };
  }

  unfoldable pub fail : World S → Segregated S → Error → World S × Segregated S × Result Ptr
  fail w a e = (
    w,
    record a {
      statistics = record a.statistics {
        failed_allocations = add_word a.statistics.failed_allocations 1;
      };
    },
    err e,
  )

  unfoldable pub serve : Segregated S → ℕ → GrowingChunkPool S → ℕ → Segregated S
  serve a index pool requested = record a {
    pools = set a.pools index pool;
    statistics = record a.statistics {
      size_classes = modify (serve_class requested) a.statistics.size_classes index;
      successful_allocations = add_word a.statistics.successful_allocations 1;
    };
  }

  -- The end of the branch of `allocate` with a size class, after the pool's answer.
  unfoldable pub pooled :
      Segregated S
      → ℕ
      → ℕ
      → World S × GrowingChunkPool S × Result Ptr
      → World S × Segregated S × Result Ptr
  pooled a index requested (after, changed, err e) =
      fail after (record a { pools = set a.pools index changed }) e
  pooled a index requested (after, changed, ok pointer) =
      (after, serve a index changed requested, ok pointer)

  abbrev pub asked : Segregated S → ℕ → Segregated S
  asked a index = record a {
    statistics = record a.statistics {
      size_classes = modify request_class a.statistics.size_classes index;
    };
  }

  unfoldable pub allocate_pooled :
      Segregated S → ℕ → GrowingChunkPool S → ℕ → World S → World S × Segregated S × Result Ptr
  allocate_pooled a index pool requested w =
      pooled (asked a index) index requested (ChunkPool.allocate grow_on_exhaustion pool w)

  unfoldable pub return_storage : Segregated S → Ptr → ℕ → ℕ → World S → World S
  return_storage a pointer size alignment w = record w {
    heap = a.provider.deallocate w.heap pointer size alignment;
  }

  -- The provider's answer is recorded, or goes back.
  unfoldable pub record_fallback :
      (can_insert : Fallbacks → Ptr → Bool)
      → Segregated S
      → Ptr
      → ℕ
      → ℕ
      → World S
      → World S × Segregated S × Result Ptr
  record_fallback can_insert a pointer requested alignment w =
      if not (can_insert a.fallback_allocations pointer)
      then fail (return_storage a pointer requested alignment w) a bad_alloc
      else if is_some (lookup pointer a.fallback_allocations)
      then fail (return_storage a pointer requested alignment w) a logic_error
      else (
        w,
        record a {
          fallback_allocations =
              insert pointer (record { size = requested; alignment = alignment })
                a.fallback_allocations;
          statistics = count_fallback requested a.statistics;
        },
        ok pointer,
      )

  unfoldable pub provided :
      (can_insert : Fallbacks → Ptr → Bool)
      → Segregated S
      → ℕ
      → ℕ
      → World S
      → S × Result Ptr
      → World S × Segregated S × Result Ptr
  provided can_insert a requested alignment w (heap, err e) = fail (record w { heap = heap }) a e
  provided can_insert a requested alignment w (heap, ok pointer) =
      record_fallback can_insert a pointer requested alignment (record w { heap = heap })

  -- The branch without a size class.
  unfoldable pub allocate_fallback :
      (can_insert : Fallbacks → Ptr → Bool)
      → Segregated S
      → ℕ
      → ℕ
      → World S
      → World S × Segregated S × Result Ptr
  allocate_fallback can_insert a requested alignment w =
      provided can_insert a requested alignment w (a.provider.allocate w.heap requested alignment)

  -- An index that `select` returns is that of a pool.
  unfoldable pub allocate_class :
      Segregated S → ℕ → ℕ → World S → World S × Segregated S × Result Ptr
  allocate_class a index requested w = elim (get_elem? a.pools index) [
    | none ↦ fail w a logic_error
    | some pool ↦ allocate_pooled a index pool requested w
  ]

  unfoldable pub allocate :
      (can_insert : Fallbacks → Ptr → Bool)
      → Segregated S
      → ℕ
      → ℕ
      → World S
      → World S × Segregated S × Result Ptr
  allocate can_insert a size alignment w =
      elim (select a.selector (normalize_size size) alignment) [
        | err e ↦ fail w (counted a) e
        | ok selected ↦ elim selected [
          | some index ↦ allocate_class (counted a) index (normalize_size size) w
          | none ↦ allocate_fallback can_insert (counted a) (normalize_size size) alignment w
        ]
      ]

  unfoldable pub deallocate_pooled :
      Segregated S
      → ℕ
      → GrowingChunkPool S
      → Ptr
      → World S
      → World S × Segregated S × Result (Unit {0})
  deallocate_pooled a index pool pointer w =
      let (after, changed, answer) = ChunkPool.deallocate grow_on_exhaustion pool pointer w in
      let kept = record a { pools = set a.pools index changed } in
      elim answer [
        | err e ↦ (after, kept, err e)
        | ok _ ↦ (
          after,
          record kept {
            statistics = record a.statistics {
              size_classes = modify return_class a.statistics.size_classes index;
              deallocations = add_word a.statistics.deallocations 1;
            };
          },
          ok tt,
        )
      ]

  unfoldable pub deallocate_fallback :
      Segregated S → Ptr → FallbackAllocation → World S → World S × Segregated S × Result (Unit {0})
  deallocate_fallback a pointer f w = (
    return_storage a pointer f.size f.alignment w,
    record a {
      fallback_allocations = erase pointer a.fallback_allocations;
      statistics = count_fallback_return a.statistics;
    },
    ok tt,
  )

  unfoldable pub deallocate :
      Segregated S → Ptr → World S → World S × Segregated S × Result (Unit {0})
  deallocate a pointer w =
      if pointer == null then (w, a, ok tt) else elim (owning_class a.pools pointer) [
        | some (index, pool) ↦ deallocate_pooled a index pool pointer w
        | none ↦ elim (lookup pointer a.fallback_allocations) [
          | none ↦ (w, a, err invalid_pool_pointer)
          | some f ↦ deallocate_fallback a pointer f w
        ]
      ]

  unfoldable pub deallocate_sized :
      Segregated S → Ptr → ℕ → ℕ → World S → World S × Segregated S × Result (Unit {0})
  deallocate_sized a pointer size alignment w =
      if pointer == null then (w, a, ok tt) else elim (owning_class a.pools pointer) [
        | some (index, pool) ↦ elim (check_class a.selector size alignment index) [
          | err e ↦ (w, a, err e)
          | ok _ ↦ deallocate a pointer w
        ]
        | none ↦ elim (lookup pointer a.fallback_allocations) [
          | none ↦ (w, a, err invalid_pool_pointer)
          | some f ↦
              if not (f.size == normalize_size size) || not (f.alignment == alignment)
              then (w, a, err allocation_mismatch)
              else deallocate a pointer w
        ]
      ]
