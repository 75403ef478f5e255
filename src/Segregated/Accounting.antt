-- ===== src/Segregated/Accounting.antt =====
-- What an allocation of src/segregated_allocator.cpp adds to the counters.
use fixed_size_memory_pool.Base.{
  ◌≡◌, refl, ap, sym, subst, ℕ, Bool, not, Bool-cases, if_true, if_false, inl, inr, Option-cases,
  get_elem?, is_some, Result, Result-cases, ok, err, Error, add_word,
}
use fixed_size_memory_pool.Base.Maps.{lookup}
use fixed_size_memory_pool.Memory.{Ptr}
use fixed_size_memory_pool.Provider.{World}
use fixed_size_memory_pool.SizeClass.{select}
use fixed_size_memory_pool.SegregatedOptions.{
  normalize_size, SegregatedAllocatorStatistics, count_fallback,
}
use fixed_size_memory_pool.Segregated.{
  Segregated, GrowingChunkPool, Fallbacks, counted, fail, serve, pooled, asked, allocate_pooled,
  record_fallback, provided, allocate_fallback, allocate_class, allocate,
}

-- One of the two counters has grown by one, as the answer says.
abbrev pub Answered :
    SegregatedAllocatorStatistics → SegregatedAllocatorStatistics → Result Ptr → Type 0
Answered before after (ok _) =
    (after.successful_allocations ≡ add_word before.successful_allocations 1)
    × (after.failed_allocations ≡ before.failed_allocations)
Answered before after (err _) =
    (after.successful_allocations ≡ before.successful_allocations)
    × (after.failed_allocations ≡ add_word before.failed_allocations 1)

module _ {S : Type 0} where
  abbrev Accounted : SegregatedAllocatorStatistics → World S × Segregated S × Result Ptr → Type 0
  Accounted before (w, a, answer) =
      (a.statistics.allocation_requests ≡ before.allocation_requests)
      × Answered before a.statistics answer

  fail-Accounted :
      (w : World S) (a : Segregated S) (e : Error) → Accounted a.statistics (fail w a e)
  unfolding fail
  fail-Accounted w a e = (refl, (refl, refl))

  pooled-Accounted :
      (a : Segregated S) (index requested : ℕ) (x : World S × GrowingChunkPool S × Result Ptr)
      → Accounted a.statistics (pooled a index requested x)
  unfolding pooled serve fail
  pooled-Accounted a index requested (after, changed, err e) = (refl, (refl, refl))
  pooled-Accounted a index requested (after, changed, ok p) = (refl, (refl, refl))

  allocate_class-Accounted :
      (a : Segregated S) (index requested : ℕ) (w : World S)
      → Accounted a.statistics (allocate_class a index requested w)
  unfolding allocate_class allocate_pooled
  allocate_class-Accounted a index requested w = elim (Option-cases (get_elem? a.pools index)) [
    | inl gone ↦ rw (allocate_class, gone) (fail-Accounted w a _)
    | inr (pool, there) ↦
        rw (allocate_class, there) (pooled-Accounted (asked a index) index requested _)
  ]

  module _ (can_insert : Fallbacks → Ptr → Bool) where
    record_fallback-Accounted :
        (a : Segregated S) (p : Ptr) (requested alignment : ℕ) (w : World S)
        → Accounted a.statistics (record_fallback can_insert a p requested alignment w)
    unfolding record_fallback count_fallback
    record_fallback-Accounted a p requested alignment w =
        elim (Bool-cases (can_insert a.fallback_allocations p)) [
          | inr full ↦
              subst (Accounted a.statistics) (sym (if_true _ _ (ap not full)))
                (fail-Accounted _ a _)
          | inl room ↦
              subst (Accounted a.statistics) (sym (if_false _ _ (ap not room)))
                (elim (Bool-cases (is_some (lookup p a.fallback_allocations))) [
                  | inl known ↦
                      subst (Accounted a.statistics) (sym (if_true _ _ known))
                        (fail-Accounted _ a _)
                  | inr unknown ↦
                      subst (Accounted a.statistics) (sym (if_false _ _ unknown))
                        (refl, (refl, refl))
                ])
        ]

    provided-Accounted :
        (a : Segregated S) (requested alignment : ℕ) (w : World S) (x : S × Result Ptr)
        → Accounted a.statistics (provided can_insert a requested alignment w x)
    unfolding provided
    provided-Accounted a requested alignment w (heap, err e) = fail-Accounted _ a e
    provided-Accounted a requested alignment w (heap, ok p) =
        record_fallback-Accounted a p requested alignment _

    -- Whichever way an allocation goes (an invalid alignment, a pool, the provider, a failed entry
    -- in the map), the counter of requests grows by one, and so does the counter of successes if it
    -- returns a pointer and the counter of failures if it throws, while the other one stays.
    pub allocate-accounts :
        (a : Segregated S) (size alignment : ℕ) (w : World S)
        → (let (_, after, answer) = allocate can_insert a size alignment w in
            (after.statistics.allocation_requests ≡ add_word a.statistics.allocation_requests 1)
            × Answered a.statistics after.statistics answer)
    unfolding allocate allocate_fallback
    allocate-accounts a size alignment w =
        elim (Result-cases (select a.selector (normalize_size size) alignment)) [
          | inl (e, refused) ↦ rw (allocate, refused) (fail-Accounted w (counted a) e)
          | inr (selected, found) ↦ elim (Option-cases selected) [
            | inl large ↦
                rw (allocate, found, large)
                  (provided-Accounted (counted a) (normalize_size size) alignment w _)
            | inr (index, small) ↦
                rw (allocate, found, small)
                  (allocate_class-Accounted (counted a) index (normalize_size size) w)
          ]
        ]
