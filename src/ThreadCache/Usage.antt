-- ===== src/ThreadCache/Usage.antt =====
-- The bins of one thread of src/detail/thread_cache_state.cpp over any number of its operations. What
-- the other threads do meanwhile is left open: the shared part is any that has the same options.
use fixed_size_memory_pool.Base.{
  ◌≡◌, ◌∙◌, ap, sym, subst, ℕ, zero, suc, ◌+◌, ◌≤◌, Bool, not, ◌||◌, ◌==◌, ltb, ltb→le, Bool-cases,
  inl, inr, arith, [], length, replicate, get_or, Option, Option-cases, Result, Result-cases, ok,
  invalid_argument, throw_if-ok, size_max, either_branch,
}
use fixed_size_memory_pool.Memory.{Ptr}
use fixed_size_memory_pool.SizeClass.{select}
use fixed_size_memory_pool.ThreadCacheOptions.{ThreadCacheOptions, validate_cache_options}
use fixed_size_memory_pool.ThreadCache.{
  Central, AllocationRecord, ThreadCacheState, Shard, Bins, fallback_class, normalized_size,
  find_record, with_shard, tally, flush_bins,
}
use fixed_size_memory_pool.ThreadCache.Allocate
use fixed_size_memory_pool.ThreadCache.Allocate.{note_request, request_record}
use fixed_size_memory_pool.ThreadCache.Deallocate
use fixed_size_memory_pool.ThreadCache.Deallocate.{
  deallocate_local, deallocate_active, deallocate_central, note_return, accepted,
}
use fixed_size_memory_pool.ThreadCache.Threads.{allocate-refused, allocate-large, allocate-small}
use fixed_size_memory_pool.ThreadCache.Returning.{
  deallocate-unknown, deallocate-idle, deallocate-mismatch, deallocate-accepted,
}
use fixed_size_memory_pool.ThreadCache.Capacity.{
  thrown, Within, Within-set, flush_bins-Within, push_cached-length,
}
use fixed_size_memory_pool.ThreadCache.Batch.{allocate_cached-length}

validated :
    (options : ThreadCacheOptions)
    → validate_cache_options options ≡ ok options
    → (options.low_watermark ≤ options.high_watermark)
      × (options.refill_batch ≤ options.high_watermark)
unfolding validate_cache_options
validated options h =
    let (_, positive) = throw_if-ok (options.high_watermark == 0) invalid_argument _ options h in
    let (_, bounded) =
      throw_if-ok (options.high_watermark == size_max) invalid_argument _ options positive in
    let (ordered, batched) =
      throw_if-ok (ltb options.high_watermark options.low_watermark) invalid_argument _ options
        bounded in
    let (small, _) =
      throw_if-ok ((options.refill_batch == 0) || ltb options.high_watermark options.refill_batch)
        invalid_argument (ok options) options batched in
    (ltb→le _ _ ordered, ltb→le _ _ (ground (arith, small)))

Within-replicate : (n bound : ℕ) → Within bound (replicate n [])
Within-replicate zero bound c = omega arith
Within-replicate (suc n) bound zero = omega arith
Within-replicate (suc n) bound (suc c) = Within-replicate n bound c

Within-le : (bound more : ℕ) (bins : Bins) → Within bound bins → bound ≤ more → Within more bins
Within-le bound more bins within le c = omega (arith, within c, le)

module _ {C : Type 0} (ops : Central C) (can_insert : Shard → Ptr → Bool)
    (options : ThreadCacheOptions) where
  -- The bins of a thread and the number of its returns that threw.
  pub data Uses : Bins → ℕ → Type 0 where
    begins : (classes : ℕ) → Uses (replicate classes []) 0
    allocates :
        {bins : Bins} {failures : ℕ} (s : ThreadCacheState C) (thread size alignment : ℕ)
        → s.cache_options ≡ options
        → Uses bins failures
        → Uses ((Allocate.allocate ops can_insert s thread bins size alignment).1) failures
    returns :
        {bins : Bins} {failures : ℕ} (s : ThreadCacheState C) (thread : ℕ) (pointer : Ptr)
        (supplied : Option (ℕ × ℕ))
        → s.cache_options ≡ options
        → Uses bins failures
        → Uses
            ((Deallocate.deallocate ops s thread bins pointer supplied).1)
            (failures + thrown ((Deallocate.deallocate ops s thread bins pointer supplied).2))
    releases :
        {bins : Bins} {failures : ℕ} (s : ThreadCacheState C)
        → s.cache_options ≡ options
        → Uses bins failures
        → Uses ((flush_bins ops s bins 0).1) failures

  module _ (valid : validate_cache_options options ≡ ok options) (s : ThreadCacheState C)
      (same : s.cache_options ≡ options) (bins : Bins) (k : ℕ)
      (within : Within (options.high_watermark + k) bins) where
    allocate-Within :
        (thread size alignment : ℕ)
        → Within
            (options.high_watermark + k)
            ((Allocate.allocate ops can_insert s thread bins size alignment).1)
    allocate-Within thread size alignment =
        elim (Result-cases (select s.selector (normalized_size size) alignment)) [
          | inl (e, refused) ↦
              along (allocate-refused ops can_insert s thread bins size alignment e refused) within
          | inr (selected, found) ↦ elim (Option-cases selected) [
            | inl large ↦
                along
                  (allocate-large ops can_insert s thread bins size alignment (found ∙ ap ok large))
                  within
            | inr (c, small) ↦
                along
                  (allocate-small ops can_insert s thread bins size alignment c
                    (found ∙ ap ok small))
                  (Within-set _ bins c _ within (few c))
          ]
        ]
      where
        along :
            {x y : ThreadCacheState C × Bins × Result Ptr}
            → x ≡ y
            → Within (options.high_watermark + k) y.1
            → Within (options.high_watermark + k) x.1
        along e h =
            subst
              (λ (z : ThreadCacheState C × Bins × Result Ptr).
                Within (options.high_watermark + k) z.1)
              (sym e) h

        few :
            (c : ℕ)
            → length (
                (Allocate.allocate_cached ops can_insert
                  (tally s note_request)
                  (get_or bins c [])
                  (request_record c (normalized_size size) alignment thread)).1)
              ≤ options.high_watermark + k
        few c =
            elim (allocate_cached-length ops can_insert options (tally s note_request)
              (get_or bins c []) (request_record c (normalized_size size) alignment thread) same) [
                | inl batch ↦ omega (arith, batch, (validated options valid).1)
                | inr popped ↦ omega (arith, popped, within c)
              ]

    abbrev Returned : ThreadCacheState C × Bins × Result (Unit {0}) → Type 0
    Returned x = Within (options.high_watermark + (k + thrown x.2)) x.1

    unchanged : (n : ℕ) → Within (options.high_watermark + (k + n)) bins
    unchanged n = Within-le _ _ bins within (omega arith)

    deallocate_local-Returned :
        (p : Ptr) (r : AllocationRecord)
        → Returned (deallocate_local ops (tally s note_return) bins p r)
    unfolding deallocate_local with_shard
    deallocate_local-Returned p r =
        Within-set _ bins r.class_index _ (Within-le _ _ bins within (omega arith)) (
          push_cached-length ops options k _ (get_or bins r.class_index []) p same
            ((validated options valid).0) (within r.class_index))

    deallocate-Within :
        (thread : ℕ) (p : Ptr) (supplied : Option (ℕ × ℕ))
        → Returned (Deallocate.deallocate ops s thread bins p supplied)
    unfolding deallocate_active
    deallocate-Within thread p supplied = elim (Option-cases (find_record s p)) [
      | inl unknown ↦
          subst Returned (sym (deallocate-unknown ops s thread bins p supplied unknown))
            (unchanged 1)
      | inr (r, there) ↦ elim (Bool-cases r.active) [
        | inr idle ↦
            subst Returned (sym (deallocate-idle ops s thread bins p supplied r there idle))
              (unchanged 1)
        | inl live ↦ elim (Result-cases (accepted s r supplied)) [
          | inl (e, refused) ↦
              subst Returned
                (sym (deallocate-mismatch ops s thread bins p supplied r e there live refused))
                (unchanged 1)
          | inr (_, right) ↦
              subst Returned
                (sym (deallocate-accepted ops s thread bins p supplied r there live right))
                (either_branch Returned
                  (not (r.owner_thread == thread) || (r.class_index == fallback_class)) _ _
                  (unchanged _) (deallocate_local-Returned p r))
        ]
      ]
    ]

  -- Under options that the constructor accepts, and whatever the central allocator and the other
  -- threads do, a bin of a thread never holds more blocks than the sum of the high watermark and the
  -- number of the thread's returns that threw: so it stays within the high watermark if none did,
  -- and within the reserved capacity, one more, if at most one did. The thread starts with empty
  -- bins, and allocates, returns blocks and releases its bins in any order.
  pub Uses-Within :
      {bins : Bins} {failures : ℕ}
      → validate_cache_options options ≡ ok options
      → Uses bins failures
      → (c : ℕ) → length (get_or bins c []) ≤ options.high_watermark + failures
  Uses-Within valid (begins classes) = Within-replicate classes _
  Uses-Within valid (allocates {bins} {failures = k} s thread size alignment same before) =
      allocate-Within valid s same bins k (Uses-Within valid before) thread size alignment
  Uses-Within valid (returns {bins} {failures = k} s thread p supplied same before) =
      deallocate-Within valid s same bins k (Uses-Within valid before) thread p supplied
  Uses-Within valid (releases {bins} {failures = k} s same before) =
      flush_bins-Within ops (options.high_watermark + k) s bins 0 (Uses-Within valid before)
