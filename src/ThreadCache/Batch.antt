-- ===== src/ThreadCache/Batch.antt =====
-- How many blocks an allocation of src/detail/thread_cache_state.cpp puts into a bin.
use fixed_size_memory_pool.Base.{
  ◌≡◌, subst, Bool, true, false, ℕ, zero, suc, ◌+◌, ◌-◌, ◌≤◌, inl, inr, ◌⊎◌, arith, List, [], ◌∷◌,
  length, Result, ok, err,
}
use fixed_size_memory_pool.Memory.{Ptr}
use fixed_size_memory_pool.ThreadCacheOptions.{ThreadCacheOptions, note_cached}
use fixed_size_memory_pool.ThreadCache.{Central, AllocationRecord, ThreadCacheState, Shard, tally}
use fixed_size_memory_pool.ThreadCache.Allocate.{
  Tried, done, caught, escaped, note_refill, next_round, refill_rest, refilled, continue_refill,
  refill, allocate_cached,
}
use fixed_size_memory_pool.ThreadCache.Options.{Under, acquire_recorded-Under}

module _ {C : Type 0} (ops : Central C) (can_insert : Shard → Ptr → Bool) where
  next_round-length :
      (n : ℕ) (bin : List Ptr)
      (rest : ThreadCacheState C → List Ptr → ThreadCacheState C × List Ptr × Result (Unit {0}))
      (x : ThreadCacheState C × Tried)
      → ((m : ThreadCacheState C) (filled : List Ptr)
          → length ((rest m filled).1) ≤ n + length filled)
      → length ((next_round rest bin x).1) ≤ suc n + length bin
  unfolding next_round
  next_round-length n bin rest (after, caught e) later = omega arith
  next_round-length n bin rest (after, escaped e) later = omega arith
  next_round-length n bin rest (after, done p) later =
      omega (arith, later (tally after note_cached) (p ∷ bin))

  -- A round of the refill adds one block at most.
  refill_rest-length :
      (rounds : ℕ) (s : ThreadCacheState C) (bin : List Ptr) (r : AllocationRecord)
      → length ((refill_rest ops can_insert rounds s bin r).1) ≤ rounds + length bin
  unfolding refill_rest
  refill_rest-length zero s bin r = omega arith
  refill_rest-length (suc rounds) s bin r =
      next_round-length rounds bin (λ m filled. refill_rest ops can_insert rounds m filled r) _
        (λ m filled. refill_rest-length rounds m filled r)

  refilled-length :
      (bound : ℕ) (p : Ptr) (x : ThreadCacheState C × List Ptr × Result (Unit {0}))
      → length x.1 ≤ bound
      → length ((refilled p x).1) ≤ bound
  unfolding refilled
  refilled-length bound p (after, filled, err e) few = few
  refilled-length bound p (after, filled, ok _) few = few

  continue_refill-length :
      (options : ThreadCacheOptions) (r : AllocationRecord) (x : ThreadCacheState C × Tried)
      → Under options x
      → length ((continue_refill ops can_insert [] r x).1) ≤ options.refill_batch
  unfolding continue_refill
  continue_refill-length options r (after, caught e) under = omega arith
  continue_refill-length options r (after, escaped e) under = omega arith
  continue_refill-length options r (after, done p) under =
      refilled-length options.refill_batch p _ (
        subst
          (λ (o : ThreadCacheOptions).
            length (
              (refill_rest ops can_insert (after.cache_options.refill_batch - 1) after []
                (record r { active = false })).1)
            ≤ o.refill_batch)
          under
          (omega (
            arith,
            refill_rest-length (after.cache_options.refill_batch - 1) after []
                (record r { active = false }),
          )))

  -- An allocation takes a block off a bin, or fills an empty one with a batch at most.
  pub allocate_cached-length :
      (options : ThreadCacheOptions) (s : ThreadCacheState C) (bin : List Ptr)
      (r : AllocationRecord)
      → s.cache_options ≡ options
      → (length ((allocate_cached ops can_insert s bin r).1) ≤ options.refill_batch)
        ⊎ (length ((allocate_cached ops can_insert s bin r).1) ≤ length bin)
  unfolding allocate_cached refill
  allocate_cached-length options s [] r same = inl (
      subst
        (λ (o : ThreadCacheOptions).
          length ((allocate_cached ops can_insert s [] r).1) ≤ o.refill_batch)
        same
        (continue_refill-length s.cache_options r _ (
          acquire_recorded-Under ops can_insert (tally s note_refill)
            (record r { active = true }))))
  allocate_cached-length options s (p ∷ bin) r same = inr (omega arith)
