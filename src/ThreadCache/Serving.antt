-- ===== src/ThreadCache/Serving.antt =====
-- The three ways in which src/detail/thread_cache_state.cpp serves an allocation: from the bin, by a
-- refill, and without a size class.
use fixed_size_memory_pool.Base.{
  ◌≡◌, ap, sym, subst, ℕ, Bool, true, false, if_false, List, [], ◌∷◌, some, Result, ok, err,
}
use fixed_size_memory_pool.Base.Maps.{assign}
use fixed_size_memory_pool.Memory.{Ptr}
use fixed_size_memory_pool.ThreadCacheOptions.{note_live_allocation, note_hit}
use fixed_size_memory_pool.ThreadCache.{
  Central, AllocationRecord, ThreadCacheState, Shard, find_record, with_shard, tally,
}
use fixed_size_memory_pool.ThreadCache.Allocate.{
  Tried, done, caught, escaped, recorded_uncached, acquired_uncached, allocate_uncached, reuse,
  refilled, continue_refill, refill, allocate_cached, note_refill,
}
use fixed_size_memory_pool.ThreadCache.Records.{Same, assign-Change, tally-Same}
use fixed_size_memory_pool.ThreadCache.Bin.{
  cached_by, cached_by-record, IsBin, Sound, Sound-Same, Sound-trans, Sound-Change, Sound-pop,
  Sound-tally, has_head,
}
use fixed_size_memory_pool.ThreadCache.Filling.{
  Acquired, Acquired-Same, Recorded, Same-trans, undone-Same, central_allocate-Same,
  central_deallocate_sized-Same, record_allocation-Recorded, acquire_recorded-Acquired,
  refill_rest-Sound,
}

module _ {C : Type 0} where
  -- The state and the bin after a block of the bin was handed out again.
  abbrev pub reused : ThreadCacheState C → Ptr → AllocationRecord → ℕ → ℕ → ℕ → ThreadCacheState C
  reused s p r thread size alignment =
      tally
        (with_shard s p (
          assign p (record r {
            requested_size = size;
            alignment = alignment;
            owner_thread = thread;
            active = true;
          })))
        note_hit

  pub reuse-cached :
      (t c : ℕ) (s : ThreadCacheState C) (p : Ptr) (thread size alignment : ℕ)
      → cached_by t c (find_record s p) ≡ true
      → (r : AllocationRecord) × (find_record s p ≡ some r)
        × (reuse s p thread size alignment ≡ (reused s p r thread size alignment, ok p))
  unfolding reuse
  reuse-cached t c s p thread size alignment h =
      let (r, there, idle, _, _) = cached_by-record t c _ h in
      (r, there, rw (reuse, there) (if_false _ _ idle))

  -- The head of a bin is handed out, and the central allocator is not called.
  pub reuse-hit :
      (t c : ℕ) (s : ThreadCacheState C) (p : Ptr) (thread size alignment : ℕ)
      → cached_by t c (find_record s p) ≡ true
      → ((reuse s p thread size alignment).1 ≡ ok p)
        × ((reuse s p thread size alignment).0.central ≡ s.central)
  unfolding with_shard
  reuse-hit t c s p thread size alignment h =
      let (r, _, taken) = reuse-cached t c s p thread size alignment h in
      (
        ap (λ (x : ThreadCacheState C × Result Ptr). x.1) taken,
        ap (λ (x : ThreadCacheState C × Result Ptr). x.0.central) taken,
      )

  reuse-Sound :
      (t c : ℕ) (s : ThreadCacheState C) (p : Ptr) (bin : List Ptr) (thread size alignment : ℕ)
      → IsBin s t c (p ∷ bin)
      → Sound t c s (reuse s p thread size alignment).0 bin
  reuse-Sound t c s p bin thread size alignment is_bin =
      let (r, there, taken) =
        reuse-cached t c s p thread size alignment (is_bin.0 p (has_head p bin)) in
      subst (λ x. Sound t c s x.0 bin) (sym taken)
        (Sound-tally t c s _ bin note_hit
          (Sound-pop t c s _ p _ bin is_bin (assign-Change s p r _ there)))

  refilled-Sound :
      (t c : ℕ) (s : ThreadCacheState C) (p : Ptr)
      (x : ThreadCacheState C × List Ptr × Result (Unit {0}))
      → Sound t c s x.0 x.1
      → Sound t c s (refilled p x).0 ((refilled p x).1)
  unfolding refilled
  refilled-Sound t c s p (after, filled, err e) sound = sound
  refilled-Sound t c s p (after, filled, ok _) sound =
      Sound-tally t c s after filled note_live_allocation sound

module _ {C : Type 0} (ops : Central C) (can_insert : Shard → Ptr → Bool) where
  -- `r` is the record of the request; its block is active, and those that follow are not.
  continue_refill-Sound :
      (t c : ℕ) (s : ThreadCacheState C) (bin : List Ptr) (r : AllocationRecord)
      (x : ThreadCacheState C × Tried)
      → cached_by t c (some (record r { active = false })) ≡ true
      → IsBin s t c bin
      → Acquired s (record r { active = true }) x
      → Sound t c s
          (continue_refill ops can_insert bin r x).0
          ((continue_refill ops can_insert bin r x).1)
  unfolding continue_refill
  continue_refill-Sound t c s bin r (after, caught e) ours is_bin same =
      Sound-Same t c s after bin is_bin same
  continue_refill-Sound t c s bin r (after, escaped e) ours is_bin same =
      Sound-Same t c s after bin is_bin same
  continue_refill-Sound t c s bin r (after, done p) ours is_bin (unknown, change) =
      refilled-Sound t c s p _ (
        Sound-trans t c s after _ bin _ first
          (refill_rest-Sound ops can_insert t c _ _ after bin ours first.0))
    where
      first : Sound t c s after bin
      first = Sound-Change t c s after p _ bin is_bin change (λ t' c'. ap (cached_by t' c') unknown)

  refill-Sound :
      (t c : ℕ) (s : ThreadCacheState C) (bin : List Ptr) (r : AllocationRecord)
      → cached_by t c (some (record r { active = false })) ≡ true
      → IsBin s t c bin
      → Sound t c s (refill ops can_insert s bin r).0 ((refill ops can_insert s bin r).1)
  unfolding refill
  refill-Sound t c s bin r ours is_bin = continue_refill-Sound t c s bin r _ ours is_bin (
      Acquired-Same s (tally s note_refill) _ _ (tally-Same s note_refill) (
        acquire_recorded-Acquired ops can_insert (tally s note_refill)
          (record r { active = true })))

  pub allocate_cached-Sound :
      (t c : ℕ) (s : ThreadCacheState C) (bin : List Ptr) (r : AllocationRecord)
      → cached_by t c (some (record r { active = false })) ≡ true
      → IsBin s t c bin
      → Sound t c s
          (allocate_cached ops can_insert s bin r).0
          ((allocate_cached ops can_insert s bin r).1)
  unfolding allocate_cached
  allocate_cached-Sound t c s [] r ours is_bin = refill-Sound t c s [] r ours is_bin
  allocate_cached-Sound t c s (p ∷ bin) r ours is_bin = reuse-Sound t c s p bin _ _ _ is_bin

  recorded_uncached-Sound :
      (t c : ℕ) (s : ThreadCacheState C) (bin : List Ptr) (r : AllocationRecord) (p : Ptr)
      (x : ThreadCacheState C × Result (Unit {0}))
      → IsBin s t c bin
      → Recorded s p r x
      → Sound t c s (recorded_uncached ops can_insert r p x).0 bin
  unfolding recorded_uncached
  recorded_uncached-Sound t c s bin r p (after, err e) is_bin same = Sound-Same t c s _ bin is_bin (
      undone-Same s e _
        (Same-trans s after _ same (central_deallocate_sized-Same ops can_insert after p _ _)))
  recorded_uncached-Sound t c s bin r p (after, ok _) is_bin (unknown, change) =
      Sound-tally t c s after bin note_live_allocation (
        Sound-Change t c s after p (some r) bin is_bin change
          (λ t' c'. ap (cached_by t' c') unknown))

  acquired_uncached-Sound :
      (t c : ℕ) (s : ThreadCacheState C) (bin : List Ptr) (r : AllocationRecord)
      (x : ThreadCacheState C × Result Ptr)
      → IsBin s t c bin
      → Same s x.0
      → Sound t c s (acquired_uncached ops can_insert r x).0 bin
  unfolding acquired_uncached
  acquired_uncached-Sound t c s bin r (after, err e) is_bin same =
      Sound-Same t c s after bin is_bin same
  acquired_uncached-Sound t c s bin r (after, ok p) is_bin same =
      Sound-trans t c s after _ bin bin (Sound-Same t c s after bin is_bin same) (
        recorded_uncached-Sound t c after bin r p _ ((Sound-Same t c s after bin is_bin same).0)
          (record_allocation-Recorded ops can_insert after p r))

  -- An allocation without a size class changes no bin.
  pub allocate_uncached-Sound :
      (t c : ℕ) (s : ThreadCacheState C) (bin : List Ptr) (r : AllocationRecord)
      → IsBin s t c bin
      → Sound t c s (allocate_uncached ops can_insert s r).0 bin
  unfolding allocate_uncached
  allocate_uncached-Sound t c s bin r is_bin =
      acquired_uncached-Sound t c s bin r _ is_bin (central_allocate-Same ops can_insert s _ _)
